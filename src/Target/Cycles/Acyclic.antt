-- ===== src/Target/Cycles/Acyclic.antt =====
-- The answer of the cycle test of `OperationGraph::new` in src/target_modules/graph.rs.
use docker_lens.Prelude.{
  ℕ, zero, suc, ◌≡◌, ◌≤◌, ◌<◌, ◌↔◌, inl, inr, refl, ap, sym, subst, ◌∙◌, arith, true, some,
  some-eq_some, List, [], ◌∷◌, length, length-Distinct, all_of_Distinct, contains, Distinct, In,
  In→contains, contains→In, Bool-cases, ◌==◌, nat_eq, nat_beq_iff, if◌then◌else◌,
}
use docker_lens.Observation.{ResourceRef}
use docker_lens.Target.Node.{OperationNode}
use docker_lens.Target.Cycles.{visited_nodes}
use docker_lens.Target.Cycles.Release.{to_set_iff}
use docker_lens.Target.Cycles.Turn.{resources_of}
use docker_lens.Target.Cycles.Pushed.{pending-zero, pending_of_In, In-resources_of}
use docker_lens.Target.Cycles.Visited.{
  dependencies, IsOrder, IsTurn, order-pending, In-resources_of_node,
}
use docker_lens.Target.Cycles.Run.{length-resources_of, length-visited, visited_nodes-IsTurn}

-- the nodes have ranks that grow from each dependency to its dependent
abbrev pub IsAcyclic : List OperationNode → Type 0
IsAcyclic nodes =
    (rank : ResourceRef → ℕ) × ((n : OperationNode)
      → In n nodes
      → (d : ResourceRef) → In d n.depends_on
      → rank d < rank n.operation.resource)

-- each dependency is the resource of a node
abbrev pub IsClosed : List OperationNode → Type 0
IsClosed nodes =
    (n : OperationNode)
    → In n nodes
    → (d : ResourceRef) → In d n.depends_on
    → In d (resources_of nodes)

-- the place of a visited node, in the order of the visits
place : List ResourceRef → ResourceRef → ℕ
place [] u = 0
place (v ∷ vs) u = let rest = place vs u in if v == u then suc (length vs) else rest

place_bound : (vs : List ResourceRef) (u : ResourceRef) → place vs u ≤ length vs
unfolding place
place_bound [] u = omega arith
place_bound (v ∷ vs) u = ground (arith, place_bound vs u)

place_later :
    (v u : ResourceRef) (vs : List ResourceRef)
    → ¬ In v vs
    → In u vs
    → place (v ∷ vs) u ≡ place vs u
unfolding place
place_later v u vs fresh m = elim (Bool-cases (v == u)) [
  | inl same ↦ absurd (fresh (rw ((nat_beq_iff v u).0 same) m))
  | inr other ↦ rw other refl
]

place_order :
    (nodes : List OperationNode) (vs : List ResourceRef) (n : OperationNode) (d : ResourceRef)
    → Distinct vs
    → IsOrder nodes vs
    → In n nodes
    → In n.operation.resource vs
    → In d (dependencies n)
    → place vs d < place vs n.operation.resource
unfolding place
place_order nodes [] n d distinct order m seen k = absurd seen
place_order nodes (v ∷ vs) n d distinct order m (inl same) k =
    let before = pending-zero vs (dependencies n) d (order.0 n m (sym same)) k in
    let at_end : (v == n.operation.resource) ≡ true = (nat_beq_iff v n.operation.resource).1 same in
    rw (at_end, place_later v d vs distinct.0 before) (omega (arith, place_bound vs d))
place_order nodes (v ∷ vs) n d distinct order m (inr seen) k =
    let before = pending-zero vs (dependencies n) d (order-pending nodes vs n order.1 m seen) k in
    rw (place_later v d vs distinct.0 before, place_later v n.operation.resource vs distinct.0 seen)
      (place_order nodes vs n d distinct.1 order.1 m seen k)

order-IsAcyclic :
    (nodes : List OperationNode) (last : List ResourceRef)
    → Distinct (resources_of nodes)
    → IsTurn nodes last []
    → length last ≡ length nodes
    → IsAcyclic nodes
order-IsAcyclic nodes last unique turn size = (
  place last,
  λ n m d k.
      place_order nodes last n d turn.distinct turn.order m
        (all_of_Distinct last (resources_of nodes) turn.distinct turn.known
          (omega (arith, size, length-resources_of nodes)) n.operation.resource
          (In-resources_of n nodes m))
        ((to_set_iff d n.depends_on).1 k),
)

-- with ranks, each node is visited
ranked-visited :
    (nodes : List OperationNode) (last : List ResourceRef) (acyclic : IsAcyclic nodes)
    → IsTurn nodes last []
    → IsClosed nodes
    → (bound : ℕ) (n : OperationNode) → In n nodes
    → acyclic.0 n.operation.resource < bound
    → In n.operation.resource last
ranked-visited nodes last acyclic turn closed zero n m small = absurd (omega (arith, small))
ranked-visited nodes last acyclic turn closed (suc bound) n m small =
    let seen = λ (d : ResourceRef) (k : In d (dependencies n)).
      let given = (to_set_iff d n.depends_on).0 k in
      let (p, q, e) = In-resources_of_node d nodes (closed n m d given) in
      let visited : In p.operation.resource last =
        ranked-visited nodes last acyclic turn closed bound p q
          (rw e (omega (arith, small, acyclic.1 n m d given))) in
      subst (λ r. In r last) e visited in
    let done = pending_of_In last (dependencies n) seen in
    elim (Bool-cases (contains last n.operation.resource)) [
      | inl found ↦ contains→In n.operation.resource last found
      | inr missing ↦ absurd (
          (turn.ready_iff n m).1
            (done, λ k. let found = In→contains n.operation.resource last k in cc))
    ]

ranked-length :
    (nodes : List OperationNode) (last : List ResourceRef)
    → Distinct (resources_of nodes)
    → IsClosed nodes
    → IsTurn nodes last []
    → IsAcyclic nodes
    → length last ≡ length nodes
ranked-length nodes last unique closed turn acyclic =
    let all_visited = length-Distinct (resources_of nodes) last unique (λ u k.
      let (n, m, e) = In-resources_of_node u nodes k in
      rw (← e) (
        ranked-visited nodes last acyclic turn closed (suc (acyclic.0 n.operation.resource)) n m
          (omega arith))) in
    omega (arith, all_visited, length-resources_of nodes, length-visited nodes last [] turn)

-- If the nodes have distinct resources and depend on one another only, the loop visits all of them
-- exactly if they have ranks that grow from each dependency to its dependent.
pub visited_nodes_iff :
    (nodes : List OperationNode)
    → Distinct (resources_of nodes)
    → IsClosed nodes
    → (visited_nodes nodes ≡ some (length nodes)) ↔ IsAcyclic nodes
visited_nodes_iff nodes unique closed =
    let (last, turn, run) = visited_nodes-IsTurn nodes unique in
    (
      (λ all_seen. order-IsAcyclic nodes last unique turn (some-eq_some (sym run ∙ all_seen))),
      (λ acyclic. run ∙ ap some (ranked-length nodes last unique closed turn acyclic)),
    )
