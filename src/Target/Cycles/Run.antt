-- ===== src/Target/Cycles/Run.antt =====
-- The run of the cycle test of src/target_modules/graph.rs as a whole.
use docker_lens.Prelude.{
  ℕ, zero, suc, ◌+◌, ◌≡◌, ◌≤◌, inl, inr, refl, ◌∙◌, arith, false, some, List, [], ◌∷◌, length,
  length-map, length-Distinct, contains, Distinct, In, contains→In, Bool-cases, ◌==◌, nat_eq,
  nat_beq_iff,
}
use docker_lens.Observation.{ResourceRef}
use docker_lens.Target.Node.{OperationNode}
use docker_lens.Target.Cycles.{
  dependents_map, next_of, remaining_map, initial_ready, Queue, release, visit, visited_nodes,
}
use docker_lens.Target.Cycles.Release.{dependents_of, next_of-dependents_map}
use docker_lens.Target.Cycles.Turn.{pending, remaining_of, resources_of, pushed, release-visit}
use docker_lens.Target.Cycles.Pushed.{node_unique, In-resources_of}
use docker_lens.Target.Cycles.Visited.{dependencies, IsTurn, head_fresh, next-IsTurn}

pub length-resources_of : (nodes : List OperationNode) → length (resources_of nodes) ≡ length nodes
length-resources_of nodes = length-map (λ n. n.operation.resource) nodes

pub length-visited :
    (nodes : List OperationNode) (vs ready : List ResourceRef)
    → IsTurn nodes vs ready
    → length vs ≤ length nodes
length-visited nodes vs ready turn =
    let small = length-Distinct vs (resources_of nodes) turn.distinct turn.known in
    omega (arith, small, length-resources_of nodes)

visit_nothing :
    (fuel : ℕ) (dependents : List (ResourceRef × List ResourceRef)) (m : List (ResourceRef × ℕ))
    (k : ℕ)
    → visit (suc fuel) dependents (record { remaining = m; ready = [] }) k ≡ some k
unfolding visit
visit_nothing fuel dependents m k = refl

visit_step :
    (fuel : ℕ) (dependents : List (ResourceRef × List ResourceRef)) (v : ResourceRef)
    (next ready : List ResourceRef) (k : ℕ) (m : List (ResourceRef × ℕ)) {later : Queue}
    → next_of v dependents ≡ next
    → release next (record { remaining = m; ready = ready }) ≡ some later
    → visit (suc fuel) dependents (record { remaining = m; ready = v ∷ ready }) k
      ≡ visit fuel dependents later (suc k)
unfolding visit
visit_step fuel dependents v next ready k m e r = rw (e, r, visit) refl

visit-IsTurn :
    (nodes : List OperationNode) (fuel : ℕ) (vs ready : List ResourceRef)
    → Distinct (resources_of nodes)
    → IsTurn nodes vs ready
    → length vs + fuel ≡ suc (length nodes)
    → (last : List ResourceRef) × IsTurn nodes last []
      × (visit fuel
            (dependents_map nodes [])
            (record { remaining = remaining_of vs nodes; ready = ready })
            (length vs)
          ≡ some (length last))
unfolding next_of
visit-IsTurn nodes zero vs ready unique turn enough =
    absurd (omega (arith, length-visited nodes vs ready turn, enough))
visit-IsTurn nodes (suc fuel) vs [] unique turn enough =
    (vs, turn, visit_nothing fuel (dependents_map nodes []) (remaining_of vs nodes) (length vs))
visit-IsTurn nodes (suc fuel) vs (v ∷ ready) unique turn enough =
    let fresh = head_fresh nodes unique v vs ready turn in
    let absent : contains vs v ≡ false = elim (Bool-cases (contains vs v)) [
      | inl found ↦ absurd (fresh (contains→In v vs found))
      | inr e ↦ e
    ] in
    let (last, done, run) =
      visit-IsTurn nodes fuel (v ∷ vs) (pushed v vs nodes ready) unique
        (next-IsTurn nodes unique v vs ready turn) (omega (arith, enough)) in
    (
      last,
      done,
      visit_step fuel (dependents_map nodes []) v (dependents_of v nodes) ready (length vs)
            (remaining_of vs nodes) (next_of-dependents_map v nodes [])
            (release-visit v vs nodes ready unique absent)
          ∙ run,
    )

pending-nothing : (ds : List ResourceRef) → length ds ≡ pending [] ds
pending-nothing [] = refl
pending-nothing (d ∷ ds) = omega (arith, pending-nothing ds)

remaining_map_lem : (nodes : List OperationNode) → remaining_map nodes ≡ remaining_of [] nodes
remaining_map_lem [] = refl
remaining_map_lem (n ∷ nodes) = rw (pending-nothing (dependencies n), remaining_map_lem nodes) refl

initial_ready-In :
    (u : ResourceRef) (nodes : List OperationNode)
    → In u (initial_ready (remaining_of [] nodes))
    → (n : OperationNode) × In n nodes
      × (n.operation.resource ≡ u)
      × (pending [] (dependencies n) ≡ 0)
unfolding initial_ready
initial_ready-In u [] m = absurd m
initial_ready-In u (n ∷ nodes) m = elim (Bool-cases (pending [] (dependencies n) == 0)) [
  | inl free ↦ elim (rw free at m) [
    | inl same ↦ (n, inl refl, same, (nat_beq_iff (pending [] (dependencies n)) 0).0 free)
    | inr later ↦ let (k, p, q, z) = initial_ready-In u nodes later in (k, inr p, q, z)
  ]
  | inr held ↦ let (k, p, q, z) = initial_ready-In u nodes (rw held at m) in (k, inr p, q, z)
]

initial_ready_of :
    (n : OperationNode) (nodes : List OperationNode)
    → In n nodes
    → pending [] (dependencies n) ≡ 0
    → In n.operation.resource (initial_ready (remaining_of [] nodes))
unfolding initial_ready
initial_ready_of n [] m free = absurd m
initial_ready_of n (x ∷ nodes) (inl same) free = rw (same, free) (inl refl)
initial_ready_of n (x ∷ nodes) (inr m) free =
    let rest = initial_ready_of n nodes m free in
    elim (Bool-cases (pending [] (dependencies x) == 0)) [
      | inl e ↦ rw e (inr rest)
      | inr e ↦ rw e rest
    ]

initial_ready-Distinct :
    (nodes : List OperationNode)
    → Distinct (resources_of nodes)
    → Distinct (initial_ready (remaining_of [] nodes))
unfolding initial_ready
initial_ready-Distinct [] d = tt
initial_ready-Distinct (n ∷ nodes) d =
    let rest = initial_ready-Distinct nodes d.1 in
    elim (Bool-cases (pending [] (dependencies n) == 0)) [
      | inl e ↦ rw e (
        (λ m.
            let (k, p, q, z) = initial_ready-In n.operation.resource nodes m in
            d.0 (rw (← q) (In-resources_of k nodes p))),
        rest,
      )
      | inr e ↦ rw e rest
    ]

first-IsTurn :
    (nodes : List OperationNode)
    → Distinct (resources_of nodes)
    → IsTurn nodes [] (initial_ready (remaining_of [] nodes))
first-IsTurn nodes unique = record {
  ready_iff = λ n m. (
    (λ r.
        let (k, p, q, free) = initial_ready-In n.operation.resource nodes r in
        (rw (← node_unique k n nodes unique p m q) free, λ x. x)),
    (λ h. initial_ready_of n nodes m h.0),
  );
  ready_known =
      λ u m. let (k, p, q, z) = initial_ready-In u nodes m in rw (← q) (In-resources_of k nodes p);
  ready_distinct = initial_ready-Distinct nodes unique;
  known = λ u m. absurd m;
  distinct = tt;
  order = tt;
}

-- the whole run
pub visited_nodes-IsTurn :
    (nodes : List OperationNode)
    → Distinct (resources_of nodes)
    → (last : List ResourceRef) × IsTurn nodes last [] × (visited_nodes nodes ≡ some (length last))
unfolding visited_nodes
visited_nodes-IsTurn nodes unique = rw (remaining_map_lem nodes) (
    visit-IsTurn nodes (suc (length nodes)) [] (initial_ready (remaining_of [] nodes)) unique
      (first-IsTurn nodes unique) (omega arith))

-- If the nodes have distinct resources, the loop ends and does not panic, and it visits at most all
-- of the nodes.
pub visited_nodes_total :
    (nodes : List OperationNode)
    → Distinct (resources_of nodes)
    → (k : ℕ) × (visited_nodes nodes ≡ some k) × (k ≤ length nodes)
visited_nodes_total nodes unique =
    let (last, turn, run) = visited_nodes-IsTurn nodes unique in
    (length last, run, length-visited nodes last [] turn)
