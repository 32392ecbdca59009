-- ===== src/Target/Cycles/Visited.antt =====
-- The invariant of the cycle test's loop, with the list of the nodes visited so far as a ghost.
use docker_lens.Prelude.{
  ◌≡◌, ◌↔◌, inl, inr, refl, sym, arith, true, List, [], ◌∷◌, contains, Distinct, In, In-map_origin,
  Bool-cases, &&-true, ◌==◌, nat_eq, nat_beq_iff,
}
use docker_lens.Observation.{ResourceRef}
use docker_lens.Target.Node.{OperationNode}
use docker_lens.Target.Cycles.{to_set}
use docker_lens.Target.Cycles.Release.{to_set-Distinct}
use docker_lens.Target.Cycles.Turn.{pending, resources_of, is_released, pushed}
use docker_lens.Target.Cycles.Pushed.{
  pending-later, pending-positive, pending-kept, node_unique, In-resources_of, pushed-In,
  pushed_old, pushed_released, pushed-Distinct,
}

abbrev pub dependencies : OperationNode → List ResourceRef
dependencies n = to_set n.depends_on

-- each visited node was visited behind its dependencies
abbrev pub IsOrder : List OperationNode → List ResourceRef → Type 0
IsOrder nodes [] = Unit
IsOrder nodes (v ∷ vs) =
    ((n : OperationNode) → In n nodes → n.operation.resource ≡ v → pending vs (dependencies n) ≡ 0)
    × IsOrder nodes vs

pub record IsTurn (nodes : List OperationNode) (vs ready : List ResourceRef) : Type 0 where
  pub ready_iff :
      (n : OperationNode)
      → In n nodes
      → In n.operation.resource ready
        ↔ (pending vs (dependencies n) ≡ 0) × (¬ In n.operation.resource vs)
  pub ready_known : (u : ResourceRef) → In u ready → In u (resources_of nodes)
  pub ready_distinct : Distinct ready
  pub known : (u : ResourceRef) → In u vs → In u (resources_of nodes)
  pub distinct : Distinct vs
  pub order : IsOrder nodes vs

pub order-pending :
    (nodes : List OperationNode) (vs : List ResourceRef) (n : OperationNode)
    → IsOrder nodes vs
    → In n nodes
    → In n.operation.resource vs
    → pending vs (dependencies n) ≡ 0
order-pending nodes [] n o m seen = absurd seen
order-pending nodes (v ∷ vs) n o m (inl same) =
    pending-later v vs (dependencies n) (o.0 n m (sym same))
order-pending nodes (v ∷ vs) n o m (inr seen) =
    pending-later v vs (dependencies n) (order-pending nodes vs n o.1 m seen)

pub In-resources_of_node :
    (u : ResourceRef) (nodes : List OperationNode)
    → In u (resources_of nodes)
    → (n : OperationNode) × In n nodes × (n.operation.resource ≡ u)
In-resources_of_node u nodes m = In-map_origin (λ x. x.operation.resource) u nodes m

module _ (nodes : List OperationNode) (unique : Distinct (resources_of nodes)) (v : ResourceRef)
    (vs ready : List ResourceRef) (turn : IsTurn nodes vs (v ∷ ready)) where
  pub head_fresh : ¬ In v vs
  head_fresh =
      let (n, m, e) = In-resources_of_node v nodes (turn.ready_known v (inl refl)) in
      rw (← e) (((turn.ready_iff n m).0 (inl (sym e))).1)

  -- a released node has waited
  released_waits :
      (n : OperationNode) → is_released v vs n ≡ true → ¬ (pending vs (dependencies n) ≡ 0)
  released_waits n freed =
      pending-positive v vs (dependencies n) (to_set-Distinct n.depends_on) head_fresh
        (&&-true (contains (dependencies n) v) (pending (v ∷ vs) (dependencies n) == 0) freed).0

  turn_ready :
      (n : OperationNode)
      → In n nodes
      → In n.operation.resource (pushed v vs nodes ready)
      → (pending (v ∷ vs) (dependencies n) ≡ 0) × (¬ In n.operation.resource (v ∷ vs))
  turn_ready n m r = elim (pushed-In v n.operation.resource vs nodes ready r) [
    | inl old ↦
        let (zero_before, fresh) = (turn.ready_iff n m).0 (inr old) in
        (
          pending-later v vs (dependencies n) zero_before,
          λ seen. elim seen [
            | inl same ↦ turn.ready_distinct.0 (rw same old)
            | inr earlier ↦ fresh earlier
          ],
        )
    | inr (k, p, q, freed) ↦
        let freed_n : is_released v vs n ≡ true = rw (← node_unique k n nodes unique p m q) freed in
        (
          (nat_beq_iff (pending (v ∷ vs) (dependencies n)) 0).0
              (&&-true (contains (dependencies n) v) (pending (v ∷ vs) (dependencies n) == 0)
                freed_n).1,
          λ seen. released_waits n freed_n (elim seen [
            | inl same ↦ ((turn.ready_iff n m).0 (inl same)).0
            | inr earlier ↦ order-pending nodes vs n turn.order m earlier
          ]),
        )
  ]

  turn_pushed :
      (n : OperationNode)
      → In n nodes
      → (pending (v ∷ vs) (dependencies n) ≡ 0) × (¬ In n.operation.resource (v ∷ vs))
      → In n.operation.resource (pushed v vs nodes ready)
  turn_pushed n m (done, fresh) = elim (Bool-cases (contains (dependencies n) v)) [
    | inl waits ↦
        pushed_released v n vs nodes ready m
          (ground (arith, nat_beq_iff (pending (v ∷ vs) (dependencies n)) 0))
    | inr apart ↦
        elim ((turn.ready_iff n m).1
          (pending-kept v vs (dependencies n) apart done, λ seen. fresh (inr seen))) [
            | inl same ↦ absurd (fresh (inl same))
            | inr old ↦ pushed_old v n.operation.resource vs nodes ready old
          ]
  ]

  pub next-IsTurn : IsTurn nodes (v ∷ vs) (pushed v vs nodes ready)
  next-IsTurn = record {
    ready_iff = λ n m. (turn_ready n m, turn_pushed n m);
    ready_known = λ u m. elim (pushed-In v u vs nodes ready m) [
      | inl old ↦ turn.ready_known u (inr old)
      | inr (k, p, q, freed) ↦ rw (← q) (In-resources_of k nodes p)
    ];
    ready_distinct =
        pushed-Distinct v vs nodes ready unique turn.ready_distinct.1
          (λ n m freed old. released_waits n freed ((turn.ready_iff n m).0 (inr old)).0);
    known = λ u m. elim m [
      | inl same ↦ rw (← same) (turn.ready_known v (inl refl))
      | inr earlier ↦ turn.known u earlier
    ];
    distinct = (head_fresh, turn.distinct);
    order = ((λ n m e. ((turn.ready_iff n m).0 (inl (sym e))).0), turn.order);
  }
