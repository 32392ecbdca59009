-- ===== src/Target/Cycles/Turn.antt =====
-- The counts of the cycle test as a function of the nodes visited, and one turn of its loop.
use docker_lens.Prelude.{
  ℕ, suc, ◌+◌, ◌≡◌, inl, inr, refl, sym, arith, Bool, true, false, not, ◌&&◌, some, List, [], ◌∷◌,
  map, count, contains, Distinct, In, contains→In, Bool-cases, Option-cases, ◌==◌, nat_eq,
  nat_beq_iff, beq_refl, if◌then◌else◌,
}
use docker_lens.Observation.{ResourceRef}
use docker_lens.Target.Node.{OperationNode}
use docker_lens.Target.Cycles.{to_set, decrement, release_one, release}
use docker_lens.Target.Cycles.Release.{to_set-Distinct, dependents_of}

-- the dependencies that are not visited yet
abbrev pub pending : List ResourceRef → List ResourceRef → ℕ
pending visited dependencies = count (λ d. not (contains visited d)) dependencies

pub pending-visit :
    (v : ResourceRef) (visited ds : List ResourceRef)
    → Distinct ds
    → contains visited v ≡ false
    → pending visited ds ≡ (if contains ds v then 1 else 0) + pending (v ∷ visited) ds
pending-visit v visited [] d fresh = refl
pending-visit v visited (x ∷ ds) d fresh =
    let rest = pending-visit v visited ds d.1 fresh in
    elim (Bool-cases (x == v)) [
      | inl same ↦
          let e = (nat_beq_iff x v).0 same in
          let absent : contains ds v ≡ false = elim (Bool-cases (contains ds v)) [
            | inl found ↦ absurd (d.0 (rw e (contains→In v ds found)))
            | inr e ↦ e
          ] in
          let old : contains visited x ≡ false = rw e fresh in
          let new : (v == x) ≡ true = (nat_beq_iff v x).1 (sym e) in ground arith
      | inr other ↦ let different : (v == x) ≡ false = ground arith in ground arith
    ]

-- the map `remaining` behind the visits
abbrev pub remaining_of : List ResourceRef → List OperationNode → List (ResourceRef × ℕ)
remaining_of visited nodes =
    map (λ n. (n.operation.resource, pending visited (to_set n.depends_on))) nodes

abbrev pub resources_of : List OperationNode → List ResourceRef
resources_of nodes = map (λ n. n.operation.resource) nodes

-- the visit of `v` leaves no dependency of the node pending
abbrev pub is_released : ResourceRef → List ResourceRef → OperationNode → Bool
is_released v visited n =
    contains (to_set n.depends_on) v && pending (v ∷ visited) (to_set n.depends_on) == 0

-- `ready` behind the visit of `v`
abbrev pub pushed :
    ResourceRef → List ResourceRef → List OperationNode → List ResourceRef → List ResourceRef
pushed v visited [] ready = ready
pushed v visited (n ∷ nodes) ready =
    pushed v visited nodes (if is_released v visited n then n.operation.resource ∷ ready else ready)

decrement-skip :
    (u key k c : ℕ) (m later : List (ResourceRef × ℕ))
    → ¬ (key ≡ u)
    → decrement u m ≡ some (c, later)
    → decrement u ((key, k) ∷ m) ≡ some (c, (key, k) ∷ later)
unfolding decrement
decrement-skip u key k c m later other h = ground arith

decrement-head :
    (u k : ℕ) (m : List (ResourceRef × ℕ)) → decrement u ((u, suc k) ∷ m) ≡ some (k, (u, k) ∷ m)
unfolding decrement
decrement-head u k m = rw (beq_refl u) refl

release-skip :
    (key k : ℕ) (next ready ready_later : List ResourceRef) (m later : List (ResourceRef × ℕ))
    → ¬ In key next
    → release next (record { remaining = m; ready = ready })
      ≡ some (record { remaining = later; ready = ready_later })
    → release next (record { remaining = (key, k) ∷ m; ready = ready })
      ≡ some (record { remaining = (key, k) ∷ later; ready = ready_later })
unfolding release release_one
release-skip key k [] ready ready_later m later apart h = cc
release-skip key k (u ∷ next) ready ready_later m later apart h =
    elim (Option-cases (decrement u m)) [
      | inl missing ↦ let bad = rw (missing, release, release_one) at h in cc
      | inr (p, e) ↦
          let skipped = decrement-skip u key k p.0 m p.1 (λ same. apart (inl (sym same))) e in
          rw (skipped, release, release_one)
            (release-skip key k next (if p.0 == 0 then u ∷ ready else ready) ready_later p.1 later
              (λ m. apart (inr m)) (rw (e, release, release_one) at h))
    ]

dependents_of-In :
    (u v : ResourceRef) (nodes : List OperationNode)
    → In u (dependents_of v nodes)
    → In u (resources_of nodes)
dependents_of-In u v [] m = m
dependents_of-In u v (n ∷ nodes) m = elim (Bool-cases (contains (to_set n.depends_on) v)) [
  | inl used ↦ elim (rw used at m) [
    | inl same ↦ inl same
    | inr later ↦ inr (dependents_of-In u v nodes later)
  ]
  | inr unused ↦ inr (dependents_of-In u v nodes (rw unused at m))
]

-- One turn of the loop: the counts of the dependents go down by one and the loop does not panic.
pub release-visit :
    (v : ResourceRef) (visited : List ResourceRef) (nodes : List OperationNode)
    (ready : List ResourceRef)
    → Distinct (resources_of nodes)
    → contains visited v ≡ false
    → release
        (dependents_of v nodes)
        (record { remaining = remaining_of visited nodes; ready = ready })
      ≡ some (record {
        remaining = remaining_of (v ∷ visited) nodes;
        ready = pushed v visited nodes ready;
      })
unfolding release release_one
release-visit v visited [] ready d fresh = refl
release-visit v visited (n ∷ nodes) ready d fresh =
    let change =
      pending-visit v visited (to_set n.depends_on) (to_set-Distinct n.depends_on) fresh in
    let later = λ (r : List ResourceRef). release-visit v visited nodes r d.1 fresh in
    elim (Bool-cases (contains (to_set n.depends_on) v)) [
      | inl used ↦
          let count : pending visited (to_set n.depends_on)
              ≡ suc (pending (v ∷ visited) (to_set n.depends_on)) =
            ground arith in
          let now =
            if pending (v ∷ visited) (to_set n.depends_on) == 0
            then n.operation.resource ∷ ready
            else ready in
          rw
            (
              used,
              count,
              decrement-head n.operation.resource (pending (v ∷ visited) (to_set n.depends_on))
                  (remaining_of visited nodes),
              release,
              release_one,
            )
            (release-skip n.operation.resource (pending (v ∷ visited) (to_set n.depends_on))
              (dependents_of v nodes) now (pushed v visited nodes now) (remaining_of visited nodes)
              (remaining_of (v ∷ visited) nodes)
              (λ m. d.0 (dependents_of-In n.operation.resource v nodes m)) (later now))
      | inr unused ↦
          let count : pending visited (to_set n.depends_on)
              ≡ pending (v ∷ visited) (to_set n.depends_on) =
            ground arith in
          rw (unused, count)
            (release-skip n.operation.resource (pending (v ∷ visited) (to_set n.depends_on))
              (dependents_of v nodes) ready (pushed v visited nodes ready)
              (remaining_of visited nodes) (remaining_of (v ∷ visited) nodes)
              (λ m. d.0 (dependents_of-In n.operation.resource v nodes m)) (later ready))
    ]
