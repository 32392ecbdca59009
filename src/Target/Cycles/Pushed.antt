-- ===== src/Target/Cycles/Pushed.antt =====
-- Lemmas on the pending dependencies of the cycle test, and on what one turn makes ready.
use docker_lens.Prelude.{
  ◌≡◌, ◌⊎◌, inl, inr, refl, arith, true, false, List, [], ◌∷◌, contains, Distinct, In, In→contains,
  In-map, map_injective, contains→In, Bool-cases, nat_eq, if◌then◌else◌,
}
use docker_lens.Observation.{ResourceRef}
use docker_lens.Target.Node.{OperationNode}
use docker_lens.Target.Cycles.Turn.{pending, resources_of, is_released, pushed}

pub pending-zero :
    (vs ds : List ResourceRef) (d : ResourceRef) → pending vs ds ≡ 0 → In d ds → In d vs
pending-zero vs [] d h m = absurd m
pending-zero vs (x ∷ ds) d h (inl same) = elim (Bool-cases (contains vs x)) [
  | inl seen ↦ contains→In d vs (rw (← same) seen)
  | inr new ↦ absurd (ground arith)
]
pending-zero vs (x ∷ ds) d h (inr m) = pending-zero vs ds d (ground arith) m

pub pending_of_In :
    (vs ds : List ResourceRef) → ((d : ResourceRef) → In d ds → In d vs) → pending vs ds ≡ 0
pending_of_In vs [] h = refl
pending_of_In vs (x ∷ ds) h =
    let seen = In→contains x vs (h x (inl refl)) in
    let rest = pending_of_In vs ds (λ d m. h d (inr m)) in ground arith

pub pending-later :
    (v : ResourceRef) (vs ds : List ResourceRef) → pending vs ds ≡ 0 → pending (v ∷ vs) ds ≡ 0
pending-later v vs ds h = pending_of_In (v ∷ vs) ds (λ d m. inr (pending-zero vs ds d h m))

-- a node that waits for the one visited is not ready before
pub pending-positive :
    (v : ResourceRef) (vs ds : List ResourceRef)
    → Distinct ds
    → ¬ In v vs
    → contains ds v ≡ true
    → ¬ (pending vs ds ≡ 0)
pending-positive v vs ds d fresh m h = fresh (pending-zero vs ds v h (contains→In v ds m))

-- the other nodes keep their count
pub pending-kept :
    (v : ResourceRef) (vs ds : List ResourceRef)
    → contains ds v ≡ false
    → pending (v ∷ vs) ds ≡ 0
    → pending vs ds ≡ 0
pending-kept v vs ds absent h = pending_of_In vs ds (λ d m. elim (pending-zero (v ∷ vs) ds d h m) [
  | inl same ↦ let found = In→contains v ds (rw same m) in absurd (ground arith)
  | inr seen ↦ seen
])

pub In-resources_of :
    (n : OperationNode) (nodes : List OperationNode)
    → In n nodes
    → In n.operation.resource (resources_of nodes)
In-resources_of n nodes m = In-map (λ x. x.operation.resource) n nodes m

-- a node is known by its resource
pub node_unique :
    (a b : OperationNode) (nodes : List OperationNode)
    → Distinct (resources_of nodes)
    → In a nodes
    → In b nodes
    → a.operation.resource ≡ b.operation.resource
    → a ≡ b
node_unique a b nodes = map_injective (λ x. x.operation.resource) a b nodes

abbrev pub IsReleased : ResourceRef → List ResourceRef → List OperationNode → ResourceRef → Type 0
IsReleased v vs nodes u =
    (n : OperationNode) × In n nodes × (n.operation.resource ≡ u) × (is_released v vs n ≡ true)

pub pushed-In :
    (v u : ResourceRef) (vs : List ResourceRef) (nodes : List OperationNode)
    (ready : List ResourceRef)
    → In u (pushed v vs nodes ready)
    → In u ready ⊎ IsReleased v vs nodes u
pushed-In v u vs [] ready m = inl m
pushed-In v u vs (n ∷ nodes) ready m = elim (Bool-cases (is_released v vs n)) [
  | inl freed ↦ elim (pushed-In v u vs nodes (n.operation.resource ∷ ready) (rw freed at m)) [
    | inl (inl same) ↦ inr (n, inl refl, same, freed)
    | inl (inr old) ↦ inl old
    | inr (k, p, q, r) ↦ inr (k, inr p, q, r)
  ]
  | inr held ↦ elim (pushed-In v u vs nodes ready (rw held at m)) [
    | inl old ↦ inl old
    | inr (k, p, q, r) ↦ inr (k, inr p, q, r)
  ]
]

pub pushed_old :
    (v u : ResourceRef) (vs : List ResourceRef) (nodes : List OperationNode)
    (ready : List ResourceRef)
    → In u ready
    → In u (pushed v vs nodes ready)
pushed_old v u vs [] ready m = m
pushed_old v u vs (n ∷ nodes) ready m = elim (Bool-cases (is_released v vs n)) [
  | inl freed ↦ rw freed (pushed_old v u vs nodes (n.operation.resource ∷ ready) (inr m))
  | inr held ↦ rw held (pushed_old v u vs nodes ready m)
]

pub pushed_released :
    (v : ResourceRef) (n : OperationNode) (vs : List ResourceRef) (nodes : List OperationNode)
    (ready : List ResourceRef)
    → In n nodes
    → is_released v vs n ≡ true
    → In n.operation.resource (pushed v vs nodes ready)
pushed_released v n vs [] ready m freed = absurd m
pushed_released v n vs (x ∷ nodes) ready (inl same) freed =
    rw (same, freed)
      (pushed_old v n.operation.resource vs nodes (n.operation.resource ∷ ready) (inl refl))
pushed_released v n vs (x ∷ nodes) ready (inr m) freed =
    pushed_released v n vs nodes
      (if is_released v vs x then x.operation.resource ∷ ready else ready) m freed

pub pushed-Distinct :
    (v : ResourceRef) (vs : List ResourceRef) (nodes : List OperationNode)
    (ready : List ResourceRef)
    → Distinct (resources_of nodes)
    → Distinct ready
    → ((n : OperationNode)
        → In n nodes
        → is_released v vs n ≡ true
        → ¬ In n.operation.resource ready)
    → Distinct (pushed v vs nodes ready)
pushed-Distinct v vs [] ready d r apart = r
pushed-Distinct v vs (n ∷ nodes) ready d r apart = elim (Bool-cases (is_released v vs n)) [
  | inl freed ↦ rw freed (
      pushed-Distinct v vs nodes (n.operation.resource ∷ ready) d.1 (apart n (inl refl) freed, r)
        (λ k m f old. elim old [
          | inl same ↦ d.0 (rw same (In-resources_of k nodes m))
          | inr earlier ↦ apart k (inr m) f earlier
        ]))
  | inr held ↦ rw held (pushed-Distinct v vs nodes ready d.1 r (λ k m f. apart k (inr m) f))
]
