-- ===== src/Target/Cycles/Release.antt =====
-- What the maps of the cycle test hold, and what one turn of its loop changes.
use docker_lens.Prelude.{
  ◌≡◌, ◌↔◌, inl, inr, refl, ap, sym, ◌∙◌, arith, Bool, true, false, List, [], ◌∷◌, ◌++◌, contains,
  Distinct, In, In→contains, contains→In, Bool-cases, ◌==◌, nat_beq_iff, nat_eq, if◌then◌else◌,
}
use mathlib.Core.List.{append_assoc, append-nil}
use docker_lens.Observation.{ResourceRef}
use docker_lens.Target.Node.{OperationNode}
use docker_lens.Target.Cycles.{to_set, push_dependent, push_dependents, dependents_map, next_of}

pub to_set_iff : (a : ResourceRef) (xs : List ResourceRef) → In a (to_set xs) ↔ In a xs
unfolding to_set
to_set_iff a [] = ((λ h. h), (λ h. h))
to_set_iff a (x ∷ xs) = elim (Bool-cases (contains (to_set xs) x)) [
  | inl old ↦ rw old (
    (λ m. inr ((to_set_iff a xs).0 m)),
    (λ m. elim m [
      | inl same ↦ rw (← same) (contains→In x (to_set xs) old)
      | inr later ↦ (to_set_iff a xs).1 later
    ]),
  )
  | inr new ↦ rw new (
    (λ m. elim m [ inl same ↦ inl same | inr later ↦ inr ((to_set_iff a xs).0 later) ]),
    (λ m. elim m [ inl same ↦ inl same | inr later ↦ inr ((to_set_iff a xs).1 later) ]),
  )
]

pub to_set-Distinct : (xs : List ResourceRef) → Distinct (to_set xs)
unfolding to_set
to_set-Distinct [] = tt
to_set-Distinct (x ∷ xs) = elim (Bool-cases (contains (to_set xs) x)) [
  | inl old ↦ rw old (to_set-Distinct xs)
  | inr new ↦ rw new ((λ m. let found = In→contains x (to_set xs) m in cc), to_set-Distinct xs)
]

next_of-push :
    (v d r : ResourceRef) (m : List (ResourceRef × List ResourceRef))
    → next_of v (push_dependent d r m) ≡ (if d == v then next_of v m ++ r ∷ [] else next_of v m)
unfolding next_of push_dependent
next_of-push v d r [] = ground arith
next_of-push v d r ((k, rs) ∷ m) = ground (arith, next_of-push v d r m)

-- one entry if the key is a dependency
abbrev pub once : Bool → ResourceRef → List ResourceRef
once true r = r ∷ []
once false r = []

next_of-pushes :
    (v : ResourceRef) (ds : List ResourceRef) (r : ResourceRef)
    (m : List (ResourceRef × List ResourceRef))
    → Distinct ds
    → next_of v (push_dependents ds r m) ≡ next_of v m ++ once (contains ds v) r
unfolding push_dependents
next_of-pushes v [] r m d = sym (append-nil (next_of v m))
next_of-pushes v (x ∷ ds) r m d =
    next_of-pushes v ds r (push_dependent x r m) d.1
    ∙ (ap (λ l. l ++ once (contains ds v) r) (next_of-push v x r m) ∙ elim (Bool-cases (x == v)) [
      | inl same ↦
          let absent : contains ds v ≡ false = elim (Bool-cases (contains ds v)) [
            | inl found ↦ absurd (d.0 (rw ((nat_beq_iff x v).0 same) (contains→In v ds found)))
            | inr e ↦ e
          ] in
          rw (same, absent) (append-nil (next_of v m ++ r ∷ []))
      | inr other ↦ rw other refl
    ])

-- the nodes that depend on a reference, in their order
abbrev pub dependents_of : ResourceRef → List OperationNode → List ResourceRef
dependents_of v [] = []
dependents_of v (n ∷ nodes) =
    once (contains (to_set n.depends_on) v) n.operation.resource ++ dependents_of v nodes

pub next_of-dependents_map :
    (v : ResourceRef) (nodes : List OperationNode) (m : List (ResourceRef × List ResourceRef))
    → next_of v (dependents_map nodes m) ≡ next_of v m ++ dependents_of v nodes
unfolding dependents_map
next_of-dependents_map v [] m = sym (append-nil (next_of v m))
next_of-dependents_map v (n ∷ nodes) m =
    next_of-dependents_map v nodes (push_dependents (to_set n.depends_on) n.operation.resource m)
    ∙ (ap (λ l. l ++ dependents_of v nodes)
          (next_of-pushes v (to_set n.depends_on) n.operation.resource m
            (to_set-Distinct n.depends_on))
        ∙ append_assoc (next_of v m) (once (contains (to_set n.depends_on) v) n.operation.resource)
            (dependents_of v nodes))
