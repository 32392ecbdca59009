-- ===== src/Version/Catalog/Sets.antt =====
-- The sets that `from_records` of src/version.rs collects, read as membership and distinctness.
use docker_lens.Prelude.{
  ◌≡◌, refl, ◌↔◌, ◌⊎◌, inl, inr, true, false, ◌&&◌, List, [], ◌∷◌, map, arith, any, ◌==◌, contains,
  ok, In, Distinct, contains→In, In→contains, Bool-cases,
}
use docker_lens.Version.Capability.{Capability, capability_eq}
use docker_lens.Version.Shape.{NativeCapabilityShape, shape_eq}
use docker_lens.Version.ShapeCapability.{capability}
use docker_lens.Version.Facts.{is_available}
use docker_lens.Version.Catalog.{TargetCapabilityFact, all_inserted, available, admit_shapes}

abbrev pub claimed : List TargetCapabilityFact → List Capability
claimed = map (λ fact. fact.capability)

abbrev pub Apart : {A : Type 0} → List A → List A → Type 0
Apart {A} xs ys = (a : A) → In a xs → ¬ In a ys

all_inserted_sound :
    (seen : List Capability) (facts : List TargetCapabilityFact)
    → all_inserted seen facts ≡ true
    → Distinct (claimed facts) × Apart seen (claimed facts)
unfolding all_inserted
all_inserted_sound seen [] h = (tt, λ a m n. n)
all_inserted_sound seen (fact ∷ facts) h =
    let fresh : contains seen fact.capability ≡ false = ground arith in
    let rest : all_inserted (fact.capability ∷ seen) facts ≡ true = ground arith in
    let (distinct, apart) = all_inserted_sound (fact.capability ∷ seen) facts rest in
    ((apart fact.capability (inl refl), distinct), not_seen fresh apart)
  where
    not_seen :
        contains seen fact.capability ≡ false
        → Apart (fact.capability ∷ seen) (claimed facts)
        → Apart seen (claimed (fact ∷ facts))
    not_seen fresh apart a m (inl e) = let h' : contains seen a ≡ true = In→contains a seen m in cc
    not_seen fresh apart a m (inr n) = apart a (inr m) n

all_inserted_complete :
    (seen : List Capability) (facts : List TargetCapabilityFact)
    → Distinct (claimed facts)
    → Apart seen (claimed facts)
    → all_inserted seen facts ≡ true
unfolding all_inserted
all_inserted_complete seen [] d apart = refl
all_inserted_complete seen (fact ∷ facts) d apart =
    elim (Bool-cases (contains seen fact.capability)) [
      | inl old ↦ absurd (apart fact.capability (contains→In fact.capability seen old) (inl refl))
      | inr new ↦ ground (arith, all_inserted_complete (fact.capability ∷ seen) facts d.1 rest)
    ]
  where
    rest : Apart (fact.capability ∷ seen) (claimed facts)
    rest a (inl e) n = d.0 (rw e n)
    rest a (inr m) n = apart a m (inr n)

-- The test for repeated capabilities passes exactly on distinct ones.
pub all_inserted_iff :
    (facts : List TargetCapabilityFact) → (all_inserted [] facts ≡ true) ↔ Distinct (claimed facts)
all_inserted_iff facts = (
  (λ h. (all_inserted_sound [] facts h).0),
  (λ d. all_inserted_complete [] facts d (λ a m. absurd m)),
)

-- The set of positive capabilities is what `supports` answers.
pub available-any :
    (c : Capability) (facts : List TargetCapabilityFact)
    → contains (available facts) c
      ≡ any (λ fact. fact.capability == c && is_available fact.state) facts
available-any c [] = refl
available-any c (fact ∷ facts) = elim (Bool-cases (is_available fact.state)) [
  | inl e ↦ rw e (ground (arith, available-any c facts))
  | inr e ↦ rw e (ground (arith, available-any c facts))
]

-- What the loop over the shapes has checked when it succeeds, and what it collects.
pub record Shapes (positive : List Capability) (seen shapes out : List NativeCapabilityShape)
    : Type 0 where
  pub distinct : Distinct shapes
  pub apart : Apart seen shapes
  pub covered : (s : NativeCapabilityShape) → In s shapes → In (capability s) positive
  pub collected : (s : NativeCapabilityShape) → In s out ↔ (In s seen ⊎ In s shapes)

pub admit_shapes-Shapes :
    (positive : List Capability) (seen shapes : List NativeCapabilityShape)
    {out : List NativeCapabilityShape}
    → admit_shapes positive seen shapes ≡ ok out
    → Shapes positive seen shapes out
unfolding admit_shapes
admit_shapes-Shapes positive seen [] {out} h = record {
  distinct = tt;
  apart = λ a m n. n;
  covered = λ s m. absurd m;
  collected = λ s.
      let e : seen ≡ out = ground arith in
      ((λ m. inl (rw e m)), λ m. elim m [ inl n ↦ rw (← e) n | inr n ↦ absurd n ]);
}
admit_shapes-Shapes positive seen (shape ∷ shapes) {out} h =
    let new : contains seen shape ≡ false = ground arith in
    let backed : contains positive (capability shape) ≡ true = ground arith in
    let h' : admit_shapes positive (shape ∷ seen) shapes ≡ ok out = ground arith in
    let rest = admit_shapes-Shapes positive (shape ∷ seen) shapes h' in
    record {
      distinct = (rest.apart shape (inl refl), rest.distinct);
      apart = λ a m n. elim n [
        | inl e ↦ let k : contains seen a ≡ true = In→contains a seen m in cc
        | inr n' ↦ rest.apart a (inr m) n'
      ];
      covered = λ s m. elim m [
        | inl e ↦ rw (← e) (contains→In (capability shape) positive backed)
        | inr m' ↦ rest.covered s m'
      ];
      collected = λ s. (
        (λ m. elim ((rest.collected s).0 m) [
          | inl (inl e) ↦ inr (inl e)
          | inl (inr n) ↦ inl n
          | inr n ↦ inr (inr n)
        ]),
        (λ m. elim m [
          | inl n ↦ (rest.collected s).1 (inl (inr n))
          | inr (inl e) ↦ (rest.collected s).1 (inl (inl e))
          | inr (inr n) ↦ (rest.collected s).1 (inr n)
        ]),
      );
    }

-- Distinct and covered shapes pass the loop.
pub admit_shapes_complete :
    (positive : List Capability) (seen shapes : List NativeCapabilityShape)
    → Distinct shapes
    → Apart seen shapes
    → ((s : NativeCapabilityShape) → In s shapes → In (capability s) positive)
    → (out : List NativeCapabilityShape) × (admit_shapes positive seen shapes ≡ ok out)
unfolding admit_shapes
admit_shapes_complete positive seen [] d apart covered = (seen, refl)
admit_shapes_complete positive seen (shape ∷ shapes) d apart covered =
    let (out, e) =
      admit_shapes_complete positive (shape ∷ seen) shapes d.1 rest (λ s m. covered s (inr m)) in
    (out, ground (arith, new, backed, e))
  where
    new : contains seen shape ≡ false
    new = elim (Bool-cases (contains seen shape)) [
      | inl old ↦ absurd (apart shape (contains→In shape seen old) (inl refl))
      | inr fresh ↦ fresh
    ]

    backed : contains positive (capability shape) ≡ true
    backed = In→contains (capability shape) positive (covered shape (inl refl))

    rest : Apart (shape ∷ seen) shapes
    rest a (inl e) n = d.0 (rw e n)
    rest a (inr m) n = apart a m (inr n)
