-- ===== src/Version/Catalog/Tables.antt =====
-- The two tables of `NativeCapabilityShape` in src/version.rs, `capability` and `required_for`,
-- against each other.
use docker_lens.Prelude.{
  ◌≡◌, refl, ◌↔◌, ◌∙◌, sym, ap, inl, inr, Bool, true, false, Option, none, some, List, all, ◌==◌,
  contains, In, all-true-In, contains→In, beq→eq, Option-cases, some-eq_some,
}
use docker_lens.Version.Capability.{Capability, capability_eq}
use docker_lens.Version.Shape.{NativeCapabilityShape, shape_eq}
use docker_lens.Version.ShapeCapability.{capability}
use docker_lens.Version.Required.{required_for}

abbrev all_belong : Capability → Option (List NativeCapabilityShape) → Bool
all_belong c none = true
all_belong c (some shapes) = all (λ s. capability s == c) shapes

required_belong : (c : Capability) → all_belong c (required_for c) ≡ true
unfolding required_for capability
required_belong Capability.standalone_container = refl
required_belong _ = refl

abbrev is_listed : NativeCapabilityShape → Option (List NativeCapabilityShape) → Bool
is_listed s none = false
is_listed s (some shapes) = contains shapes s

shape_listed : (s : NativeCapabilityShape) → is_listed s (required_for (capability s)) ≡ true
unfolding required_for capability
shape_listed NativeCapabilityShape.standalone_create = refl
shape_listed _ = refl

-- Every shape is among the shapes that its own capability requires.
pub required-capability :
    (s : NativeCapabilityShape)
    → (shapes : List NativeCapabilityShape) × (required_for (capability s) ≡ some shapes)
      × In s shapes
required-capability s = elim (Option-cases (required_for (capability s))) [
  | inl e ↦ absurd (none_listed e)
  | inr (shapes, e) ↦ (shapes, e, contains→In s shapes (rw e at (shape_listed s)))
]
  where
    none_listed : required_for (capability s) ≡ none → ⊥
    none_listed e = let h : is_listed s none ≡ true = rw e at (shape_listed s) in cc

-- A capability requires shapes of its own only.
pub capability-required :
    (c : Capability) (shapes : List NativeCapabilityShape) (s : NativeCapabilityShape)
    → required_for c ≡ some shapes
    → In s shapes
    → capability s ≡ c
capability-required c shapes s e m =
    beq→eq (capability s) c (all-true-In (λ t. capability t == c) s shapes belong m)
  where
    belong : all (λ t. capability t == c) shapes ≡ true
    belong = rw e at (required_belong c)

-- For a capability that may be positive, the shapes that it requires are exactly its own.
pub In-required_iff :
    (c : Capability) (shapes : List NativeCapabilityShape) (s : NativeCapabilityShape)
    → required_for c ≡ some shapes
    → In s shapes ↔ (capability s ≡ c)
In-required_iff c shapes s e = (capability-required c shapes s e, back)
  where
    back : capability s ≡ c → In s shapes
    back same =
        let (own, found, m) = required-capability s in
        let e' : own ≡ shapes = some-eq_some (sym found ∙ ap required_for same ∙ e) in rw e' at m
