-- ===== src/Version/Catalog/Admission.antt =====
-- The admission gate `from_records` of src/version.rs against what an admitted record promises.
use docker_lens.Prelude.{
  ◌≡◌, refl, sym, ◌∙◌, ◌↔◌, inl, inr, true, false, not, some, List, [], ◌∷◌, map, arith, all,
  contains, ok, reject_if, ◌>>=◌, >>=-eq-ok, In, All, Distinct, contains→In, In→contains,
  Bool-cases, Option-cases, list_eq, nat_eq, list_beq_iff, all-true-In, all-true_of_In,
}
use docker_lens.Version.Capability.{Capability, capability_eq}
use docker_lens.Version.Shape.{NativeCapabilityShape, shape_eq}
use docker_lens.Version.ShapeCapability.{capability}
use docker_lens.Version.Required.{required_for}
use docker_lens.Version.Facts.{CapabilityError}
use docker_lens.Version.Identity.{TargetProfileIdentity, identity_eq}
use docker_lens.Version.Reference.{matches_identity}
use docker_lens.Version.Catalog.{
  TargetCapabilityRecord, available, admit_shapes, is_complete, admit_record, admit_records,
  from_records, supports,
}
use docker_lens.Version.Catalog.Sets.{
  claimed, all_inserted_iff, available-any, admit_shapes-Shapes, admit_shapes_complete, Apart,
}
use docker_lens.Version.Catalog.Tables.{In-required_iff}

-- The required shapes of `c` are known, and are all in `shapes`.
abbrev pub IsCovered : List NativeCapabilityShape → Capability → Type 0
IsCovered shapes c =
    (required : List NativeCapabilityShape) × (required_for c ≡ some required)
    × ((s : NativeCapabilityShape) → In s required → In s shapes)

-- What the gate promises of one record.
pub record IsAdmitted (r : TargetCapabilityRecord) : Type 0 where
  pub lane : matches_identity r.evidence.lane r.profile.identity ≡ true
  pub key : r.evidence.record_key ≡ r.profile.evidence_key
  pub distinct_capabilities : Distinct (claimed r.capabilities)
  pub distinct_shapes : Distinct r.admitted_shapes
  pub backed :
      (s : NativeCapabilityShape) → In s r.admitted_shapes → supports r (capability s) ≡ true
  pub covered : (c : Capability) → supports r c ≡ true → IsCovered r.admitted_shapes c

is_complete-IsCovered :
    (shapes : List NativeCapabilityShape) (c : Capability)
    → is_complete shapes c ≡ true
    → IsCovered shapes c
unfolding is_complete
is_complete-IsCovered shapes c h = elim (Option-cases (required_for c)) [
  | inl e ↦ absurd (ground arith)
  | inr (required, e) ↦ (
    required,
    e,
    λ s m. contains→In s shapes (all-true-In (contains shapes) s required (ground arith) m),
  )
]

IsCovered-is_complete :
    (shapes : List NativeCapabilityShape) (c : Capability)
    → IsCovered shapes c
    → is_complete shapes c ≡ true
unfolding is_complete
IsCovered-is_complete shapes c (required, e, k) =
    rw (e, is_complete)
      (all-true_of_In (contains shapes) required (λ s m. In→contains s shapes (k s m)))

module _ (r : TargetCapabilityRecord) where
  positive_supports : (c : Capability) → In c (available r.capabilities) → supports r c ≡ true
  unfolding supports
  positive_supports c m =
      sym (available-any c r.capabilities) ∙ In→contains c (available r.capabilities) m

  supports_positive : (c : Capability) → supports r c ≡ true → In c (available r.capabilities)
  unfolding supports
  supports_positive c h =
      contains→In c (available r.capabilities) (available-any c r.capabilities ∙ h)

  pub admit_record-IsAdmitted : admit_record r ≡ ok tt → IsAdmitted r
  unfolding admit_record
  admit_record-IsAdmitted h =
      let (out, collects, done) = >>=-eq-ok _ _ tail in
      let shapes = admit_shapes-Shapes (available r.capabilities) [] r.admitted_shapes collects in
      record {
        lane = ground arith;
        key = (list_beq_iff r.evidence.record_key r.profile.evidence_key).0 (ground arith);
        distinct_capabilities = (all_inserted_iff r.capabilities).0 (ground arith);
        distinct_shapes = shapes.distinct;
        backed = λ s m. positive_supports (capability s) (shapes.covered s m);
        covered = λ c p.
            let (required, e, k) = is_complete-IsCovered out c (
              all-true-In (is_complete out) c (available r.capabilities) (ground arith)
                (supports_positive c p)) in
            (
              required,
              e,
              λ s m. elim ((shapes.collected s).0 (k s m)) [ inl n ↦ absurd n | inr n ↦ n ],
            );
      }
    where
      tail :
          (admit_shapes (available r.capabilities) [] r.admitted_shapes >>= λ shapes.
          reject_if
            (not (all (is_complete shapes) (available r.capabilities)))
            CapabilityError.incomplete_evidence_shapes)
          ≡ ok tt
      tail = ground arith

  pub IsAdmitted-admit_record : IsAdmitted r → admit_record r ≡ ok tt
  unfolding admit_record
  IsAdmitted-admit_record a =
      let (out, e) =
        admit_shapes_complete (available r.capabilities) [] r.admitted_shapes a.distinct_shapes
          (λ s m. absurd m) (λ s m. supports_positive (capability s) (a.backed s m)) in
      let shapes = admit_shapes-Shapes (available r.capabilities) [] r.admitted_shapes e in
      let full : all (is_complete out) (available r.capabilities) ≡ true =
        all-true_of_In (is_complete out) (available r.capabilities) λ c m.
          let (required, f, k) = a.covered c (positive_supports c m) in
          IsCovered-is_complete out c (required, f, λ s n. (shapes.collected s).1 (inr (k s n))) in
      ground (
        arith,
        a.lane,
        (list_beq_iff r.evidence.record_key r.profile.evidence_key).1 a.key,
        (all_inserted_iff r.capabilities).1 a.distinct_capabilities,
        e,
        full,
      )

abbrev pub identities : List TargetCapabilityRecord → List TargetProfileIdentity
identities = map (λ r. r.profile.identity)

admit_records_sound :
    (profiles : List TargetProfileIdentity) (rs : List TargetCapabilityRecord)
    → admit_records profiles rs ≡ ok tt
    → Distinct (identities rs) × Apart profiles (identities rs) × All IsAdmitted rs
unfolding admit_records
admit_records_sound profiles [] h = (tt, (λ a m n. n), tt)
admit_records_sound profiles (r ∷ rs) h =
    let new : contains profiles r.profile.identity ≡ false = ground arith in
    let (u, admitted, rest) =
      >>=-eq-ok (admit_record r) (λ _. admit_records (r.profile.identity ∷ profiles) rs)
        (ground arith) in
    let (distinct, apart, all_admitted) =
      admit_records_sound (r.profile.identity ∷ profiles) rs rest in
    (
      (apart r.profile.identity (inl refl), distinct),
      not_seen new apart,
      (admit_record-IsAdmitted r admitted, all_admitted),
    )
  where
    not_seen :
        contains profiles r.profile.identity ≡ false
        → Apart (r.profile.identity ∷ profiles) (identities rs)
        → Apart profiles (identities (r ∷ rs))
    not_seen new apart a m (inl e) =
        let k : contains profiles a ≡ true = In→contains a profiles m in cc
    not_seen new apart a m (inr n) = apart a (inr m) n

admit_records_complete :
    (profiles : List TargetProfileIdentity) (rs : List TargetCapabilityRecord)
    → Distinct (identities rs)
    → Apart profiles (identities rs)
    → All IsAdmitted rs
    → admit_records profiles rs ≡ ok tt
unfolding admit_records
admit_records_complete profiles [] d apart a = refl
admit_records_complete profiles (r ∷ rs) d apart a = ground (
  arith,
  new,
  IsAdmitted-admit_record r a.0,
  admit_records_complete (r.profile.identity ∷ profiles) rs d.1 rest a.1,
)
  where
    new : contains profiles r.profile.identity ≡ false
    new = elim (Bool-cases (contains profiles r.profile.identity)) [
      | inl old ↦
          absurd (apart r.profile.identity (contains→In r.profile.identity profiles old) (inl refl))
      | inr fresh ↦ fresh
    ]

    rest : Apart (r.profile.identity ∷ profiles) (identities rs)
    rest i (inl e) n = d.0 (rw e n)
    rest i (inr m) n = apart i m (inr n)

-- What a catalog that passed the gate promises: no two records share an identity, and each record is
-- admitted.
pub record IsCatalog (rs : List TargetCapabilityRecord) : Type 0 where
  pub distinct : Distinct (identities rs)
  pub admitted : All IsAdmitted rs

-- `from_records` succeeds exactly when the profile identities are distinct and every record has a
-- lane that matches its identity, its profile's evidence key, distinct capabilities, distinct
-- admitted shapes that belong to positive capabilities, and all the required shapes of every
-- positive capability; it then returns the records unchanged.
pub from_records_iff :
    (rs catalog : List TargetCapabilityRecord)
    → (from_records rs ≡ ok catalog) ↔ (IsCatalog rs × (rs ≡ catalog))
unfolding from_records
from_records_iff rs catalog = (forth, back)
  where
    forth : from_records rs ≡ ok catalog → IsCatalog rs × (rs ≡ catalog)
    forth h =
        let (u, passed, same) = >>=-eq-ok (admit_records [] rs) (λ _. ok rs) h in
        let (distinct, _, admitted) = admit_records_sound [] rs passed in
        (record { distinct = distinct; admitted = admitted }, ground arith)

    back : IsCatalog rs × (rs ≡ catalog) → from_records rs ≡ ok catalog
    back (v, same) =
        let passed : admit_records [] rs ≡ ok tt =
          admit_records_complete [] rs v.distinct (λ a m. absurd m) v.admitted in
        ground arith

-- In an admitted record, a shape is admitted exactly when its capability is supported.
pub supports-capability_iff :
    (r : TargetCapabilityRecord) (s : NativeCapabilityShape)
    → IsAdmitted r
    → (supports r (capability s) ≡ true) ↔ In s r.admitted_shapes
supports-capability_iff r s a = (forth, a.backed s)
  where
    forth : supports r (capability s) ≡ true → In s r.admitted_shapes
    forth h =
        let (required, e, k) = a.covered (capability s) h in
        k s ((In-required_iff (capability s) required s e).1 refl)
