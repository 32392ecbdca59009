-- ===== src/Version/Catalog.antt =====
-- `TargetCapabilityCatalog` of src/version.rs: the admission of reviewed records and the exact
-- resolution of profiles. A catalog is its list of records, and the capabilities that it resolves
-- are one of these records.
pub mod Tables
mod Sets
pub mod Admission
pub mod Resolve
use docker_lens.Prelude.{
  ◌≡◌, refl, Bool, true, false, not, ◌&&◌, ◌||◌, none, some, List, [], ◌∷◌, map, arith, all, any,
  find, if◌then◌else◌, ◌==◌, contains, Bytes, Result, ok, err, nat_eq, list_eq, reject_if, ◌>>=◌,
  ◌>>◌, ok_or,
}
use docker_lens.Version.Capability.{Capability, capability_eq}
use docker_lens.Version.Shape.{NativeCapabilityShape, shape_eq}
use docker_lens.Version.ShapeCapability.{capability}
use docker_lens.Version.Required.{required_for}
use docker_lens.Version.Facts.{CapabilityState, is_available, CapabilityError}
use docker_lens.Version.Identity.{TargetProfileIdentity, identity_eq, TargetProfile, profile_eq}
use docker_lens.Version.Reference.{NativeEvidenceReference, matches_identity}

pub record TargetCapabilityFact : Type 0 where
  pub capability : Capability
  pub state : CapabilityState

pub record TargetCapabilityRecord : Type 0 where
  pub profile : TargetProfile
  pub evidence : NativeEvidenceReference
  pub capabilities : List TargetCapabilityFact
  pub admitted_shapes : List NativeCapabilityShape

-- `iter().all(|fact| capabilities.insert(fact.capability))`
pub all_inserted : List Capability → List TargetCapabilityFact → Bool
all_inserted seen [] = true
all_inserted seen (fact ∷ facts) =
    not (contains seen fact.capability) && all_inserted (fact.capability ∷ seen) facts

-- the capabilities of the positive facts
abbrev pub available : List TargetCapabilityFact → List Capability
available [] = []
available (fact ∷ facts) =
    let rest = available facts in if is_available fact.state then fact.capability ∷ rest else rest

-- the loop over `admitted_shapes`; the result is the set `shapes`
pub admit_shapes :
    List Capability
    → List NativeCapabilityShape
    → List NativeCapabilityShape
    → Result CapabilityError (List NativeCapabilityShape)
admit_shapes positive seen [] = ok seen
admit_shapes positive seen (shape ∷ shapes) = do
  reject_if (contains seen shape) CapabilityError.duplicate_evidence_shape
  reject_if (not (contains positive (capability shape))) CapabilityError.evidence_shape_mismatch
  admit_shapes positive (shape ∷ seen) shapes

-- the body of the loop over `available`: the shapes that the capability requires are all admitted
pub is_complete : List NativeCapabilityShape → Capability → Bool
is_complete shapes c = elim (required_for c) [
  | none ↦ false
  | some required ↦ all (contains shapes) required
]

-- the body of the loop over `records`, behind the test on `profiles`
pub admit_record : TargetCapabilityRecord → Result CapabilityError (Unit {0})
unfolding all_inserted admit_shapes is_complete
admit_record r = do
  reject_if (not (matches_identity r.evidence.lane r.profile.identity))
      CapabilityError.evidence_lane_mismatch
  reject_if (not (r.evidence.record_key == r.profile.evidence_key))
      CapabilityError.evidence_key_mismatch
  reject_if (not (all_inserted [] r.capabilities)) CapabilityError.duplicate_capability
  shapes ← admit_shapes (available r.capabilities) [] r.admitted_shapes
  reject_if (not (all (is_complete shapes) (available r.capabilities)))
      CapabilityError.incomplete_evidence_shapes

-- the loop over `records`, with the set `profiles`
pub admit_records :
    List TargetProfileIdentity → List TargetCapabilityRecord → Result CapabilityError (Unit {0})
admit_records profiles [] = ok tt
admit_records profiles (r ∷ records) = do
  reject_if (contains profiles r.profile.identity) CapabilityError.duplicate_profile
  admit_record r
  admit_records (r.profile.identity ∷ profiles) records

-- `TargetCapabilityCatalog::from_records`
unfoldable pub from_records :
    List TargetCapabilityRecord → Result CapabilityError (List TargetCapabilityRecord)
unfolding admit_records admit_record
from_records records = do admit_records [] records; ok records

unfoldable pub resolve :
    List TargetCapabilityRecord → TargetProfile → Result CapabilityError TargetCapabilityRecord
resolve records profile =
    ok_or (find (λ r. r.profile == profile) records) CapabilityError.profile_not_reviewed

unfoldable pub resolve_identity :
    List TargetCapabilityRecord
    → TargetProfileIdentity
    → Result CapabilityError TargetCapabilityRecord
resolve_identity records identity =
    ok_or (find (λ r. r.profile.identity == identity) records) CapabilityError.profile_not_reviewed

-- `TargetCapabilities::supports`
unfoldable pub supports : TargetCapabilityRecord → Capability → Bool
supports r c = any (λ fact. fact.capability == c && is_available fact.state) r.capabilities
