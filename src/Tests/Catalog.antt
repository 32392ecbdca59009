-- ===== src/Tests/Catalog.antt =====
-- Tests of the reviewed catalog of src/version.rs: a record of the Debian rootful lane with two
-- positive capabilities.
use docker_lens.Prelude.{
  ◌≡◌, refl, ◌↔◌, inl, true, List, [], ◌∷◌, In, codes, Bytes, replicate, ok, err, nat_eq, arith,
}
use docker_lens.Version.Capability.{Capability, capability_eq}
use docker_lens.Version.Shape.{NativeCapabilityShape, shape_eq}
use docker_lens.Version.ShapeCapability.{capability}
use docker_lens.Version.Required.{required_for}
use docker_lens.Version.Facts.{CapabilityState, CapabilityError, DaemonMode, EngineBuild}
use docker_lens.Version.Identity.{TargetProfileIdentity, minimum_api}
use docker_lens.Version.Identity.Range.{rebuild, target_profile_identity_iff}
use docker_lens.Version.Reference.{
  artifact_name, NativeEvidenceLane, debian_revision, debian_release, matches_identity,
}
use docker_lens.Version.Reference.Url.{
  IsReference, is_sha_digit_iff, reference_rebuild, native_evidence_reference_iff,
}
use docker_lens.Version.Catalog.{
  TargetCapabilityRecord, from_records, resolve, resolve_identity, supports,
}
use docker_lens.Version.Catalog.Tables.{In-required_iff}
use docker_lens.Version.Catalog.Admission.{IsCatalog, from_records_iff, supports-capability_iff}
use docker_lens.Version.Catalog.Resolve.{resolve_identity_iff, resolve_iff}

abbrev debian_identity : TargetProfileIdentity
debian_identity = record {
  build = EngineBuild.debian_package debian_revision;
  release = debian_release;
  advertised_api_version = minimum_api;
  acquisition_api_version = minimum_api;
  rendering_api_version = minimum_api;
  mode = DaemonMode.rootful;
}

abbrev key : Bytes
key = replicate 32 7

abbrev pub sample : TargetCapabilityRecord
sample = record {
  profile = record { identity = debian_identity; evidence_key = key };
  evidence = record {
    lane = NativeEvidenceLane.debian11_rootful;
    run_url = codes "https://github.com/Strukturpiloten/docker-lens/actions/runs/1/attempts/1";
    candidate_sha = replicate 40 b'a';
    artifact_name = codes "dockerlens-native-debian11-rootful";
    manifest_key = key;
    record_key = key;
  };
  capabilities =
      record { capability = Capability.standalone_container; state = CapabilityState.available }
      ∷ record { capability = Capability.bind_mount; state = CapabilityState.available }
      ∷ record { capability = Capability.network_ipv6; state = CapabilityState.unavailable }
      ∷ [];
  admitted_shapes =
      NativeCapabilityShape.standalone_create ∷ NativeCapabilityShape.bind_mount_read_write
      ∷ NativeCapabilityShape.bind_mount_read_only ∷ [];
}

abbrev pub samples : List TargetCapabilityRecord
samples = sample ∷ []

samples_pass : from_records samples ≡ ok samples
unfolding from_records matches_identity capability required_for
samples_pass = refl

-- half of the bind mount shapes is not enough
abbrev partial : TargetCapabilityRecord
partial = record sample {
  admitted_shapes =
      NativeCapabilityShape.standalone_create ∷ NativeCapabilityShape.bind_mount_read_write ∷ [];
}

partial_fails : from_records (partial ∷ []) ≡ err CapabilityError.incomplete_evidence_shapes
unfolding from_records matches_identity capability required_for
partial_fails = refl

repeated_fails : from_records (sample ∷ sample ∷ []) ≡ err CapabilityError.duplicate_profile
unfolding from_records matches_identity capability required_for
repeated_fails = refl

from_records_iff_example : IsCatalog samples × (samples ≡ samples)
from_records_iff_example = (from_records_iff samples samples).0 samples_pass

samples-IsCatalog : IsCatalog samples
samples-IsCatalog = ((from_records_iff samples samples).0 samples_pass).0

supports-capability_iff_example :
    (supports sample (capability NativeCapabilityShape.bind_mount_read_only) ≡ true)
    ↔ In NativeCapabilityShape.bind_mount_read_only sample.admitted_shapes
supports-capability_iff_example =
    supports-capability_iff sample NativeCapabilityShape.bind_mount_read_only
      samples-IsCatalog.admitted.0

resolve_identity_iff_example : resolve_identity samples debian_identity ≡ ok sample
resolve_identity_iff_example =
    (resolve_identity_iff samples samples-IsCatalog sample debian_identity).1 (inl refl, refl)

resolve_iff_example : resolve samples sample.profile ≡ ok sample
resolve_iff_example =
    (resolve_iff samples samples-IsCatalog sample sample.profile).1 (inl refl, refl)

In-required_iff_example :
    In NativeCapabilityShape.bind_mount_read_only (
      NativeCapabilityShape.bind_mount_read_write ∷ NativeCapabilityShape.bind_mount_read_only ∷ [])
    ↔ (capability NativeCapabilityShape.bind_mount_read_only ≡ Capability.bind_mount)
unfolding required_for
In-required_iff_example =
    In-required_iff Capability.bind_mount
      (NativeCapabilityShape.bind_mount_read_write ∷ NativeCapabilityShape.bind_mount_read_only
        ∷ [])
      NativeCapabilityShape.bind_mount_read_only refl

target_profile_identity_iff_example : rebuild debian_identity ≡ ok debian_identity
target_profile_identity_iff_example =
    (target_profile_identity_iff debian_identity debian_identity).1
      (refl, (λ e. cc), refl, omega arith, omega arith)

sample-IsReference : IsReference sample.evidence
unfolding artifact_name
sample-IsReference = record {
  run = codes "1";
  attempt = codes "1";
  url = refl;
  run_number = (omega arith, omega arith, tt);
  attempt_number = (omega arith, omega arith, tt);
  sha_length = refl;
  sha_digits = (is_sha_digit_iff sample.evidence.candidate_sha).0 refl;
  artifact = refl;
}

native_evidence_reference_iff_example : reference_rebuild sample.evidence ≡ ok sample.evidence
native_evidence_reference_iff_example =
    (native_evidence_reference_iff sample.evidence sample.evidence).1 (refl, sample-IsReference)
