-- ===== src/Version/Reference.antt =====
-- `NativeEvidenceLane` and `NativeEvidenceReference` of src/version.rs.
pub mod Url
use docker_lens.Prelude.{
  ℕ, Bool, true, false, not, ◌&&◌, ◌||◌, [], ◌∷◌, all, leb, length, ◌==◌, Bytes, codes, Result, ok,
  nat_eq, list_eq, reject_if, ◌>>=◌, ◌>>◌, strip_prefix, split_once, is_ascii_digit, ok_or,
}
use docker_lens.Version.Facts.{
  api_version_eq, DaemonMode, EngineBuild, engine_build_eq, CapabilityError,
}
use docker_lens.Version.Identity.{TargetProfileIdentity, minimum_api}

pub data NativeEvidenceLane : Type 0 where
  debian11_rootful debian11_rootless upstream_rootful upstream_rootless : NativeEvidenceLane

-- `NativeEvidenceLane::artifact_name`
unfoldable pub artifact_name : NativeEvidenceLane → Bytes
artifact_name NativeEvidenceLane.debian11_rootful = codes "dockerlens-native-debian11-rootful"
artifact_name NativeEvidenceLane.debian11_rootless = codes "dockerlens-native-debian11-rootless"
artifact_name NativeEvidenceLane.upstream_rootful = codes "dockerlens-native-upstream-rootful"
artifact_name NativeEvidenceLane.upstream_rootless = codes "dockerlens-native-upstream-rootless"

-- the `matches!` on `(self, identity.build(), identity.mode())`
abbrev pub upstream_lane : NativeEvidenceLane → EngineBuild → DaemonMode → Bool
upstream_lane NativeEvidenceLane.upstream_rootful EngineBuild.upstream DaemonMode.rootful = true
upstream_lane NativeEvidenceLane.upstream_rootless EngineBuild.upstream DaemonMode.rootless = true
upstream_lane _ _ _ = false

-- the `matches!` on `(self, identity.mode())`
abbrev pub debian_lane : NativeEvidenceLane → DaemonMode → Bool
debian_lane NativeEvidenceLane.debian11_rootful DaemonMode.rootful = true
debian_lane NativeEvidenceLane.debian11_rootless DaemonMode.rootless = true
debian_lane _ _ = false

abbrev pub debian_revision : Bytes
debian_revision = codes "20.10.5+dfsg1-1+deb11u2"

abbrev pub debian_release : Bytes
debian_release = codes "20.10.5+dfsg1"

abbrev pub upstream_release : Bytes
upstream_release = codes "29.8.1"

-- the local `debian11` of `matches_identity`
abbrev pub is_debian11 : TargetProfileIdentity → Bool
is_debian11 identity =
    identity.build == EngineBuild.debian_package debian_revision
    && (identity.release == debian_release
        && (identity.advertised_api_version == minimum_api
            && (identity.acquisition_api_version == minimum_api
                && identity.rendering_api_version == minimum_api)))

unfoldable pub matches_identity : NativeEvidenceLane → TargetProfileIdentity → Bool
matches_identity lane identity =
    identity.release == upstream_release && upstream_lane lane identity.build identity.mode
    || is_debian11 identity && debian_lane lane identity.mode

pub record NativeEvidenceReference : Type 0 where
  pub lane : NativeEvidenceLane
  pub run_url : Bytes
  pub candidate_sha : Bytes
  pub artifact_name : Bytes
  pub manifest_key : Bytes
  pub record_key : Bytes

-- the closure over `[run_id, attempt]`
abbrev pub is_run_number : Bytes → Bool
is_run_number [] = false
is_run_number (b ∷ part) = leb b'1' b && leb b b'9' && all is_ascii_digit (b ∷ part)

-- a byte of a lower-case hexadecimal digest
abbrev pub is_sha_digit : ℕ → Bool
is_sha_digit byte = is_ascii_digit byte || leb b'a' byte && leb byte b'f'

abbrev pub run_prefix : Bytes
run_prefix = codes "https://github.com/Strukturpiloten/docker-lens/actions/runs/"

abbrev pub attempts_mark : Bytes
attempts_mark = codes "/attempts/"

-- `NativeEvidenceReference::new`
unfoldable pub native_evidence_reference :
    NativeEvidenceLane
    → Bytes
    → Bytes
    → Bytes
    → Bytes
    → Bytes
    → Result CapabilityError NativeEvidenceReference
native_evidence_reference lane run_url candidate_sha name manifest_key record_key = do
  run_path ← ok_or (strip_prefix run_prefix run_url) CapabilityError.invalid_evidence_run_url
  parts ← ok_or (split_once attempts_mark run_path) CapabilityError.invalid_evidence_run_url
  reject_if (not (is_run_number parts.0 && is_run_number parts.1))
      CapabilityError.invalid_evidence_run_url
  reject_if (not (length candidate_sha == 40) || not (all is_sha_digit candidate_sha))
      CapabilityError.invalid_evidence_candidate_sha
  reject_if (not (name == artifact_name lane)) CapabilityError.invalid_evidence_artifact_name
  ok (record {
    lane = lane;
    run_url = run_url;
    candidate_sha = candidate_sha;
    artifact_name = name;
    manifest_key = manifest_key;
    record_key = record_key;
  })
