-- ===== src/Version/Facts.antt =====
-- The facts of src/version.rs about one daemon: API versions, releases, modes, builds, and the
-- claims about capabilities.
use docker_lens.Prelude.{
  ℕ, ◌≡◌, refl, ◌↔◌, Bool, true, false, ◌&&◌, ◌||◌, Option, none, some, [], ◌∷◌, arith, ltb, any,
  if◌then◌else◌, Eq, ◌==◌, list_beq_iff, Bytes, is_ascii_whitespace, is_ascii_control, Result, ok,
  err, nat_eq, list_eq,
}

-- `major` is a `NonZeroU16` and `minor` a `u16`.
pub record ApiVersion : Type 0 where
  pub major : ℕ
  pub minor : ℕ

abbrev pub api_version_beq : ApiVersion → ApiVersion → Bool
api_version_beq a b = a.major == b.major && a.minor == b.minor

pub api_version_beq_iff : (a b : ApiVersion) → (api_version_beq a b ≡ true) ↔ (a ≡ b)
api_version_beq_iff a b = ground arith

instance abbrev pub api_version_eq : Eq ApiVersion
api_version_eq = record { beq = api_version_beq; beq_iff = api_version_beq_iff }

-- The derived order compares the fields in turn.
abbrev pub api_ltb : ApiVersion → ApiVersion → Bool
api_ltb a b = ltb a.major b.major || a.major == b.major && ltb a.minor b.minor

-- `Ord::min` keeps the first of two equal values.
abbrev pub api_min : ApiVersion → ApiVersion → ApiVersion
api_min a b = if api_ltb b a then b else a

-- `EngineRelease::new`; a release is its text.
pub engine_release : Bytes → Option Bytes
engine_release [] = none
engine_release (b ∷ value) = some (b ∷ value)

pub data DaemonMode : Type 0 where
  rootful rootless unknown : DaemonMode

abbrev pub daemon_mode_beq : DaemonMode → DaemonMode → Bool
daemon_mode_beq DaemonMode.rootful DaemonMode.rootful = true
daemon_mode_beq DaemonMode.rootless DaemonMode.rootless = true
daemon_mode_beq DaemonMode.unknown DaemonMode.unknown = true
daemon_mode_beq _ _ = false

pub daemon_mode_beq_iff : (a b : DaemonMode) → (daemon_mode_beq a b ≡ true) ↔ (a ≡ b)
daemon_mode_beq_iff a b = ground arith

instance abbrev pub daemon_mode_eq : Eq DaemonMode
daemon_mode_eq = record { beq = daemon_mode_beq; beq_iff = daemon_mode_beq_iff }

pub data CapabilityState : Type 0 where
  available unavailable unknown : CapabilityState

-- `state == CapabilityState::Available`
abbrev pub is_available : CapabilityState → Bool
is_available CapabilityState.available = true
is_available _ = false

pub data CapabilityError : Type 0 where
  missing_daemon_identity invalid_api_range duplicate_capability : CapabilityError
  invalid_provenance scope_mismatch unknown_target_mode : CapabilityError
  invalid_target_api_range invalid_package_revision empty_evidence_key : CapabilityError
  invalid_evidence_run_url invalid_evidence_candidate_sha : CapabilityError
  invalid_evidence_artifact_name evidence_lane_mismatch : CapabilityError
  evidence_key_mismatch incomplete_evidence_shapes : CapabilityError
  duplicate_evidence_shape evidence_shape_mismatch : CapabilityError
  duplicate_profile profile_not_reviewed : CapabilityError

-- `DebianPackageRevision::new`; a revision is its text.
pub debian_package_revision : Bytes → Result CapabilityError Bytes
debian_package_revision [] = err CapabilityError.invalid_package_revision
debian_package_revision (b ∷ value) =
    if any (λ byte. is_ascii_whitespace byte || is_ascii_control byte) (b ∷ value)
    then err CapabilityError.invalid_package_revision
    else ok (b ∷ value)

pub data EngineBuild : Type 0 where
  upstream : EngineBuild
  debian_package : Bytes → EngineBuild

abbrev pub engine_build_beq : EngineBuild → EngineBuild → Bool
engine_build_beq EngineBuild.upstream EngineBuild.upstream = true
engine_build_beq EngineBuild.upstream (EngineBuild.debian_package r) = false
engine_build_beq (EngineBuild.debian_package r) EngineBuild.upstream = false
engine_build_beq (EngineBuild.debian_package r) (EngineBuild.debian_package s) = r == s

pub engine_build_beq_iff : (a b : EngineBuild) → (engine_build_beq a b ≡ true) ↔ (a ≡ b)
engine_build_beq_iff EngineBuild.upstream EngineBuild.upstream = ((λ h. refl), (λ h. refl))
engine_build_beq_iff EngineBuild.upstream (EngineBuild.debian_package r) = ((λ h. cc), (λ h. cc))
engine_build_beq_iff (EngineBuild.debian_package r) EngineBuild.upstream = ((λ h. cc), (λ h. cc))
engine_build_beq_iff (EngineBuild.debian_package r) (EngineBuild.debian_package s) =
    ground (arith, list_beq_iff r s)

instance abbrev pub engine_build_eq : Eq EngineBuild
engine_build_eq = record { beq = engine_build_beq; beq_iff = engine_build_beq_iff }
