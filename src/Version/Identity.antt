-- ===== src/Version/Identity.antt =====
-- `TargetProfileIdentity`, `CapabilityEvidenceKey` and `TargetProfile` of src/version.rs.
pub mod Range
use docker_lens.Prelude.{
  ℕ, ◌≡◌, refl, ◌↔◌, Bool, true, false, not, ◌&&◌, ◌||◌, arith, ltb, if◌then◌else◌, Eq, ◌==◌,
  list_beq_iff, Bytes, Result, ok, err, nat_eq, list_eq, reject_if, ◌>>=◌, ◌>>◌, replicate,
}
use docker_lens.Version.Facts.{
  ApiVersion, api_version_eq, api_version_beq_iff, api_ltb, DaemonMode, daemon_mode_eq,
  daemon_mode_beq_iff, EngineBuild, engine_build_eq, engine_build_beq_iff, CapabilityError,
}

-- `CapabilityEvidenceKey::sha256` of a digest of 32 bytes; a key is its digest.
pub sha256 : Bytes → Result CapabilityError Bytes
sha256 digest =
    if digest == replicate 32 0 then err CapabilityError.empty_evidence_key else ok digest

pub record TargetProfileIdentity : Type 0 where
  pub build : EngineBuild
  pub release : Bytes
  pub advertised_api_version : ApiVersion
  pub acquisition_api_version : ApiVersion
  pub rendering_api_version : ApiVersion
  pub mode : DaemonMode

abbrev pub identity_beq : TargetProfileIdentity → TargetProfileIdentity → Bool
identity_beq a b =
    a.build == b.build
    && (a.release == b.release
        && (a.advertised_api_version == b.advertised_api_version
            && (a.acquisition_api_version == b.acquisition_api_version
                && (a.rendering_api_version == b.rendering_api_version && a.mode == b.mode))))

-- ApiVersion::new(NonZeroU16::new(1), 41)
abbrev pub minimum_api : ApiVersion
minimum_api = record { major = 1; minor = 41 }

-- The range test of `TargetProfileIdentity::new`.
pub out_of_range : ApiVersion → ApiVersion → ApiVersion → Bool
out_of_range advertised acquisition rendering =
    not (advertised.major == 1)
    || api_ltb acquisition minimum_api
    || api_ltb rendering minimum_api
    || api_ltb advertised acquisition
    || api_ltb advertised rendering

unfoldable pub target_profile_identity :
    EngineBuild
    → Bytes
    → ApiVersion
    → ApiVersion
    → ApiVersion
    → DaemonMode
    → Result CapabilityError TargetProfileIdentity
target_profile_identity build release advertised acquisition rendering mode = do
  reject_if (mode == DaemonMode.unknown) CapabilityError.unknown_target_mode
  reject_if (out_of_range advertised acquisition rendering) CapabilityError.invalid_target_api_range
  ok (record {
    build = build;
    release = release;
    advertised_api_version = advertised;
    acquisition_api_version = acquisition;
    rendering_api_version = rendering;
    mode = mode;
  })

pub identity_beq_iff : (a b : TargetProfileIdentity) → (identity_beq a b ≡ true) ↔ (a ≡ b)
identity_beq_iff a b = ground (
  arith,
  engine_build_beq_iff a.build b.build,
  list_beq_iff a.release b.release,
  api_version_beq_iff a.advertised_api_version b.advertised_api_version,
  api_version_beq_iff a.acquisition_api_version b.acquisition_api_version,
  api_version_beq_iff a.rendering_api_version b.rendering_api_version,
  daemon_mode_beq_iff a.mode b.mode,
)

instance abbrev pub identity_eq : Eq TargetProfileIdentity
identity_eq = record { beq = identity_beq; beq_iff = identity_beq_iff }

-- A candidate target; usable only behind a resolution in the reviewed catalog.
pub record TargetProfile : Type 0 where
  pub identity : TargetProfileIdentity
  pub evidence_key : Bytes

abbrev pub profile_beq : TargetProfile → TargetProfile → Bool
profile_beq a b = a.identity == b.identity && a.evidence_key == b.evidence_key

pub profile_beq_iff : (a b : TargetProfile) → (profile_beq a b ≡ true) ↔ (a ≡ b)
profile_beq_iff a b =
    ground
      (arith, identity_beq_iff a.identity b.identity, list_beq_iff a.evidence_key b.evidence_key)

instance abbrev pub profile_eq : Eq TargetProfile
profile_eq = record { beq = profile_beq; beq_iff = profile_beq_iff }
