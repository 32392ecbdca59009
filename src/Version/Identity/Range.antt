-- ===== src/Version/Identity/Range.antt =====
-- What `TargetProfileIdentity::new` of src/version.rs accepts.
use docker_lens.Prelude.{
  ◌≤◌, ◌≡◌, ◌≢◌, ap, ◌∙◌, ◌↔◌, inl, inr, Bool-cases, false, arith, ◌==◌, nat_eq, Result, ok,
}
use docker_lens.Version.Facts.{
  ApiVersion, DaemonMode, daemon_mode_eq, daemon_mode_beq_iff, CapabilityError,
}
use docker_lens.Version.Identity.{TargetProfileIdentity, target_profile_identity, out_of_range}

-- The version is of API 1, at least 1.41, and at most the advertised one.
pub record IsRange (advertised v : ApiVersion) : Type 0 where
  pub major : v.major ≡ 1
  pub floor : 41 ≤ v.minor
  pub ceiling : v.minor ≤ advertised.minor

out_of_range-IsRange :
    (advertised acquisition rendering : ApiVersion)
    → out_of_range advertised acquisition rendering ≡ false
    → (advertised.major ≡ 1) × IsRange advertised acquisition × IsRange advertised rendering
unfolding out_of_range
out_of_range-IsRange advertised acquisition rendering h = (ground arith, ground arith, ground arith)

IsRange-out_of_range :
    (advertised acquisition rendering : ApiVersion)
    → advertised.major ≡ 1
    → IsRange advertised acquisition
    → IsRange advertised rendering
    → out_of_range advertised acquisition rendering ≡ false
unfolding out_of_range
IsRange-out_of_range advertised acquisition rendering m a r = ground arith

-- the call on the fields of an identity
abbrev pub rebuild : TargetProfileIdentity → Result CapabilityError TargetProfileIdentity
rebuild i =
    target_profile_identity i.build i.release i.advertised_api_version i.acquisition_api_version
      i.rendering_api_version i.mode

accepted_parts :
    (i j : TargetProfileIdentity)
    → rebuild i ≡ ok j
    → (i ≡ j)
      × ((i.mode == DaemonMode.unknown) ≡ false)
      × (out_of_range i.advertised_api_version i.acquisition_api_version i.rendering_api_version
          ≡ false)
unfolding target_profile_identity
accepted_parts i j h = (ground arith, ground arith, ground arith)

parts_accepted :
    (i : TargetProfileIdentity)
    → (i.mode == DaemonMode.unknown) ≡ false
    → out_of_range i.advertised_api_version i.acquisition_api_version i.rendering_api_version
      ≡ false
    → rebuild i ≡ ok i
unfolding target_profile_identity
parts_accepted i known range = rw (known, range)

is_known : {m : DaemonMode} → m ≢ DaemonMode.unknown → (m == DaemonMode.unknown) ≡ false
is_known {m} h = elim (Bool-cases (m == DaemonMode.unknown)) [
  | inl e ↦ absurd (h ((daemon_mode_beq_iff m DaemonMode.unknown).0 e))
  | inr e ↦ e
]

-- An identity is accepted exactly when the daemon mode is known, the advertised version is of API 1,
-- and the acquisition and rendering versions lie between 1.41 and it; its fields are the arguments.
pub target_profile_identity_iff :
    (i j : TargetProfileIdentity)
    → (rebuild i ≡ ok j) ↔ (
        (i ≡ j)
        × (i.mode ≢ DaemonMode.unknown)
        × (i.advertised_api_version.major ≡ 1)
        × IsRange i.advertised_api_version i.acquisition_api_version
        × IsRange i.advertised_api_version i.rendering_api_version)
target_profile_identity_iff i j = (
  (λ h.
      let (same, known, range) = accepted_parts i j h in
      let (m, a, r) = out_of_range-IsRange _ _ _ range in
      (same, (λ e. let k = (daemon_mode_beq_iff i.mode DaemonMode.unknown).1 e in cc), m, a, r)),
  (λ (same, known, m, a, r).
      parts_accepted i (is_known known) (IsRange-out_of_range _ _ _ m a r) ∙ ap ok same),
)
