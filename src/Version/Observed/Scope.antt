-- ===== src/Version/Observed/Scope.antt =====
-- The scope of an observation, and the test on it, of `ValidatedCapabilities::new` of src/version.rs.
use docker_lens.Prelude.{
  ◌≡◌, ◌↔◌, refl, sym, subst, true, &&-true, ◌==◌, nat_eq, nat_beq_iff, list_eq, list_beq_iff,
  Bytes,
}
use docker_lens.Version.Facts.{
  ApiVersion, api_version_eq, api_version_beq_iff, daemon_mode_eq, daemon_mode_beq_iff,
}
use docker_lens.Version.Observed.{CapabilityScope, DaemonFacts, is_scope_of}

abbrev pub scope_of : DaemonFacts → Bytes → ApiVersion → CapabilityScope
scope_of facts release api = record {
  observation_id = facts.observation_id;
  release = release;
  api_version = api;
  mode = facts.mode;
}

scope_eq :
    (scope : CapabilityScope) (facts : DaemonFacts) (release : Bytes) (api : ApiVersion)
    → scope.observation_id ≡ facts.observation_id
    → scope.release ≡ release
    → scope.api_version ≡ api
    → scope.mode ≡ facts.mode
    → scope ≡ scope_of facts release api
scope_eq scope facts release api id name version mode = rw (← id, ← name, ← version, ← mode) refl

is_scope_of-eq :
    (scope : CapabilityScope) (facts : DaemonFacts) (release : Bytes) (api : ApiVersion)
    → is_scope_of scope facts release api ≡ true
    → scope ≡ scope_of facts release api
is_scope_of-eq scope facts release api same =
    let (front, mode) = &&-true _ (scope.mode == facts.mode) same in
    let (front2, version) = &&-true _ (scope.api_version == api) front in
    let (id, name) =
      &&-true (scope.observation_id == facts.observation_id) (scope.release == release) front2 in
    scope_eq scope facts release api ((nat_beq_iff scope.observation_id facts.observation_id).0 id)
      ((list_beq_iff scope.release release).0 name)
      ((api_version_beq_iff scope.api_version api).0 version)
      ((daemon_mode_beq_iff scope.mode facts.mode).0 mode)

scope_of-is_scope_of :
    (facts : DaemonFacts) (release : Bytes) (api : ApiVersion)
    → is_scope_of (scope_of facts release api) facts release api ≡ true
scope_of-is_scope_of facts release api =
    let id = (nat_beq_iff facts.observation_id facts.observation_id).1 refl in
    let name = (list_beq_iff release release).1 refl in
    let version = (api_version_beq_iff api api).1 refl in
    let mode = (daemon_mode_beq_iff facts.mode facts.mode).1 refl in
    rw (id, name, version, mode) refl

pub is_scope_of_iff :
    (scope : CapabilityScope) (facts : DaemonFacts) (release : Bytes) (api : ApiVersion)
    → (is_scope_of scope facts release api ≡ true) ↔ (scope ≡ scope_of facts release api)
is_scope_of_iff scope facts release api = (
  is_scope_of-eq scope facts release api,
  (λ same.
      subst (λ s. is_scope_of s facts release api ≡ true) (sym same)
        (scope_of-is_scope_of facts release api)),
)
