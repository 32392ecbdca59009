-- ===== src/Version/Observed.antt =====
-- `DaemonFacts` and `ValidatedCapabilities` of src/version.rs: the capabilities that one observation
-- of a daemon claims. Validated capabilities are their facts.
pub mod Scope
pub mod Accepted
pub mod Validated
use docker_lens.Prelude.{
  ℕ, ◌≡◌, ◌↔◌, arith, Bool, true, false, not, ◌&&◌, ◌||◌, Option, none, some, List, [], ◌∷◌, any,
  contains, Eq, ◌==◌, nat_eq, list_eq, Bytes, Result, ok, err, reject_if, ◌>>=◌, ◌>>◌,
}
use docker_lens.Version.Capability.{Capability, capability_eq}
use docker_lens.Version.Facts.{
  ApiVersion, api_version_eq, api_ltb, DaemonMode, daemon_mode_eq, CapabilityState, is_available,
  CapabilityError,
}

pub record CapabilityScope : Type 0 where
  pub observation_id : ℕ
  pub release : Bytes
  pub api_version : ApiVersion
  pub mode : DaemonMode

pub data FactProvenance : Type 0 where
  daemon_response native_conformance unknown : FactProvenance

pub record CapabilityFact : Type 0 where
  pub capability : Capability
  pub state : CapabilityState
  pub provenance : FactProvenance
  pub scope : Option CapabilityScope

pub record DaemonFacts : Type 0 where
  pub observation_id : ℕ
  pub release : Option Bytes
  pub api_version : Option ApiVersion
  pub minimum_api_version : Option ApiVersion
  pub mode : DaemonMode
  pub capabilities : List CapabilityFact

abbrev pub is_above : Option ApiVersion → ApiVersion → Bool
is_above none version = false
is_above (some minimum) version = api_ltb version minimum

-- the `match` on the state and the provenance
abbrev pub is_provenance : CapabilityState → FactProvenance → Bool
is_provenance CapabilityState.available FactProvenance.native_conformance = true
is_provenance CapabilityState.unavailable FactProvenance.native_conformance = true
is_provenance CapabilityState.unavailable FactProvenance.daemon_response = true
is_provenance CapabilityState.unknown FactProvenance.unknown = true
is_provenance _ _ = false

abbrev pub is_unknown : CapabilityState → Bool
is_unknown CapabilityState.unknown = true
is_unknown _ = false

-- the guard on a scope
abbrev pub is_scope_of : CapabilityScope → DaemonFacts → Bytes → ApiVersion → Bool
is_scope_of scope facts release api =
    scope.observation_id == facts.observation_id
    && scope.release == release
    && scope.api_version == api
    && scope.mode == facts.mode

-- the `match` on the scope and the state
abbrev pub is_scoped :
    Option CapabilityScope → CapabilityState → DaemonFacts → Bytes → ApiVersion → Bool
is_scoped none state facts release api = is_unknown state
is_scoped (some scope) state facts release api =
    not (is_unknown state) && is_scope_of scope facts release api

-- the loop over the facts
unfoldable pub validate_facts :
    DaemonFacts
    → Bytes
    → ApiVersion
    → List Capability
    → List CapabilityFact
    → Result CapabilityError (Unit {0})
validate_facts facts release api seen [] = ok tt
validate_facts facts release api seen (fact ∷ rest) = do
  reject_if (contains seen fact.capability) CapabilityError.duplicate_capability
  reject_if (not (is_provenance fact.state fact.provenance)) CapabilityError.invalid_provenance
  reject_if (not (is_scoped fact.scope fact.state facts release api)) CapabilityError.scope_mismatch
  validate_facts facts release api (fact.capability ∷ seen) rest

abbrev pub is_unknown_mode : DaemonMode → Bool
is_unknown_mode DaemonMode.unknown = true
is_unknown_mode _ = false

-- the checks behind the `let … else`
unfoldable pub validate_identified :
    DaemonFacts → Bytes → ApiVersion → Result CapabilityError DaemonFacts
validate_identified facts release api = do
  reject_if (is_unknown_mode facts.mode) CapabilityError.missing_daemon_identity
  reject_if (is_above facts.minimum_api_version api) CapabilityError.invalid_api_range
  validate_facts facts release api [] facts.capabilities
  ok facts

-- `ValidatedCapabilities::new`
unfoldable pub validated_capabilities : DaemonFacts → Result CapabilityError DaemonFacts
validated_capabilities facts = elim facts.release [
  | none ↦ err CapabilityError.missing_daemon_identity
  | some release ↦ elim facts.api_version [
    | none ↦ err CapabilityError.missing_daemon_identity
    | some api ↦ validate_identified facts release api
  ]
]

-- `ValidatedCapabilities::supports`
unfoldable pub confirms : DaemonFacts → Capability → Bool
confirms facts c = any (λ fact. fact.capability == c && is_available fact.state) facts.capabilities

-- the scope in `context`, with a panic of `expect` as `none`
unfoldable pub observed_scope : DaemonFacts → Option CapabilityScope
observed_scope facts = elim facts.release [
  | none ↦ none
  | some release ↦ elim facts.api_version [
    | none ↦ none
    | some api ↦ some (record {
      observation_id = facts.observation_id;
      release = release;
      api_version = api;
      mode = facts.mode;
    })
  ]
]
