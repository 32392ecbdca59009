-- ===== src/Version/Observed/Validated.antt =====
-- What `ValidatedCapabilities::new` of src/version.rs establishes.
use docker_lens.Prelude.{
  ◌≡◌, inl, inr, refl, ap, sym, subst, arith, true, not, ◌&&◌, Option, none, some, List, [], ◌∷◌,
  In, any-In, Option-cases, &&-true, ◌==◌, nat_eq, list_eq, Bytes, ok, ok-eq_ok, reject_if_iff,
  >>_iff,
}
use docker_lens.Version.Capability.{Capability, capability_eq, capability_beq_iff}
use docker_lens.Version.Facts.{
  ApiVersion, api_version_eq, daemon_mode_eq, CapabilityState, is_available, CapabilityError,
}
use docker_lens.Version.Observed.Scope.{scope_of, is_scope_of_iff}
use docker_lens.Version.Observed.{
  CapabilityScope, FactProvenance, CapabilityFact, DaemonFacts, is_provenance, is_scoped,
  is_scope_of, is_unknown, is_unknown_mode, is_above, validate_facts, validate_identified,
  validated_capabilities, confirms, observed_scope,
}

-- a fact of a validated observation
abbrev IsFact : DaemonFacts → Bytes → ApiVersion → CapabilityFact → Type 0
IsFact facts release api fact =
    (is_provenance fact.state fact.provenance ≡ true)
    × (is_scoped fact.scope fact.state facts release api ≡ true)

validate_facts_sound :
    (facts : DaemonFacts) (release : Bytes) (api : ApiVersion) (seen : List Capability)
    (rest : List CapabilityFact) (fact : CapabilityFact)
    → validate_facts facts release api seen rest ≡ ok tt
    → In fact rest
    → IsFact facts release api fact
unfolding validate_facts
validate_facts_sound facts release api seen [] fact done m = absurd m
validate_facts_sound facts release api seen (f ∷ rest) fact done m = elim m [
  | inl same ↦ rw (← same) (ground arith)
  | inr later ↦
      validate_facts_sound facts release api (f.capability ∷ seen) rest fact (ground arith) later
]

-- a confirmed capability rests on a native fact of exactly the scope of the observation
abbrev pub IsConfirmed : DaemonFacts → CapabilityScope → Capability → Type 0
IsConfirmed facts scope c =
    (fact : CapabilityFact) × In fact facts.capabilities
    × (fact.capability ≡ c)
    × (fact.provenance ≡ FactProvenance.native_conformance)
    × (fact.scope ≡ some scope)

native_fact :
    (state : CapabilityState) (provenance : FactProvenance)
    → is_available state ≡ true
    → is_provenance state provenance ≡ true
    → provenance ≡ FactProvenance.native_conformance
native_fact CapabilityState.available FactProvenance.native_conformance a h = refl
native_fact CapabilityState.available FactProvenance.daemon_response a h = cc
native_fact CapabilityState.available FactProvenance.unknown a h = cc
native_fact CapabilityState.unavailable provenance a h = cc
native_fact CapabilityState.unknown provenance a h = cc

scoped_fact :
    (given : Option CapabilityScope) (state : CapabilityState) (facts : DaemonFacts)
    (release : Bytes) (api : ApiVersion)
    → is_available state ≡ true
    → is_scoped given state facts release api ≡ true
    → given ≡ some (scope_of facts release api)
scoped_fact none CapabilityState.available facts release api a h = cc
scoped_fact none CapabilityState.unavailable facts release api a h = cc
scoped_fact none CapabilityState.unknown facts release api a h = cc
scoped_fact (some scope) state facts release api a h =
    let (known, same) = &&-true (not (is_unknown state)) (is_scope_of scope facts release api) h in
    ap some ((is_scope_of_iff scope facts release api).0 same)

any_confirmed :
    (facts : DaemonFacts) (c : Capability)
    → confirms facts c ≡ true
    → (fact : CapabilityFact) × In fact facts.capabilities
      × (fact.capability ≡ c)
      × (is_available fact.state ≡ true)
unfolding confirms
any_confirmed facts c h =
    let (fact, m, e) =
      any-In (λ f. f.capability == c && is_available f.state) facts.capabilities h in
    let (same, available) = &&-true (fact.capability == c) (is_available fact.state) e in
    (fact, m, (capability_beq_iff fact.capability c).0 same, available)

-- If facts are validated and support a capability, they have a scope, and the capability is claimed by
-- a native conformance fact of exactly that scope.
pub validated_capabilities-IsConfirmed :
    (facts out : DaemonFacts) (c : Capability)
    → validated_capabilities facts ≡ ok out
    → confirms out c ≡ true
    → (scope : CapabilityScope) × (observed_scope out ≡ some scope) × IsConfirmed out scope c
unfolding validated_capabilities validate_identified observed_scope
validated_capabilities-IsConfirmed facts out c h supported = elim (Option-cases facts.release) [
  | inl missing ↦ let bad = rw (missing, validated_capabilities) at h in cc
  | inr (release, r) ↦ elim (Option-cases facts.api_version) [
    | inl missing ↦ let bad = rw (r, missing, validated_capabilities) at h in cc
    | inr (api, a) ↦
        let checked : validate_identified facts release api ≡ ok out =
          rw (r, a, validated_capabilities) at h in
        let (mode, h1) =
          (reject_if_iff (is_unknown_mode facts.mode) CapabilityError.missing_daemon_identity _
              out).0
            checked in
        let (range, h2) =
          (reject_if_iff (is_above facts.minimum_api_version api) CapabilityError.invalid_api_range
              _ out).0
            h1 in
        let (each, last) =
          (>>_iff (validate_facts facts release api [] facts.capabilities) _ out).0 h2 in
        let same = ok-eq_ok last in
        let (fact, m, e, available) =
          any_confirmed facts c (subst (λ f. confirms f c ≡ true) (sym same) supported) in
        let (provenance, scoped) =
          validate_facts_sound facts release api [] facts.capabilities fact each m in
        subst (λ f. (s : CapabilityScope) × (observed_scope f ≡ some s) × IsConfirmed f s c) same
          (
            scope_of facts release api,
            rw (r, a, observed_scope) refl,
            (
              fact,
              m,
              e,
              native_fact fact.state fact.provenance available provenance,
              scoped_fact fact.scope fact.state facts release api available scoped,
            ),
          )
  ]
]
