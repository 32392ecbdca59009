-- ===== src/Version/Observed/Accepted.antt =====
-- What `ValidatedCapabilities::new` of src/version.rs accepts.
use docker_lens.Prelude.{
  ◌≡◌, ◌≢◌, ◌↔◌, ◌⊎◌, ◌<◌, ◌≤◌, inl, inr, refl, ap, ◌∙◌, arith, true, false, not, Option, none,
  some, List, [], ◌∷◌, map, All, Distinct, contains, Option-cases, all_inserted, all_inserted_iff,
  Bytes, ok, ok-eq_ok, reject_if_iff, >>_iff,
}
use docker_lens.Version.Capability.{Capability, capability_eq}
use docker_lens.Version.Facts.{ApiVersion, DaemonMode, CapabilityState}
use docker_lens.Version.Observed.{
  CapabilityScope, FactProvenance, CapabilityFact, DaemonFacts, is_provenance, is_scoped, is_above,
  is_unknown_mode, validate_facts, validate_identified, validated_capabilities,
}
use docker_lens.Version.Observed.Scope.{scope_of, is_scope_of_iff}

-- A claim of an observation with the scope: a definite one has exactly this scope, support is known
-- from a native conformance test only, its absence also from the daemon, and a claim that is
-- unknown has neither a source nor a scope.
abbrev pub IsClaim : CapabilityScope → CapabilityFact → Type 0
IsClaim scope fact =
    ((fact.state ≡ CapabilityState.available)
      × (fact.provenance ≡ FactProvenance.native_conformance)
      × (fact.scope ≡ some scope))
    ⊎ ((fact.state ≡ CapabilityState.unavailable)
        × ((fact.provenance ≡ FactProvenance.native_conformance)
            ⊎ (fact.provenance ≡ FactProvenance.daemon_response))
        × (fact.scope ≡ some scope))
    ⊎ ((fact.state ≡ CapabilityState.unknown)
        × (fact.provenance ≡ FactProvenance.unknown)
        × (fact.scope ≡ none))

-- Versions are compared by major number, then by minor number.
abbrev pub IsAtMost : ApiVersion → ApiVersion → Type 0
IsAtMost a b = (a.major < b.major) ⊎ ((a.major ≡ b.major) × (a.minor ≤ b.minor))

abbrev pub IsLeast : Option ApiVersion → ApiVersion → Type 0
IsLeast none api = Unit {0}
IsLeast (some minimum) api = IsAtMost minimum api

-- An identified daemon, and distinct capabilities with a claim each.
pub record IsValidated (facts : DaemonFacts) : Type 0 where
  pub release : Bytes
  pub api : ApiVersion
  pub names_release : facts.release ≡ some release
  pub names_api : facts.api_version ≡ some api
  pub mode : facts.mode ≢ DaemonMode.unknown
  pub minimum : IsLeast facts.minimum_api_version api
  pub distinct : Distinct (map (λ (fact : CapabilityFact). fact.capability) facts.capabilities)
  pub claims : All (IsClaim (scope_of facts release api)) facts.capabilities

is_scoped-IsClaim :
    (c : Capability) (state : CapabilityState) (provenance : FactProvenance)
    (scope : Option CapabilityScope) (facts : DaemonFacts) (release : Bytes) (api : ApiVersion)
    → is_provenance state provenance ≡ true
    → is_scoped scope state facts release api ≡ true
    → IsClaim
        (scope_of facts release api)
        (record { capability = c; state = state; provenance = provenance; scope = scope })
is_scoped-IsClaim c state provenance none facts release api p s = ground arith
is_scoped-IsClaim c state provenance (some scope) facts release api p s =
    let same = (is_scope_of_iff scope facts release api).0 (ground arith) in
    let e = ap (λ (s : CapabilityScope). some s) same in ground (arith, e)

IsClaim-is_scoped :
    (fact : CapabilityFact) (facts : DaemonFacts) (release : Bytes) (api : ApiVersion)
    → IsClaim (scope_of facts release api) fact
    → (is_provenance fact.state fact.provenance ≡ true)
      × (is_scoped fact.scope fact.state facts release api ≡ true)
IsClaim-is_scoped fact facts release api claim =
    let same = (is_scope_of_iff (scope_of facts release api) facts release api).1 refl in
    elim claim [
      | inl (a, b, c) ↦ rw (a, b, c, same) (refl, refl)
      | inr (inl (a, inl b, c)) ↦ rw (a, b, c, same) (refl, refl)
      | inr (inl (a, inr b, c)) ↦ rw (a, b, c, same) (refl, refl)
      | inr (inr (a, b, c)) ↦ rw (a, b, c) (refl, refl)
    ]

names : List CapabilityFact → List Capability
names rest = map (λ (fact : CapabilityFact). fact.capability) rest

validate_facts_sound :
    (facts : DaemonFacts) (release : Bytes) (api : ApiVersion) (seen : List Capability)
    (rest : List CapabilityFact)
    → validate_facts facts release api seen rest ≡ ok tt
    → (all_inserted seen (names rest) ≡ true) × All (IsClaim (scope_of facts release api)) rest
unfolding validate_facts all_inserted names
validate_facts_sound facts release api seen [] h = (refl, tt)
validate_facts_sound facts release api seen (fact ∷ rest) h =
    let (old, k) = (reject_if_iff (contains seen fact.capability) _ _ tt).0 h in
    let (source, l) = (reject_if_iff (not (is_provenance fact.state fact.provenance)) _ _ tt).0 k in
    let (scoped, m) =
      (reject_if_iff (not (is_scoped fact.scope fact.state facts release api)) _ _ tt).0 l in
    let (inserted, claims) =
      validate_facts_sound facts release api (fact.capability ∷ seen) rest m in
    (
      rw (old, inserted) refl,
      (
        is_scoped-IsClaim fact.capability fact.state fact.provenance fact.scope facts release api
            (ground arith) (ground arith),
        claims,
      ),
    )

validate_facts_complete :
    (facts : DaemonFacts) (release : Bytes) (api : ApiVersion) (seen : List Capability)
    (rest : List CapabilityFact)
    → all_inserted seen (names rest) ≡ true
    → All (IsClaim (scope_of facts release api)) rest
    → validate_facts facts release api seen rest ≡ ok tt
unfolding validate_facts all_inserted names
validate_facts_complete facts release api seen [] h claims = refl
validate_facts_complete facts release api seen (fact ∷ rest) h (claim, claims) =
    let (source, scoped) = IsClaim-is_scoped fact facts release api claim in
    let old : contains seen fact.capability ≡ false = ground arith in
    let rest_passes =
      validate_facts_complete facts release api (fact.capability ∷ seen) rest (ground arith)
        claims in
    rw (old, source, scoped) rest_passes

is_above_iff :
    (minimum : Option ApiVersion) (api : ApiVersion)
    → (is_above minimum api ≡ false) ↔ IsLeast minimum api
is_above_iff none api = ((λ h. tt), (λ h. refl))
is_above_iff (some minimum) api = ground arith

is_unknown_mode_iff :
    (mode : DaemonMode) → (is_unknown_mode mode ≡ false) ↔ (mode ≢ DaemonMode.unknown)
is_unknown_mode_iff mode = ground arith

identified_sound :
    (facts out : DaemonFacts) (release : Bytes) (api : ApiVersion)
    → facts.release ≡ some release
    → facts.api_version ≡ some api
    → validate_identified facts release api ≡ ok out
    → (facts ≡ out) × IsValidated facts
unfolding validate_identified names
identified_sound facts out release api r a h =
    let (mode, k) = (reject_if_iff (is_unknown_mode facts.mode) _ _ out).0 h in
    let (range, l) = (reject_if_iff (is_above facts.minimum_api_version api) _ _ out).0 k in
    let (each, last) =
      (>>_iff (validate_facts facts release api [] facts.capabilities) _ out).0 l in
    let (inserted, claims) = validate_facts_sound facts release api [] facts.capabilities each in
    (
      ok-eq_ok last,
      record {
        release = release;
        api = api;
        names_release = r;
        names_api = a;
        mode = (is_unknown_mode_iff facts.mode).0 mode;
        minimum = (is_above_iff facts.minimum_api_version api).0 range;
        distinct = (all_inserted_iff (names facts.capabilities)).0 inserted;
        claims = claims;
      },
    )

identified_complete :
    (facts : DaemonFacts) (i : IsValidated facts)
    → validate_identified facts i.release i.api ≡ ok facts
unfolding validate_identified names
identified_complete facts i =
    let mode = (is_unknown_mode_iff facts.mode).1 i.mode in
    let range = (is_above_iff facts.minimum_api_version i.api).1 i.minimum in
    let inserted = (all_inserted_iff (names facts.capabilities)).1 i.distinct in
    let each =
      validate_facts_complete facts i.release i.api [] facts.capabilities inserted i.claims in
    rw (mode, range, each) refl

validated_capabilities_sound :
    (facts out : DaemonFacts)
    → validated_capabilities facts ≡ ok out
    → (facts ≡ out) × IsValidated facts
unfolding validated_capabilities
validated_capabilities_sound facts out h = elim (Option-cases facts.release) [
  | inl e ↦ absurd (let bad = rw (e, validated_capabilities) at h in cc)
  | inr (release, r) ↦ elim (Option-cases facts.api_version) [
    | inl e ↦ absurd (let bad = rw (r, e, validated_capabilities) at h in cc)
    | inr (api, a) ↦
        identified_sound facts out release api r a (rw (r, a, validated_capabilities) at h)
  ]
]

validated_capabilities_complete :
    (facts : DaemonFacts) → IsValidated facts → validated_capabilities facts ≡ ok facts
unfolding validated_capabilities
validated_capabilities_complete facts i =
    simp (i.names_release, i.names_api, validated_capabilities) (identified_complete facts i)

-- Facts are validated, unchanged, exactly if they name a release, an API version that is not below the
-- minimum if there is one, and a known mode, and claim distinct capabilities, each one either
-- available by a native conformance test, or unavailable by such a test or a response of the
-- daemon, both in exactly the scope of the observation, or unknown without a source and a scope.
pub validated_capabilities_iff :
    (facts out : DaemonFacts)
    → (validated_capabilities facts ≡ ok out) ↔ ((facts ≡ out) × IsValidated facts)
validated_capabilities_iff facts out = (
  validated_capabilities_sound facts out,
  (λ (same, i). validated_capabilities_complete facts i ∙ ap ok same),
)
