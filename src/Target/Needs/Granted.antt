-- ===== src/Target/Needs/Granted.antt =====
-- The outcome of the capability checks of src/target_modules/graph.rs.
use docker_lens.Prelude.{
  not-false_iff, ◌≡◌, ◌↔◌, ◌⊎◌, inl, inr, refl, arith, Bool, true, false, not, List, [], ◌∷◌, All,
  In, Result, ok, err, reject_if, ◌>>◌, reject_if_iff, reject_if-ok_iff, >>_iff, sym, ◌∙◌, any-In,
  any_of_In, All_of_In, All-In, Bool-cases, beq→eq, beq_refl, ◌||◌,
}
use docker_lens.Observation.{ResourceRef}
use docker_lens.Version.Capability.{Capability}
use docker_lens.Version.Facts.{DaemonMode}
use docker_lens.Target.Resource.{TargetResource, reference}
use docker_lens.Target.Needs.{
  TargetField, PlanningError, Need, need, first_need, other_needs, refuse_resource, has_narrow_pool,
  is_restricted, require, require_all, check_resource, check_resources,
}
use docker_lens.Version.Capability.{capability_eq}
use docker_lens.Target.Needs.Uses.{uses}
use docker_lens.Target.Needs.Parts.{asks}
use docker_lens.Target.Needs.Asked.{needs_of, needs_of-uses}
use docker_lens.Target.Needs.Refused.{is_refused, IsRefused, not-IsRefused_iff}

abbrev IsSupported : (Capability → Bool) → Need → Type 0
IsSupported supports n = supports n.capability ≡ true

-- nothing of the resource is refused, and each capability is unused or supported
abbrev pub IsGranted : (Capability → Bool) → DaemonMode → TargetResource → Type 0
IsGranted supports mode r =
    (¬ IsRefused mode r) × ((c : Capability) → (not (uses c r) || supports c) ≡ true)

-- the needs of a resource are supported exactly if each capability is unused or supported
needs_met_iff :
    (supports : Capability → Bool) (r : TargetResource)
    → All (IsSupported supports) (needs_of r)
      ↔ ((c : Capability) → (not (uses c r) || supports c) ≡ true)
needs_met_iff supports r = (
  (λ h c. elim (Bool-cases (uses c r)) [
    | inl used ↦
        let (n, m, same) = any-In (asks c) (needs_of r) (needs_of-uses c r ∙ used) in
        let yes_n = All-In (IsSupported supports) n (needs_of r) h m in
        let e = beq→eq n.capability c same in
        let supported : supports c ≡ true = rw (← e) yes_n in ground arith
    | inr unused ↦ ground arith
  ]),
  (λ h. All_of_In (IsSupported supports) (needs_of r) (λ n m.
      let used =
        sym (needs_of-uses n.capability r)
        ∙ any_of_In (asks n.capability) n (needs_of r) m (beq_refl n.capability) in
      let k = h n.capability in ground arith)),
)

require_all_iff :
    (supports : Capability → Bool) (r : ResourceRef) (needs : List Need)
    → (require_all supports r needs ≡ ok tt) ↔ All (IsSupported supports) needs
unfolding require_all
require_all_iff supports r [] = ((λ h. tt), (λ h. refl))
require_all_iff supports r (n ∷ needs) =
    let rest = require_all_iff supports r needs in
    let step =
      reject_if_iff (not (supports n.capability))
        (PlanningError.missing_capability r n.field n.capability) (require_all supports r needs)
        tt in
    let flip = not-false_iff (supports n.capability) in
    ((λ h. let (e, k) = step.0 h in (flip.0 e, rest.0 k)), (λ h. step.1 (flip.1 h.0, rest.1 h.1)))

refuse_resource_iff :
    (mode : DaemonMode) (r : TargetResource)
    → (refuse_resource mode r ≡ ok tt) ↔ (is_refused mode r ≡ false)
refuse_resource_iff mode (TargetResource.network n) =
    reject_if-ok_iff (has_narrow_pool n.source) (PlanningError.unsupported_network_ipam n.reference)
refuse_resource_iff mode (TargetResource.container c) =
    reject_if-ok_iff (is_restricted mode c) (PlanningError.restricted_port c.reference mode)
refuse_resource_iff mode (TargetResource.volume r i labels) = ((λ h. refl), (λ h. refl))
refuse_resource_iff mode (TargetResource.external_volume r i) = ((λ h. refl), (λ h. refl))

check_resource_iff :
    (supports : Capability → Bool) (mode : DaemonMode) (r : TargetResource)
    → (check_resource supports mode r ≡ ok tt) ↔ IsGranted supports mode r
unfolding check_resource
check_resource_iff supports mode r =
    let met = needs_met_iff supports r in
    let unrefused = not-IsRefused_iff mode r in
    let rest = require_all_iff supports (reference r) (other_needs r) in
    let refused = refuse_resource_iff mode r in
    let behind =
      >>_iff (refuse_resource mode r) (require_all supports (reference r) (other_needs r)) tt in
    let first =
      reject_if_iff (not (supports (first_need r).capability))
        (PlanningError.missing_capability (reference r) (first_need r).field
          (first_need r).capability)
        (refuse_resource mode r >> require_all supports (reference r) (other_needs r)) tt in
    let flip = not-false_iff (supports (first_need r).capability) in
    (
      (λ h.
          let (e, k) = first.0 h in
          let (f, l) = behind.0 k in (unrefused.0 (refused.0 f), met.0 (flip.0 e, rest.0 l))),
      (λ h.
          let (head, tail) = met.1 h.1 in
          first.1 (flip.1 head, behind.1 (refused.1 (unrefused.1 h.0), rest.1 tail))),
    )

-- The checks of all resources pass exactly if, for each of them, each capability that it uses is
-- supported, it is no network with an IPv4 pool of prefix 31 or more, and no container with a fixed
-- host port below 1024 on a rootless daemon.
pub check_resources_iff :
    (supports : Capability → Bool) (mode : DaemonMode) (resources : List TargetResource)
    → (check_resources supports mode resources ≡ ok tt) ↔ All (IsGranted supports mode) resources
unfolding check_resources
check_resources_iff supports mode [] = ((λ h. tt), (λ h. refl))
check_resources_iff supports mode (r ∷ resources) =
    let first = check_resource_iff supports mode r in
    let rest = check_resources_iff supports mode resources in
    let step =
      >>_iff (check_resource supports mode r) (check_resources supports mode resources) tt in
    ((λ h. let (e, k) = step.0 h in (first.0 e, rest.0 k)), (λ h. step.1 (first.1 h.0, rest.1 h.1)))

-- a need of a resource that is reported
abbrev pub IsMissing :
    (Capability → Bool) → List TargetResource → ResourceRef → TargetField → Capability → Type 0
IsMissing supports resources r field capability =
    (t : TargetResource) × In t resources
    × (reference t ≡ r)
    × In (need field capability) (needs_of t)
    × (supports capability ≡ false)

reject_if-err : {E : Type 0} (b : Bool) (e f : E) → reject_if b e ≡ err f → (b ≡ true) × (e ≡ f)
reject_if-err true e f h = (refl, cc)
reject_if-err false e f h = cc

>>_err :
    {E : Type 0} (first next : Result E (Unit {0})) (e : E)
    → (first >> next) ≡ err e
    → (first ≡ err e) ⊎ (next ≡ err e)
>>_err (ok tt) next e h = inr h
>>_err (err f) next e h = inl h

require-missing :
    (supports : Capability → Bool) (r q : ResourceRef) (n : Need) (field : TargetField)
    (c : Capability)
    → require supports r n ≡ err (PlanningError.missing_capability q field c)
    → (r ≡ q) × (n ≡ need field c) × (supports c ≡ false)
require-missing supports r q n field c h =
    let (unsupported, same) =
      reject_if-err (not (supports n.capability))
        (PlanningError.missing_capability r n.field n.capability)
        (PlanningError.missing_capability q field c) h in
    let e : n.capability ≡ c = cc in (cc, cc, rw (← e) (ground arith))

require_all-missing :
    (supports : Capability → Bool) (r q : ResourceRef) (needs : List Need) (field : TargetField)
    (c : Capability)
    → require_all supports r needs ≡ err (PlanningError.missing_capability q field c)
    → (r ≡ q) × In (need field c) needs × (supports c ≡ false)
unfolding require_all
require_all-missing supports r q [] field c h = cc
require_all-missing supports r q (n ∷ needs) field c h =
    elim (>>_err (require supports r n) (require_all supports r needs)
      (PlanningError.missing_capability q field c) h) [
        | inl here ↦ let (e, f, g) = require-missing supports r q n field c here in (e, inl f, g)
        | inr later ↦
            let (e, f, g) = require_all-missing supports r q needs field c later in (e, inr f, g)
      ]

refuse_resource-other :
    (mode : DaemonMode) (r : TargetResource) (q : ResourceRef) (field : TargetField)
    (c : Capability)
    → ¬ (refuse_resource mode r ≡ err (PlanningError.missing_capability q field c))
refuse_resource-other mode (TargetResource.network n) q field c h =
    let (b, e) =
      reject_if-err (has_narrow_pool n.source) (PlanningError.unsupported_network_ipam n.reference)
        (PlanningError.missing_capability q field c) h in
    cc
refuse_resource-other mode (TargetResource.container k) q field c h =
    let (b, e) =
      reject_if-err (is_restricted mode k) (PlanningError.restricted_port k.reference mode)
        (PlanningError.missing_capability q field c) h in
    cc
refuse_resource-other mode (TargetResource.volume r i labels) q field c h = cc
refuse_resource-other mode (TargetResource.external_volume r i) q field c h = cc

check_resource-missing :
    (supports : Capability → Bool) (mode : DaemonMode) (r : TargetResource) (q : ResourceRef)
    (field : TargetField) (c : Capability)
    → check_resource supports mode r ≡ err (PlanningError.missing_capability q field c)
    → (reference r ≡ q) × In (need field c) (needs_of r) × (supports c ≡ false)
unfolding check_resource
check_resource-missing supports mode r q field c h =
    let failure = PlanningError.missing_capability q field c in
    elim (>>_err (require supports (reference r) (first_need r))
      (refuse_resource mode r >> require_all supports (reference r) (other_needs r)) failure h) [
        | inl here ↦
            let (e, f, g) = require-missing supports (reference r) q (first_need r) field c here in
            (e, inl f, g)
        | inr behind ↦
            elim (>>_err (refuse_resource mode r)
              (require_all supports (reference r) (other_needs r)) failure behind) [
                | inl here ↦ absurd (refuse_resource-other mode r q field c here)
                | inr later ↦
                    let (e, f, g) =
                      require_all-missing supports (reference r) q (other_needs r) field c later in
                    (e, inr f, g)
              ]
      ]

-- A capability reported as missing is a need of the reported resource, for the reported field, and
-- is not supported.
pub check_resources-IsMissing :
    (supports : Capability → Bool) (mode : DaemonMode) (resources : List TargetResource)
    (r : ResourceRef) (field : TargetField) (c : Capability)
    → check_resources supports mode resources ≡ err (PlanningError.missing_capability r field c)
    → IsMissing supports resources r field c
unfolding check_resources
check_resources-IsMissing supports mode [] r field c h = cc
check_resources-IsMissing supports mode (t ∷ resources) r field c h =
    elim (>>_err (check_resource supports mode t) (check_resources supports mode resources)
      (PlanningError.missing_capability r field c) h) [
        | inl here ↦
            let (e, f, g) = check_resource-missing supports mode t r field c here in
            (t, inl refl, e, f, g)
        | inr later ↦
            let (u, m, e, f, g) =
              check_resources-IsMissing supports mode resources r field c later in
            (u, inr m, e, f, g)
      ]
