-- ===== src/Target/Intent/Accepted.antt =====
-- What `TargetIntent::new` of src/target_modules/intent.rs establishes of the resources together.
use docker_lens.Prelude.{
  not-false_iff, ◌+◌, ◌≡◌, ◌≤◌, refl, sym, subst, ap, ◌∙◌, arith, Bool, true, false, not, ◌&&◌,
  ◌||◌, List, [], ◌∷◌, ◌++◌, map, count, contains, all_inserted, all_inserted_iff, All, Distinct,
  nat_eq, list_eq, pair_eq, Bytes, ok, ok-eq_ok, reject_if_iff, >>_iff, >>=-eq-ok, if◌then◌else◌,
}
use mathlib.Core.List.{append_assoc, append-nil}
use docker_lens.Target.Network.{IntentError, ip_eq}
use docker_lens.Target.Resource.{
  TargetKind, target_kind_eq, TargetResource, reference, kind, identity_of,
}
use docker_lens.Target.Settings.{is_nil}
use docker_lens.Target.Pools.{validate_source}
use docker_lens.Target.Ports.{HostPort}
use docker_lens.Target.Ports.Conflicts.{IsFree, fixed_ports}
use docker_lens.Target.Intent.Containers.{IsContainer, validate_container-IsContainer}
use docker_lens.Target.Intent.{
  validate_labels, is_default_network, validate_identities, validate_container, validate_resource,
  validate_resources, static_addresses, new_with_orchestration, target_intent,
}

-- kind and identity
abbrev pub key_of : TargetResource → TargetKind × Bytes
key_of r = (kind r, identity_of r)

-- the fixed host ports of all containers
abbrev pub host_ports : List TargetResource → List HostPort
host_ports [] = []
host_ports (TargetResource.container c ∷ resources) = fixed_ports c.ports ++ host_ports resources
host_ports (TargetResource.network n ∷ resources) = host_ports resources
host_ports (TargetResource.volume r i labels ∷ resources) = host_ports resources
host_ports (TargetResource.external_volume r i ∷ resources) = host_ports resources

abbrev pub IsValidResource : TargetResource → Type 0
IsValidResource (TargetResource.container c) = IsContainer c
IsValidResource (TargetResource.network n) = validate_source n.source ≡ ok tt
IsValidResource (TargetResource.volume r i labels) = Unit
IsValidResource (TargetResource.external_volume r i) = Unit

-- The resources of an intent: distinct references, identities and static addresses, one default
-- network at most, and host ports without a clash.
pub record IsIntent (resources : List TargetResource) : Type 0 where
  pub references : Distinct (map reference resources)
  pub identities : Distinct (map key_of resources)
  pub defaults : count is_default_network resources ≤ 1
  pub each : All IsValidResource resources
  pub ports : IsFree (host_ports resources)
  pub addresses : Distinct (static_addresses resources)

validate_identities_sound :
    (identities : List (TargetKind × Bytes)) (default_network : Bool)
    (resources : List TargetResource)
    → validate_identities identities default_network resources ≡ ok tt
    → (all_inserted identities (map key_of resources) ≡ true)
      × ((if default_network then 1 else 0) + count is_default_network resources ≤ 1)
unfolding validate_identities all_inserted
validate_identities_sound identities default_network [] h = (refl, ground arith)
validate_identities_sound identities default_network (r ∷ resources) h =
    let (labels, h1) = (>>_iff (validate_labels r) _ tt).0 h in
    let (one, h2) =
      (reject_if_iff (is_default_network r && default_network) IntentError.duplicate_default_network
          _ tt).0
        h1 in
    let (new, rest) =
      (reject_if_iff (contains identities (kind r, identity_of r)) IntentError.duplicate_resource _
          tt).0
        h2 in
    let (inserted, few) =
      validate_identities_sound ((kind r, identity_of r) ∷ identities)
        (is_default_network r || default_network) resources rest in
    (ground arith, ground arith)

validate_resources_sound :
    (all_of : List TargetResource) (fixed : List HostPort) (resources : List TargetResource)
    → IsFree fixed
    → validate_resources all_of fixed resources ≡ ok tt
    → All IsValidResource resources × IsFree (fixed ++ host_ports resources)
unfolding validate_resources
validate_resources_sound all_of fixed [] free h = (tt, subst IsFree (sym (append-nil fixed)) free)
validate_resources_sound all_of fixed (TargetResource.container c ∷ resources) free h =
    let (ports, here, rest) =
      >>=-eq-ok (validate_container all_of fixed c) (λ p. validate_resources all_of p resources)
        h in
    let (valid, free_ports, e) = validate_container-IsContainer all_of fixed c ports free here in
    let (others, free_all) = validate_resources_sound all_of ports resources free_ports rest in
    (
      (valid, others),
      subst IsFree
          (ap (λ l. l ++ host_ports resources) (sym e)
            ∙ append_assoc fixed (fixed_ports c.ports) (host_ports resources))
          free_all,
    )
validate_resources_sound all_of fixed (TargetResource.network n ∷ resources) free h =
    let (ports, here, rest) =
      >>=-eq-ok (validate_resource all_of fixed (TargetResource.network n))
        (λ p. validate_resources all_of p resources) h in
    let (valid, same) = (>>_iff (validate_source n.source) (ok fixed) ports).0 here in
    let (others, free_all) =
      validate_resources_sound all_of fixed resources free (rw (ok-eq_ok same) rest) in
    ((valid, others), free_all)
validate_resources_sound all_of fixed (TargetResource.volume r i labels ∷ resources) free h =
    let (others, free_all) = validate_resources_sound all_of fixed resources free h in
    ((tt, others), free_all)
validate_resources_sound all_of fixed (TargetResource.external_volume r i ∷ resources) free h =
    let (others, free_all) = validate_resources_sound all_of fixed resources free h in
    ((tt, others), free_all)

-- If an intent is accepted, it is the list given; references are distinct, and so are the pairs of kind
-- and identity; at most one network is the default; no two fixed host ports of any containers clash;
-- no static address is given twice in a network; and each container's environment, labels, ports,
-- networks and mount paths have distinct keys, with no device on the path of a mount.
pub target_intent-IsIntent :
    (resources out : List TargetResource)
    → target_intent resources ≡ ok out
    → (resources ≡ out) × IsIntent resources
unfolding target_intent new_with_orchestration
target_intent-IsIntent resources out h =
    let (given, h1) = (reject_if_iff (is_nil resources) IntentError.empty _ out).0 h in
    let (references, h2) =
      (reject_if_iff (not (all_inserted [] (map reference resources)))
          IntentError.duplicate_resource _ out).0
        h1 in
    let (identities, h3) = (>>_iff (validate_identities [] false resources) _ out).0 h2 in
    let (valid, h4) = (>>_iff (validate_resources resources [] resources) _ out).0 h3 in
    let (addresses, last) =
      (reject_if_iff (not (all_inserted [] (static_addresses resources)))
          IntentError.duplicate_network_address _ out).0
        h4 in
    let (inserted, few) = validate_identities_sound [] false resources identities in
    let (each, free) = validate_resources_sound resources [] resources tt valid in
    (
      ok-eq_ok last,
      record {
        references =
            (all_inserted_iff (map reference resources)).0 ((not-false_iff _).0 references);
        identities = (all_inserted_iff (map key_of resources)).0 inserted;
        defaults = omega (arith, few);
        each = each;
        ports = free;
        addresses =
            (all_inserted_iff (static_addresses resources)).0 ((not-false_iff _).0 addresses);
      },
    )
