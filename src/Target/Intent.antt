-- ===== src/Target/Intent.antt =====
-- `TargetIntent` of src/target_modules/intent.rs. An intent is its list of resources.
pub mod Containers
pub mod Accepted
use docker_lens.Prelude.{
  ℕ, ◌≡◌, ◌↔◌, arith, Bool, true, false, not, ◌&&◌, ◌||◌, Option, none, some, List, [], ◌∷◌, ◌++◌,
  ◌+◌, map, ltb, length, any, find, contains, all_inserted, ◌==◌, nat_eq, list_eq, pair_eq, Bytes,
  split_on, Result, ok, err, reject_if, ◌>>=◌, ◌>>◌, if◌then◌else◌,
}
use docker_lens.Observation.{ResourceRef}
use docker_lens.Target.Network.{
  IntentError, IpAddr, ip_eq, is_ipv6, contains_usable_host, Label, NetworkRole, NetworkIpamPool,
  NetworkIpam, NetworkCreate, NetworkSource, NetworkIntent, NetworkAttachmentIntent,
}
use docker_lens.Target.Values.{max_volume_label_count, max_volume_label_total_bytes}
use docker_lens.Target.Container.{
  exceeds, i32_max, is_given, names_program, ImageCommand, Mount, RestartPolicy, ContainerIntent,
}
use docker_lens.Target.Resource.{
  TargetKind, target_kind_eq, TargetResource, reference, kind, identity_of,
}
use docker_lens.Target.Settings.{is_nil, validate_container_settings}
use docker_lens.Target.Pools.{validate_source}
use docker_lens.Target.Ports.{HostPort, validate_ports}

pub data Orchestration : Type 0 where
  standalone swarm : Orchestration

-- the sum of the labels' bytes
abbrev pub label_bytes : List Label → ℕ
label_bytes [] = 0
label_bytes (label ∷ labels) = length label.key + length label.value + label_bytes labels

unfoldable pub validate_volume_labels : List Label → Result IntentError (Unit {0})
validate_volume_labels labels = do
  reject_if
      (ltb max_volume_label_count (length labels)
        || ltb max_volume_label_total_bytes (label_bytes labels))
      IntentError.invalid_volume_label
  reject_if (not (all_inserted [] (map (λ label. label.key) labels)))
      IntentError.duplicate_volume_label

abbrev pub validate_labels : TargetResource → Result IntentError (Unit {0})
validate_labels (TargetResource.volume r identity labels) = validate_volume_labels labels
validate_labels _ = ok tt

abbrev pub is_default_role : NetworkRole → Bool
is_default_role NetworkRole.application_default = true
is_default_role NetworkRole.declared = false

abbrev pub is_default_network : TargetResource → Bool
is_default_network (TargetResource.network n) = is_default_role n.role
is_default_network _ = false

-- the first loop over the resources, with `identities` and `default_network`
unfoldable pub validate_identities :
    List (TargetKind × Bytes) → Bool → List TargetResource → Result IntentError (Unit {0})
validate_identities identities default_network [] = ok tt
validate_identities identities default_network (r ∷ resources) = do
  validate_labels r
  reject_if (is_default_network r && default_network) IntentError.duplicate_default_network
  reject_if (contains identities (kind r, identity_of r)) IntentError.duplicate_resource
  validate_identities ((kind r, identity_of r) ∷ identities)
      (is_default_network r || default_network) resources

-- `Vec::pop`
abbrev pub pop : List Bytes → List Bytes
pop [] = []
pop (c ∷ []) = []
pop (c ∷ d ∷ components) = c ∷ pop (d ∷ components)

-- the loop of `lexical_absolute_path_key`
unfoldable pub clean : List Bytes → List Bytes → List Bytes
clean components [] = components
clean components (c ∷ pieces) =
    if c == [] || c == (b'.' ∷ [])
    then clean components pieces
    else if c == (b'.' ∷ b'.' ∷ [])
    then clean (pop components) pieces
    else clean (components ++ c ∷ []) pieces

unfoldable pub lexical_absolute_path_key : Bytes → List Bytes
lexical_absolute_path_key path = clean [] (split_on b'/' path)

abbrev pub is_other_family : Bool → Option IpAddr → Bool
is_other_family ipv6 none = false
is_other_family ipv6 (some address) = if ipv6 then not (is_ipv6 address) else is_ipv6 address

-- `[ipv4_address, ipv6_address].into_iter().flatten()`
abbrev pub flatten : Option IpAddr → Option IpAddr → List IpAddr
flatten none none = []
flatten none (some b) = b ∷ []
flatten (some a) none = a ∷ []
flatten (some a) (some b) = a ∷ b ∷ []

abbrev pub addresses : NetworkAttachmentIntent → List IpAddr
addresses attachment = flatten attachment.ipv4_address attachment.ipv6_address

abbrev pub is_gateway : Option IpAddr → IpAddr → Bool
is_gateway none address = false
is_gateway (some gateway) address = gateway == address

-- the closure over `pools`
abbrev pub offers : IpAddr → NetworkIpamPool → Bool
offers address pool =
    contains_usable_host pool.subnet address
    && not (is_gateway pool.gateway address)
    && not (any (λ auxiliary. auxiliary.address == address) pool.auxiliary_addresses)

-- `is_none_or(|ipam| !ipam.pools.iter().any(…))`
abbrev pub no_pool_offers : Option NetworkIpam → IpAddr → Bool
no_pool_offers none address = true
no_pool_offers (some ipam) address = not (any (offers address) ipam.pools)

-- the `match` on the source of the attachment's network
unfoldable pub validate_addresses :
    NetworkAttachmentIntent → NetworkSource → Result IntentError (Unit {0})
validate_addresses attachment (NetworkSource.external driver internal) =
    reject_if (is_given attachment.ipv4_address || is_given attachment.ipv6_address)
      IntentError.invalid_network_attachment
validate_addresses attachment (NetworkSource.create create) = do
  reject_if (is_given attachment.ipv6_address && not create.enable_ipv6)
      IntentError.invalid_network_attachment
  reject_if (any (no_pool_offers create.ipam) (addresses attachment))
      IntentError.invalid_network_attachment

abbrev pub validate_found :
    NetworkAttachmentIntent → Option TargetResource → Result IntentError (Unit {0})
validate_found attachment (some (TargetResource.network n)) = validate_addresses attachment n.source
validate_found attachment _ = ok tt

-- the loop over a container's `networks`
unfoldable pub validate_attachments :
    List TargetResource
    → List ResourceRef
    → List NetworkAttachmentIntent
    → Result IntentError (Unit {0})
validate_attachments resources seen [] = ok tt
validate_attachments resources seen (attachment ∷ attachments) = do
  reject_if (contains seen attachment.network) IntentError.duplicate_network_attachment
  reject_if
      (is_other_family false attachment.ipv4_address
        || is_other_family true attachment.ipv6_address)
      IntentError.invalid_network_attachment
  reject_if (not (all_inserted [] attachment.aliases)) IntentError.duplicate_network_alias
  validate_found attachment (find (λ r. reference r == attachment.network) resources)
  validate_attachments resources (attachment.network ∷ seen) attachments

abbrev pub empty_program : ImageCommand → Bool
empty_program (ImageCommand.exec arguments) = not (names_program arguments)
empty_program _ = false

abbrev pub is_clear : ImageCommand → Bool
is_clear ImageCommand.clear = true
is_clear _ = false

abbrev pub is_exec : ImageCommand → Bool
is_exec (ImageCommand.exec arguments) = true
is_exec _ = false

abbrev pub is_empty_text : Option Bytes → Bool
is_empty_text none = false
is_empty_text (some value) = is_nil value

abbrev pub too_many_retries : Option RestartPolicy → Bool
too_many_retries (some (RestartPolicy.on_failure maximum)) = ltb i32_max maximum
too_many_retries _ = false

-- the keys of the mounts
abbrev pub mount_keys : ContainerIntent → List (List Bytes)
mount_keys c = map (λ mount. lexical_absolute_path_key mount.target) c.mounts

-- the body of the second loop on a container; the result is what `fixed_host_ports` becomes
unfoldable pub validate_container :
    List TargetResource → List HostPort → ContainerIntent → Result IntentError (List HostPort)
validate_container resources fixed c = do
  reject_if (not (all_inserted [] (map (λ assignment. assignment.key) c.environment)))
      IntentError.invalid_environment
  ports ← validate_ports [] fixed c.ports
  reject_if (not (all_inserted [] (map (λ label. label.key) c.settings.labels)))
      IntentError.duplicate_container_label
  validate_attachments resources [] c.networks
  reject_if
      (not (all_inserted [] (mount_keys c))
        || any (λ device. contains (mount_keys c) (lexical_absolute_path_key device.container_path))
            c.settings.devices)
      IntentError.duplicate_mount
  reject_if (empty_program c.entrypoint || empty_program c.command) IntentError.invalid_argument
  reject_if (is_clear c.command && not (is_exec c.entrypoint))
      IntentError.command_clear_requires_entrypoint
  reject_if (is_empty_text c.settings.stop_signal) IntentError.invalid_argument
  validate_container_settings c.settings
  reject_if (too_many_retries c.restart) IntentError.invalid_restart
  ok ports

-- the body of the second loop
abbrev pub validate_resource :
    List TargetResource → List HostPort → TargetResource → Result IntentError (List HostPort)
validate_resource resources fixed (TargetResource.network n) = do validate_source n.source; ok fixed
validate_resource resources fixed (TargetResource.container c) =
    validate_container resources fixed c
validate_resource resources fixed _ = ok fixed

-- the second loop over the resources, with `fixed_host_ports`
unfoldable pub validate_resources :
    List TargetResource → List HostPort → List TargetResource → Result IntentError (Unit {0})
validate_resources all_of fixed [] = ok tt
validate_resources all_of fixed (r ∷ resources) = do
  ports ← validate_resource all_of fixed r
  validate_resources all_of ports resources

-- the pairs that the third loop inserts into `static_addresses`
abbrev pub attached_addresses : List NetworkAttachmentIntent → List (ResourceRef × IpAddr)
attached_addresses [] = []
attached_addresses (attachment ∷ attachments) =
    map (λ address. (attachment.network, address)) (addresses attachment)
    ++ attached_addresses attachments

abbrev pub static_addresses : List TargetResource → List (ResourceRef × IpAddr)
static_addresses [] = []
static_addresses (TargetResource.container c ∷ resources) =
    attached_addresses c.networks ++ static_addresses resources
static_addresses (TargetResource.network n ∷ resources) = static_addresses resources
static_addresses (TargetResource.volume r i l ∷ resources) = static_addresses resources
static_addresses (TargetResource.external_volume r i ∷ resources) = static_addresses resources

abbrev pub is_swarm : Orchestration → Bool
is_swarm Orchestration.standalone = false
is_swarm Orchestration.swarm = true

-- `TargetIntent::new_with_orchestration`
unfoldable pub new_with_orchestration :
    List TargetResource → Orchestration → Result IntentError (List TargetResource)
new_with_orchestration resources orchestration = do
  reject_if (is_swarm orchestration) IntentError.unsupported_orchestration
  reject_if (is_nil resources) IntentError.empty
  reject_if (not (all_inserted [] (map reference resources))) IntentError.duplicate_resource
  validate_identities [] false resources
  validate_resources resources [] resources
  reject_if (not (all_inserted [] (static_addresses resources)))
      IntentError.duplicate_network_address
  ok resources

-- `TargetIntent::new`
unfoldable pub target_intent : List TargetResource → Result IntentError (List TargetResource)
target_intent resources = new_with_orchestration resources Orchestration.standalone
