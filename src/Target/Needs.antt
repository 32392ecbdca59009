-- ===== src/Target/Needs.antt =====
-- The capability checks of `OperationGraph::new` in src/target_modules/graph.rs: for each resource, the
-- calls of `require` in their order, as a list of needs, and the two refusals between them.
pub mod Uses
pub mod Parts
pub mod Asked
pub mod Refused
pub mod Granted
use docker_lens.Prelude.{
  ℕ, Bool, true, false, not, ◌&&◌, ◌||◌, Option, none, some, List, [], ◌∷◌, ◌++◌, ltb, leb, length,
  any, Result, ok, err, reject_if, ◌>>=◌, ◌>>◌, if◌then◌else◌,
}
use docker_lens.Observation.{ResourceRef, BindRelabel}
use docker_lens.Version.Capability.{Capability}
use docker_lens.Version.Facts.{ApiVersion, DaemonMode}
use docker_lens.Target.Network.{
  IpAddr, v4, v6, is_ipv6, NetworkIpamPool, NetworkIpam, NetworkCreate, NetworkSource,
  NetworkIntent, NetworkAttachmentIntent, Label,
}
use docker_lens.Target.Container.{
  is_given, ImageCommand, MountSource, Mount, HealthTest, Healthcheck, LogConfig, ContainerSettings,
  ContainerIntent,
}
use docker_lens.Target.Publication.{PortHostIp, PortHostPort, HostBinding, PortPublication}
use docker_lens.Target.Resource.{TargetKind, TargetResource, reference}
use docker_lens.Target.Settings.{is_nil}

pub data TargetField : Type 0 where
  resource port port_expose_only port_host_ipv4 port_host_ipv6 : TargetField
  port_multiple_bindings port_ephemeral bind_mount bind_relabel tmpfs_mount : TargetField
  named_volume volume_labels network network_internal network_ipv6 network_ipam : TargetField
  network_ipam_driver network_options network_labels network_aliases : TargetField
  network_static_address network_multiple_attachment network_external_reference : TargetField
  network_external_internal_expectation volume_external_reference environment : TargetField
  command command_clear entrypoint entrypoint_clear healthcheck health_shell : TargetField
  health_disabled health_start_period health_start_interval restart : TargetField
  container_labels container_user container_workdir container_hostname : TargetField
  read_only_rootfs container_init stop_signal stop_timeout memory_limit : TargetField
  pids_limit shm_size ulimits ulimit_nofile device_mappings linux_capabilities : TargetField
  cap_add_net_bind_service cap_drop_sys_admin security_options sysctls : TargetField
  sysctl_ipv4_forward supplementary_groups dns_servers extra_hosts log_config : TargetField
  log_option_max_size user_namespace : TargetField

pub data PlanningError : Type 0 where
  unsupported_api : ApiVersion → ApiVersion → PlanningError
  missing_capability : ResourceRef → TargetField → Capability → PlanningError
  restricted_port : ResourceRef → DaemonMode → PlanningError
  unsupported_network_ipam : ResourceRef → PlanningError
  invalid_dependency : PlanningError
  dependency_mismatch : ResourceRef → ResourceRef → TargetKind → PlanningError
  cycle : PlanningError

-- one call of `require`
pub record Need : Type 0 where
  pub field : TargetField
  pub capability : Capability

abbrev pub need : TargetField → Capability → Need
need field capability = record { field = field; capability = capability }

-- the calls under an `if`
abbrev pub when : Bool → List Need → List Need
when true needs = needs
when false needs = []

abbrev pub for_each : {A : Type 0} → (A → List Need) → List A → List Need
for_each f [] = []
for_each f (x ∷ xs) = f x ++ for_each f xs

abbrev pub has_driver : Option NetworkIpam → Bool
has_driver none = false
has_driver (some ipam) = is_given ipam.driver

-- the arm for a created network, behind the refusal of its pools
abbrev pub create_needs : NetworkCreate → List Need
create_needs c =
    when c.internal (need TargetField.network_internal Capability.network_internal ∷ [])
    ++ when c.enable_ipv6 (need TargetField.network_ipv6 Capability.network_ipv6 ∷ [])
    ++ when (is_given c.ipam) (need TargetField.network_ipam Capability.network_ipam ∷ [])
    ++ when (has_driver c.ipam)
        (need TargetField.network_ipam_driver Capability.network_ipam_driver ∷ [])
    ++ when (not (is_nil c.options))
        (need TargetField.network_options Capability.network_options ∷ [])
    ++ when (not (is_nil c.labels)) (need TargetField.network_labels Capability.network_labels ∷ [])

abbrev pub source_needs : NetworkSource → List Need
source_needs (NetworkSource.create c) = create_needs c
source_needs (NetworkSource.external driver internal) = when (is_given internal) (
    need TargetField.network_external_internal_expectation
      Capability.network_external_internal_expectation
    ∷ [])

abbrev pub host_ip_needs : PortHostIp → List Need
host_ip_needs PortHostIp.unspecified = []
host_ip_needs (PortHostIp.address (v4 a)) =
    need TargetField.port_host_ipv4 Capability.port_host_ipv4 ∷ []
host_ip_needs (PortHostIp.address (v6 a)) =
    need TargetField.port_host_ipv6 Capability.port_host_ipv6 ∷ []

abbrev pub is_ephemeral : PortHostPort → Bool
is_ephemeral PortHostPort.ephemeral = true
is_ephemeral (PortHostPort.fixed p) = false

abbrev pub binding_needs : HostBinding → List Need
binding_needs b =
    host_ip_needs b.host_ip
    ++ when (is_ephemeral b.host_port)
        (need TargetField.port_ephemeral Capability.port_ephemeral ∷ [])

abbrev pub port_needs : PortPublication → List Need
port_needs p =
    (if is_nil p.bindings
      then need TargetField.port_expose_only Capability.port_expose_only ∷ []
      else need TargetField.port Capability.port_publish ∷ [])
    ++ when (ltb 1 (length p.bindings))
        (need TargetField.port_multiple_bindings Capability.port_multiple_bindings ∷ [])
    ++ for_each binding_needs p.bindings

abbrev pub mount_source_need : MountSource → Need
mount_source_need (MountSource.bind path) = need TargetField.bind_mount Capability.bind_mount
mount_source_need (MountSource.volume r) = need TargetField.named_volume Capability.named_volume
mount_source_need (MountSource.tmpfs o) = need TargetField.tmpfs_mount Capability.tmpfs_mount

abbrev pub relabel_needs : Option BindRelabel → List Need
relabel_needs none = []
relabel_needs (some BindRelabel.shared) =
    need TargetField.bind_relabel Capability.bind_relabel_shared ∷ []
relabel_needs (some BindRelabel.private) =
    need TargetField.bind_relabel Capability.bind_relabel_private ∷ []

abbrev pub mount_needs : Mount → List Need
mount_needs m = mount_source_need m.source ∷ relabel_needs m.bind_relabel

abbrev pub attachment_needs : NetworkAttachmentIntent → List Need
attachment_needs a =
    when (not (is_nil a.aliases)) (need TargetField.network_aliases Capability.network_aliases ∷ [])
    ++ when (is_given a.ipv4_address || is_given a.ipv6_address)
        (need TargetField.network_static_address Capability.network_static_address ∷ [])

abbrev pub command_needs : ImageCommand → Need → Need → List Need
command_needs ImageCommand.inherit on_clear on_exec = []
command_needs ImageCommand.clear on_clear on_exec = on_clear ∷ []
command_needs (ImageCommand.exec arguments) on_clear on_exec = on_exec ∷ []

abbrev pub health_test_need : HealthTest → Need
health_test_need (HealthTest.exec c) = need TargetField.healthcheck Capability.healthcheck
health_test_need (HealthTest.shell c) = need TargetField.health_shell Capability.health_shell
health_test_need HealthTest.disabled = need TargetField.health_disabled Capability.health_disabled

abbrev pub health_needs : Option Healthcheck → List Need
health_needs none = []
health_needs (some h) =
    health_test_need h.test
      ∷ when (is_given h.start_period_ns)
          (need TargetField.health_start_period Capability.health_start_period ∷ [])
    ++ when (is_given h.start_interval_ns)
        (need TargetField.health_start_interval Capability.health_start_interval ∷ [])

abbrev pub has_log_options : Option LogConfig → Bool
has_log_options none = false
has_log_options (some log) = not (is_nil log.options)

-- `if field.is_some()` and `if !field.is_empty()` around one call
abbrev pub if_given : {A : Type 0} → Option A → TargetField → Capability → List Need
if_given o field capability = when (is_given o) (need field capability ∷ [])

abbrev pub if_any : {A : Type 0} → List A → TargetField → Capability → List Need
if_any xs field capability = when (not (is_nil xs)) (need field capability ∷ [])

-- the checks on `container.settings`
abbrev pub settings_needs : ContainerSettings → List Need
settings_needs s =
    if_any s.labels TargetField.container_labels Capability.container_labels
    ++ if_given s.user TargetField.container_user Capability.container_user
    ++ if_given s.working_dir TargetField.container_workdir Capability.container_workdir
    ++ if_given s.hostname TargetField.container_hostname Capability.container_hostname
    ++ if_given s.read_only_rootfs TargetField.read_only_rootfs Capability.read_only_rootfs
    ++ if_given s.init TargetField.container_init Capability.container_init
    ++ if_given s.stop_signal TargetField.stop_signal Capability.stop_signal
    ++ if_given s.stop_timeout_seconds TargetField.stop_timeout Capability.stop_timeout
    ++ if_given s.memory_limit TargetField.memory_limit Capability.memory_limit
    ++ if_given s.pids_limit TargetField.pids_limit Capability.pids_limit
    ++ if_given s.shm_size_bytes TargetField.shm_size Capability.shm_size
    ++ if_any s.ulimits TargetField.ulimits Capability.ulimits
    ++ if_any s.ulimits TargetField.ulimit_nofile Capability.ulimit_nofile
    ++ if_any s.devices TargetField.device_mappings Capability.device_mappings
    ++ when (not (is_nil s.cap_add) || not (is_nil s.cap_drop))
        (need TargetField.linux_capabilities Capability.linux_capabilities ∷ [])
    ++ if_any s.cap_add TargetField.cap_add_net_bind_service Capability.cap_add_net_bind_service
    ++ if_any s.cap_drop TargetField.cap_drop_sys_admin Capability.cap_drop_sys_admin
    ++ if_any s.security_options TargetField.security_options Capability.security_options
    ++ if_any s.sysctls TargetField.sysctls Capability.sysctls
    ++ if_any s.sysctls TargetField.sysctl_ipv4_forward Capability.sysctl_ipv4_forward
    ++ if_any s.group_add TargetField.supplementary_groups Capability.supplementary_groups
    ++ if_any s.dns TargetField.dns_servers Capability.dns_servers
    ++ if_any s.extra_hosts TargetField.extra_hosts Capability.extra_hosts
    ++ if_given s.log_config TargetField.log_config Capability.log_config
    ++ when (has_log_options s.log_config)
        (need TargetField.log_option_max_size Capability.log_option_max_size ∷ [])
    ++ if_given s.userns_mode TargetField.user_namespace Capability.user_namespace

-- the arm for a container, behind the refusal of its ports
abbrev pub container_needs : ContainerIntent → List Need
container_needs c =
    for_each port_needs c.ports
    ++ for_each mount_needs c.mounts
    ++ if_any c.networks TargetField.network Capability.bridge_network
    ++ when (ltb 1 (length c.networks))
        (need TargetField.network_multiple_attachment Capability.network_multiple_attachment ∷ [])
    ++ for_each attachment_needs c.networks
    ++ if_any c.environment TargetField.environment Capability.environment_assignment
    ++ command_needs c.command (need TargetField.command_clear Capability.command_clear)
        (need TargetField.command Capability.command)
    ++ command_needs c.entrypoint (need TargetField.entrypoint_clear Capability.entrypoint_clear)
        (need TargetField.entrypoint Capability.entrypoint)
    ++ health_needs c.healthcheck
    ++ if_given c.restart TargetField.restart Capability.restart_policy
    ++ settings_needs c.settings

-- the call in front of the refusals
abbrev pub first_need : TargetResource → Need
first_need (TargetResource.network n) = elim n.source [
  | NetworkSource.create c ↦ need TargetField.resource Capability.bridge_network
  | NetworkSource.external driver internal ↦
      need TargetField.network_external_reference Capability.network_external_reference
]
first_need (TargetResource.volume r i labels) = need TargetField.resource Capability.named_volume
first_need (TargetResource.external_volume r i) =
    need TargetField.volume_external_reference Capability.volume_external_reference
first_need (TargetResource.container c) = need TargetField.resource Capability.standalone_container

-- the calls behind them
abbrev pub other_needs : TargetResource → List Need
other_needs (TargetResource.network n) = source_needs n.source
other_needs (TargetResource.volume r i labels) =
    if_any labels TargetField.volume_labels Capability.volume_labels
other_needs (TargetResource.external_volume r i) = []
other_needs (TargetResource.container c) = container_needs c

abbrev pub is_narrow : NetworkIpamPool → Bool
is_narrow pool = not (is_ipv6 pool.subnet.address) && leb 31 pool.subnet.prefix

abbrev pub has_narrow_pool : NetworkSource → Bool
has_narrow_pool (NetworkSource.external driver internal) = false
has_narrow_pool (NetworkSource.create c) = elim c.ipam [
  | none ↦ false
  | some ipam ↦ any is_narrow ipam.pools
]

abbrev pub is_privileged : HostBinding → Bool
is_privileged b = elim b.host_port [
  | PortHostPort.fixed p ↦ ltb p 1024
  | PortHostPort.ephemeral ↦ false
]

abbrev pub is_rootless : DaemonMode → Bool
is_rootless DaemonMode.rootless = true
is_rootless _ = false

abbrev pub is_restricted : DaemonMode → ContainerIntent → Bool
is_restricted mode c = is_rootless mode && any (λ p. any is_privileged p.bindings) c.ports

-- the two refusals
abbrev pub refuse_resource : DaemonMode → TargetResource → Result PlanningError (Unit {0})
refuse_resource mode (TargetResource.network n) =
    reject_if (has_narrow_pool n.source) (PlanningError.unsupported_network_ipam n.reference)
refuse_resource mode (TargetResource.container c) =
    reject_if (is_restricted mode c) (PlanningError.restricted_port c.reference mode)
refuse_resource mode _ = ok tt

-- the closure `require`
abbrev pub require : (Capability → Bool) → ResourceRef → Need → Result PlanningError (Unit {0})
require supports r n =
    reject_if (not (supports n.capability))
      (PlanningError.missing_capability r n.field n.capability)

unfoldable pub require_all :
    (Capability → Bool) → ResourceRef → List Need → Result PlanningError (Unit {0})
require_all supports r [] = ok tt
require_all supports r (n ∷ needs) = do require supports r n; require_all supports r needs

-- the body of the loop over the resources
unfoldable pub check_resource :
    (Capability → Bool) → DaemonMode → TargetResource → Result PlanningError (Unit {0})
check_resource supports mode r = do
  require supports (reference r) (first_need r)
  refuse_resource mode r
  require_all supports (reference r) (other_needs r)

unfoldable pub check_resources :
    (Capability → Bool) → DaemonMode → List TargetResource → Result PlanningError (Unit {0})
check_resources supports mode [] = ok tt
check_resources supports mode (r ∷ resources) = do
  check_resource supports mode r
  check_resources supports mode resources
