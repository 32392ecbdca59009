-- ===== src/Target/Needs/Uses.antt =====
-- Which capabilities the parts of a resource use, told by capability and not in the order in which
-- src/target_modules/graph.rs asks for them.
use docker_lens.Prelude.{
  Bool, true, false, not, ◌||◌, Option, none, some, List, [], ◌∷◌, ltb, length, any,
}
use docker_lens.Observation.{BindRelabel}
use docker_lens.Version.Capability.{Capability}
use docker_lens.Target.Network.{
  v4, v6, NetworkIpam, NetworkCreate, NetworkSource, NetworkAttachmentIntent,
}
use docker_lens.Target.Publication.{PortHostIp, PortHostPort, HostBinding, PortPublication}
use docker_lens.Target.Container.{
  ImageCommand, MountSource, Mount, HealthTest, Healthcheck, LogConfig, ContainerSettings,
  ContainerIntent,
}
use docker_lens.Target.Resource.{TargetResource}

abbrev pub given : {A : Type 0} → Option A → Bool
given none = false
given (some a) = true

abbrev pub nonempty : {A : Type 0} → List A → Bool
nonempty [] = false
nonempty (a ∷ rest) = true

abbrev pub configures_log : Option LogConfig → Bool
configures_log none = false
configures_log (some log) = nonempty log.options

abbrev pub settings_uses : Capability → ContainerSettings → Bool
settings_uses Capability.container_labels s = nonempty s.labels
settings_uses Capability.container_user s = given s.user
settings_uses Capability.container_workdir s = given s.working_dir
settings_uses Capability.container_hostname s = given s.hostname
settings_uses Capability.read_only_rootfs s = given s.read_only_rootfs
settings_uses Capability.container_init s = given s.init
settings_uses Capability.stop_signal s = given s.stop_signal
settings_uses Capability.stop_timeout s = given s.stop_timeout_seconds
settings_uses Capability.memory_limit s = given s.memory_limit
settings_uses Capability.pids_limit s = given s.pids_limit
settings_uses Capability.shm_size s = given s.shm_size_bytes
settings_uses Capability.ulimits s = nonempty s.ulimits
settings_uses Capability.ulimit_nofile s = nonempty s.ulimits
settings_uses Capability.device_mappings s = nonempty s.devices
settings_uses Capability.linux_capabilities s = nonempty s.cap_add || nonempty s.cap_drop
settings_uses Capability.cap_add_net_bind_service s = nonempty s.cap_add
settings_uses Capability.cap_drop_sys_admin s = nonempty s.cap_drop
settings_uses Capability.security_options s = nonempty s.security_options
settings_uses Capability.sysctls s = nonempty s.sysctls
settings_uses Capability.sysctl_ipv4_forward s = nonempty s.sysctls
settings_uses Capability.supplementary_groups s = nonempty s.group_add
settings_uses Capability.dns_servers s = nonempty s.dns
settings_uses Capability.extra_hosts s = nonempty s.extra_hosts
settings_uses Capability.log_config s = given s.log_config
settings_uses Capability.log_option_max_size s = configures_log s.log_config
settings_uses Capability.user_namespace s = given s.userns_mode
settings_uses _ s = false

abbrev pub on_ipv4 : PortHostIp → Bool
on_ipv4 PortHostIp.unspecified = false
on_ipv4 (PortHostIp.address (v4 a)) = true
on_ipv4 (PortHostIp.address (v6 a)) = false

abbrev pub on_ipv6 : PortHostIp → Bool
on_ipv6 PortHostIp.unspecified = false
on_ipv6 (PortHostIp.address (v4 a)) = false
on_ipv6 (PortHostIp.address (v6 a)) = true

abbrev pub any_port : PortHostPort → Bool
any_port PortHostPort.ephemeral = true
any_port (PortHostPort.fixed number) = false

abbrev pub binding_uses : Capability → HostBinding → Bool
binding_uses Capability.port_host_ipv4 b = on_ipv4 b.host_ip
binding_uses Capability.port_host_ipv6 b = on_ipv6 b.host_ip
binding_uses Capability.port_ephemeral b = any_port b.host_port
binding_uses _ b = false

abbrev pub publication_uses : Capability → PortPublication → Bool
publication_uses Capability.port_expose_only p = not (nonempty p.bindings)
publication_uses Capability.port_publish p = nonempty p.bindings
publication_uses Capability.port_multiple_bindings p = ltb 1 (length p.bindings)
publication_uses _ p = false

abbrev pub port_uses : Capability → PortPublication → Bool
port_uses c p = publication_uses c p || any (binding_uses c) p.bindings

abbrev pub binds_path : MountSource → Bool
binds_path (MountSource.bind path) = true
binds_path (MountSource.volume r) = false
binds_path (MountSource.tmpfs options) = false

abbrev pub mounts_volume : MountSource → Bool
mounts_volume (MountSource.bind path) = false
mounts_volume (MountSource.volume r) = true
mounts_volume (MountSource.tmpfs options) = false

abbrev pub mounts_tmpfs : MountSource → Bool
mounts_tmpfs (MountSource.bind path) = false
mounts_tmpfs (MountSource.volume r) = false
mounts_tmpfs (MountSource.tmpfs options) = true

abbrev pub relabels_shared : Option BindRelabel → Bool
relabels_shared (some BindRelabel.shared) = true
relabels_shared (some BindRelabel.private) = false
relabels_shared none = false

abbrev pub relabels_private : Option BindRelabel → Bool
relabels_private (some BindRelabel.shared) = false
relabels_private (some BindRelabel.private) = true
relabels_private none = false

abbrev pub mount_uses : Capability → Mount → Bool
mount_uses Capability.bind_mount m = binds_path m.source
mount_uses Capability.named_volume m = mounts_volume m.source
mount_uses Capability.tmpfs_mount m = mounts_tmpfs m.source
mount_uses Capability.bind_relabel_shared m = relabels_shared m.bind_relabel
mount_uses Capability.bind_relabel_private m = relabels_private m.bind_relabel
mount_uses _ m = false

abbrev pub attachment_uses : Capability → NetworkAttachmentIntent → Bool
attachment_uses Capability.network_aliases a = nonempty a.aliases
attachment_uses Capability.network_static_address a = given a.ipv4_address || given a.ipv6_address
attachment_uses _ a = false

abbrev pub executes : ImageCommand → Bool
executes ImageCommand.inherit = false
executes ImageCommand.clear = false
executes (ImageCommand.exec arguments) = true

abbrev pub clears : ImageCommand → Bool
clears ImageCommand.inherit = false
clears ImageCommand.clear = true
clears (ImageCommand.exec arguments) = false

abbrev pub test_uses : Capability → HealthTest → Bool
test_uses Capability.healthcheck (HealthTest.exec command) = true
test_uses Capability.health_shell (HealthTest.shell command) = true
test_uses Capability.health_disabled HealthTest.disabled = true
test_uses _ _ = false

abbrev pub health_uses : Capability → Option Healthcheck → Bool
health_uses c none = false
health_uses Capability.health_start_period (some h) = given h.start_period_ns
health_uses Capability.health_start_interval (some h) = given h.start_interval_ns
health_uses c (some h) = test_uses c h.test

abbrev pub networks_use : Capability → List NetworkAttachmentIntent → Bool
networks_use Capability.bridge_network networks = nonempty networks
networks_use Capability.network_multiple_attachment networks = ltb 1 (length networks)
networks_use _ networks = false

-- the environment and the programs
abbrev pub program_uses : Capability → ContainerIntent → Bool
program_uses Capability.environment_assignment k = nonempty k.environment
program_uses Capability.command k = executes k.command
program_uses Capability.command_clear k = clears k.command
program_uses Capability.entrypoint k = executes k.entrypoint
program_uses Capability.entrypoint_clear k = clears k.entrypoint
program_uses _ k = false

abbrev pub restart_uses : Capability → ContainerIntent → Bool
restart_uses Capability.restart_policy k = given k.restart
restart_uses _ k = false

abbrev pub is_standalone : Capability → Bool
is_standalone Capability.standalone_container = true
is_standalone _ = false

abbrev pub container_uses : Capability → ContainerIntent → Bool
container_uses c k =
    is_standalone c
    || (any (port_uses c) k.ports
        || any (mount_uses c) k.mounts
        || networks_use c k.networks
        || any (attachment_uses c) k.networks
        || program_uses c k
        || health_uses c k.healthcheck
        || restart_uses c k
        || settings_uses c k.settings)

abbrev pub names_driver : Option NetworkIpam → Bool
names_driver none = false
names_driver (some ipam) = given ipam.driver

abbrev pub create_uses : Capability → NetworkCreate → Bool
create_uses Capability.bridge_network n = true
create_uses Capability.network_internal n = n.internal
create_uses Capability.network_ipv6 n = n.enable_ipv6
create_uses Capability.network_ipam n = given n.ipam
create_uses Capability.network_ipam_driver n = names_driver n.ipam
create_uses Capability.network_options n = nonempty n.options
create_uses Capability.network_labels n = nonempty n.labels
create_uses _ n = false

abbrev pub external_uses : Capability → Option Bool → Bool
external_uses Capability.network_external_reference internal = true
external_uses Capability.network_external_internal_expectation internal = given internal
external_uses _ internal = false

abbrev pub source_uses : Capability → NetworkSource → Bool
source_uses c (NetworkSource.create n) = create_uses c n
source_uses c (NetworkSource.external driver internal) = external_uses c internal

-- whether a resource uses a capability
abbrev pub uses : Capability → TargetResource → Bool
uses c (TargetResource.network n) = source_uses c n.source
uses Capability.named_volume (TargetResource.volume r i labels) = true
uses Capability.volume_labels (TargetResource.volume r i labels) = nonempty labels
uses _ (TargetResource.volume r i labels) = false
uses Capability.volume_external_reference (TargetResource.external_volume r i) = true
uses _ (TargetResource.external_volume r i) = false
uses c (TargetResource.container k) = container_uses c k
