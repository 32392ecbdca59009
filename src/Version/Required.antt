-- ===== src/Version/Required.antt =====
-- `NativeCapabilityShape::required_for` of src/version.rs: the shapes that a positive fact about a
-- capability has to cover, or none where no fact may be positive.
use docker_lens.Prelude.{Option, none, some, List, [], ◌∷◌}
use docker_lens.Version.Capability.{Capability}
use docker_lens.Version.Shape.{NativeCapabilityShape}

unfoldable pub required_for : Capability → Option (List NativeCapabilityShape)
required_for Capability.standalone_container = some (NativeCapabilityShape.standalone_create ∷ [])
required_for Capability.bind_mount =
    some (
      NativeCapabilityShape.bind_mount_read_write ∷ NativeCapabilityShape.bind_mount_read_only ∷ [])
required_for Capability.bind_relabel_shared = some (
    NativeCapabilityShape.bind_mount_shared_relabel_read_write
    ∷ NativeCapabilityShape.bind_mount_shared_relabel_read_only ∷ [])
required_for Capability.bind_relabel_private = some (
    NativeCapabilityShape.bind_mount_private_relabel_read_write
    ∷ NativeCapabilityShape.bind_mount_private_relabel_read_only ∷ [])
required_for Capability.tmpfs_mount = some (
    NativeCapabilityShape.tmpfs_mount_read_write ∷ NativeCapabilityShape.tmpfs_mount_read_only
    ∷ NativeCapabilityShape.tmpfs_mount_options ∷ [])
required_for Capability.named_volume = some (
    NativeCapabilityShape.named_volume_create ∷ NativeCapabilityShape.named_volume_mount_read_write
    ∷ NativeCapabilityShape.named_volume_mount_read_only ∷ [])
required_for Capability.volume_labels = some (NativeCapabilityShape.volume_create_labels ∷ [])
required_for Capability.volume_external_reference =
    some (NativeCapabilityShape.external_volume_reference ∷ [])
required_for Capability.bridge_network =
    some (
      NativeCapabilityShape.bridge_network_create ∷ NativeCapabilityShape.bridge_network_attach
      ∷ [])
required_for Capability.network_external_reference =
    some (NativeCapabilityShape.external_network_reference ∷ [])
required_for Capability.network_external_internal_expectation = some (
    NativeCapabilityShape.external_network_internal_false
    ∷ NativeCapabilityShape.external_network_internal_true ∷ [])
required_for Capability.network_internal =
    some (NativeCapabilityShape.internal_bridge_network_create ∷ [])
required_for Capability.network_ipv6 = some (NativeCapabilityShape.ipv6_bridge_network_create ∷ [])
required_for Capability.network_ipam = some (
    NativeCapabilityShape.network_ipam_v4 ∷ NativeCapabilityShape.network_ipam_v6
    ∷ NativeCapabilityShape.network_ipam_gateway ∷ NativeCapabilityShape.network_ipam_range
    ∷ NativeCapabilityShape.network_ipam_auxiliary ∷ [])
required_for Capability.network_ipam_driver =
    some (NativeCapabilityShape.network_ipam_default_driver ∷ [])
required_for Capability.network_options = some (
    NativeCapabilityShape.network_bridge_mtu ∷ NativeCapabilityShape.network_bridge_icc
    ∷ NativeCapabilityShape.network_bridge_icc_disabled
    ∷ NativeCapabilityShape.network_bridge_masquerade
    ∷ NativeCapabilityShape.network_bridge_masquerade_enabled
    ∷ NativeCapabilityShape.network_bridge_host_binding_ip ∷ [])
required_for Capability.network_labels = some (NativeCapabilityShape.network_create_labels ∷ [])
required_for Capability.network_aliases = some (
    NativeCapabilityShape.network_primary_aliases ∷ NativeCapabilityShape.network_secondary_aliases
    ∷ [])
required_for Capability.network_static_address =
    some
      (NativeCapabilityShape.network_static_ipv4 ∷ NativeCapabilityShape.network_static_ipv6 ∷ [])
required_for Capability.network_multiple_attachment =
    some (NativeCapabilityShape.network_secondary_connect ∷ [])
required_for Capability.host_network = none
required_for Capability.port_publish =
    some (NativeCapabilityShape.fixed_tcp_port ∷ NativeCapabilityShape.fixed_udp_port ∷ [])
required_for Capability.port_expose_only = some (NativeCapabilityShape.exposed_only_port ∷ [])
required_for Capability.port_host_ipv4 = some (
    NativeCapabilityShape.fixed_ipv4_host_port ∷ NativeCapabilityShape.ephemeral_ipv4_host_port
    ∷ [])
required_for Capability.port_host_ipv6 = some (
    NativeCapabilityShape.fixed_ipv6_host_port ∷ NativeCapabilityShape.ephemeral_ipv6_host_port
    ∷ [])
required_for Capability.port_multiple_bindings = some (
    NativeCapabilityShape.multiple_fixed_port_bindings
    ∷ NativeCapabilityShape.multiple_ephemeral_port_bindings ∷ [])
required_for Capability.port_ephemeral = some (NativeCapabilityShape.ephemeral_host_port ∷ [])
required_for Capability.user_namespace = none
required_for Capability.environment_assignment =
    some
      (NativeCapabilityShape.environment_value ∷ NativeCapabilityShape.environment_empty_value ∷ [])
required_for Capability.command = some (NativeCapabilityShape.exec_command ∷ [])
required_for Capability.command_clear = some (NativeCapabilityShape.clear_command ∷ [])
required_for Capability.entrypoint = some (NativeCapabilityShape.exec_entrypoint ∷ [])
required_for Capability.entrypoint_clear = some (NativeCapabilityShape.clear_entrypoint ∷ [])
required_for Capability.healthcheck = some (NativeCapabilityShape.exec_healthcheck ∷ [])
required_for Capability.health_shell = some (NativeCapabilityShape.shell_healthcheck ∷ [])
required_for Capability.health_disabled = some (NativeCapabilityShape.disabled_healthcheck ∷ [])
required_for Capability.health_start_period = some (
    NativeCapabilityShape.health_start_period_zero
    ∷ NativeCapabilityShape.health_start_period_positive ∷ [])
required_for Capability.health_start_interval = some (
    NativeCapabilityShape.health_start_interval_zero
    ∷ NativeCapabilityShape.health_start_interval_positive ∷ [])
required_for Capability.restart_policy = some (
    NativeCapabilityShape.restart_no ∷ NativeCapabilityShape.restart_always
    ∷ NativeCapabilityShape.restart_unless_stopped
    ∷ NativeCapabilityShape.restart_on_failure_unlimited
    ∷ NativeCapabilityShape.restart_on_failure_limited ∷ [])
required_for Capability.container_labels = some (NativeCapabilityShape.container_create_labels ∷ [])
required_for Capability.container_user = some (NativeCapabilityShape.container_user ∷ [])
required_for Capability.container_workdir = some (NativeCapabilityShape.container_workdir ∷ [])
required_for Capability.container_hostname = some (NativeCapabilityShape.container_hostname ∷ [])
required_for Capability.read_only_rootfs = some (
    NativeCapabilityShape.read_only_rootfs_true ∷ NativeCapabilityShape.read_only_rootfs_false ∷ [])
required_for Capability.container_init =
    some
      (NativeCapabilityShape.container_init_true ∷ NativeCapabilityShape.container_init_false ∷ [])
required_for Capability.stop_signal = some (NativeCapabilityShape.stop_signal ∷ [])
required_for Capability.stop_timeout =
    some
      (NativeCapabilityShape.stop_timeout_zero ∷ NativeCapabilityShape.stop_timeout_positive ∷ [])
required_for Capability.memory_limit =
    some (NativeCapabilityShape.memory_bytes ∷ NativeCapabilityShape.memory_unlimited ∷ [])
required_for Capability.pids_limit =
    some (NativeCapabilityShape.pids_count ∷ NativeCapabilityShape.pids_unlimited ∷ [])
required_for Capability.shm_size = some (NativeCapabilityShape.shm_size ∷ [])
required_for Capability.ulimits =
    some (NativeCapabilityShape.ulimits_finite ∷ NativeCapabilityShape.ulimits_unlimited ∷ [])
required_for Capability.ulimit_nofile = some (NativeCapabilityShape.ulimit_nofile ∷ [])
required_for Capability.device_mappings = some (NativeCapabilityShape.device_mappings ∷ [])
required_for Capability.linux_capabilities =
    some (NativeCapabilityShape.linux_cap_add ∷ NativeCapabilityShape.linux_cap_drop ∷ [])
required_for Capability.cap_add_net_bind_service =
    some (NativeCapabilityShape.cap_add_net_bind_service ∷ [])
required_for Capability.cap_drop_sys_admin = some (NativeCapabilityShape.cap_drop_sys_admin ∷ [])
required_for Capability.security_options = some (
    NativeCapabilityShape.no_new_privileges_enabled
    ∷ NativeCapabilityShape.no_new_privileges_disabled ∷ [])
required_for Capability.sysctls = some (NativeCapabilityShape.sysctls ∷ [])
required_for Capability.sysctl_ipv4_forward = some (NativeCapabilityShape.sysctl_ipv4_forward ∷ [])
required_for Capability.supplementary_groups =
    some (NativeCapabilityShape.supplementary_groups ∷ [])
required_for Capability.dns_servers =
    some (NativeCapabilityShape.dns_ipv4 ∷ NativeCapabilityShape.dns_ipv6 ∷ [])
required_for Capability.extra_hosts =
    some (NativeCapabilityShape.extra_hosts_ipv4 ∷ NativeCapabilityShape.extra_hosts_ipv6 ∷ [])
required_for Capability.log_config = some (
    NativeCapabilityShape.log_json_file ∷ NativeCapabilityShape.log_local
    ∷ NativeCapabilityShape.log_none ∷ NativeCapabilityShape.log_options ∷ [])
required_for Capability.log_option_max_size = some (NativeCapabilityShape.log_option_max_size ∷ [])
