-- ===== src/Version/ShapeCapability.antt =====
-- `NativeCapabilityShape::capability` of src/version.rs: the capability that a shape belongs to.
use docker_lens.Version.Capability.{Capability}
use docker_lens.Version.Shape.{NativeCapabilityShape}

unfoldable pub capability : NativeCapabilityShape → Capability
capability NativeCapabilityShape.standalone_create = Capability.standalone_container
capability NativeCapabilityShape.named_volume_create = Capability.named_volume
capability NativeCapabilityShape.volume_create_labels = Capability.volume_labels
capability NativeCapabilityShape.named_volume_mount_read_write = Capability.named_volume
capability NativeCapabilityShape.named_volume_mount_read_only = Capability.named_volume
capability NativeCapabilityShape.external_volume_reference = Capability.volume_external_reference
capability NativeCapabilityShape.bridge_network_create = Capability.bridge_network
capability NativeCapabilityShape.bridge_network_attach = Capability.bridge_network
capability NativeCapabilityShape.external_network_reference = Capability.network_external_reference
capability NativeCapabilityShape.external_network_internal_false =
    Capability.network_external_internal_expectation
capability NativeCapabilityShape.external_network_internal_true =
    Capability.network_external_internal_expectation
capability NativeCapabilityShape.internal_bridge_network_create = Capability.network_internal
capability NativeCapabilityShape.ipv6_bridge_network_create = Capability.network_ipv6
capability NativeCapabilityShape.network_ipam_v4 = Capability.network_ipam
capability NativeCapabilityShape.network_ipam_v6 = Capability.network_ipam
capability NativeCapabilityShape.network_ipam_gateway = Capability.network_ipam
capability NativeCapabilityShape.network_ipam_range = Capability.network_ipam
capability NativeCapabilityShape.network_ipam_auxiliary = Capability.network_ipam
capability NativeCapabilityShape.network_ipam_default_driver = Capability.network_ipam_driver
capability NativeCapabilityShape.network_bridge_mtu = Capability.network_options
capability NativeCapabilityShape.network_bridge_icc = Capability.network_options
capability NativeCapabilityShape.network_bridge_icc_disabled = Capability.network_options
capability NativeCapabilityShape.network_bridge_masquerade = Capability.network_options
capability NativeCapabilityShape.network_bridge_masquerade_enabled = Capability.network_options
capability NativeCapabilityShape.network_bridge_host_binding_ip = Capability.network_options
capability NativeCapabilityShape.network_create_labels = Capability.network_labels
capability NativeCapabilityShape.network_primary_aliases = Capability.network_aliases
capability NativeCapabilityShape.network_secondary_aliases = Capability.network_aliases
capability NativeCapabilityShape.network_static_ipv4 = Capability.network_static_address
capability NativeCapabilityShape.network_static_ipv6 = Capability.network_static_address
capability NativeCapabilityShape.network_secondary_connect = Capability.network_multiple_attachment
capability NativeCapabilityShape.fixed_tcp_port = Capability.port_publish
capability NativeCapabilityShape.fixed_udp_port = Capability.port_publish
capability NativeCapabilityShape.exposed_only_port = Capability.port_expose_only
capability NativeCapabilityShape.fixed_ipv4_host_port = Capability.port_host_ipv4
capability NativeCapabilityShape.ephemeral_ipv4_host_port = Capability.port_host_ipv4
capability NativeCapabilityShape.fixed_ipv6_host_port = Capability.port_host_ipv6
capability NativeCapabilityShape.ephemeral_ipv6_host_port = Capability.port_host_ipv6
capability NativeCapabilityShape.multiple_fixed_port_bindings = Capability.port_multiple_bindings
capability NativeCapabilityShape.multiple_ephemeral_port_bindings =
    Capability.port_multiple_bindings
capability NativeCapabilityShape.ephemeral_host_port = Capability.port_ephemeral
capability NativeCapabilityShape.bind_mount_read_write = Capability.bind_mount
capability NativeCapabilityShape.bind_mount_read_only = Capability.bind_mount
capability NativeCapabilityShape.bind_mount_shared_relabel_read_write =
    Capability.bind_relabel_shared
capability NativeCapabilityShape.bind_mount_shared_relabel_read_only =
    Capability.bind_relabel_shared
capability NativeCapabilityShape.bind_mount_private_relabel_read_write =
    Capability.bind_relabel_private
capability NativeCapabilityShape.bind_mount_private_relabel_read_only =
    Capability.bind_relabel_private
capability NativeCapabilityShape.tmpfs_mount_read_write = Capability.tmpfs_mount
capability NativeCapabilityShape.tmpfs_mount_read_only = Capability.tmpfs_mount
capability NativeCapabilityShape.tmpfs_mount_options = Capability.tmpfs_mount
capability NativeCapabilityShape.environment_value = Capability.environment_assignment
capability NativeCapabilityShape.environment_empty_value = Capability.environment_assignment
capability NativeCapabilityShape.exec_command = Capability.command
capability NativeCapabilityShape.clear_command = Capability.command_clear
capability NativeCapabilityShape.exec_entrypoint = Capability.entrypoint
capability NativeCapabilityShape.clear_entrypoint = Capability.entrypoint_clear
capability NativeCapabilityShape.exec_healthcheck = Capability.healthcheck
capability NativeCapabilityShape.shell_healthcheck = Capability.health_shell
capability NativeCapabilityShape.disabled_healthcheck = Capability.health_disabled
capability NativeCapabilityShape.health_start_period_zero = Capability.health_start_period
capability NativeCapabilityShape.health_start_period_positive = Capability.health_start_period
capability NativeCapabilityShape.health_start_interval_zero = Capability.health_start_interval
capability NativeCapabilityShape.health_start_interval_positive = Capability.health_start_interval
capability NativeCapabilityShape.container_create_labels = Capability.container_labels
capability NativeCapabilityShape.container_user = Capability.container_user
capability NativeCapabilityShape.container_workdir = Capability.container_workdir
capability NativeCapabilityShape.container_hostname = Capability.container_hostname
capability NativeCapabilityShape.read_only_rootfs_true = Capability.read_only_rootfs
capability NativeCapabilityShape.read_only_rootfs_false = Capability.read_only_rootfs
capability NativeCapabilityShape.container_init_true = Capability.container_init
capability NativeCapabilityShape.container_init_false = Capability.container_init
capability NativeCapabilityShape.stop_signal = Capability.stop_signal
capability NativeCapabilityShape.stop_timeout_zero = Capability.stop_timeout
capability NativeCapabilityShape.stop_timeout_positive = Capability.stop_timeout
capability NativeCapabilityShape.memory_bytes = Capability.memory_limit
capability NativeCapabilityShape.memory_unlimited = Capability.memory_limit
capability NativeCapabilityShape.pids_count = Capability.pids_limit
capability NativeCapabilityShape.pids_unlimited = Capability.pids_limit
capability NativeCapabilityShape.shm_size = Capability.shm_size
capability NativeCapabilityShape.ulimits_finite = Capability.ulimits
capability NativeCapabilityShape.ulimits_unlimited = Capability.ulimits
capability NativeCapabilityShape.ulimit_nofile = Capability.ulimit_nofile
capability NativeCapabilityShape.device_mappings = Capability.device_mappings
capability NativeCapabilityShape.linux_cap_add = Capability.linux_capabilities
capability NativeCapabilityShape.linux_cap_drop = Capability.linux_capabilities
capability NativeCapabilityShape.cap_add_net_bind_service = Capability.cap_add_net_bind_service
capability NativeCapabilityShape.cap_drop_sys_admin = Capability.cap_drop_sys_admin
capability NativeCapabilityShape.no_new_privileges_enabled = Capability.security_options
capability NativeCapabilityShape.no_new_privileges_disabled = Capability.security_options
capability NativeCapabilityShape.sysctls = Capability.sysctls
capability NativeCapabilityShape.sysctl_ipv4_forward = Capability.sysctl_ipv4_forward
capability NativeCapabilityShape.supplementary_groups = Capability.supplementary_groups
capability NativeCapabilityShape.dns_ipv4 = Capability.dns_servers
capability NativeCapabilityShape.dns_ipv6 = Capability.dns_servers
capability NativeCapabilityShape.extra_hosts_ipv4 = Capability.extra_hosts
capability NativeCapabilityShape.extra_hosts_ipv6 = Capability.extra_hosts
capability NativeCapabilityShape.log_json_file = Capability.log_config
capability NativeCapabilityShape.log_local = Capability.log_config
capability NativeCapabilityShape.log_none = Capability.log_config
capability NativeCapabilityShape.log_options = Capability.log_config
capability NativeCapabilityShape.log_option_max_size = Capability.log_option_max_size
capability NativeCapabilityShape.restart_no = Capability.restart_policy
capability NativeCapabilityShape.restart_always = Capability.restart_policy
capability NativeCapabilityShape.restart_unless_stopped = Capability.restart_policy
capability NativeCapabilityShape.restart_on_failure_unlimited = Capability.restart_policy
capability NativeCapabilityShape.restart_on_failure_limited = Capability.restart_policy
