-- ===== src/Version/Shape.antt =====
-- `NativeCapabilityShape` of src/version.rs, the closed renderer branches that a reviewed record
-- admits, with its derived `PartialEq`.
use docker_lens.Prelude.{
  ℕ, ◌≡◌, refl, sym, ap, ◌∙◌, ◌↔◌, Bool, true, some, List, [], ◌∷◌, get_elem?, Eq, nat_beq,
  nat_beq_iff, some-eq_some,
}

pub data NativeCapabilityShape : Type 0 where
  standalone_create named_volume_create volume_create_labels : NativeCapabilityShape
  named_volume_mount_read_write named_volume_mount_read_only : NativeCapabilityShape
  external_volume_reference bridge_network_create bridge_network_attach : NativeCapabilityShape
  external_network_reference external_network_internal_false : NativeCapabilityShape
  external_network_internal_true internal_bridge_network_create : NativeCapabilityShape
  ipv6_bridge_network_create network_ipam_v4 network_ipam_v6 : NativeCapabilityShape
  network_ipam_gateway network_ipam_range network_ipam_auxiliary : NativeCapabilityShape
  network_ipam_default_driver network_bridge_mtu network_bridge_icc : NativeCapabilityShape
  network_bridge_icc_disabled network_bridge_masquerade : NativeCapabilityShape
  network_bridge_masquerade_enabled network_bridge_host_binding_ip : NativeCapabilityShape
  network_create_labels network_primary_aliases network_secondary_aliases : NativeCapabilityShape
  network_static_ipv4 network_static_ipv6 network_secondary_connect : NativeCapabilityShape
  fixed_tcp_port fixed_udp_port exposed_only_port fixed_ipv4_host_port : NativeCapabilityShape
  ephemeral_ipv4_host_port fixed_ipv6_host_port ephemeral_ipv6_host_port : NativeCapabilityShape
  multiple_fixed_port_bindings multiple_ephemeral_port_bindings : NativeCapabilityShape
  ephemeral_host_port bind_mount_read_write bind_mount_read_only : NativeCapabilityShape
  bind_mount_shared_relabel_read_write bind_mount_shared_relabel_read_only : NativeCapabilityShape
  bind_mount_private_relabel_read_write bind_mount_private_relabel_read_only : NativeCapabilityShape
  tmpfs_mount_read_write tmpfs_mount_read_only tmpfs_mount_options : NativeCapabilityShape
  environment_value environment_empty_value exec_command clear_command : NativeCapabilityShape
  exec_entrypoint clear_entrypoint exec_healthcheck shell_healthcheck : NativeCapabilityShape
  disabled_healthcheck health_start_period_zero health_start_period_positive : NativeCapabilityShape
  health_start_interval_zero health_start_interval_positive : NativeCapabilityShape
  container_create_labels container_user container_workdir container_hostname :
      NativeCapabilityShape
  read_only_rootfs_true read_only_rootfs_false container_init_true : NativeCapabilityShape
  container_init_false stop_signal stop_timeout_zero stop_timeout_positive : NativeCapabilityShape
  memory_bytes memory_unlimited pids_count pids_unlimited shm_size : NativeCapabilityShape
  ulimits_finite ulimits_unlimited ulimit_nofile device_mappings linux_cap_add :
      NativeCapabilityShape
  linux_cap_drop cap_add_net_bind_service cap_drop_sys_admin : NativeCapabilityShape
  no_new_privileges_enabled no_new_privileges_disabled sysctls : NativeCapabilityShape
  sysctl_ipv4_forward supplementary_groups dns_ipv4 dns_ipv6 extra_hosts_ipv4 :
      NativeCapabilityShape
  extra_hosts_ipv6 log_json_file log_local log_none log_options : NativeCapabilityShape
  log_option_max_size restart_no restart_always restart_unless_stopped : NativeCapabilityShape
  restart_on_failure_unlimited restart_on_failure_limited : NativeCapabilityShape

-- The position of a shape in its declaration.
abbrev pub index : NativeCapabilityShape → ℕ
index standalone_create = 0
index named_volume_create = 1
index volume_create_labels = 2
index named_volume_mount_read_write = 3
index named_volume_mount_read_only = 4
index external_volume_reference = 5
index bridge_network_create = 6
index bridge_network_attach = 7
index external_network_reference = 8
index external_network_internal_false = 9
index external_network_internal_true = 10
index internal_bridge_network_create = 11
index ipv6_bridge_network_create = 12
index network_ipam_v4 = 13
index network_ipam_v6 = 14
index network_ipam_gateway = 15
index network_ipam_range = 16
index network_ipam_auxiliary = 17
index network_ipam_default_driver = 18
index network_bridge_mtu = 19
index network_bridge_icc = 20
index network_bridge_icc_disabled = 21
index network_bridge_masquerade = 22
index network_bridge_masquerade_enabled = 23
index network_bridge_host_binding_ip = 24
index network_create_labels = 25
index network_primary_aliases = 26
index network_secondary_aliases = 27
index network_static_ipv4 = 28
index network_static_ipv6 = 29
index network_secondary_connect = 30
index fixed_tcp_port = 31
index fixed_udp_port = 32
index exposed_only_port = 33
index fixed_ipv4_host_port = 34
index ephemeral_ipv4_host_port = 35
index fixed_ipv6_host_port = 36
index ephemeral_ipv6_host_port = 37
index multiple_fixed_port_bindings = 38
index multiple_ephemeral_port_bindings = 39
index ephemeral_host_port = 40
index bind_mount_read_write = 41
index bind_mount_read_only = 42
index bind_mount_shared_relabel_read_write = 43
index bind_mount_shared_relabel_read_only = 44
index bind_mount_private_relabel_read_write = 45
index bind_mount_private_relabel_read_only = 46
index tmpfs_mount_read_write = 47
index tmpfs_mount_read_only = 48
index tmpfs_mount_options = 49
index environment_value = 50
index environment_empty_value = 51
index exec_command = 52
index clear_command = 53
index exec_entrypoint = 54
index clear_entrypoint = 55
index exec_healthcheck = 56
index shell_healthcheck = 57
index disabled_healthcheck = 58
index health_start_period_zero = 59
index health_start_period_positive = 60
index health_start_interval_zero = 61
index health_start_interval_positive = 62
index container_create_labels = 63
index container_user = 64
index container_workdir = 65
index container_hostname = 66
index read_only_rootfs_true = 67
index read_only_rootfs_false = 68
index container_init_true = 69
index container_init_false = 70
index stop_signal = 71
index stop_timeout_zero = 72
index stop_timeout_positive = 73
index memory_bytes = 74
index memory_unlimited = 75
index pids_count = 76
index pids_unlimited = 77
index shm_size = 78
index ulimits_finite = 79
index ulimits_unlimited = 80
index ulimit_nofile = 81
index device_mappings = 82
index linux_cap_add = 83
index linux_cap_drop = 84
index cap_add_net_bind_service = 85
index cap_drop_sys_admin = 86
index no_new_privileges_enabled = 87
index no_new_privileges_disabled = 88
index sysctls = 89
index sysctl_ipv4_forward = 90
index supplementary_groups = 91
index dns_ipv4 = 92
index dns_ipv6 = 93
index extra_hosts_ipv4 = 94
index extra_hosts_ipv6 = 95
index log_json_file = 96
index log_local = 97
index log_none = 98
index log_options = 99
index log_option_max_size = 100
index restart_no = 101
index restart_always = 102
index restart_unless_stopped = 103
index restart_on_failure_unlimited = 104
index restart_on_failure_limited = 105

all_shapes : List NativeCapabilityShape
all_shapes =
    standalone_create ∷ named_volume_create ∷ volume_create_labels ∷ named_volume_mount_read_write
    ∷ named_volume_mount_read_only ∷ external_volume_reference ∷ bridge_network_create
    ∷ bridge_network_attach ∷ external_network_reference ∷ external_network_internal_false
    ∷ external_network_internal_true ∷ internal_bridge_network_create ∷ ipv6_bridge_network_create
    ∷ network_ipam_v4 ∷ network_ipam_v6 ∷ network_ipam_gateway ∷ network_ipam_range
    ∷ network_ipam_auxiliary ∷ network_ipam_default_driver ∷ network_bridge_mtu ∷ network_bridge_icc
    ∷ network_bridge_icc_disabled ∷ network_bridge_masquerade ∷ network_bridge_masquerade_enabled
    ∷ network_bridge_host_binding_ip ∷ network_create_labels ∷ network_primary_aliases
    ∷ network_secondary_aliases ∷ network_static_ipv4 ∷ network_static_ipv6
    ∷ network_secondary_connect ∷ fixed_tcp_port ∷ fixed_udp_port ∷ exposed_only_port
    ∷ fixed_ipv4_host_port ∷ ephemeral_ipv4_host_port ∷ fixed_ipv6_host_port
    ∷ ephemeral_ipv6_host_port ∷ multiple_fixed_port_bindings ∷ multiple_ephemeral_port_bindings
    ∷ ephemeral_host_port ∷ bind_mount_read_write ∷ bind_mount_read_only
    ∷ bind_mount_shared_relabel_read_write ∷ bind_mount_shared_relabel_read_only
    ∷ bind_mount_private_relabel_read_write ∷ bind_mount_private_relabel_read_only
    ∷ tmpfs_mount_read_write ∷ tmpfs_mount_read_only ∷ tmpfs_mount_options ∷ environment_value
    ∷ environment_empty_value ∷ exec_command ∷ clear_command ∷ exec_entrypoint ∷ clear_entrypoint
    ∷ exec_healthcheck ∷ shell_healthcheck ∷ disabled_healthcheck ∷ health_start_period_zero
    ∷ health_start_period_positive ∷ health_start_interval_zero ∷ health_start_interval_positive
    ∷ container_create_labels ∷ container_user ∷ container_workdir ∷ container_hostname
    ∷ read_only_rootfs_true ∷ read_only_rootfs_false ∷ container_init_true ∷ container_init_false
    ∷ stop_signal ∷ stop_timeout_zero ∷ stop_timeout_positive ∷ memory_bytes ∷ memory_unlimited
    ∷ pids_count ∷ pids_unlimited ∷ shm_size ∷ ulimits_finite ∷ ulimits_unlimited ∷ ulimit_nofile
    ∷ device_mappings ∷ linux_cap_add ∷ linux_cap_drop ∷ cap_add_net_bind_service
    ∷ cap_drop_sys_admin ∷ no_new_privileges_enabled ∷ no_new_privileges_disabled ∷ sysctls
    ∷ sysctl_ipv4_forward ∷ supplementary_groups ∷ dns_ipv4 ∷ dns_ipv6 ∷ extra_hosts_ipv4
    ∷ extra_hosts_ipv6 ∷ log_json_file ∷ log_local ∷ log_none ∷ log_options ∷ log_option_max_size
    ∷ restart_no ∷ restart_always ∷ restart_unless_stopped ∷ restart_on_failure_unlimited
    ∷ restart_on_failure_limited ∷ []

get_elem?-index : (s : NativeCapabilityShape) → get_elem? all_shapes (index s) ≡ some s
unfolding all_shapes
get_elem?-index standalone_create = refl
get_elem?-index _ = refl

index_injective : (a b : NativeCapabilityShape) → index a ≡ index b → a ≡ b
index_injective a b e =
    some-eq_some (sym (get_elem?-index a) ∙ ap (get_elem? all_shapes) e ∙ get_elem?-index b)

abbrev pub shape_beq : NativeCapabilityShape → NativeCapabilityShape → Bool
shape_beq a b = nat_beq (index a) (index b)

pub shape_beq_iff : (a b : NativeCapabilityShape) → (shape_beq a b ≡ true) ↔ (a ≡ b)
shape_beq_iff a b =
    ((λ h. index_injective a b ((nat_beq_iff _ _).0 h)), (λ e. (nat_beq_iff _ _).1 (ap index e)))

instance abbrev pub shape_eq : Eq NativeCapabilityShape
shape_eq = record { beq = shape_beq; beq_iff = shape_beq_iff }
