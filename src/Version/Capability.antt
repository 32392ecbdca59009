-- ===== src/Version/Capability.antt =====
-- `Capability` of src/version.rs, with its derived `PartialEq`, and the states of a capability.
use docker_lens.Prelude.{
  ℕ, ◌≡◌, refl, sym, ap, ◌∙◌, ◌↔◌, Bool, true, some, List, [], ◌∷◌, get_elem?, Eq, nat_beq,
  nat_beq_iff, some-eq_some,
}

pub data Capability : Type 0 where
  standalone_container bind_mount bind_relabel_shared bind_relabel_private : Capability
  tmpfs_mount named_volume volume_labels volume_external_reference : Capability
  bridge_network network_external_reference : Capability
  network_external_internal_expectation network_internal network_ipv6 : Capability
  network_ipam network_ipam_driver network_options network_labels : Capability
  network_aliases network_static_address network_multiple_attachment : Capability
  host_network port_publish port_expose_only port_host_ipv4 port_host_ipv6 : Capability
  port_multiple_bindings port_ephemeral user_namespace environment_assignment : Capability
  command command_clear entrypoint entrypoint_clear healthcheck health_shell : Capability
  health_disabled health_start_period health_start_interval restart_policy : Capability
  container_labels container_user container_workdir container_hostname : Capability
  read_only_rootfs container_init stop_signal stop_timeout memory_limit : Capability
  pids_limit shm_size ulimits ulimit_nofile device_mappings linux_capabilities : Capability
  cap_add_net_bind_service cap_drop_sys_admin security_options sysctls : Capability
  sysctl_ipv4_forward supplementary_groups dns_servers extra_hosts log_config : Capability
  log_option_max_size : Capability

-- The position of a capability in its declaration.
abbrev pub index : Capability → ℕ
index standalone_container = 0
index bind_mount = 1
index bind_relabel_shared = 2
index bind_relabel_private = 3
index tmpfs_mount = 4
index named_volume = 5
index volume_labels = 6
index volume_external_reference = 7
index bridge_network = 8
index network_external_reference = 9
index network_external_internal_expectation = 10
index network_internal = 11
index network_ipv6 = 12
index network_ipam = 13
index network_ipam_driver = 14
index network_options = 15
index network_labels = 16
index network_aliases = 17
index network_static_address = 18
index network_multiple_attachment = 19
index host_network = 20
index port_publish = 21
index port_expose_only = 22
index port_host_ipv4 = 23
index port_host_ipv6 = 24
index port_multiple_bindings = 25
index port_ephemeral = 26
index user_namespace = 27
index environment_assignment = 28
index command = 29
index command_clear = 30
index entrypoint = 31
index entrypoint_clear = 32
index healthcheck = 33
index health_shell = 34
index health_disabled = 35
index health_start_period = 36
index health_start_interval = 37
index restart_policy = 38
index container_labels = 39
index container_user = 40
index container_workdir = 41
index container_hostname = 42
index read_only_rootfs = 43
index container_init = 44
index stop_signal = 45
index stop_timeout = 46
index memory_limit = 47
index pids_limit = 48
index shm_size = 49
index ulimits = 50
index ulimit_nofile = 51
index device_mappings = 52
index linux_capabilities = 53
index cap_add_net_bind_service = 54
index cap_drop_sys_admin = 55
index security_options = 56
index sysctls = 57
index sysctl_ipv4_forward = 58
index supplementary_groups = 59
index dns_servers = 60
index extra_hosts = 61
index log_config = 62
index log_option_max_size = 63

all_capabilities : List Capability
all_capabilities =
    standalone_container ∷ bind_mount ∷ bind_relabel_shared ∷ bind_relabel_private ∷ tmpfs_mount
    ∷ named_volume ∷ volume_labels ∷ volume_external_reference ∷ bridge_network
    ∷ network_external_reference ∷ network_external_internal_expectation ∷ network_internal
    ∷ network_ipv6 ∷ network_ipam ∷ network_ipam_driver ∷ network_options ∷ network_labels
    ∷ network_aliases ∷ network_static_address ∷ network_multiple_attachment ∷ host_network
    ∷ port_publish ∷ port_expose_only ∷ port_host_ipv4 ∷ port_host_ipv6 ∷ port_multiple_bindings
    ∷ port_ephemeral ∷ user_namespace ∷ environment_assignment ∷ command ∷ command_clear
    ∷ entrypoint ∷ entrypoint_clear ∷ healthcheck ∷ health_shell ∷ health_disabled
    ∷ health_start_period ∷ health_start_interval ∷ restart_policy ∷ container_labels
    ∷ container_user ∷ container_workdir ∷ container_hostname ∷ read_only_rootfs ∷ container_init
    ∷ stop_signal ∷ stop_timeout ∷ memory_limit ∷ pids_limit ∷ shm_size ∷ ulimits ∷ ulimit_nofile
    ∷ device_mappings ∷ linux_capabilities ∷ cap_add_net_bind_service ∷ cap_drop_sys_admin
    ∷ security_options ∷ sysctls ∷ sysctl_ipv4_forward ∷ supplementary_groups ∷ dns_servers
    ∷ extra_hosts ∷ log_config ∷ log_option_max_size ∷ []

get_elem?-index : (c : Capability) → get_elem? all_capabilities (index c) ≡ some c
unfolding all_capabilities
get_elem?-index standalone_container = refl
get_elem?-index _ = refl

index_injective : (a b : Capability) → index a ≡ index b → a ≡ b
index_injective a b e =
    some-eq_some (sym (get_elem?-index a) ∙ ap (get_elem? all_capabilities) e ∙ get_elem?-index b)

abbrev pub capability_beq : Capability → Capability → Bool
capability_beq a b = nat_beq (index a) (index b)

pub capability_beq_iff : (a b : Capability) → (capability_beq a b ≡ true) ↔ (a ≡ b)
capability_beq_iff a b =
    ((λ h. index_injective a b ((nat_beq_iff _ _).0 h)), (λ e. (nat_beq_iff _ _).1 (ap index e)))

instance abbrev pub capability_eq : Eq Capability
capability_eq = record { beq = capability_beq; beq_iff = capability_beq_iff }
