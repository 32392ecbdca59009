-- ===== src/Target/Pools.antt =====
-- The validation of a network in `TargetIntent::new_with_orchestration` of
-- src/target_modules/intent.rs: its driver, options, labels and address pools.
pub mod Disjoint
use docker_lens.Prelude.{
  ℕ, ◌≡◌, ◌↔◌, arith, Bool, true, false, not, ◌&&◌, ◌||◌, Option, none, some, List, [], ◌∷◌, map,
  ltb, any, contains, all_inserted, Eq, ◌==◌, nat_eq, list_eq, bool_eq, Bytes, Result, ok, err,
  reject_if, ◌>>=◌, ◌>>◌,
}
use docker_lens.Target.Network.{
  IntentError, IpAddr, ip_eq, is_ipv6, NetworkSubnet, contains_address, contains_usable_host,
  overlaps, Label, NetworkDriver, BridgeOption, mtu, inter_container_communication, ip_masquerade,
  host_binding_ip, NetworkAuxAddress, NetworkIpamPool, NetworkIpam, NetworkCreate, NetworkSource,
  NetworkIntent,
}

abbrev pub is_bridge : NetworkDriver → Bool
is_bridge NetworkDriver.bridge = true
is_bridge _ = false

-- the local `key` of an option
abbrev pub option_key : BridgeOption → ℕ
option_key (mtu n) = 0
option_key (inter_container_communication b) = 1
option_key (ip_masquerade b) = 2
option_key (host_binding_ip a) = 3

abbrev pub binds_ipv6 : BridgeOption → Bool
binds_ipv6 (host_binding_ip a) = is_ipv6 a
binds_ipv6 _ = false

-- the loop over `options`
unfoldable pub validate_options : List ℕ → List BridgeOption → Result IntentError (Unit {0})
validate_options seen [] = ok tt
validate_options seen (option ∷ options) = do
  reject_if (binds_ipv6 option) IntentError.invalid_network_option
  reject_if (contains seen (option_key option)) IntentError.duplicate_network_option
  validate_options (option_key option ∷ seen) options

-- the loop over `auxiliary_addresses`, with the sets of names and of reserved addresses
unfoldable pub validate_auxiliaries :
    NetworkSubnet
    → List Bytes
    → List IpAddr
    → List NetworkAuxAddress
    → Result IntentError (Unit {0})
validate_auxiliaries subnet names reserved [] = ok tt
validate_auxiliaries subnet names reserved (auxiliary ∷ auxiliaries) = do
  reject_if
      (contains names auxiliary.name
        || not (contains_usable_host subnet auxiliary.address)
        || contains reserved auxiliary.address)
      IntentError.invalid_network_ipam
  validate_auxiliaries subnet (auxiliary.name ∷ names) (auxiliary.address ∷ reserved) auxiliaries

abbrev pub bad_gateway : NetworkSubnet → Option IpAddr → Bool
bad_gateway subnet none = false
bad_gateway subnet (some gateway) = not (contains_usable_host subnet gateway)

abbrev pub bad_range : NetworkSubnet → Option NetworkSubnet → Bool
bad_range subnet none = false
bad_range subnet (some range) =
    not (is_ipv6 range.address == is_ipv6 subnet.address)
    || ltb range.prefix subnet.prefix
    || not (contains_address subnet range.address)

abbrev pub reserved_of : Option IpAddr → List IpAddr
reserved_of none = []
reserved_of (some gateway) = gateway ∷ []

-- the loop over `pools`, with those in front
unfoldable pub validate_pools :
    Bool → List NetworkIpamPool → List NetworkIpamPool → Result IntentError (Unit {0})
validate_pools enable_ipv6 earlier [] = ok tt
validate_pools enable_ipv6 earlier (pool ∷ pools) = do
  reject_if
      (any (λ other. overlaps pool.subnet other.subnet) earlier
        || (is_ipv6 pool.subnet.address && not enable_ipv6)
        || bad_gateway pool.subnet pool.gateway
        || bad_range pool.subnet pool.ip_range)
      IntentError.invalid_network_ipam
  validate_auxiliaries pool.subnet [] (reserved_of pool.gateway) pool.auxiliary_addresses
  validate_pools enable_ipv6 (pool ∷ earlier) pools

unfoldable pub validate_ipam : Bool → Option NetworkIpam → Result IntentError (Unit {0})
validate_ipam enable_ipv6 none = ok tt
validate_ipam enable_ipv6 (some ipam) = elim ipam.pools [
  | [] ↦ err IntentError.invalid_network_ipam
  | pool ∷ pools ↦ validate_pools enable_ipv6 [] (pool ∷ pools)
]

unfoldable pub validate_source : NetworkSource → Result IntentError (Unit {0})
validate_source (NetworkSource.external expected_driver expected_internal) =
    reject_if (not (is_bridge expected_driver)) IntentError.invalid_network_driver
validate_source (NetworkSource.create create) = do
  reject_if (not (is_bridge create.driver)) IntentError.invalid_network_driver
  validate_options [] create.options
  reject_if (not (all_inserted [] (map (λ label. label.key) create.labels)))
      IntentError.duplicate_network_label
  validate_ipam create.enable_ipv6 create.ipam
