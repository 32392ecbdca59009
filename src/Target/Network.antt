-- ===== src/Target/Network.antt =====
-- src/target_modules/network.rs: authored networks, addresses and subnets. An address is its number.
pub mod Mask
pub mod Subnet
pub mod Overlap
use Prim.Native.Nat.{bit_and, bit_or}
use docker_lens.Prelude.{
  ℕ, ◌-◌, ◌*◌, ◌/◌, ◌%◌, ◌^◌, ◌≡◌, ◌↔◌, arith, Bool, true, false, not, ◌&&◌, ◌||◌, Option, none,
  some, List, [], ◌∷◌, ltb, leb, all, contains, Eq, ◌==◌, nat_eq, list_eq, Bytes,
  is_ascii_alphanumeric, is_utf8, Result, ok, err, if◌then◌else◌,
}
use docker_lens.Observation.{ResourceRef}

pub data IntentError : Type 0 where
  empty duplicate_resource unsupported_orchestration invalid_identity : IntentError
  invalid_image invalid_environment invalid_argument : IntentError
  command_clear_requires_entrypoint invalid_mount invalid_healthcheck : IntentError
  invalid_restart duplicate_port invalid_port duplicate_mount : IntentError
  invalid_container_label duplicate_container_label invalid_container_user : IntentError
  invalid_working_directory invalid_container_hostname : IntentError
  invalid_container_setting duplicate_container_setting : IntentError
  invalid_network_driver duplicate_network_option invalid_network_option : IntentError
  duplicate_network_label invalid_network_label invalid_network_address : IntentError
  duplicate_network_address invalid_network_subnet invalid_network_ipam : IntentError
  invalid_network_alias duplicate_network_alias duplicate_network_attachment : IntentError
  duplicate_default_network invalid_network_attachment : IntentError
  invalid_volume_label duplicate_volume_label : IntentError

-- `std::net::IpAddr`: a `u32` or a `u128`
pub data IpAddr : Type 0 where
  v4 v6 : ℕ → IpAddr

abbrev pub ip_beq : IpAddr → IpAddr → Bool
ip_beq (v4 a) (v4 b) = a == b
ip_beq (v4 a) (v6 b) = false
ip_beq (v6 a) (v4 b) = false
ip_beq (v6 a) (v6 b) = a == b

pub ip_beq_iff : (a b : IpAddr) → (ip_beq a b ≡ true) ↔ (a ≡ b)
ip_beq_iff a b = ground arith

instance abbrev pub ip_eq : Eq IpAddr
ip_eq = record { beq = ip_beq; beq_iff = ip_beq_iff }

-- `NetworkAddress::new` over `str::parse` of an `IpAddr`; a `NetworkAddress` is its address.
pub network_address : (Bytes → Option IpAddr) → Bytes → Result IntentError IpAddr
network_address parse text = elim (parse text) [
  | none ↦ err IntentError.invalid_network_address
  | some address ↦ ok address
]

abbrev pub is_ipv6 : IpAddr → Bool
is_ipv6 (v4 a) = false
is_ipv6 (v6 a) = true

-- `checked_shl` of a word of `w` bits
abbrev pub checked_shl : ℕ → ℕ → ℕ → Option ℕ
checked_shl w x n = if ltb n w then some (x * 2 ^ n % 2 ^ w) else none

abbrev pub checked_shr : ℕ → ℕ → ℕ → Option ℕ
checked_shr w x n = if ltb n w then some (x / 2 ^ n) else none

abbrev pub unwrap_or : Option ℕ → ℕ → ℕ
unwrap_or none fallback = fallback
unwrap_or (some value) fallback = value

-- `MAX.checked_shl(w - prefix).unwrap_or(0)`
abbrev pub mask : ℕ → ℕ → ℕ
mask w prefix = unwrap_or (checked_shl w (2 ^ w - 1) (w - prefix)) 0

-- `!mask`
abbrev pub complement : ℕ → ℕ → ℕ
complement w x = 2 ^ w - 1 - x

unfoldable pub address_is_network : IpAddr → ℕ → Bool
address_is_network (v4 value) prefix = bit_and value (complement 32 (mask 32 prefix)) == 0
address_is_network (v6 value) prefix = bit_and value (complement 128 (mask 128 prefix)) == 0

pub record NetworkSubnet : Type 0 where
  pub address : IpAddr
  pub prefix : ℕ

-- `NetworkSubnet::new`
unfoldable pub network_subnet : IpAddr → ℕ → Result IntentError NetworkSubnet
network_subnet address prefix =
    if ltb (if is_ipv6 address then 128 else 32) prefix || not (address_is_network address prefix)
    then err IntentError.invalid_network_subnet
    else ok (record { address = address; prefix = prefix })

-- `NetworkSubnet::contains`, on the addresses
abbrev pub same_network : IpAddr → IpAddr → ℕ → Bool
same_network (v4 base) (v4 value) prefix =
    bit_and base (mask 32 prefix) == bit_and value (mask 32 prefix)
same_network (v6 base) (v6 value) prefix =
    bit_and base (mask 128 prefix) == bit_and value (mask 128 prefix)
same_network (v4 base) (v6 value) prefix = false
same_network (v6 base) (v4 value) prefix = false

unfoldable pub contains_address : NetworkSubnet → IpAddr → Bool
contains_address subnet address = same_network subnet.address address subnet.prefix

-- `u32::MAX.checked_shr(prefix).unwrap_or(u32::MAX)`
abbrev pub host_mask : ℕ → ℕ
host_mask prefix = unwrap_or (checked_shr 32 (2 ^ 32 - 1) prefix) (2 ^ 32 - 1)

-- the `match` of `contains_usable_host`
abbrev pub is_host_slot : IpAddr → IpAddr → ℕ → Bool
is_host_slot (v4 base) (v4 value) prefix =
    if leb prefix 30
    then not (value == base) && not (value == bit_or base (host_mask prefix))
    else true
is_host_slot (v6 base) (v6 value) prefix = not (value == base)
is_host_slot (v4 base) (v6 value) prefix = false
is_host_slot (v6 base) (v4 value) prefix = false

unfoldable pub contains_usable_host : NetworkSubnet → IpAddr → Bool
contains_usable_host subnet address =
    contains_address subnet address && is_host_slot subnet.address address subnet.prefix

unfoldable pub overlaps : NetworkSubnet → NetworkSubnet → Bool
overlaps subnet other =
    contains_address subnet other.address || contains_address other subnet.address

pub record Label : Type 0 where
  pub key : Bytes
  pub value : Bytes

-- `NetworkLabel::new`
unfoldable pub network_label : Bytes → Bytes → Result IntentError Label
network_label key value =
    if key == [] || contains key 0 || contains value 0 || not (is_utf8 key) || not (is_utf8 value)
    then err IntentError.invalid_network_label
    else ok (record { key = key; value = value })

abbrev pub is_name_byte : ℕ → Bool
is_name_byte byte = is_ascii_alphanumeric byte || byte == b'_' || byte == b'-' || byte == b'.'

-- an alphanumeric byte and then bytes of a name
abbrev pub valid_identity : Bytes → Bool
valid_identity [] = false
valid_identity (b ∷ bytes) = is_ascii_alphanumeric b && all is_name_byte bytes

-- `NetworkAlias::new`
unfoldable pub network_alias : Bytes → Result IntentError Bytes
network_alias bytes =
    if not (valid_identity bytes) then err IntentError.invalid_network_alias else ok bytes

pub data NetworkRole : Type 0 where
  declared application_default : NetworkRole

pub data NetworkDriver : Type 0 where
  bridge host overlay macvlan : NetworkDriver

pub data BridgeOption : Type 0 where
  mtu : ℕ → BridgeOption
  inter_container_communication ip_masquerade : Bool → BridgeOption
  host_binding_ip : IpAddr → BridgeOption

pub record NetworkAuxAddress : Type 0 where
  pub name : Bytes
  pub address : IpAddr

pub record NetworkIpamPool : Type 0 where
  pub subnet : NetworkSubnet
  pub gateway : Option IpAddr
  pub ip_range : Option NetworkSubnet
  pub auxiliary_addresses : List NetworkAuxAddress

pub data NetworkIpamDriver : Type 0 where
  default : NetworkIpamDriver

pub record NetworkIpam : Type 0 where
  pub driver : Option NetworkIpamDriver
  pub pools : List NetworkIpamPool

pub record NetworkCreate : Type 0 where
  pub driver : NetworkDriver
  pub internal : Bool
  pub enable_ipv6 : Bool
  pub ipam : Option NetworkIpam
  pub options : List BridgeOption
  pub labels : List Label

-- `NetworkCreate::bridge`
unfoldable pub bridge_network : NetworkCreate
bridge_network = record {
  driver = NetworkDriver.bridge;
  internal = false;
  enable_ipv6 = false;
  ipam = none;
  options = [];
  labels = [];
}

pub data NetworkSource : Type 0 where
  create : NetworkCreate → NetworkSource
  external : NetworkDriver → Option Bool → NetworkSource

pub record NetworkIntent : Type 0 where
  pub reference : ResourceRef
  pub identity : Bytes
  pub role : NetworkRole
  pub source : NetworkSource

pub record NetworkAttachmentIntent : Type 0 where
  pub network : ResourceRef
  pub aliases : List Bytes
  pub ipv4_address : Option IpAddr
  pub ipv6_address : Option IpAddr
