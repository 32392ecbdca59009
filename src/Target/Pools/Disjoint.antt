-- ===== src/Target/Pools/Disjoint.antt =====
-- The address pools that src/target_modules/intent.rs accepts for a network.
use docker_lens.Prelude.{
  ◌≡◌, refl, arith, Bool, true, false, not, ◌&&◌, ◌||◌, Option, none, some, List, [], ◌∷◌, ◌++◌,
  map, any, contains, all_inserted, all_inserted_iff, All, Distinct, nat_eq, list_eq, bool_eq,
  Bytes, ok, ◌>>◌, reject_if_iff, >>_iff,
}
use docker_lens.Target.Network.{
  IntentError, IpAddr, ip_eq, is_ipv6, NetworkSubnet, contains_usable_host, overlaps,
  NetworkAuxAddress, NetworkIpamPool,
}
use docker_lens.Target.Network.Subnet.{IsSubnet, IsMember}
use docker_lens.Target.Network.Overlap.{overlaps_iff}
use docker_lens.Target.Pools.{
  validate_auxiliaries, bad_gateway, bad_range, reserved_of, validate_pools,
}

abbrev pub IsUsableIn : NetworkSubnet → NetworkAuxAddress → Type 0
IsUsableIn subnet auxiliary = contains_usable_host subnet auxiliary.address ≡ true

abbrev pub names_of : List NetworkAuxAddress → List Bytes
names_of auxiliaries = map (λ a. a.name) auxiliaries

abbrev pub addresses_of : List NetworkAuxAddress → List IpAddr
addresses_of auxiliaries = map (λ a. a.address) auxiliaries

-- the pool reserves distinct usable hosts, its gateway among them, under distinct names
pub record IsPool (enable_ipv6 : Bool) (pool : NetworkIpamPool) : Type 0 where
  pub family : (is_ipv6 pool.subnet.address && not enable_ipv6) ≡ false
  pub gateway : bad_gateway pool.subnet pool.gateway ≡ false
  pub range : bad_range pool.subnet pool.ip_range ≡ false
  pub usable : All (IsUsableIn pool.subnet) pool.auxiliary_addresses
  pub names : Distinct (names_of pool.auxiliary_addresses)
  pub reserved : Distinct (reserved_of pool.gateway ++ addresses_of pool.auxiliary_addresses)

-- an address of both pools
abbrev pub IsShared : NetworkIpamPool → NetworkIpamPool → Type 0
IsShared p q = (a : IpAddr) × IsMember p.subnet a × IsMember q.subnet a

abbrev pub IsDisjoint : List NetworkIpamPool → Type 0
IsDisjoint [] = Unit
IsDisjoint (p ∷ pools) = All (λ q. ¬ IsShared q p) pools × IsDisjoint pools

validate_auxiliaries_sound :
    (subnet : NetworkSubnet) (names : List Bytes) (reserved : List IpAddr)
    (auxiliaries : List NetworkAuxAddress)
    → validate_auxiliaries subnet names reserved auxiliaries ≡ ok tt
    → All (IsUsableIn subnet) auxiliaries
      × (all_inserted names (names_of auxiliaries) ≡ true)
      × (all_inserted reserved (addresses_of auxiliaries) ≡ true)
unfolding validate_auxiliaries all_inserted
validate_auxiliaries_sound subnet names reserved [] h = (tt, refl, refl)
validate_auxiliaries_sound subnet names reserved (x ∷ auxiliaries) h =
    let (e, rest) =
      (reject_if_iff
          (contains names x.name
            || not (contains_usable_host subnet x.address)
            || contains reserved x.address)
          IntentError.invalid_network_ipam
          (validate_auxiliaries subnet (x.name ∷ names) (x.address ∷ reserved) auxiliaries) tt).0
        h in
    let (usable, fresh_names, fresh) =
      validate_auxiliaries_sound subnet (x.name ∷ names) (x.address ∷ reserved) auxiliaries rest in
    ((ground arith, usable), ground arith, ground arith)

reserved-Distinct :
    (gateway : Option IpAddr) (keys : List IpAddr)
    → all_inserted (reserved_of gateway) keys ≡ true
    → Distinct (reserved_of gateway ++ keys)
unfolding all_inserted
reserved-Distinct none keys h = (all_inserted_iff keys).0 h
reserved-Distinct (some g) keys h = (all_inserted_iff (g ∷ keys)).0 h

-- what is checked of a pool, as the loop goes on
validate-IsPool :
    (enable_ipv6 : Bool) (earlier : List NetworkIpamPool) (pool : NetworkIpamPool)
    (pools : List NetworkIpamPool)
    → validate_pools enable_ipv6 earlier (pool ∷ pools) ≡ ok tt
    → (any (λ other. overlaps pool.subnet other.subnet) earlier ≡ false)
      × IsPool enable_ipv6 pool
      × (validate_pools enable_ipv6 (pool ∷ earlier) pools ≡ ok tt)
unfolding validate_pools
validate-IsPool enable_ipv6 earlier pool pools h =
    let checked =
      validate_auxiliaries pool.subnet [] (reserved_of pool.gateway) pool.auxiliary_addresses in
    let later = validate_pools enable_ipv6 (pool ∷ earlier) pools in
    let (e, behind) =
      (reject_if_iff
          (any (λ other. overlaps pool.subnet other.subnet) earlier
            || (is_ipv6 pool.subnet.address && not enable_ipv6)
            || bad_gateway pool.subnet pool.gateway
            || bad_range pool.subnet pool.ip_range)
          IntentError.invalid_network_ipam (checked >> later) tt).0
        h in
    let (auxiliaries, rest) = (>>_iff checked later tt).0 behind in
    let (usable, names, reserved) =
      validate_auxiliaries_sound pool.subnet [] (reserved_of pool.gateway) pool.auxiliary_addresses
        auxiliaries in
    (
      ground arith,
      record {
        family = ground arith;
        gateway = ground arith;
        range = ground arith;
        usable = usable;
        names = (all_inserted_iff (names_of pool.auxiliary_addresses)).0 names;
        reserved = reserved-Distinct pool.gateway (addresses_of pool.auxiliary_addresses) reserved;
      },
      rest,
    )

-- no earlier pool shares an address with one that overlaps none of them
overlaps_none :
    (pool : NetworkIpamPool) (earlier : List NetworkIpamPool)
    → IsSubnet pool.subnet
    → All (λ p. IsSubnet p.subnet) earlier
    → any (λ other. overlaps pool.subnet other.subnet) earlier ≡ false
    → All (λ p. ¬ IsShared pool p) earlier
overlaps_none pool [] s subnets h = tt
overlaps_none pool (p ∷ earlier) s subnets h = (
  (λ shared. let met = (overlaps_iff pool.subnet p.subnet s subnets.0).1 shared in ground arith),
  overlaps_none pool earlier s subnets.1 (ground arith),
)

abbrev IsApart : List NetworkIpamPool → List NetworkIpamPool → Type 0
IsApart earlier [] = Unit
IsApart earlier (q ∷ pools) = All (λ p. ¬ IsShared q p) earlier × IsApart earlier pools

IsApart-head :
    (p : NetworkIpamPool) (earlier pools : List NetworkIpamPool)
    → IsApart (p ∷ earlier) pools
    → All (λ q. ¬ IsShared q p) pools × IsApart earlier pools
IsApart-head p earlier [] h = (tt, tt)
IsApart-head p earlier (q ∷ pools) h =
    let (a, b) = IsApart-head p earlier pools h.1 in ((h.0.0, a), (h.0.1, b))

validate_pools_sound :
    (enable_ipv6 : Bool) (earlier pools : List NetworkIpamPool)
    → All (λ p. IsSubnet p.subnet) earlier
    → All (λ p. IsSubnet p.subnet) pools
    → validate_pools enable_ipv6 earlier pools ≡ ok tt
    → All (IsPool enable_ipv6) pools × IsDisjoint pools × IsApart earlier pools
validate_pools_sound enable_ipv6 earlier [] s t h = (tt, tt, tt)
validate_pools_sound enable_ipv6 earlier (p ∷ pools) s t h =
    let (apart, here, rest) = validate-IsPool enable_ipv6 earlier p pools h in
    let (valid, disjoint, others) =
      validate_pools_sound enable_ipv6 (p ∷ earlier) pools (t.0, s) t.1 rest in
    let (from_p, from_earlier) = IsApart-head p earlier pools others in
    ((here, valid), (from_p, disjoint), (overlaps_none p earlier t.0 s apart, from_earlier))

-- If the pools' subnets are built by the constructor and the pools are accepted, no two of them share
-- an address, an IPv6 pool is enabled, a gateway is a usable host of its pool and a range a part of it,
-- and each pool's auxiliary addresses are usable hosts, distinct from one another and from the gateway,
-- under distinct names.
pub validate_pools-IsDisjoint :
    (enable_ipv6 : Bool) (pools : List NetworkIpamPool)
    → All (λ p. IsSubnet p.subnet) pools
    → validate_pools enable_ipv6 [] pools ≡ ok tt
    → All (IsPool enable_ipv6) pools × IsDisjoint pools
validate_pools-IsDisjoint enable_ipv6 pools s h =
    let (valid, disjoint, others) = validate_pools_sound enable_ipv6 [] pools tt s h in
    (valid, disjoint)
