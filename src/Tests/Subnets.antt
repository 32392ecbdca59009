-- ===== src/Tests/Subnets.antt =====
-- Tests of the subnets and address pools of src/target_modules/network.rs and intent.rs.
use docker_lens.Prelude.{
  ◌≡◌, ◌↔◌, refl, arith, true, false, none, some, List, [], ◌∷◌, All, codes, ok, err,
}
use docker_lens.Target.Network.{
  IntentError, v4, NetworkSubnet, network_subnet, address_is_network, contains_address,
  contains_usable_host, overlaps, NetworkIpamPool,
}
use docker_lens.Target.Network.Subnet.{IsSubnet, IsMember, contains_address_iff, network_subnet_iff}
use docker_lens.Target.Network.Overlap.{IsUsable, overlaps_iff, contains_usable_host_iff}
use docker_lens.Target.Pools.{validate_auxiliaries, validate_pools}
use docker_lens.Target.Pools.Disjoint.{IsPool, IsDisjoint, validate_pools-IsDisjoint}

-- 10.0.0.0/24, 10.0.0.128/25 and 10.0.1.0/24
abbrev pub wide : NetworkSubnet
wide = record { address = v4 167772160; prefix = 24 }

abbrev upper : NetworkSubnet
upper = record { address = v4 167772288; prefix = 25 }

abbrev next : NetworkSubnet
next = record { address = v4 167772416; prefix = 24 }

pub wide-IsSubnet : IsSubnet wide
wide-IsSubnet = record { address = omega arith; prefix = omega arith; base = refl }

upper-IsSubnet : IsSubnet upper
upper-IsSubnet = record { address = omega arith; prefix = omega arith; base = refl }

next-IsSubnet : IsSubnet next
next-IsSubnet = record { address = omega arith; prefix = omega arith; base = refl }

contains_address_iff_example :
    (contains_address wide (v4 167772200) ≡ true) ↔ IsMember wide (v4 167772200)
contains_address_iff_example = contains_address_iff wide (v4 167772200) wide-IsSubnet (omega arith)

network_subnet_iff_example : network_subnet (v4 167772160) 24 ≡ ok wide
network_subnet_iff_example =
    (network_subnet_iff (v4 167772160) 24 wide (omega arith)).1 (refl, refl, wide-IsSubnet)

-- a base with host digits
ragged_fails : network_subnet (v4 167772161) 24 ≡ err IntentError.invalid_network_subnet
unfolding network_subnet address_is_network
ragged_fails = refl

overlaps_iff_example : overlaps wide upper ≡ true
overlaps_iff_example = (overlaps_iff wide upper wide-IsSubnet upper-IsSubnet).1 (
  v4 167772300,
  record { family = refl; least = omega arith; most = omega arith },
  record { family = refl; least = omega arith; most = omega arith },
)

contains_usable_host_iff_example : IsUsable wide (v4 167772162)
unfolding contains_usable_host contains_address
contains_usable_host_iff_example =
    (contains_usable_host_iff wide (v4 167772162) wide-IsSubnet (omega arith)).0 refl

abbrev first_pool : NetworkIpamPool
first_pool = record {
  subnet = wide;
  gateway = some (v4 167772161);
  ip_range = some upper;
  auxiliary_addresses = record { name = codes "printer"; address = v4 167772170 } ∷ [];
}

abbrev second_pool : NetworkIpamPool
second_pool = record { subnet = next; gateway = none; ip_range = none; auxiliary_addresses = [] }

abbrev pools : List NetworkIpamPool
pools = first_pool ∷ second_pool ∷ []

pools_pass : validate_pools false [] pools ≡ ok tt
unfolding validate_pools validate_auxiliaries contains_usable_host contains_address overlaps
pools_pass = refl

validate_pools-IsDisjoint_example : All (IsPool false) pools × IsDisjoint pools
validate_pools-IsDisjoint_example =
    validate_pools-IsDisjoint false pools (wide-IsSubnet, (next-IsSubnet, tt)) pools_pass
