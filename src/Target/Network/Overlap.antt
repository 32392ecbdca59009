-- ===== src/Target/Network/Overlap.antt =====
-- `overlaps` and `contains_usable_host` of src/target_modules/network.rs.
use Prim.Native.Nat.{bit_or}
use native.Mathlib.Nat.{div-add-mod', div-div-eq-div-mul}
use docker_lens.Prelude.{
  ℕ, ◌+◌, ◌-◌, ◌*◌, ◌/◌, ◌%◌, ◌^◌, ◌≤◌, ◌<◌, ◌≡◌, ◌≢◌, refl, sym, ap, ◌∙◌, ◌↔◌, ◌⊎◌, inl, inr,
  arith, Bool, true, false, not, ◌&&◌, leb, if◌then◌else◌, ◌==◌, nat_eq, Bool-cases, &&-true,
  ||-true,
}
use docker_lens.Target.Network.{
  IpAddr, v4, v6, is_ipv6, host_mask, NetworkSubnet, contains_address, is_host_slot,
  contains_usable_host, overlaps,
}
use docker_lens.Target.Network.Mask.{bit_or-low, host_mask-shape, two-pow_pos, pow_sum}
use docker_lens.Target.Network.Subnet.{
  width, value, IsAddress, size, IsSubnet, IsMember, part_iff_range, contains_address_iff,
}

-- A range of a larger power of two that meets one of a smaller power holds the smaller one's base.
holds_base :
    (k d b c x : ℕ)
    → b % 2 ^ k ≡ 0
    → c % 2 ^ (k + d) ≡ 0
    → (b ≤ x) × (x < b + 2 ^ k)
    → (c ≤ x) × (x < c + 2 ^ (k + d))
    → (c ≤ b) × (b < c + 2 ^ (k + d))
holds_base k d b c x zb zc mb mc =
    let split : (y : ℕ) → y / 2 ^ (k + d) ≡ y / 2 ^ k / 2 ^ d =
      λ y. ap (λ t. y / t) (pow_sum k d) ∙ sym (div-div-eq-div-mul y (2 ^ k) (2 ^ d)) in
    let low : b / 2 ^ k ≡ x / 2 ^ k = (part_iff_range k b x zb).1 mb in
    let high : c / 2 ^ (k + d) ≡ x / 2 ^ (k + d) = (part_iff_range (k + d) c x zc).1 mc in
    (part_iff_range (k + d) c b zc).0
      (high ∙ (split x ∙ (ap (λ t. t / 2 ^ d) (sym low) ∙ sym (split b))))

family_width : (a b : IpAddr) → is_ipv6 a ≡ is_ipv6 b → width a ≡ width b
family_width (v4 a) (v4 b) e = refl
family_width (v6 a) (v6 b) e = refl
family_width (v4 a) (v6 b) e = cc
family_width (v6 a) (v4 b) e = cc

base-IsMember : (s : NetworkSubnet) → IsMember s s.address
base-IsMember s = record {
  family = refl;
  least = omega arith;
  most = omega (arith, two-pow_pos (width s.address - s.prefix));
}

-- Of two subnets with a common address, the one with the longer prefix has its base in the other.
longer-IsMember :
    (s t : NetworkSubnet) (a : IpAddr)
    → IsSubnet s
    → IsSubnet t
    → t.prefix ≤ s.prefix
    → IsMember s a
    → IsMember t a
    → IsMember t s.address
longer-IsMember s t a i j h m n =
    let same : width s.address ≡ width t.address =
      family_width s.address t.address (sym m.family ∙ n.family) in
    let k = width s.address - s.prefix in
    let d = s.prefix - t.prefix in
    let e : width t.address - t.prefix ≡ k + d = omega (arith, same, h, i.prefix) in
    let zc : value t.address % 2 ^ (k + d) ≡ 0 = rw (← e) j.base in
    let most : value a < value t.address + 2 ^ (k + d) = rw (← e) n.most in
    let (l, u) =
      holds_base k d (value s.address) (value t.address) (value a) i.base zc (m.least, m.most)
        (n.least, most) in
    record { family = sym m.family ∙ n.family; least = l; most = rw e u }

-- Two subnets overlap exactly if some address lies in both.
pub overlaps_iff :
    (s t : NetworkSubnet)
    → IsSubnet s
    → IsSubnet t
    → (overlaps s t ≡ true) ↔ ((a : IpAddr) × IsMember s a × IsMember t a)
unfolding overlaps
overlaps_iff s t i j = (forth, back)
  where
    in_s : (contains_address s t.address ≡ true) ↔ IsMember s t.address
    in_s = contains_address_iff s t.address i j.address

    in_t : (contains_address t s.address ≡ true) ↔ IsMember t s.address
    in_t = contains_address_iff t s.address j i.address

    forth : overlaps s t ≡ true → (a : IpAddr) × IsMember s a × IsMember t a
    forth h = elim (||-true (contains_address s t.address) _ h) [
      | inl e ↦ (t.address, in_s.0 e, base-IsMember t)
      | inr e ↦ (s.address, base-IsMember s, in_t.0 e)
    ]

    back : (a : IpAddr) × IsMember s a × IsMember t a → overlaps s t ≡ true
    back (a, m, n) = elim (Bool-cases (leb t.prefix s.prefix)) [
      | inl e ↦ let c = in_t.1 (longer-IsMember s t a i j (ground arith) m n) in ground (arith, c)
      | inr e ↦ let c = in_s.1 (longer-IsMember t s a j i (ground arith) n m) in ground (arith, c)
    ]

-- An address that a host may take: in the subnet, and neither the base nor the last address, except
-- that IPv6 has no last slot and that an IPv4 prefix of 31 or 32 has neither.
pub record IsUsable (s : NetworkSubnet) (a : IpAddr) : Type 0 where
  pub member : IsMember s a
  pub not_base : (is_ipv6 s.address ≡ false) × (31 ≤ s.prefix) ⊎ (value a ≢ value s.address)
  pub not_last :
      (is_ipv6 s.address ≡ true) ⊎ (31 ≤ s.prefix) ⊎ (value a ≢ value s.address + (size s - 1))

last_slot :
    (b p : ℕ) → p ≤ 30 → b % 2 ^ (32 - p) ≡ 0 → bit_or b (host_mask p) ≡ b + (2 ^ (32 - p) - 1)
last_slot b p h z =
    let k = 32 - p in
    let whole : b / 2 ^ k * 2 ^ k ≡ b = omega (arith, div-add-mod' b (2 ^ k), z) in
    let q = bit_or-low k (b / 2 ^ k) in
    ap (bit_or b) (host_mask-shape p h)
    ∙ (ap (λ t. bit_or t (2 ^ k - 1)) (sym whole) ∙ (q ∙ ap (λ t. t + (2 ^ k - 1)) whole))

abbrev HostSlot : IpAddr → IpAddr → ℕ → Type 0
HostSlot b a p =
    ((is_ipv6 b ≡ false) × (31 ≤ p) ⊎ (value a ≢ value b))
    × ((is_ipv6 b ≡ true) ⊎ (31 ≤ p) ⊎ (value a ≢ value b + (2 ^ (width b - p) - 1)))

small_slot :
    (a b o last p : ℕ)
    → p ≤ 30
    → o ≡ last
    → ((if leb p 30 then not (a == b) && not (a == o) else true) ≡ true) ↔ (
        ((◌≡◌ {A = Bool} false false) × (31 ≤ p) ⊎ (a ≢ b))
        × ((◌≡◌ {A = Bool} false true) ⊎ (31 ≤ p) ⊎ (a ≢ last)))
small_slot a b o last p h e = ground arith

is_host_slot_iff :
    (b a : IpAddr) (p : ℕ)
    → is_ipv6 a ≡ is_ipv6 b
    → value b % 2 ^ (width b - p) ≡ 0
    → (is_host_slot b a p ≡ true) ↔ HostSlot b a p
is_host_slot_iff (v4 b) (v4 a) p f z = elim (Bool-cases (leb p 30)) [
  | inl e ↦
      let l = last_slot b p (ground arith) z in
      small_slot a b (bit_or b (host_mask p)) (b + (2 ^ (32 - p) - 1)) p (ground arith) l
  | inr e ↦ ground arith
]
is_host_slot_iff (v6 b) (v6 a) p f z = ground arith
is_host_slot_iff (v4 b) (v6 a) p f z = cc
is_host_slot_iff (v6 b) (v4 a) p f z = cc

-- An address is usable for a host exactly if it lies in the subnet and is neither its base nor its last
-- address, where an IPv6 subnet has no last slot and an IPv4 prefix of 31 or 32 has neither.
pub contains_usable_host_iff :
    (s : NetworkSubnet) (a : IpAddr)
    → IsSubnet s
    → IsAddress a
    → (contains_usable_host s a ≡ true) ↔ IsUsable s a
unfolding contains_usable_host
contains_usable_host_iff s a i l =
    let c = contains_address_iff s a i l in
    (
      (λ h.
          let (inside, slot) = &&-true (contains_address s a) _ h in
          let m = c.0 inside in
          let (b, t) = (is_host_slot_iff s.address a s.prefix m.family i.base).0 slot in
          record { member = m; not_base = b; not_last = t }),
      (λ u.
          let inside = c.1 u.member in
          let slot =
            (is_host_slot_iff s.address a s.prefix u.member.family i.base).1
              (u.not_base, u.not_last) in
          rw (inside, slot) refl),
    )
