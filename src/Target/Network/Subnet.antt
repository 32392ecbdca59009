-- ===== src/Target/Network/Subnet.antt =====
-- `NetworkSubnet` of src/target_modules/network.rs as a range of addresses.
use Prim.Native.Nat.{bit_and}
use native.Mathlib.Nat.{mod-lt, div-add-mod', div-eq_of_lt-le, mul-div_cancel, add-mul}
use docker_lens.Prelude.{
  ℕ, ◌+◌, ◌-◌, ◌*◌, ◌/◌, ◌%◌, ◌^◌, ◌≤◌, ◌<◌, ◌≡◌, refl, sym, subst, ap, ◌∙◌, ◌↔◌, inl, inr, arith,
  true, if◌then◌else◌, ◌==◌, nat_eq, nat_beq_iff, ok,
}
use docker_lens.Target.Network.{
  IpAddr, v4, v6, is_ipv6, mask, address_is_network, NetworkSubnet, network_subnet, same_network,
  contains_address,
}
use docker_lens.Target.Network.Mask.{IsWidth, bit_and-mask, bit_and-complement, two-pow_pos}

abbrev pub width : IpAddr → ℕ
width (v4 a) = 32
width (v6 a) = 128

abbrev pub value : IpAddr → ℕ
value (v4 a) = a
value (v6 a) = a

-- The number fits the family's width.
abbrev pub IsAddress : IpAddr → Type 0
IsAddress a = value a < 2 ^ width a

-- the number of addresses of a subnet
abbrev pub size : NetworkSubnet → ℕ
size s = 2 ^ (width s.address - s.prefix)

-- A base address with no host digits.
pub record IsSubnet (s : NetworkSubnet) : Type 0 where
  pub address : IsAddress s.address
  pub prefix : s.prefix ≤ width s.address
  pub base : value s.address % size s ≡ 0

-- An address of the subnet's family, in its range.
pub record IsMember (s : NetworkSubnet) (a : IpAddr) : Type 0 where
  pub family : is_ipv6 a ≡ is_ipv6 s.address
  pub least : value s.address ≤ value a
  pub most : value a < value s.address + size s

width-IsWidth : (a : IpAddr) → IsWidth (width a)
width-IsWidth (v4 a) = inl refl
width-IsWidth (v6 a) = inr refl

-- Two numbers share their part above the host digits.
same_part :
    (w p x y : ℕ)
    → IsWidth w
    → p ≤ w
    → x < 2 ^ w
    → y < 2 ^ w
    → ((bit_and x (mask w p) == bit_and y (mask w p)) ≡ true) ↔ (x / 2 ^ (w - p) ≡ y / 2 ^ (w - p))
same_part w p x y i h l m =
    let k = w - p in
    let a = bit_and-mask w p x i h l in
    let b = bit_and-mask w p y i h m in
    let n = two-pow_pos k in
    (
      (λ e.
          let same : x / 2 ^ k * 2 ^ k ≡ y / 2 ^ k * 2 ^ k = sym a ∙ ((nat_beq_iff _ _).0 e ∙ b) in
          sym (mul-div_cancel (x / 2 ^ k) n)
          ∙ (ap (λ t. t / 2 ^ k) same ∙ mul-div_cancel (y / 2 ^ k) n)),
      (λ e. (nat_beq_iff _ _).1 (a ∙ (ap (λ t. t * 2 ^ k) e ∙ sym b))),
    )

-- The part above the host digits of an address, against the range of its subnet.
pub part_iff_range :
    (k b x : ℕ) → b % 2 ^ k ≡ 0 → (b / 2 ^ k ≡ x / 2 ^ k) ↔ ((b ≤ x) × (x < b + 2 ^ k))
part_iff_range k b x h =
    let n = two-pow_pos k in
    let bb = div-add-mod' b (2 ^ k) in
    let xx = div-add-mod' x (2 ^ k) in
    let rest = mod-lt x n in
    (
      (λ e.
          let same : b / 2 ^ k * 2 ^ k ≡ x / 2 ^ k * 2 ^ k = ap (λ t. t * 2 ^ k) e in
          (omega (arith, bb, xx, rest, same, h), omega (arith, bb, xx, rest, same, h))),
      (λ (l, m). sym (
          div-eq_of_lt-le (2 ^ k) (omega (arith, bb, h, l))
            (omega (arith, bb, h, m, add-mul (b / 2 ^ k) 1 (2 ^ k))))),
    )

-- The comparison of the masked numbers tests the range.
masked_range :
    (w p b x : ℕ)
    → IsWidth w
    → p ≤ w
    → b < 2 ^ w
    → x < 2 ^ w
    → b % 2 ^ (w - p) ≡ 0
    → ((bit_and b (mask w p) == bit_and x (mask w p)) ≡ true) ↔ ((b ≤ x) × (x < b + 2 ^ (w - p)))
masked_range w p b x i h l m z =
    let t = same_part w p b x i h l m in
    let r = part_iff_range (w - p) b x z in ((λ e. r.0 (t.0 e)), (λ e. t.1 (r.1 e)))

in_range :
    (s : NetworkSubnet) (a : IpAddr)
    → IsMember s a ↔ (
        (is_ipv6 a ≡ is_ipv6 s.address)
        × (value s.address ≤ value a)
        × (value a < value s.address + size s))
in_range s a =
    ((λ m. (m.family, m.least, m.most)), (λ m. record { family = m.0; least = m.1; most = m.2 }))

same_network_range :
    (b x : IpAddr) (p : ℕ)
    → IsAddress b
    → IsAddress x
    → p ≤ width b
    → value b % 2 ^ (width b - p) ≡ 0
    → (same_network b x p ≡ true)
      ↔ ((is_ipv6 x ≡ is_ipv6 b) × (value b ≤ value x) × (value x < value b + 2 ^ (width b - p)))
same_network_range (v4 b) (v4 x) p ib ix h z =
    let t = masked_range 32 p b x (inl refl) h ib ix z in
    ((λ e. let (l, m) = t.0 e in (refl, l, m)), (λ m. t.1 (m.1, m.2)))
same_network_range (v6 b) (v6 x) p ib ix h z =
    let t = masked_range 128 p b x (inr refl) h ib ix z in
    ((λ e. let (l, m) = t.0 e in (refl, l, m)), (λ m. t.1 (m.1, m.2)))
same_network_range (v4 b) (v6 x) p ib ix h z = ((λ e. cc), (λ m. let e = m.0 in cc))
same_network_range (v6 b) (v4 x) p ib ix h z = ((λ e. cc), (λ m. let e = m.0 in cc))

-- A subnet without host digits in its base contains exactly the addresses of its own family from the
-- base on, as many as its prefix leaves.
pub contains_address_iff :
    (s : NetworkSubnet) (a : IpAddr)
    → IsSubnet s
    → IsAddress a
    → (contains_address s a ≡ true) ↔ IsMember s a
unfolding contains_address
contains_address_iff s a i l =
    let t = same_network_range s.address a s.prefix i.address l i.prefix i.base in
    let r = in_range s a in ((λ e. r.1 (t.0 e)), (λ m. t.1 (r.0 m)))

address_is_network_iff :
    (a : IpAddr) (p : ℕ)
    → p ≤ width a
    → (address_is_network a p ≡ true) ↔ (value a % 2 ^ (width a - p) ≡ 0)
unfolding address_is_network
address_is_network_iff (v4 a) p h =
    let c = bit_and-complement 32 p a (inl refl) h in
    ((λ e. sym c ∙ (nat_beq_iff _ _).0 e), (λ e. (nat_beq_iff _ _).1 (c ∙ e)))
address_is_network_iff (v6 a) p h =
    let c = bit_and-complement 128 p a (inr refl) h in
    ((λ e. sym c ∙ (nat_beq_iff _ _).0 e), (λ e. (nat_beq_iff _ _).1 (c ∙ e)))

bits_of : (a : IpAddr) → (if is_ipv6 a then 128 else 32) ≡ width a
bits_of (v4 a) = refl
bits_of (v6 a) = refl

-- A subnet is accepted, with its arguments, exactly if its prefix fits the family of its address, which
-- has no host digits.
pub network_subnet_iff :
    (a : IpAddr) (p : ℕ) (s : NetworkSubnet)
    → IsAddress a
    → (network_subnet a p ≡ ok s) ↔ ((s.address ≡ a) × (s.prefix ≡ p) × IsSubnet s)
unfolding network_subnet
network_subnet_iff a p s l = (forth, back)
  where
    forth : network_subnet a p ≡ ok s → (s.address ≡ a) × (s.prefix ≡ p) × IsSubnet s
    forth h =
        let fits : p ≤ width a = ground (arith, bits_of a) in
        let based : address_is_network a p ≡ true = ground arith in
        let same : (◌≡◌ {A = NetworkSubnet} (record { address = a; prefix = p }) s) =
          ground arith in
        let i : IsSubnet (record { address = a; prefix = p }) = record {
          address = l;
          prefix = fits;
          base = (address_is_network_iff a p fits).0 based;
        } in
        (ground arith, ground arith, subst IsSubnet same i)

    back : (s.address ≡ a) × (s.prefix ≡ p) × IsSubnet s → network_subnet a p ≡ ok s
    back (e, f, i) =
        rw (← e, ← f)
          (let based = (address_is_network_iff s.address s.prefix i.prefix).1 i.base in
            ground (arith, bits_of s.address, i.prefix, based))
