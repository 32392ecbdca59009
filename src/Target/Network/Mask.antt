-- ===== src/Target/Network/Mask.antt =====
-- The masks of src/target_modules/network.rs as division and remainder by powers of two.
use Prim.Native.Nat.{max, bit_and, bit_or, digits, bit_and-bitwise, bit_or-bitwise}
use docker_lens.Prelude.{
  ℕ, zero, suc, ◌+◌, ◌-◌, ◌*◌, ◌/◌, ◌%◌, ◌^◌, ◌≤◌, ◌<◌, ◌≡◌, refl, sym, ap, ◌∙◌, arith, min, Bool,
  true, ◌&&◌, ◌==◌, nat_eq, nat_beq_iff, ◌⊎◌, inl, inr,
}
use native.Mathlib.Nat.{pow-suc, one-le-pow, mod-lt, div-add-mod', div-lt_iff_lt-mul}
use docker_lens.Target.Network.{mask, complement, host_mask}

-- A test of every number below a bound, by evaluation.
abbrev all_below : ℕ → (ℕ → Bool) → Bool
all_below zero p = true
all_below (suc n) p = p n && all_below n p

pub all_below_sound : (n : ℕ) (p : ℕ → Bool) (x : ℕ) → all_below n p ≡ true → x < n → p x ≡ true
all_below_sound zero p x h l = absurd (omega arith)
all_below_sound (suc n) p x h l = ground (arith, all_below_sound n p x)

-- The digits of both numbers, on any fuel that is enough for the first.
and_fuel :
    (n m a b : ℕ) → a ≤ n → a ≤ m → digits (λ b. zero) min n a b ≡ digits (λ b. zero) min m a b
and_fuel zero zero a b p q = refl
and_fuel zero (suc m) zero b p q = refl
and_fuel zero (suc m) (suc a) b p q = absurd (omega arith)
and_fuel (suc n) zero zero b p q = refl
and_fuel (suc n) zero (suc a) b p q = absurd (omega arith)
and_fuel (suc n) (suc m) zero b p q = refl
and_fuel (suc n) (suc m) (suc a) b p q =
    omega (arith, and_fuel n m (suc a / 2) (b / 2) (omega arith) (omega arith))

bit_and_next : (a b : ℕ) → bit_and a b ≡ bit_and (a / 2) (b / 2) * 2 + min (a % 2) (b % 2)
bit_and_next zero b = omega (arith, bit_and-bitwise 0 b, bit_and-bitwise 0 (b / 2))
bit_and_next (suc a) b = omega (
  arith,
  bit_and-bitwise (suc a) b,
  bit_and-bitwise (suc a / 2) (b / 2),
  and_fuel a (suc a / 2) (suc a / 2) (b / 2) (omega arith) (omega arith),
)

or_fuel : (n m a b : ℕ) → a ≤ n → a ≤ m → digits (λ b. b) max n a b ≡ digits (λ b. b) max m a b
or_fuel zero zero a b p q = refl
or_fuel zero (suc m) zero b p q = refl
or_fuel zero (suc m) (suc a) b p q = absurd (omega arith)
or_fuel (suc n) zero zero b p q = refl
or_fuel (suc n) zero (suc a) b p q = absurd (omega arith)
or_fuel (suc n) (suc m) zero b p q = refl
or_fuel (suc n) (suc m) (suc a) b p q =
    omega (arith, or_fuel n m (suc a / 2) (b / 2) (omega arith) (omega arith))

bit_or_next : (a b : ℕ) → bit_or a b ≡ bit_or (a / 2) (b / 2) * 2 + max (a % 2) (b % 2)
bit_or_next zero b = omega (arith, bit_or-bitwise 0 b, bit_or-bitwise 0 (b / 2))
bit_or_next (suc a) b = omega (
  arith,
  bit_or-bitwise (suc a) b,
  bit_or-bitwise (suc a / 2) (b / 2),
  or_fuel a (suc a / 2) (suc a / 2) (b / 2) (omega arith) (omega arith),
)

below_zero : (n a : ℕ) → a ≤ n → bit_and a 0 ≡ 0
below_zero n zero h = refl
below_zero zero (suc a) h = absurd (omega arith)
below_zero (suc n) (suc a) h =
    omega (arith, bit_and_next (suc a) 0, below_zero n (suc a / 2) (omega arith))

bit_and_zero : (a : ℕ) → bit_and a 0 ≡ 0
bit_and_zero a = below_zero a a (omega arith)

zero_below : (n a : ℕ) → a ≤ n → bit_or a 0 ≡ a
zero_below n zero h = refl
zero_below zero (suc a) h = absurd (omega arith)
zero_below (suc n) (suc a) h =
    omega (arith, bit_or_next (suc a) 0, zero_below n (suc a / 2) (omega arith))

bit_or_zero : (a : ℕ) → bit_or a 0 ≡ a
bit_or_zero a = zero_below a a (omega arith)

twice : (q k : ℕ) → q * 2 ^ suc k ≡ 2 * (q * 2 ^ k)
twice q k = omega (arith, ap (λ t. q * t) (pow-suc 2 k))

-- A number by its part above `k` digits and the rest: `&` with a shifted mask, `&` and `|` with a low one.
bit_and-shifted :
    (k q r m : ℕ) → r < 2 ^ k → bit_and (q * 2 ^ k + r) (m * 2 ^ k) ≡ bit_and q m * 2 ^ k
bit_and-shifted zero q r m h =
    let a : q * 2 ^ 0 + r ≡ q = omega (arith, h) in
    let b : m * 2 ^ 0 ≡ m = omega arith in rw (a, b) (omega arith)
bit_and-shifted (suc k) q r m h =
    let a = q * 2 ^ suc k + r in
    let half_a : a / 2 ≡ q * 2 ^ k + r / 2 = omega (arith, twice q k) in
    let half_m : (m * 2 ^ suc k) / 2 ≡ m * 2 ^ k = omega (arith, twice m k) in
    let small : r / 2 < 2 ^ k = omega (arith, h, pow-suc 2 k) in
    let next : bit_and (a / 2) ((m * 2 ^ suc k) / 2) ≡ bit_and q m * 2 ^ k =
      rw (half_a, half_m) (bit_and-shifted k q (r / 2) m small) in
    omega (arith, bit_and_next a (m * 2 ^ suc k), next, twice m k, twice (bit_and q m) k)

pub bit_and-low : (k q r : ℕ) → r < 2 ^ k → bit_and (q * 2 ^ k + r) (2 ^ k - 1) ≡ r
bit_and-low zero q r h = omega (arith, bit_and_zero (q * 2 ^ 0 + r))
bit_and-low (suc k) q r h =
    let a = q * 2 ^ suc k + r in
    let half_a : a / 2 ≡ q * 2 ^ k + r / 2 = omega (arith, twice q k) in
    let half_m : (2 ^ suc k - 1) / 2 ≡ 2 ^ k - 1 = omega (arith, pow-suc 2 k, one-le-pow k 2) in
    let small : r / 2 < 2 ^ k = omega (arith, h, pow-suc 2 k) in
    let next : bit_and (a / 2) ((2 ^ suc k - 1) / 2) ≡ r / 2 =
      rw (half_a, half_m) (bit_and-low k q (r / 2) small) in
    omega (arith, bit_and_next a (2 ^ suc k - 1), next, twice q k, pow-suc 2 k, one-le-pow k 2)

pub bit_or-low : (k q : ℕ) → bit_or (q * 2 ^ k) (2 ^ k - 1) ≡ q * 2 ^ k + (2 ^ k - 1)
bit_or-low zero q = omega (arith, bit_or_zero (q * 2 ^ 0))
bit_or-low (suc k) q =
    let a = q * 2 ^ suc k in
    let half_a : a / 2 ≡ q * 2 ^ k = omega (arith, twice q k) in
    let half_m : (2 ^ suc k - 1) / 2 ≡ 2 ^ k - 1 = omega (arith, pow-suc 2 k, one-le-pow k 2) in
    let next : bit_or (a / 2) ((2 ^ suc k - 1) / 2) ≡ q * 2 ^ k + (2 ^ k - 1) =
      rw (half_a, half_m) (bit_or-low k q) in
    omega (arith, bit_or_next a (2 ^ suc k - 1), next, twice q k, pow-suc 2 k, one-le-pow k 2)

-- The masks of the source, at every prefix.
abbrev mask_test : ℕ → ℕ → Bool
mask_test w p =
    mask w p == (2 ^ p - 1) * 2 ^ (w - p)
    && complement w (mask w p) == 2 ^ (w - p) - 1
    && 2 ^ w == 2 ^ p * 2 ^ (w - p)

masks_v4 : all_below 33 (mask_test 32) ≡ true
masks_v4 = refl

masks_v6 : all_below 129 (mask_test 128) ≡ true
masks_v6 = refl

host_masks : all_below 31 (λ p. host_mask p == 2 ^ (32 - p) - 1) ≡ true
host_masks = refl

-- the two widths
abbrev pub IsWidth : ℕ → Type 0
IsWidth w = (w ≡ 32) ⊎ (w ≡ 128)

pub mask-shape : (w p : ℕ) → IsWidth w → p ≤ w → mask_test w p ≡ true
mask-shape w p (inl e) h = rw e (all_below_sound 33 (mask_test 32) p masks_v4 (omega (arith, h, e)))
mask-shape w p (inr e) h =
    rw e (all_below_sound 129 (mask_test 128) p masks_v6 (omega (arith, h, e)))

pub host_mask-shape : (p : ℕ) → p ≤ 30 → host_mask p ≡ 2 ^ (32 - p) - 1
host_mask-shape p h =
    (nat_beq_iff _ _).0
      (all_below_sound 31 (λ p. host_mask p == 2 ^ (32 - p) - 1) p host_masks (omega (arith, h)))

pub two-pow_pos : (k : ℕ) → 0 < 2 ^ k
two-pow_pos k = one-le-pow k 2 (omega arith)

-- The mask keeps the part above the host digits, its complement keeps the host digits.
pub bit_and-mask :
    (w p x : ℕ)
    → IsWidth w
    → p ≤ w
    → x < 2 ^ w
    → bit_and x (mask w p) ≡ x / 2 ^ (w - p) * 2 ^ (w - p)
bit_and-mask w p x i h l =
    let k = w - p in
    let t = mask-shape w p i h in
    let shape : mask w p ≡ (2 ^ p - 1) * 2 ^ k = ground (arith, t) in
    let whole : 2 ^ w ≡ 2 ^ p * 2 ^ k = ground (arith, t) in
    let above : x / 2 ^ k < 2 ^ p =
      (div-lt_iff_lt-mul (two-pow_pos k)).1 (omega (arith, l, whole)) in
    let parts : x / 2 ^ k * 2 ^ k + x % 2 ^ k ≡ x = div-add-mod' x (2 ^ k) in
    let kept : bit_and (x / 2 ^ k) (2 ^ p - 1) ≡ x / 2 ^ k =
      ap (λ t. bit_and t (2 ^ p - 1)) (omega arith) ∙ bit_and-low p 0 (x / 2 ^ k) above in
    ap (λ t. bit_and t (mask w p)) (sym parts)
    ∙ (ap (bit_and (x / 2 ^ k * 2 ^ k + x % 2 ^ k)) shape
        ∙ (bit_and-shifted k (x / 2 ^ k) (x % 2 ^ k) (2 ^ p - 1) (mod-lt x (two-pow_pos k))
            ∙ ap (λ t. t * 2 ^ k) kept))

pub bit_and-complement :
    (w p x : ℕ) → IsWidth w → p ≤ w → bit_and x (complement w (mask w p)) ≡ x % 2 ^ (w - p)
bit_and-complement w p x i h =
    let k = w - p in
    let t = mask-shape w p i h in
    let shape : complement w (mask w p) ≡ 2 ^ k - 1 = ground (arith, t) in
    ap (bit_and x) shape
    ∙ (ap (λ t. bit_and t (2 ^ k - 1)) (sym (div-add-mod' x (2 ^ k)))
        ∙ bit_and-low k (x / 2 ^ k) (x % 2 ^ k) (mod-lt x (two-pow_pos k)))

pub pow_sum : (k d : ℕ) → 2 ^ (k + d) ≡ 2 ^ k * 2 ^ d
pow_sum k zero = let e : k + 0 ≡ k = omega arith in rw e (omega arith)
pow_sum k (suc d) =
    let e : k + suc d ≡ suc (k + d) = omega arith in
    rw e (omega (arith, pow-suc 2 (k + d), pow_sum k d, twice (2 ^ k) d))
