-- ===== src/Acquisition/Api/Text.antt =====
-- Which texts `parse_api` of src/acquisition.rs reads as which versions.
use docker_lens.Prelude.{
  ℕ, ◌+◌, ◌*◌, ◌-◌, ◌^◌, ◌≤◌, ◌≡◌, ◌≢◌, ◌↔◌, ◌∙◌, refl, sym, ap, true, false, inl, inr, some, [],
  ◌∷◌, ◌++◌, arith, all, All, all_iff, length, nat_beq, Bytes, codes, is_ascii_digit, split_once,
  strip_prefix, Option-cases, split_once-Joins,
}
use native.Mathlib.Nat.{add-mul, mul_assoc, pow-succ'}
use docker_lens.Version.Facts.{ApiVersion}
use docker_lens.Acquisition.Api.{decimal, parse_u16, api_of_parts, parse_api}

abbrev pub IsDigit : ℕ → Type 0
IsDigit b = (48 ≤ b) × (b ≤ 57)

-- each digit by its place
abbrev pub place_value : Bytes → ℕ
place_value [] = 0
place_value (b ∷ digits) = (b - 48) * 10 ^ length digits + place_value digits

-- A numeral of a 16-bit number, leading zeros included.
pub record IsNumeral (digits : Bytes) (n : ℕ) : Type 0 where
  pub nonempty : digits ≢ []
  pub each : All IsDigit digits
  pub value : place_value digits ≡ n
  pub bounded : n ≤ 65535

-- Two numerals with a dot between them, the first one of a positive number.
pub record IsApiText (text : Bytes) (v : ApiVersion) : Type 0 where
  pub front : Bytes
  pub rest : Bytes
  pub joined : text ≡ front ++ b'.' ∷ rest
  pub major : IsNumeral front v.major
  pub minor : IsNumeral rest v.minor
  pub positive : 1 ≤ v.major

places : (n d p v : ℕ) → (n * 10 + d) * p + v ≡ n * (10 * p) + (d * p + v)
places n d p v = rw (add-mul (n * 10) d p, mul_assoc n 10 p) (omega arith)

decimal-place_value :
    (n : ℕ) (digits : Bytes) → decimal n digits ≡ n * 10 ^ length digits + place_value digits
decimal-place_value n [] = omega arith
decimal-place_value n (b ∷ digits) =
    let below = decimal-place_value (n * 10 + (b - 48)) digits in
    below
    ∙ rw (pow-succ' 10 (length digits))
        (places n (b - 48) (10 ^ length digits) (place_value digits))

all-IsDigit : (digits : Bytes) → (all is_ascii_digit digits ≡ true) ↔ All IsDigit digits
all-IsDigit digits = all_iff is_ascii_digit IsDigit digits (λ b. ground arith)

parse_u16_iff : (digits : Bytes) (n : ℕ) → (parse_u16 digits ≡ some n) ↔ IsNumeral digits n
parse_u16_iff [] n = ((λ h. cc), (λ i. absurd (i.nonempty refl)))
parse_u16_iff (b ∷ digits) n = (forth, back)
  where
    number : decimal 0 (b ∷ digits) ≡ place_value (b ∷ digits)
    number = decimal-place_value 0 (b ∷ digits) ∙ omega arith

    forth : parse_u16 (b ∷ digits) ≡ some n → IsNumeral (b ∷ digits) n
    forth h = record {
      nonempty = λ e. cc;
      each = (all-IsDigit (b ∷ digits)).0 (ground arith);
      value = ground (arith, number);
      bounded = ground arith;
    }

    back : IsNumeral (b ∷ digits) n → parse_u16 (b ∷ digits) ≡ some n
    back i =
        let each = (all-IsDigit (b ∷ digits)).1 i.each in
        ground (arith, number, i.value, i.bounded, each)

-- Digits have no dot, so the first dot stands behind them.
split_once-digits :
    (front rest : Bytes)
    → All IsDigit front
    → split_once (codes ".") (front ++ b'.' ∷ rest) ≡ some (front, rest)
split_once-digits [] rest h = refl
split_once-digits (d ∷ front) rest ((least, most), h) =
    let below = split_once-digits front rest h in
    let other : nat_beq b'.' d ≡ false = ground (arith, least) in
    rw (other, below, split_once, strip_prefix) refl

-- the numerals around the dot
record HasParts (front rest : Bytes) (v : ApiVersion) : Type 0 where
  major : IsNumeral front v.major
  minor : IsNumeral rest v.minor
  positive : 1 ≤ v.major

api_of_parts_sound :
    (front rest : Bytes) (v : ApiVersion) → api_of_parts front rest ≡ some v → HasParts front rest v
api_of_parts_sound front rest v h = elim (Option-cases (parse_u16 front)) [
  | inl e ↦ absurd (let k = rw (e, api_of_parts) at h in cc)
  | inr (a, e) ↦ elim (Option-cases (parse_u16 rest)) [
    | inl f ↦ absurd (ground (arith, e, f))
    | inr (i, f) ↦
        let first : v.major ≡ a = ground (arith, e, f) in
        let second : v.minor ≡ i = ground (arith, e, f) in
        record {
          major = (parse_u16_iff front v.major).0 (e ∙ ap some (sym first));
          minor = (parse_u16_iff rest v.minor).0 (f ∙ ap some (sym second));
          positive = ground (arith, e, f);
        }
  ]
]

api_of_parts_complete :
    (front rest : Bytes) (v : ApiVersion) → HasParts front rest v → api_of_parts front rest ≡ some v
api_of_parts_complete front rest v parts =
    let a = (parse_u16_iff front v.major).1 parts.major in
    let i = (parse_u16_iff rest v.minor).1 parts.minor in ground (arith, a, i, parts.positive)

parse_api-IsApiText : (text : Bytes) (v : ApiVersion) → parse_api text ≡ some v → IsApiText text v
unfolding parse_api
parse_api-IsApiText text v h = elim (Option-cases (split_once (codes ".") text)) [
  | inl e ↦ absurd (let k = rw (e, parse_api) at h in cc)
  | inr (parts, e) ↦
      let read = api_of_parts_sound parts.0 parts.1 v (rw (e, parse_api) at h) in
      record {
        front = parts.0;
        rest = parts.1;
        joined = split_once-Joins (codes ".") text parts e;
        major = read.major;
        minor = read.minor;
        positive = read.positive;
      }
]

IsApiText-parse_api : (text : Bytes) (v : ApiVersion) → IsApiText text v → parse_api text ≡ some v
unfolding parse_api
IsApiText-parse_api text v i =
    let split : split_once (codes ".") text ≡ some (i.front, i.rest) =
      ap (split_once (codes ".")) i.joined ∙ split_once-digits i.front i.rest i.major.each in
    rw (split, parse_api)
      (api_of_parts_complete i.front i.rest v
        (record { major = i.major; minor = i.minor; positive = i.positive }))

-- A text is read as a version exactly if it is two numerals of 16-bit numbers with a dot between them,
-- the first one positive.
pub parse_api_iff : (text : Bytes) (v : ApiVersion) → (parse_api text ≡ some v) ↔ IsApiText text v
parse_api_iff text v = (parse_api-IsApiText text v, IsApiText-parse_api text v)
