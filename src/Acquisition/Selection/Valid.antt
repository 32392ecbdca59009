-- ===== src/Acquisition/Selection/Valid.antt =====
-- The identifiers and names that `valid_exact_container_id`, `valid_literal_name` and
-- `valid_volume_name` of src/acquisition.rs accept, byte by byte.
use docker_lens.Prelude.{
  ℕ, ◌≤◌, ◌≡◌, ◌↔◌, ◌⊎◌, inl, inr, true, [], ◌∷◌, arith, length, all, All, all_iff, ◌==◌, nat_eq,
  Bool-cases, Bytes, is_ascii_hexdigit,
}
use docker_lens.Acquisition.Selection.{
  valid_exact_container_id, is_name_byte, is_plain_name, valid_literal_name, valid_volume_name,
}

abbrev pub IsBetween : ℕ → ℕ → ℕ → Type 0
IsBetween low high b = (low ≤ b) × (b ≤ high)

-- a digit or a letter
abbrev pub IsAlphanumeric : ℕ → Type 0
IsAlphanumeric b = IsBetween 48 57 b ⊎ IsBetween 65 90 b ⊎ IsBetween 97 122 b

-- a digit, a letter, a hyphen, a dot or an underscore
abbrev pub IsNameByte : ℕ → Type 0
IsNameByte b = IsAlphanumeric b ⊎ (b ≡ 45) ⊎ (b ≡ 46) ⊎ (b ≡ 95)

abbrev pub IsHexByte : ℕ → Type 0
IsHexByte b = IsBetween 48 57 b ⊎ IsBetween 65 70 b ⊎ IsBetween 97 102 b

-- 64 hexadecimal digits
abbrev pub IsId : Bytes → Type 0
IsId id = (length id ≡ 64) × All IsHexByte id

-- at most 255 bytes of a name, the first one a digit or a letter
abbrev pub IsPlainName : Bytes → Type 0
IsPlainName [] = ⊥
IsPlainName (b ∷ name) = (length (b ∷ name) ≤ 255) × IsAlphanumeric b × All IsNameByte name

-- such a name, perhaps behind one slash
abbrev pub IsName : Bytes → Type 0
IsName [] = ⊥
IsName (b ∷ name) = IsPlainName (b ∷ name) ⊎ ((b ≡ 47) × IsPlainName name)

pub valid_exact_container_id_iff : (id : Bytes) → (valid_exact_container_id id ≡ true) ↔ IsId id
unfolding valid_exact_container_id
valid_exact_container_id_iff id =
    let digits = all_iff is_ascii_hexdigit IsHexByte id (λ b. ground arith) in
    (
      (λ h. (ground arith, digits.0 (ground arith))),
      (λ (size, each). let h = digits.1 each in ground (arith, size, h)),
    )

is_name_byte_iff : (name : Bytes) → (all is_name_byte name ≡ true) ↔ All IsNameByte name
is_name_byte_iff name = all_iff is_name_byte IsNameByte name (λ b. ground arith)

is_plain_name_iff : (name : Bytes) → (is_plain_name name ≡ true) ↔ IsPlainName name
is_plain_name_iff [] = ((λ h. cc), (λ h. absurd h))
is_plain_name_iff (b ∷ name) =
    let each = is_name_byte_iff name in
    (
      (λ h. (ground arith, ground arith, each.0 (ground arith))),
      (λ (size, first, rest). let h = each.1 rest in ground (arith, size, first, h)),
    )

pub valid_literal_name_iff : (name : Bytes) → (valid_literal_name name ≡ true) ↔ IsName name
unfolding valid_literal_name
valid_literal_name_iff [] = ((λ h. cc), (λ h. absurd h))
valid_literal_name_iff (b ∷ name) =
    let behind = is_plain_name_iff name in
    let whole = is_plain_name_iff (b ∷ name) in
    elim (Bool-cases (b == b'/')) [
      | inl slash ↦ rw slash (
        (λ h. inr (ground arith, behind.0 h)),
        (λ h. elim h [
          | inl plain ↦ absurd (ground (arith, plain))
          | inr (e, plain) ↦ behind.1 plain
        ]),
      )
      | inr other ↦ rw other (
        (λ h. inl (whole.0 h)),
        (λ h. elim h [ inl plain ↦ whole.1 plain | inr (e, plain) ↦ absurd (ground (arith, e)) ]),
      )
    ]

pub valid_volume_name_iff : (name : Bytes) → (valid_volume_name name ≡ true) ↔ IsPlainName name
unfolding valid_volume_name valid_literal_name
valid_volume_name_iff [] = ((λ h. cc), (λ h. absurd h))
valid_volume_name_iff (b ∷ name) =
    let whole = is_plain_name_iff (b ∷ name) in
    elim (Bool-cases (b == b'/')) [
      | inl slash ↦
          ((λ h. absurd (ground (arith, slash))), (λ plain. absurd (ground (arith, plain, slash))))
      | inr other ↦ rw other (whole.0, whole.1)
    ]
