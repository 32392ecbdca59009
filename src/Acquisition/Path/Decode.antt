-- ===== src/Acquisition/Path/Decode.antt =====
-- Percent decoding, as the other side of `encode_segment` of src/acquisition.rs.
use docker_lens.Prelude.{
  ℕ, ◌+◌, ◌-◌, ◌*◌, ◌/◌, ◌%◌, ◌≤◌, ◌<◌, ◌≡◌, ◌↔◌, refl, ap, ◌∙◌, inl, inr, subst, true, false, [],
  ◌∷◌, ◌++◌, arith, ltb, length, ◌==◌, nat_eq, if◌then◌else◌, Bytes, ok, All, Bool-cases,
}
use docker_lens.Acquisition.Path.{
  is_unreserved, hex_digit, encode_byte, encode, encode_segment, max_segment_bytes,
}
use docker_lens.Acquisition.Path.Safe.{IsByte}

abbrev pub hex_value : ℕ → ℕ
hex_value d = if ltb d b'A' then d - b'0' else d - b'A' + 10

-- A percent sign and two hexadecimal digits stand for a byte, any other byte for itself.
unfoldable pub decode : Bytes → Bytes
decode [] = []
decode (b ∷ []) = b ∷ []
decode (b ∷ h ∷ []) = b ∷ h ∷ []
decode (b ∷ h ∷ l ∷ text) = elim (b == b'%') [
  | true ↦ (hex_value h * 16 + hex_value l) ∷ decode text
  | false ↦ b ∷ decode (h ∷ l ∷ text)
]

decode-plain : (b : ℕ) (text : Bytes) → (b == b'%') ≡ false → decode (b ∷ text) ≡ b ∷ decode text
unfolding decode
decode-plain b [] e = refl
decode-plain b (h ∷ []) e = refl
decode-plain b (h ∷ l ∷ text) e = rw (e, decode) refl

hex_value-hex_digit : (n : ℕ) → n < 16 → hex_value (hex_digit n) ≡ n
hex_value-hex_digit n h = ground arith

decode-encode_byte :
    (b : ℕ) (text : Bytes) → IsByte b → decode (encode_byte b ++ text) ≡ b ∷ decode text
unfolding decode
decode-encode_byte b text h = elim (Bool-cases (is_unreserved b)) [
  | inl e ↦ let plain : (b == b'%') ≡ false = ground arith in rw e (decode-plain b text plain)
  | inr e ↦
      let whole : b / 16 * 16 + b % 16 ≡ b = omega arith in
      rw (e, hex_value-hex_digit (b / 16) (omega arith), hex_value-hex_digit (b % 16) (omega arith))
        (ap (λ x. x ∷ decode text) whole)
]

-- An encoded identifier is decoded to its bytes.
pub decode-encode : (id : Bytes) → All IsByte id → decode (encode id) ≡ id
unfolding decode
decode-encode [] h = refl
decode-encode (b ∷ id) h =
    decode-encode_byte b (encode id) h.0 ∙ ap (λ rest. b ∷ rest) (decode-encode id h.1)

-- An identifier, of bytes, is accepted exactly up to a length of 1024, and its segment is decoded to
-- its bytes.
pub encode_segment_iff :
    (id : Bytes)
    → All IsByte id
    → ((out : Bytes) → encode_segment id ≡ ok out → decode out ≡ id)
      × ((length id ≤ max_segment_bytes) ↔ ((out : Bytes) × (encode_segment id ≡ ok out)))
unfolding encode_segment
encode_segment_iff id h = (
  (λ out e. subst (λ x. decode x ≡ id) (ground arith) (decode-encode id h)),
  ((λ l. (encode id, ground arith)), (λ s. ground arith)),
)
