-- ===== src/Prelude/Text.antt =====
-- Bytes and texts. A Rust `String` is its UTF-8 bytes; a literal of the source is written `codes "…"`
-- and holds ASCII only.
use Prim.Native.Nat.{ℕ, ◌+◌}
use Prim.Native.Char.{code}
use Prim.Native.String.{String}
use mathlib.Core.Bool.{Bool, ◌&&◌, ◌||◌}
use mathlib.Core.Option.{Option, none, some}
use mathlib.Core.List.{List, [], ◌∷◌}
use docker_lens.Prelude.Tests.{ltb, leb, nat_beq, if◌then◌else◌}

abbrev pub Bytes : Type 0
Bytes = List ℕ

abbrev pub codes : String → Bytes
codes String.[] = []
codes (String.◌∷◌ c s) = code c ∷ codes s

-- `u8::is_ascii_digit`, `is_ascii_alphanumeric`, `is_ascii_hexdigit`, `is_ascii_whitespace`,
-- `is_ascii_control`
abbrev pub is_ascii_digit : ℕ → Bool
is_ascii_digit b = leb b'0' b && leb b b'9'

abbrev pub is_ascii_uppercase : ℕ → Bool
is_ascii_uppercase b = leb b'A' b && leb b b'Z'

abbrev pub is_ascii_lowercase : ℕ → Bool
is_ascii_lowercase b = leb b'a' b && leb b b'z'

abbrev pub is_ascii_alphanumeric : ℕ → Bool
is_ascii_alphanumeric b = is_ascii_digit b || is_ascii_uppercase b || is_ascii_lowercase b

abbrev pub is_ascii_hexdigit : ℕ → Bool
is_ascii_hexdigit b = is_ascii_digit b || (leb b'A' b && leb b b'F') || (leb b'a' b && leb b b'f')

abbrev pub is_ascii_whitespace : ℕ → Bool
is_ascii_whitespace b = nat_beq b 32 || nat_beq b 9 || nat_beq b 10 || nat_beq b 12 || nat_beq b 13

abbrev pub is_ascii_control : ℕ → Bool
is_ascii_control b = ltb b 32 || nat_beq b 127

abbrev pub to_ascii_lowercase : ℕ → ℕ
to_ascii_lowercase b = if is_ascii_uppercase b then b + 32 else b

-- `str::strip_prefix`
abbrev pub strip_prefix : Bytes → Bytes → Option Bytes
strip_prefix [] text = some text
strip_prefix (p ∷ ps) [] = none
strip_prefix (p ∷ ps) (b ∷ text) =
    let rest = strip_prefix ps text in if nat_beq p b then rest else none

-- `str::split_once`: the parts before and behind the first occurrence
abbrev pub split_once : Bytes → Bytes → Option (Bytes × Bytes)
split_once mark [] = elim (strip_prefix mark []) [ none ↦ none | some rest ↦ some ([], rest) ]
split_once mark (b ∷ text) =
    let later = split_once mark text in
    elim (strip_prefix mark (b ∷ text)) [
      | none ↦ elim later [ none ↦ none | some (front, rest) ↦ some (b ∷ front, rest) ]
      | some rest ↦ some ([], rest)
    ]
