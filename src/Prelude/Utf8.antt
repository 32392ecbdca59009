-- ===== src/Prelude/Utf8.antt =====
-- `str::from_utf8` and `chars`: the code points of bytes that are well-formed UTF-8.
use Prim.Native.Nat.{ℕ, ◌+◌, ◌-◌, ◌*◌}
use mathlib.Core.Bool.{Bool, true, false, ◌&&◌, ◌||◌}
use mathlib.Core.Option.{Option, none, some}
use mathlib.Core.List.{List, [], ◌∷◌}
use docker_lens.Prelude.Tests.{ltb, leb, nat_beq, if◌then◌else◌}
use docker_lens.Prelude.Text.{Bytes}

abbrev is_continuation : ℕ → Bool
is_continuation b = leb 128 b && ltb b 192

abbrev between : ℕ → ℕ → ℕ → Bool
between low high b = leb low b && leb b high

-- The second byte rules out overlong forms, surrogates and code points above 0x10ffff.
abbrev second_of_three : ℕ → ℕ → Bool
second_of_three a b =
    if nat_beq a 224
    then between 160 191 b
    else if nat_beq a 237
    then between 128 159 b
    else is_continuation b

abbrev second_of_four : ℕ → ℕ → Bool
second_of_four a b =
    if nat_beq a 240
    then between 144 191 b
    else if nat_beq a 244
    then between 128 143 b
    else is_continuation b

abbrev follow : ℕ → Option (List ℕ) → Option (List ℕ)
follow c none = none
follow c (some chars) = some (c ∷ chars)

abbrev one_byte : ℕ → Option (List ℕ) → Option (List ℕ)
one_byte a rest = if ltb a 128 then follow a rest else none

abbrev two_bytes : ℕ → ℕ → Option (List ℕ) → Option (List ℕ)
two_bytes a b rest =
    if between 194 223 a && is_continuation b
    then follow ((a - 192) * 64 + (b - 128)) rest
    else none

abbrev three_bytes : ℕ → ℕ → ℕ → Option (List ℕ) → Option (List ℕ)
three_bytes a b c rest =
    if between 224 239 a && second_of_three a b && is_continuation c
    then follow ((a - 224) * 4096 + (b - 128) * 64 + (c - 128)) rest
    else none

abbrev four_bytes : ℕ → ℕ → ℕ → ℕ → Option (List ℕ) → Option (List ℕ)
four_bytes a b c d rest =
    if between 240 244 a && second_of_four a b && is_continuation c && is_continuation d
    then follow ((a - 240) * 262144 + (b - 128) * 4096 + (c - 128) * 64 + (d - 128)) rest
    else none

-- At most one of the forms takes a first byte.
abbrev or_else : Option (List ℕ) → Option (List ℕ) → Option (List ℕ)
or_else none other = other
or_else (some chars) other = some chars

unfoldable pub from_utf8 : Bytes → Option (List ℕ)
from_utf8 [] = some []
from_utf8 (a ∷ []) = one_byte a (some [])
from_utf8 (a ∷ b ∷ []) = or_else (one_byte a (from_utf8 (b ∷ []))) (two_bytes a b (some []))
from_utf8 (a ∷ b ∷ c ∷ []) =
    or_else (one_byte a (from_utf8 (b ∷ c ∷ [])))
      (or_else (two_bytes a b (from_utf8 (c ∷ []))) (three_bytes a b c (some [])))
from_utf8 (a ∷ b ∷ c ∷ d ∷ text) = or_else (one_byte a (from_utf8 (b ∷ c ∷ d ∷ text))) (
    or_else (two_bytes a b (from_utf8 (c ∷ d ∷ text)))
      (or_else (three_bytes a b c (from_utf8 (d ∷ text))) (four_bytes a b c d (from_utf8 text))))

unfoldable pub is_utf8 : Bytes → Bool
is_utf8 bytes = elim (from_utf8 bytes) [ none ↦ false | some chars ↦ true ]

-- `char::is_whitespace`, the Unicode property `White_Space`
abbrev pub is_whitespace : ℕ → Bool
is_whitespace c =
    between 9 13 c
    || nat_beq c 32
    || nat_beq c 133
    || nat_beq c 160
    || nat_beq c 5760
    || between 8192 8202 c
    || nat_beq c 8232
    || nat_beq c 8233
    || nat_beq c 8239
    || nat_beq c 8287
    || nat_beq c 12288
