-- ===== src/Prelude/Words.antt =====
-- `usize` and `u64`, both of 64 bits: numbers below `word`, with the checked and the saturating sum.
use Prim.Native.Nat.{ℕ, ◌+◌, ◌-◌, ◌^◌}
use mathlib.Core.Option.{Option, none, some}
use docker_lens.Prelude.Tests.{ltb, if◌then◌else◌}

abbrev pub word : ℕ
word = 2 ^ 64

-- `usize::MAX`
abbrev pub word_max : ℕ
word_max = word - 1

abbrev pub checked_add : ℕ → ℕ → Option ℕ
checked_add a b = if ltb (a + b) word then some (a + b) else none

abbrev pub saturating_add : ℕ → ℕ → ℕ
saturating_add a b = if ltb (a + b) word then a + b else word_max
