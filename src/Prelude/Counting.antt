-- ===== src/Prelude/Counting.antt =====
-- Counting the entries of a list that pass a test, and the pieces between separators.
use Prim.Native.Nat.{ℕ, ◌+◌}
use mathlib.Core.Bool.{Bool}
use mathlib.Core.Option.{Option, none, some}
use mathlib.Core.List.{List, [], ◌∷◌}
use docker_lens.Prelude.Tests.{if◌then◌else◌, nat_beq}
use docker_lens.Prelude.Text.{Bytes}

module _ {A : Type 0} where
  abbrev pub count : (A → Bool) → List A → ℕ
  count p [] = 0
  count p (x ∷ xs) = (if p x then 1 else 0) + count p xs

  -- the first value that a partial function takes along the list
  abbrev pub find_map : {B : Type 0} → (A → Option B) → List A → Option B
  find_map f [] = none
  find_map f (x ∷ xs) = let rest = find_map f xs in elim (f x) [ none ↦ rest | some b ↦ some b ]

prepend : ℕ → List Bytes → List Bytes
prepend b [] = (b ∷ []) ∷ []
prepend b (piece ∷ pieces) = (b ∷ piece) ∷ pieces

-- `split(|byte| byte == mark)`: the pieces between the marks, at least one
unfoldable pub split_on : ℕ → Bytes → List Bytes
unfolding prepend
split_on mark [] = [] ∷ []
split_on mark (b ∷ text) =
    let rest = split_on mark text in if nat_beq b mark then [] ∷ rest else prepend b rest
