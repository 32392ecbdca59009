-- ===== src/Prelude/Assoc.antt =====
-- `HashMap` as an association list: `get`, and `entry(key).or_insert(value)`.
use mathlib.Core.Path.{◌≡◌}
use mathlib.Core.Logic.{◌↔◌, ◌⊎◌}
use mathlib.Core.Option.{Option, none, some}
use mathlib.Core.List.{List, [], ◌∷◌}
use native.Mathlib.Omega.{arith}
use docker_lens.Prelude.Tests.{if◌then◌else◌}
use docker_lens.Prelude.Equality.{Eq, ◌==◌}

module _ {K V : Type 0} ⦃e : Eq K⦄ where
  unfoldable pub lookup : K → List (K × V) → Option V
  lookup k [] = none
  lookup k ((j, v) ∷ m) = if j == k then some v else lookup k m

  unfoldable pub or_insert : K → V → List (K × V) → List (K × V)
  or_insert k v m = elim (lookup k m) [ none ↦ (k, v) ∷ m | some w ↦ m ]

  -- a registered key keeps its value
  pub lookup-or_insert :
      (k j : K) (v : V) (m : List (K × V))
      → lookup j (or_insert k v m)
        ≡ elim (lookup j m) [ none ↦ (if k == j then some v else none) | some w ↦ some w ]
  unfolding or_insert lookup
  lookup-or_insert k j v m = ground (arith, e.beq_iff k j)

-- Two maps that are each other's inverse.
abbrev pub IsInverse : {K V : Type 0} ⦃e : Eq K⦄ ⦃f : Eq V⦄ → List (K × V) → List (V × K) → Type 0
IsInverse {K} {V} forth back =
    (k : K) (v : V) → (lookup k forth ≡ some v) ↔ (lookup v back ≡ some k)

module _ {K V : Type 0} ⦃e : Eq K⦄ ⦃f : Eq V⦄ where
  half_inverse :
      (forth : List (K × V)) (back : List (V × K)) (k j : K) (v w : V)
      → (lookup v back ≡ none) ⊎ (lookup v back ≡ some k)
      → (lookup j forth ≡ some w → lookup w back ≡ some j)
      → lookup j (or_insert k v forth) ≡ some w
      → lookup w (or_insert v k back) ≡ some j
  half_inverse forth back k j v w free inverse h =
      rw lookup-or_insert
        (ground (arith, lookup-or_insert k j v forth, e.beq_iff k j, f.beq_iff v w))

module _ {K V : Type 0} ⦃e : Eq K⦄ ⦃f : Eq V⦄ where
  -- Registering a pair of which neither part stands elsewhere keeps the maps inverse.
  pub or_insert-IsInverse :
      (forth : List (K × V)) (back : List (V × K)) (k : K) (v : V)
      → (lookup k forth ≡ none) ⊎ (lookup k forth ≡ some v)
      → (lookup v back ≡ none) ⊎ (lookup v back ≡ some k)
      → IsInverse forth back
      → IsInverse (or_insert k v forth) (or_insert v k back)
  or_insert-IsInverse forth back k v free_k free_v inverse j w = (
    half_inverse forth back k j v w free_v (inverse j w).0,
    half_inverse back forth v w k j free_k (inverse j w).1,
  )
