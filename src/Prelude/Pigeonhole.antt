-- ===== src/Prelude/Pigeonhole.antt =====
-- Distinct entries of a list are no more than the list has.
use Prim.Native.Nat.{suc, ◌≤◌}
use mathlib.Core.Path.{◌≡◌, refl, sym, ◌∙◌}
use mathlib.Core.Logic.{◌⊎◌, inl, inr}
use mathlib.Core.List.{List, [], ◌∷◌}
use native.Mathlib.Omega.{arith}
use docker_lens.Prelude.Tests.{Bool-cases}
use docker_lens.Prelude.Lists.{length}
use docker_lens.Prelude.Equality.{Eq, contains}
use docker_lens.Prelude.Membership.{In, Distinct, contains→In, In→contains}

module _ {A : Type 0} where
  remove_one :
      (a : A) (ys : List A)
      → In a ys
      → (zs : List A) × (length ys ≡ suc (length zs)) × ((b : A) → In b ys → (b ≡ a) ⊎ In b zs)
  remove_one a [] m = absurd m
  remove_one a (y ∷ ys) (inl same) =
      (ys, refl, λ b m. elim m [ inl e ↦ inl (sym e ∙ same) | inr later ↦ inr later ])
  remove_one a (y ∷ ys) (inr m) =
      let (zs, size, other) = remove_one a ys m in
      (
        y ∷ zs,
        omega (arith, size),
        λ b k. elim k [
          | inl e ↦ inr (inl e)
          | inr later ↦ elim (other b later) [ inl e ↦ inl e | inr kept ↦ inr (inr kept) ]
        ],
      )

  pub length-Distinct :
      (xs ys : List A) → Distinct xs → ((a : A) → In a xs → In a ys) → length xs ≤ length ys
  length-Distinct [] ys d within = omega arith
  length-Distinct (x ∷ xs) ys d within =
      let (zs, size, other) = remove_one x ys (within x (inl refl)) in
      let rest = length-Distinct xs zs d.1 (λ a m. elim (other a (within a (inr m))) [
        | inl same ↦ absurd (d.0 (rw (← same) m))
        | inr kept ↦ kept
      ]) in
      omega (arith, size, rest)

module _ {A : Type 0} ⦃e : Eq A⦄ where
  -- distinct entries that are as many as the list has are all of them
  pub all_of_Distinct :
      (xs ys : List A)
      → Distinct xs
      → ((a : A) → In a xs → In a ys)
      → length ys ≤ length xs
      → (a : A) → In a ys
      → In a xs
  all_of_Distinct xs ys d within size a m = elim (Bool-cases (contains xs a)) [
    | inl found ↦ contains→In a xs found
    | inr missing ↦
        let more =
          length-Distinct (a ∷ xs) ys ((λ k. let found = In→contains a xs k in cc), d)
            (λ b k. elim k [ inl same ↦ rw (← same) m | inr old ↦ within b old ]) in
        absurd (omega (arith, more, size))
  ]
