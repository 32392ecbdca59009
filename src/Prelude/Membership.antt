-- ===== src/Prelude/Membership.antt =====
-- Membership and distinctness of list entries as types by recursion, and the tests that decide them.
use mathlib.Core.Path.{◌≡◌, refl, ap, sym, ◌∙◌}
use mathlib.Core.Logic.{◌↔◌, ◌⊎◌, inl, inr}
use mathlib.Core.Bool.{Bool, true}
use mathlib.Core.Option.{some}
use mathlib.Core.List.{List, [], ◌∷◌, ◌++◌, map}
use native.Mathlib.Omega.{arith}
use docker_lens.Prelude.Tests.{Bool-cases}
use docker_lens.Prelude.Lists.{all, any, find}
use docker_lens.Prelude.Equality.{Eq, ◌==◌, contains}

abbrev pub In : {A : Type 0} → A → List A → Type 0
In a [] = ⊥
In a (x ∷ xs) = (x ≡ a) ⊎ In a xs

abbrev pub All : {A : Type 0} → (A → Type 0) → List A → Type 0
All P [] = Unit
All P (x ∷ xs) = P x × All P xs

abbrev pub Distinct : {A : Type 0} → List A → Type 0
Distinct [] = Unit
Distinct (x ∷ xs) = (¬ In x xs) × Distinct xs

module _ {A : Type 0} where
  pub All-In : (P : A → Type 0) (a : A) (xs : List A) → All P xs → In a xs → P a
  All-In P a [] h m = absurd m
  All-In P a (x ∷ xs) h (inl e) = rw (← e) h.0
  All-In P a (x ∷ xs) h (inr m) = All-In P a xs h.1 m

  pub All-snoc : (P : A → Type 0) (xs : List A) (x : A) → All P xs → P x → All P (xs ++ x ∷ [])
  All-snoc P [] x h p = (p, tt)
  All-snoc P (y ∷ xs) x h p = (h.0, All-snoc P xs x h.1 p)

  pub all-true-In : (p : A → Bool) (a : A) (xs : List A) → all p xs ≡ true → In a xs → p a ≡ true
  all-true-In p a [] h m = absurd m
  all-true-In p a (x ∷ xs) h (inl e) = ground arith
  all-true-In p a (x ∷ xs) h (inr m) = all-true-In p a xs (ground arith) m

  pub all-true_of_In :
      (p : A → Bool) (xs : List A) → ((a : A) → In a xs → p a ≡ true) → all p xs ≡ true
  all-true_of_In p [] h = refl
  all-true_of_In p (x ∷ xs) h =
      ground (arith, h x (inl refl), all-true_of_In p xs (λ a m. h a (inr m)))

  pub any-In : (p : A → Bool) (xs : List A) → any p xs ≡ true → (a : A) × In a xs × (p a ≡ true)
  any-In p [] h = cc
  any-In p (x ∷ xs) h = elim (Bool-cases (p x)) [
    | inl e ↦ (x, inl refl, e)
    | inr e ↦ let (a, m, q) = any-In p xs (ground arith) in (a, inr m, q)
  ]

  pub any_of_In : (p : A → Bool) (a : A) (xs : List A) → In a xs → p a ≡ true → any p xs ≡ true
  any_of_In p a [] m h = absurd m
  any_of_In p a (x ∷ xs) (inl e) h = ground arith
  any_of_In p a (x ∷ xs) (inr m) h = ground (arith, any_of_In p a xs m h)

  pub find-In : (p : A → Bool) (a : A) (xs : List A) → find p xs ≡ some a → In a xs × (p a ≡ true)
  find-In p a [] h = cc
  find-In p a (x ∷ xs) h = elim (Bool-cases (p x)) [
    | inl e ↦ (inl (ground arith), ground arith)
    | inr e ↦ let (m, q) = find-In p a xs (ground arith) in (inr m, q)
  ]

  pub In-append_iff : (a : A) (xs ys : List A) → In a (xs ++ ys) ↔ (In a xs ⊎ In a ys)
  In-append_iff a [] ys = ((λ m. inr m), (λ m. elim m [ inl k ↦ absurd k | inr k ↦ k ]))
  In-append_iff a (x ∷ xs) ys =
      let rest = In-append_iff a xs ys in
      (
        (λ m. elim m [
          | inl same ↦ inl (inl same)
          | inr later ↦ elim (rest.0 later) [ inl k ↦ inl (inr k) | inr k ↦ inr k ]
        ]),
        (λ m. elim m [
          | inl k ↦ elim k [ inl same ↦ inl same | inr later ↦ inr (rest.1 (inl later)) ]
          | inr k ↦ inr (rest.1 (inr k))
        ]),
      )

  pub All_of_In : (P : A → Type 0) (xs : List A) → ((a : A) → In a xs → P a) → All P xs
  All_of_In P [] h = tt
  All_of_In P (x ∷ xs) h = (h x (inl refl), All_of_In P xs (λ a m. h a (inr m)))

  pub all_iff :
      (p : A → Bool) (P : A → Type 0) (xs : List A)
      → ((a : A) → (p a ≡ true) ↔ P a)
      → (all p xs ≡ true) ↔ All P xs
  all_iff p P [] h = ((λ e. tt), (λ u. refl))
  all_iff p P (x ∷ xs) h =
      let rest = all_iff p P xs h in
      (
        (λ e. ((h x).0 (ground arith), rest.0 (ground arith))),
        (λ (q, qs). let a = (h x).1 q in let b = rest.1 qs in ground arith),
      )

  -- an entry that passes the test, and no other with it, is found
  pub find_of_In :
      (p : A → Bool) (a : A) (xs : List A)
      → In a xs
      → p a ≡ true
      → ((b : A) → In b xs → p b ≡ true → b ≡ a)
      → find p xs ≡ some a
  find_of_In p a [] m h only = absurd m
  find_of_In p a (x ∷ xs) m h only = elim (Bool-cases (p x)) [
    | inl here ↦ rw here (ap some (only x (inl refl) here))
    | inr other ↦ rw other (
        find_of_In p a xs
          (elim m [ inl same ↦ let clash = ap p same in absurd (ground arith) | inr later ↦ later ])
          h (λ b k. only b (inr k)))
  ]

module _ {A B : Type 0} (f : A → B) where
  pub In-map : (a : A) (xs : List A) → In a xs → In (f a) (map f xs)
  In-map a [] m = absurd m
  In-map a (x ∷ xs) (inl same) = inl (ap f same)
  In-map a (x ∷ xs) (inr m) = inr (In-map a xs m)

  pub In-map_origin : (b : B) (xs : List A) → In b (map f xs) → (a : A) × In a xs × (f a ≡ b)
  In-map_origin b [] m = absurd m
  In-map_origin b (x ∷ xs) (inl same) = (x, inl refl, same)
  In-map_origin b (x ∷ xs) (inr m) = let (a, k, e) = In-map_origin b xs m in (a, inr k, e)

  pub All_map : (P : B → Type 0) (xs : List A) → ((a : A) → In a xs → P (f a)) → All P (map f xs)
  All_map P [] h = tt
  All_map P (x ∷ xs) h = (h x (inl refl), All_map P xs (λ a m. h a (inr m)))

  -- entries of distinct images are the same if their images are
  pub map_injective :
      (a b : A) (xs : List A) → Distinct (map f xs) → In a xs → In b xs → f a ≡ f b → a ≡ b
  map_injective a b [] d m n e = absurd m
  map_injective a b (x ∷ xs) d (inl p) (inl q) e = sym p ∙ q
  map_injective a b (x ∷ xs) d (inl p) (inr q) e = absurd (d.0 (rw (p, e) (In-map b xs q)))
  map_injective a b (x ∷ xs) d (inr p) (inl q) e = absurd (d.0 (rw (q, ← e) (In-map a xs p)))
  map_injective a b (x ∷ xs) d (inr p) (inr q) e = map_injective a b xs d.1 p q e

module _ {A : Type 0} ⦃e : Eq A⦄ where
  pub contains→In : (a : A) (xs : List A) → contains xs a ≡ true → In a xs
  contains→In a [] h = cc
  contains→In a (x ∷ xs) h = elim (Bool-cases (x == a)) [
    | inl same ↦ inl ((e.beq_iff x a).0 same)
    | inr other ↦ inr (contains→In a xs (ground arith))
  ]

  pub In→contains : (a : A) (xs : List A) → In a xs → contains xs a ≡ true
  In→contains a [] m = absurd m
  In→contains a (x ∷ xs) (inl same) = ground (arith, e.beq_iff x a)
  In→contains a (x ∷ xs) (inr m) = ground (arith, In→contains a xs m)
