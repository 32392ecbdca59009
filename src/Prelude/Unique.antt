-- ===== src/Prelude/Unique.antt =====
-- A loop that inserts keys into a `HashSet` and stops at the first that is there already.
use mathlib.Core.Path.{◌≡◌, refl}
use mathlib.Core.Logic.{◌↔◌, inl, inr}
use mathlib.Core.Bool.{Bool, true, false, not, ◌&&◌}
use mathlib.Core.List.{List, [], ◌∷◌}
use native.Mathlib.Omega.{arith}
use docker_lens.Prelude.Tests.{Bool-cases}
use docker_lens.Prelude.Equality.{Eq, contains}
use docker_lens.Prelude.Membership.{In, Distinct, contains→In, In→contains}

module _ {K : Type 0} ⦃e : Eq K⦄ where
  -- `keys.all(|key| seen.insert(key))`
  unfoldable pub all_inserted : List K → List K → Bool
  all_inserted seen [] = true
  all_inserted seen (k ∷ keys) = not (contains seen k) && all_inserted (k ∷ seen) keys

  -- no key of `ys` is in `xs`
  abbrev pub Apart : List K → List K → Type 0
  Apart xs ys = (k : K) → In k xs → ¬ In k ys

  pub all_inserted_sound :
      (seen keys : List K) → all_inserted seen keys ≡ true → Distinct keys × Apart seen keys
  unfolding all_inserted
  all_inserted_sound seen [] h = (tt, λ k m n. n)
  all_inserted_sound seen (k ∷ keys) h =
      let fresh : contains seen k ≡ false = ground arith in
      let (d, a) = all_inserted_sound (k ∷ seen) keys (ground arith) in
      (
        (a k (inl refl), d),
        λ j m n. elim n [
          | inl same ↦ let found = In→contains k seen (rw same m) in cc
          | inr later ↦ a j (inr m) later
        ],
      )

  all_inserted_complete :
      (seen keys : List K) → Distinct keys → Apart seen keys → all_inserted seen keys ≡ true
  unfolding all_inserted
  all_inserted_complete seen [] d a = refl
  all_inserted_complete seen (k ∷ keys) d a = elim (Bool-cases (contains seen k)) [
    | inl old ↦ absurd (a k (contains→In k seen old) (inl refl))
    | inr new ↦
        let rest =
          all_inserted_complete (k ∷ seen) keys d.1
            (λ j m n. elim m [ inl same ↦ d.0 (rw same n) | inr earlier ↦ a j earlier (inr n) ]) in
        ground arith
  ]

  -- The keys are all inserted exactly if they are distinct.
  pub all_inserted_iff : (keys : List K) → (all_inserted [] keys ≡ true) ↔ Distinct keys
  all_inserted_iff keys =
      ((λ h. (all_inserted_sound [] keys h).0), (λ d. all_inserted_complete [] keys d (λ k m n. m)))
