-- ===== src/Prelude/Split.antt =====
-- What `strip_prefix` and `split_once` of a text leave.
use mathlib.Core.Path.{◌≡◌, refl, ◌∙◌, ap, subst}
use mathlib.Core.Logic.{inl, inr}
use mathlib.Core.Option.{some}
use mathlib.Core.List.{[], ◌∷◌, ◌++◌}
use native.Mathlib.Omega.{arith}
use docker_lens.Prelude.Tests.{nat_beq, Bool-cases, Option-cases, some-eq_some}
use docker_lens.Prelude.Text.{Bytes, strip_prefix, split_once}

pub strip_prefix-append : (p text : Bytes) → strip_prefix p (p ++ text) ≡ some text
strip_prefix-append [] text = refl
strip_prefix-append (b ∷ p) text = let rest = strip_prefix-append p text in ground (arith, rest)

pub append-strip_prefix : (p text rest : Bytes) → strip_prefix p text ≡ some rest → text ≡ p ++ rest
append-strip_prefix [] text rest h = some-eq_some h
append-strip_prefix (b ∷ p) [] rest h = cc
append-strip_prefix (b ∷ p) (c ∷ text) rest h = elim (Bool-cases (nat_beq b c)) [
  | inl e ↦
      let below = append-strip_prefix p text rest (rw e at h) in
      let same : c ≡ b = ground arith in ap (λ x. x ∷ text) same ∙ ap (λ xs. b ∷ xs) below
  | inr e ↦ absurd (ground arith)
]

-- The parts that a split returns join to the text.
abbrev pub Joins : Bytes → Bytes → Bytes × Bytes → Type 0
Joins mark text parts = text ≡ parts.0 ++ (mark ++ parts.1)

split_once-nil :
    (mark text rest : Bytes) → strip_prefix mark text ≡ some rest → Joins mark text ([], rest)
split_once-nil mark text rest h = append-strip_prefix mark text rest h

pub split_once-Joins :
    (mark text : Bytes) (parts : Bytes × Bytes)
    → split_once mark text ≡ some parts
    → Joins mark text parts
split_once-Joins mark [] parts h = elim (Option-cases (strip_prefix mark [])) [
  | inl e ↦ absurd (let k = rw (e, split_once) at h in cc)
  | inr (r, e) ↦
      let same : (◌≡◌ {A = Bytes × Bytes} ([], r) parts) = some-eq_some (rw (e, split_once) at h) in
      subst (Joins mark []) same (split_once-nil mark [] r e)
]
split_once-Joins mark (c ∷ text) parts h = elim (Option-cases (strip_prefix mark (c ∷ text))) [
  | inl e ↦ elim (Option-cases (split_once mark text)) [
    | inl f ↦ absurd (let k = rw (e, f, split_once) at h in cc)
    | inr (p, f) ↦
        let below = split_once-Joins mark text p f in
        let same : (◌≡◌ {A = Bytes × Bytes} (c ∷ p.0, p.1) parts) =
          some-eq_some (rw (e, f, split_once) at h) in
        subst (Joins mark (c ∷ text)) same (ap (λ xs. c ∷ xs) below)
  ]
  | inr (r, e) ↦
      let same : (◌≡◌ {A = Bytes × Bytes} ([], r) parts) = some-eq_some (rw (e, split_once) at h) in
      subst (Joins mark (c ∷ text)) same (split_once-nil mark (c ∷ text) r e)
]
