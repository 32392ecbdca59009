-- ===== src/Prelude/Outcome.antt =====
-- `Result<T, E>`, with `?` as the bind of a `do` block.
use mathlib.Core.Path.{◌≡◌, refl, ap}
use mathlib.Core.Bool.{Bool, true, false}
use mathlib.Core.Logic.{◌↔◌}
use mathlib.Core.Option.{Option, none, some}

pub data Result {ℓ κ} (E : Type κ) (A : Type ℓ) : Type (ℓ ⊔ κ) where
  ok : A → Result E A
  err : E → Result E A

infixl 5 ◌>>=◌ ◌>>◌
abbrev pub ◌>>=◌ {ℓ κ μ} :
    {E : Type μ} {A : Type ℓ} {B : Type κ} → Result E A → (A → Result E B) → Result E B
ok a >>= f = f a
err e >>= f = err e

abbrev pub ◌>>◌ {ℓ μ} : {E : Type μ} {B : Type ℓ} → Result E (Unit {0}) → Result E B → Result E B
m >> k = m >>= λ _. k

-- `if condition { return Err(e) }`
abbrev pub reject_if {μ} : {E : Type μ} → Bool → E → Result E (Unit {0})
reject_if true e = err e
reject_if false e = ok tt

-- `ok_or`
abbrev pub ok_or {ℓ μ} : {E : Type μ} {A : Type ℓ} → Option A → E → Result E A
ok_or none e = err e
ok_or (some a) e = ok a

-- `map_err(|_| e)`
abbrev pub map_err {ℓ μ ν} : {E : Type μ} {F : Type ν} {A : Type ℓ} → Result E A → F → Result F A
map_err (ok a) f = ok a
map_err (err e) f = err f

-- Inversion and introduction of the steps of a block, for proofs where the parts stay shut.
module _ {E A B : Type 0} where
  pub >>=-eq-ok :
      (first : Result E A) (next : A → Result E B) {out : B}
      → (first >>= next) ≡ ok out
      → (a : A) × (first ≡ ok a) × (next a ≡ ok out)
  >>=-eq-ok (ok value) next done = (value, refl, done)
  >>=-eq-ok (err e) next done = cc

-- Guards and steps in front of a block, as the block's success reads them.
module _ {E B : Type 0} where
  pub reject_if_iff :
      (b : Bool) (e : E) (next : Result E B) (out : B)
      → ((reject_if b e >> next) ≡ ok out) ↔ ((b ≡ false) × (next ≡ ok out))
  reject_if_iff true e next out = ((λ h. cc), (λ h. cc))
  reject_if_iff false e next out = ((λ h. (refl, h)), (λ h. h.1))

  pub >>_iff :
      (first : Result E (Unit {0})) (next : Result E B) (out : B)
      → ((first >> next) ≡ ok out) ↔ ((first ≡ ok tt) × (next ≡ ok out))
  >>_iff (ok tt) next out = ((λ h. (refl, h)), (λ h. h.1))
  >>_iff (err e) next out = ((λ h. cc), (λ h. cc))

pub reject_if-ok_iff : {E : Type 0} (b : Bool) (e : E) → (reject_if b e ≡ ok tt) ↔ (b ≡ false)
reject_if-ok_iff true e = ((λ h. cc), (λ h. cc))
reject_if-ok_iff false e = ((λ h. refl), (λ h. refl))

pub ok-eq_ok : {E A : Type 0} {a b : A} → (◌≡◌ {A = Result E A} (ok a) (ok b)) → a ≡ b
ok-eq_ok h = cc

pub ok_or-eq_ok : {E A : Type 0} (o : Option A) (e : E) (a : A) → ok_or o e ≡ ok a → o ≡ some a
ok_or-eq_ok none e a h = cc
ok_or-eq_ok (some b) e a h = ap some (ok-eq_ok h)
