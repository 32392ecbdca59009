-- ===== src/Decoder/MountMode/Meaning.antt =====
-- What a native mode means, without the loop of src/decoder_mount_mode.rs: the tests on its tokens
-- taken one by one.
use docker_lens.Prelude.{
  ℕ, suc, ◌+◌, ◌≤◌, ◌<◌, ◌≡◌, sym, ap, ◌∙◌, ◌↔◌, inl, inr, Bool, true, false, ◌||◌, Option, none,
  some, List, [], ◌∷◌, map, arith, length, any, count, find_map, Bytes, All, some-eq_some,
  Option-cases,
}
use docker_lens.Observation.{BindRelabel}
use docker_lens.Decoder.MountMode.{
  MountAccess, max_mode_tokens, ModeToken, classify, ModeState, apply, is_empty, scan,
}

abbrev pub access_of : ModeToken → Option MountAccess
access_of (ModeToken.access a) = some a
access_of _ = none

abbrev pub relabel_of : ModeToken → Option BindRelabel
relabel_of (ModeToken.relabel r) = some r
relabel_of _ = none

abbrev pub sets_access : ModeToken → Bool
sets_access (ModeToken.access a) = true
sets_access _ = false

abbrev pub sets_relabel : ModeToken → Bool
sets_relabel (ModeToken.relabel r) = true
sets_relabel _ = false

abbrev pub sets_propagation : ModeToken → Bool
sets_propagation ModeToken.propagation = true
sets_propagation _ = false

abbrev pub sets_consistency : ModeToken → Bool
sets_consistency ModeToken.consistency = true
sets_consistency _ = false

abbrev pub sets_copy : ModeToken → Bool
sets_copy ModeToken.copy = true
sets_copy _ = false

-- a token that is neither an access nor a relabel option
abbrev pub is_other : ModeToken → Bool
is_other (ModeToken.access a) = false
is_other (ModeToken.relabel r) = false
is_other _ = true

abbrev pub marked : Bool → ℕ
marked true = 1
marked false = 0

abbrev pub given : {A : Type 0} → Option A → ℕ
given none = 0
given (some a) = 1

-- At most one token of each kind of option, what `st` has seen included.
pub record IsCoherent (st : ModeState) (tokens : List ModeToken) : Type 0 where
  pub access : given st.access + count sets_access tokens ≤ 1
  pub relabel : given st.relabel + count sets_relabel tokens ≤ 1
  pub propagation : marked st.propagation + count sets_propagation tokens ≤ 1
  pub consistency : marked st.consistency + count sets_consistency tokens ≤ 1
  pub copy : marked st.copy + count sets_copy tokens ≤ 1

abbrev pub or_else : {A : Type 0} → Option A → Option A → Option A
or_else none o = o
or_else (some a) o = some a

-- `st` with the options of the tokens
abbrev pub collect : ModeState → List ModeToken → ModeState
collect st tokens = record {
  access = or_else st.access (find_map access_of tokens);
  relabel = or_else st.relabel (find_map relabel_of tokens);
  propagation = st.propagation || any sets_propagation tokens;
  consistency = st.consistency || any sets_consistency tokens;
  copy = st.copy || any sets_copy tokens;
  unsupported = st.unsupported || any is_other tokens;
}

apply_iff :
    (k : ModeToken) (tokens : List ModeToken) (st out : ModeState)
    → apply k st ≡ some out
    → (IsCoherent st (k ∷ tokens) ↔ IsCoherent out tokens)
      × (collect st (k ∷ tokens) ≡ collect out tokens)
unfolding apply
apply_iff (ModeToken.access a) tokens st out h =
    (((λ c. ground arith), (λ c. ground arith)), ground arith)
apply_iff k tokens st out h = (((λ c. ground arith), (λ c. ground arith)), ground arith)

apply-none :
    (k : ModeToken) (tokens : List ModeToken) (st : ModeState)
    → apply k st ≡ none
    → ¬ IsCoherent st (k ∷ tokens)
unfolding apply
apply-none k tokens st h c = ground arith

collect-nil : (st : ModeState) → collect st [] ≡ st
collect-nil st = ground arith

IsCoherent-nil : (st : ModeState) → IsCoherent st []
IsCoherent-nil st = ground arith

-- What the loop has checked from the token of number `index` on, and the state that it ends in.
pub record Scanned (index : ℕ) (tokens : List Bytes) (st out : ModeState) : Type 0 where
  pub few : index + length tokens ≤ max_mode_tokens
  pub full : All (λ t. is_empty t ≡ false) tokens
  pub coherent : IsCoherent st (map classify tokens)
  pub options : collect st (map classify tokens) ≡ out

pub scan-Scanned :
    (index : ℕ) (tokens : List Bytes) (st out : ModeState)
    → index ≤ max_mode_tokens
    → scan index tokens st ≡ some out
    → Scanned index tokens st out
unfolding scan
scan-Scanned index [] st out le h = record {
  few = omega arith;
  full = tt;
  coherent = IsCoherent-nil st;
  options = collect-nil st ∙ some-eq_some h;
}
scan-Scanned index (token ∷ tokens) st out le h = elim (Option-cases (apply (classify token) st)) [
  | inl stops ↦ absurd (ground arith)
  | inr (next, goes) ↦
      let few : index < max_mode_tokens = ground arith in
      let full : is_empty token ≡ false = ground arith in
      let later : scan (suc index) tokens next ≡ some out = ground arith in
      let rest = scan-Scanned (suc index) tokens next out few later in
      let (coherent, same) = apply_iff (classify token) (map classify tokens) st next goes in
      record {
        few = omega (arith, rest.few);
        full = (full, rest.full);
        coherent = coherent.1 rest.coherent;
        options = same ∙ rest.options;
      }
]

pub Scanned-scan :
    (index : ℕ) (tokens : List Bytes) (st out : ModeState)
    → Scanned index tokens st out
    → scan index tokens st ≡ some out
unfolding scan
Scanned-scan index [] st out s = ap some (sym (collect-nil st) ∙ s.options)
Scanned-scan index (token ∷ tokens) st out s = elim (Option-cases (apply (classify token) st)) [
  | inl stops ↦ absurd (apply-none (classify token) (map classify tokens) st stops s.coherent)
  | inr (next, goes) ↦
      let (coherent, same) = apply_iff (classify token) (map classify tokens) st next goes in
      let rest : Scanned (suc index) tokens next out = record {
        few = omega (arith, s.few);
        full = s.full.1;
        coherent = coherent.0 s.coherent;
        options = sym same ∙ s.options;
      } in
      let few = s.few in ground (arith, Scanned-scan (suc index) tokens next out rest, s.full.0)
]
