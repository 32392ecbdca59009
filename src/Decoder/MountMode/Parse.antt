-- ===== src/Decoder/MountMode/Parse.antt =====
-- `parse` and `interpret` of src/decoder_mount_mode.rs against the meaning of a mode's tokens.
use docker_lens.Prelude.{
  codes, Bool, true, ◌||◌, ◌==◌, list_eq, nat_eq, subst, ◌≤◌, ◌≡◌, refl, ap, ◌∙◌, ◌↔◌, inl, inr,
  false, none, some, List, [], ◌∷◌, map, arith, length, any, count, find_map, Bytes, split_on, ok,
  err, if◌then◌else◌, All, Option-cases,
}
use docker_lens.Observation.{FieldPath, Observed, BindRelabel}
use docker_lens.Decoder.MountMode.{
  DecodeError, MountAccess, MountModeInterpretation, max_mode_bytes, max_mode_tokens, ModeToken,
  classify, ModeState, no_mode, is_empty, scan, interpretation, scan_mode, parse, interpret,
}
use docker_lens.Decoder.MountMode.Meaning.{
  access_of, relabel_of, sets_access, sets_relabel, sets_propagation, sets_consistency, sets_copy,
  is_other, collect, Scanned, scan-Scanned, Scanned-scan,
}

-- the tokens of a mode; an empty mode has none
abbrev pub tokens_of : Bytes → List Bytes
tokens_of [] = []
tokens_of (b ∷ raw) = split_on b',' (b ∷ raw)

-- Any option beside access and relabel leaves the mode unsupported.
abbrev pub meaning : List ModeToken → MountModeInterpretation
meaning tokens =
    if any is_other tokens
    then MountModeInterpretation.unsupported
    else MountModeInterpretation.supported (find_map access_of tokens) (find_map relabel_of tokens)

-- every option that the mode of a mount may have, with its kind
abbrev pub options : List (Bytes × ModeToken)
options =
    (codes "ro", ModeToken.access MountAccess.read_only)
    ∷ (codes "rw", ModeToken.access MountAccess.read_write)
    ∷ (codes "z", ModeToken.relabel BindRelabel.shared)
    ∷ (codes "Z", ModeToken.relabel BindRelabel.private)
    ∷ (codes "private", ModeToken.propagation)
    ∷ (codes "rprivate", ModeToken.propagation)
    ∷ (codes "shared", ModeToken.propagation)
    ∷ (codes "rshared", ModeToken.propagation)
    ∷ (codes "slave", ModeToken.propagation)
    ∷ (codes "rslave", ModeToken.propagation)
    ∷ (codes "consistent", ModeToken.consistency)
    ∷ (codes "cached", ModeToken.consistency)
    ∷ (codes "delegated", ModeToken.consistency)
    ∷ (codes "nocopy", ModeToken.copy)
    ∷ []

abbrev kind_in : List (Bytes × ModeToken) → Bytes → ModeToken
kind_in [] token = ModeToken.unknown
kind_in ((name, kind) ∷ rest) token =
    let later = kind_in rest token in if token == name then kind else later

-- the kind of a token by the table
abbrev pub kind_of : Bytes → ModeToken
kind_of token = kind_in options token

if-or :
    {A : Type 0} (p q : Bool) (a b : A)
    → (if p || q then a else b) ≡ (if p then a else if q then a else b)
if-or true q a b = refl
if-or false q a b = refl

classify-kind_of : (token : Bytes) → classify token ≡ kind_of token
unfolding classify
classify-kind_of token = simp if-or

-- A mode of at most 256 bytes and 16 nonempty tokens, with at most one option of each kind, and what
-- it means.
pub record IsModeBy (kind : Bytes → ModeToken) (raw : Bytes) (m : MountModeInterpretation)
    : Type 0 where
  pub bytes : length raw ≤ max_mode_bytes
  pub few : length (tokens_of raw) ≤ max_mode_tokens
  pub full : All (λ t. is_empty t ≡ false) (tokens_of raw)
  pub access : count sets_access (map kind (tokens_of raw)) ≤ 1
  pub relabel : count sets_relabel (map kind (tokens_of raw)) ≤ 1
  pub propagation : count sets_propagation (map kind (tokens_of raw)) ≤ 1
  pub consistency : count sets_consistency (map kind (tokens_of raw)) ≤ 1
  pub copy : count sets_copy (map kind (tokens_of raw)) ≤ 1
  pub means : meaning (map kind (tokens_of raw)) ≡ m

abbrev pub IsMode : Bytes → MountModeInterpretation → Type 0
IsMode raw m = IsModeBy kind_of raw m

scan_mode-Scanned :
    (raw : Bytes) (out : ModeState)
    → (scan_mode raw ≡ some out) ↔ Scanned 0 (tokens_of raw) no_mode out
scan_mode-Scanned [] out = (
  (λ h. scan-Scanned 0 [] no_mode out (omega arith) (unfold scan in h)),
  (λ s. unfold scan in Scanned-scan 0 [] no_mode out s),
)
scan_mode-Scanned (b ∷ raw) out = (
  scan-Scanned 0 (split_on b',' (b ∷ raw)) no_mode out (omega arith),
  Scanned-scan 0 (split_on b',' (b ∷ raw)) no_mode out,
)

parse_iff_classify :
    (raw : Bytes) (field : FieldPath) (m : MountModeInterpretation)
    → (parse raw field ≡ ok m) ↔ IsModeBy classify raw m
unfolding parse
parse_iff_classify raw field m = (forth, back)
  where
    forth : parse raw field ≡ ok m → IsModeBy classify raw m
    forth h = elim (Option-cases (scan_mode raw)) [
      | inl e ↦ absurd (ground arith)
      | inr (out, e) ↦
          let s = (scan_mode-Scanned raw out).0 e in
          let means : interpretation out ≡ m = ground arith in
          record {
            bytes = ground arith;
            few = omega (arith, s.few);
            full = s.full;
            access = omega (arith, s.coherent.access);
            relabel = omega (arith, s.coherent.relabel);
            propagation = omega (arith, s.coherent.propagation);
            consistency = omega (arith, s.coherent.consistency);
            copy = omega (arith, s.coherent.copy);
            means = ap interpretation s.options ∙ means;
          }
    ]

    back : IsModeBy classify raw m → parse raw field ≡ ok m
    back v =
        let out = collect no_mode (map classify (tokens_of raw)) in
        let s : Scanned 0 (tokens_of raw) no_mode out = record {
          few = omega (arith, v.few);
          full = v.full;
          coherent = omega (arith, v.access, v.relabel, v.propagation, v.consistency, v.copy);
          options = refl;
        } in
        let e : scan_mode raw ≡ some out = (scan_mode-Scanned raw out).1 s in
        ground (arith, e, v.bytes, v.means)

-- A mode is accepted exactly within the bounds, with nonempty tokens and at most one option of each
-- kind, and then read as its tokens mean by the table of options, whatever their order.
pub parse_iff :
    (raw : Bytes) (field : FieldPath) (m : MountModeInterpretation)
    → (parse raw field ≡ ok m) ↔ IsMode raw m
parse_iff raw field m =
    subst (λ kind. (parse raw field ≡ ok m) ↔ IsModeBy kind raw m)
      (λ i token. classify-kind_of token i) (parse_iff_classify raw field m)

-- A mode that is not accepted is reported as an invalid value of its field, and an observed field
-- keeps its availability and origin, with a value exactly if it had one.
pub interpret-keeps :
    (mode : Observed Bytes) (field : FieldPath)
    → ((e : DecodeError) → interpret mode field ≡ err e → e ≡ DecodeError.invalid_value field)
      × ((m : Observed MountModeInterpretation)
          → interpret mode field ≡ ok m
          → (m.availability ≡ mode.availability)
            × (m.origin ≡ mode.origin)
            × ((m.value ≡ none) ↔ (mode.value ≡ none)))
unfolding interpret parse
interpret-keeps mode field =
    ((λ e h. ground arith), (λ m h. (ground arith, ground arith, ground arith)))
