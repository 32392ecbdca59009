-- ===== src/Decoder/MountMode.antt =====
-- src/decoder_mount_mode.rs: the bounded interpretation of a mount's native mode, with the types that
-- it takes from src/decoder.rs. The bytes that a mode consists of stay in the observed field.
pub mod Meaning
pub mod Parse
use docker_lens.Prelude.{
  ℕ, suc, ◌+◌, Bool, true, false, ◌||◌, Option, none, some, List, [], ◌∷◌, ltb, leb, length, ◌==◌,
  list_eq, nat_eq, Bytes, codes, split_on, Result, ok, err, ◌>>=◌, if◌then◌else◌,
}
use docker_lens.Observation.{FieldPath, BindRelabel, Observed, unavailable, observed}

pub data DecodeError : Type 0 where
  response_too_large invalid_json unexpected_status missing_api_version : DecodeError
  invalid_shape invalid_value : FieldPath → DecodeError
  api_version_out_of_range conflicting_facts duplicate_resource : DecodeError
  incomplete_inventory collection_too_large : DecodeError

pub data MountAccess : Type 0 where
  read_only read_write : MountAccess

pub data MountModeInterpretation : Type 0 where
  supported : Option MountAccess → Option BindRelabel → MountModeInterpretation
  unsupported : MountModeInterpretation

abbrev pub max_mode_bytes : ℕ
max_mode_bytes = 256

abbrev pub max_mode_tokens : ℕ
max_mode_tokens = 16

-- which arm of the `match` a token takes
pub data ModeToken : Type 0 where
  access : MountAccess → ModeToken
  relabel : BindRelabel → ModeToken
  propagation consistency copy unknown : ModeToken

abbrev is_propagation : Bytes → Bool
is_propagation token =
    token == codes "private"
    || token == codes "rprivate"
    || token == codes "shared"
    || token == codes "rshared"
    || token == codes "slave"
    || token == codes "rslave"

abbrev is_consistency : Bytes → Bool
is_consistency token =
    token == codes "consistent" || token == codes "cached" || token == codes "delegated"

unfoldable pub classify : Bytes → ModeToken
classify token =
    if token == codes "ro"
    then ModeToken.access MountAccess.read_only
    else if token == codes "rw"
    then ModeToken.access MountAccess.read_write
    else if token == codes "z"
    then ModeToken.relabel BindRelabel.shared
    else if token == codes "Z"
    then ModeToken.relabel BindRelabel.private
    else if is_propagation token
    then ModeToken.propagation
    else if is_consistency token
    then ModeToken.consistency
    else if token == codes "nocopy"
    then ModeToken.copy
    else ModeToken.unknown

-- the local variables of the loop
pub record ModeState : Type 0 where
  pub access : Option MountAccess
  pub relabel : Option BindRelabel
  pub propagation : Bool
  pub consistency : Bool
  pub copy : Bool
  pub unsupported : Bool

abbrev pub no_mode : ModeState
no_mode = record {
  access = none;
  relabel = none;
  propagation = false;
  consistency = false;
  copy = false;
  unsupported = false;
}

abbrev put_access : Option MountAccess → MountAccess → ModeState → Option ModeState
put_access none a st = some (record st { access = some a })
put_access (some b) a st = none

abbrev put_relabel : Option BindRelabel → BindRelabel → ModeState → Option ModeState
put_relabel none r st = some (record st { relabel = some r })
put_relabel (some q) r st = none

-- one arm of the `match`; `none` stands for the error that a repeated option returns
unfoldable pub apply : ModeToken → ModeState → Option ModeState
apply (ModeToken.access a) st = put_access st.access a st
apply (ModeToken.relabel r) st = put_relabel st.relabel r st
apply ModeToken.propagation st =
    if st.propagation then none else some (record st { propagation = true; unsupported = true })
apply ModeToken.consistency st =
    if st.consistency then none else some (record st { consistency = true; unsupported = true })
apply ModeToken.copy st =
    if st.copy then none else some (record st { copy = true; unsupported = true })
apply ModeToken.unknown st = some (record st { unsupported = true })

abbrev pub is_empty : Bytes → Bool
is_empty [] = true
is_empty (b ∷ bytes) = false

-- the loop over the tokens, from the token of number `index` on
unfoldable pub scan : ℕ → List Bytes → ModeState → Option ModeState
scan index [] st = some st
scan index (token ∷ tokens) st =
    if leb max_mode_tokens index || is_empty token
    then none
    else elim (apply (classify token) st) [ none ↦ none | some next ↦ scan (suc index) tokens next ]

abbrev pub interpretation : ModeState → MountModeInterpretation
interpretation st =
    if st.unsupported
    then MountModeInterpretation.unsupported
    else MountModeInterpretation.supported st.access st.relabel

-- `if !raw.is_empty()` around the loop
abbrev pub scan_mode : Bytes → Option ModeState
scan_mode [] = some no_mode
scan_mode (b ∷ raw) = scan 0 (split_on b',' (b ∷ raw)) no_mode

unfoldable pub parse : Bytes → FieldPath → Result DecodeError MountModeInterpretation
parse raw field =
    if ltb max_mode_bytes (length raw)
    then err (DecodeError.invalid_value field)
    else elim (scan_mode raw) [
      | none ↦ err (DecodeError.invalid_value field)
      | some st ↦ ok (interpretation st)
    ]

unfoldable pub interpret :
    Observed Bytes → FieldPath → Result DecodeError (Observed MountModeInterpretation)
interpret mode field = elim mode.value [
  | none ↦ ok (unavailable mode.availability mode.origin)
  | some raw ↦ do meaning ← parse raw field; ok (observed meaning mode.availability mode.origin)
]

-- `access_conflicts` on the two values
unfoldable pub access_conflicts : Option MountModeInterpretation → Option Bool → Bool
access_conflicts (some (MountModeInterpretation.supported (some MountAccess.read_only) r))
      (some true) =
    true
access_conflicts (some (MountModeInterpretation.supported (some MountAccess.read_write) r))
      (some false) =
    true
access_conflicts _ _ = false
