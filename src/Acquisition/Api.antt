-- ===== src/Acquisition/Api.antt =====
-- The API negotiation of src/acquisition.rs, with `AcquisitionError`. The JSON library is a parameter:
-- `from_slice`, `get` on a value and `as_str`.
use docker_lens.Prelude.{
  ℕ, ◌+◌, ◌*◌, ◌-◌, Bool, true, false, not, ◌||◌, Option, none, some, [], ◌∷◌, arith, ltb, all,
  ◌==◌, nat_eq, Bytes, codes, is_ascii_digit, split_once, Result, ok, err, ok_or, reject_if, ◌>>=◌,
  ◌>>◌, if◌then◌else◌,
}
use docker_lens.Version.Facts.{ApiVersion, api_ltb, api_min}
use docker_lens.Acquisition.Limits.{LimitError}
pub mod Text
pub mod Chosen
pub mod Negotiated

pub data AcquisitionError : Type 0 where
  endpoint cancelled deadline io protocol status version : AcquisitionError
  shape selection : AcquisitionError
  budget : LimitError → AcquisitionError

-- the value of decimal digits, first digit first
abbrev pub decimal : ℕ → Bytes → ℕ
decimal value [] = value
decimal value (b ∷ digits) = decimal (value * 10 + (b - b'0')) digits

abbrev pub is_empty : Bytes → Bool
is_empty [] = true
is_empty (b ∷ bytes) = false

-- `parse().ok()` into a `u16`, of digits only
abbrev pub parse_u16 : Bytes → Option ℕ
parse_u16 digits =
    if is_empty digits || not (all is_ascii_digit digits) || ltb 65535 (decimal 0 digits)
    then none
    else some (decimal 0 digits)

abbrev pub api_of_parts : Bytes → Bytes → Option ApiVersion
api_of_parts major minor = elim (parse_u16 major) [
  | none ↦ none
  | some a ↦
      if a == 0
      then none
      else elim (parse_u16 minor) [ none ↦ none | some i ↦ some (record { major = a; minor = i }) ]
]

unfoldable pub parse_api : Bytes → Option ApiVersion
parse_api text = elim (split_once (codes ".") text) [
  | none ↦ none
  | some (major, minor) ↦ api_of_parts major minor
]

abbrev pub max_known_api : ApiVersion
max_known_api = record { major = 1; minor = 49 }

-- What the source uses of a JSON library.
pub record Json (Value : Type 0) : Type 0 where
  pub from_slice : Bytes → Option Value
  pub get : Value → Bytes → Option Value
  pub as_str : Value → Option Bytes

abbrev pub is_lower : Option ApiVersion → ApiVersion → Bool
is_lower none selected = false
is_lower (some minimum) selected = api_ltb selected minimum

-- the end of `negotiated_api`, behind the reading of the two fields
unfoldable pub choose : ApiVersion → Option ApiVersion → Result AcquisitionError ApiVersion
choose maximum minimum = do
  reject_if (not (maximum.major == 1)) AcquisitionError.version
  reject_if
      (ltb (api_min maximum max_known_api).minor 41
        || is_lower minimum (api_min maximum max_known_api))
      AcquisitionError.version
  ok (api_min maximum max_known_api)

module _ {Value : Type 0} (json : Json Value) where
  -- `and_then(Value::as_str).and_then(parse_api)`
  unfoldable pub api_value : Value → Option ApiVersion
  api_value value = elim (json.as_str value) [ none ↦ none | some text ↦ parse_api text ]

  unfoldable pub maximum_of : Value → Result AcquisitionError ApiVersion
  maximum_of document = elim (json.get document (codes "ApiVersion")) [
    | none ↦ err AcquisitionError.version
    | some value ↦ ok_or (api_value value) AcquisitionError.version
  ]

  unfoldable pub minimum_of : Value → Result AcquisitionError (Option ApiVersion)
  minimum_of document = elim (json.get document (codes "MinAPIVersion")) [
    | none ↦ ok none
    | some value ↦ do minimum ← ok_or (api_value value) AcquisitionError.version; ok (some minimum)
  ]

  unfoldable pub negotiated_api : Bytes → Result AcquisitionError ApiVersion
  negotiated_api body = do
    document ← ok_or (json.from_slice body) AcquisitionError.version
    maximum ← maximum_of document
    minimum ← minimum_of document
    choose maximum minimum
