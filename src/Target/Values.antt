-- ===== src/Target/Values.antt =====
-- The validated values of src/target_modules/container.rs and volume.rs. A value is its bytes.
use docker_lens.Prelude.{
  ℕ, ◌+◌, ◌-◌, ◌*◌, ◌^◌, Bool, false, not, ◌&&◌, ◌||◌, none, some, List, [], ◌∷◌, ltb, leb, length,
  all, any, contains, ◌==◌, nat_eq, list_eq, Bytes, is_ascii_digit, is_ascii_uppercase,
  is_ascii_lowercase, is_ascii_whitespace, split_on, from_utf8, is_utf8, is_whitespace, Result, ok,
  err, if◌then◌else◌,
}
use docker_lens.Target.Network.{IntentError, Label, valid_identity, is_name_byte}

-- `TargetIdentity::new`
unfoldable pub target_identity : Bytes → Result IntentError Bytes
target_identity bytes =
    if not (valid_identity bytes) then err IntentError.invalid_identity else ok bytes

-- the tests on the characters of an image
abbrev pub valid_image_text : List ℕ → Bool
valid_image_text value =
    not (value == [] || any is_whitespace value || contains value 0 || contains value b'$')

-- `ImageReference::new`
unfoldable pub image_reference : Bytes → Result IntentError Bytes
image_reference bytes = elim (from_utf8 bytes) [
  | none ↦ err IntentError.invalid_image
  | some value ↦ if not (valid_image_text value) then err IntentError.invalid_image else ok bytes
]

unfoldable pub valid_text : Bytes → Bool
valid_text value = not (contains value 0) && is_utf8 value

-- `EnvironmentAssignment::new`
unfoldable pub environment_assignment : Bytes → Bytes → Result IntentError Label
environment_assignment key value =
    if key == []
      || contains key b'='
      || contains key 0
      || contains value 0
      || not (is_utf8 key)
      || not (is_utf8 value)
    then err IntentError.invalid_environment
    else ok (record { key = key; value = value })

-- `Argument::new`
unfoldable pub argument : Bytes → Result IntentError Bytes
argument bytes =
    if contains bytes 0 || not (is_utf8 bytes) then err IntentError.invalid_argument else ok bytes

abbrev pub starts_with_slash : Bytes → Bool
starts_with_slash [] = false
starts_with_slash (b ∷ bytes) = b == b'/'

unfoldable pub valid_absolute_path : Bytes → Bool
valid_absolute_path value = starts_with_slash value && not (contains value 0) && is_utf8 value

-- `ContainerLabel::new`
unfoldable pub container_label : Bytes → Bytes → Result IntentError Label
container_label key value =
    if key == [] || not (valid_text key) || not (valid_text value)
    then err IntentError.invalid_container_label
    else ok (record { key = key; value = value })

-- the value of decimal digits
abbrev pub decimal : ℕ → Bytes → ℕ
decimal value [] = value
decimal value (b ∷ digits) = decimal (value * 10 + (b - b'0')) digits

-- a principal that begins with a digit; `parse::<i32>` of digits fails above `i32::MAX` only
abbrev pub valid_id : ℕ → Bytes → Bool
valid_id first bytes =
    leb (length bytes) 10
    && (length bytes == 1 || not (first == b'0'))
    && all is_ascii_digit bytes
    && ltb (decimal 0 bytes) (2 ^ 31)

abbrev pub valid_account : ℕ → Bytes → Bytes → Bool
valid_account first rest bytes =
    leb (length bytes) 32
    && (is_ascii_uppercase first || is_ascii_lowercase first || first == b'_')
    && all is_name_byte rest

unfoldable pub valid_user_principal : Bytes → Bool
valid_user_principal [] = false
valid_user_principal (first ∷ rest) =
    if is_ascii_digit first
    then valid_id first (first ∷ rest)
    else valid_account first rest (first ∷ rest)

-- one or two valid components
abbrev pub valid_components : List Bytes → Bool
valid_components [] = false
valid_components (user ∷ []) = valid_user_principal user
valid_components (user ∷ group ∷ []) = valid_user_principal user && valid_user_principal group
valid_components (user ∷ group ∷ other ∷ rest) = false

-- `ContainerUser::new`
unfoldable pub container_user : Bytes → Result IntentError Bytes
container_user bytes =
    if not (valid_components (split_on b':' bytes))
    then err IntentError.invalid_container_user
    else ok bytes

-- `WorkingDirectory::new`
unfoldable pub working_directory : Bytes → Result IntentError Bytes
working_directory bytes =
    if not (valid_absolute_path bytes) then err IntentError.invalid_working_directory else ok bytes

-- `ContainerHostname::new`
unfoldable pub container_hostname : Bytes → Result IntentError Bytes
container_hostname bytes =
    if bytes == [] || not (valid_text bytes) || contains bytes b':' || any is_ascii_whitespace bytes
    then err IntentError.invalid_container_hostname
    else ok bytes

-- `ContainerToken::new`
unfoldable pub container_token : Bytes → Result IntentError Bytes
container_token bytes =
    if bytes == [] || not (valid_text bytes)
    then err IntentError.invalid_container_setting
    else ok bytes

abbrev pub max_volume_label_count : ℕ
max_volume_label_count = 64

abbrev pub max_volume_label_total_bytes : ℕ
max_volume_label_total_bytes = 16384

abbrev pub max_volume_label_key_bytes : ℕ
max_volume_label_key_bytes = 128

abbrev pub max_volume_label_value_bytes : ℕ
max_volume_label_value_bytes = 4096

-- `VolumeLabel::new`
unfoldable pub volume_label : Bytes → Bytes → Result IntentError Label
volume_label key value =
    if key == []
      || ltb max_volume_label_key_bytes (length key)
      || ltb max_volume_label_value_bytes (length value)
      || contains key 0
      || contains value 0
      || not (is_utf8 key)
      || not (is_utf8 value)
    then err IntentError.invalid_volume_label
    else ok (record { key = key; value = value })
