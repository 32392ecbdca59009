-- ===== src/Acquisition/Selection.antt =====
-- `validate_selector` of src/acquisition.rs and the tests on identifiers and names that it uses.
pub mod Valid
pub mod Names
use docker_lens.Prelude.{
  ℕ, ◌≤◌, ◌<◌, ◌≡◌, ◌≢◌, refl, ◌↔◌, ◌⊎◌, inl, inr, Bool, true, false, not, ◌&&◌, ◌||◌, Option, none,
  some, List, [], ◌∷◌, arith, ltb, leb, length, any, all, All, ◌==◌, contains, nat_eq, Bytes,
  is_ascii_alphanumeric, is_ascii_hexdigit, Result, ok, err, reject_if, ◌>>=◌, ◌>>◌, if◌then◌else◌,
}
use docker_lens.Acquisition.Request.{Selector}
use docker_lens.Acquisition.Limits.{Limits, LimitError}
use docker_lens.Acquisition.Api.{AcquisitionError}

abbrev pub max_collection_items : ℕ
max_collection_items = 4096

unfoldable pub valid_exact_container_id : Bytes → Bool
valid_exact_container_id id = length id == 64 && all is_ascii_hexdigit id

abbrev pub is_name_byte : ℕ → Bool
is_name_byte byte = is_ascii_alphanumeric byte || byte == b'_' || byte == b'-' || byte == b'.'

-- `name.strip_prefix('/').unwrap_or(name)`
abbrev pub strip_slash : Bytes → Bytes
strip_slash [] = []
strip_slash (b ∷ name) = if b == b'/' then name else b ∷ name

-- the tests on the name without its slash
abbrev pub is_plain_name : Bytes → Bool
is_plain_name [] = false
is_plain_name (b ∷ name) =
    leb (length (b ∷ name)) 255 && is_ascii_alphanumeric b && all is_name_byte (b ∷ name)

unfoldable pub valid_literal_name : Bytes → Bool
valid_literal_name name = is_plain_name (strip_slash name)

abbrev pub starts_with_slash : Bytes → Bool
starts_with_slash [] = false
starts_with_slash (b ∷ name) = b == b'/'

unfoldable pub valid_volume_name : Bytes → Bool
valid_volume_name name = not (starts_with_slash name) && valid_literal_name name

-- `len() > max_selected_resources || len() > MAX_COLLECTION_ITEMS`
abbrev pub too_many : List Bytes → Limits → Bool
too_many ids limits =
    ltb limits.max_selected_resources (length ids) || ltb max_collection_items (length ids)

abbrev pub is_nil : {A : Type 0} → List A → Bool
is_nil [] = true
is_nil (x ∷ xs) = false

abbrev pub bad_value : Option Bytes → Bool
bad_value none = false
bad_value (some value) = ltb max_collection_items (length value) || contains value 0

abbrev selected_resources : AcquisitionError
selected_resources = AcquisitionError.budget LimitError.selected_resources

-- the arm for exact identifiers
abbrev pub validate_ids : List Bytes → Limits → Result AcquisitionError (Unit {0})
validate_ids ids limits = do
  reject_if (too_many ids limits) selected_resources
  reject_if (any (λ id. not (valid_exact_container_id id)) ids) AcquisitionError.selection

-- the arms for names, with their test on a name
abbrev pub validate_names :
    (Bytes → Bool) → List Bytes → Limits → Result AcquisitionError (Unit {0})
validate_names valid names limits = do
  reject_if (is_nil names || any (λ name. not (valid name)) names) AcquisitionError.selection
  reject_if (too_many names limits) selected_resources

unfoldable pub validate_selector : Selector → Limits → Result AcquisitionError (Unit {0})
validate_selector (Selector.container_ids ids) limits = validate_ids ids limits
validate_selector (Selector.network_ids ids) limits = validate_ids ids limits
validate_selector (Selector.volume_names names) limits =
    validate_names valid_volume_name names limits
validate_selector (Selector.container_names names) limits =
    validate_names valid_literal_name names limits
validate_selector (Selector.name_prefix prefix) limits =
    reject_if (not (valid_literal_name prefix)) AcquisitionError.selection
validate_selector (Selector.label key value) limits =
    reject_if
      (is_nil key || ltb max_collection_items (length key) || contains key 0 || bad_value value)
      AcquisitionError.selection
validate_selector Selector.discovery limits = ok tt
validate_selector Selector.all_containers limits = ok tt
