-- ===== src/Acquisition/Selection/Names.antt =====
-- What `validate_selector` of src/acquisition.rs accepts, and the request targets of what it accepts.
use docker_lens.Prelude.{
  ℕ, ◌≤◌, ◌≡◌, ◌≢◌, refl, ◌↔◌, ◌⊎◌, inl, inr, Bool, true, false, not, ◌||◌, Option, none, some,
  List, [], ◌∷◌, arith, ltb, length, any, all, All, In, contains, nat_eq, Bytes, is_ascii_hexdigit,
  ok,
}
use docker_lens.Acquisition.Request.{Selector}
use docker_lens.Acquisition.Limits.{Limits}
use docker_lens.Acquisition.Path.{is_unreserved, encode, encode_segment}
use docker_lens.Acquisition.Selection.Valid.{
  IsId, IsPlainName, IsName, valid_exact_container_id_iff, valid_literal_name_iff,
  valid_volume_name_iff,
}
use docker_lens.Acquisition.Selection.{
  max_collection_items, valid_exact_container_id, is_name_byte, is_plain_name, valid_literal_name,
  valid_volume_name, too_many, is_nil, bad_value, validate_ids, validate_names, validate_selector,
}

-- Identifiers need no percent encoding.
encode-unreserved : (id : Bytes) → all is_unreserved id ≡ true → encode id ≡ id
encode-unreserved [] h = refl
encode-unreserved (b ∷ id) h =
    let first : is_unreserved b ≡ true = ground arith in
    let rest = encode-unreserved id (ground arith) in rw (first, rest) refl

weaken :
    (p q : ℕ → Bool) (xs : Bytes)
    → ((b : ℕ) → p b ≡ true → q b ≡ true)
    → all p xs ≡ true
    → all q xs ≡ true
weaken p q [] w h = refl
weaken p q (x ∷ xs) w h =
    let rest = weaken p q xs w (ground arith) in
    let first = w x (ground arith) in rw (first, rest) refl

-- The identifiers and volume names that the validation accepts stand in the request target as they
-- are: they are never too long, and no byte of them is escaped.
pub encode_segment-valid :
    (id : Bytes)
    → (valid_exact_container_id id ≡ true) ⊎ (valid_volume_name id ≡ true)
    → encode_segment id ≡ ok id
unfolding valid_exact_container_id valid_volume_name valid_literal_name encode_segment
encode_segment-valid id (inl h) =
    let plain = weaken is_ascii_hexdigit is_unreserved id (λ b e. ground arith) (ground arith) in
    rw (encode-unreserved id plain) (ground arith)
encode_segment-valid [] (inr h) = refl
encode_segment-valid (b ∷ id) (inr h) =
    let whole : is_plain_name (b ∷ id) ≡ true = ground arith in
    let plain = weaken is_name_byte is_unreserved (b ∷ id) (λ b e. ground arith) (ground arith) in
    let size : length (b ∷ id) ≤ 255 = ground arith in
    let same = encode-unreserved (b ∷ id) plain in rw same (ground arith)

-- At most the selected resources of the limits, and at most 4096.
pub record Fits (ids : List Bytes) (limits : Limits) : Type 0 where
  pub limit : length ids ≤ limits.max_selected_resources
  pub collection : length ids ≤ max_collection_items

-- a label text: of at most 4096 bytes, none of them zero
pub record IsLabelText (text : Bytes) : Type 0 where
  pub bytes : length text ≤ max_collection_items
  pub no_zero : ¬ In 0 text

pub IsLabelValue : Option Bytes → Type 0
IsLabelValue none = Unit {0}
IsLabelValue (some text) = IsLabelText text

-- What a selector may ask for.
pub IsSelectable : Selector → Limits → Type 0
IsSelectable (Selector.container_ids ids) limits = Fits ids limits × All IsId ids
IsSelectable (Selector.network_ids ids) limits = Fits ids limits × All IsId ids
IsSelectable (Selector.volume_names names) limits =
    Fits names limits × (names ≢ []) × All IsPlainName names
IsSelectable (Selector.container_names names) limits =
    Fits names limits × (names ≢ []) × All IsName names
IsSelectable (Selector.name_prefix prefix) limits = IsName prefix
IsSelectable (Selector.label key value) limits = (key ≢ []) × IsLabelText key × IsLabelValue value
IsSelectable Selector.discovery limits = Unit {0}
IsSelectable Selector.all_containers limits = Unit {0}

any-not_iff :
    {A : Type 0} (p : A → Bool) (P : A → Type 0) (xs : List A)
    → ((x : A) → (p x ≡ true) ↔ P x)
    → (any (λ x. not (p x)) xs ≡ false) ↔ All P xs
any-not_iff p P [] f = ((λ h. tt), (λ h. refl))
any-not_iff p P (x ∷ xs) f =
    let rest = any-not_iff p P xs f in
    (
      (λ h. ((f x).0 (ground arith), rest.0 (ground arith))),
      (λ (first, more). let a = (f x).1 first in let b = rest.1 more in ground arith),
    )

too_many_iff :
    (ids : List Bytes) (limits : Limits) → (too_many ids limits ≡ false) ↔ Fits ids limits
too_many_iff ids limits =
    ((λ h. record { limit = ground arith; collection = ground arith }), (λ f. ground arith))

validate_ids_iff :
    (ids : List Bytes) (limits : Limits)
    → (validate_ids ids limits ≡ ok tt) ↔ (Fits ids limits × All IsId ids)
validate_ids_iff ids limits = ground (
  arith,
  too_many_iff ids limits,
  any-not_iff valid_exact_container_id IsId ids valid_exact_container_id_iff,
)

validate_names_iff :
    (valid : Bytes → Bool) (P : Bytes → Type 0) (names : List Bytes) (limits : Limits)
    → ((name : Bytes) → (valid name ≡ true) ↔ P name)
    → (validate_names valid names limits ≡ ok tt) ↔ (Fits names limits × (names ≢ []) × All P names)
validate_names_iff valid P names limits f =
    ground (arith, too_many_iff names limits, any-not_iff valid P names f)

contains_iff : (text : Bytes) → (contains text 0 ≡ false) ↔ (¬ In 0 text)
contains_iff [] = ((λ h m. absurd m), (λ h. refl))
contains_iff (b ∷ text) = ground (arith, contains_iff text)

bounded_text_iff :
    (text : Bytes)
    → ((ltb max_collection_items (length text) || contains text 0) ≡ false) ↔ IsLabelText text
bounded_text_iff text = (
  (λ h. record { bytes = ground arith; no_zero = (contains_iff text).0 (ground arith) }),
  (λ t. ground (arith, (contains_iff text).1 t.no_zero, t.bytes)),
)

bad_value_iff : (value : Option Bytes) → (bad_value value ≡ false) ↔ IsLabelValue value
unfolding IsLabelValue
bad_value_iff none = ((λ h. tt), (λ h. refl))
bad_value_iff (some text) = bounded_text_iff text

is_nil_iff : (key : Bytes) → (is_nil key ≡ false) ↔ (key ≢ [])
is_nil_iff key = ground arith

validate_label_iff :
    (key : Bytes) (value : Option Bytes) (limits : Limits)
    → (validate_selector (Selector.label key value) limits ≡ ok tt)
      ↔ ((key ≢ []) × IsLabelText key × IsLabelValue value)
unfolding validate_selector
validate_label_iff key value limits =
    let n = is_nil_iff key in
    let k = bounded_text_iff key in
    let v = bad_value_iff value in
    (
      (λ h. (n.0 (ground arith), k.0 (ground arith), v.0 (ground arith))),
      (λ h. ground (arith, n.1 h.0, k.1 h.1, v.1 h.2)),
    )

-- A selector is accepted exactly if its identifiers are of 64 hexadecimal digits, or its names are of
-- at most 255 name bytes with a digit or letter in front, container names perhaps behind a slash,
-- and these are few enough, or its prefix is a container name, or its label's key and value are bounded texts without a zero byte; names and keys are
-- not empty.
pub validate_selector_iff :
    (selector : Selector) (limits : Limits)
    → (validate_selector selector limits ≡ ok tt) ↔ IsSelectable selector limits
unfolding validate_selector IsSelectable
validate_selector_iff (Selector.container_ids ids) limits = validate_ids_iff ids limits
validate_selector_iff (Selector.network_ids ids) limits = validate_ids_iff ids limits
validate_selector_iff (Selector.volume_names names) limits =
    validate_names_iff valid_volume_name IsPlainName names limits valid_volume_name_iff
validate_selector_iff (Selector.container_names names) limits =
    validate_names_iff valid_literal_name IsName names limits valid_literal_name_iff
validate_selector_iff (Selector.name_prefix prefix) limits =
    ground (arith, valid_literal_name_iff prefix)
validate_selector_iff (Selector.label key value) limits = validate_label_iff key value limits
validate_selector_iff Selector.discovery limits = ((λ h. tt), (λ h. refl))
validate_selector_iff Selector.all_containers limits = ((λ h. tt), (λ h. refl))
