-- ===== src/Acquisition/Limits.antt =====
-- `Limits` and `LimitError` of src/acquisition.rs. A `Duration` is a number of nanoseconds, and the
-- counts are `usize`, numbers below `word`.
use docker_lens.Prelude.{
  ℕ, ◌+◌, ◌≤◌, ◌<◌, ◌≡◌, ◌↔◌, ◌||◌, arith, ltb, ◌==◌, nat_eq, word, word_max, Result, ok, err,
  if◌then◌else◌,
}

pub record Limits : Type 0 where
  pub max_requests : ℕ
  pub max_selected_resources : ℕ
  pub max_expansions : ℕ
  pub max_response_bytes : ℕ
  pub max_total_bytes : ℕ
  pub max_elapsed : ℕ

pub data LimitError : Type 0 where
  invalid requests pending_response response_without_request exhausted : LimitError
  selected_resources expansions bytes elapsed input invalid_resource_ref : LimitError
  incomplete observation_id_exhausted capture_accounting : LimitError
  missing_api_version resource_conflict : LimitError

-- `Limits::validate`
unfoldable pub validate : Limits → Result LimitError Limits
validate l =
    if l.max_requests == 0
      || l.max_selected_resources == 0
      || l.max_expansions == 0
      || l.max_response_bytes == 0
      || l.max_response_bytes == word_max
      || l.max_total_bytes == 0
      || ltb l.max_total_bytes l.max_response_bytes
      || l.max_elapsed == 0
    then err LimitError.invalid
    else ok l

-- Limits that `validate` accepts: each is positive, and a response and its sentinel byte fit the
-- total and a word.
pub record IsValid (l : Limits) : Type 0 where
  pub requests : 0 < l.max_requests
  pub selected_resources : 0 < l.max_selected_resources
  pub expansions : 0 < l.max_expansions
  pub response_bytes : 0 < l.max_response_bytes
  pub response_sentinel : l.max_response_bytes + 1 < word
  pub total_bytes : l.max_response_bytes ≤ l.max_total_bytes
  pub elapsed : 0 < l.max_elapsed

-- For limits whose response bound is a word, `validate` accepts exactly the valid ones, unchanged.
pub validate_iff :
    (l m : Limits) → l.max_response_bytes < word → (validate l ≡ ok m) ↔ (IsValid l × (l ≡ m))
unfolding validate
validate_iff l m h = (forth, back)
  where
    forth : validate l ≡ ok m → IsValid l × (l ≡ m)
    forth e = (ground arith, ground arith)

    back : IsValid l × (l ≡ m) → validate l ≡ ok m
    back (v, e) = ground arith
