-- ===== src/Acquisition/Budget.antt =====
-- `Budget` of src/acquisition.rs: the counters of one acquisition and the exchanges that it has
-- completed. Each method takes what `started.elapsed()` returns as arguments, and returns its result
-- beside the budget that it leaves, on the error paths too.
pub mod Steps
pub mod Accounting
pub mod History
pub mod Registry
pub mod References
use docker_lens.Prelude.{
  ℕ, ◌+◌, ◌-◌, ◌≡◌, refl, Bool, true, false, not, ◌&&◌, ◌||◌, Option, none, some, List, [], ◌∷◌,
  ◌++◌, arith, ltb, length, take, min, Eq, ◌==◌, nat_eq, bool_eq, Bytes, checked_add,
  saturating_add, lookup, or_insert, Result, ok, err, map_err, ◌>>=◌, if◌then◌else◌,
}
use docker_lens.Observation.{ResourceRef}
use docker_lens.Version.Facts.{ApiVersion}
use docker_lens.Evidence.{CaptureBounds, CapturedExchange, Capture, from_completed}
use docker_lens.Acquisition.Request.{ReadRequest, Native, native_eq, inspected, is_daemon_version}
use docker_lens.Acquisition.Limits.{Limits, LimitError, validate}

pub record PendingRequest : Type 0 where
  pub request : ReadRequest
  pub resource : Option ResourceRef
  pub api_version : Option ApiVersion

pub record Budget : Type 0 where
  pub observation_id : ℕ
  pub limits : Limits
  pub requests : ℕ
  pub selected_resources : ℕ
  pub expansions : ℕ
  pub bytes_read : ℕ
  pub pending : Option PendingRequest
  pub exchanges : List CapturedExchange
  pub resource_ids : List (ResourceRef × Native)
  pub native_refs : List (Native × ResourceRef)
  pub failed : Bool

abbrev pub empty_budget : ℕ → Limits → Budget
empty_budget id limits = record {
  observation_id = id;
  limits = limits;
  requests = 0;
  selected_resources = 0;
  expansions = 0;
  bytes_read = 0;
  pending = none;
  exchanges = [];
  resource_ids = [];
  native_refs = [];
  failed = false;
}

-- `Budget::new`; `fresh` is what `ObservationId::fresh` returns
unfoldable pub new_budget : Limits → Option ℕ → Result LimitError Budget
new_budget limits fresh = do
  valid ← validate limits
  elim fresh [
    | none ↦ err LimitError.observation_id_exhausted
    | some id ↦ ok (empty_budget id valid)
  ]

-- What a method returns, and the budget that it leaves.
abbrev pub Outcome : Type 0 → Type 0
Outcome A = Result LimitError A × Budget

-- `return Err(e)`, and the same behind `self.failed = true`
abbrev pub refuse : {A : Type 0} → LimitError → Budget → Outcome A
refuse e b = (err e, b)

abbrev pub fail_with : {A : Type 0} → LimitError → Budget → Outcome A
fail_with e b = (err e, record b { failed = true })

-- `?` on the result of a step
abbrev pub resume :
    {A B : Type 0} → Result LimitError A → Budget → (A → Budget → Outcome B) → Outcome B
resume (ok a) b k = k a b
resume (err e) b k = (err e, b)

abbrev pub and_then : {A B : Type 0} → Outcome A → (A → Budget → Outcome B) → Outcome B
and_then (r, b) k = resume r b k

unfoldable pub check_time : ℕ → Budget → Outcome (Unit {0})
check_time elapsed b =
    if b.failed
    then refuse LimitError.exhausted b
    else if ltb b.limits.max_elapsed elapsed
    then fail_with LimitError.elapsed b
    else (ok tt, b)

abbrev pub is_some : {A : Type 0} → Option A → Bool
is_some none = false
is_some (some a) = true

-- `is_some_and(|registered| *registered != a)`
pub differs : {A : Type 0} ⦃e : Eq A⦄ → Option A → A → Bool
differs none a = false
differs (some registered) a = not (registered == a)

-- registered under another identifier, or under another reference
unfoldable pub conflicts : ResourceRef → Native → Budget → Bool
unfolding differs
conflicts reference native b =
    differs (lookup reference b.resource_ids) native
    || differs (lookup native b.native_refs) reference

-- the `if let` of `record_request`: an inspection is an expansion and registers its reference
unfoldable pub register : Option ResourceRef → Option Native → Budget → Outcome (Unit {0})
register (some reference) (some native) b =
    if conflicts reference native b
    then refuse LimitError.resource_conflict b
    else elim (checked_add b.expansions 1) [
      | none ↦ fail_with LimitError.expansions b
      | some next ↦
          if ltb b.limits.max_expansions next then fail_with LimitError.expansions b else (
            ok tt,
            record b {
              expansions = next;
              resource_ids = or_insert reference native b.resource_ids;
              native_refs = or_insert native reference b.native_refs;
            },
          )
    ]
register (some reference) none b = (ok tt, b)
register none native b = (ok tt, b)

-- the end of `record_request`
unfoldable pub count_request : PendingRequest → Budget → Outcome (Unit {0})
count_request pending b = elim (checked_add b.requests 1) [
  | none ↦ fail_with LimitError.requests b
  | some next ↦
      if ltb b.limits.max_requests next
      then fail_with LimitError.requests (record b { requests = next })
      else (ok tt, record b { requests = next; pending = some pending })
]

-- the guards of `record_request`, behind `check_time`
unfoldable pub guard_request : PendingRequest → Budget → Outcome (Unit {0})
guard_request p b =
    if is_some b.pending
    then refuse LimitError.pending_response b
    else if not (is_some (inspected p.request) == is_some p.resource)
    then refuse LimitError.invalid_resource_ref b
    else if not (is_daemon_version p.request) && not (is_some p.api_version)
    then refuse LimitError.missing_api_version b
    else (ok tt, b)

unfoldable pub record_request : ℕ → PendingRequest → Budget → Outcome (Unit {0})
record_request elapsed p b = and_then (check_time elapsed b) λ _ b.
    and_then (guard_request p b)
      λ _ b. and_then (register p.resource (inspected p.request) b) λ _ b. count_request p b

unfoldable pub record_selection : ℕ → ℕ → Budget → Outcome (Unit {0})
record_selection elapsed count b = and_then (check_time elapsed b) λ _ b.
    elim (checked_add b.selected_resources count) [
      | none ↦ fail_with LimitError.selected_resources b
      | some next ↦
          if ltb b.limits.max_selected_resources next
          then fail_with LimitError.selected_resources (record b { selected_resources = next })
          else (ok tt, record b { selected_resources = next })
    ]

unfoldable pub record_expansion : ℕ → ℕ → Budget → Outcome (Unit {0})
record_expansion elapsed count b = and_then (check_time elapsed b) λ _ b.
    elim (checked_add b.expansions count) [
      | none ↦ fail_with LimitError.expansions b
      | some next ↦
          if ltb b.limits.max_expansions next
          then fail_with LimitError.expansions (record b { expansions = next })
          else (ok tt, record b { expansions = next })
    ]

-- A reader: the bytes that it yields, and whether an error follows them in place of the end.
pub record Reader : Type 0 where
  pub stream : Bytes
  pub breaks : Bool

-- `max_response_bytes.min(max_total_bytes - bytes_read)`
abbrev pub allowance : Budget → ℕ
allowance b = min b.limits.max_response_bytes (b.limits.max_total_bytes - b.bytes_read)

-- the end of `read_response`, on the pending request that `take` returns
unfoldable pub complete : PendingRequest → ℕ → Bytes → Budget → Outcome Bytes
complete p status bytes b = (
  ok bytes,
  record b {
    pending = none;
    exchanges =
        b.exchanges
        ++ (record {
          request = p.request;
          resource = p.resource;
          api_version = p.api_version;
          status = status;
          body = bytes;
        }
            ∷ []);
  },
)

-- the read, the second `check_time`, at `elapsed`, and the test on the sentinel byte
unfoldable pub receive : ℕ → ℕ → Reader → PendingRequest → Budget → Outcome Bytes
receive elapsed status reader p b =
    let limit = saturating_add (allowance b) 1 in
    let bytes = take limit reader.stream in
    let b' : Budget = record b { bytes_read = saturating_add b.bytes_read (length bytes) } in
    if reader.breaks && ltb (length reader.stream) limit
    then fail_with LimitError.input b'
    else and_then (check_time elapsed b') λ _ b''.
      if ltb (allowance b) (length bytes)
      then fail_with LimitError.bytes b''
      else complete p status bytes b''

-- Nothing between the test that a request is pending and its `take` changes `pending`.
unfoldable pub read_response : ℕ → ℕ → ℕ → Reader → Budget → Outcome Bytes
read_response before after status reader b = and_then (check_time before b) λ _ b. elim b.pending [
  | none ↦ refuse LimitError.response_without_request b
  | some p ↦ receive after status reader p b
]

pub counts : Budget → CaptureBounds
counts b = record {
  request_count = b.requests;
  selected_resources = b.selected_resources;
  expansions = b.expansions;
  bytes_read = b.bytes_read;
}

unfoldable pub into_capture : ℕ → Budget → Result LimitError Capture
unfolding counts
into_capture elapsed b =
    if b.failed
    then err LimitError.exhausted
    else if ltb b.limits.max_elapsed elapsed
    then err LimitError.elapsed
    else if is_some b.pending || b.requests == 0
    then err LimitError.incomplete
    else map_err (from_completed b.observation_id (counts b) b.exchanges)
        LimitError.capture_accounting
