-- ===== src/Evidence.antt =====
-- src/evidence.rs: protected exchanges and the capture that they form. A `ProtectedValue` is its
-- bytes. A status is its code.
use docker_lens.Prelude.{
  ℕ, Bool, true, false, not, ◌&&◌, ◌||◌, Option, none, some, List, [], ◌∷◌, leb, length, ◌==◌,
  nat_eq, option_eq, Bytes, checked_add, Result, ok, err, if◌then◌else◌,
}
use docker_lens.Observation.{ResourceRef}
use docker_lens.Version.Facts.{ApiVersion}
use docker_lens.Acquisition.Request.{ReadRequest, SelectedRoot, Selector}

pub record CaptureBounds : Type 0 where
  pub request_count : ℕ
  pub selected_resources : ℕ
  pub expansions : ℕ
  pub bytes_read : ℕ

pub data CaptureError : Type 0 where
  accounting_mismatch invalid_status : CaptureError

-- `HttpStatus::new`
unfoldable pub http_status : ℕ → Result CaptureError ℕ
http_status code = if leb 100 code && leb code 599 then ok code else err CaptureError.invalid_status

pub record CapturedExchange : Type 0 where
  pub request : ReadRequest
  pub resource : Option ResourceRef
  pub api_version : Option ApiVersion
  pub status : ℕ
  pub body : Bytes

pub data CaptureRoute : Type 0 where
  caller_assembled explicit_unix_socket : CaptureRoute

pub record Capture : Type 0 where
  pub observation_id : ℕ
  pub bounds : CaptureBounds
  pub exchanges : List CapturedExchange
  pub route : CaptureRoute
  pub selected_roots : List SelectedRoot
  pub selector : Option Selector
  pub network_name_fallbacks : List ResourceRef
  pub discovery_only : Bool

-- the `try_fold` of `from_completed`
unfoldable pub total_bytes : ℕ → List CapturedExchange → Option ℕ
total_bytes sum [] = some sum
total_bytes sum (x ∷ exchanges) = elim (checked_add sum (length x.body)) [
  | none ↦ none
  | some next ↦ total_bytes next exchanges
]

-- `Capture::from_completed`
unfoldable pub from_completed :
    ℕ → CaptureBounds → List CapturedExchange → Result CaptureError Capture
from_completed observation_id bounds exchanges =
    if not (bounds.request_count == length exchanges)
      || not (total_bytes 0 exchanges == some bounds.bytes_read)
    then err CaptureError.accounting_mismatch
    else ok (record {
      observation_id = observation_id;
      bounds = bounds;
      exchanges = exchanges;
      route = CaptureRoute.caller_assembled;
      selected_roots = [];
      selector = none;
      network_name_fallbacks = [];
      discovery_only = false;
    })

pub with_explicit_socket : Capture → Capture
with_explicit_socket c = record c { route = CaptureRoute.explicit_unix_socket }

pub with_selected_roots : Capture → List SelectedRoot → Capture
with_selected_roots c roots = record c { selected_roots = roots }

pub with_selector : Capture → Selector → Capture
with_selector c selector = record c { selector = some selector }

pub with_network_name_fallbacks : Capture → List ResourceRef → Capture
with_network_name_fallbacks c references = record c { network_name_fallbacks = references }

pub with_discovery_only : Capture → Capture
with_discovery_only c = record c { discovery_only = true }
