-- ===== src/Tests/Budget.antt =====
-- Tests of the budget and the capture of src/acquisition.rs and src/evidence.rs.
use docker_lens.Prelude.{
  ℕ, ◌≡◌, refl, ◌↔◌, inl, inr, Bool, true, false, none, some, List, [], ◌∷◌, codes, Bytes, ok,
  arith, lookup, or_insert, nat_eq,
}
use docker_lens.Observation.{Availability, Origin, unavailable, observed}
use docker_lens.ResourceSupport.{
  ResourceSupportObservation, assess_report, assess_report_iff, Reports,
}
use docker_lens.Evidence.{CapturedExchange, from_completed, total_bytes}
use docker_lens.Acquisition.Request.{ReadRequest, ResourceKind, Native}
use docker_lens.Acquisition.Limits.{Limits, validate, validate_iff, IsValid}
use docker_lens.Acquisition.Budget.{
  Budget, PendingRequest, Reader, empty_budget, new_budget, check_time, guard_request, conflicts,
  register, count_request, record_request, record_selection, record_expansion, complete, receive,
  read_response, into_capture, is_some,
}
use docker_lens.Acquisition.Budget.Steps.{Call, request, selection, response, step, run}
use docker_lens.Acquisition.Budget.Accounting.{IsSound}
use docker_lens.Acquisition.Budget.History.{
  HasWords, IsBounded, IsReady, captured, history-IsSound, into_capture_iff, into_capture-IsBounded,
}
use docker_lens.Acquisition.Budget.References.{reference-eq_iff, has_reference_iff}

abbrev limits : Limits
limits = record {
  max_requests = 4;
  max_selected_resources = 2;
  max_expansions = 2;
  max_response_bytes = 8;
  max_total_bytes = 12;
  max_elapsed = 1000;
}

limits-HasWords : HasWords limits
limits-HasWords = record { response = omega arith; total = omega arith }

validate_iff_example : IsValid limits × (limits ≡ limits)
unfolding validate
validate_iff_example = (validate_iff limits limits (omega arith)).0 refl

abbrev fresh : Budget
fresh = empty_budget 5 limits

made : new_budget limits (some 5) ≡ ok fresh
unfolding new_budget validate
made = refl

abbrev version : PendingRequest
version = record { request = ReadRequest.daemon_version; resource = none; api_version = none }

abbrev inspect : ℕ → Bytes → PendingRequest
inspect r id = record {
  request = ReadRequest.inspect_container id;
  resource = some r;
  api_version = some (record { major = 1; minor = 41 });
}

abbrev whole : Bytes → Reader
whole bytes = record { stream = bytes; breaks = false }

-- a version read, and one container inspected twice under one reference
abbrev calls : List Call
calls =
    request 1 version
    ∷ response 2 3 200 (whole (codes "{}"))
    ∷ selection 4 1
    ∷ request 5 (inspect 1 (codes "a"))
    ∷ response 6 7 200 (whole (codes "[]"))
    ∷ request 8 (inspect 1 (codes "a"))
    ∷ response 9 10 200 (whole (codes "[1]"))
    ∷ []

counted_requests : (run fresh calls).requests ≡ 3
unfolding run step record_request record_selection record_expansion read_response check_time
    guard_request conflicts register count_request receive complete lookup or_insert
counted_requests = refl

taken : into_capture 11 (run fresh calls) ≡ ok (captured (run fresh calls))
unfolding run step record_request record_selection record_expansion read_response check_time
    guard_request conflicts register count_request receive complete lookup or_insert into_capture
    from_completed total_bytes
taken = refl

-- a body that is longer than its allowance fails the budget
long_body_fails :
    (run fresh (request 1 version ∷ response 2 3 200 (whole (codes "123456789")) ∷ [])).failed
    ≡ true
unfolding run step record_request read_response check_time guard_request conflicts register
    count_request receive complete lookup or_insert
long_body_fails = refl

history-IsSound_example : IsSound limits (run fresh calls)
history-IsSound_example = history-IsSound limits (some 5) fresh calls limits-HasWords made

into_capture_iff_example :
    IsReady 11 (run fresh calls) × (captured (run fresh calls) ≡ captured (run fresh calls))
into_capture_iff_example =
    (into_capture_iff limits (some 5) fresh calls limits-HasWords made 11
        (captured (run fresh calls))).0
      taken

into_capture-IsBounded_example : IsBounded limits (captured (run fresh calls))
into_capture-IsBounded_example =
    into_capture-IsBounded limits (some 5) fresh calls limits-HasWords made 11
      (captured (run fresh calls)) taken

abbrev exchange : ℕ → Bytes → Bytes → CapturedExchange
exchange r id body = record {
  request = ReadRequest.inspect_container id;
  resource = some r;
  api_version = some (record { major = 1; minor = 41 });
  status = 200;
  body = body;
}

reference-eq_iff_example :
    (◌≡◌ {A = ℕ} 1 1)
    ↔ (◌≡◌ {A = Native} (ResourceKind.container, codes "a") (ResourceKind.container, codes "a"))
unfolding run step record_request record_selection record_expansion read_response check_time
    guard_request conflicts register count_request receive complete lookup or_insert
reference-eq_iff_example =
    reference-eq_iff limits (some 5) fresh calls limits-HasWords made 11
      (captured (run fresh calls)) taken (exchange 1 (codes "a") (codes "[]"))
      (exchange 1 (codes "a") (codes "[1]")) 1 1 (ResourceKind.container, codes "a")
      (ResourceKind.container, codes "a") (inr (inl refl)) (inr (inr (inl refl)))
      (record { resource = refl; native = refl }) (record { resource = refl; native = refl })

has_reference_iff_example :
    (is_some (exchange 1 (codes "a") (codes "[]")).resource ≡ true) ↔ (◌≡◌ {A = Bool} true true)
unfolding run step record_request record_selection record_expansion read_response check_time
    guard_request conflicts register count_request receive complete lookup or_insert
has_reference_iff_example =
    has_reference_iff limits (some 5) fresh calls limits-HasWords made 11
      (captured (run fresh calls)) taken (exchange 1 (codes "a") (codes "[]")) (inr (inl refl))

abbrev reports : ResourceSupportObservation
reports = record {
  observation_id = 5;
  memory_limit = observed true Availability.present Origin.effective;
  swap_limit = unavailable Availability.missing Origin.effective;
}

assess_report_iff_example : Reports true reports.memory_limit
unfolding assess_report
assess_report_iff_example = (assess_report_iff reports.memory_limit).1.0 refl
