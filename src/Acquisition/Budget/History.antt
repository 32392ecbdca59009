-- ===== src/Acquisition/Budget/History.antt =====
-- What any history of calls on a `Budget` of src/acquisition.rs comes to, and the capture taken from
-- it through `Capture::from_completed` of src/evidence.rs.
use docker_lens.Prelude.{
  ℕ, ◌+◌, ◌≤◌, ◌<◌, ◌≡◌, refl, sym, ap, ◌∙◌, subst, ◌↔◌, inl, inr, false, Option, none, some, List,
  [], ◌∷◌, arith, length, nat_eq, option_eq, word, Result, ok, err, Option-cases, All, >>=-eq-ok,
  option_beq_iff,
}
use docker_lens.Evidence.{CapturedExchange, Capture, CaptureRoute, total_bytes, from_completed}
use docker_lens.Acquisition.Request.{inspected}
use docker_lens.Acquisition.Limits.{Limits, LimitError, validate, validate_iff}
use docker_lens.Acquisition.Budget.{
  Budget, PendingRequest, Reader, Outcome, empty_budget, new_budget, check_time, guard_request,
  register, record_request, read_response, counts, into_capture,
}
use docker_lens.Acquisition.Budget.Steps.{Call, request, selection, expansion, response, step, run}
use docker_lens.Acquisition.Budget.Accounting.{
  IsAccounted, IsSound, Fits, body_bytes, waiting, and_then_keeps, check_time-IsSound,
  guard_request-IsSound, guard_request-pending, register-IsSound, register-pending,
  count_request-IsSound, record_selection-IsSound, record_expansion-IsSound, receive-IsSound,
}

module _ (l : Limits) (total_is_word : l.max_total_bytes < word) where
  record_request-IsSound :
      (b : Budget) (elapsed : ℕ) (p : PendingRequest)
      → IsSound l b
      → IsSound l (record_request elapsed p b).1
  unfolding record_request
  record_request-IsSound b elapsed p s =
      and_then_keeps (IsSound l) (check_time elapsed b) _ (check_time-IsSound l b elapsed s)
        λ _ b₁ _ s₁.
          and_then_keeps (IsSound l) (guard_request p b₁) _ (guard_request-IsSound l b₁ p s₁)
            λ _ b₂ e₂ s₂.
              and_then_keeps (IsSound l) (register p.resource (inspected p.request) b₂) _
                (register-IsSound l b₂ p.resource (inspected p.request) s₂)
                λ _ b₃ e₃ s₃. count_request-IsSound l b₃ p (free b₁ b₂ b₃ e₂ e₃) s₃
    where
      free :
          (b₁ b₂ b₃ : Budget)
          → guard_request p b₁ ≡ (ok tt, b₂)
          → register p.resource (inspected p.request) b₂ ≡ (ok tt, b₃)
          → b₃.pending ≡ none
      free b₁ b₂ b₃ e₂ e₃ =
          ap (λ (o : Outcome (Unit {0})). o.1.pending) (sym e₃)
          ∙ register-pending l b₂ p.resource (inspected p.request)
          ∙ ap (λ (o : Outcome (Unit {0})). o.1.pending) (sym e₂)
          ∙ guard_request-pending l b₁ p (ap (λ (o : Outcome (Unit {0})). o.0) e₂)

  read_response-IsSound :
      (b : Budget) (before after status : ℕ) (reader : Reader)
      → IsSound l b
      → IsSound l (read_response before after status reader b).1
  unfolding read_response
  read_response-IsSound b before after status reader s =
      and_then_keeps (IsSound l) (check_time before b) _ (check_time-IsSound l b before s)
        λ _ b₁ _ s₁. elim (Option-cases b₁.pending) [
          | inl e ↦ rw e s₁
          | inr (p, e) ↦ rw e (receive-IsSound l b₁ p total_is_word e after status reader s₁)
        ]

  -- A call keeps the accounts in order, or the budget has failed.
  step-IsSound : (b : Budget) (c : Call) → IsSound l b → IsSound l (step b c)
  unfolding step
  step-IsSound b (request elapsed p) s = record_request-IsSound b elapsed p s
  step-IsSound b (selection elapsed count) s = record_selection-IsSound l b elapsed count s
  step-IsSound b (expansion elapsed count) s = record_expansion-IsSound l b elapsed count s
  step-IsSound b (response before after status reader) s =
      read_response-IsSound b before after status reader s

  run-IsSound : (b : Budget) (calls : List Call) → IsSound l b → IsSound l (run b calls)
  unfolding run
  run-IsSound b [] s = s
  run-IsSound b (c ∷ calls) s = run-IsSound (step b c) calls (step-IsSound b c s)

ok_injective : {x y : Capture} → ◌≡◌ {A = Result LimitError Capture} (ok x) (ok y) → x ≡ y
ok_injective h = cc

pub new_budget-empty :
    (l : Limits) (fresh : Option ℕ) (b : Budget)
    → l.max_response_bytes < word
    → new_budget l fresh ≡ ok b
    → (id : ℕ) × (b ≡ empty_budget id l)
unfolding new_budget
new_budget-empty l none b small h =
    let (m, v, e) = >>=-eq-ok (validate l) (λ _. err LimitError.observation_id_exhausted) h in cc
new_budget-empty l (some id) b small h =
    let (m, v, e) = >>=-eq-ok (validate l) (λ (valid : Limits). ok (empty_budget id valid)) h in
    let same : l ≡ m = ((validate_iff l m small).0 v).1 in
    (id, ground (arith, ap (empty_budget id) same))

-- The two byte limits are values of `usize`.
pub record HasWords (l : Limits) : Type 0 where
  pub response : l.max_response_bytes < word
  pub total : l.max_total_bytes < word

-- From a new budget with byte limits of 64 bits, whatever is called and whatever the readers yield,
-- the budget has failed or its accounts are in order: requests are the exchanges and the one that
-- waits, bytes are the sum of the bodies, every counter is within its limit, and so is every body.
pub history-IsSound :
    (l : Limits) (fresh : Option ℕ) (b : Budget) (calls : List Call)
    → HasWords l
    → new_budget l fresh ≡ ok b
    → IsSound l (run b calls)
history-IsSound l fresh b calls w h =
    let (id, e) = new_budget-empty l fresh b w.response h in
    run-IsSound l w.total b calls (rw e (inr (start id)))
  where
    start : (id : ℕ) → IsAccounted l (empty_budget id l)
    start id = record {
      limits = refl;
      counted = refl;
      read = refl;
      requests = omega arith;
      selected_resources = omega arith;
      expansions = omega arith;
      total = omega arith;
      bodies = tt;
    }

total_bytes-body_bytes :
    (sum : ℕ) (xs : List CapturedExchange)
    → sum + body_bytes xs < word
    → total_bytes sum xs ≡ some (sum + body_bytes xs)
unfolding total_bytes
total_bytes-body_bytes sum [] h = ap some (omega arith)
total_bytes-body_bytes sum (x ∷ xs) h =
    ground (arith, total_bytes-body_bytes (sum + length x.body) xs (omega arith))

-- What a capture that a budget with the limits `l` hands out promises.
pub record IsBounded (l : Limits) (c : Capture) : Type 0 where
  pub requests : c.bounds.request_count ≤ l.max_requests
  pub complete : c.bounds.request_count ≡ length c.exchanges
  pub selected_resources : c.bounds.selected_resources ≤ l.max_selected_resources
  pub expansions : c.bounds.expansions ≤ l.max_expansions
  pub bytes : c.bounds.bytes_read ≡ body_bytes c.exchanges
  pub total : c.bounds.bytes_read ≤ l.max_total_bytes
  pub bodies : All (Fits l) c.exchanges

-- the capture of the exchanges that a budget holds
abbrev pub captured : Budget → Capture
captured b = record {
  observation_id = b.observation_id;
  bounds = counts b;
  exchanges = b.exchanges;
  route = CaptureRoute.caller_assembled;
  selected_roots = [];
  selector = none;
  network_name_fallbacks = [];
  discovery_only = false;
}

from_completed-captured :
    (l : Limits) (b : Budget)
    → l.max_total_bytes < word
    → b.pending ≡ none
    → IsAccounted l b
    → from_completed b.observation_id (counts b) b.exchanges ≡ ok (captured b)
unfolding from_completed counts
from_completed-captured l b w idle a =
    let n : waiting b.pending ≡ 0 = rw idle refl in
    let sum : total_bytes 0 b.exchanges ≡ some (0 + body_bytes b.exchanges) =
      total_bytes-body_bytes 0 b.exchanges (omega (arith, a.read, a.total)) in
    let read : total_bytes 0 b.exchanges ≡ some b.bytes_read =
      sum ∙ ap some (omega (arith, a.read)) in
    let count : b.requests ≡ length b.exchanges = omega (arith, a.counted) in
    ground (arith, (option_beq_iff (total_bytes 0 b.exchanges) (some b.bytes_read)).1 read)

captured-IsBounded :
    (l : Limits) (b : Budget) → b.pending ≡ none → IsAccounted l b → IsBounded l (captured b)
unfolding counts
captured-IsBounded l b idle a =
    let n : waiting b.pending ≡ 0 = rw idle refl in
    record {
      requests = a.requests;
      complete = omega (arith, a.counted);
      selected_resources = a.selected_resources;
      expansions = a.expansions;
      bytes = a.read;
      total = a.total;
      bodies = a.bodies;
    }

-- what `into_capture` tests
abbrev pub IsReady : ℕ → Budget → Type 0
IsReady elapsed b =
    (b.failed ≡ false) × (elapsed ≤ b.limits.max_elapsed) × (b.pending ≡ none) × (0 < b.requests)

into_capture-captured :
    (elapsed : ℕ) (b : Budget)
    → IsReady elapsed b
    → from_completed b.observation_id (counts b) b.exchanges ≡ ok (captured b)
    → into_capture elapsed b ≡ ok (captured b)
unfolding into_capture
into_capture-captured elapsed b (alive, timely, idle, asked) e = rw (alive, idle, e) (ground arith)

into_capture-IsReady :
    (elapsed : ℕ) (b : Budget) (c : Capture) → into_capture elapsed b ≡ ok c → IsReady elapsed b
unfolding into_capture
into_capture-IsReady elapsed b c h = (ground arith, ground arith, ground arith, ground arith)

module _ (l : Limits) (fresh : Option ℕ) (b : Budget) (calls : List Call) (w : HasWords l)
    (made : new_budget l fresh ≡ ok b) where
  accounts : (run b calls).failed ≡ false → IsAccounted l (run b calls)
  accounts alive = elim (history-IsSound l fresh b calls w made) [
    | inl f ↦ absurd (ground arith)
    | inr a ↦ a
  ]

  -- After any calls from a new budget with byte limits of 64 bits, `into_capture` hands out the
  -- exchanges exactly when the budget has not failed, is in time, waits for no response and has made
  -- a request: the accounting test of `Capture::from_completed` never refuses.
  pub into_capture_iff :
      (elapsed : ℕ) (c : Capture)
      → (into_capture elapsed (run b calls) ≡ ok c)
        ↔ (IsReady elapsed (run b calls) × (captured (run b calls) ≡ c))
  into_capture_iff elapsed c = (forth, back)
    where
      hands_out :
          IsReady elapsed (run b calls)
          → into_capture elapsed (run b calls) ≡ ok (captured (run b calls))
      hands_out r =
          into_capture-captured elapsed (run b calls) r
            (from_completed-captured l (run b calls) w.total r.2 (accounts r.0))

      forth :
          into_capture elapsed (run b calls) ≡ ok c
          → IsReady elapsed (run b calls) × (captured (run b calls) ≡ c)
      forth h =
          let r = into_capture-IsReady elapsed (run b calls) c h in
          (r, ok_injective (sym (hands_out r) ∙ h))

      back :
          IsReady elapsed (run b calls) × (captured (run b calls) ≡ c)
          → into_capture elapsed (run b calls) ≡ ok c
      back (r, e) = hands_out r ∙ ap ok e

  -- A capture taken after any calls from a new budget with byte limits of 64 bits is complete and
  -- within the limits: one exchange for each counted request, bytes that are the sum of the bodies,
  -- and every counter and every body within its limit.
  pub into_capture-IsBounded :
      (elapsed : ℕ) (c : Capture) → into_capture elapsed (run b calls) ≡ ok c → IsBounded l c
  into_capture-IsBounded elapsed c h =
      let (r, e) = (into_capture_iff elapsed c).0 h in
      subst (IsBounded l) e (captured-IsBounded l (run b calls) r.2 (accounts r.0))
