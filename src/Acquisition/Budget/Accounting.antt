-- ===== src/Acquisition/Budget/Accounting.antt =====
-- The accounting of `Budget` of src/acquisition.rs: after any calls, as long as the budget has not
-- failed, its counters are exact and within the limits.
use docker_lens.Prelude.{
  ℕ, ◌+◌, ◌≤◌, ◌<◌, ◌≡◌, refl, ◌⊎◌, inl, inr, true, Option, none, some, List, [], ◌∷◌, ◌++◌, arith,
  length, length-append, take, nat_eq, word, Bytes, saturating_add, ok, err, All, All-snoc,
}
use docker_lens.Evidence.{CapturedExchange}
use docker_lens.Observation.{ResourceRef}
use docker_lens.Acquisition.Request.{Native}
use docker_lens.Acquisition.Limits.{Limits}
use docker_lens.Acquisition.Budget.{
  Budget, PendingRequest, Reader, Outcome, and_then, allowance, check_time, guard_request, register,
  count_request, record_selection, record_expansion, complete, receive,
}

-- the bytes of all bodies, with no overflow
abbrev pub body_bytes : List CapturedExchange → ℕ
body_bytes [] = 0
body_bytes (x ∷ exchanges) = length x.body + body_bytes exchanges

abbrev pub waiting : Option PendingRequest → ℕ
waiting none = 0
waiting (some p) = 1

abbrev pub Fits : Limits → CapturedExchange → Type 0
Fits l x = length x.body ≤ l.max_response_bytes

pub record IsAccounted (l : Limits) (b : Budget) : Type 0 where
  pub limits : b.limits ≡ l
  pub counted : b.requests ≡ length b.exchanges + waiting b.pending
  pub read : b.bytes_read ≡ body_bytes b.exchanges
  pub requests : b.requests ≤ l.max_requests
  pub selected_resources : b.selected_resources ≤ l.max_selected_resources
  pub expansions : b.expansions ≤ l.max_expansions
  pub total : b.bytes_read ≤ l.max_total_bytes
  pub bodies : All (Fits l) b.exchanges

-- The budget has failed, or its accounts are in order.
abbrev pub IsSound : Limits → Budget → Type 0
IsSound l b = (b.failed ≡ true) ⊎ IsAccounted l b

-- A step keeps what it is given to keep, and so does what follows it.
pub and_then_keeps :
    {A B : Type 0} (P : Budget → Type 0) (o : Outcome A) (k : A → Budget → Outcome B)
    → P o.1
    → ((a : A) (b : Budget) → o ≡ (ok a, b) → P b → P (k a b).1)
    → P (and_then o k).1
and_then_keeps P (ok a, b) k h keep = keep a b refl h
and_then_keeps P (err e, b) k h keep = h

body_bytes-append :
    (xs : List CapturedExchange) (x : CapturedExchange)
    → body_bytes (xs ++ x ∷ []) ≡ body_bytes xs + length x.body
body_bytes-append [] x = omega arith
body_bytes-append (y ∷ xs) x = omega (arith, body_bytes-append xs x)

module _ (l : Limits) (b : Budget) where
  pub check_time-IsSound : (elapsed : ℕ) → IsSound l b → IsSound l (check_time elapsed b).1
  unfolding check_time
  check_time-IsSound elapsed (inl f) = inl (ground arith)
  check_time-IsSound elapsed (inr a) = ground arith

  pub guard_request-IsSound : (p : PendingRequest) → IsSound l b → IsSound l (guard_request p b).1
  unfolding guard_request
  guard_request-IsSound p (inl f) = inl (ground arith)
  guard_request-IsSound p (inr a) = inr (ground arith)

  pub register-IsSound :
      (reference : Option ResourceRef) (native : Option Native)
      → IsSound l b
      → IsSound l (register reference native b).1
  unfolding register
  register-IsSound none native s = s
  register-IsSound (some r) none s = s
  register-IsSound (some r) (some n) (inl f) = inl (ground arith)
  register-IsSound (some r) (some n) (inr a) = ground arith

  pub register-pending :
      (reference : Option ResourceRef) (native : Option Native)
      → (register reference native b).1.pending ≡ b.pending
  unfolding register
  register-pending none native = refl
  register-pending (some r) none = refl
  register-pending (some r) (some n) = ground arith

  pub guard_request-pending :
      (p : PendingRequest) → (guard_request p b).0 ≡ ok tt → (guard_request p b).1.pending ≡ none
  unfolding guard_request
  guard_request-pending p h = ground arith

  pub count_request-IsSound :
      (p : PendingRequest) → b.pending ≡ none → IsSound l b → IsSound l (count_request p b).1
  unfolding count_request
  count_request-IsSound p e (inl f) = inl (ground arith)
  count_request-IsSound p e (inr a) = ground arith

  pub record_selection-IsSound :
      (elapsed count : ℕ) → IsSound l b → IsSound l (record_selection elapsed count b).1
  unfolding record_selection check_time
  record_selection-IsSound elapsed count (inl f) = inl (ground arith)
  record_selection-IsSound elapsed count (inr a) = ground arith

  pub record_expansion-IsSound :
      (elapsed count : ℕ) → IsSound l b → IsSound l (record_expansion elapsed count b).1
  unfolding record_expansion check_time
  record_expansion-IsSound elapsed count (inl f) = inl (ground arith)
  record_expansion-IsSound elapsed count (inr a) = ground arith

-- the exchange that a response adds
abbrev exchange_of : PendingRequest → ℕ → Bytes → CapturedExchange
exchange_of p status bytes = record {
  request = p.request;
  resource = p.resource;
  api_version = p.api_version;
  status = status;
  body = bytes;
}

module _ (l : Limits) (b : Budget) (p : PendingRequest) (total_is_word : l.max_total_bytes < word)
    (waits : b.pending ≡ some p) where
  -- what a body within the allowance leaves
  complete-IsAccounted :
      (status : ℕ) (bytes : Bytes)
      → IsAccounted l b
      → length bytes ≤ allowance b
      → IsAccounted l
          (complete p status bytes
            (record b { bytes_read = saturating_add b.bytes_read (length bytes) })).1
  unfolding complete
  complete-IsAccounted status bytes a fits = record {
    limits = a.limits;
    counted =
        let w : waiting b.pending ≡ 1 = rw waits refl in
        omega (arith, a.counted, length-append b.exchanges (exchange_of p status bytes ∷ []));
    read = ground (arith, sum, body_bytes-append b.exchanges (exchange_of p status bytes));
    requests = a.requests;
    selected_resources = a.selected_resources;
    expansions = a.expansions;
    total = ground (arith, sum);
    bodies = All-snoc (Fits l) b.exchanges (exchange_of p status bytes) a.bodies short;
  }
    where
      room : b.bytes_read + length bytes ≤ l.max_total_bytes
      room = let e = a.limits in ground arith

      short : length bytes ≤ l.max_response_bytes
      short = ground arith

      sum : saturating_add b.bytes_read (length bytes) ≡ b.bytes_read + length bytes
      sum = ground (arith, room)

  pub receive-IsSound :
      (elapsed status : ℕ) (reader : Reader)
      → IsSound l b
      → IsSound l (receive elapsed status reader p b).1
  unfolding receive check_time
  receive-IsSound elapsed status reader (inl f) = inl (ground arith)
  receive-IsSound elapsed status reader (inr a) =
      ground
        (arith, complete-IsAccounted status (take (saturating_add (allowance b) 1) reader.stream) a)
