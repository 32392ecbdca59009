-- ===== src/Acquisition/Budget/References.antt =====
-- The references of a capture of src/acquisition.rs: one to one with the native resources that its
-- exchanges inspect, after any calls on a new `Budget`.
use docker_lens.Prelude.{
  ℕ, ◌≡◌, refl, sym, ap, subst, ◌∙◌, ◌↔◌, ◌⊎◌, inl, inr, true, Option, none, some, List, [], ◌∷◌,
  arith, length, nat_eq, bool_eq, bool_beq_iff, lookup, IsInverse, Bytes, saturating_add, take, ok,
  Option-cases, All, All-snoc, In, All-In, some-eq_some,
}
use docker_lens.Observation.{ResourceRef}
use docker_lens.Evidence.{CapturedExchange, Capture}
use docker_lens.Acquisition.Request.{Native, native_eq, inspected}
use docker_lens.Acquisition.Limits.{Limits}
use docker_lens.Acquisition.Budget.{
  Budget, PendingRequest, Reader, Outcome, allowance, is_some, empty_budget, new_budget, check_time,
  guard_request, register, count_request, record_request, complete, receive, read_response,
  into_capture,
}
use docker_lens.Acquisition.Budget.Steps.{Call, request, selection, expansion, response, step, run}
use docker_lens.Acquisition.Budget.Accounting.{and_then_keeps}
use docker_lens.Acquisition.Budget.History.{HasWords, new_budget-empty, into_capture_iff}
use docker_lens.Acquisition.Budget.Registry.{
  RefMap, IsRegistered, ExchangeRegistered, HasRegistry, same_registry, check_time-HasRegistry,
  guard_request-HasRegistry, record_selection-HasRegistry, record_expansion-HasRegistry,
  register-HasRegistry, register-IsRegistered,
}

guard_request-parts :
    (b : Budget) (p : PendingRequest)
    → (guard_request p b).0 ≡ ok tt
    → is_some (inspected p.request) ≡ is_some p.resource
unfolding guard_request
guard_request-parts b p h =
    ground (arith, bool_beq_iff (is_some (inspected p.request)) (is_some p.resource))

-- `pending` becomes the request, or stays on a failure; the rest of the registry stays.
record Counted (p : PendingRequest) (b c : Budget) : Type 0 where
  ids : c.resource_ids ≡ b.resource_ids
  refs : c.native_refs ≡ b.native_refs
  exchanges : c.exchanges ≡ b.exchanges
  pending : (c.pending ≡ b.pending) ⊎ (c.pending ≡ some p)

count_request-Counted : (p : PendingRequest) (b : Budget) → Counted p b (count_request p b).1
unfolding count_request
count_request-Counted p b = record {
  ids = ground arith;
  refs = ground arith;
  exchanges = ground arith;
  pending = ground arith;
}

count_request-HasRegistry :
    (b : Budget) (p : PendingRequest)
    → IsRegistered b.resource_ids p.resource (inspected p.request)
    → HasRegistry b
    → HasRegistry (count_request p b).1
count_request-HasRegistry b p own h =
    let c = count_request-Counted p b in
    elim c.pending [
      | inl e ↦ same_registry b (count_request p b).1 c.ids c.refs e c.exchanges h
      | inr e ↦
          rw (c.ids, c.refs, e, c.exchanges)
            (record { inverse = h.inverse; waits = own; captured = h.captured })
    ]

record_request-HasRegistry :
    (b : Budget) (elapsed : ℕ) (p : PendingRequest)
    → HasRegistry b
    → HasRegistry (record_request elapsed p b).1
unfolding record_request
record_request-HasRegistry b elapsed p h =
    and_then_keeps HasRegistry (check_time elapsed b) _ (check_time-HasRegistry b h elapsed)
      λ _ b₁ _ h₁.
        and_then_keeps HasRegistry (guard_request p b₁) _ (guard_request-HasRegistry b₁ h₁ p)
          λ _ b₂ e₂ h₂.
            and_then_keeps HasRegistry (register p.resource (inspected p.request) b₂) _
              (register-HasRegistry b₂ h₂ p.resource (inspected p.request))
              λ _ b₃ e₃ h₃. count_request-HasRegistry b₃ p (own b₁ b₂ b₃ e₂ e₃) h₃
  where
    own :
        (b₁ b₂ b₃ : Budget)
        → guard_request p b₁ ≡ (ok tt, b₂)
        → register p.resource (inspected p.request) b₂ ≡ (ok tt, b₃)
        → IsRegistered b₃.resource_ids p.resource (inspected p.request)
    own b₁ b₂ b₃ e₂ e₃ =
        subst
          (λ (o : Outcome (Unit {0})).
            IsRegistered o.1.resource_ids p.resource (inspected p.request))
          e₃
          (register-IsRegistered b₂ p.resource (inspected p.request)
            (guard_request-parts b₁ p (ap (λ (o : Outcome (Unit {0})). o.0) e₂))
            (ap (λ (o : Outcome (Unit {0})). o.0) e₃))

complete-HasRegistry :
    (b : Budget) (p : PendingRequest) (status : ℕ) (bytes : Bytes)
    → b.pending ≡ some p
    → HasRegistry b
    → HasRegistry (complete p status bytes b).1
unfolding complete
complete-HasRegistry b p status bytes e h = record {
  inverse = h.inverse;
  waits = tt;
  captured =
      All-snoc (ExchangeRegistered b.resource_ids) b.exchanges _ h.captured (rw e at h.waits);
}

-- `receive` leaves the registry alone, or completes the pending request.
receive-HasRegistry :
    (b : Budget) (elapsed status : ℕ) (reader : Reader) (p : PendingRequest)
    → b.pending ≡ some p
    → HasRegistry b
    → HasRegistry (receive elapsed status reader p b).1
unfolding receive check_time
receive-HasRegistry b elapsed status reader p e h = ground (
  arith,
  complete-HasRegistry (record b { bytes_read = saturating_add b.bytes_read (length bytes) }) p
      status bytes e h,
  h,
)
  where
    bytes : Bytes
    bytes = take (saturating_add (allowance b) 1) reader.stream

read_response-HasRegistry :
    (b : Budget) (before after status : ℕ) (reader : Reader)
    → HasRegistry b
    → HasRegistry (read_response before after status reader b).1
unfolding read_response
read_response-HasRegistry b before after status reader h =
    and_then_keeps HasRegistry (check_time before b) _ (check_time-HasRegistry b h before)
      λ _ b₁ _ h₁. elim (Option-cases b₁.pending) [
        | inl e ↦ rw e h₁
        | inr (p, e) ↦ rw e (receive-HasRegistry b₁ after status reader p e h₁)
      ]

step-HasRegistry : (b : Budget) (c : Call) → HasRegistry b → HasRegistry (step b c)
unfolding step
step-HasRegistry b (request elapsed p) h = record_request-HasRegistry b elapsed p h
step-HasRegistry b (selection elapsed count) h = record_selection-HasRegistry b h elapsed count
step-HasRegistry b (expansion elapsed count) h = record_expansion-HasRegistry b h elapsed count
step-HasRegistry b (response before after status reader) h =
    read_response-HasRegistry b before after status reader h

run-HasRegistry : (b : Budget) (calls : List Call) → HasRegistry b → HasRegistry (run b calls)
unfolding run
run-HasRegistry b [] h = h
run-HasRegistry b (c ∷ calls) h = run-HasRegistry (step b c) calls (step-HasRegistry b c h)

-- an exchange that inspects `n` under the reference `r`
pub record Inspects (x : CapturedExchange) (r : ResourceRef) (n : Native) : Type 0 where
  pub resource : x.resource ≡ some r
  pub native : inspected x.request ≡ some n

registered_lookup :
    (ids : RefMap) (x : CapturedExchange) (r : ResourceRef) (n : Native)
    → Inspects x r n
    → ExchangeRegistered ids x
    → lookup r ids ≡ some n
registered_lookup ids x r n i h =
    let h' : IsRegistered ids (some r) (inspected x.request) = rw i.resource at h in
    let h'' : IsRegistered ids (some r) (some n) = rw i.native at h' in h''

module _ (l : Limits) (fresh : Option ℕ) (b : Budget) (calls : List Call) (w : HasWords l)
    (made : new_budget l fresh ≡ ok b) (elapsed : ℕ) (c : Capture)
    (taken : into_capture elapsed (run b calls) ≡ ok c) where
  captured_registry :
      (ids : RefMap) × IsInverse ids (run b calls).native_refs
      × All (ExchangeRegistered ids) c.exchanges
  captured_registry =
      let (id, e) = new_budget-empty l fresh b w.response made in
      let h = run-HasRegistry b calls (rw e (start id)) in
      let same = ((into_capture_iff l fresh b calls w made elapsed c).0 taken).1 in
      (
        (run b calls).resource_ids,
        h.inverse,
        subst (λ (d : Capture). All (ExchangeRegistered (run b calls).resource_ids) d.exchanges)
            same h.captured,
      )
    where
      start : (id : ℕ) → HasRegistry (empty_budget id l)
      start id = record {
        inverse = λ r n. unfold lookup in ((λ h. cc), (λ h. cc));
        waits = tt;
        captured = tt;
      }

  -- In a capture taken after any calls from a new budget with byte limits of 64 bits, two exchanges
  -- that inspect a resource have the same reference exactly when they inspect the same native
  -- resource.
  pub reference-eq_iff :
      (x y : CapturedExchange) (r q : ResourceRef) (m n : Native)
      → In x c.exchanges
      → In y c.exchanges
      → Inspects x r m
      → Inspects y q n
      → (r ≡ q) ↔ (m ≡ n)
  reference-eq_iff x y r q m n x_in y_in x_is y_is =
      let (ids, inverse, all) = captured_registry in
      let at_x =
        registered_lookup ids x r m x_is (All-In (ExchangeRegistered ids) x c.exchanges all x_in) in
      let at_y =
        registered_lookup ids y q n y_is (All-In (ExchangeRegistered ids) y c.exchanges all y_in) in
      (
        (λ e. some-eq_some (sym at_x ∙ ap (λ t. lookup t ids) e ∙ at_y)),
        (λ e. some-eq_some (
            sym ((inverse r m).0 at_x)
            ∙ ap (λ t. lookup t (run b calls).native_refs) e
            ∙ (inverse q n).0 at_y)),
      )

  -- In a capture taken after any calls from a new budget with byte limits of 64 bits, an exchange has a
  -- reference exactly when it inspects a resource.
  pub has_reference_iff :
      (x : CapturedExchange)
      → In x c.exchanges
      → (is_some x.resource ≡ true) ↔ (is_some (inspected x.request) ≡ true)
  has_reference_iff x x_in =
      let (ids, inverse, all) = captured_registry in
      both ids x.resource (inspected x.request)
        (All-In (ExchangeRegistered ids) x c.exchanges all x_in)
    where
      both :
          (ids : RefMap) (reference : Option ResourceRef) (native : Option Native)
          → IsRegistered ids reference native
          → (is_some reference ≡ true) ↔ (is_some native ≡ true)
      both ids none none h = ((λ e. e), (λ e. e))
      both ids (some r) (some n) h = ((λ e. refl), (λ e. refl))
      both ids none (some n) h = absurd h
      both ids (some r) none h = absurd h
