-- ===== src/Acquisition/Budget/Registry.antt =====
-- The reference maps of `Budget` of src/acquisition.rs: after any calls, references and native
-- resources correspond one to one, and every inspection that is pending or captured is registered.
use docker_lens.Prelude.{
  ℕ, ◌≡◌, refl, ap, ◌⊎◌, inl, inr, false, Option, none, some, List, [], ◌∷◌, arith, ltb, nat_eq,
  lookup, lookup-or_insert, IsInverse, or_insert-IsInverse, word, ◌+◌, ok, Bool-cases, Eq, ||-false,
  All,
}
use docker_lens.Observation.{ResourceRef}
use docker_lens.Evidence.{CapturedExchange}
use docker_lens.Acquisition.Request.{Native, native_eq, inspected}
use docker_lens.Acquisition.Budget.{
  Budget, PendingRequest, is_some, differs, conflicts, register, check_time, guard_request,
  record_selection, record_expansion,
}

abbrev pub RefMap : Type 0
RefMap = List (ResourceRef × Native)

abbrev pub NativeMap : Type 0
NativeMap = List (Native × ResourceRef)

-- A request is registered under its reference, or has neither.
abbrev pub IsRegistered : RefMap → Option ResourceRef → Option Native → Type 0
IsRegistered ids (some r) (some n) = lookup r ids ≡ some n
IsRegistered ids none none = Unit
IsRegistered ids (some r) none = ⊥
IsRegistered ids none (some n) = ⊥

abbrev pub PendingRegistered : RefMap → Option PendingRequest → Type 0
PendingRegistered ids none = Unit
PendingRegistered ids (some p) = IsRegistered ids p.resource (inspected p.request)

abbrev pub ExchangeRegistered : RefMap → CapturedExchange → Type 0
ExchangeRegistered ids x = IsRegistered ids x.resource (inspected x.request)

pub record IsRegistry (ids : RefMap) (refs : NativeMap) (pending : Option PendingRequest)
    (exchanges : List CapturedExchange) : Type 0 where
  pub inverse : IsInverse ids refs
  pub waits : PendingRegistered ids pending
  pub captured : All (ExchangeRegistered ids) exchanges

abbrev pub HasRegistry : Budget → Type 0
HasRegistry b = IsRegistry b.resource_ids b.native_refs b.pending b.exchanges

differs-false :
    {A : Type 0} ⦃e : Eq A⦄ (o : Option A) (a : A) → differs o a ≡ false → (o ≡ none) ⊎ (o ≡ some a)
unfolding differs
differs-false none a h = inl refl
differs-false ⦃e⦄ (some b) a h = inr (ap some ((e.beq_iff b a).0 (ground arith)))

module _ (b : Budget) (r : ResourceRef) (n : Native) (free : conflicts r n b ≡ false) where
  neither :
      (differs (lookup r b.resource_ids) n ≡ false) × (differs (lookup n b.native_refs) r ≡ false)
  neither = ||-false _ _ (unfold conflicts in free)

  free_reference : (lookup r b.resource_ids ≡ none) ⊎ (lookup r b.resource_ids ≡ some n)
  free_reference = differs-false (lookup r b.resource_ids) n neither.0

  free_native : (lookup n b.native_refs ≡ none) ⊎ (lookup n b.native_refs ≡ some r)
  free_native = differs-false (lookup n b.native_refs) r neither.1

-- A registration keeps the maps inverse, keeps what is registered, and registers its own pair.
register-IsInverse :
    (b : Budget) (reference : Option ResourceRef) (native : Option Native)
    → IsInverse b.resource_ids b.native_refs
    → IsInverse
        (register reference native b).1.resource_ids
        (register reference native b).1.native_refs
unfolding register
register-IsInverse b none native inverse = inverse
register-IsInverse b (some r) none inverse = inverse
register-IsInverse b (some r) (some n) inverse = elim (Bool-cases (conflicts r n b)) [
  | inl clash ↦ rw clash inverse
  | inr free ↦ rw free (elim (Bool-cases (ltb (b.expansions + 1) word)) [
    | inl fits ↦ rw fits (elim (Bool-cases (ltb b.limits.max_expansions (b.expansions + 1))) [
      | inl over ↦ rw over inverse
      | inr within ↦ rw within (
          or_insert-IsInverse b.resource_ids b.native_refs r n (free_reference b r n free)
            (free_native b r n free) inverse)
    ])
    | inr full ↦ rw full inverse
  ])
]

-- The later map keeps what the earlier one registers.
abbrev Extends : RefMap → RefMap → Type 0
Extends later ids = (r : ResourceRef) (n : Native) → lookup r ids ≡ some n → lookup r later ≡ some n

register-Extends :
    (b : Budget) (reference : Option ResourceRef) (native : Option Native)
    → Extends (register reference native b).1.resource_ids b.resource_ids
unfolding register
register-Extends b none native r n h = h
register-Extends b (some q) none r n h = h
register-Extends b (some q) (some m) r n h =
    ground (arith, h, lookup-or_insert q r m b.resource_ids)

pub register-IsRegistered :
    (b : Budget) (reference : Option ResourceRef) (native : Option Native)
    → is_some native ≡ is_some reference
    → (register reference native b).0 ≡ ok tt
    → IsRegistered (register reference native b).1.resource_ids reference native
unfolding register
register-IsRegistered b none none same h = tt
register-IsRegistered b none (some n) same h = absurd (ground arith)
register-IsRegistered b (some r) none same h = absurd (ground arith)
register-IsRegistered b (some r) (some n) same h =
    ground (arith, lookup-or_insert r r n b.resource_ids, free_reference b r n)

IsRegistered-Extends :
    (ids later : RefMap) (reference : Option ResourceRef) (native : Option Native)
    → Extends later ids
    → IsRegistered ids reference native
    → IsRegistered later reference native
IsRegistered-Extends ids later (some r) (some n) x h = x r n h
IsRegistered-Extends ids later none none x h = tt
IsRegistered-Extends ids later (some r) none x h = h
IsRegistered-Extends ids later none (some n) x h = h

All-Extends :
    (ids later : RefMap) (xs : List CapturedExchange)
    → Extends later ids
    → All (ExchangeRegistered ids) xs
    → All (ExchangeRegistered later) xs
All-Extends ids later [] x h = tt
All-Extends ids later (y ∷ xs) x h = (
  IsRegistered-Extends ids later y.resource (inspected y.request) x h.0,
  All-Extends ids later xs x h.1,
)

PendingRegistered-Extends :
    (ids later : RefMap) (pending : Option PendingRequest)
    → Extends later ids
    → PendingRegistered ids pending
    → PendingRegistered later pending
PendingRegistered-Extends ids later none x h = tt
PendingRegistered-Extends ids later (some p) x h =
    IsRegistered-Extends ids later p.resource (inspected p.request) x h

register-unchanged :
    (b : Budget) (reference : Option ResourceRef) (native : Option Native)
    → ((register reference native b).1.pending ≡ b.pending)
      × ((register reference native b).1.exchanges ≡ b.exchanges)
unfolding register
register-unchanged b none native = (refl, refl)
register-unchanged b (some r) none = (refl, refl)
register-unchanged b (some r) (some n) = (ground arith, ground arith)

-- A budget that differs elsewhere has the same registry.
pub same_registry :
    (b c : Budget)
    → c.resource_ids ≡ b.resource_ids
    → c.native_refs ≡ b.native_refs
    → c.pending ≡ b.pending
    → c.exchanges ≡ b.exchanges
    → HasRegistry b
    → HasRegistry c
same_registry b c e₁ e₂ e₃ e₄ h = rw (e₁, e₂, e₃, e₄) h

module _ (b : Budget) (h : HasRegistry b) where
  pub check_time-HasRegistry : (elapsed : ℕ) → HasRegistry (check_time elapsed b).1
  unfolding check_time
  check_time-HasRegistry elapsed =
      same_registry b (check_time elapsed b).1 (ground arith) (ground arith) (ground arith)
        (ground arith) h

  pub guard_request-HasRegistry : (p : PendingRequest) → HasRegistry (guard_request p b).1
  unfolding guard_request
  guard_request-HasRegistry p =
      same_registry b (guard_request p b).1 (ground arith) (ground arith) (ground arith)
        (ground arith) h

  pub record_selection-HasRegistry :
      (elapsed count : ℕ) → HasRegistry (record_selection elapsed count b).1
  unfolding record_selection check_time
  record_selection-HasRegistry elapsed count =
      same_registry b (record_selection elapsed count b).1 (ground arith) (ground arith)
        (ground arith) (ground arith) h

  pub record_expansion-HasRegistry :
      (elapsed count : ℕ) → HasRegistry (record_expansion elapsed count b).1
  unfolding record_expansion check_time
  record_expansion-HasRegistry elapsed count =
      same_registry b (record_expansion elapsed count b).1 (ground arith) (ground arith)
        (ground arith) (ground arith) h

  pub register-HasRegistry :
      (reference : Option ResourceRef) (native : Option Native)
      → HasRegistry (register reference native b).1
  register-HasRegistry reference native =
      let x = register-Extends b reference native in
      record {
        inverse = register-IsInverse b reference native h.inverse;
        waits =
            rw (register-unchanged b reference native).0
              (PendingRegistered-Extends b.resource_ids _ b.pending x h.waits);
        captured =
            rw (register-unchanged b reference native).1
              (All-Extends b.resource_ids _ b.exchanges x h.captured);
      }
