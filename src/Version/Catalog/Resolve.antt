-- ===== src/Version/Catalog/Resolve.antt =====
-- `resolve` and `resolve_identity` of src/version.rs on a catalog that passed the gate.
use docker_lens.Prelude.{
  ◌≡◌, sym, ap, ◌∙◌, ◌↔◌, inl, inr, Bool, true, Option, none, some, List, [], ◌∷◌, arith, find,
  ◌==◌, ok, ok_or, In, Distinct, Bool-cases, find-In,
}
use docker_lens.Version.Facts.{CapabilityError}
use docker_lens.Version.Identity.{
  TargetProfileIdentity, identity_eq, identity_beq_iff, TargetProfile, profile_eq, profile_beq_iff,
}
use docker_lens.Version.Catalog.{TargetCapabilityRecord, resolve, resolve_identity}
use docker_lens.Version.Catalog.Admission.{identities, IsCatalog}

In-identities :
    (r : TargetCapabilityRecord) (rs : List TargetCapabilityRecord)
    → In r rs
    → In r.profile.identity (identities rs)
In-identities r [] m = m
In-identities r (x ∷ rs) (inl e) = inl (ap (λ (q : TargetCapabilityRecord). q.profile.identity) e)
In-identities r (x ∷ rs) (inr m) = inr (In-identities r rs m)

-- The first record that a test accepts is the record that it accepts, if the test implies its identity.
find_own :
    (p : TargetCapabilityRecord → Bool) (r : TargetCapabilityRecord)
    (rs : List TargetCapabilityRecord)
    → ((q : TargetCapabilityRecord) → p q ≡ true → q.profile.identity ≡ r.profile.identity)
    → p r ≡ true
    → Distinct (identities rs)
    → In r rs
    → find p rs ≡ some r
find_own p r [] only own d m = absurd m
find_own p r (x ∷ rs) only own d (inl e) = ground arith
find_own p r (x ∷ rs) only own d (inr m) = elim (Bool-cases (p x)) [
  | inl hit ↦ absurd (d.0 (rw (only x hit) (In-identities r rs m)))
  | inr miss ↦ ground (arith, find_own p r rs only own d.1 m)
]

ok_or-some :
    (o : Option TargetCapabilityRecord) (e : CapabilityError) (r : TargetCapabilityRecord)
    → ok_or o e ≡ ok r
    → o ≡ some r
ok_or-some none e r h = cc
ok_or-some (some x) e r h = cc

module _ (rs : List TargetCapabilityRecord) (v : IsCatalog rs) (r : TargetCapabilityRecord) where
  -- On an admitted catalog, an identity resolves to a record exactly when the record is in the
  -- catalog and has that identity.
  pub resolve_identity_iff :
      (i : TargetProfileIdentity)
      → (resolve_identity rs i ≡ ok r) ↔ (In r rs × (r.profile.identity ≡ i))
  unfolding resolve_identity
  resolve_identity_iff i = (forth, back)
    where
      forth : resolve_identity rs i ≡ ok r → In r rs × (r.profile.identity ≡ i)
      forth h =
          let (m, hit) = find-In (λ q. q.profile.identity == i) r rs (ok_or-some _ _ r h) in
          (m, (identity_beq_iff r.profile.identity i).0 hit)

      back : In r rs × (r.profile.identity ≡ i) → resolve_identity rs i ≡ ok r
      back (m, e) =
          ap (λ o. ok_or o CapabilityError.profile_not_reviewed)
            (find_own (λ q. q.profile.identity == i) r rs
              (λ q hit. (identity_beq_iff q.profile.identity i).0 hit ∙ sym e)
              ((identity_beq_iff r.profile.identity i).1 e) v.distinct m)

  -- On an admitted catalog, a profile resolves to a record exactly when the record is in the catalog
  -- and has that identity and that evidence key.
  pub resolve_iff : (p : TargetProfile) → (resolve rs p ≡ ok r) ↔ (In r rs × (r.profile ≡ p))
  unfolding resolve
  resolve_iff p = (forth, back)
    where
      forth : resolve rs p ≡ ok r → In r rs × (r.profile ≡ p)
      forth h =
          let (m, hit) = find-In (λ q. q.profile == p) r rs (ok_or-some _ _ r h) in
          (m, (profile_beq_iff r.profile p).0 hit)

      back : In r rs × (r.profile ≡ p) → resolve rs p ≡ ok r
      back (m, e) =
          ap (λ o. ok_or o CapabilityError.profile_not_reviewed)
            (find_own (λ q. q.profile == p) r rs
              (λ q hit.
                ap (λ (t : TargetProfile). t.identity)
                  ((profile_beq_iff q.profile p).0 hit ∙ sym e))
              ((profile_beq_iff r.profile p).1 e) v.distinct m)
