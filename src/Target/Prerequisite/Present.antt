-- ===== src/Target/Prerequisite/Present.antt =====
-- The evidence that `NetworkPrerequisite::assess` of src/target_modules/prerequisite.rs asks for.
use docker_lens.Prelude.{
  ◌≡◌, ◌↔◌, refl, ap, arith, Bool, true, false, not, ◌&&◌, not-false_iff, Option, none, some, Eq,
  nat_eq, list_eq, bool_eq, ok, reject_if, ◌>>◌, reject_if_iff, reject_if-ok_iff,
}
use docker_lens.Observation.{Availability, Origin, Observed}
use docker_lens.Target.Prerequisite.{
  NetworkPrerequisiteError, NetworkPrerequisite, NetworkObservation, is_present, origin_beq,
  origin_beq_iff, has_value, usable, holds, driver_name, check_internal, check_evidence,
}

-- a present field with an origin and a value
abbrev pub evidence : {T : Type 0} → Origin → T → Observed T
evidence origin v = record { availability = Availability.present; origin = origin; value = some v }

-- an expectation on the internal flag, if there is one
abbrev pub IsExpected : Option Bool → Observed Bool → Type 0
IsExpected none internal = Unit
IsExpected (some expected) internal = internal ≡ evidence Origin.effective expected

module _ {T : Type 0} ⦃e : Eq T⦄ where
  parts_iff :
      (a : Availability) (g o : Origin) (w : Option T) (v : T)
      → ((is_present a && origin_beq g o && has_value w) ≡ true) × (holds w v ≡ true)
        ↔ ((a ≡ Availability.present) × (g ≡ o) × (w ≡ some v))
  parts_iff a g o none v = ((λ h. cc), (λ h. cc))
  parts_iff Availability.present g o (some w) v = ground (arith, origin_beq_iff g o, e.beq_iff w v)
  parts_iff Availability.missing g o (some w) v = ((λ h. cc), (λ h. cc))
  parts_iff Availability.null g o (some w) v = ((λ h. cc), (λ h. cc))
  parts_iff Availability.empty g o (some w) v = ((λ h. cc), (λ h. cc))
  parts_iff Availability.redacted g o (some w) v = ((λ h. cc), (λ h. cc))

  evidence_iff :
      (f : Observed T) (o : Origin) (v : T)
      → ((not (usable f o) ≡ false) × (not (holds f.value v) ≡ false)) ↔ (f ≡ evidence o v)
  evidence_iff f o v =
      let parts = parts_iff f.availability f.origin o f.value v in
      let present = not-false_iff (usable f o) in
      let held = not-false_iff (holds f.value v) in
      (
        (λ h. let (a, g, w) = parts.0 (present.0 h.0, held.0 h.1) in rw (← a, ← g, ← w) refl),
        (λ same.
            let (u, k) =
              parts.1
                (ap (λ x. x.availability) same, ap (λ x. x.origin) same, ap (λ x. x.value) same) in
            (present.1 u, held.1 k)),
      )

check_internal_iff :
    (expected : Option Bool) (internal : Observed Bool)
    → (check_internal expected internal ≡ ok tt) ↔ IsExpected expected internal
unfolding check_internal
check_internal_iff none internal = ((λ h. tt), (λ h. refl))
check_internal_iff (some b) internal =
    let here = evidence_iff internal Origin.effective b in
    let first =
      reject_if_iff (not (usable internal Origin.effective))
        NetworkPrerequisiteError.invalid_network_internal_evidence
        (reject_if (not (holds internal.value b))
          NetworkPrerequisiteError.network_internal_mismatch)
        tt in
    let second =
      reject_if-ok_iff (not (holds internal.value b))
        NetworkPrerequisiteError.network_internal_mismatch in
    (
      (λ h. let (u, k) = first.0 h in here.0 (u, second.0 k)),
      (λ h. let (u, k) = here.1 h in first.1 (u, second.1 k)),
    )

-- the evidence of a network that a prerequisite accepts
abbrev pub IsEvidence : NetworkPrerequisite → NetworkObservation → Type 0
IsEvidence p n =
    (usable n.id Origin.runtime_assigned ≡ true)
    × (n.name ≡ evidence Origin.effective p.identity)
    × (n.driver ≡ evidence Origin.effective (driver_name p.expected_driver))
    × IsExpected p.expected_internal n.internal

pub check_evidence_iff :
    (p : NetworkPrerequisite) (n : NetworkObservation)
    → (check_evidence p n ≡ ok tt) ↔ IsEvidence p n
unfolding check_evidence
check_evidence_iff p n =
    let named = driver_name p.expected_driver in
    let k6 = check_internal p.expected_internal n.internal in
    let k5 =
      reject_if (not (holds n.driver.value named)) NetworkPrerequisiteError.network_driver_mismatch
      >> k6 in
    let k4 =
      reject_if (not (usable n.driver Origin.effective))
        NetworkPrerequisiteError.invalid_network_driver_evidence
      >> k5 in
    let k3 =
      reject_if (not (holds n.name.value p.identity)) NetworkPrerequisiteError.network_name_mismatch
      >> k4 in
    let k2 =
      reject_if (not (usable n.name Origin.effective))
        NetworkPrerequisiteError.invalid_network_name_evidence
      >> k3 in
    let s1 =
      reject_if_iff (not (usable n.id Origin.runtime_assigned))
        NetworkPrerequisiteError.invalid_network_id_evidence k2 tt in
    let s2 =
      reject_if_iff (not (usable n.name Origin.effective))
        NetworkPrerequisiteError.invalid_network_name_evidence k3 tt in
    let s3 =
      reject_if_iff (not (holds n.name.value p.identity))
        NetworkPrerequisiteError.network_name_mismatch k4 tt in
    let s4 =
      reject_if_iff (not (usable n.driver Origin.effective))
        NetworkPrerequisiteError.invalid_network_driver_evidence k5 tt in
    let s5 =
      reject_if_iff (not (holds n.driver.value named))
        NetworkPrerequisiteError.network_driver_mismatch k6 tt in
    let named_iff = evidence_iff n.name Origin.effective p.identity in
    let driver_iff = evidence_iff n.driver Origin.effective named in
    let internal_iff = check_internal_iff p.expected_internal n.internal in
    let id_iff = not-false_iff (usable n.id Origin.runtime_assigned) in
    (
      (λ h.
          let (a, h2) = s1.0 h in
          let (b, h3) = s2.0 h2 in
          let (c, h4) = s3.0 h3 in
          let (d, h5) = s4.0 h4 in
          let (f, h6) = s5.0 h5 in
          (id_iff.0 a, named_iff.0 (b, c), driver_iff.0 (d, f), internal_iff.0 h6)),
      (λ h.
          let (a, name, driver, internal) = h in
          let (b, c) = named_iff.1 name in
          let (d, f) = driver_iff.1 driver in
          s1.1 (id_iff.1 a, s2.1 (b, s3.1 (c, s4.1 (d, s5.1 (f, internal_iff.1 internal)))))),
    )
