-- ===== src/ResourceSupport.antt =====
-- src/resource_support.rs: what the memory and swap reports of one observation mean.
use docker_lens.Prelude.{
  ℕ, ◌≡◌, ◌↔◌, Bool, true, false, not, Option, none, some, arith, ◌==◌, nat_eq, Result, ok, err,
  if◌then◌else◌,
}
use docker_lens.Observation.{Availability, Origin, Observed}

pub record ResourceSupportObservation : Type 0 where
  pub observation_id : ℕ
  pub memory_limit : Observed Bool
  pub swap_limit : Observed Bool

pub data ReportedResourceSupport : Type 0 where
  reported_unavailable reported_available_unverified unknown : ReportedResourceSupport

pub record ResourceSupportAssessment : Type 0 where
  pub memory_limit : ReportedResourceSupport
  pub swap_limit : ReportedResourceSupport

pub data ResourceSupportError : Type 0 where
  observation_scope_mismatch : ResourceSupportError

-- behind the test on availability and origin
reported : Option Bool → ReportedResourceSupport
reported (some false) = ReportedResourceSupport.reported_unavailable
reported (some true) = ReportedResourceSupport.reported_available_unverified
reported none = ReportedResourceSupport.unknown

-- `report.availability != Present || report.origin != Effective`, negated
abbrev is_effective : Availability → Origin → Bool
is_effective Availability.present Origin.effective = true
is_effective _ _ = false

unfoldable pub assess_report : Observed Bool → ReportedResourceSupport
unfolding reported
assess_report report =
    if not (is_effective report.availability report.origin)
    then ReportedResourceSupport.unknown
    else reported report.value

unfoldable pub assess :
    ResourceSupportObservation → ℕ → Result ResourceSupportError ResourceSupportAssessment
unfolding assess_report
assess reports observation_id =
    if not (reports.observation_id == observation_id)
    then err ResourceSupportError.observation_scope_mismatch
    else ok (record {
      memory_limit = assess_report reports.memory_limit;
      swap_limit = assess_report reports.swap_limit;
    })

-- A report is an effective, present value `b`.
pub record Reports (b : Bool) (report : Observed Bool) : Type 0 where
  pub availability : report.availability ≡ Availability.present
  pub origin : report.origin ≡ Origin.effective
  pub value : report.value ≡ some b

-- Support is reported unavailable exactly for an effective, present `false`, and available but
-- unverified exactly for an effective, present `true`.
pub assess_report_iff :
    (report : Observed Bool)
    → ((assess_report report ≡ ReportedResourceSupport.reported_unavailable) ↔ Reports false report)
      × ((assess_report report ≡ ReportedResourceSupport.reported_available_unverified)
          ↔ Reports true report)
unfolding assess_report
assess_report_iff report = ground arith
