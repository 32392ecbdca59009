-- ===== src/Target/Sources.antt =====
-- The two implementations of `PlanningCapabilitySet` in src/target_modules/graph.rs.
use docker_lens.Prelude.{Option, none, some}
use docker_lens.Version.Catalog.{TargetCapabilityRecord, supports}
use docker_lens.Version.Observed.{DaemonFacts, confirms, observed_scope}
use docker_lens.Target.Node.{PlanningContext, PlanningCapabilitySet}

-- for `TargetCapabilities`
abbrev pub target_set : TargetCapabilityRecord → PlanningCapabilitySet
target_set r = record { supports = supports r; context = PlanningContext.target r.profile }

-- for `ValidatedCapabilities`, with a panic of `expect` as `none`
unfoldable pub observed_set : DaemonFacts → Option PlanningCapabilitySet
observed_set facts = elim (observed_scope facts) [
  | none ↦ none
  | some scope ↦
      some (record { supports = confirms facts; context = PlanningContext.observed scope })
]
