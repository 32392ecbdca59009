-- ===== src/Target/Node.antt =====
-- The operations, nodes and steps of src/target_modules/graph.rs, and its planning contexts.
use docker_lens.Prelude.{ℕ, ◌≡◌, ◌↔◌, arith, Bool, true, false, List, Eq}
use docker_lens.Observation.{ResourceRef}
use docker_lens.Version.Capability.{Capability}
use docker_lens.Version.Identity.{TargetProfile}
use docker_lens.Version.Observed.{CapabilityScope}
use docker_lens.Target.Resource.{TargetKind}

pub data OperationAction : Type 0 where
  create require_existing : OperationAction

abbrev pub action_beq : OperationAction → OperationAction → Bool
action_beq OperationAction.create OperationAction.create = true
action_beq OperationAction.require_existing OperationAction.require_existing = true
action_beq _ _ = false

pub action_beq_iff : (a b : OperationAction) → (action_beq a b ≡ true) ↔ (a ≡ b)
action_beq_iff a b = ground arith

instance abbrev pub action_eq : Eq OperationAction
action_eq = record { beq = action_beq; beq_iff = action_beq_iff }

pub record Operation : Type 0 where
  pub resource : ResourceRef
  pub kind : TargetKind
  pub action : OperationAction

pub record OperationNode : Type 0 where
  pub operation : Operation
  pub depends_on : List ResourceRef

pub record OperationStepId : Type 0 where
  pub resource : ResourceRef
  pub ordinal : ℕ

pub data OperationStepAction : Type 0 where
  create : TargetKind → OperationStepAction
  require_existing : TargetKind → OperationStepAction
  -- the network and the index of the attachment
  connect_network : ResourceRef → ℕ → OperationStepAction

pub record OperationStep : Type 0 where
  pub id : OperationStepId
  pub action : OperationStepAction
  pub depends_on : List OperationStepId

pub data PlanningContext : Type 0 where
  observed : CapabilityScope → PlanningContext
  target : TargetProfile → PlanningContext

-- the trait `PlanningCapabilitySet`
pub record PlanningCapabilitySet : Type 0 where
  pub supports : Capability → Bool
  pub context : PlanningContext
