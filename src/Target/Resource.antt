-- ===== src/Target/Resource.antt =====
-- `TargetResource` of src/target_modules/intent.rs, and `TargetKind` of src/target_modules/graph.rs.
use docker_lens.Prelude.{◌≡◌, ◌↔◌, arith, Bool, true, false, List, Eq, Bytes}
use docker_lens.Observation.{ResourceRef}
use docker_lens.Target.Network.{Label, NetworkIntent}
use docker_lens.Target.Container.{ContainerIntent}

pub data TargetKind : Type 0 where
  network volume container : TargetKind

abbrev pub target_kind_beq : TargetKind → TargetKind → Bool
target_kind_beq TargetKind.network TargetKind.network = true
target_kind_beq TargetKind.volume TargetKind.volume = true
target_kind_beq TargetKind.container TargetKind.container = true
target_kind_beq _ _ = false

pub target_kind_beq_iff : (a b : TargetKind) → (target_kind_beq a b ≡ true) ↔ (a ≡ b)
target_kind_beq_iff a b = ground arith

instance abbrev pub target_kind_eq : Eq TargetKind
target_kind_eq = record { beq = target_kind_beq; beq_iff = target_kind_beq_iff }

pub data TargetResource : Type 0 where
  network : NetworkIntent → TargetResource
  volume : ResourceRef → Bytes → List Label → TargetResource
  external_volume : ResourceRef → Bytes → TargetResource
  container : ContainerIntent → TargetResource

abbrev pub reference : TargetResource → ResourceRef
reference (TargetResource.network n) = n.reference
reference (TargetResource.volume r identity labels) = r
reference (TargetResource.external_volume r identity) = r
reference (TargetResource.container c) = c.reference

abbrev pub kind : TargetResource → TargetKind
kind (TargetResource.network n) = TargetKind.network
kind (TargetResource.volume r identity labels) = TargetKind.volume
kind (TargetResource.external_volume r identity) = TargetKind.volume
kind (TargetResource.container c) = TargetKind.container

-- the local `identity` of `TargetIntent::new_with_orchestration`
abbrev pub identity_of : TargetResource → Bytes
identity_of (TargetResource.network n) = n.identity
identity_of (TargetResource.volume r identity labels) = identity
identity_of (TargetResource.external_volume r identity) = identity
identity_of (TargetResource.container c) = c.identity
