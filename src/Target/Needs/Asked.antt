-- ===== src/Target/Needs/Asked.antt =====
-- The calls of `require` in src/target_modules/graph.rs ask for what a resource uses.
use docker_lens.Prelude.{Bytes, ◌≡◌, refl, Bool, true, false, ◌||◌, List, ◌∷◌, any}
use docker_lens.Observation.{ResourceRef}
use docker_lens.Version.Capability.{Capability, capability_eq}
use docker_lens.Target.Network.{NetworkRole, NetworkCreate, NetworkSource, NetworkAttachmentIntent}
use docker_lens.Target.Publication.{PortPublication}
use docker_lens.Target.Container.{Mount, ContainerIntent}
use docker_lens.Target.Resource.{TargetResource}
use docker_lens.Target.Needs.{
  TargetField, Need, need, for_each, create_needs, port_needs, mount_needs, attachment_needs,
  container_needs, first_need, other_needs,
}
use docker_lens.Target.Needs.Uses.{
  port_uses, mount_uses, attachment_uses, container_uses, create_uses, source_uses, uses,
}
use docker_lens.Target.Needs.Parts.{
  asks, any-for_each, needs, settings_needs-uses, port_needs-uses, mount_needs-uses,
  attachment_needs-uses, health_needs-uses,
}

-- all calls of `require` for a resource
abbrev pub needs_of : TargetResource → List Need
needs_of r = first_need r ∷ other_needs r

create_needs-uses :
    (c : Capability) (n : NetworkCreate)
    → (asks c (need TargetField.resource Capability.bridge_network)
        || any (asks c) (create_needs n))
      ≡ create_uses c n
create_needs-uses Capability.bridge_network n = refl
create_needs-uses _ n = simp needs

ports-uses :
    (c : Capability) (ports : List PortPublication)
    → any (asks c) (for_each port_needs ports) ≡ any (port_uses c) ports
ports-uses c = any-for_each (asks c) port_needs (port_uses c) (port_needs-uses c)

mounts-uses :
    (c : Capability) (mounts : List Mount)
    → any (asks c) (for_each mount_needs mounts) ≡ any (mount_uses c) mounts
mounts-uses c = any-for_each (asks c) mount_needs (mount_uses c) (mount_needs-uses c)

attachments-uses :
    (c : Capability) (attachments : List NetworkAttachmentIntent)
    → any (asks c) (for_each attachment_needs attachments) ≡ any (attachment_uses c) attachments
attachments-uses c =
    any-for_each (asks c) attachment_needs (attachment_uses c) (attachment_needs-uses c)

or_assoc : (a b c : Bool) → (a || (b || c)) ≡ ((a || b) || c)
or_assoc true b c = refl
or_assoc false b c = refl

ruleset parts = (
  needs, or_assoc, ports-uses, mounts-uses, attachments-uses, health_needs-uses,
  settings_needs-uses,
)

-- a container's calls, part by part
container_needs-uses :
    (c : Capability) (k : ContainerIntent)
    → (asks c (need TargetField.resource Capability.standalone_container)
        || any (asks c) (container_needs k))
      ≡ container_uses c k
container_needs-uses Capability.standalone_container k = refl
container_needs-uses Capability.command k = simp parts
container_needs-uses Capability.bridge_network k = simp parts
container_needs-uses _ k = simp parts

source-uses :
    (c : Capability) (r : ResourceRef) (identity : Bytes) (role : NetworkRole)
    (source : NetworkSource)
    → any (asks c) (
        needs_of (
          TargetResource.network
            (record { reference = r; identity = identity; role = role; source = source })))
      ≡ source_uses c source
source-uses c r identity role (NetworkSource.create n) = create_needs-uses c n
source-uses Capability.network_external_reference r identity role
      (NetworkSource.external d internal) =
    refl
source-uses _ r identity role (NetworkSource.external d internal) = simp needs

-- A resource's calls ask for a capability exactly if the resource uses it.
pub needs_of-uses : (c : Capability) (r : TargetResource) → any (asks c) (needs_of r) ≡ uses c r
needs_of-uses c (TargetResource.network n) = source-uses c n.reference n.identity n.role n.source
needs_of-uses Capability.named_volume (TargetResource.volume r i labels) = refl
needs_of-uses _ (TargetResource.volume r i labels) = simp needs
needs_of-uses Capability.volume_external_reference (TargetResource.external_volume r i) = refl
needs_of-uses _ (TargetResource.external_volume r i) = refl
needs_of-uses c (TargetResource.container k) = container_needs-uses c k
