-- ===== src/Target/Graph.antt =====
-- `OperationGraph::new` and `DockerPlanner` of src/target_modules/graph.rs. The intent is its list of
-- resources, of which the references are distinct; `resources.get` is the first with the reference.
pub mod Valid
pub mod Accepted
pub mod Dependencies
pub mod Planner
use docker_lens.Prelude.{
  ℕ, suc, ◌≡◌, Bool, true, false, not, ◌&&◌, ◌||◌, Option, none, some, List, [], ◌∷◌, ◌++◌, map,
  length, any, find, contains, all_inserted, ◌==◌, nat_eq, option_eq, Result, ok, err, reject_if,
  ◌>>=◌, ◌>>◌, if◌then◌else◌,
}
use docker_lens.Observation.{ResourceRef}
use docker_lens.Version.Facts.{ApiVersion, api_ltb, DaemonMode}
use docker_lens.Target.Network.{NetworkSource, NetworkAttachmentIntent}
use docker_lens.Target.Container.{MountSource, Mount, ContainerIntent}
use docker_lens.Target.Resource.{TargetKind, target_kind_eq, TargetResource, reference, kind}
use docker_lens.Target.Node.{
  OperationAction, action_eq, Operation, OperationNode, OperationStepId, OperationStepAction,
  OperationStep, PlanningContext, PlanningCapabilitySet,
}
use docker_lens.Target.Cycles.{visited_nodes}
use docker_lens.Target.Needs.{PlanningError, check_resources}

pub record OperationGraph : Type 0 where
  pub intent : List TargetResource
  pub context : PlanningContext
  pub nodes : List OperationNode
  pub steps : List OperationStep

abbrev pub resource_of : OperationNode → ResourceRef
resource_of node = node.operation.resource

abbrev pub is_external : NetworkSource → Bool
is_external (NetworkSource.create c) = false
is_external (NetworkSource.external driver internal) = true

-- the local `action`
abbrev pub action_of : TargetResource → OperationAction
action_of (TargetResource.network n) =
    if is_external n.source then OperationAction.require_existing else OperationAction.create
action_of (TargetResource.external_volume r i) = OperationAction.require_existing
action_of (TargetResource.volume r i labels) = OperationAction.create
action_of (TargetResource.container c) = OperationAction.create

abbrev pub is_node_of : OperationNode → TargetResource → Bool
is_node_of node resource =
    reference resource == resource_of node
    && kind resource == node.operation.kind
    && node.operation.action == action_of resource

abbrev pub is_unknown_dependency : List ResourceRef → OperationNode → Bool
is_unknown_dependency references node =
    any (λ d. not (contains references d) || d == resource_of node) node.depends_on

-- the three checks at the start
unfoldable pub check_nodes :
    List TargetResource → List OperationNode → Result PlanningError (Unit {0})
check_nodes resources nodes = do
  reject_if
      (not (length nodes == length resources) || not (all_inserted [] (map resource_of nodes)))
      PlanningError.invalid_dependency
  reject_if (any (λ node. not (any (is_node_of node) resources)) nodes)
      PlanningError.invalid_dependency
  reject_if (any (is_unknown_dependency (map resource_of nodes)) nodes)
      PlanningError.invalid_dependency

abbrev pub get : List TargetResource → ResourceRef → Option TargetResource
get resources r = find (λ resource. reference resource == r) resources

-- the closure over the mounts
abbrev pub volume_of : MountSource → List (ResourceRef × TargetKind)
volume_of (MountSource.volume r) = (r, TargetKind.volume) ∷ []
volume_of (MountSource.bind path) = []
volume_of (MountSource.tmpfs options) = []

-- `filter_map` with it
abbrev pub volumes_of : List Mount → List (ResourceRef × TargetKind)
volumes_of [] = []
volumes_of (mount ∷ mounts) = volume_of mount.source ++ volumes_of mounts

-- the local `required`
abbrev pub required : ContainerIntent → List (ResourceRef × TargetKind)
required c =
    map (λ attachment. (attachment.network, TargetKind.network)) c.networks ++ volumes_of c.mounts

abbrev pub is_other_kind : Option TargetResource → TargetKind → Bool
is_other_kind none expected = true
is_other_kind (some resource) expected = not (kind resource == expected)

-- the loop over `required`
unfoldable pub check_required :
    List TargetResource
    → OperationNode
    → List (ResourceRef × TargetKind)
    → Result PlanningError (Unit {0})
check_required resources node [] = ok tt
check_required resources node ((r, expected) ∷ rest) = do
  reject_if (is_other_kind (get resources r) expected || not (contains node.depends_on r))
      (PlanningError.dependency_mismatch (resource_of node) r expected)
  check_required resources node rest

abbrev pub required_by : Option TargetResource → List (ResourceRef × TargetKind)
required_by (some (TargetResource.container c)) = required c
required_by _ = []

-- the loop over the nodes around it
unfoldable pub check_dependencies :
    List TargetResource → List OperationNode → Result PlanningError (Unit {0})
check_dependencies resources [] = ok tt
check_dependencies resources (node ∷ nodes) = do
  check_required resources node (required_by (get resources (resource_of node)))
  check_dependencies resources nodes

-- `visited != nodes.len()`; a panic, `none`, does not come behind `check_nodes`
unfoldable pub has_cycle : List OperationNode → Bool
has_cycle nodes = not (visited_nodes nodes == some (length nodes))

abbrev pub minimum_api : ApiVersion
minimum_api = record { major = 1; minor = 41 }

abbrev pub context_api : PlanningContext → ApiVersion
context_api (PlanningContext.observed scope) = scope.api_version
context_api (PlanningContext.target profile) = profile.identity.rendering_api_version

abbrev pub context_mode : PlanningContext → DaemonMode
context_mode (PlanningContext.observed scope) = scope.mode
context_mode (PlanningContext.target profile) = profile.identity.mode

unfoldable pub unsupported : ApiVersion → Bool
unsupported api = not (api.major == 1) || api_ltb api minimum_api

abbrev pub base : ResourceRef → OperationStepId
base r = record { resource = r; ordinal = 0 }

abbrev pub step_action : Operation → OperationStepAction
step_action operation = elim operation.action [
  | OperationAction.create ↦ OperationStepAction.create operation.kind
  | OperationAction.require_existing ↦ OperationStepAction.require_existing operation.kind
]

abbrev pub base_step : OperationNode → OperationStep
base_step node = record {
  id = base (resource_of node);
  action = step_action node.operation;
  depends_on = map base node.depends_on;
}

-- the loop over the attachments from an index on
abbrev pub connect_steps : ResourceRef → ℕ → List NetworkAttachmentIntent → List OperationStep
connect_steps r index [] = []
connect_steps r index (attachment ∷ attachments) =
    record {
      id = record { resource = r; ordinal = index };
      action = OperationStepAction.connect_network attachment.network index;
      depends_on = base r ∷ base attachment.network ∷ [];
    }
    ∷ connect_steps r (suc index) attachments

-- `enumerate().skip(1)`
abbrev pub attach_steps : ResourceRef → List NetworkAttachmentIntent → List OperationStep
attach_steps r [] = []
attach_steps r (first ∷ attachments) = connect_steps r 1 attachments

abbrev pub steps_behind : ResourceRef → Option TargetResource → List OperationStep
steps_behind r (some (TargetResource.container c)) = attach_steps r c.networks
steps_behind r _ = []

-- the last loop over the nodes
unfoldable pub steps_of : List TargetResource → List OperationNode → List OperationStep
steps_of resources [] = []
steps_of resources (node ∷ nodes) =
    base_step node
    ∷ (steps_behind (resource_of node) (get resources (resource_of node))
        ++ steps_of resources nodes)

-- `OperationGraph::new`
unfoldable pub operation_graph :
    List TargetResource
    → PlanningCapabilitySet
    → List OperationNode
    → Result PlanningError OperationGraph
operation_graph resources capabilities nodes = do
  check_nodes resources nodes
  check_dependencies resources nodes
  reject_if (has_cycle nodes) PlanningError.cycle
  reject_if (unsupported (context_api capabilities.context))
      (PlanningError.unsupported_api (context_api capabilities.context) minimum_api)
  check_resources capabilities.supports (context_mode capabilities.context) resources
  ok (record {
    intent = resources;
    context = capabilities.context;
    nodes = nodes;
    steps = steps_of resources nodes;
  })

-- `if !references.contains(r) { references.push(r) }`
abbrev pub push_new : List ResourceRef → List (ResourceRef × TargetKind) → List ResourceRef
push_new references [] = references
push_new references ((r, expected) ∷ rest) =
    push_new (if contains references r then references else references ++ r ∷ []) rest

abbrev pub dependencies_of : TargetResource → List ResourceRef
dependencies_of (TargetResource.container c) = push_new [] (required c)
dependencies_of _ = []

abbrev pub planned_node : TargetResource → OperationNode
planned_node resource = record {
  operation = record {
    resource = reference resource;
    kind = kind resource;
    action = action_of resource;
  };
  depends_on = dependencies_of resource;
}

-- `DockerPlanner::plan`
unfoldable pub plan :
    List TargetResource → PlanningCapabilitySet → Result PlanningError OperationGraph
plan resources capabilities = operation_graph resources capabilities (map planned_node resources)
