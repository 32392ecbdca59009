-- ===== src/Target/Graph/Accepted.antt =====
-- What `OperationGraph::new` of src/target_modules/graph.rs accepts, and the graph that it builds.
use docker_lens.Prelude.{
  not-false_iff, ◌≡◌, ◌≤◌, arith, ◌↔◌, ap, false, some, List, length, All, All-In, In, ◌==◌, nat_eq,
  option_eq, option_beq_iff, Result, ok, ok-eq_ok, reject_if, ◌>>◌, reject_if_iff, >>_iff,
}
use docker_lens.Version.Facts.{ApiVersion}
use docker_lens.Target.Resource.{TargetResource}
use docker_lens.Target.Node.{OperationNode, PlanningCapabilitySet}
use docker_lens.Target.Cycles.{visited_nodes}
use docker_lens.Target.Cycles.Turn.{resources_of}
use docker_lens.Target.Cycles.Acyclic.{IsAcyclic, IsClosed, visited_nodes_iff}
use docker_lens.Target.Needs.{PlanningError, check_resources}
use docker_lens.Target.Needs.Granted.{IsGranted, check_resources_iff}
use docker_lens.Target.Graph.{
  OperationGraph, resource_of, check_nodes, check_dependencies, has_cycle, context_api,
  context_mode, minimum_api, unsupported, steps_of, operation_graph,
}
use docker_lens.Target.Graph.Valid.{
  IsLinked, HasRequired, IsNodes, check_nodes_iff, check_dependencies_iff,
}

-- The API version is 1.41 or a later one of major version 1.
abbrev pub IsCurrent : ApiVersion → Type 0
IsCurrent api = (api.major ≡ 1) × (41 ≤ api.minor)

unsupported_iff : (api : ApiVersion) → (unsupported api ≡ false) ↔ IsCurrent api
unfolding unsupported
unsupported_iff api = ground arith

-- The nodes are those of the resources, linked, without a cycle and with all that containers need; the
-- API is supported and each resource is granted.
pub record IsGraph (resources : List TargetResource) (capabilities : PlanningCapabilitySet)
    (nodes : List OperationNode) : Type 0 where
  pub matching : IsNodes resources nodes
  pub required : All (HasRequired resources) nodes
  pub acyclic : IsAcyclic nodes
  pub api : IsCurrent (context_api capabilities.context)
  pub granted : All (IsGranted capabilities.supports (context_mode capabilities.context)) resources

-- the graph that is built
abbrev pub graph_of :
    List TargetResource → PlanningCapabilitySet → List OperationNode → OperationGraph
graph_of resources capabilities nodes = record {
  intent = resources;
  context = capabilities.context;
  nodes = nodes;
  steps = steps_of resources nodes;
}

pub IsNodes-IsClosed :
    (resources : List TargetResource) (nodes : List OperationNode)
    → IsNodes resources nodes
    → IsClosed nodes
IsNodes-IsClosed resources nodes h n m d k =
    (All-In (λ e. In e (resources_of nodes) × (¬ (e ≡ resource_of n))) d n.depends_on
      (All-In (IsLinked nodes) n nodes h.linked m) k).0

has_cycle_iff :
    (resources : List TargetResource) (nodes : List OperationNode)
    → IsNodes resources nodes
    → (has_cycle nodes ≡ false) ↔ IsAcyclic nodes
unfolding has_cycle
has_cycle_iff resources nodes h =
    let counted = option_beq_iff (visited_nodes nodes) (some (length nodes)) in
    let acyclic = visited_nodes_iff nodes h.unique (IsNodes-IsClosed resources nodes h) in
    let flip = not-false_iff (visited_nodes nodes == some (length nodes)) in
    ((λ k. acyclic.0 (counted.0 (flip.0 k))), (λ k. flip.1 (counted.1 (acyclic.1 k))))

-- A graph is returned exactly if it is the one built and: the nodes are as many as the resources, have
-- distinct references and each the reference, kind and action of a resource; they depend on other
-- nodes; a container's node depends on the networks and volumes that it uses, which are networks and
-- volumes of the intent; the dependencies have ranks that grow from each one to its dependent; the API
-- is 1.41 or a later 1.x; and each resource's needs are supported and nothing of it is refused.
pub operation_graph_iff :
    (resources : List TargetResource) (capabilities : PlanningCapabilitySet)
    (nodes : List OperationNode) (g : OperationGraph)
    → (operation_graph resources capabilities nodes ≡ ok g)
      ↔ (IsGraph resources capabilities nodes × (graph_of resources capabilities nodes ≡ g))
unfolding operation_graph
operation_graph_iff resources capabilities nodes g =
    let api = context_api capabilities.context in
    let mode = context_mode capabilities.context in
    let built =
      (λ (b : Result PlanningError OperationGraph). b)
        (ok (graph_of resources capabilities nodes)) in
    let last = check_resources capabilities.supports mode resources >> built in
    let fourth =
      reject_if (unsupported api) (PlanningError.unsupported_api api minimum_api) >> last in
    let third = reject_if (has_cycle nodes) PlanningError.cycle >> fourth in
    let second = check_dependencies resources nodes >> third in
    let s1 = >>_iff (check_nodes resources nodes) second g in
    let s2 = >>_iff (check_dependencies resources nodes) third g in
    let s3 = reject_if_iff (has_cycle nodes) PlanningError.cycle fourth g in
    let s4 =
      reject_if_iff (unsupported api) (PlanningError.unsupported_api api minimum_api) last g in
    let s5 = >>_iff (check_resources capabilities.supports mode resources) built g in
    let nodes_iff = check_nodes_iff resources nodes in
    let granted_iff = check_resources_iff capabilities.supports mode resources in
    let required_iff = check_dependencies_iff resources nodes in
    (
      (λ h.
          let (a, h2) = s1.0 h in
          let (b, h3) = s2.0 h2 in
          let (c, h4) = s3.0 h3 in
          let (d, h5) = s4.0 h4 in
          let (e, f) = s5.0 h5 in
          let matching = nodes_iff.0 a in
          (
            record {
              matching = matching;
              required = required_iff.0 b;
              acyclic = (has_cycle_iff resources nodes matching).0 c;
              api = (unsupported_iff api).0 d;
              granted = granted_iff.0 e;
            },
            ok-eq_ok f,
          )),
      (λ h.
          let (p, same) = h in
          s1.1 (
            nodes_iff.1 p.matching,
            s2.1 (
              required_iff.1 p.required,
              s3.1 (
                (has_cycle_iff resources nodes p.matching).1 p.acyclic,
                s4.1 ((unsupported_iff api).1 p.api, s5.1 (granted_iff.1 p.granted, ap ok same)),
              ),
            ),
          )),
    )
