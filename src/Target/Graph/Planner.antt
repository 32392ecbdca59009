-- ===== src/Target/Graph/Planner.antt =====
-- `DockerPlanner::plan` of src/target_modules/graph.rs on the resources of an intent.
use docker_lens.Prelude.{
  ℕ, ◌≡◌, ◌<◌, ◌↔◌, refl, sym, subst, ap, ◌∙◌, arith, Option, none, some, List, [], ◌∷◌, map,
  length-map, find-In, In-map, In-map_origin, map_injective, All_of_In, All_map, find_of_In, All,
  All-In, In, Distinct, ◌==◌, nat_eq, nat_beq_iff, beq_refl, ok,
}
use docker_lens.Observation.{ResourceRef}
use docker_lens.Target.Resource.{TargetKind, TargetResource, reference, kind}
use docker_lens.Target.Node.{PlanningCapabilitySet}
use docker_lens.Target.Cycles.Turn.{resources_of}
use docker_lens.Target.Cycles.Acyclic.{IsAcyclic}
use docker_lens.Target.Needs.Granted.{IsGranted}
use docker_lens.Target.Graph.{
  OperationGraph, resource_of, get, required_by, context_api, context_mode, dependencies_of,
  planned_node, plan,
}
use docker_lens.Target.Graph.Dependencies.{
  dependencies_of-In, dependencies_of_needed, required_by-kind, required_by-container,
}
use docker_lens.Target.Graph.Valid.{IsNodeOf, IsLinked, IsGiven, HasRequired, IsNodes}
use docker_lens.Target.Graph.Accepted.{IsCurrent, graph_of, operation_graph_iff}

-- the resource that a container needs is in the intent and of its kind
abbrev pub IsPresent : List TargetResource → ResourceRef × TargetKind → Type 0
IsPresent resources (r, expected) =
    (t : TargetResource) × (get resources r ≡ some t) × (kind t ≡ expected)

abbrev pub IsResolved : List TargetResource → TargetResource → Type 0
IsResolved resources r = All (IsPresent resources) (required_by (some r))

-- one above the networks and volumes for a container
abbrev rank_of : TargetKind → ℕ
rank_of TargetKind.container = 1
rank_of TargetKind.network = 0
rank_of TargetKind.volume = 0

rank_of_other : (k : TargetKind) → ¬ (k ≡ TargetKind.container) → rank_of k ≡ 0
rank_of_other TargetKind.container h = absurd (h refl)
rank_of_other TargetKind.network h = refl
rank_of_other TargetKind.volume h = refl

abbrev found_rank : Option TargetResource → ℕ
found_rank none = 0
found_rank (some r) = rank_of (kind r)

resources_of-planned :
    (resources : List TargetResource)
    → resources_of (map planned_node resources) ≡ map reference resources
resources_of-planned [] = refl
resources_of-planned (r ∷ resources) =
    ap (λ rest. reference r ∷ rest) (resources_of-planned resources)

module _ (resources : List TargetResource) (unique : Distinct (map reference resources)) where
  get-reference : (r : TargetResource) → In r resources → get resources (reference r) ≡ some r
  get-reference r m =
      find_of_In (λ t. reference t == reference r) r resources m (beq_refl (reference r))
        (λ t k e.
          map_injective reference t r resources unique k m
            ((nat_beq_iff (reference t) (reference r)).0 e))

  get-In :
      (d : ResourceRef) (t : TargetResource)
      → get resources d ≡ some t
      → In t resources × (reference t ≡ d)
  get-In d t e =
      let (m, same) = find-In (λ r. reference r == d) t resources e in
      (m, (nat_beq_iff (reference t) d).0 same)

  module _ (resolved : All (IsResolved resources) resources) where
    -- what a dependency of a resource is
    dependency-IsPresent :
        (r : TargetResource) (d : ResourceRef)
        → In r resources
        → In d (dependencies_of r)
        → (t : TargetResource) × (get resources d ≡ some t)
          × (¬ (kind t ≡ TargetKind.container))
          × (kind r ≡ TargetKind.container)
    dependency-IsPresent r d m k =
        let (expected, needed) = dependencies_of-In d r k in
        let (t, found, same) =
          All-In (IsPresent resources) (d, expected) (required_by (some r))
            (All-In (IsResolved resources) r resources resolved m) needed in
        (
          t,
          found,
          (λ e. required_by-kind (d, expected) r needed (sym same ∙ e)),
          required_by-container (d, expected) r needed,
        )

    rank_grows :
        (r : TargetResource) (d : ResourceRef)
        → In r resources
        → In d (dependencies_of r)
        → found_rank (get resources d) < found_rank (get resources (reference r))
    rank_grows r d m k =
        let (t, found, low, high) = dependency-IsPresent r d m k in
        rw (found, get-reference r m, high, rank_of_other (kind t) low) (omega arith)

    planned-IsAcyclic : IsAcyclic (map planned_node resources)
    planned-IsAcyclic = (
      (λ d. found_rank (get resources d)),
      λ n m.
          let (r, k, e) = In-map_origin planned_node n resources m in
          subst
            (λ x.
              (d : ResourceRef)
              → In d x.depends_on
              → found_rank (get resources d) < found_rank (get resources (resource_of x)))
            e (λ d. rank_grows r d k),
    )

    planned-IsLinked :
        (r : TargetResource)
        → In r resources
        → IsLinked (map planned_node resources) (planned_node r)
    planned-IsLinked r m =
        All_of_In (λ d. In d (resources_of (map planned_node resources)) × (¬ (d ≡ reference r)))
          (dependencies_of r)
          (λ d k.
            let (t, found, low, high) = dependency-IsPresent r d m k in
            let (in_intent, same) = get-In d t found in
            (
              subst (λ x. In x (resources_of (map planned_node resources))) same
                  (In-map resource_of (planned_node t) (map planned_node resources)
                    (In-map planned_node t resources in_intent)),
              λ e. low (
                  subst (λ x. kind x ≡ TargetKind.container)
                    (map_injective reference r t resources unique m in_intent (sym e ∙ sym same))
                    high),
            ))

    planned-HasRequired :
        (r : TargetResource) → In r resources → HasRequired resources (planned_node r)
    planned-HasRequired r m =
        let present = All-In (IsResolved resources) r resources resolved m in
        rw (get-reference r m) (
          All_of_In (IsGiven resources (planned_node r)) (required_by (some r)) (λ p k. (
            All-In (IsPresent resources) p (required_by (some r)) present k,
            dependencies_of_needed p.0 p.1 r k,
          )))

    planned-IsNodes : IsNodes resources (map planned_node resources)
    planned-IsNodes = record {
      size = length-map planned_node resources;
      unique = rw (resources_of-planned resources) unique;
      matched =
          All_map planned_node (IsNodeOf resources) resources (λ r m. (r, m, refl, refl, refl));
      linked =
          All_map planned_node (IsLinked (map planned_node resources)) resources planned-IsLinked;
    }

  required-IsResolved :
      All (HasRequired resources) (map planned_node resources)
      → All (IsResolved resources) resources
  required-IsResolved h = All_of_In (IsResolved resources) resources (λ r m.
      let given =
        All-In (HasRequired resources) (planned_node r) (map planned_node resources) h
          (In-map planned_node r resources m) in
      let given' : All (IsGiven resources (planned_node r)) (required_by (some r)) =
        rw (get-reference r m) at given in
      All_of_In (IsPresent resources) (required_by (some r))
        (λ p k. (All-In (IsGiven resources (planned_node r)) p (required_by (some r)) given' k).0))

  -- For an intent with distinct references, a plan is returned exactly if: each network and volume that
  -- a container uses is a resource of that kind of the intent; the API is 1.41 or a later 1.x; and each
  -- resource's needs are supported and nothing of it is refused. The plan is the graph of the planned
  -- nodes.
  pub plan_iff :
      (capabilities : PlanningCapabilitySet) (g : OperationGraph)
      → (plan resources capabilities ≡ ok g) ↔ (
          All (IsResolved resources) resources
          × IsCurrent (context_api capabilities.context)
          × All (IsGranted capabilities.supports (context_mode capabilities.context)) resources
          × (graph_of resources capabilities (map planned_node resources) ≡ g))
  unfolding plan
  plan_iff capabilities g =
      let built = operation_graph_iff resources capabilities (map planned_node resources) g in
      (
        (λ h. let (p, e) = built.0 h in (required-IsResolved p.required, p.api, p.granted, e)),
        (λ h.
            let (resolved, api, granted, e) = h in
            built.1 (
              record {
                matching = planned-IsNodes resolved;
                required =
                    All_map planned_node (HasRequired resources) resources
                      (planned-HasRequired resolved);
                acyclic = planned-IsAcyclic resolved;
                api = api;
                granted = granted;
              },
              e,
            )),
      )
