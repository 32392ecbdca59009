-- ===== src/Tests/Targets.antt =====
-- Tests of the target intents and their plans: a container with a port, a network and a volume.
use docker_lens.Prelude.{
  ℕ, ◌≡◌, ◌↔◌, ◌≤◌, refl, false, none, some, List, [], ◌∷◌, map, length, all_inserted, split_on,
  All, Distinct, codes, ok,
}
use docker_lens.Version.Capability.{Capability, capability_eq}
use docker_lens.Version.Facts.{CapabilityState, DaemonMode}
use docker_lens.Version.Catalog.{TargetCapabilityRecord, TargetCapabilityFact, supports}
use docker_lens.Version.Observed.{
  CapabilityScope, FactProvenance, DaemonFacts, validate_facts, validate_identified,
  validated_capabilities, confirms, observed_scope,
}
use docker_lens.Version.Observed.Validated.{IsConfirmed, validated_capabilities-IsConfirmed}
use docker_lens.Version.Observed.Accepted.{IsValidated, validated_capabilities_iff}
use docker_lens.Version.Identity.{minimum_api}
use docker_lens.Tests.Catalog.{sample}
use docker_lens.Target.Network.{NetworkRole, NetworkSource, bridge_network}
use docker_lens.Target.Container.{ImageCommand, MountSource, ContainerSettings, ContainerIntent}
use docker_lens.Target.Publication.{Protocol, PortHostIp, PortHostPort}
use docker_lens.Target.Resource.{TargetKind, TargetResource, reference}
use docker_lens.Target.Intent.{
  validate_volume_labels, validate_identities, clean, lexical_absolute_path_key, validate_addresses,
  validate_attachments, validate_container, validate_resources, new_with_orchestration,
  target_intent,
}
use docker_lens.Target.Pools.{validate_options, validate_ipam, validate_source}
use docker_lens.Target.Settings.{
  validate_ulimits, validate_devices, validate_sysctls, validate_log, validate_container_settings,
}
use docker_lens.Target.Ports.{host_ip_overlaps, bind_port, bind_ports, validate_ports}
use docker_lens.Target.Intent.Accepted.{IsIntent, target_intent-IsIntent}
use docker_lens.Target.Node.{OperationAction, OperationNode}
use docker_lens.Target.Sources.{target_set}
use docker_lens.Target.Cycles.{
  to_set, push_dependent, push_dependents, dependents_map, next_of, initial_ready, decrement,
  release_one, release, visit, visited_nodes,
}
use docker_lens.Target.Cycles.Acyclic.{IsAcyclic, visited_nodes_iff}
use docker_lens.Target.Cycles.Run.{visited_nodes_total}
use docker_lens.Target.Needs.{TargetField, require_all, check_resource, check_resources}
use docker_lens.Target.Needs.Granted.{
  IsGranted, IsMissing, check_resources_iff, check_resources-IsMissing,
}
use docker_lens.Target.Graph.{
  OperationGraph, planned_node, check_nodes, check_required, check_dependencies, has_cycle,
  unsupported, steps_of, operation_graph, plan,
}
use docker_lens.Target.Graph.Accepted.{
  IsCurrent, IsGraph, IsNodes-IsClosed, graph_of, operation_graph_iff,
}
use docker_lens.Target.Graph.Valid.{IsNodes}
use docker_lens.Target.Graph.Planner.{IsResolved, plan_iff}

abbrev no_settings : ContainerSettings
no_settings = record {
  labels = [];
  user = none;
  working_dir = none;
  hostname = none;
  read_only_rootfs = none;
  init = none;
  stop_signal = none;
  stop_timeout_seconds = none;
  memory_limit = none;
  pids_limit = none;
  shm_size_bytes = none;
  ulimits = [];
  devices = [];
  cap_add = [];
  cap_drop = [];
  security_options = [];
  sysctls = [];
  group_add = [];
  dns = [];
  extra_hosts = [];
  log_config = none;
  userns_mode = none;
}

abbrev backend : TargetResource
backend = TargetResource.network (record {
  reference = 1;
  identity = codes "backend";
  role = NetworkRole.declared;
  source = NetworkSource.create bridge_network;
})

abbrev storage : TargetResource
storage = TargetResource.volume 2 (codes "storage") []

abbrev server : ContainerIntent
server = record {
  reference = 3;
  identity = codes "server";
  image = codes "server:1";
  environment = [];
  ports =
      record {
        container = 80;
        protocol = Protocol.tcp;
        bindings =
            record { host_ip = PortHostIp.unspecified; host_port = PortHostPort.fixed 8080 } ∷ [];
      }
      ∷ [];
  mounts =
      record {
        source = MountSource.volume 2;
        target = codes "/data";
        read_only = false;
        bind_relabel = none;
      }
      ∷ [];
  networks = record { network = 1; aliases = []; ipv4_address = none; ipv6_address = none } ∷ [];
  entrypoint = ImageCommand.inherit;
  command = ImageCommand.inherit;
  healthcheck = none;
  restart = none;
  settings = no_settings;
}

abbrev resources : List TargetResource
resources = backend ∷ storage ∷ TargetResource.container server ∷ []

abbrev available : Capability → TargetCapabilityFact
available c = record { capability = c; state = CapabilityState.available }

abbrev granting : TargetCapabilityRecord
granting = record sample {
  capabilities =
      available Capability.bridge_network
      ∷ available Capability.named_volume
      ∷ available Capability.standalone_container
      ∷ available Capability.port_publish
      ∷ [];
}

resources_pass : target_intent resources ≡ ok resources
unfolding target_intent new_with_orchestration all_inserted validate_identities
    validate_volume_labels validate_resources validate_source validate_container validate_ports
    bind_ports bind_port host_ip_overlaps validate_attachments validate_addresses validate_options
    validate_ipam lexical_absolute_path_key clean validate_container_settings bridge_network
    split_on validate_ulimits validate_devices validate_sysctls validate_log
resources_pass = refl

target_intent-IsIntent_example : (resources ≡ resources) × IsIntent resources
target_intent-IsIntent_example = target_intent-IsIntent resources resources resources_pass

plan_passes :
    plan resources (target_set granting)
    ≡ ok (graph_of resources (target_set granting) (map planned_node resources))
unfolding plan operation_graph check_nodes all_inserted check_dependencies check_required has_cycle
    visited_nodes visit initial_ready to_set release next_of dependents_map push_dependents
    push_dependent release_one decrement steps_of unsupported check_resource check_resources
    require_all supports bridge_network
plan_passes = refl

abbrev nodes : List OperationNode
nodes = map planned_node resources

abbrev graph : OperationGraph
graph = graph_of resources (target_set granting) nodes

references-Distinct : Distinct (map reference resources)
references-Distinct = target_intent-IsIntent_example.1.references

operation_graph_iff_example : IsGraph resources (target_set granting) nodes × (graph ≡ graph)
unfolding plan
operation_graph_iff_example =
    (operation_graph_iff resources (target_set granting) nodes graph).0 plan_passes

plan_iff_example :
    All (IsResolved resources) resources
    × IsCurrent minimum_api
    × All (IsGranted (target_set granting).supports DaemonMode.rootful) resources
    × (graph ≡ graph)
plan_iff_example =
    (plan_iff resources references-Distinct (target_set granting) graph).0 plan_passes

nodes-IsNodes : IsNodes resources nodes
nodes-IsNodes = operation_graph_iff_example.0.matching

visited_nodes_total_example : (k : ℕ) × (visited_nodes nodes ≡ some k) × (k ≤ length nodes)
visited_nodes_total_example = visited_nodes_total nodes nodes-IsNodes.unique

visited_nodes_iff_example : (visited_nodes nodes ≡ some 3) ↔ IsAcyclic nodes
visited_nodes_iff_example =
    visited_nodes_iff nodes nodes-IsNodes.unique (IsNodes-IsClosed resources nodes nodes-IsNodes)

check_resources_iff_example : All (IsGranted (supports granting) DaemonMode.rootful) resources
unfolding check_resources check_resource require_all supports bridge_network
check_resources_iff_example =
    (check_resources_iff (supports granting) DaemonMode.rootful resources).0 refl

-- the catalog's record grants no network
check_resources-IsMissing_example :
    IsMissing (supports sample) resources 1 TargetField.resource Capability.bridge_network
unfolding check_resources check_resource require_all supports bridge_network
check_resources-IsMissing_example =
    check_resources-IsMissing (supports sample) DaemonMode.rootful resources 1 TargetField.resource
      Capability.bridge_network refl

-- a network and a container that depend on each other
abbrev ring : List OperationNode
ring =
    record {
      operation = record {
        resource = 1;
        kind = TargetKind.network;
        action = OperationAction.create;
      };
      depends_on = 2 ∷ [];
    }
    ∷ record {
      operation = record {
        resource = 2;
        kind = TargetKind.container;
        action = OperationAction.create;
      };
      depends_on = 1 ∷ 1 ∷ [];
    }
    ∷ []

ring_blocked : visited_nodes ring ≡ some 0
unfolding visited_nodes visit initial_ready to_set release next_of dependents_map push_dependents
    push_dependent release_one decrement
ring_blocked = refl

abbrev pub facts : DaemonFacts
facts = record {
  observation_id = 7;
  release = some (codes "29.8.1");
  api_version = some minimum_api;
  minimum_api_version = none;
  mode = DaemonMode.rootless;
  capabilities =
      record {
        capability = Capability.bind_mount;
        state = CapabilityState.available;
        provenance = FactProvenance.native_conformance;
        scope = some (record {
          observation_id = 7;
          release = codes "29.8.1";
          api_version = minimum_api;
          mode = DaemonMode.rootless;
        });
      }
      ∷ [];
}

facts_pass : validated_capabilities facts ≡ ok facts
unfolding validated_capabilities validate_identified validate_facts
facts_pass = refl

validated_capabilities-IsConfirmed_example :
    (scope : CapabilityScope) × (observed_scope facts ≡ some scope)
    × IsConfirmed facts scope Capability.bind_mount
unfolding confirms
validated_capabilities-IsConfirmed_example =
    validated_capabilities-IsConfirmed facts facts Capability.bind_mount facts_pass refl

validated_capabilities_iff_example : (◌≡◌ {A = DaemonFacts} facts facts) × IsValidated facts
validated_capabilities_iff_example = (validated_capabilities_iff facts facts).0 facts_pass
