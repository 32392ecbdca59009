-- ===== src/Tests/Snapshots.antt =====
-- Tests of the assessment of a network prerequisite against a snapshot.
use docker_lens.Prelude.{
  ◌≡◌, refl, false, some, [], ◌∷◌, replicate, all_inserted, codes, Bytes, ok, err,
}
use docker_lens.Observation.{Origin}
use docker_lens.Acquisition.Request.{SelectionReason, RootKind}
use docker_lens.Tests.Targets.{facts}
use docker_lens.Target.Network.{NetworkDriver}
use docker_lens.Target.Prerequisite.{
  NetworkPrerequisiteError, NetworkPrerequisite, NetworkObservation, DecodedInventory, check_root,
  selected_network, check_internal, check_evidence, assess_network,
}
use docker_lens.Target.Prerequisite.Present.{evidence}
use docker_lens.Target.Prerequisite.Assessed.{IsAssessed, assess_network_iff}

abbrev native : Bytes
native = replicate 64 b'a'

abbrev wanted : NetworkPrerequisite
wanted = record {
  reference = 1;
  expected_driver = NetworkDriver.bridge;
  expected_internal = some false;
  identity = codes "backend";
}

abbrev seen : NetworkObservation
seen = record {
  reference = 9;
  id = evidence Origin.runtime_assigned native;
  name = evidence Origin.effective (codes "backend");
  driver = evidence Origin.effective (codes "bridge");
  internal = evidence Origin.effective false;
}

abbrev inventory : DecodedInventory
inventory = record {
  observation_id = 7;
  daemon = facts;
  containers = 4 ∷ [];
  selected_roots =
      record { resource = 9; kind = RootKind.network; reason = SelectionReason.exact_network_id }
      ∷ [];
  networks = seen ∷ [];
  volumes = [];
}

wanted_passes : assess_network wanted inventory 7 native ≡ ok tt
unfolding assess_network selected_network check_root check_evidence check_internal all_inserted
wanted_passes = refl

-- a container with the network's reference
shared_fails :
    assess_network wanted (record inventory { containers = 9 ∷ [] }) 7 native
    ≡ err NetworkPrerequisiteError.ambiguous_resource_reference
unfolding assess_network selected_network check_root
shared_fails = refl

assess_network_iff_example : IsAssessed wanted inventory 7 native
assess_network_iff_example = (assess_network_iff wanted inventory 7 native).0 wanted_passes
