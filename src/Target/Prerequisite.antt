-- ===== src/Target/Prerequisite.antt =====
-- src/target_modules/prerequisite.rs: `NetworkPrerequisite::assess`. Of an inventory and its entries
-- the fields that the assessment reads are modelled.
pub mod Present
pub mod Assessed
use docker_lens.Prelude.{
  ℕ, ◌≡◌, ◌↔◌, arith, Bool, true, false, not, ◌&&◌, ◌||◌, Option, none, some, List, [], ◌∷◌, map,
  length, all, any, count, find, contains, all_inserted, is_ascii_hexdigit, ltb, Eq, ◌==◌, nat_eq,
  list_eq, option_eq, bool_eq, Bytes, codes, Result, ok, err, ok_or, reject_if, ◌>>=◌, ◌>>◌,
  if◌then◌else◌,
}
use docker_lens.Observation.{ResourceRef, Availability, Origin, Observed}
use docker_lens.Acquisition.Request.{SelectionReason, RootKind, SelectedRoot}
use docker_lens.Version.Observed.{DaemonFacts}
use docker_lens.Target.Network.{NetworkDriver}

pub data NetworkPrerequisiteError : Type 0 where
  observation_scope_mismatch invalid_selected_network_id : NetworkPrerequisiteError
  collection_too_large network_not_found ambiguous_network : NetworkPrerequisiteError
  ambiguous_resource_reference selected_root_not_found : NetworkPrerequisiteError
  duplicate_selected_root invalid_selected_root : NetworkPrerequisiteError
  invalid_network_id_evidence invalid_network_name_evidence : NetworkPrerequisiteError
  network_name_mismatch invalid_network_driver_evidence : NetworkPrerequisiteError
  network_driver_mismatch invalid_network_internal_evidence : NetworkPrerequisiteError
  network_internal_mismatch : NetworkPrerequisiteError

pub record NetworkPrerequisite : Type 0 where
  pub reference : ResourceRef
  pub expected_driver : NetworkDriver
  pub expected_internal : Option Bool
  pub identity : Bytes

pub record NetworkObservation : Type 0 where
  pub reference : ResourceRef
  pub id : Observed Bytes
  pub name : Observed Bytes
  pub driver : Observed Bytes
  pub internal : Observed Bool

-- `containers` and `volumes` are the references of their entries, `daemon` is that of `version`
pub record DecodedInventory : Type 0 where
  pub observation_id : ℕ
  pub daemon : DaemonFacts
  pub containers : List ResourceRef
  pub selected_roots : List SelectedRoot
  pub networks : List NetworkObservation
  pub volumes : List ResourceRef

abbrev pub max_collection_items : ℕ
max_collection_items = 4096

abbrev pub is_present : Availability → Bool
is_present Availability.present = true
is_present _ = false

abbrev pub origin_beq : Origin → Origin → Bool
origin_beq Origin.configured Origin.configured = true
origin_beq Origin.effective Origin.effective = true
origin_beq Origin.runtime_assigned Origin.runtime_assigned = true
origin_beq Origin.unknown Origin.unknown = true
origin_beq _ _ = false

pub origin_beq_iff : (a b : Origin) → (origin_beq a b ≡ true) ↔ (a ≡ b)
origin_beq_iff a b = ground arith

abbrev pub has_value : {T : Type 0} → Option T → Bool
has_value none = false
has_value (some v) = true

abbrev pub usable : {T : Type 0} → Observed T → Origin → Bool
usable field origin =
    is_present field.availability && origin_beq field.origin origin && has_value field.value

-- `is_some_and(|value| value.as_bytes() == expected)`
abbrev pub holds : {T : Type 0} ⦃e : Eq T⦄ → Option T → T → Bool
holds none expected = false
holds (some value) expected = value == expected

abbrev pub driver_name : NetworkDriver → Bytes
driver_name NetworkDriver.bridge = codes "bridge"
driver_name NetworkDriver.host = codes "host"
driver_name NetworkDriver.overlay = codes "overlay"
driver_name NetworkDriver.macvlan = codes "macvlan"

abbrev pub filter_networks : Bytes → List NetworkObservation → List NetworkObservation
filter_networks id [] = []
filter_networks id (n ∷ networks) =
    if holds n.id.value id then n ∷ filter_networks id networks else filter_networks id networks

abbrev pub too_many_items : DecodedInventory → Bool
too_many_items inventory =
    ltb max_collection_items (length inventory.networks)
    || ltb max_collection_items (length inventory.selected_roots)
    || ltb max_collection_items (length inventory.containers)
    || ltb max_collection_items (length inventory.volumes)

-- the two calls of `matches.next()`
abbrev pub only_match : List NetworkObservation → Result NetworkPrerequisiteError NetworkObservation
only_match [] = err NetworkPrerequisiteError.network_not_found
only_match (n ∷ []) = ok n
only_match (n ∷ m ∷ rest) = err NetworkPrerequisiteError.ambiguous_network

abbrev pub is_ambiguous : DecodedInventory → ResourceRef → Bool
is_ambiguous inventory r =
    not (count (λ other. other.reference == r) inventory.networks == 1)
    || any (λ other. other == r) inventory.containers
    || any (λ other. other == r) inventory.volumes

abbrev pub is_network_root : SelectedRoot → Bool
is_network_root root = elim root.kind [
  | RootKind.network ↦ elim root.reason [ SelectionReason.exact_network_id ↦ true | _ ↦ false ]
  | _ ↦ false
]

-- the checks behind the match
unfoldable pub check_root :
    DecodedInventory → NetworkObservation → Result NetworkPrerequisiteError NetworkObservation
check_root inventory network = do
  reject_if (is_ambiguous inventory network.reference)
      NetworkPrerequisiteError.ambiguous_resource_reference
  reject_if (not (all_inserted [] (map (λ root. root.resource) inventory.selected_roots)))
      NetworkPrerequisiteError.duplicate_selected_root
  root ←
      ok_or (find (λ root. root.resource == network.reference) inventory.selected_roots)
        NetworkPrerequisiteError.selected_root_not_found
  reject_if (not (is_network_root root)) NetworkPrerequisiteError.invalid_selected_root
  ok network

unfoldable pub selected_network :
    DecodedInventory → Bytes → Result NetworkPrerequisiteError NetworkObservation
selected_network inventory id = do
  reject_if (too_many_items inventory) NetworkPrerequisiteError.collection_too_large
  network ← only_match (filter_networks id inventory.networks)
  check_root inventory network

-- `if let Some(expected) = self.expected_internal`
unfoldable pub check_internal :
    Option Bool → Observed Bool → Result NetworkPrerequisiteError (Unit {0})
check_internal none internal = ok tt
check_internal (some expected) internal = do
  reject_if (not (usable internal Origin.effective))
      NetworkPrerequisiteError.invalid_network_internal_evidence
  reject_if (not (holds internal.value expected)) NetworkPrerequisiteError.network_internal_mismatch

-- the checks on the selected network
unfoldable pub check_evidence :
    NetworkPrerequisite → NetworkObservation → Result NetworkPrerequisiteError (Unit {0})
check_evidence prerequisite network = do
  reject_if (not (usable network.id Origin.runtime_assigned))
      NetworkPrerequisiteError.invalid_network_id_evidence
  reject_if (not (usable network.name Origin.effective))
      NetworkPrerequisiteError.invalid_network_name_evidence
  reject_if (not (holds network.name.value prerequisite.identity))
      NetworkPrerequisiteError.network_name_mismatch
  reject_if (not (usable network.driver Origin.effective))
      NetworkPrerequisiteError.invalid_network_driver_evidence
  reject_if (not (holds network.driver.value (driver_name prerequisite.expected_driver)))
      NetworkPrerequisiteError.network_driver_mismatch
  check_internal prerequisite.expected_internal network.internal

-- `NetworkPrerequisite::assess`
unfoldable pub assess_network :
    NetworkPrerequisite → DecodedInventory → ℕ → Bytes → Result NetworkPrerequisiteError (Unit {0})
assess_network prerequisite inventory expected_observation id = do
  reject_if
      (not (inventory.observation_id == expected_observation)
        || not (inventory.daemon.observation_id == expected_observation))
      NetworkPrerequisiteError.observation_scope_mismatch
  reject_if (not (length id == 64) || not (all is_ascii_hexdigit id))
      NetworkPrerequisiteError.invalid_selected_network_id
  network ← selected_network inventory id
  check_evidence prerequisite network
