-- ===== src/Acquisition/Request.antt =====
-- The closed requests, selectors and roots of src/acquisition.rs. A `NativeId` is its text.
use docker_lens.Prelude.{
  ◌≡◌, ◌↔◌, Bool, true, false, ◌&&◌, Option, none, some, List, [], ◌∷◌, arith, Eq, ◌==◌, nat_eq,
  list_eq, list_beq_iff, Bytes,
}
use docker_lens.Observation.{ResourceRef}

-- `NativeId::new`
pub native_id : Bytes → Option Bytes
native_id [] = none
native_id (b ∷ value) = some (b ∷ value)

pub data ReadRequest : Type 0 where
  daemon_version daemon_info list_containers list_networks list_volumes : ReadRequest
  inspect_container inspect_network inspect_volume : Bytes → ReadRequest

pub data ResourceKind : Type 0 where
  container network volume : ResourceKind

abbrev kind_beq : ResourceKind → ResourceKind → Bool
kind_beq ResourceKind.container ResourceKind.container = true
kind_beq ResourceKind.network ResourceKind.network = true
kind_beq ResourceKind.volume ResourceKind.volume = true
kind_beq _ _ = false

-- a kind and a native identifier
abbrev pub Native : Type 0
Native = ResourceKind × Bytes

abbrev pub native_beq : Native → Native → Bool
native_beq (k, i) (l, j) = kind_beq k l && i == j

pub native_beq_iff : (a b : Native) → (native_beq a b ≡ true) ↔ (a ≡ b)
native_beq_iff (k, i) (l, j) = ground (arith, list_beq_iff i j)

instance abbrev pub native_eq : Eq Native
native_eq = record { beq = native_beq; beq_iff = native_beq_iff }

-- the local `inspected` of `record_request`
abbrev pub inspected : ReadRequest → Option Native
inspected (ReadRequest.inspect_container id) = some (ResourceKind.container, id)
inspected (ReadRequest.inspect_network id) = some (ResourceKind.network, id)
inspected (ReadRequest.inspect_volume id) = some (ResourceKind.volume, id)
inspected _ = none

-- `matches!(request, ReadRequest::DaemonVersion)`
abbrev pub is_daemon_version : ReadRequest → Bool
is_daemon_version ReadRequest.daemon_version = true
is_daemon_version _ = false

pub data Selector : Type 0 where
  container_ids network_ids volume_names container_names : List Bytes → Selector
  name_prefix : Bytes → Selector
  label : Bytes → Option Bytes → Selector
  discovery all_containers : Selector

pub data SelectionReason : Type 0 where
  exact_id exact_network_id exact_volume_name exact_name : SelectionReason
  name_prefix label explicit_all : SelectionReason

pub data RootKind : Type 0 where
  container network volume : RootKind

pub record SelectedRoot : Type 0 where
  pub resource : ResourceRef
  pub kind : RootKind
  pub reason : SelectionReason
