-- ===== src/Observation.antt =====
-- src/observation.rs: local references, availability and origin, and one decoded field. Values are
-- kept as they are; the redaction of `Debug` output is not modelled.
use docker_lens.Prelude.{ℕ, Option, none, some, [], ◌∷◌, nat_eq, Bytes}

-- A local opaque index (`u64`).
abbrev pub ResourceRef : Type 0
ResourceRef = ℕ

pub data FieldPath : Type 0 where
  container_name image user working_directory hostname command entrypoint : FieldPath
  environment label mount port network volume : ℕ → FieldPath
  network_mode healthcheck restart_policy resource_limit security_setting : FieldPath
  name_resolution runtime_mount device logging stop_behavior network_ipam : FieldPath
  network_option network_address engine_release api_version daemon_mode other : FieldPath

pub data Availability : Type 0 where
  missing null empty present redacted : Availability

pub data Origin : Type 0 where
  configured effective runtime_assigned unknown : Origin

pub data BindRelabel : Type 0 where
  shared private : BindRelabel

pub record ObservedField : Type 0 where
  pub resource : ResourceRef
  pub field : FieldPath
  pub availability : Availability
  pub origin : Origin
  pub value : Option Bytes

-- `ObservedField::without_value`, of which `missing`, `null` and `redacted` are instances
pub without_value : ResourceRef → FieldPath → Availability → Origin → ObservedField
without_value resource field availability origin = record {
  resource = resource;
  field = field;
  availability = availability;
  origin = origin;
  value = none;
}

-- the availability that `ObservedField::present` derives from the value
abbrev pub availability_of : Bytes → Availability
availability_of [] = Availability.empty
availability_of (b ∷ value) = Availability.present

-- `ObservedField::present`
pub present_field : ResourceRef → FieldPath → Origin → Bytes → ObservedField
present_field resource field origin value = record {
  resource = resource;
  field = field;
  availability = availability_of value;
  origin = origin;
  value = some value;
}

pub record Observed (T : Type 0) : Type 0 where
  pub availability : Availability
  pub origin : Origin
  pub value : Option T

module _ {T : Type 0} where
  abbrev pub unavailable : Availability → Origin → Observed T
  unavailable availability origin = record {
    availability = availability;
    origin = origin;
    value = none;
  }

  -- `Observed::present`
  abbrev pub observed : T → Availability → Origin → Observed T
  observed value availability origin = record {
    availability = availability;
    origin = origin;
    value = some value;
  }
