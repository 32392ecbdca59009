-- ===== src/Target/Container.antt =====
-- src/target_modules/container.rs: ports, mounts, settings and health checks of an authored container.
-- `NonZero` numbers are numbers; where the source tests their range, the test is written out.
use docker_lens.Prelude.{
  ℕ, ◌-◌, ◌^◌, Bool, true, false, not, ◌&&◌, ◌||◌, Option, none, some, List, [], ◌∷◌, ltb, leb,
  contains, ◌==◌, nat_eq, list_eq, Bytes, Result, ok, err, if◌then◌else◌,
}
use docker_lens.Observation.{ResourceRef, BindRelabel}
use docker_lens.Target.Network.{IntentError, IpAddr, ip_eq, Label, NetworkAttachmentIntent}
use docker_lens.Target.Values.{valid_absolute_path}
use docker_lens.Target.Publication.{protocol_eq, host_ip_eq, PortPublication}

pub data ImageCommand : Type 0 where
  inherit clear : ImageCommand
  exec : List Bytes → ImageCommand

pub record TmpfsOptions : Type 0 where
  pub size_bytes : Option ℕ
  pub mode : Option ℕ

pub data MountSource : Type 0 where
  bind : Bytes → MountSource
  volume : ResourceRef → MountSource
  tmpfs : TmpfsOptions → MountSource

pub record Mount : Type 0 where
  pub source : MountSource
  pub target : Bytes
  pub read_only : Bool
  pub bind_relabel : Option BindRelabel

abbrev pub plain_mount : MountSource → Bytes → Bool → Mount
plain_mount source target read_only = record {
  source = source;
  target = target;
  read_only = read_only;
  bind_relabel = none;
}

-- `Mount::bind`
unfoldable pub bind_mount : Bytes → Bytes → Bool → Result IntentError Mount
bind_mount source target read_only =
    if not (valid_absolute_path source) || not (valid_absolute_path target)
    then err IntentError.invalid_mount
    else ok (plain_mount (MountSource.bind source) target read_only)

-- `Mount::volume`
unfoldable pub volume_mount : ResourceRef → Bytes → Bool → Result IntentError Mount
volume_mount source target read_only =
    if not (valid_absolute_path target)
    then err IntentError.invalid_mount
    else ok (plain_mount (MountSource.volume source) target read_only)

-- `is_some_and(|value| value > bound)`
abbrev pub exceeds : Option ℕ → ℕ → Bool
exceeds none bound = false
exceeds (some value) bound = ltb bound value

-- `i64::MAX` and `i32::MAX`
abbrev pub i64_max : ℕ
i64_max = 2 ^ 63 - 1

abbrev pub i32_max : ℕ
i32_max = 2 ^ 31 - 1

-- `Mount::tmpfs`
unfoldable pub tmpfs_mount : Bytes → Bool → TmpfsOptions → Result IntentError Mount
tmpfs_mount target read_only options =
    if not (valid_absolute_path target)
      || exceeds options.mode 0o7777
      || exceeds options.size_bytes i64_max
    then err IntentError.invalid_mount
    else ok (plain_mount (MountSource.tmpfs options) target read_only)

abbrev pub is_given : {A : Type 0} → Option A → Bool
is_given none = false
is_given (some a) = true

-- `Mount::with_bind_relabel`, on the source
abbrev pub relabel_source : MountSource → Mount → BindRelabel → Result IntentError Mount
relabel_source (MountSource.bind source) mount relabel =
    if is_given mount.bind_relabel || contains source b':' || contains mount.target b':'
    then err IntentError.invalid_mount
    else ok (record mount { bind_relabel = some relabel })
relabel_source (MountSource.volume reference) mount relabel = err IntentError.invalid_mount
relabel_source (MountSource.tmpfs options) mount relabel = err IntentError.invalid_mount

unfoldable pub with_bind_relabel : Mount → BindRelabel → Result IntentError Mount
with_bind_relabel mount relabel = relabel_source mount.source mount relabel

pub data MemoryLimit : Type 0 where
  unlimited : MemoryLimit
  bytes : ℕ → MemoryLimit

pub data PidsLimit : Type 0 where
  unlimited : PidsLimit
  count : ℕ → PidsLimit

pub data UlimitValue : Type 0 where
  unlimited : UlimitValue
  value : ℕ → UlimitValue

pub record Ulimit : Type 0 where
  pub name : Bytes
  pub soft : UlimitValue
  pub hard : UlimitValue

pub record ExtraHost : Type 0 where
  pub name : Bytes
  pub address : IpAddr

pub record DevicePermissions : Type 0 where
  pub read : Bool
  pub write : Bool
  pub create : Bool

pub record DeviceMapping : Type 0 where
  pub host_path : Bytes
  pub container_path : Bytes
  pub permissions : DevicePermissions

pub data SecurityOption : Type 0 where
  no_new_privileges : Bool → SecurityOption

-- `LogDriver`, with `no_driver` for its `None`
pub data LogDriver : Type 0 where
  json_file local no_driver : LogDriver

pub record LogConfig : Type 0 where
  pub driver : LogDriver
  pub options : List Label

pub data UserNamespaceMode : Type 0 where
  host : UserNamespaceMode

pub record ContainerSettings : Type 0 where
  pub labels : List Label
  pub user : Option Bytes
  pub working_dir : Option Bytes
  pub hostname : Option Bytes
  pub read_only_rootfs : Option Bool
  pub init : Option Bool
  pub stop_signal : Option Bytes
  pub stop_timeout_seconds : Option ℕ
  pub memory_limit : Option MemoryLimit
  pub pids_limit : Option PidsLimit
  pub shm_size_bytes : Option ℕ
  pub ulimits : List Ulimit
  pub devices : List DeviceMapping
  pub cap_add : List Bytes
  pub cap_drop : List Bytes
  pub security_options : List SecurityOption
  pub sysctls : List Label
  pub group_add : List Bytes
  pub dns : List IpAddr
  pub extra_hosts : List ExtraHost
  pub log_config : Option LogConfig
  pub userns_mode : Option UserNamespaceMode

pub data HealthTest : Type 0 where
  exec : List Bytes → HealthTest
  shell : Bytes → HealthTest
  disabled : HealthTest

pub record Healthcheck : Type 0 where
  pub test : HealthTest
  pub interval_ns : Option ℕ
  pub timeout_ns : Option ℕ
  pub retries : Option ℕ
  pub start_period_ns : Option ℕ
  pub start_interval_ns : Option ℕ

-- `!arguments.is_empty() && !arguments[0].bytes().is_empty()`
abbrev pub names_program : List Bytes → Bool
names_program [] = false
names_program (program ∷ arguments) = not (program == [])

abbrev pub valid_test : HealthTest → Option ℕ → Option ℕ → Option ℕ → Bool
valid_test (HealthTest.exec command) interval timeout retries = names_program command
valid_test (HealthTest.shell command) interval timeout retries = not (command == [])
valid_test HealthTest.disabled interval timeout retries =
    not (is_given interval) && not (is_given timeout) && not (is_given retries)

-- `is_some_and(|value| !(1_000_000..=i64::MAX as u64).contains(&value.get()))`
abbrev pub bad_duration : Option ℕ → Bool
bad_duration none = false
bad_duration (some ns) = not (leb 1000000 ns && leb ns i64_max)

-- `Healthcheck::configured`
unfoldable pub configured :
    HealthTest → Option ℕ → Option ℕ → Option ℕ → Result IntentError Healthcheck
configured test interval timeout retries =
    if not (valid_test test interval timeout retries)
      || bad_duration interval
      || bad_duration timeout
      || exceeds retries i32_max
    then err IntentError.invalid_healthcheck
    else ok (record {
      test = test;
      interval_ns = interval;
      timeout_ns = timeout;
      retries = retries;
      start_period_ns = none;
      start_interval_ns = none;
    })

-- `Healthcheck::new`
unfoldable pub healthcheck : List Bytes → ℕ → ℕ → ℕ → Result IntentError Healthcheck
healthcheck command interval timeout retries =
    configured (HealthTest.exec command) (some interval) (some timeout) (some retries)

abbrev pub is_disabled : HealthTest → Bool
is_disabled HealthTest.disabled = true
is_disabled _ = false

-- the test that both starting settings share
abbrev pub bad_start : HealthTest → ℕ → Bool
bad_start test ns = is_disabled test || not (ns == 0) && ltb ns 1000000 || ltb i64_max ns

unfoldable pub with_start_period : Healthcheck → ℕ → Result IntentError Healthcheck
with_start_period check ns =
    if bad_start check.test ns
    then err IntentError.invalid_healthcheck
    else ok (record check { start_period_ns = some ns })

unfoldable pub with_start_interval : Healthcheck → ℕ → Result IntentError Healthcheck
with_start_interval check ns =
    if bad_start check.test ns
    then err IntentError.invalid_healthcheck
    else ok (record check { start_interval_ns = some ns })

pub data RestartPolicy : Type 0 where
  no always unless_stopped : RestartPolicy
  on_failure : ℕ → RestartPolicy

pub record ContainerIntent : Type 0 where
  pub reference : ResourceRef
  pub identity : Bytes
  pub image : Bytes
  pub environment : List Label
  pub ports : List PortPublication
  pub mounts : List Mount
  pub networks : List NetworkAttachmentIntent
  pub entrypoint : ImageCommand
  pub command : ImageCommand
  pub healthcheck : Option Healthcheck
  pub restart : Option RestartPolicy
  pub settings : ContainerSettings
