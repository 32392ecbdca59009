-- ===== src/Target/Settings.antt =====
-- `validate_container_settings` of src/target_modules/intent.rs.
use docker_lens.Prelude.{
  ℕ, Bool, true, false, not, ◌&&◌, ◌||◌, Option, none, some, List, [], ◌∷◌, ◌++◌, map, ltb, leb,
  all, any, contains, all_inserted, ◌==◌, nat_eq, list_eq, Bytes, codes, is_ascii_digit, word,
  Result, ok, reject_if, ◌>>◌, if◌then◌else◌,
}
use docker_lens.Target.Network.{IntentError, Label}
use docker_lens.Target.Values.{valid_user_principal, decimal}
use docker_lens.Target.Container.{
  exceeds, i64_max, MemoryLimit, PidsLimit, UlimitValue, Ulimit, DevicePermissions, DeviceMapping,
  SecurityOption, LogDriver, LogConfig, ContainerSettings,
}

-- the `matches!` on the limits
abbrev pub memory_exceeds : Option MemoryLimit → Bool
memory_exceeds (some (MemoryLimit.bytes value)) = ltb i64_max value
memory_exceeds _ = false

abbrev pub pids_exceeds : Option PidsLimit → Bool
pids_exceeds (some (PidsLimit.count value)) = ltb i64_max value
pids_exceeds _ = false

-- the local `valid_value`
abbrev pub valid_value : UlimitValue → Bool
valid_value UlimitValue.unlimited = true
valid_value (UlimitValue.value number) = leb number i64_max

-- the two `matches!` on `(limit.soft, limit.hard)`
abbrev pub soft_exceeds : UlimitValue → UlimitValue → Bool
soft_exceeds UlimitValue.unlimited UlimitValue.unlimited = false
soft_exceeds UlimitValue.unlimited (UlimitValue.value hard) = true
soft_exceeds (UlimitValue.value soft) UlimitValue.unlimited = false
soft_exceeds (UlimitValue.value soft) (UlimitValue.value hard) = ltb hard soft

-- the loop over `ulimits`
unfoldable pub validate_ulimits : List Bytes → List Ulimit → Result IntentError (Unit {0})
validate_ulimits names [] = ok tt
validate_ulimits names (limit ∷ limits) = do
  reject_if
      (not (limit.name == codes "nofile")
        || contains names limit.name
        || not (valid_value limit.soft)
        || not (valid_value limit.hard)
        || soft_exceeds limit.soft limit.hard)
      IntentError.invalid_container_setting
  validate_ulimits (limit.name ∷ names) limits

abbrev pub permits_none : DevicePermissions → Bool
permits_none p = not (p.read || p.write || p.create)

-- the loop over `devices`
unfoldable pub validate_devices : List Bytes → List DeviceMapping → Result IntentError (Unit {0})
validate_devices targets [] = ok tt
validate_devices targets (device ∷ devices) = do
  reject_if (contains targets device.container_path || permits_none device.permissions)
      IntentError.invalid_container_setting
  validate_devices (device.container_path ∷ targets) devices

-- `std::mem::discriminant`
abbrev pub discriminant : SecurityOption → ℕ
discriminant (SecurityOption.no_new_privileges b) = 0

-- the loop over `sysctls`
unfoldable pub validate_sysctls : List Bytes → List Label → Result IntentError (Unit {0})
validate_sysctls unique [] = ok tt
validate_sysctls unique (item ∷ items) = do
  reject_if
      (not (item.key == codes "net.ipv4.ip_forward")
        || not (item.value == codes "0" || item.value == codes "1"))
      IntentError.invalid_container_setting
  reject_if (contains unique item.key) IntentError.duplicate_container_setting
  validate_sysctls (item.key ∷ unique) items

-- `split_last`, as the last byte and those in front of it
abbrev pub split_last : Bytes → Option (ℕ × Bytes)
split_last [] = none
split_last (b ∷ bytes) =
    let rest = split_last bytes in
    elim rest [ none ↦ some (b, []) | some (last, front) ↦ some (last, b ∷ front) ]

-- `parse::<u64>` accepts one plus sign in front of the digits.
abbrev pub strip_plus : Bytes → Bytes
strip_plus [] = []
strip_plus (b ∷ digits) = if b == b'+' then digits else b ∷ digits

-- `parse::<u64>().ok().is_some_and(|size| size != 0)`
abbrev pub is_positive_u64 : Bytes → Bool
is_positive_u64 text =
    not (strip_plus text == [])
    && all is_ascii_digit (strip_plus text)
    && ltb (decimal 0 (strip_plus text)) word
    && not (decimal 0 (strip_plus text) == 0)

unfoldable pub valid_log_max_size : Bytes → Bool
valid_log_max_size value = elim (split_last value) [
  | none ↦ false
  | some (suffix, digits) ↦
      (suffix == b'k' || suffix == b'm' || suffix == b'g')
      && not (digits == [])
      && is_positive_u64 digits
]

abbrev pub is_json_file : LogDriver → Bool
is_json_file LogDriver.json_file = true
is_json_file _ = false

abbrev pub is_no_driver : LogDriver → Bool
is_no_driver LogDriver.no_driver = true
is_no_driver _ = false

abbrev pub is_nil : {A : Type 0} → List A → Bool
is_nil [] = true
is_nil (x ∷ xs) = false

-- the loop over `log.options`
unfoldable pub validate_log_options :
    LogDriver → List Bytes → List Label → Result IntentError (Unit {0})
validate_log_options chosen unique [] = ok tt
validate_log_options chosen unique (item ∷ items) = do
  reject_if
      (not (is_json_file chosen)
        || not (item.key == codes "max-size")
        || not (valid_log_max_size item.value))
      IntentError.invalid_container_setting
  reject_if (contains unique item.key) IntentError.duplicate_container_setting
  validate_log_options chosen (item.key ∷ unique) items

unfoldable pub validate_log : Option LogConfig → Result IntentError (Unit {0})
validate_log none = ok tt
validate_log (some log) = do
  reject_if (is_no_driver log.driver && not (is_nil log.options))
      IntentError.invalid_container_setting
  validate_log_options log.driver [] log.options

unfoldable pub validate_container_settings : ContainerSettings → Result IntentError (Unit {0})
validate_container_settings s = do
  reject_if
      (memory_exceeds s.memory_limit
        || pids_exceeds s.pids_limit
        || exceeds s.shm_size_bytes i64_max)
      IntentError.invalid_container_setting
  validate_ulimits [] s.ulimits
  validate_devices [] s.devices
  reject_if (not (all_inserted [] (s.cap_add ++ s.cap_drop)))
      IntentError.duplicate_container_setting
  reject_if
      (any (λ token. not (token == codes "NET_BIND_SERVICE")) s.cap_add
        || any (λ token. not (token == codes "SYS_ADMIN")) s.cap_drop)
      IntentError.invalid_container_setting
  reject_if (not (all_inserted [] (map discriminant s.security_options)))
      IntentError.duplicate_container_setting
  validate_sysctls [] s.sysctls
  reject_if (not (all_inserted [] s.group_add)) IntentError.duplicate_container_setting
  reject_if (any (λ item. not (valid_user_principal item)) s.group_add)
      IntentError.invalid_container_setting
  reject_if (not (all_inserted [] (map (λ item. item.name) s.extra_hosts)))
      IntentError.duplicate_container_setting
  validate_log s.log_config
