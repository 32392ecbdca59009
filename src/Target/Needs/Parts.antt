-- ===== src/Target/Needs/Parts.antt =====
-- The calls of `require` in src/target_modules/graph.rs for the parts of a container ask for what the
-- part uses.
use docker_lens.Prelude.{
  Bytes, ℕ, ◌≡◌, refl, ap, ◌∙◌, arith, Bool, true, false, not, ◌&&◌, ◌||◌, Option, none, some, List,
  [], ◌∷◌, ◌++◌, ltb, length, any, ◌==◌, if◌then◌else◌,
}
use docker_lens.Observation.{BindRelabel}
use docker_lens.Version.Capability.{Capability, capability_eq}
use docker_lens.Target.Network.{v4, v6, NetworkIpam, NetworkAttachmentIntent}
use docker_lens.Target.Publication.{
  Protocol, PortHostIp, PortHostPort, HostBinding, PortPublication,
}
use docker_lens.Target.Container.{
  is_given, ImageCommand, MountSource, Mount, HealthTest, Healthcheck, LogConfig, ContainerSettings,
}
use docker_lens.Target.Settings.{is_nil}
use docker_lens.Target.Needs.{
  TargetField, Need, need, when, for_each, has_driver, host_ip_needs, is_ephemeral, binding_needs,
  port_needs, mount_source_need, relabel_needs, mount_needs, attachment_needs, command_needs,
  health_needs, has_log_options, settings_needs,
}
use docker_lens.Target.Needs.Uses.{
  given, nonempty, configures_log, settings_uses, binding_uses, publication_uses, port_uses,
  mount_uses, attachment_uses, executes, clears, health_uses, names_driver,
}

abbrev pub asks : Capability → Need → Bool
asks c n = n.capability == c

pub any-append :
    {A : Type 0} (p : A → Bool) (xs ys : List A) → any p (xs ++ ys) ≡ (any p xs || any p ys)
any-append p [] ys = refl
any-append p (x ∷ xs) ys = ground (arith, any-append p xs ys)

pub any-when : (p : Need → Bool) (b : Bool) (n : Need) → any p (when b (n ∷ [])) ≡ (p n && b)
any-when p true n = ground arith
any-when p false n = ground arith

pub any-for_each :
    {A : Type 0} (p : Need → Bool) (f : A → List Need) (q : A → Bool)
    → ((x : A) → any p (f x) ≡ q x)
    → (xs : List A) → any p (for_each f xs) ≡ any q xs
any-for_each p f q each [] = refl
any-for_each p f q each (x ∷ xs) =
    any-append p (f x) (for_each f xs)
    ∙ (ap (λ b. b || any p (for_each f xs)) (each x)
        ∙ ap (λ b. q x || b) (any-for_each p f q each xs))

pub or_false : (b : Bool) → (b || false) ≡ b
or_false true = refl
or_false false = refl

pub is_given_lem : {A : Type 0} (o : Option A) → is_given o ≡ given o
is_given_lem none = refl
is_given_lem (some a) = refl

pub is_nil_lem : {A : Type 0} (xs : List A) → not (is_nil xs) ≡ nonempty xs
is_nil_lem [] = refl
is_nil_lem (x ∷ xs) = refl

pub has_log_options_lem : (o : Option LogConfig) → has_log_options o ≡ configures_log o
has_log_options_lem none = refl
has_log_options_lem (some log) = is_nil_lem log.options

pub has_driver_lem : (o : Option NetworkIpam) → has_driver o ≡ names_driver o
has_driver_lem none = refl
has_driver_lem (some ipam) = is_given_lem ipam.driver

pub any-command :
    (p : Need → Bool) (x : ImageCommand) (a b : Need)
    → any p (command_needs x a b) ≡ ((p a && clears x) || (p b && executes x))
any-command p ImageCommand.inherit a b = ground arith
any-command p ImageCommand.clear a b = ground arith
any-command p (ImageCommand.exec arguments) a b = ground arith

ap2_or : {a b x y : Bool} → a ≡ b → x ≡ y → (a || x) ≡ (b || y)
ap2_or e f = rw (e, f) refl

pub ruleset needs = (
  any-append, any-when, or_false, is_given_lem, is_nil_lem, has_log_options_lem, has_driver_lem,
  any-command,
)

pub settings_needs-uses :
    (c : Capability) (s : ContainerSettings) → any (asks c) (settings_needs s) ≡ settings_uses c s
settings_needs-uses Capability.container_user s = simp needs
settings_needs-uses _ s = simp needs

host_ip_needs-uses :
    (c : Capability) (ip : PortHostIp) (b : PortHostPort)
    → any (asks c) (
        host_ip_needs ip
        ++ when (is_ephemeral b) (need TargetField.port_ephemeral Capability.port_ephemeral ∷ []))
      ≡ binding_uses c (record { host_ip = ip; host_port = b })
host_ip_needs-uses Capability.port_host_ipv4 PortHostIp.unspecified (PortHostPort.fixed n) = refl
host_ip_needs-uses _ PortHostIp.unspecified (PortHostPort.fixed n) = refl
host_ip_needs-uses Capability.port_host_ipv4 PortHostIp.unspecified PortHostPort.ephemeral = refl
host_ip_needs-uses _ PortHostIp.unspecified PortHostPort.ephemeral = refl
host_ip_needs-uses Capability.port_host_ipv4 (PortHostIp.address (v4 a)) (PortHostPort.fixed n) =
    refl
host_ip_needs-uses _ (PortHostIp.address (v4 a)) (PortHostPort.fixed n) = refl
host_ip_needs-uses Capability.port_host_ipv4 (PortHostIp.address (v4 a)) PortHostPort.ephemeral =
    refl
host_ip_needs-uses _ (PortHostIp.address (v4 a)) PortHostPort.ephemeral = refl
host_ip_needs-uses Capability.port_host_ipv4 (PortHostIp.address (v6 a)) (PortHostPort.fixed n) =
    refl
host_ip_needs-uses _ (PortHostIp.address (v6 a)) (PortHostPort.fixed n) = refl
host_ip_needs-uses Capability.port_host_ipv4 (PortHostIp.address (v6 a)) PortHostPort.ephemeral =
    refl
host_ip_needs-uses _ (PortHostIp.address (v6 a)) PortHostPort.ephemeral = refl

publication-uses :
    (c : Capability) (container : ℕ) (protocol : Protocol) (bindings : List HostBinding)
    → any (asks c) (
        (if is_nil bindings
          then need TargetField.port_expose_only Capability.port_expose_only ∷ []
          else need TargetField.port Capability.port_publish ∷ [])
        ++ when
            (ltb 1 (length bindings))
            (need TargetField.port_multiple_bindings Capability.port_multiple_bindings ∷ []))
      ≡ publication_uses c
          (record { container = container; protocol = protocol; bindings = bindings })
publication-uses Capability.port_publish container protocol [] = refl
publication-uses _ container protocol [] = refl
publication-uses Capability.port_publish container protocol (b ∷ bindings) = refl
publication-uses _ container protocol (b ∷ bindings) = simp needs

pub port_needs-uses :
    (c : Capability) (p : PortPublication) → any (asks c) (port_needs p) ≡ port_uses c p
port_needs-uses c p =
    any-append (asks c) _ (for_each binding_needs p.bindings)
    ∙ ap2_or (publication-uses c p.container p.protocol p.bindings) (
        any-for_each (asks c) binding_needs (binding_uses c)
          (λ b. host_ip_needs-uses c b.host_ip b.host_port) p.bindings)

mount_parts-uses :
    (c : Capability) (source : MountSource) (target : Bytes) (read_only : Bool)
    (relabel : Option BindRelabel)
    → (asks c (mount_source_need source) || any (asks c) (relabel_needs relabel))
      ≡ mount_uses c (record {
        source = source;
        target = target;
        read_only = read_only;
        bind_relabel = relabel;
      })
mount_parts-uses Capability.bind_mount (MountSource.bind path) target read_only none = refl
mount_parts-uses _ (MountSource.bind path) target read_only none = refl
mount_parts-uses Capability.bind_mount (MountSource.bind path) target read_only
      (some BindRelabel.shared) =
    refl
mount_parts-uses _ (MountSource.bind path) target read_only (some BindRelabel.shared) = refl
mount_parts-uses Capability.bind_mount (MountSource.bind path) target read_only
      (some BindRelabel.private) =
    refl
mount_parts-uses _ (MountSource.bind path) target read_only (some BindRelabel.private) = refl
mount_parts-uses Capability.bind_mount (MountSource.volume r) target read_only none = refl
mount_parts-uses _ (MountSource.volume r) target read_only none = refl
mount_parts-uses Capability.bind_mount (MountSource.volume r) target read_only
      (some BindRelabel.shared) =
    refl
mount_parts-uses _ (MountSource.volume r) target read_only (some BindRelabel.shared) = refl
mount_parts-uses Capability.bind_mount (MountSource.volume r) target read_only
      (some BindRelabel.private) =
    refl
mount_parts-uses _ (MountSource.volume r) target read_only (some BindRelabel.private) = refl
mount_parts-uses Capability.bind_mount (MountSource.tmpfs options) target read_only none = refl
mount_parts-uses _ (MountSource.tmpfs options) target read_only none = refl
mount_parts-uses Capability.bind_mount (MountSource.tmpfs options) target read_only
      (some BindRelabel.shared) =
    refl
mount_parts-uses _ (MountSource.tmpfs options) target read_only (some BindRelabel.shared) = refl
mount_parts-uses Capability.bind_mount (MountSource.tmpfs options) target read_only
      (some BindRelabel.private) =
    refl
mount_parts-uses _ (MountSource.tmpfs options) target read_only (some BindRelabel.private) = refl

pub mount_needs-uses : (c : Capability) (m : Mount) → any (asks c) (mount_needs m) ≡ mount_uses c m
mount_needs-uses c m = mount_parts-uses c m.source m.target m.read_only m.bind_relabel

pub attachment_needs-uses :
    (c : Capability) (a : NetworkAttachmentIntent)
    → any (asks c) (attachment_needs a) ≡ attachment_uses c a
attachment_needs-uses Capability.network_aliases a = simp needs
attachment_needs-uses _ a = simp needs

health_parts-uses :
    (c : Capability) (test : HealthTest) (a b r s t : Option ℕ)
    → any (asks c) (
        health_needs (
          some (record {
            test = test;
            interval_ns = a;
            timeout_ns = b;
            retries = r;
            start_period_ns = s;
            start_interval_ns = t;
          })))
      ≡ health_uses c (
          some (record {
            test = test;
            interval_ns = a;
            timeout_ns = b;
            retries = r;
            start_period_ns = s;
            start_interval_ns = t;
          }))
health_parts-uses Capability.healthcheck (HealthTest.exec command) a b r s t = simp needs
health_parts-uses Capability.health_shell (HealthTest.exec command) a b r s t = simp needs
health_parts-uses Capability.health_disabled (HealthTest.exec command) a b r s t = simp needs
health_parts-uses _ (HealthTest.exec command) a b r s t = simp needs
health_parts-uses Capability.healthcheck (HealthTest.shell command) a b r s t = simp needs
health_parts-uses Capability.health_shell (HealthTest.shell command) a b r s t = simp needs
health_parts-uses Capability.health_disabled (HealthTest.shell command) a b r s t = simp needs
health_parts-uses _ (HealthTest.shell command) a b r s t = simp needs
health_parts-uses Capability.healthcheck HealthTest.disabled a b r s t = simp needs
health_parts-uses Capability.health_shell HealthTest.disabled a b r s t = simp needs
health_parts-uses Capability.health_disabled HealthTest.disabled a b r s t = simp needs
health_parts-uses _ HealthTest.disabled a b r s t = simp needs

pub health_needs-uses :
    (c : Capability) (h : Option Healthcheck) → any (asks c) (health_needs h) ≡ health_uses c h
health_needs-uses c none = refl
health_needs-uses c (some h) =
    health_parts-uses c h.test h.interval_ns h.timeout_ns h.retries h.start_period_ns
      h.start_interval_ns
