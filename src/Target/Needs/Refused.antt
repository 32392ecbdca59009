-- ===== src/Target/Needs/Refused.antt =====
-- The two refusals between the capability checks of src/target_modules/graph.rs.
use docker_lens.Prelude.{
  ◌≡◌, ◌↔◌, inl, inr, refl, arith, Bool, true, false, List, In, ℕ, ◌<◌, ◌≤◌, Option, none, some,
  ltb, any, any-In, any_of_In, Bool-cases, &&-true,
}
use docker_lens.Version.Facts.{DaemonMode}
use docker_lens.Target.Resource.{TargetResource}
use docker_lens.Target.Needs.{has_narrow_pool, is_restricted}
use docker_lens.Version.Capability.{capability_eq}
use docker_lens.Target.Network.{is_ipv6, NetworkIpamPool, NetworkIpam, NetworkSource}
use docker_lens.Target.Publication.{PortHostPort, HostBinding, PortPublication}
use docker_lens.Target.Container.{ContainerIntent}
use docker_lens.Target.Needs.{is_narrow, is_privileged, is_rootless}

-- a narrow IPv4 pool, or a privileged host port of a rootless daemon
abbrev pub is_refused : DaemonMode → TargetResource → Bool
is_refused mode (TargetResource.network n) = has_narrow_pool n.source
is_refused mode (TargetResource.container c) = is_restricted mode c
is_refused mode (TargetResource.volume r i labels) = false
is_refused mode (TargetResource.external_volume r i) = false

-- an IPv4 pool of prefix 31 or more
abbrev pub IsNarrow : NetworkIpamPool → Type 0
IsNarrow pool = (is_ipv6 pool.subnet.address ≡ false) × (31 ≤ pool.subnet.prefix)

abbrev pub HasNarrowPool : Option NetworkIpam → Type 0
HasNarrowPool none = ⊥
HasNarrowPool (some ipam) = (pool : NetworkIpamPool) × In pool ipam.pools × IsNarrow pool

abbrev pub HasNarrowSource : NetworkSource → Type 0
HasNarrowSource (NetworkSource.create c) = HasNarrowPool c.ipam
HasNarrowSource (NetworkSource.external driver internal) = ⊥

-- a fixed host port below 1024
abbrev pub IsPrivileged : HostBinding → Type 0
IsPrivileged b = (number : ℕ) × (b.host_port ≡ PortHostPort.fixed number) × (number < 1024)

abbrev pub HasPrivilegedPort : ContainerIntent → Type 0
HasPrivilegedPort c =
    (p : PortPublication) × In p c.ports × ((b : HostBinding) × In b p.bindings × IsPrivileged b)

abbrev pub IsRefused : DaemonMode → TargetResource → Type 0
IsRefused mode (TargetResource.network n) = HasNarrowSource n.source
IsRefused mode (TargetResource.container c) = (mode ≡ DaemonMode.rootless) × HasPrivilegedPort c
IsRefused mode (TargetResource.volume r i labels) = ⊥
IsRefused mode (TargetResource.external_volume r i) = ⊥

-- a test on the entries passes exactly if one of them has a property
any_iff :
    {A : Type 0} (p : A → Bool) (P : A → Type 0)
    → ((a : A) → (p a ≡ true) ↔ P a)
    → (xs : List A) → (any p xs ≡ true) ↔ ((a : A) × In a xs × P a)
any_iff p P each xs = (
  (λ h. let (a, m, e) = any-In p xs h in (a, m, (each a).0 e)),
  (λ h. let (a, m, k) = h in any_of_In p a xs m ((each a).1 k)),
)

has_narrow_pool_iff : (s : NetworkSource) → (has_narrow_pool s ≡ true) ↔ HasNarrowSource s
has_narrow_pool_iff (NetworkSource.external driver internal) = ((λ h. cc), (λ h. absurd h))
has_narrow_pool_iff (NetworkSource.create c) = narrow_ipam_iff c.ipam
  where
    narrow_ipam_iff :
        (o : Option NetworkIpam)
        → ((elim o [ none ↦ false | some ipam ↦ any is_narrow ipam.pools ]) ≡ true)
          ↔ HasNarrowPool o
    narrow_ipam_iff none = ((λ h. cc), (λ h. absurd h))
    narrow_ipam_iff (some ipam) = any_iff is_narrow IsNarrow (λ pool. ground arith) ipam.pools

host_port_iff :
    (h : PortHostPort)
    → ((elim h [ PortHostPort.fixed n ↦ ltb n 1024 | PortHostPort.ephemeral ↦ false ]) ≡ true)
      ↔ ((number : ℕ) × (h ≡ PortHostPort.fixed number) × (number < 1024))
host_port_iff (PortHostPort.fixed n) = (
  (λ h. (n, refl, ground arith)),
  (λ h. let (k, e, small) = h in let same : n ≡ k = cc in ground arith),
)
host_port_iff PortHostPort.ephemeral = ((λ h. cc), (λ h. let (k, e, small) = h in cc))

is_restricted_iff :
    (mode : DaemonMode) (c : ContainerIntent)
    → (is_restricted mode c ≡ true) ↔ ((mode ≡ DaemonMode.rootless) × HasPrivilegedPort c)
is_restricted_iff mode c =
    let ports =
      any_iff (λ p. any is_privileged p.bindings)
        (λ p. (b : HostBinding) × In b p.bindings × IsPrivileged b)
        (λ p. any_iff is_privileged IsPrivileged (λ b. host_port_iff b.host_port) p.bindings)
        c.ports in
    let rootless = is_rootless_iff mode in
    (
      (λ h. let (a, b) = &&-true (is_rootless mode) _ h in (rootless.0 a, ports.0 b)),
      (λ h. let a = rootless.1 h.0 in let b = ports.1 h.1 in ground arith),
    )
  where
    is_rootless_iff : (m : DaemonMode) → (is_rootless m ≡ true) ↔ (m ≡ DaemonMode.rootless)
    is_rootless_iff m = ground arith

is_refused_iff :
    (mode : DaemonMode) (r : TargetResource) → (is_refused mode r ≡ true) ↔ IsRefused mode r
is_refused_iff mode (TargetResource.network n) = has_narrow_pool_iff n.source
is_refused_iff mode (TargetResource.container c) = is_restricted_iff mode c
is_refused_iff mode (TargetResource.volume r i labels) = ((λ h. cc), (λ h. absurd h))
is_refused_iff mode (TargetResource.external_volume r i) = ((λ h. cc), (λ h. absurd h))

pub not-IsRefused_iff :
    (mode : DaemonMode) (r : TargetResource) → (is_refused mode r ≡ false) ↔ (¬ IsRefused mode r)
not-IsRefused_iff mode r = (
  (λ h k. let e = (is_refused_iff mode r).1 k in cc),
  (λ h. elim (Bool-cases (is_refused mode r)) [
    | inl e ↦ absurd (h ((is_refused_iff mode r).0 e))
    | inr e ↦ e
  ]),
)
