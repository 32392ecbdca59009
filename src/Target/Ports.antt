-- ===== src/Target/Ports.antt =====
-- The loop over a container's ports in `TargetIntent::new_with_orchestration` of
-- src/target_modules/intent.rs. The fixed host ports of all containers are one list.
pub mod Conflicts
use docker_lens.Prelude.{
  ℕ, ◌≡◌, ◌↔◌, arith, Bool, true, false, not, ◌&&◌, ◌||◌, List, [], ◌∷◌, ◌++◌, any, contains, Eq,
  ◌==◌, nat_eq, pair_eq, Result, ok, err, reject_if, ◌>>=◌, ◌>>◌,
}
use docker_lens.Target.Network.{IntentError, IpAddr, v4, v6}
use docker_lens.Target.Publication.{
  Protocol, protocol_eq, PortHostIp, host_ip_eq, PortHostPort, HostBinding, PortPublication,
}

-- the closure `wildcard`
abbrev pub wildcard : PortHostIp → Bool
wildcard PortHostIp.unspecified = true
wildcard (PortHostIp.address (v4 value)) = value == 0
wildcard (PortHostIp.address (v6 value)) = value == 0

unfoldable pub host_ip_overlaps : PortHostIp → PortHostIp → Bool
host_ip_overlaps left right = wildcard left || wildcard right || left == right

-- a fixed host port, its protocol and its host address
pub record HostPort : Type 0 where
  pub port : ℕ
  pub protocol : Protocol
  pub host_ip : PortHostIp

-- the closure over `fixed_host_ports`
abbrev pub clashes : HostPort → HostPort → Bool
clashes new existing =
    existing.port == new.port
    && existing.protocol == new.protocol
    && host_ip_overlaps existing.host_ip new.host_ip

-- The lists `fixed_host_ports` and `dynamic_hosts`.
pub record Taken : Type 0 where
  pub fixed : List HostPort
  pub dynamic : List PortHostIp

-- the arms of the `match` on a binding's port
unfoldable pub bind_port : Protocol → PortHostIp → PortHostPort → Taken → Result IntentError Taken
bind_port protocol host_ip (PortHostPort.fixed port) taken = do
  reject_if
      (any (clashes (record { port = port; protocol = protocol; host_ip = host_ip })) taken.fixed)
      IntentError.duplicate_port
  ok (record taken {
    fixed = taken.fixed ++ record { port = port; protocol = protocol; host_ip = host_ip } ∷ [];
  })
bind_port protocol host_ip PortHostPort.ephemeral taken = do
  reject_if (any (λ address. host_ip_overlaps address host_ip) taken.dynamic)
      IntentError.duplicate_port
  ok (record taken { dynamic = taken.dynamic ++ host_ip ∷ [] })

-- the loop over `bindings`
unfoldable pub bind_ports : Protocol → Taken → List HostBinding → Result IntentError Taken
bind_ports protocol taken [] = ok taken
bind_ports protocol taken (binding ∷ bindings) = do
  next ← bind_port protocol binding.host_ip binding.host_port taken
  bind_ports protocol next bindings

-- the loop over `ports`; the result is what `fixed_host_ports` becomes
unfoldable pub validate_ports :
    List (ℕ × Protocol) → List HostPort → List PortPublication → Result IntentError (List HostPort)
validate_ports seen fixed [] = ok fixed
validate_ports seen fixed (port ∷ ports) = do
  reject_if (contains seen (port.container, port.protocol)) IntentError.duplicate_port
  taken ← bind_ports port.protocol (record { fixed = fixed; dynamic = [] }) port.bindings
  validate_ports ((port.container, port.protocol) ∷ seen) taken.fixed ports
