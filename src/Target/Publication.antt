-- ===== src/Target/Publication.antt =====
-- The port types of src/target_modules/container.rs.
use docker_lens.Prelude.{
  ℕ, ◌≡◌, ◌↔◌, arith, Bool, true, false, List, [], ◌∷◌, Eq, ◌==◌, nat_eq, list_eq, Result, ok, err,
}
use docker_lens.Target.Network.{IntentError, IpAddr, ip_eq, ip_beq_iff}

pub data Protocol : Type 0 where
  tcp udp : Protocol

abbrev pub protocol_beq : Protocol → Protocol → Bool
protocol_beq Protocol.tcp Protocol.tcp = true
protocol_beq Protocol.udp Protocol.udp = true
protocol_beq _ _ = false

pub protocol_beq_iff : (a b : Protocol) → (protocol_beq a b ≡ true) ↔ (a ≡ b)
protocol_beq_iff a b = ground arith

instance abbrev pub protocol_eq : Eq Protocol
protocol_eq = record { beq = protocol_beq; beq_iff = protocol_beq_iff }

pub record PortBinding : Type 0 where
  pub host : ℕ
  pub container : ℕ
  pub protocol : Protocol

pub data PortHostIp : Type 0 where
  unspecified : PortHostIp
  address : IpAddr → PortHostIp

abbrev pub host_ip_beq : PortHostIp → PortHostIp → Bool
host_ip_beq PortHostIp.unspecified PortHostIp.unspecified = true
host_ip_beq PortHostIp.unspecified (PortHostIp.address b) = false
host_ip_beq (PortHostIp.address a) PortHostIp.unspecified = false
host_ip_beq (PortHostIp.address a) (PortHostIp.address b) = a == b

pub host_ip_beq_iff : (a b : PortHostIp) → (host_ip_beq a b ≡ true) ↔ (a ≡ b)
host_ip_beq_iff PortHostIp.unspecified PortHostIp.unspecified = ground arith
host_ip_beq_iff PortHostIp.unspecified (PortHostIp.address b) = ground arith
host_ip_beq_iff (PortHostIp.address a) PortHostIp.unspecified = ground arith
host_ip_beq_iff (PortHostIp.address a) (PortHostIp.address b) = ground (arith, ip_beq_iff a b)

instance abbrev pub host_ip_eq : Eq PortHostIp
host_ip_eq = record { beq = host_ip_beq; beq_iff = host_ip_beq_iff }

pub data PortHostPort : Type 0 where
  fixed : ℕ → PortHostPort
  ephemeral : PortHostPort

pub record HostBinding : Type 0 where
  pub host_ip : PortHostIp
  pub host_port : PortHostPort

pub record PortPublication : Type 0 where
  pub container : ℕ
  pub protocol : Protocol
  pub bindings : List HostBinding

-- `PortPublication::exposed`
pub exposed : ℕ → Protocol → PortPublication
exposed container protocol = record { container = container; protocol = protocol; bindings = [] }

-- `PortPublication::published`
unfoldable pub published : ℕ → Protocol → List HostBinding → Result IntentError PortPublication
published container protocol [] = err IntentError.invalid_port
published container protocol (b ∷ bindings) =
    ok (record { container = container; protocol = protocol; bindings = b ∷ bindings })

-- `From<PortBinding>`
pub from_binding : PortBinding → PortPublication
from_binding value = record {
  container = value.container;
  protocol = value.protocol;
  bindings =
      record { host_ip = PortHostIp.unspecified; host_port = PortHostPort.fixed value.host } ∷ [];
}
