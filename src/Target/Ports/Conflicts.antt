-- ===== src/Target/Ports/Conflicts.antt =====
-- The fixed host ports of the containers that src/target_modules/intent.rs accepts.
use docker_lens.Prelude.{
  ℕ, ◌≡◌, sym, subst, ap, ◌∙◌, arith, false, List, [], ◌∷◌, ◌++◌, any, contains, nat_eq, pair_eq,
  All, All-snoc, ok, ok-eq_ok, ◌>>=◌, >>=-eq-ok, reject_if_iff,
}
use mathlib.Core.List.{append_assoc, append-nil}
use docker_lens.Target.Network.{IntentError}
use docker_lens.Target.Publication.{
  Protocol, protocol_eq, PortHostIp, PortHostPort, HostBinding, PortPublication,
}
use docker_lens.Target.Ports.{
  HostPort, clashes, host_ip_overlaps, Taken, bind_port, bind_ports, validate_ports,
}

-- no entry clashes with one in front of it
abbrev pub IsFree : List HostPort → Type 0
IsFree [] = Unit
IsFree (x ∷ xs) = All (λ y. clashes y x ≡ false) xs × IsFree xs

-- the fixed bindings of ports, in their order
abbrev pub fixed_binding : Protocol → HostBinding → List HostPort
fixed_binding protocol b = elim b.host_port [
  | PortHostPort.fixed n ↦ record { port = n; protocol = protocol; host_ip = b.host_ip } ∷ []
  | PortHostPort.ephemeral ↦ []
]

abbrev pub fixed_bindings : Protocol → List HostBinding → List HostPort
fixed_bindings protocol [] = []
fixed_bindings protocol (b ∷ bindings) =
    fixed_binding protocol b ++ fixed_bindings protocol bindings

abbrev pub fixed_ports : List PortPublication → List HostPort
fixed_ports [] = []
fixed_ports (p ∷ ports) = fixed_bindings p.protocol p.bindings ++ fixed_ports ports

IsFree-snoc :
    (xs : List HostPort) (new : HostPort)
    → IsFree xs
    → any (clashes new) xs ≡ false
    → IsFree (xs ++ new ∷ [])
IsFree-snoc [] new free h = (tt, tt)
IsFree-snoc (x ∷ xs) new free h = (
  All-snoc (λ y. clashes y x ≡ false) xs new free.0 (ground arith),
  IsFree-snoc xs new free.1 (ground arith),
)

bind_port-IsFree :
    (protocol : Protocol) (host_ip : PortHostIp) (host_port : PortHostPort) (taken out : Taken)
    → IsFree taken.fixed
    → bind_port protocol host_ip host_port taken ≡ ok out
    → IsFree out.fixed
      × (taken.fixed ++ fixed_binding protocol (record { host_ip = host_ip; host_port = host_port })
          ≡ out.fixed)
unfolding bind_port
bind_port-IsFree protocol host_ip (PortHostPort.fixed n) taken out free h =
    let new = (λ (p : HostPort). p) (record { port = n; protocol = protocol; host_ip = host_ip }) in
    let (apart, same) =
      (reject_if_iff (any (clashes new) taken.fixed) IntentError.duplicate_port
          (ok (record taken { fixed = taken.fixed ++ new ∷ [] })) out).0
        h in
    let e : taken.fixed ++ new ∷ [] ≡ out.fixed = ap (λ t. t.fixed) (ok-eq_ok same) in
    (subst IsFree e (IsFree-snoc taken.fixed new free apart), e)
bind_port-IsFree protocol host_ip PortHostPort.ephemeral taken out free h =
    let (apart, same) =
      (reject_if_iff (any (λ address. host_ip_overlaps address host_ip) taken.dynamic)
          IntentError.duplicate_port (ok (record taken { dynamic = taken.dynamic ++ host_ip ∷ [] }))
          out).0
        h in
    let e : taken.fixed ≡ out.fixed = ap (λ t. t.fixed) (ok-eq_ok same) in
    (subst IsFree e free, append-nil taken.fixed ∙ e)

bind_ports-IsFree :
    (protocol : Protocol) (bindings : List HostBinding) (taken out : Taken)
    → IsFree taken.fixed
    → bind_ports protocol taken bindings ≡ ok out
    → IsFree out.fixed × (taken.fixed ++ fixed_bindings protocol bindings ≡ out.fixed)
unfolding bind_ports
bind_ports-IsFree protocol [] taken out free h =
    let e : taken.fixed ≡ out.fixed = ap (λ t. t.fixed) (ok-eq_ok h) in
    (subst IsFree e free, append-nil taken.fixed ∙ e)
bind_ports-IsFree protocol (b ∷ bindings) taken out free h =
    let (next, first, rest) =
      >>=-eq-ok (bind_port protocol b.host_ip b.host_port taken)
        (λ t. bind_ports protocol t bindings) h in
    let (free_next, e) = bind_port-IsFree protocol b.host_ip b.host_port taken next free first in
    let (free_out, f) = bind_ports-IsFree protocol bindings next out free_next rest in
    (
      free_out,
      sym (append_assoc taken.fixed (fixed_binding protocol b) (fixed_bindings protocol bindings))
          ∙ (ap (λ l. l ++ fixed_bindings protocol bindings) e ∙ f),
    )

-- If the fixed host ports so far do not clash and a container's ports are accepted, the list returned
-- has the container's fixed host ports behind them and does not clash either.
pub validate_ports-IsFree :
    (seen : List (ℕ × Protocol)) (fixed : List HostPort) (ports : List PortPublication)
    (out : List HostPort)
    → IsFree fixed
    → validate_ports seen fixed ports ≡ ok out
    → IsFree out × (fixed ++ fixed_ports ports ≡ out)
unfolding validate_ports
validate_ports-IsFree seen fixed [] out free h =
    let e = ok-eq_ok h in (subst IsFree e free, append-nil fixed ∙ e)
validate_ports-IsFree seen fixed (p ∷ ports) out free h =
    let (new, behind) =
      (reject_if_iff (contains seen (p.container, p.protocol)) IntentError.duplicate_port
          (bind_ports p.protocol (record { fixed = fixed; dynamic = [] }) p.bindings >>= λ taken.
            validate_ports ((p.container, p.protocol) ∷ seen) taken.fixed ports)
          out).0
        h in
    let (taken, bound, rest) =
      >>=-eq-ok (bind_ports p.protocol (record { fixed = fixed; dynamic = [] }) p.bindings)
        (λ t. validate_ports ((p.container, p.protocol) ∷ seen) t.fixed ports) behind in
    let (free_taken, e) =
      bind_ports-IsFree p.protocol p.bindings (record { fixed = fixed; dynamic = [] }) taken free
        bound in
    let (free_out, f) =
      validate_ports-IsFree ((p.container, p.protocol) ∷ seen) taken.fixed ports out free_taken
        rest in
    (
      free_out,
      sym (append_assoc fixed (fixed_bindings p.protocol p.bindings) (fixed_ports ports))
          ∙ (ap (λ l. l ++ fixed_ports ports) e ∙ f),
    )
