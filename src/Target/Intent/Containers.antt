-- ===== src/Target/Intent/Containers.antt =====
-- What src/target_modules/intent.rs establishes of each container that it accepts.
use docker_lens.Prelude.{
  not-false_iff, ℕ, ◌≡◌, refl, subst, ◌∙◌, arith, true, false, not, ◌&&◌, ◌||◌, List, [], ◌∷◌, ◌++◌,
  map, any, find, contains, all_inserted, all_inserted_iff, Distinct, ◌==◌, nat_eq, list_eq,
  pair_eq, ok, ok-eq_ok, reject_if_iff, >>_iff, >>=-eq-ok, ||-false,
}
use docker_lens.Observation.{ResourceRef}
use docker_lens.Target.Network.{IntentError, NetworkAttachmentIntent}
use docker_lens.Target.Container.{ContainerIntent}
use docker_lens.Target.Publication.{Protocol, protocol_eq, PortPublication}
use docker_lens.Target.Resource.{TargetResource, reference}
use docker_lens.Target.Settings.{validate_container_settings}
use docker_lens.Target.Ports.{HostPort, bind_ports, validate_ports}
use docker_lens.Target.Ports.Conflicts.{IsFree, fixed_ports, validate_ports-IsFree}
use docker_lens.Target.Intent.{
  lexical_absolute_path_key, empty_program, is_clear, is_exec, is_empty_text, too_many_retries,
  is_other_family, validate_attachments, validate_found, mount_keys, validate_container,
}

abbrev pub published_ports : List PortPublication → List (ℕ × Protocol)
published_ports ports = map (λ p. (p.container, p.protocol)) ports

abbrev pub attached_networks : List NetworkAttachmentIntent → List ResourceRef
attached_networks attachments = map (λ a. a.network) attachments

-- the maps of a container have distinct keys
pub record IsContainer (c : ContainerIntent) : Type 0 where
  pub environment : Distinct (map (λ a. a.key) c.environment)
  pub labels : Distinct (map (λ a. a.key) c.settings.labels)
  pub ports : Distinct (published_ports c.ports)
  pub networks : Distinct (attached_networks c.networks)
  pub mounts : Distinct (mount_keys c)
  pub devices :
      any
        (λ device. contains (mount_keys c) (lexical_absolute_path_key device.container_path))
        c.settings.devices
      ≡ false

validate_ports-inserted :
    (seen : List (ℕ × Protocol)) (fixed : List HostPort) (ports : List PortPublication)
    (out : List HostPort)
    → validate_ports seen fixed ports ≡ ok out
    → all_inserted seen (published_ports ports) ≡ true
unfolding validate_ports all_inserted
validate_ports-inserted seen fixed [] out h = refl
validate_ports-inserted seen fixed (p ∷ ports) out h =
    let (new, behind) =
      (reject_if_iff (contains seen (p.container, p.protocol)) IntentError.duplicate_port _ out).0
        h in
    let (taken, bound, rest) =
      >>=-eq-ok (bind_ports p.protocol (record { fixed = fixed; dynamic = [] }) p.bindings)
        (λ x. validate_ports ((p.container, p.protocol) ∷ seen) x.fixed ports) behind in
    let later =
      validate_ports-inserted ((p.container, p.protocol) ∷ seen) taken.fixed ports out rest in
    ground arith

validate_attachments-inserted :
    (resources : List TargetResource) (seen : List ResourceRef)
    (attachments : List NetworkAttachmentIntent)
    → validate_attachments resources seen attachments ≡ ok tt
    → all_inserted seen (attached_networks attachments) ≡ true
unfolding validate_attachments all_inserted
validate_attachments-inserted resources seen [] h = refl
validate_attachments-inserted resources seen (a ∷ attachments) h =
    let (new, h1) =
      (reject_if_iff (contains seen a.network) IntentError.duplicate_network_attachment _ tt).0 h in
    let (families, h2) =
      (reject_if_iff (is_other_family false a.ipv4_address || is_other_family true a.ipv6_address)
          IntentError.invalid_network_attachment _ tt).0
        h1 in
    let (aliases, h3) =
      (reject_if_iff (not (all_inserted [] a.aliases)) IntentError.duplicate_network_alias _ tt).0
        h2 in
    let (found, rest) =
      (>>_iff (validate_found a (find (λ r. reference r == a.network) resources))
          (validate_attachments resources (a.network ∷ seen) attachments) tt).0
        h3 in
    let later = validate_attachments-inserted resources (a.network ∷ seen) attachments rest in
    ground arith

-- If a container is accepted, its maps have distinct keys, no device takes the path of a mount, and its
-- fixed host ports are behind those of the containers in front of it, without a clash.
pub validate_container-IsContainer :
    (resources : List TargetResource) (fixed : List HostPort) (c : ContainerIntent)
    (out : List HostPort)
    → IsFree fixed
    → validate_container resources fixed c ≡ ok out
    → IsContainer c × IsFree out × (fixed ++ fixed_ports c.ports ≡ out)
unfolding validate_container
validate_container-IsContainer resources fixed c out free h =
    let (environment, h1) = (reject_if_iff _ IntentError.invalid_environment _ out).0 h in
    let (ports, bound, h2) = >>=-eq-ok (validate_ports [] fixed c.ports) _ h1 in
    let (labels, h3) = (reject_if_iff _ IntentError.duplicate_container_label _ out).0 h2 in
    let (attached, h4) = (>>_iff (validate_attachments resources [] c.networks) _ out).0 h3 in
    let (mounts, h5) = (reject_if_iff _ IntentError.duplicate_mount _ out).0 h4 in
    let (programs, h6) =
      (reject_if_iff (empty_program c.entrypoint || empty_program c.command)
          IntentError.invalid_argument _ out).0
        h5 in
    let (cleared, h7) =
      (reject_if_iff (is_clear c.command && not (is_exec c.entrypoint))
          IntentError.command_clear_requires_entrypoint _ out).0
        h6 in
    let (signal, h8) =
      (reject_if_iff (is_empty_text c.settings.stop_signal) IntentError.invalid_argument _ out).0
        h7 in
    let (settings, h9) = (>>_iff (validate_container_settings c.settings) _ out).0 h8 in
    let (restart, last) =
      (reject_if_iff (too_many_retries c.restart) IntentError.invalid_restart _ out).0 h9 in
    let same = ok-eq_ok last in
    let (free_out, appended) = validate_ports-IsFree [] fixed c.ports ports free bound in
    let (distinct, devices) = ||-false (not (all_inserted [] (mount_keys c))) _ mounts in
    (
      record {
        environment =
            (all_inserted_iff (map (λ a. a.key) c.environment)).0 ((not-false_iff _).0 environment);
        labels =
            (all_inserted_iff (map (λ a. a.key) c.settings.labels)).0 ((not-false_iff _).0 labels);
        ports =
            (all_inserted_iff (published_ports c.ports)).0
              (validate_ports-inserted [] fixed c.ports ports bound);
        networks =
            (all_inserted_iff (attached_networks c.networks)).0
              (validate_attachments-inserted resources [] c.networks attached);
        mounts = (all_inserted_iff (mount_keys c)).0 ((not-false_iff _).0 distinct);
        devices = devices;
      },
      subst IsFree same free_out,
      appended ∙ same,
    )
