-- ===== src/Target/Prerequisite/Assessed.antt =====
-- What `NetworkPrerequisite::assess` of src/target_modules/prerequisite.rs accepts.
use docker_lens.Prelude.{
  ℕ, ◌≡◌, ◌↔◌, refl, sym, subst, ap, ◌∙◌, arith, Bool, true, false, not, ◌||◌, not-false_iff,
  Option, some, List, [], ◌∷◌, map, length, all, find, find-In, find_of_In, map_injective,
  all_inserted, all_inserted_iff, In, Distinct, is_ascii_hexdigit, ◌==◌, nat_eq, nat_beq_iff,
  list_eq, bool_eq, Bytes, ok, ok-eq_ok, ok_or, ok_or-eq_ok, reject_if, ◌>>=◌, ◌>>◌, reject_if_iff,
  >>=-eq-ok,
}
use docker_lens.Observation.{ResourceRef, Origin}
use docker_lens.Acquisition.Request.{SelectionReason, RootKind, SelectedRoot}
use docker_lens.Target.Prerequisite.{
  NetworkPrerequisiteError, NetworkPrerequisite, NetworkObservation, DecodedInventory, usable,
  driver_name, filter_networks, too_many_items, only_match, is_ambiguous, is_network_root,
  check_root, selected_network, check_evidence, assess_network,
}
use docker_lens.Target.Prerequisite.Present.{evidence, IsExpected, check_evidence_iff}

-- the root that selected the network
abbrev pub HasRoot : List SelectedRoot → ResourceRef → Type 0
HasRoot roots r =
    (root : SelectedRoot) × In root roots
    × (root.resource ≡ r)
    × (root.kind ≡ RootKind.network)
    × (root.reason ≡ SelectionReason.exact_network_id)

-- The inventory and its daemon are of the observation; one network has the full identifier, under a
-- reference of its own that one root selected by this identifier; and its evidence is what the
-- prerequisite expects.
pub record IsAssessed (p : NetworkPrerequisite) (inventory : DecodedInventory) (observation : ℕ)
    (id : Bytes) : Type 0 where
  pub scope :
      (inventory.observation_id ≡ observation) × (inventory.daemon.observation_id ≡ observation)
  pub full : (length id ≡ 64) × (all is_ascii_hexdigit id ≡ true)
  pub small : too_many_items inventory ≡ false
  pub network : NetworkObservation
  pub only : filter_networks id inventory.networks ≡ network ∷ []
  pub reference : is_ambiguous inventory network.reference ≡ false
  pub roots : Distinct (map (λ root. root.resource) inventory.selected_roots)
  pub root : HasRoot inventory.selected_roots network.reference
  pub origin : usable network.id Origin.runtime_assigned ≡ true
  pub name : network.name ≡ evidence Origin.effective p.identity
  pub driver : network.driver ≡ evidence Origin.effective (driver_name p.expected_driver)
  pub internal : IsExpected p.expected_internal network.internal

network_root_iff :
    (root : SelectedRoot)
    → (is_network_root root ≡ true)
      ↔ ((root.kind ≡ RootKind.network) × (root.reason ≡ SelectionReason.exact_network_id))
network_root_iff root = ground arith

-- what stands behind the match
abbrev IsRooted : DecodedInventory → NetworkObservation → Type 0
IsRooted inventory n =
    (is_ambiguous inventory n.reference ≡ false)
    × Distinct (map (λ root. root.resource) inventory.selected_roots)
    × HasRoot inventory.selected_roots n.reference

abbrev distinct_roots : DecodedInventory → Bool
distinct_roots inventory = all_inserted [] (map (λ root. root.resource) inventory.selected_roots)

abbrev root_of : DecodedInventory → NetworkObservation → Option SelectedRoot
root_of inventory n = find (λ root. root.resource == n.reference) inventory.selected_roots

check_root_sound :
    (inventory : DecodedInventory) (n out : NetworkObservation)
    → check_root inventory n ≡ ok out
    → IsRooted inventory n × (n ≡ out)
unfolding check_root
check_root_sound inventory n out h =
    let (a, h2) =
      (reject_if_iff (is_ambiguous inventory n.reference)
          NetworkPrerequisiteError.ambiguous_resource_reference _ out).0
        h in
    let (b, h3) =
      (reject_if_iff (not (distinct_roots inventory))
          NetworkPrerequisiteError.duplicate_selected_root _ out).0
        h2 in
    let (root, found, h4) =
      >>=-eq-ok (ok_or (root_of inventory n) NetworkPrerequisiteError.selected_root_not_found)
        (λ root.
          reject_if (not (is_network_root root)) NetworkPrerequisiteError.invalid_selected_root
          >> ok n)
        h3 in
    let (c, last) =
      (reject_if_iff (not (is_network_root root)) NetworkPrerequisiteError.invalid_selected_root
          (ok n) out).0
        h4 in
    let (m, same) =
      find-In (λ r. r.resource == n.reference) root inventory.selected_roots
        (ok_or-eq_ok (root_of inventory n) NetworkPrerequisiteError.selected_root_not_found root
          found) in
    let (of_kind, of_reason) =
      (network_root_iff root).0 ((not-false_iff (is_network_root root)).0 c) in
    (
      (
        a,
        (all_inserted_iff (map (λ r. r.resource) inventory.selected_roots)).0
            ((not-false_iff (distinct_roots inventory)).0 b),
        (root, m, (nat_beq_iff root.resource n.reference).0 same, of_kind, of_reason),
      ),
      ok-eq_ok last,
    )

check_root_complete :
    (inventory : DecodedInventory) (n : NetworkObservation)
    → IsRooted inventory n
    → check_root inventory n ≡ ok n
unfolding check_root
check_root_complete inventory n h =
    let (a, distinct, found) = h in
    let (root, m, same, of_kind, of_reason) = found in
    let inserted : distinct_roots inventory ≡ true =
      (all_inserted_iff (map (λ r. r.resource) inventory.selected_roots)).1 distinct in
    let e : root_of inventory n ≡ some root =
      find_of_In (λ r. r.resource == n.reference) root inventory.selected_roots m
        ((nat_beq_iff root.resource n.reference).1 same)
        (λ r k f.
          map_injective (λ x. x.resource) r root inventory.selected_roots distinct k m
            ((nat_beq_iff r.resource n.reference).0 f ∙ sym same)) in
    let kind_ok = (network_root_iff root).1 (of_kind, of_reason) in
    rw (a, inserted, e, kind_ok) refl

only_match-eq_ok :
    (found : List NetworkObservation) (n : NetworkObservation)
    → only_match found ≡ ok n
    → found ≡ n ∷ []
only_match-eq_ok [] n h = cc
only_match-eq_ok (k ∷ []) n h = ap (λ x. x ∷ []) (ok-eq_ok h)
only_match-eq_ok (k ∷ m ∷ rest) n h = cc

selected_network_sound :
    (inventory : DecodedInventory) (id : Bytes) (n : NetworkObservation)
    → selected_network inventory id ≡ ok n
    → (too_many_items inventory ≡ false)
      × (filter_networks id inventory.networks ≡ n ∷ [])
      × IsRooted inventory n
unfolding selected_network
selected_network_sound inventory id n h =
    let (small, h2) =
      (reject_if_iff (too_many_items inventory) NetworkPrerequisiteError.collection_too_large _ n).0
        h in
    let (k, found, h3) =
      >>=-eq-ok (only_match (filter_networks id inventory.networks)) (λ k. check_root inventory k)
        h2 in
    let (rooted, same) = check_root_sound inventory k n h3 in
    (
      small,
      only_match-eq_ok (filter_networks id inventory.networks) k found ∙ ap (λ x. x ∷ []) same,
      subst (λ x. IsRooted inventory x) same rooted,
    )

selected_network_complete :
    (inventory : DecodedInventory) (id : Bytes) (n : NetworkObservation)
    → too_many_items inventory ≡ false
    → filter_networks id inventory.networks ≡ n ∷ []
    → IsRooted inventory n
    → selected_network inventory id ≡ ok n
unfolding selected_network
selected_network_complete inventory id n small only rooted =
    rw (small, only) (check_root_complete inventory n rooted)

scope_iff : (a b c : ℕ) → ((not (a == c) || not (b == c)) ≡ false) ↔ ((a ≡ c) × (b ≡ c))
scope_iff a b c = ground arith

full_iff :
    (id : Bytes)
    → ((not (length id == 64) || not (all is_ascii_hexdigit id)) ≡ false)
      ↔ ((length id ≡ 64) × (all is_ascii_hexdigit id ≡ true))
full_iff id = ground arith

-- A prerequisite is accepted exactly if the inventory and its daemon are of the expected observation,
-- the identifier is 64 hexadecimal digits, no collection is over its limit, exactly one network has
-- the identifier, its reference is no other network's, container's or volume's, the roots have distinct
-- references and one of them selected this network by its identifier, and its runtime identifier, its
-- name, its driver and, if one is expected, its internal flag are present with the expected values.
pub assess_network_iff :
    (p : NetworkPrerequisite) (inventory : DecodedInventory) (observation : ℕ) (id : Bytes)
    → (assess_network p inventory observation id ≡ ok tt) ↔ IsAssessed p inventory observation id
unfolding assess_network
assess_network_iff p inventory observation id =
    let scope = scope_iff inventory.observation_id inventory.daemon.observation_id observation in
    let full = full_iff id in
    let behind = selected_network inventory id >>= λ n. check_evidence p n in
    let first =
      reject_if_iff
        (not (inventory.observation_id == observation)
          || not (inventory.daemon.observation_id == observation))
        NetworkPrerequisiteError.observation_scope_mismatch
        (reject_if (not (length id == 64) || not (all is_ascii_hexdigit id))
            NetworkPrerequisiteError.invalid_selected_network_id
          >> behind)
        tt in
    let second =
      reject_if_iff (not (length id == 64) || not (all is_ascii_hexdigit id))
        NetworkPrerequisiteError.invalid_selected_network_id behind tt in
    (
      (λ h.
          let (a, h2) = first.0 h in
          let (b, h3) = second.0 h2 in
          let (n, found, h4) =
            >>=-eq-ok (selected_network inventory id) (λ k. check_evidence p k) h3 in
          let (small, only, rooted) = selected_network_sound inventory id n found in
          let (reference, roots, root) = rooted in
          let (origin, name, driver, internal) = (check_evidence_iff p n).0 h4 in
          record {
            scope = scope.0 a;
            full = full.0 b;
            small = small;
            network = n;
            only = only;
            reference = reference;
            roots = roots;
            root = root;
            origin = origin;
            name = name;
            driver = driver;
            internal = internal;
          }),
      (λ h.
          let found =
            selected_network_complete inventory id h.network h.small h.only
              (h.reference, h.roots, h.root) in
          let accepted : behind ≡ ok tt =
            rw found
              ((check_evidence_iff p h.network).1 (h.origin, h.name, h.driver, h.internal)) in
          first.1 (scope.1 h.scope, second.1 (full.1 h.full, accepted))),
    )
