-- ===== src/Target/Graph/Valid.antt =====
-- What the checks of nodes and dependencies in `OperationGraph::new` of src/target_modules/graph.rs
-- accept.
use docker_lens.Prelude.{
  not-false_iff, ◌≡◌, ◌↔◌, inl, inr, refl, ap, ◌∙◌, arith, Bool, true, false, not, ◌&&◌, ◌||◌,
  Option, none, some, some-eq_some, List, [], ◌∷◌, map, length, any, any-In, any_of_In, contains,
  contains→In, In→contains, all_inserted, all_inserted_iff, All, In, Distinct, Bool-cases, ◌==◌,
  nat_eq, nat_beq_iff, option_eq, ok, reject_if, ◌>>◌, reject_if_iff, reject_if-ok_iff, >>_iff,
}
use docker_lens.Observation.{ResourceRef}
use docker_lens.Target.Resource.{
  TargetKind, target_kind_eq, target_kind_beq_iff, TargetResource, reference, kind,
}
use docker_lens.Target.Node.{OperationNode, action_eq, action_beq_iff}
use docker_lens.Target.Cycles.Turn.{resources_of}
use docker_lens.Target.Needs.{PlanningError}
use docker_lens.Target.Graph.{
  resource_of, action_of, is_node_of, is_unknown_dependency, check_nodes, get, is_other_kind,
  check_required, required_by, check_dependencies,
}

-- a node states the reference, the kind and the action of a resource
abbrev pub IsNodeOf : List TargetResource → OperationNode → Type 0
IsNodeOf resources n =
    (r : TargetResource) × In r resources
    × (reference r ≡ resource_of n)
    × (kind r ≡ n.operation.kind)
    × (n.operation.action ≡ action_of r)

-- a node depends on nodes, itself not among them
abbrev pub IsLinked : List OperationNode → OperationNode → Type 0
IsLinked nodes n = All (λ d. In d (resources_of nodes) × (¬ (d ≡ resource_of n))) n.depends_on

-- the resource that a container needs is there, of its kind, and the node depends on it
abbrev pub IsGiven : List TargetResource → OperationNode → ResourceRef × TargetKind → Type 0
IsGiven resources n (r, expected) =
    ((t : TargetResource) × (get resources r ≡ some t) × (kind t ≡ expected)) × In r n.depends_on

abbrev pub HasRequired : List TargetResource → OperationNode → Type 0
HasRequired resources n = All (IsGiven resources n) (required_by (get resources (resource_of n)))

-- no entry passes a test exactly if each has the property that excludes it
any-false_iff :
    {A : Type 0} (p : A → Bool) (P : A → Type 0)
    → ((a : A) → (p a ≡ false) ↔ P a)
    → (xs : List A) → (any p xs ≡ false) ↔ All P xs
any-false_iff p P each [] = ((λ h. tt), (λ h. refl))
any-false_iff p P each (x ∷ xs) =
    let rest = any-false_iff p P each xs in
    (
      (λ h. ((each x).0 (ground arith), rest.0 (ground arith))),
      (λ h. let here = (each x).1 h.0 in let there = rest.1 h.1 in ground arith),
    )

&&_iff : (a b : Bool) → ((a && b) ≡ true) ↔ ((a ≡ true) × (b ≡ true))
&&_iff a b = ground arith

same_node_iff :
    (n : OperationNode) (r : TargetResource)
    → (is_node_of n r ≡ true) ↔ (
        (reference r ≡ resource_of n)
        × (kind r ≡ n.operation.kind)
        × (n.operation.action ≡ action_of r))
same_node_iff n r =
    let a = nat_beq_iff (reference r) (resource_of n) in
    let b = target_kind_beq_iff (kind r) n.operation.kind in
    let c = action_beq_iff n.operation.action (action_of r) in
    let outer =
      &&_iff (reference r == resource_of n && kind r == n.operation.kind)
        (n.operation.action == action_of r) in
    let inner = &&_iff (reference r == resource_of n) (kind r == n.operation.kind) in
    (
      (λ h. let (x, z) = outer.0 h in let (w, y) = inner.0 x in (a.0 w, b.0 y, c.0 z)),
      (λ h. outer.1 (inner.1 (a.1 h.0, b.1 h.1), c.1 h.2)),
    )

is_node_of_iff :
    (resources : List TargetResource) (n : OperationNode)
    → (not (any (is_node_of n) resources) ≡ false) ↔ IsNodeOf resources n
is_node_of_iff resources n = (
  (λ h.
      let (r, m, e) =
        any-In (is_node_of n) resources ((not-false_iff (any (is_node_of n) resources)).0 h) in
      let (a, b, c) = (same_node_iff n r).0 e in (r, m, a, b, c)),
  (λ h.
      let (r, m, a, b, c) = h in
      (not-false_iff (any (is_node_of n) resources)).1
        (any_of_In (is_node_of n) r resources m ((same_node_iff n r).1 (a, b, c)))),
)

linked_one_iff :
    (nodes : List OperationNode) (n : OperationNode) (d : ResourceRef)
    → ((not (contains (resources_of nodes) d) || d == resource_of n) ≡ false)
      ↔ (In d (resources_of nodes) × (¬ (d ≡ resource_of n)))
linked_one_iff nodes n d = (
  (λ h. (
    contains→In d (resources_of nodes) (ground arith),
    λ e. let same = (nat_beq_iff d (resource_of n)).1 e in ground arith,
  )),
  (λ h.
      let found = In→contains d (resources_of nodes) h.0 in
      elim (Bool-cases (d == resource_of n)) [
        | inl same ↦ absurd (h.1 ((nat_beq_iff d (resource_of n)).0 same))
        | inr other ↦ ground arith
      ]),
)

right_kind_iff :
    (o : Option TargetResource) (expected : TargetKind)
    → (is_other_kind o expected ≡ false)
      ↔ ((t : TargetResource) × (o ≡ some t) × (kind t ≡ expected))
right_kind_iff none expected = ((λ h. cc), (λ h. let (t, e, k) = h in cc))
right_kind_iff (some r) expected =
    let same = target_kind_beq_iff (kind r) expected in
    (
      (λ h. (r, refl, same.0 ((not-false_iff (kind r == expected)).0 h))),
      (λ h.
          let (t, e, k) = h in
          (not-false_iff (kind r == expected)).1 (same.1 (ap kind (some-eq_some e) ∙ k))),
    )

needed_one_iff :
    (resources : List TargetResource) (n : OperationNode) (r : ResourceRef) (expected : TargetKind)
    → ((is_other_kind (get resources r) expected || not (contains n.depends_on r)) ≡ false)
      ↔ IsGiven resources n (r, expected)
needed_one_iff resources n r expected =
    let right = right_kind_iff (get resources r) expected in
    (
      (λ h. (right.0 (ground arith), contains→In r n.depends_on (ground arith))),
      (λ h. let here = right.1 h.0 in let found = In→contains r n.depends_on h.1 in ground arith),
    )

check_required_iff :
    (resources : List TargetResource) (n : OperationNode) (needed : List (ResourceRef × TargetKind))
    → (check_required resources n needed ≡ ok tt) ↔ All (IsGiven resources n) needed
unfolding check_required
check_required_iff resources n [] = ((λ h. tt), (λ h. refl))
check_required_iff resources n ((r, expected) ∷ needed) =
    let rest = check_required_iff resources n needed in
    let step =
      reject_if_iff (is_other_kind (get resources r) expected || not (contains n.depends_on r))
        (PlanningError.dependency_mismatch (resource_of n) r expected)
        (check_required resources n needed) tt in
    let here = needed_one_iff resources n r expected in
    ((λ h. let (e, k) = step.0 h in (here.0 e, rest.0 k)), (λ h. step.1 (here.1 h.0, rest.1 h.1)))

pub check_dependencies_iff :
    (resources : List TargetResource) (nodes : List OperationNode)
    → (check_dependencies resources nodes ≡ ok tt) ↔ All (HasRequired resources) nodes
unfolding check_dependencies
check_dependencies_iff resources [] = ((λ h. tt), (λ h. refl))
check_dependencies_iff resources (n ∷ nodes) =
    let needed = required_by (get resources (resource_of n)) in
    let here = check_required_iff resources n needed in
    let rest = check_dependencies_iff resources nodes in
    let step = >>_iff (check_required resources n needed) (check_dependencies resources nodes) tt in
    ((λ h. let (e, k) = step.0 h in (here.0 e, rest.0 k)), (λ h. step.1 (here.1 h.0, rest.1 h.1)))

-- the checks at the start
pub record IsNodes (resources : List TargetResource) (nodes : List OperationNode) : Type 0 where
  pub size : length nodes ≡ length resources
  pub unique : Distinct (resources_of nodes)
  pub matched : All (IsNodeOf resources) nodes
  pub linked : All (IsLinked nodes) nodes

first_check_iff :
    (resources : List TargetResource) (nodes : List OperationNode)
    → ((not (length nodes == length resources) || not (all_inserted [] (map resource_of nodes)))
        ≡ false)
      ↔ ((length nodes ≡ length resources) × Distinct (resources_of nodes))
first_check_iff resources nodes =
    let inserted = all_inserted_iff (map resource_of nodes) in
    let same = nat_beq_iff (length nodes) (length resources) in
    (
      (λ h. (same.0 (ground arith), inserted.0 (ground arith))),
      (λ h. let e = same.1 h.0 in let f = inserted.1 h.1 in ground arith),
    )

pub check_nodes_iff :
    (resources : List TargetResource) (nodes : List OperationNode)
    → (check_nodes resources nodes ≡ ok tt) ↔ IsNodes resources nodes
unfolding check_nodes
check_nodes_iff resources nodes =
    let references = map resource_of nodes in
    let first =
      reject_if_iff (not (length nodes == length resources) || not (all_inserted [] references))
        PlanningError.invalid_dependency
        (reject_if (any (λ n. not (any (is_node_of n) resources)) nodes)
            PlanningError.invalid_dependency
          >> reject_if (any (is_unknown_dependency references) nodes)
              PlanningError.invalid_dependency)
        tt in
    let second =
      reject_if_iff (any (λ n. not (any (is_node_of n) resources)) nodes)
        PlanningError.invalid_dependency
        (reject_if (any (is_unknown_dependency references) nodes) PlanningError.invalid_dependency)
        tt in
    let third =
      reject_if-ok_iff (any (is_unknown_dependency references) nodes)
        PlanningError.invalid_dependency in
    let start = first_check_iff resources nodes in
    let matched =
      any-false_iff (λ n. not (any (is_node_of n) resources)) (IsNodeOf resources)
        (is_node_of_iff resources) nodes in
    let linked =
      any-false_iff (is_unknown_dependency references) (IsLinked nodes)
        (λ n.
          any-false_iff (λ d. not (contains references d) || d == resource_of n)
            (λ d. In d (resources_of nodes) × (¬ (d ≡ resource_of n))) (linked_one_iff nodes n)
            n.depends_on)
        nodes in
    (
      (λ h.
          let (e, k) = first.0 h in
          let (f, l) = second.0 k in
          let (size, unique) = start.0 e in
          record {
            size = size;
            unique = unique;
            matched = matched.0 f;
            linked = linked.0 (third.0 l);
          }),
      (λ h. first.1 (
        start.1 (h.size, h.unique),
        second.1 (matched.1 h.matched, third.1 (linked.1 h.linked)),
      )),
    )
