-- ===== src/Target/Cycles.antt =====
-- The cycle test of `OperationGraph::new` in src/target_modules/graph.rs. A `HashMap` is an
-- association list in the order of insertion, and `ready` has its last entry first; the source takes
-- the entries of both maps in any order.
pub mod Release
pub mod Turn
pub mod Pushed
pub mod Visited
pub mod Run
pub mod Acyclic
use docker_lens.Prelude.{
  ℕ, zero, suc, ◌-◌, Bool, Option, none, some, List, [], ◌∷◌, ◌++◌, map, length, contains, ◌==◌,
  nat_eq, if◌then◌else◌,
}
use docker_lens.Observation.{ResourceRef}
use docker_lens.Target.Node.{OperationNode}

-- `collect` into a `HashSet`
unfoldable pub to_set : List ResourceRef → List ResourceRef
to_set [] = []
to_set (r ∷ references) = let rest = to_set references in if contains rest r then rest else r ∷ rest

-- `dependents.entry(dependency).or_default().push(resource)`
unfoldable pub push_dependent :
    ResourceRef
    → ResourceRef
    → List (ResourceRef × List ResourceRef)
    → List (ResourceRef × List ResourceRef)
push_dependent dependency resource [] = (dependency, resource ∷ []) ∷ []
push_dependent dependency resource ((key, resources) ∷ dependents) =
    let rest = push_dependent dependency resource dependents in
    if key == dependency
    then (key, resources ++ resource ∷ []) ∷ dependents
    else (key, resources) ∷ rest

-- the loop over a node's dependencies
unfoldable pub push_dependents :
    List ResourceRef
    → ResourceRef
    → List (ResourceRef × List ResourceRef)
    → List (ResourceRef × List ResourceRef)
push_dependents [] resource dependents = dependents
push_dependents (d ∷ dependencies) resource dependents =
    push_dependents dependencies resource (push_dependent d resource dependents)

-- the map `dependents` after the loop over the nodes
unfoldable pub dependents_map :
    List OperationNode
    → List (ResourceRef × List ResourceRef)
    → List (ResourceRef × List ResourceRef)
dependents_map [] dependents = dependents
dependents_map (node ∷ nodes) dependents =
    dependents_map nodes
      (push_dependents (to_set node.depends_on) node.operation.resource dependents)

-- the loop's `if let Some(next) = dependents.get(&reference)`, with no turn on a missing key
unfoldable pub next_of : ResourceRef → List (ResourceRef × List ResourceRef) → List ResourceRef
next_of r [] = []
next_of r ((key, resources) ∷ dependents) = if key == r then resources else next_of r dependents

-- the map `remaining`; the keys are distinct
abbrev pub remaining_map : List OperationNode → List (ResourceRef × ℕ)
remaining_map nodes = map (λ node. (node.operation.resource, length (to_set node.depends_on))) nodes

-- the initial `ready`
unfoldable pub initial_ready : List (ResourceRef × ℕ) → List ResourceRef
initial_ready [] = []
initial_ready ((r, count) ∷ remaining) =
    let rest = initial_ready remaining in if count == 0 then r ∷ rest else rest

-- `*remaining.get_mut(dependent).expect(…) -= 1`, with the new count; `none` is a panic
unfoldable pub decrement :
    ResourceRef → List (ResourceRef × ℕ) → Option (ℕ × List (ResourceRef × ℕ))
decrement dependent [] = none
decrement dependent ((key, count) ∷ remaining) =
    let rest = decrement dependent remaining in
    if key == dependent
    then elim count [ zero ↦ none | suc n ↦ some (n, (key, n) ∷ remaining) ]
    else elim rest [ none ↦ none | some (n, entries) ↦ some (n, (key, count) ∷ entries) ]

-- the variables `remaining` and `ready`
pub record Queue : Type 0 where
  pub remaining : List (ResourceRef × ℕ)
  pub ready : List ResourceRef

-- the body of the loop over the dependents
unfoldable pub release_one : ResourceRef → Queue → Option Queue
release_one dependent queue = elim (decrement dependent queue.remaining) [
  | none ↦ none
  | some (n, entries) ↦ some (record {
    remaining = entries;
    ready = if n == 0 then dependent ∷ queue.ready else queue.ready;
  })
]

unfoldable pub release : List ResourceRef → Queue → Option Queue
release [] queue = some queue
release (dependent ∷ next) queue = elim (release_one dependent queue) [
  | none ↦ none
  | some later ↦ release next later
]

-- the loop on `ready.pop()`, on fuel, with the value of `visited` behind it
unfoldable pub visit : ℕ → List (ResourceRef × List ResourceRef) → Queue → ℕ → Option ℕ
visit zero dependents queue visited = none
visit (suc fuel) dependents queue visited = elim queue.ready [
  | [] ↦ some visited
  | r ∷ ready ↦ elim (release (next_of r dependents) (record queue { ready = ready })) [
    | none ↦ none
    | some later ↦ visit fuel dependents later (suc visited)
  ]
]

-- the number of nodes visited, `none` for a panic; each node takes one turn and the last finds none
unfoldable pub visited_nodes : List OperationNode → Option ℕ
visited_nodes nodes =
    visit (suc (length nodes)) (dependents_map nodes [])
      (record { remaining = remaining_map nodes; ready = initial_ready (remaining_map nodes) }) 0
