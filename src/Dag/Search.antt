-- ===== src/Dag/Search.antt =====
-- ValidateAcyclic and TopologicalOrder of internal/dag/dag.go.
--
-- The search is a recursion without a bound in Go; here it runs on fuel, one more than there are
-- vertices: the stack holds each vertex once. `visiting` holds what the stack holds, so the stack
-- stands for both.
pub mod Visits
pub mod Total
pub mod Acyclic
pub mod Refuses
pub mod Sorted
use bachkator.Base.{
  ℕ, zero, suc, String, Bool, true, false, List, [], ◌∷◌, ◌++◌, ◌==◌, if◌then◌else◌, length, Result,
  ok, err, ◌>>=◌, order_by,
}
use bachkator.Dag.Graph.{Graph, Filter, member, successors, vertex_ids}
use bachkator.Dag.Walk.{Deps, dependency_state, first_ready, settle}

pub data SearchError : Type 0 where
  cycle : List String → SearchError
  out_of_fuel : SearchError

abbrev pub Visited : Type 0
Visited = Result SearchError (List String)

-- cyclePath: the stack from the vertex on, and the vertex again.
unfoldable pub cycle_path : List String → String → List String
cycle_path [] id = id ∷ []
cycle_path (x ∷ xs) id =
    let rest = cycle_path xs id in if x == id then x ∷ xs ++ (id ∷ []) else rest

-- A loop of visits.
unfoldable pub visit_each : (String → List String → Visited) → List String → List String → Visited
visit_each visit [] visited = ok visited
visit_each visit (x ∷ xs) visited = visit x visited >>= λ visited'. visit_each visit xs visited'

-- The function visit of ValidateAcyclic.
unfoldable pub visit : ℕ → (String → List String) → List String → String → List String → Visited
visit zero next stack id visited = err out_of_fuel
visit (suc n) next stack id visited =
    let rest = visit_each (visit n next (stack ++ (id ∷ []))) (next id) visited in
    if member id visited
    then ok visited
    else if member id stack
    then err (cycle (cycle_path stack id))
    else (rest >>= λ v. ok (id ∷ v))

unfoldable pub search : Filter → Graph → Visited
search filter g =
    visit_each (visit (suc (length g.vertices)) (successors filter g) []) (vertex_ids g) []

-- ValidateAcyclic
unfoldable pub validate_acyclic : Filter → Graph → Result SearchError (Unit {0})
validate_acyclic filter g = search filter g >>= λ _. ok tt

-- The loop of TopologicalOrder, which takes one vertex from `ready` in each round.
unfoldable pub take_ready :
    ℕ → (String → String → Bool) → Deps → (String → ℕ) → List String → List String → List String
take_ready zero less deps remaining ready order = order
take_ready (suc n) less deps remaining [] order = order
take_ready (suc n) less deps remaining (id ∷ ready) order =
    let told = settle (deps.dependents id) remaining ready in
    take_ready n less deps told.0 (order_by less told.1) (order ++ (id ∷ []))

-- TopologicalOrder
unfoldable pub topological_order :
    (String → String → Bool) → Filter → Graph → Result SearchError (List String)
topological_order less filter g =
    let deps = dependency_state filter g in
    validate_acyclic filter g >>= λ _. ok (
      take_ready (length g.vertices) less deps deps.remaining
        (first_ready less deps.remaining (vertex_ids g)) [])
