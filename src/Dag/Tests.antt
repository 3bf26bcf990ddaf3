-- ===== src/Dag/Tests.antt =====
-- Graphs of two vertices, searched, sorted and walked by internal/dag.
use bachkator.Base.{
  err, ok, ℕ, ◌+◌, ◌≤◌, String, true, false, none, some, List, [], ◌∷◌, ◌≡◌, ◌≢◌, refl, arith, occ,
  In, str_lt, length, subst, ◌==◌, if◌then◌else◌,
}
use bachkator.Dag.Graph.{
  successors, distinct, passes, Edge, Graph, new, vertex_ids, edges_of, member, add_edge,
  add_vertex, put_vertex, keeps_vertex,
}
use bachkator.Dag.Graph.Built.{Build, edge, build, IsGraph, build-IsGraph}
use bachkator.Dag.Walk.{
  WalkState, count_edges, dependency_state, start, first_ready, start_one, start_picked, pick,
  settle, finish_vertex, receive, starts, receives, Walks, here, next, no_progress, when_idle,
  incomplete,
}
use bachkator.Dag.Walk.Order.{known}
use bachkator.Dag.Search.Refuses.{IsRefusal, validate_acyclic_refuses}
use bachkator.Dag.Search.{
  cycle, search, visit_each, visit, cycle_path, validate_acyclic, topological_order,
}
use bachkator.Dag.Search.Acyclic.{Rises, validate_acyclic_iff}
use bachkator.Dag.Search.Sorted.{before, topological_order-sorted}
use bachkator.Dag.Walk.Ends.{Walks-ordered, Walks-once, Walks-complete, Walks-progress}

abbrev needs : Edge
needs = record { from = "a"; to = "b"; kind = "needs" }

abbrev steps : List Build
steps = edge "a" "b" "needs" ∷ []

abbrev two : Graph
two = record {
  vertices = record { id = "a"; kind = "" } ∷ record { id = "b"; kind = "" } ∷ [];
  edges = needs ∷ [];
}

build-steps : build steps new ≡ two
unfolding build add_edge add_vertex put_vertex keeps_vertex
build-steps = refl

two-IsGraph : IsGraph two
two-IsGraph = subst IsGraph build-steps (build-IsGraph steps)

-- The states: a runs, a is done, b runs, b is done.
abbrev first : WalkState
first = record (start str_lt none two) { ready = []; running = "a" ∷ [] }

abbrev second : WalkState
second = receive str_lt (dependency_state none two) "a" none first

abbrev third : WalkState
third = record second { ready = []; running = "b" ∷ [] }

abbrev fourth : WalkState
fourth = receive str_lt (dependency_state none two) "b" none third

start-first : start_one 2 (λ v. true) (start str_lt none two) ≡ some first
unfolding start_one start_picked pick start first_ready vertex_ids dependency_state count_edges
    edges_of
start-first = refl

start-third : start_one 2 (λ v. true) second ≡ some third
unfolding start_one start_picked pick start first_ready vertex_ids dependency_state count_edges
    edges_of receive finish_vertex settle
start-third = refl

second_idle : (second.running ≡ []) × (second.draining ≡ false)
unfolding receive finish_vertex start
second_idle = (refl, refl)

walk-third : Walks 2 str_lt none two third
unfolding start receive finish_vertex
walk-third =
    next
      (next (next here (starts (λ v. true) first start-first))
        (receives "a" none (omega arith) refl))
      (starts (λ v. true) third start-third)

walk-fourth : Walks 2 str_lt none two fourth
unfolding start receive finish_vertex
walk-fourth = next walk-third (receives "b" none (omega arith) refl)

Walks-ordered_example : member "a" third.done ≡ true
Walks-ordered_example =
    Walks-ordered 2 str_lt none two two-IsGraph third walk-third needs In.here refl (omega arith)

Walks-once_example :
    ((v : String)
      → occ v third.ready + (occ v third.running + (occ v third.done + occ v third.stopped)) ≤ 1)
    × (length third.running ≤ 2)
Walks-once_example = Walks-once 2 str_lt none two two-IsGraph third walk-third

fourth_complete :
    (fourth.first_err ≡ none) × (fourth.draining ≡ false) × (incomplete two fourth ≡ false)
unfolding receive finish_vertex start
fourth_complete = (refl, refl, refl)

Walks-complete_example : occ "b" fourth.done ≡ 1
Walks-complete_example =
    Walks-complete 2 str_lt none two two-IsGraph fourth walk-fourth fourth_complete.0
      fourth_complete.1 fourth_complete.2 "b" refl

abbrev rank : String → ℕ
rank v = if v == "a" then 0 else 1

second-incomplete : incomplete two second ≡ true
unfolding receive finish_vertex start
second-incomplete = refl

walk-second : Walks 2 str_lt none two second
unfolding start
walk-second =
    next (next here (starts (λ v. true) first start-first)) (receives "a" none (omega arith) refl)

Walks-progress_example : when_idle true second ≢ no_progress
Walks-progress_example =
    Walks-progress 2 str_lt none two two-IsGraph second walk-second rank ((λ e. omega arith), tt)
      true second_idle.0 second_idle.1 second-incomplete

two-Rises : Rises none two rank
two-Rises = ((λ e. omega arith), tt)

validate_acyclic_iff_example :
    (validate_acyclic none two ≡ ok tt → (r : String → ℕ) × Rises none two r)
    × ((r : String → ℕ) → Rises none two r → validate_acyclic none two ≡ ok tt)
validate_acyclic_iff_example = validate_acyclic_iff none two two-IsGraph

topological_order-sorted_example :
    (order : List String) × (topological_order str_lt none two ≡ ok order)
    × ((v : String) → known two v ≡ true → occ v order ≡ 1)
    × ((e : Edge) → In e two.edges → passes none e ≡ true → before e.from e.to order ≡ true)
topological_order-sorted_example =
    topological_order-sorted str_lt none two two-IsGraph rank two-Rises

-- a needs b, and b needs a.
abbrev ring_steps : List Build
ring_steps = edge "a" "b" "needs" ∷ edge "b" "a" "needs" ∷ []

abbrev ring : Graph
ring = build ring_steps new

ring-refused : validate_acyclic none ring ≡ err (cycle ("a" ∷ "b" ∷ "a" ∷ []))
unfolding build add_edge add_vertex put_vertex keeps_vertex validate_acyclic search visit_each visit
    successors distinct vertex_ids cycle_path
ring-refused = refl

validate_acyclic_refuses_example : IsRefusal (successors none ring) (cycle ("a" ∷ "b" ∷ "a" ∷ []))
validate_acyclic_refuses_example =
    validate_acyclic_refuses none ring (build-IsGraph ring_steps) (cycle ("a" ∷ "b" ∷ "a" ∷ []))
      ring-refused
