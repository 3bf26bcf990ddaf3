-- ===== src/Dag/Walk/Ends.antt =====
-- The states of Walk of internal/dag/dag.go: the order of the runs, and the returns.
use bachkator.Base.{
  ℕ, suc, ◌+◌, ◌<◌, ◌≤◌, String, Bool, true, false, none, some, [], ◌==◌, ◌≡◌, ◌≢◌, refl, arith,
  occ, All, In, length, length-map, exists-of-affected, affected-of-exists, length-of-occ,
  occ-of-length, Bool-cases, inl, inr,
}
use bachkator.Dag.Graph.{Vertex, Edge, Graph, Filter, passes, member}
use bachkator.Dag.Graph.Built.{IsGraph, ids}
use bachkator.Dag.Walk.{
  Deps, WalkState, dependency_state, start, limit_of, start_one, start_picked, finish_vertex,
  receive, drain, WalkStep, starts, receives, cancels, notices, drains, Walks, here, next,
  no_progress, when_idle, incomplete,
}
use bachkator.Dag.Walk.Pairs.{dependency_state-In}
use bachkator.Dag.Walk.Keeps.{started}
use bachkator.Dag.Walk.Done.{all_done, open_into-none}
use bachkator.Dag.Walk.Order.{known, Walks-IsWalk}

module _ (limit : ℕ) (less : String → String → Bool) (filter : Filter) (g : Graph) (h : IsGraph g)
    (w : WalkState) (r : Walks limit less filter g w) where
  -- In every state of a walk over a graph whose vertices are there once and whose edges join two of
  -- them, an edge that the filter lets through has a first end that is done, if
  -- its second end has been started.
  pub Walks-ordered :
      (e : Edge)
      → In e g.edges
      → passes filter e ≡ true
      → 0 < started w e.to
      → member e.from w.done ≡ true
  Walks-ordered e m p runs =
      let i = Walks-IsWalk less filter g h limit w r in
      open_into-none w.done e.from e.to (dependency_state filter g).seen
        (ground (arith, i.waiting e.to, i.placed e.to)) (dependency_state-In filter g e m p)

  -- In every state of a walk over such a graph, vertices once and edges between two of them, each
  -- vertex is in one place at most: ready, running, done or stopped.
  -- At most as many vertices run as the parallelism says, or one if it says none.
  pub Walks-once :
      ((v : String) → occ v w.ready + (occ v w.running + (occ v w.done + occ v w.stopped)) ≤ 1)
      × (length w.running ≤ limit_of limit)
  Walks-once =
      let i = Walks-IsWalk less filter g h limit w r in (λ v. ground (arith, i.placed v), i.limited)

-- Results that stop at their vertex need an error or the end of the context.
record IsCalm (w : WalkState) : Type 0 where
  calm : w.first_err ≡ none → w.draining ≡ false → w.stopped ≡ []
  closed : w.draining ≡ true → w.ctx_done ≡ true

WalkStep-IsCalm :
    {limit : ℕ} {less : String → String → Bool} {d : Deps} (w w' : WalkState)
    → IsCalm w
    → WalkStep limit less d w w'
    → IsCalm w'
unfolding receive drain start_one start_picked finish_vertex
WalkStep-IsCalm {limit} w w' i (starts can _ e) = ground arith
WalkStep-IsCalm w _ i (receives id (some e) runs d) = ground arith
WalkStep-IsCalm w _ i (receives id none runs d) = ground arith
WalkStep-IsCalm w _ i cancels = record { calm = i.calm; closed = λ d. refl }
WalkStep-IsCalm w _ i (notices c) = record { calm = λ n d. ground arith; closed = λ d. c }
WalkStep-IsCalm w _ i (drains id none runs d) = record {
  calm = λ n k. ground arith;
  closed = i.closed;
}
WalkStep-IsCalm w _ i (drains id (some e) runs d) = record {
  calm = λ n k. ground arith;
  closed = i.closed;
}

start-IsCalm :
    (less : String → String → Bool) (filter : Filter) (g : Graph) → IsCalm (start less filter g)
unfolding start
start-IsCalm less filter g = record { calm = λ n d. refl; closed = λ d. ground arith }

Walks-IsCalm :
    {limit : ℕ} {less : String → String → Bool} {filter : Filter} {g : Graph} (w : WalkState)
    → Walks limit less filter g w
    → IsCalm w
Walks-IsCalm {less = less} {filter = filter} {g = g} _ here = start-IsCalm less filter g
Walks-IsCalm w' (next {w} r step) = WalkStep-IsCalm w w' (Walks-IsCalm w r) step

module _ (limit : ℕ) (less : String → String → Bool) (filter : Filter) (g : Graph) (h : IsGraph g)
    (w : WalkState) (r : Walks limit less filter g w) where
  done-known : (v : String) → occ v w.done ≤ occ v (ids g.vertices)
  done-known v =
      let i = Walks-IsWalk less filter g h limit w r in
      ground (arith, i.placed v, affected-of-exists (λ x. x == v) (ids g.vertices))

  -- On a graph whose vertices are there once and whose edges join two of them: when Walk returns
  -- without an error, because as many vertices have answered as there are and
  -- the end of the context was not noticed, every vertex of the graph was run once and is done.
  pub Walks-complete :
      w.first_err ≡ none
      → w.draining ≡ false
      → incomplete g w ≡ false
      → (v : String) → known g v ≡ true
      → occ v w.done ≡ 1
  Walks-complete no_err calm all v k =
      let stopped = (Walks-IsCalm w r).calm no_err calm in
      let same =
        occ-of-length w.done (ids g.vertices) done-known
          (ground (arith, length-map (λ (x : Vertex). x.id) g.vertices)) v in
      ground (arith, same, h.single v, affected-of-exists (λ x. x == v) (ids g.vertices))

  module _ (rank : String → ℕ)
      (acyclic : All (λ (e : Edge). passes filter e ≡ true → rank e.from < rank e.to) g.edges) where
    -- On a graph whose vertices are there once and whose edges join two of them, with a rank that
    -- rises along the edges that pass the filter: when nothing runs, vertices have not answered, and
    -- the end of the context was not noticed, Walk does not return that it made no progress.
    pub Walks-progress :
        (has_blocked_changed : Bool)
        → w.running ≡ []
        → w.draining ≡ false
        → incomplete g w ≡ true
        → when_idle has_blocked_changed w ≢ no_progress
    unfolding when_idle
    Walks-progress has_blocked_changed idle calm open_ is =
        let no_err : w.first_err ≡ none = ground arith in
        let none_ready : w.ready ≡ [] = ground arith in
        let stopped = (Walks-IsCalm w r).calm no_err calm in
        let all = length-of-occ (ids g.vertices) w.done λ v. elim (Bool-cases (known g v)) [
          | inl k ↦ ground (
            arith,
            all_done filter g h rank acyclic (limit_of limit) w
                (Walks-IsWalk less filter g h limit w r) none_ready idle stopped (suc (rank v)) v
                (omega arith) k,
            h.single v,
          )
          | inr k ↦ ground (arith, exists-of-affected (λ x. x == v) (ids g.vertices))
        ] in
        ground (arith, length-map (λ (x : Vertex). x.id) g.vertices)
