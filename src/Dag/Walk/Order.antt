-- ===== src/Dag/Walk/Order.antt =====
-- The variables of Walk of internal/dag/dag.go in every state that it reaches.
use bachkator.Base.{
  ℕ, String, Bool, true, ◌&&◌, none, some, List, [], ◌∷◌, ◌==◌, ◌≡◌, refl, arith, eq_iff,
  if◌then◌else◌, if-elim, eqb, affected, occ, All, All-weaken, select, affected-order_by,
  affected-select, exists-of-affected, affected-of-exists, str_lt, ◌∙◌,
}
use bachkator.Dag.Graph.{Graph, Filter, vertex_ids, member}
use bachkator.Dag.Graph.Built.{IsGraph, ids}
use bachkator.Dag.Walk.{
  Deps, WalkState, dependency_state, start, first_ready, limit_of, receive, drain, WalkStep, starts,
  receives, cancels, notices, drains, Walks, here, next,
}
use bachkator.Dag.Walk.Pairs.{Pair, into, dependency_state-IsCounted, dependency_state-All}
use bachkator.Dag.Walk.Keeps.{
  open_into, IsWalk, start_one-IsWalk, stop-IsWalk, finish_vertex-IsWalk,
}

-- The vertices of a graph.
abbrev pub known : Graph → String → Bool
known g v = member v (ids g.vertices)

occ-filter :
    (keep : String → Bool) (v : String) (vs : List String)
    → affected (λ x. (x == v) && keep x) vs ≡ (if keep v then occ v vs else 0)
occ-filter keep v [] = ground arith
occ-filter keep v (x ∷ vs) = ground (arith, occ-filter keep v vs, eq_iff x v)

-- The vertices that are ready at the start.
occ-first_ready :
    (less : String → String → Bool) (remaining : String → ℕ) (g : Graph) (v : String)
    → IsGraph g
    → occ v (first_ready less remaining (vertex_ids g))
      ≡ (if eqb (remaining v) 0 && known g v then 1 else 0)
unfolding first_ready vertex_ids
occ-first_ready less remaining g v h =
    let zero_left = λ (x : String). eqb (remaining x) 0 in
    let vs = vertex_ids g in
    ground (
      arith,
      affected-order_by (λ x. x == v) less (select zero_left vs),
      affected-select (λ x. x == v) zero_left vs,
      occ-filter zero_left v vs,
      affected-order_by (λ x. x == v) str_lt (ids g.vertices),
      h.single v,
      affected-of-exists (λ x. x == v) (ids g.vertices),
      exists-of-affected (λ x. x == v) (ids g.vertices),
    )

no_done :
    (v : String) (pairs : List Pair) → affected (into v) pairs ≡ affected (open_into [] v) pairs
no_done v [] = refl
no_done v (p ∷ pairs) = ground (arith, no_done v pairs)

module _ (less : String → String → Bool) (filter : Filter) (g : Graph) (h : IsGraph g) where
  abbrev deps : Deps
  deps = dependency_state filter g

  pub start-IsWalk : (limit : ℕ) → IsWalk limit deps (known g) (start less filter g)
  unfolding start
  start-IsWalk limit = record {
    waiting = λ v. (dependency_state-IsCounted filter g).into_count v ∙ no_done v deps.seen;
    placed = λ v. ground (arith, occ-first_ready less deps.remaining g v h);
    limited = omega arith;
  }

  pub ends-known : All (λ (p : Pair). known g p.1 ≡ true) deps.seen
  ends-known =
      dependency_state-All (λ p. known g p.1 ≡ true) filter g
        (All-weaken _ _ g.edges (λ e k _. exists-of-affected (λ x. x == e.to) (ids g.vertices) k.1)
          h.ends)

  WalkStep-IsWalk :
      (limit : ℕ) (w w' : WalkState)
      → IsWalk limit deps (known g) w
      → WalkStep limit less deps w w'
      → IsWalk limit deps (known g) w'
  unfolding receive drain
  WalkStep-IsWalk limit w w' i (starts can _ e) = start_one-IsWalk limit deps (known g) can w w' i e
  WalkStep-IsWalk limit w _ i (receives id (some e) runs d) =
      stop-IsWalk limit deps (known g) w id _ i runs
  WalkStep-IsWalk limit w _ i (receives id none runs d) =
      if-elim (IsWalk limit deps (known g)) _
        (λ _.
          finish_vertex-IsWalk limit deps (known g) less (dependency_state-IsCounted filter g)
            ends-known w id i runs)
        λ _. stop-IsWalk limit deps (known g) w id w.first_err i runs
  WalkStep-IsWalk limit w _ i cancels = record {
    waiting = i.waiting;
    placed = i.placed;
    limited = i.limited;
  }
  WalkStep-IsWalk limit w _ i (notices c) = record {
    waiting = i.waiting;
    placed = i.placed;
    limited = i.limited;
  }
  WalkStep-IsWalk limit w _ i (drains id none runs d) =
      stop-IsWalk limit deps (known g) w id w.first_err i runs
  WalkStep-IsWalk limit w _ i (drains id (some e) runs d) =
      stop-IsWalk limit deps (known g) w id _ i runs

  pub Walks-IsWalk :
      (limit : ℕ) (w : WalkState)
      → Walks limit less filter g w
      → IsWalk (limit_of limit) deps (known g) w
  Walks-IsWalk limit _ here = start-IsWalk (limit_of limit)
  Walks-IsWalk limit w' (next {w} r step) =
      WalkStep-IsWalk (limit_of limit) w w' (Walks-IsWalk limit w r) step
