-- ===== src/Dag/Search/Sorted.antt =====
-- The loop and the result of TopologicalOrder of internal/dag/dag.go.
use bachkator.Base.{
  ℕ, zero, suc, ◌+◌, ◌<◌, ◌≤◌, String, Bool, true, false, none, List, [], ◌∷◌, ◌++◌, ◌==◌, ◌≡◌,
  refl, arith, eq_iff, eq_refl, if◌then◌else◌, occ, drop_one, All-In, In, length, length-of-occ,
  length-append, affected-append, affected-of-exists, exists-of-affected, length-map, order_by,
  subst, ◌∙◌, Bool-cases, inl, inr, ok,
}
use bachkator.Dag.Graph.{Vertex, Edge, Graph, Filter, passes, vertex_ids}
use bachkator.Dag.Graph.Built.{IsGraph, ids}
use bachkator.Dag.Walk.{
  Deps, WalkState, dependency_state, first_ready, settle, finish_vertex, start, seen_pair,
}
use bachkator.Dag.Walk.Pairs.{dependency_state-IsCounted, dependency_state-In}
use bachkator.Dag.Walk.Keeps.{IsWalk, start_picked-IsWalk, finish_vertex-IsWalk}
use bachkator.Dag.Walk.Order.{known, start-IsWalk, ends-known}
use bachkator.Dag.Walk.Done.{open_into-none, all_done}
use bachkator.Dag.Search.{take_ready, topological_order}
use bachkator.Dag.Search.Acyclic.{Rises, validate_acyclic_iff}

-- Whether `u` occurs before `v` does for the first time.
abbrev pub before : String → String → List String → Bool
before u v [] = false
before u v (x ∷ xs) =
    let rest = before u v xs in if x == u then true else if x == v then false else rest

before-append :
    (u v : String) (xs ys : List String) → before u v xs ≡ true → before u v (xs ++ ys) ≡ true
before-append u v [] ys h = ground arith
before-append u v (x ∷ xs) ys h = ground (arith, before-append u v xs ys)

before-new :
    (u v : String) (xs ys : List String)
    → 0 < occ u xs
    → occ v xs ≡ 0
    → before u v (xs ++ ys) ≡ true
before-new u v [] ys h k = ground arith
before-new u v (x ∷ xs) ys h k = ground (arith, before-new u v xs ys)

-- The variables of TopologicalOrder as those of a walk in which nothing runs.
abbrev sorting : (String → ℕ) → List String → List String → WalkState
sorting remaining ready done = record {
  remaining = remaining;
  ready = ready;
  running = [];
  done = done;
  stopped = [];
  first_err = none;
  ctx_done = false;
  draining = false;
}

module _ (less : String → String → Bool) (filter : Filter) (g : Graph) (h : IsGraph g) where
  abbrev deps : Deps
  deps = dependency_state filter g

  abbrev Forward : List String → Type 0
  Forward order =
      (u v : String) → seen_pair u v deps.seen ≡ true → 0 < occ v order → before u v order ≡ true

  -- The state of the loop: the walk's invariant, and an order that goes forward.
  record IsSorting (remaining : String → ℕ) (ready done order : List String) : Type 0 where
    walk : IsWalk 1 deps (known g) (sorting remaining ready done)
    same : (v : String) → occ v order ≡ occ v done
    long : length order ≡ length done
    forward : Forward order

  abbrev told : String → (String → ℕ) → List String → (String → ℕ) × List String
  told id remaining ready = settle (deps.dependents id) remaining ready

  take-IsWalk :
      (remaining : String → ℕ) (id : String) (ready done : List String)
      → IsWalk 1 deps (known g) (sorting remaining (id ∷ ready) done)
      → IsWalk 1 deps (known g) (
          sorting
            (told id remaining ready).0
            (order_by less (told id remaining ready).1)
            (id ∷ done))
  unfolding finish_vertex
  take-IsWalk remaining id ready done i =
      let w = sorting remaining (id ∷ ready) done in
      let running : WalkState = record w { ready = ready; running = id ∷ [] } in
      let i₁ =
        start_picked-IsWalk 1 deps (known g) w id ready i (omega arith) (λ x. ground arith) in
      let i₂ =
        finish_vertex-IsWalk 1 deps (known g) less (dependency_state-IsCounted filter g)
          (ends-known less filter g h) running id i₁ (ground (arith, eq_refl id)) in
      let gone : drop_one id (id ∷ []) ≡ [] = ground (arith, eq_refl id) in
      subst
        (λ (xs : List String).
          IsWalk 1 deps (known g)
            (record (sorting (told id remaining ready).0 (order_by less (told id remaining ready).1)
              (id ∷ done)) { running = xs }))
        gone i₂

  take-Forward :
      (remaining : String → ℕ) (id : String) (ready done order : List String)
      → IsSorting remaining (id ∷ ready) done order
      → Forward (order ++ (id ∷ []))
  take-Forward remaining id ready done order s u v p o = elim (Bool-cases (id == v)) [
    | inl e ↦
        let is : id ≡ v = (eq_iff id v).0 e in
        let done_first =
          open_into-none done u v deps.seen (ground (arith, s.walk.waiting v, s.walk.placed v)) p in
        before-new u v order (id ∷ [])
          (ground (arith, s.same u, affected-of-exists (λ x. x == u) done))
          (ground (arith, s.same v, s.walk.placed v))
    | inr e ↦
        before-append u v order (id ∷ [])
          (s.forward u v p (ground (arith, affected-append (λ x. x == v) order (id ∷ []))))
  ]

  take-IsSorting :
      (remaining : String → ℕ) (id : String) (ready done order : List String)
      → IsSorting remaining (id ∷ ready) done order
      → IsSorting
          (told id remaining ready).0
          (order_by less (told id remaining ready).1)
          (id ∷ done)
          (order ++ (id ∷ []))
  take-IsSorting remaining id ready done order s = record {
    walk = take-IsWalk remaining id ready done s.walk;
    same = λ v. ground (arith, s.same v, affected-append (λ x. x == v) order (id ∷ []));
    long = omega (arith, s.long, length-append order (id ∷ []));
    forward = take-Forward remaining id ready done order s;
  }

  -- A vertex that is ready is not done, so there is room for it.
  room :
      (remaining : String → ℕ) (id : String) (ready done order : List String)
      → IsSorting remaining (id ∷ ready) done order
      → length done < length (ids g.vertices)
  room remaining id ready done order s =
      length-of-occ (id ∷ done) (ids g.vertices)
        λ v. ground (arith, s.walk.placed v, affected-of-exists (λ x. x == v) (ids g.vertices))

  take_ready-IsSorting :
      (n : ℕ) (remaining : String → ℕ) (ready done order : List String)
      → IsSorting remaining ready done order
      → length (ids g.vertices) ≤ n + length done
      → (remaining' : String → ℕ) × (done' : List String) × IsSorting remaining' [] done'
          (take_ready n less deps remaining ready order)
  unfolding take_ready
  take_ready-IsSorting zero remaining [] done order s fuel = (remaining, done, s)
  take_ready-IsSorting zero remaining (id ∷ ready) done order s fuel =
      absurd (ground (arith, room remaining id ready done order s))
  take_ready-IsSorting (suc n) remaining [] done order s fuel = (remaining, done, s)
  take_ready-IsSorting (suc n) remaining (id ∷ ready) done order s fuel =
      take_ready-IsSorting n (told id remaining ready).0 (order_by less (told id remaining ready).1)
        (id ∷ done) (order ++ (id ∷ [])) (take-IsSorting remaining id ready done order s)
        (omega arith)

  first-IsSorting : IsSorting deps.remaining (first_ready less deps.remaining (vertex_ids g)) [] []
  unfolding start
  first-IsSorting = record {
    walk = start-IsWalk less filter g h 1;
    same = λ v. refl;
    long = refl;
    forward = λ u v p o. ground arith;
  }

  -- On a graph whose vertices are there once and whose edges join two of them, with a rank that rises
  -- along the edges that pass the filter, TopologicalOrder returns a list that has each vertex of the graph once, and in which the first
  -- end of each such edge stands before the second.
  pub topological_order-sorted :
      (rank : String → ℕ)
      → Rises filter g rank
      → (order : List String) × (topological_order less filter g ≡ ok order)
        × ((v : String) → known g v ≡ true → occ v order ≡ 1)
        × ((e : Edge) → In e g.edges → passes filter e ≡ true → before e.from e.to order ≡ true)
  unfolding topological_order
  topological_order-sorted rank up =
      let valid = (validate_acyclic_iff filter g h).1 rank up in
      let (remaining, done, s) =
        take_ready-IsSorting (length g.vertices) deps.remaining
          (first_ready less deps.remaining (vertex_ids g)) [] [] first-IsSorting
          (omega (arith, length-map (λ (v : Vertex). v.id) g.vertices)) in
      let every : (v : String) → known g v ≡ true → occ v done ≡ 1 = λ v k.
        all_done filter g h rank up 1 (sorting remaining [] done) s.walk refl refl refl
          (suc (rank v)) v (omega arith) k in
      (
        take_ready (length g.vertices) less deps deps.remaining
            (first_ready less deps.remaining (vertex_ids g)) [],
        rw valid refl,
        λ v k. s.same v ∙ every v k,
        λ e m p. s.forward e.from e.to (dependency_state-In filter g e m p) (
            omega (
              arith,
              s.same e.to,
              every e.to (
                  exists-of-affected (λ x. x == e.to) (ids g.vertices)
                    (All-In _ g.edges h.ends m).1),
            )),
      )
