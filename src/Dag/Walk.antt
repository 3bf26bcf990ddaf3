-- ===== src/Dag/Walk.antt =====
-- dependencyState and Walk of internal/dag/dag.go. Walk is one goroutine that starts others and
-- receives their results; its state is a record, and the order in which results arrive is the
-- order of the steps.
pub mod Pairs
pub mod Settle
pub mod Keeps
pub mod Order
pub mod Done
pub mod Ends
use bachkator.Base.{
  ℕ, zero, suc, ◌-◌, String, Bool, true, false, ◌&&◌, ◌||◌, not, Option, none, some, List, [], ◌∷◌,
  ◌++◌, ◌==◌, eqb, ltb, if◌then◌else◌, str_lt, exists, select, order_by, length, drop_one, occ, ◌≡◌,
  ◌<◌, ◌+◌,
}
use bachkator.Dag.Graph.{Edge, Graph, Filter, vertex_ids, edges_of}

-- What dependencyState builds from the edges: the number of predecessors that each vertex waits
-- for, and who waits for it.
pub record Deps : Type 0 where
  pub remaining : String → ℕ
  pub dependents : String → List String
  pub seen : List (String × String)

abbrev pub bump : String → (String → ℕ) → String → ℕ
bump a f v = if v == a then suc (f v) else f v

abbrev pub append_to : String → String → (String → List String) → String → List String
append_to a b f v = if v == a then f v ++ (b ∷ []) else f v

abbrev pub seen_pair : String → String → List (String × String) → Bool
seen_pair from to = exists (λ (p : String × String). (p.0 == from) && (p.1 == to))

-- The loop over the edges: of parallel edges the first counts.
unfoldable pub count_edges : List Edge → Deps → Deps
count_edges [] d = d
count_edges (e ∷ es) d = count_edges es (
    if seen_pair e.from e.to d.seen then d else record {
      remaining = bump e.to d.remaining;
      dependents = append_to e.from e.to d.dependents;
      seen = (e.from, e.to) ∷ d.seen;
    })

abbrev pub no_deps : Deps
no_deps = record { remaining = λ v. 0; dependents = λ v. []; seen = [] }

-- dependencyState
unfoldable pub dependency_state : Filter → Graph → Deps
dependency_state filter g =
    let d = count_edges (edges_of filter g) no_deps in
    record d { dependents = λ v. order_by str_lt (d.dependents v) }

-- The variables of Walk. `running` are the vertices whose goroutines have not answered; the
-- vertices that have answered are `done` if their dependents were told of it, else `stopped`, and
-- `completed` is the number of both.
pub record WalkState : Type 0 where
  pub remaining : String → ℕ
  pub ready : List String
  pub running : List String
  pub done : List String
  pub stopped : List String
  pub first_err : Option String
  pub ctx_done : Bool
  pub draining : Bool

-- `if opts.Parallelism <= 0 { opts.Parallelism = 1 }`
abbrev pub limit_of : ℕ → ℕ
limit_of zero = 1
limit_of (suc n) = suc n

-- zeroRemaining and sortReady: `less` is WalkOptions.Less, or the order of the ids without one.
unfoldable pub first_ready : (String → String → Bool) → (String → ℕ) → List String → List String
first_ready less remaining ids = order_by less (select (λ v. eqb (remaining v) 0) ids)

unfoldable pub start : (String → String → Bool) → Filter → Graph → WalkState
start less filter g =
    let deps = dependency_state filter g in
    record {
      remaining = deps.remaining;
      ready = first_ready less deps.remaining (vertex_ids g);
      running = [];
      done = [];
      stopped = [];
      first_err = none;
      ctx_done = false;
      draining = false;
    }

-- firstStartable: the first vertex that TryReserve accepts, and the others.
unfoldable pub pick : (String → Bool) → List String → Option (String × List String)
pick can [] = none
pick can (v ∷ vs) =
    let rest = pick can vs in
    if can v then some (v, vs) else elim rest [ none ↦ none | some (w, ws) ↦ some (w, v ∷ ws) ]

abbrev pub is_none : Option String → Bool
is_none none = true
is_none (some e) = false

-- The guards of the loop in startReady.
abbrev pub may_start : ℕ → WalkState → Bool
may_start limit w = is_none w.first_err && not w.ctx_done && ltb (length w.running) limit

unfoldable pub start_picked : WalkState → Option (String × List String) → Option WalkState
start_picked w none = none
start_picked w (some (v, vs)) = some (record w { ready = vs; running = v ∷ w.running })

-- One round of the loop in startReady.
unfoldable pub start_one : ℕ → (String → Bool) → WalkState → Option WalkState
start_one limit can w = if may_start limit w then start_picked w (pick can w.ready) else none

-- remaining[dependent]--, and the dependent is ready when nothing remains.
unfoldable pub settle : List String → (String → ℕ) → List String → (String → ℕ) × List String
settle [] remaining ready = (remaining, ready)
settle (d ∷ ds) remaining ready =
    let n = remaining d - 1 in
    settle ds (λ v. if v == d then n else remaining v)
      (if eqb n 0 then ready ++ (d ∷ []) else ready)

abbrev pub keep_first : Option String → String → Option String
keep_first none e = some e
keep_first (some old) e = some old

-- The dependents of a vertex are told that it is done.
unfoldable pub finish_vertex : (String → String → Bool) → Deps → String → WalkState → WalkState
finish_vertex less deps id w =
    let told = settle (deps.dependents id) w.remaining w.ready in
    record w { remaining = told.0; ready = order_by less told.1; done = id ∷ w.done }

-- `case result := <-results`
unfoldable pub receive :
    (String → String → Bool) → Deps → String → Option String → WalkState → WalkState
receive less deps id (some e) w = record w {
  running = drop_one id w.running;
  stopped = id ∷ w.stopped;
  first_err = keep_first w.first_err e;
}
receive less deps id none w =
    if is_none w.first_err
    then finish_vertex less deps id (record w { running = drop_one id w.running })
    else record w { running = drop_one id w.running; stopped = id ∷ w.stopped }

-- A result in the loop behind `case <-ctx.Done()`.
unfoldable pub drain : String → Option String → WalkState → WalkState
drain id none w = record w { running = drop_one id w.running; stopped = id ∷ w.stopped }
drain id (some e) w = record w {
  running = drop_one id w.running;
  stopped = id ∷ w.stopped;
  first_err = keep_first w.first_err e;
}

-- What Walk does when nothing runs: the errors it returns, or that it waits for a change.
pub data Idle : Type 0 where
  failed : String → Idle
  cancelled no_progress blocked waits : Idle

unfoldable pub when_idle : Bool → WalkState → Idle
when_idle has_blocked_changed w = elim w.first_err [
  | some e ↦ failed e
  | none ↦ if w.ctx_done then cancelled else elim w.ready [
    | [] ↦ no_progress
    | _ ∷ _ ↦ if has_blocked_changed then waits else blocked
  ]
]

-- `completed < len(remaining)`
abbrev pub incomplete : Graph → WalkState → Bool
incomplete g w = ltb (length w.done + length w.stopped) (length g.vertices)

-- What happens between two looks at the state: a start, a result, the end of the context, and its
-- discovery by the select.
pub data WalkStep (limit : ℕ) (less : String → String → Bool) (deps : Deps) (w : WalkState)
    : WalkState → Type 0 where
  starts :
      (can : String → Bool) (w' : WalkState)
      → start_one limit can w ≡ some w'
      → WalkStep limit less deps w w'
  receives :
      (id : String) (result : Option String)
      → 0 < occ id w.running
      → w.draining ≡ false
      → WalkStep limit less deps w (receive less deps id result w)
  cancels : WalkStep limit less deps w (record w { ctx_done = true })
  notices : w.ctx_done ≡ true → WalkStep limit less deps w (record w { draining = true })
  drains :
      (id : String) (result : Option String)
      → 0 < occ id w.running
      → w.draining ≡ true
      → WalkStep limit less deps w (drain id result w)

-- The states of a walk over a graph.
pub data Walks (limit : ℕ) (less : String → String → Bool) (filter : Filter) (g : Graph)
    : WalkState → Type 0 where
  here : Walks limit less filter g (start less filter g)
  next :
      {w w' : WalkState}
      → Walks limit less filter g w
      → WalkStep (limit_of limit) less (dependency_state filter g) w w'
      → Walks limit less filter g w'
