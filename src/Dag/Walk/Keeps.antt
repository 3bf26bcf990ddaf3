-- ===== src/Dag/Walk/Keeps.antt =====
-- The variables of Walk of internal/dag/dag.go under its handlers.
use bachkator.Base.{
  ℕ, ◌+◌, ◌<◌, ◌≤◌, String, Bool, true, false, ◌&&◌, not, Option, some, List, [], ◌∷◌, ◌==◌, ◌≡◌,
  refl, arith, eq_iff, if◌then◌else◌, affected, occ, All, length, drop_one, affected-order_by,
  occ-drop_one, length-drop_one, Bool-cases, Option-cases, inl, inr, subst,
}
use bachkator.Dag.Graph.{member}
use bachkator.Dag.Walk.{Deps, WalkState, pick, start_picked, start_one, settle, finish_vertex}
use bachkator.Dag.Walk.Pairs.{Pair, between, IsCounted}
use bachkator.Dag.Walk.Settle.{Waited, settle-remaining, Placed, settle-Placed}

-- An edge into the vertex from one that is not done.
abbrev pub open_into : List String → String → Pair → Bool
open_into done v p = (p.1 == v) && not (member p.0 done)

abbrev pub started : WalkState → String → ℕ
started w v = occ v w.running + (occ v w.done + occ v w.stopped)

-- Each vertex waits for its predecessors that are not done; it is ready, running, done or stopped
-- once if it waits for none, and else nowhere.
pub record IsWalk (limit : ℕ) (deps : Deps) (known : String → Bool) (w : WalkState) : Type 0 where
  pub waiting : (v : String) → w.remaining v ≡ affected (open_into w.done v) deps.seen
  pub placed : Placed (started w) known w.remaining w.ready
  pub limited : length w.running ≤ limit

pick-occ :
    (can : String → Bool) (vs : List String) (v : String) (ws : List String)
    → pick can vs ≡ some (v, ws)
    → (x : String) → occ x vs ≡ (if v == x then 1 else 0) + occ x ws
unfolding pick
pick-occ can [] v ws e x = ground arith
pick-occ can (y ∷ ys) v ws e x = elim (Bool-cases (can y)) [
  | inl c ↦ ground arith
  | inr c ↦ elim (Option-cases (pick can ys)) [
    | inl n ↦ ground arith
    | inr (r, is) ↦ let ih = pick-occ can ys r.0 r.1 is x in ground arith
  ]
]

-- A vertex that is done leaves the open edges that come from it.
open_into-done :
    (id v : String) (done : List String) (pairs : List Pair)
    → member id done ≡ false
    → affected (open_into done v) pairs
      ≡ affected (open_into (id ∷ done) v) pairs + affected (between id v) pairs
open_into-done id v done [] h = refl
open_into-done id v done (p ∷ pairs) h =
    ground (arith, open_into-done id v done pairs h, eq_iff p.0 id, eq_iff id p.0)

member-occ : (v : String) (vs : List String) → occ v vs ≡ 0 → member v vs ≡ false
member-occ v [] h = refl
member-occ v (x ∷ vs) h = ground (arith, member-occ v vs)

module _ (limit : ℕ) (deps : Deps) (known : String → Bool) where
  pub start_picked-IsWalk :
      (w : WalkState) (v : String) (vs : List String)
      → IsWalk limit deps known w
      → length w.running < limit
      → ((x : String) → occ x w.ready ≡ (if v == x then 1 else 0) + occ x vs)
      → IsWalk limit deps known (record w { ready = vs; running = v ∷ w.running })
  start_picked-IsWalk w v vs h room from = record {
    waiting = h.waiting;
    placed = λ x. ground (arith, h.placed x, from x);
    limited = omega arith;
  }

  pub start_one-IsWalk :
      (can : String → Bool) (w w' : WalkState)
      → IsWalk limit deps known w
      → start_one limit can w ≡ some w'
      → IsWalk limit deps known w'
  unfolding start_one start_picked
  start_one-IsWalk can w w' h e = elim (Option-cases (pick can w.ready)) [
    | inl n ↦ absurd (ground arith)
    | inr ((v, vs), is) ↦
        let room : length w.running < limit = ground arith in
        let same : record w { ready = vs; running = v ∷ w.running } ≡ w' = ground arith in
        subst (IsWalk limit deps known) same
          (start_picked-IsWalk w v vs h room (pick-occ can w.ready v vs is))
  ]

  -- A vertex that runs is not done.
  running-not_done :
      (w : WalkState) (id : String)
      → IsWalk limit deps known w
      → 0 < occ id w.running
      → member id w.done ≡ false
  running-not_done w id h runs = member-occ id w.done (ground (arith, h.placed id))

  -- A result that stops at its vertex.
  pub stop-IsWalk :
      (w : WalkState) (id : String) (e : Option String)
      → IsWalk limit deps known w
      → 0 < occ id w.running
      → IsWalk limit deps known
          (record w { running = drop_one id w.running; stopped = id ∷ w.stopped; first_err = e })
  stop-IsWalk w id e h runs = record {
    waiting = h.waiting;
    placed = λ v. ground (arith, h.placed v, occ-drop_one id v w.running runs);
    limited = ground (arith, h.limited, length-drop_one id w.running runs);
  }

  module _ (less : String → String → Bool) (counts : IsCounted deps)
      (ends : All (λ (p : Pair). known p.1 ≡ true) deps.seen) where
    dependents-known :
        (id v : String) (pairs : List Pair)
        → All (λ (p : Pair). known p.1 ≡ true) pairs
        → 0 < affected (between id v) pairs
        → known v ≡ true
    dependents-known id v [] k h = ground arith
    dependents-known id v (p ∷ pairs) k h =
        ground (arith, k.0, dependents-known id v pairs k.1, eq_iff p.1 v)

    pub finish_vertex-IsWalk :
        (w : WalkState) (id : String)
        → IsWalk limit deps known w
        → 0 < occ id w.running
        → IsWalk limit deps known
            (finish_vertex less deps id (record w { running = drop_one id w.running }))
    unfolding finish_vertex
    finish_vertex-IsWalk w id h runs =
        let ds = deps.dependents id in
        let told = settle ds w.remaining w.ready in
        let fewer : (v : String)
            → w.remaining v ≡ affected (open_into (id ∷ w.done) v) deps.seen + occ v ds =
          λ v. ground (
            arith,
            h.waiting v,
            counts.between_count id v,
            open_into-done id v w.done deps.seen (running-not_done w id h runs),
          ) in
        let waited : Waited ds w.remaining = λ v. omega (arith, fewer v) in
        let rest = settle-remaining ds w.remaining w.ready waited in
        let place =
          settle-Placed (started w) known ds w.remaining w.ready waited
            (λ v o.
              dependents-known id v deps.seen ends (ground (arith, counts.between_count id v)))
            h.placed in
        record {
          waiting = λ v. omega (arith, fewer v, rest v);
          placed = λ v. ground (
            arith,
            place v,
            occ-drop_one id v w.running runs,
            affected-order_by (λ x. x == v) less told.1,
          );
          limited = ground (arith, h.limited, length-drop_one id w.running runs);
        }
