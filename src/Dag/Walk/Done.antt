-- ===== src/Dag/Walk/Done.antt =====
-- States of Walk of internal/dag/dag.go in which nothing is ready and nothing runs.
use bachkator.Base.{
  ℕ, zero, suc, ◌<◌, String, true, List, [], ◌∷◌, ◌==◌, ◌≡◌, refl, arith, eq_iff, affected, occ,
  All, All-weaken, All-intro, All-In, exists-of-affected,
}
use bachkator.Dag.Graph.{Edge, Graph, Filter, passes, member}
use bachkator.Dag.Graph.Built.{IsGraph, ids}
use bachkator.Dag.Walk.{WalkState, dependency_state, seen_pair}
use bachkator.Dag.Walk.Pairs.{Pair, dependency_state-All}
use bachkator.Dag.Walk.Keeps.{open_into, IsWalk}
use bachkator.Dag.Walk.Order.{known}

-- Where no edge into a vertex is open, the first end of each is done.
pub open_into-none :
    (done : List String) (u v : String) (pairs : List Pair)
    → affected (open_into done v) pairs ≡ 0
    → seen_pair u v pairs ≡ true
    → member u done ≡ true
open_into-none done u v [] h k = ground arith
open_into-none done u v (p ∷ pairs) h k =
    ground (arith, open_into-none done u v pairs, eq_iff p.0 u)

open_into-end :
    (done : List String) (v : String) (pairs : List Pair)
    → All (λ (p : Pair). p.1 ≡ v → member p.0 done ≡ true) pairs
    → affected (open_into done v) pairs ≡ 0
open_into-end done v [] h = refl
open_into-end done v (p ∷ pairs) h =
    ground (arith, open_into-end done v pairs h.1, h.0, eq_iff p.1 v)

module _ (filter : Filter) (g : Graph) (h : IsGraph g) (rank : String → ℕ)
    (acyclic : All (λ (e : Edge). passes filter e ≡ true → rank e.from < rank e.to) g.edges)
    (limit : ℕ) (w : WalkState) (i : IsWalk limit (dependency_state filter g) (known g) w) where
  abbrev Below : Pair → Type 0
  Below p = (known g p.0 ≡ true) × (rank p.0 < rank p.1)

  pairs-Below : All Below (dependency_state filter g).seen
  pairs-Below = dependency_state-All Below filter g (
      All-intro _ g.edges λ e m p. (
        exists-of-affected (λ x. x == e.from) (ids g.vertices) (All-In _ g.edges h.ends m).0,
        All-In _ g.edges acyclic m p,
      ))

  -- Where nothing is ready, runs or has stopped, every vertex is done, by its rank.
  pub all_done :
      w.ready ≡ []
      → w.running ≡ []
      → w.stopped ≡ []
      → (n : ℕ) (v : String) → rank v < n
      → known g v ≡ true
      → occ v w.done ≡ 1
  all_done a b c zero v l k = ground arith
  all_done a b c (suc n) v l k =
      let before = open_into-end w.done v (dependency_state filter g).seen (
        All-weaken Below _ (dependency_state filter g).seen
          (λ p (q, s) e.
            exists-of-affected (λ x. x == p.0) w.done
              (ground (arith, all_done a b c n p.0 (omega (arith, l, rw e at s)) q)))
          pairs-Below) in
      ground (arith, i.waiting v, i.placed v)
