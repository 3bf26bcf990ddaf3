-- ===== src/Dag/Walk/Settle.antt =====
-- The loop of Walk of internal/dag/dag.go over the dependents of a vertex that is done.
use bachkator.Base.{
  ℕ, ◌+◌, ◌-◌, ◌<◌, ◌≤◌, String, Bool, true, ◌&&◌, List, [], ◌∷◌, ◌++◌, ◌==◌, ◌≡◌, arith, eq_iff,
  eq_refl, if◌then◌else◌, eqb, occ, affected-append,
}
use bachkator.Dag.Walk.{settle}

abbrev less_one : String → (String → ℕ) → String → ℕ
less_one d remaining v = if v == d then remaining d - 1 else remaining v

abbrev more_ready : String → (String → ℕ) → List String → List String
more_ready d remaining ready = if eqb (remaining d - 1) 0 then ready ++ (d ∷ []) else ready

-- No vertex is told of more predecessors than it waits for.
abbrev pub Waited : List String → (String → ℕ) → Type 0
Waited ds remaining = (v : String) → occ v ds ≤ remaining v

Waited-next :
    (d : String) (ds : List String) (remaining : String → ℕ)
    → Waited (d ∷ ds) remaining
    → Waited ds (less_one d remaining)
Waited-next d ds remaining h v = ground (arith, h v, h d, eq_iff v d, eq_iff d v, eq_refl d)

-- Each vertex waits for as many fewer predecessors as it was told of.
pub settle-remaining :
    (ds : List String) (remaining : String → ℕ) (ready : List String)
    → Waited ds remaining
    → (v : String) → (settle ds remaining ready).0 v + occ v ds ≡ remaining v
unfolding settle
settle-remaining [] remaining ready h v = omega arith
settle-remaining (d ∷ ds) remaining ready h v = ground (
  arith,
  h v,
  h d,
  eq_iff v d,
  eq_iff d v,
  eq_refl d,
  settle-remaining ds (less_one d remaining) (more_ready d remaining ready)
      (Waited-next d ds remaining h) v,
)

module _ (elsewhere : String → ℕ) (known : String → Bool) where
  -- A vertex is ready, or elsewhere, once if it waits for nothing, and else not at all.
  abbrev pub Placed : (String → ℕ) → List String → Type 0
  Placed remaining ready =
      (v : String) → occ v ready + elsewhere v ≡ (if eqb (remaining v) 0 && known v then 1 else 0)

  Placed-next :
      (d : String) (remaining : String → ℕ) (ready : List String)
      → 0 < remaining d
      → known d ≡ true
      → Placed remaining ready
      → Placed (less_one d remaining) (more_ready d remaining ready)
  Placed-next d remaining ready pos k h v = ground (
    arith,
    h v,
    h d,
    eq_iff v d,
    eq_iff d v,
    eq_refl d,
    affected-append (λ x. x == v) ready (d ∷ []),
  )

  pub settle-Placed :
      (ds : List String) (remaining : String → ℕ) (ready : List String)
      → Waited ds remaining
      → ((v : String) → 0 < occ v ds → known v ≡ true)
      → Placed remaining ready
      → Placed (settle ds remaining ready).0 (settle ds remaining ready).1
  unfolding settle
  settle-Placed [] remaining ready h k p = p
  settle-Placed (d ∷ ds) remaining ready h k p =
      settle-Placed ds (less_one d remaining) (more_ready d remaining ready)
        (Waited-next d ds remaining h) (λ v o. k v (ground arith))
        (Placed-next d remaining ready (ground (arith, h d, eq_refl d))
          (k d (ground (arith, eq_refl d))) p)
