-- ===== src/Dag/Search/Total.antt =====
-- Visits of ValidateAcyclic of internal/dag/dag.go where a rank rises along the edges.
use bachkator.Base.{
  ℕ, zero, suc, ◌+◌, ◌<◌, ◌≤◌, String, false, List, [], ◌∷◌, ◌++◌, ◌==◌, ◌≡◌, refl, arith, eq_iff,
  occ, All, All-weaken, All-append, length, affected-append, length-of-occ, length-append,
  exists-of-affected, Bool-cases, inl, inr, ok,
}
use bachkator.Dag.Graph.{member}
use bachkator.Dag.Search.{Visited, visit_each, visit}

-- Some list is the result.
abbrev pub Succeeds : Visited → Type 0
Succeeds r = (v : List String) × (r ≡ ok v)

pub visit_each-Succeeds :
    (Q : String → Type 0) (f : String → List String → Visited)
    → ((x : String) (v : List String) → Q x → Succeeds (f x v))
    → (xs v : List String) → All Q xs
    → Succeeds (visit_each f xs v)
unfolding visit_each
visit_each-Succeeds Q f good [] v q = (v, refl)
visit_each-Succeeds Q f good (x ∷ xs) v q =
    let (v₁, first) = good x v q.0 in
    let (v₂, rest) = visit_each-Succeeds Q f good xs v₁ q.1 in (v₂, rw first rest)

not-below :
    (rank : String → ℕ) (id : String) (stack : List String)
    → All (λ s. rank s < rank id) stack
    → member id stack ≡ false
not-below rank id [] h = refl
not-below rank id (s ∷ stack) h = ground (arith, h.0, not-below rank id stack h.1, eq_iff s id)

module _ (next : String → List String) (rank : String → ℕ) (vs : List String)
    (up : (u : String) → All (λ v. (rank u < rank v) × (0 < occ v vs)) (next u)) where
  -- The stack holds vertices once, the ranks on it are below that of the vertex to visit, and there
  -- is fuel for the vertices that are not on it.
  pub visit-Succeeds :
      (n : ℕ) (stack : List String) (id : String) (v : List String)
      → ((x : String) → occ x stack ≤ occ x vs)
      → length vs < n + length stack
      → All (λ s. rank s < rank id) stack
      → 0 < occ id vs
      → Succeeds (visit n next stack id v)
  unfolding visit
  visit-Succeeds zero stack id v once fuel below known =
      absurd (ground (arith, length-of-occ stack vs once))
  visit-Succeeds (suc n) stack id v once fuel below known = elim (Bool-cases (member id v)) [
    | inl seen ↦ (v, rw seen refl)
    | inr new ↦
        let off = not-below rank id stack below in
        let longer = stack ++ (id ∷ []) in
        let (v₁, deeper) =
          visit_each-Succeeds (λ x. (rank id < rank x) × (0 < occ x vs)) (visit n next longer)
            (λ x l q.
              visit-Succeeds n longer x l
                (λ y. ground (
                  arith,
                  once y,
                  affected-append (λ z. z == y) stack (id ∷ []),
                  eq_iff id y,
                  exists-of-affected (λ z. z == id) stack,
                ))
                (omega (arith, fuel, length-append stack (id ∷ [])))
                (All-append (λ s. rank s < rank x) stack (id ∷ [])
                  (All-weaken (λ s. rank s < rank id) (λ s. rank s < rank x) stack
                    (λ s less. omega (arith, less, q.0)) below)
                  (q.0, tt))
                q.1)
            (next id) v (up id) in
        (id ∷ v₁, rw (new, off, deeper) refl)
  ]
