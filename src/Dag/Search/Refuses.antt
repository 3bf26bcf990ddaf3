-- ===== src/Dag/Search/Refuses.antt =====
-- The errors of ValidateAcyclic of internal/dag/dag.go.
use bachkator.Base.{
  ℕ, zero, suc, ◌+◌, ◌<◌, ◌≤◌, String, true, List, [], ◌∷◌, ◌++◌, ◌==◌, ◌≡◌, refl, ◌∙◌, arith,
  eq_iff, occ, All, All-intro, All-In, In, subst, length, affected-append, length-of-occ,
  length-append, exists-of-affected, Bool-cases, Result-cases, inl, inr, err,
}
use bachkator.Dag.Graph.{Graph, Filter, member, successors, vertex_ids}
use bachkator.Dag.Graph.Built.{IsGraph}
use bachkator.Dag.Graph.Reads.{occ-of-In, successors-All}
use bachkator.Dag.Search.{
  SearchError, Visited, visit_each, visit, search, validate_acyclic, cycle, out_of_fuel, cycle_path,
}
use bachkator.Dag.Search.Acyclic.{vertex_ids-occ, vertex_ids-length}

-- Each element is followed by one of its successors.
abbrev pub Linked : (String → List String) → List String → Type 0
Linked next [] = Unit
Linked next (x ∷ []) = Unit
Linked next (x ∷ y ∷ rest) = In y (next x) × Linked next (y ∷ rest)

abbrev pub EndsIn : String → List String → Type 0
EndsIn v [] = ⊥
EndsIn v (x ∷ []) = x ≡ v
EndsIn v (x ∷ y ∷ rest) = EndsIn v (y ∷ rest)

abbrev pub StartsIn : String → List String → Type 0
StartsIn v [] = ⊥
StartsIn v (x ∷ rest) = x ≡ v

-- A path along the edges, of one edge at least, from a vertex back to it; running out of fuel is
-- no such error.
abbrev pub IsRefusal : (String → List String) → SearchError → Type 0
IsRefusal next (cycle path) =
    (v : String) × StartsIn v path × EndsIn v path × (1 < length path) × Linked next path
IsRefusal next out_of_fuel = ⊥

Linked-tail :
    (next : String → List String) (x : String) (xs : List String)
    → Linked next (x ∷ xs)
    → Linked next xs
Linked-tail next x [] h = tt
Linked-tail next x (y ∷ ys) h = h.1

Linked-push :
    (next : String → List String) (xs : List String) (u v : String)
    → Linked next (xs ++ u ∷ [])
    → In v (next u)
    → Linked next ((xs ++ u ∷ []) ++ v ∷ [])
Linked-push next [] u v h m = (m, tt)
Linked-push next (x ∷ []) u v h m = (h.0, (m, tt))
Linked-push next (x ∷ y ∷ xs) u v h m = (h.0, Linked-push next (y ∷ xs) u v h.1 m)

EndsIn-append : (v : String) (xs : List String) → EndsIn v (xs ++ v ∷ [])
EndsIn-append v [] = refl
EndsIn-append v (x ∷ []) = refl
EndsIn-append v (x ∷ y ∷ xs) = EndsIn-append v (y ∷ xs)

-- What cyclePath cuts out of the stack.
cycle_path-IsRefusal :
    (next : String → List String) (stack : List String) (id : String)
    → member id stack ≡ true
    → Linked next (stack ++ id ∷ [])
    → IsRefusal next (cycle (cycle_path stack id))
unfolding cycle_path
cycle_path-IsRefusal next [] id m h = absurd (ground arith)
cycle_path-IsRefusal next (x ∷ xs) id m h = elim (Bool-cases (x == id)) [
  | inl e ↦ rw e (
    id,
    (eq_iff x id).0 e,
    EndsIn-append id (x ∷ xs),
    omega (arith, length-append xs (id ∷ [])),
    h,
  )
  | inr e ↦
      rw e (cycle_path-IsRefusal next xs id (ground arith) (Linked-tail next x (xs ++ id ∷ []) h))
]

visit_each-err :
    (Q : String → Type 0) (R : SearchError → Type 0) (f : String → List String → Visited)
    → ((x : String) (v : List String) (e : SearchError) → Q x → f x v ≡ err e → R e)
    → (xs v : List String) (e : SearchError) → All Q xs
    → visit_each f xs v ≡ err e
    → R e
unfolding visit_each
visit_each-err Q R f bad [] v e q h = absurd (ground arith)
visit_each-err Q R f bad (x ∷ xs) v e q h = elim (Result-cases (f x v)) [
  | inl (v₁, k) ↦ visit_each-err Q R f bad xs v₁ e q.1 (rw k at h)
  | inr (e₁, k) ↦ bad x v e q.0 (k ∙ (rw k at h))
]

module _ (next : String → List String) (vs : List String)
    (inside : (u : String) → All (λ v. 0 < occ v vs) (next u)) where
  -- The stack holds vertices once and is a path, and there is fuel for the others.
  visit-err :
      (n : ℕ) (stack : List String) (id : String) (v : List String) (e : SearchError)
      → ((x : String) → occ x stack ≤ occ x vs)
      → length vs < n + length stack
      → Linked next (stack ++ id ∷ [])
      → 0 < occ id vs
      → visit n next stack id v ≡ err e
      → IsRefusal next e
  unfolding visit
  visit-err zero stack id v e once fuel path known h =
      absurd (ground (arith, length-of-occ stack vs once))
  visit-err (suc n) stack id v e once fuel path known h = elim (Bool-cases (member id v)) [
    | inl seen ↦ absurd (ground arith)
    | inr new ↦ elim (Bool-cases (member id stack)) [
      | inl on ↦
          subst (IsRefusal next) {x = cycle (cycle_path stack id)} (ground arith)
            (cycle_path-IsRefusal next stack id on path)
      | inr off ↦
          visit_each-err (λ x. In x (next id)) (IsRefusal next) (visit n next (stack ++ id ∷ []))
            (λ x l d m k.
              visit-err n (stack ++ id ∷ []) x l d
                (λ y. ground (
                  arith,
                  once y,
                  affected-append (λ z. z == y) stack (id ∷ []),
                  eq_iff id y,
                  exists-of-affected (λ z. z == id) stack,
                ))
                (omega (arith, fuel, length-append stack (id ∷ [])))
                (Linked-push next stack id x path m)
                (All-In (λ z. 0 < occ z vs) (next id) (inside id) m) k)
            (next id) v e (All-intro (λ x. In x (next id)) (next id) λ x m. m) (ground arith)
    ]
  ]

-- Where ValidateAcyclic refuses a graph whose vertices are there once and whose edges join two of
-- them, it has not run out of fuel, and the path that its error names has one edge or more, goes
-- from each vertex to one of its successors under the filter, and ends where it starts.
pub validate_acyclic_refuses :
    (filter : Filter) (g : Graph)
    → IsGraph g
    → (e : SearchError) → validate_acyclic filter g ≡ err e
    → IsRefusal (successors filter g) e
unfolding validate_acyclic search
validate_acyclic_refuses filter g h e refused =
    let vs = vertex_ids g in
    visit_each-err (λ x. 0 < occ x vs) (IsRefusal (successors filter g))
      (visit (suc (length g.vertices)) (successors filter g) [])
      (λ x v d known k.
        visit-err (successors filter g) vs
          (λ u.
            successors-All (λ y. 0 < occ y vs) filter g u
              (All-intro _ g.edges λ edge m is p.
                omega (arith, (All-In _ g.edges h.ends m).1, vertex_ids-occ filter g h edge.to)))
          (suc (length g.vertices)) [] x v d (λ y. omega arith)
          (omega (arith, vertex_ids-length filter g h)) tt known k)
      vs [] e (All-intro (λ x. 0 < occ x vs) vs λ x m. occ-of-In x vs m) (ground arith)
