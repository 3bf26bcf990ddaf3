-- ===== src/Dag/Search/Visits.antt =====
-- Successful visits of ValidateAcyclic of internal/dag/dag.go.
use bachkator.Base.{
  ℕ, zero, suc, ◌<◌, ◌≤◌, String, true, List, [], ◌∷◌, ◌++◌, ◌≡◌, arith, eq_iff, eq_refl,
  if◌then◌else◌, All, All-In, In, length, subst, Bool-cases, inl, inr, ok, ◌>>=◌, >>=-eq-ok,
}
use bachkator.Dag.Graph.{member}
use bachkator.Dag.Search.{Visited, visit_each, visit}

-- The successors of what was visited were visited before it.
abbrev pub Closed : (String → List String) → List String → Type 0
Closed next [] = Unit
Closed next (x ∷ xs) = All (λ s. member s xs ≡ true) (next x) × Closed next xs

abbrev pub Extends : List String → List String → Type 0
Extends xs ys = (x : String) → member x xs ≡ true → member x ys ≡ true

-- A successful visit: closed, with the vertex visited, and nothing forgotten.
abbrev pub Visits : (String → List String) → String → List String → List String → Type 0
Visits next id visited visited' =
    Closed next visited' × (member id visited' ≡ true) × Extends visited visited'

pub visit_each-Closed :
    (next : String → List String) (f : String → List String → Visited)
    → ((x : String) (v v' : List String) → f x v ≡ ok v' → Closed next v → Visits next x v v')
    → (xs v v' : List String) → visit_each f xs v ≡ ok v'
    → Closed next v
    → Closed next v' × All (λ x. member x v' ≡ true) xs × Extends v v'
unfolding visit_each
visit_each-Closed next f good [] v v' e c =
    let same : v ≡ v' = ground arith in
    (subst (Closed next) same c, tt, λ x m. subst (λ l. member x l ≡ true) same m)
visit_each-Closed next f good (x ∷ xs) v v' e c =
    let (v₁, first, rest) = >>=-eq-ok (f x v) (visit_each f xs) e in
    let (c₁, m₁, sub₁) = good x v v₁ first c in
    let (c₂, all, sub₂) = visit_each-Closed next f good xs v₁ v' rest c₁ in
    (c₂, (sub₂ x m₁, all), λ y m. sub₂ y (sub₁ y m))

pub visit-Closed :
    (n : ℕ) (next : String → List String) (stack : List String) (id : String) (v v' : List String)
    → visit n next stack id v ≡ ok v'
    → Closed next v
    → Visits next id v v'
unfolding visit
visit-Closed zero next stack id v v' e c = absurd (ground arith)
visit-Closed (suc n) next stack id v v' e c = elim (Bool-cases (member id v)) [
  | inl seen ↦
      let same : v ≡ v' = ground arith in
      (
        subst (Closed next) same c,
        subst (λ l. member id l ≡ true) same seen,
        λ x m. subst (λ l. member x l ≡ true) same m,
      )
  | inr new ↦
      let deeper = visit_each (visit n next (stack ++ (id ∷ []))) (next id) v in
      let run : (deeper >>= λ l. ok (id ∷ l)) ≡ ok v' = ground arith in
      let (v₁, below, last) = >>=-eq-ok deeper (λ l. ok (id ∷ l)) run in
      let same : id ∷ v₁ ≡ v' = ground arith in
      let (c₁, all, sub) =
        visit_each-Closed next (visit n next (stack ++ (id ∷ [])))
          (λ x a b. visit-Closed n next (stack ++ (id ∷ [])) x a b) (next id) v v₁ below c in
      (
        subst (Closed next) same (all, c₁),
        subst (λ l. member id l ≡ true) same (ground (arith, eq_refl id)),
        λ x m. subst (λ l. member x l ≡ true) same (ground (arith, sub x m)),
      )
]

-- The place of a visited vertex, by its first visit.
abbrev pub place : List String → String → ℕ
place [] v = 0
place (x ∷ xs) v = let rest = place xs v in if member v xs then rest else suc (length xs)

pub place-length : (xs : List String) (v : String) → place xs v ≤ length xs
place-length [] v = omega arith
place-length (x ∷ xs) v = ground (arith, place-length xs v)

-- The successors of a visited vertex are visited, and have earlier places.
pub Closed-place :
    (next : String → List String) (xs : List String) (u v : String)
    → Closed next xs
    → member u xs ≡ true
    → In v (next u)
    → (member v xs ≡ true) × (place xs v < place xs u)
Closed-place next [] u v c m i = absurd (ground arith)
Closed-place next (x ∷ xs) u v c m i = elim (Bool-cases (member u xs)) [
  | inl e ↦ let (there_, less) = Closed-place next xs u v c.1 e i in (ground arith, ground arith)
  | inr e ↦
      let is : x ≡ u = (eq_iff x u).0 (ground arith) in
      let before : member v xs ≡ true = All-In (λ s. member s xs ≡ true) (next x) c.0 (rw is i) in
      (ground arith, ground (arith, place-length xs v))
]
