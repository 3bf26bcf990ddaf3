-- ===== src/Dag/Graph/Reads.antt =====
-- What Successors of internal/dag/dag.go reads from a graph.
use bachkator.Base.{
  ◌<◌, String, true, ◌&&◌, List, [], ◌∷◌, ◌==◌, ◌≡◌, arith, eq_iff, eq_refl, if-elim, occ, All,
  All-weaken, In, here, there, map, select, order_by-All, order_by-In, select-All, In-select,
  str_lt, Bool-cases, inl, inr, ◌⊎◌,
}
use bachkator.Dag.Graph.{Edge, Graph, Filter, passes, member, distinct, successors}

pub In-of-occ : (x : String) (xs : List String) → 0 < occ x xs → In x xs
In-of-occ x [] h = absurd (ground arith)
In-of-occ x (y ∷ xs) h = elim (Bool-cases (y == x)) [
  | inl e ↦ rw ((eq_iff y x).0 e) here
  | inr e ↦ there (In-of-occ x xs (ground arith))
]

pub occ-of-In : (x : String) (xs : List String) → In x xs → 0 < occ x xs
occ-of-In x [] m = elim m [ ]
occ-of-In x (_ ∷ xs) here = ground (arith, eq_refl x)
occ-of-In x (y ∷ xs) (there m) = ground (arith, occ-of-In x xs m)

In-map : (f : Edge → String) (e : Edge) (es : List Edge) → In e es → In (f e) (map f es)
In-map f e [] m = elim m [ ]
In-map f e (_ ∷ es) here = here
In-map f e (x ∷ es) (there m) = there (In-map f e es m)

map-All :
    (P : String → Type 0) (f : Edge → String) (es : List Edge)
    → All (λ e. P (f e)) es
    → All P (map f es)
map-All P f [] h = tt
map-All P f (e ∷ es) h = (h.0, map-All P f es h.1)

In-distinct :
    (x : String) (xs seen : List String)
    → In x xs
    → (member x seen ≡ true) ⊎ In x (distinct seen xs)
unfolding distinct
In-distinct x [] seen m = elim m [ ]
In-distinct x (_ ∷ xs) seen here = elim (Bool-cases (member x seen)) [
  | inl s ↦ inl s
  | inr n ↦ inr (rw n here)
]
In-distinct x (y ∷ xs) seen (there m) = elim (Bool-cases (member y seen)) [
  | inl s ↦ rw s (In-distinct x xs seen m)
  | inr n ↦ rw n (elim (In-distinct x xs (y ∷ seen) m) [
    | inr later ↦ inr (there later)
    | inl s ↦ elim (Bool-cases (y == x)) [
      | inl e ↦ inr (rw ((eq_iff y x).0 e) here)
      | inr e ↦ inl (ground arith)
    ]
  ])
]

distinct-All : (P : String → Type 0) (xs seen : List String) → All P xs → All P (distinct seen xs)
unfolding distinct
distinct-All P [] seen h = tt
distinct-All P (x ∷ xs) seen h =
    if-elim (All P) (member x seen) (λ _. distinct-All P xs _ h.1)
      λ _. (h.0, distinct-All P xs _ h.1)

-- The second end of an edge is a successor of the first.
pub successors-In :
    (filter : Filter) (g : Graph) (e : Edge)
    → In e g.edges
    → passes filter e ≡ true
    → In e.to (successors filter g e.from)
unfolding successors
successors-In filter g e m p =
    let test = λ (x : Edge). (x.from == e.from) && passes filter x in
    let found = select test g.edges in
    order_by-In str_lt e.to (distinct [] (map (λ (x : Edge). x.to) found))
      (elim (In-distinct e.to (map (λ (x : Edge). x.to) found) [] (
        In-map (λ (x : Edge). x.to) e found
          (In-select test g.edges e m (ground (arith, eq_refl e.from))))) [
            | inl none_ ↦ absurd (ground arith)
            | inr found_ ↦ found_
          ])

-- What holds of the second ends of the edges from a vertex holds of its successors.
pub successors-All :
    (P : String → Type 0) (filter : Filter) (g : Graph) (u : String)
    → All (λ (e : Edge). e.from ≡ u → passes filter e ≡ true → P e.to) g.edges
    → All P (successors filter g u)
unfolding successors
successors-All P filter g u h =
    let test = λ (x : Edge). (x.from == u) && passes filter x in
    order_by-All P str_lt (distinct [] (map (λ (x : Edge). x.to) (select test g.edges))) (
      distinct-All P (map (λ (x : Edge). x.to) (select test g.edges)) [] (
        map-All P (λ (x : Edge). x.to) (select test g.edges)
          (select-All (λ (x : Edge). P x.to) test g.edges
            (All-weaken _ _ g.edges (λ e k t. k ((eq_iff e.from u).0 (ground arith)) (ground arith))
              h))))
