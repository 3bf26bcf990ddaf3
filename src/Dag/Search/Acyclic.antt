-- ===== src/Dag/Search/Acyclic.antt =====
-- ValidateAcyclic of internal/dag/dag.go and ranks of vertices.
use bachkator.Base.{
  ℕ, suc, ◌-◌, ◌<◌, String, true, List, [], ◌≡◌, refl, arith, ◌==◌, occ, All, All-intro, All-In,
  length, length-order_by, length-map, affected-order_by, str_lt, ok, >>=-eq-ok, ◌∙◌, subst,
}
use bachkator.Dag.Graph.{Vertex, Edge, Graph, Filter, passes, vertex_ids, member, successors}
use bachkator.Dag.Graph.Built.{IsGraph, ids}
use bachkator.Dag.Graph.Reads.{successors-In, successors-All, In-of-occ, occ-of-In}
use bachkator.Dag.Search.{visit, search, validate_acyclic}
use bachkator.Dag.Search.Visits.{place, place-length, Closed-place, visit_each-Closed, visit-Closed}
use bachkator.Dag.Search.Total.{Succeeds, visit_each-Succeeds, visit-Succeeds}

-- The edges that pass the filter lead from a smaller number to a larger one.
abbrev pub Rises : Filter → Graph → (String → ℕ) → Type 0
Rises filter g rank = All (λ (e : Edge). passes filter e ≡ true → rank e.from < rank e.to) g.edges

module _ (filter : Filter) (g : Graph) (h : IsGraph g) where
  pub vertex_ids-occ : (v : String) → occ v (vertex_ids g) ≡ occ v (ids g.vertices)
  unfolding vertex_ids
  vertex_ids-occ v = affected-order_by (λ x. x == v) str_lt (ids g.vertices)

  pub vertex_ids-length : length (vertex_ids g) ≡ length g.vertices
  unfolding vertex_ids
  vertex_ids-length =
      length-order_by str_lt (ids g.vertices) ∙ length-map (λ (v : Vertex). v.id) g.vertices

  visited-Rises :
      (visited : List String)
      → search filter g ≡ ok visited
      → Rises filter g (λ v. length visited - place visited v)
  unfolding search
  visited-Rises visited e =
      let next = successors filter g in
      let (closed, all, more) =
        visit_each-Closed next (visit (suc (length g.vertices)) next [])
          (λ x a b. visit-Closed (suc (length g.vertices)) next [] x a b) (vertex_ids g) [] visited
          e tt in
      All-intro _ g.edges λ edge m p.
        let (from, to, apart) = All-In _ g.edges h.ends m in
        let there_ =
          All-In (λ x. member x visited ≡ true) (vertex_ids g) all
            (In-of-occ edge.from (vertex_ids g) (omega (arith, from, vertex_ids-occ edge.from))) in
        let (seen, earlier) =
          Closed-place next visited edge.from edge.to closed there_
            (successors-In filter g edge m p) in
        omega (arith, earlier, place-length visited edge.from)

  Rises-search : (rank : String → ℕ) → Rises filter g rank → Succeeds (search filter g)
  unfolding search
  Rises-search rank up =
      let vs = vertex_ids g in
      visit_each-Succeeds (λ x. 0 < occ x vs)
        (visit (suc (length g.vertices)) (successors filter g) [])
        (λ x v known.
          visit-Succeeds (successors filter g) rank vs
            (λ u.
              successors-All (λ y. (rank u < rank y) × (0 < occ y vs)) filter g u
                (All-intro _ g.edges λ e m is p. (
                  subst (λ z. rank z < rank e.to) is (All-In _ g.edges up m p),
                  omega (arith, (All-In _ g.edges h.ends m).1, vertex_ids-occ e.to),
                )))
            (suc (length g.vertices)) [] x v (λ y. omega arith) (omega (arith, vertex_ids-length))
            tt known)
        vs [] (All-intro (λ x. 0 < occ x vs) vs λ x m. occ-of-In x vs m)

  -- On a graph whose vertices are there once and whose edges join two of them, ValidateAcyclic
  -- succeeds exactly if there is a rank that rises along the edges that pass the filter.
  pub validate_acyclic_iff :
      (validate_acyclic filter g ≡ ok tt → (rank : String → ℕ) × Rises filter g rank)
      × ((rank : String → ℕ) → Rises filter g rank → validate_acyclic filter g ≡ ok tt)
  unfolding validate_acyclic
  validate_acyclic_iff = (
    (λ e.
        let (visited, run, last) = >>=-eq-ok (search filter g) (λ _. ok tt) e in
        ((λ v. length visited - place visited v), visited-Rises visited run)),
    λ rank up. let (visited, run) = Rises-search rank up in rw run refl,
  )
