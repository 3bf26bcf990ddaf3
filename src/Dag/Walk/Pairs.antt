-- ===== src/Dag/Walk/Pairs.antt =====
-- What dependencyState of internal/dag/dag.go counts: pairs of vertices with an edge between them.
use bachkator.Base.{
  String, Bool, true, ◌&&◌, List, [], ◌∷◌, ◌==◌, ◌≡◌, refl, ◌∙◌, arith, eq_iff, eq_refl,
  if◌then◌else◌, select, affected, occ, All, In, here, there, str_lt, affected-append,
  affected-order_by, if-elim, order_by-All, order_by-In, select-All, In-select,
}
use bachkator.Dag.Graph.{Edge, Graph, Filter, passes, edges_of, edge_lt}
use bachkator.Dag.Walk.{Deps, bump, append_to, seen_pair, count_edges, no_deps, dependency_state}

abbrev pub Pair : Type 0
Pair = String × String

abbrev pub into : String → Pair → Bool
into v p = p.1 == v

abbrev pub between : String → String → Pair → Bool
between u v p = (p.0 == u) && (p.1 == v)

-- The numbers and the lists agree with the pairs.
pub record IsCounted (d : Deps) : Type 0 where
  pub into_count : (v : String) → d.remaining v ≡ affected (into v) d.seen
  pub between_count : (u v : String) → occ v (d.dependents u) ≡ affected (between u v) d.seen

-- One new pair.
abbrev counted : Edge → Deps → Deps
counted e d = record {
  remaining = bump e.to d.remaining;
  dependents = append_to e.from e.to d.dependents;
  seen = (e.from, e.to) ∷ d.seen;
}

counted-into :
    (e : Edge) (d : Deps) (v : String)
    → d.remaining v ≡ affected (into v) d.seen
    → (counted e d).remaining v ≡ affected (into v) (counted e d).seen
counted-into e d v h = ground (arith, eq_iff v e.to, eq_iff e.to v)

counted-between :
    (e : Edge) (d : Deps) (u v : String)
    → occ v (d.dependents u) ≡ affected (between u v) d.seen
    → occ v ((counted e d).dependents u) ≡ affected (between u v) (counted e d).seen
counted-between e d u v h = ground (
  arith,
  eq_iff u e.from,
  eq_iff e.from u,
  affected-append (λ x. x == v) (d.dependents u) (e.to ∷ []),
)

count_edges-IsCounted : (es : List Edge) (d : Deps) → IsCounted d → IsCounted (count_edges es d)
unfolding count_edges
count_edges-IsCounted [] d h = h
count_edges-IsCounted (e ∷ es) d h = count_edges-IsCounted es _ (
    if-elim IsCounted (seen_pair e.from e.to d.seen) (λ _. h)
      λ _. record {
        into_count = λ v. counted-into e d v (h.into_count v);
        between_count = λ u v. counted-between e d u v (h.between_count u v);
      })

pub dependency_state-IsCounted :
    (filter : Filter) (g : Graph) → IsCounted (dependency_state filter g)
unfolding dependency_state
dependency_state-IsCounted filter g =
    let h =
      count_edges-IsCounted (edges_of filter g) no_deps
        (record { into_count = λ v. refl; between_count = λ u v. refl }) in
    record {
      into_count = h.into_count;
      between_count = λ u v.
          affected-order_by (λ x. x == v) str_lt
            ((count_edges (edges_of filter g) no_deps).dependents u)
          ∙ h.between_count u v;
    }

-- A pair that is seen stays seen.
count_edges-seen :
    (es : List Edge) (d : Deps) (u v : String)
    → seen_pair u v d.seen ≡ true
    → seen_pair u v (count_edges es d).seen ≡ true
unfolding count_edges
count_edges-seen [] d u v h = h
count_edges-seen (e ∷ es) d u v h = count_edges-seen es _ u v (
    if-elim (λ (x : Deps). seen_pair u v x.seen ≡ true) (seen_pair e.from e.to d.seen) (λ _. h)
      λ _. ground arith)

count_edges-In :
    (es : List Edge) (d : Deps) (e : Edge)
    → In e es
    → seen_pair e.from e.to (count_edges es d).seen ≡ true
unfolding count_edges
count_edges-In [] d e m = elim m [ ]
count_edges-In (e ∷ es) d _ here = count_edges-seen es _ e.from e.to (
    if-elim (λ (x : Deps). seen_pair e.from e.to x.seen ≡ true) (seen_pair e.from e.to d.seen)
      (λ seen. seen) λ _. ground (arith, eq_refl e.from, eq_refl e.to))
count_edges-In (x ∷ es) d e (there m) =
    count_edges-In es (if seen_pair x.from x.to d.seen then d else counted x d) e m

-- What holds of the ends of every edge holds of the pairs.
count_edges-All :
    (P : Pair → Type 0) (es : List Edge) (d : Deps)
    → All (λ (e : Edge). P (e.from, e.to)) es
    → All P d.seen
    → All P (count_edges es d).seen
unfolding count_edges
count_edges-All P [] d h k = k
count_edges-All P (e ∷ es) d h k =
    count_edges-All P es _ h.1
      (if-elim (λ (x : Deps). All P x.seen) (seen_pair e.from e.to d.seen) (λ _. k) λ _. (h.0, k))

-- What holds of the ends of every edge that passes the filter holds of the pairs.
pub dependency_state-All :
    (P : Pair → Type 0) (filter : Filter) (g : Graph)
    → All (λ (e : Edge). passes filter e ≡ true → P (e.from, e.to)) g.edges
    → All P (dependency_state filter g).seen
unfolding dependency_state edges_of
dependency_state-All P filter g h =
    count_edges-All P (edges_of filter g) no_deps
      (order_by-All (λ (e : Edge). P (e.from, e.to)) edge_lt (select (passes filter) g.edges)
        (select-All (λ (e : Edge). P (e.from, e.to)) (passes filter) g.edges h))
      tt

-- Each edge that passes the filter is a pair.
pub dependency_state-In :
    (filter : Filter) (g : Graph) (e : Edge)
    → In e g.edges
    → passes filter e ≡ true
    → seen_pair e.from e.to (dependency_state filter g).seen ≡ true
unfolding dependency_state edges_of
dependency_state-In filter g e m p = count_edges-In (edges_of filter g) no_deps e (
    order_by-In edge_lt e (select (passes filter) g.edges)
      (In-select (passes filter) g.edges e m p))
