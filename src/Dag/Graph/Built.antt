-- ===== src/Dag/Graph/Built.antt =====
-- Graphs that AddVertex and AddEdge of internal/dag/dag.go build.
use bachkator.Base.{
  ◌+◌, ◌<◌, ◌≤◌, String, false, ◌&&◌, ◌||◌, some, List, [], ◌∷◌, ◌==◌, ◌≡◌, arith, eq_iff, eq_refl,
  if◌then◌else◌, if-elim, eqb, exists, find, occ, All, All-append, All-weaken, map, Option-cases,
  inl, inr,
}
use bachkator.Dag.Graph.{
  Vertex, Edge, Graph, new, put_vertex, keeps_vertex, add_vertex, same_edge, bare, add_edge,
}

abbrev pub ids : List Vertex → List String
ids = map (λ (v : Vertex). v.id)

-- Each vertex is there once, and the ends of each edge are two vertices.
pub record IsGraph (g : Graph) : Type 0 where
  pub single : (v : String) → occ v (ids g.vertices) ≤ 1
  pub ends :
      All
        (λ (e : Edge).
          (0 < occ e.from (ids g.vertices))
          × (0 < occ e.to (ids g.vertices))
          × ((e.from == e.to) ≡ false))
        g.edges

occ-put_vertex :
    (v : Vertex) (ws : List Vertex) (x : String)
    → occ x (ids (put_vertex v ws))
      ≡ occ x (ids ws) + (if eqb (occ v.id (ids ws)) 0 && (v.id == x) then 1 else 0)
unfolding put_vertex
occ-put_vertex v [] x = ground (arith)
occ-put_vertex v (w ∷ ws) x = ground (arith, occ-put_vertex v ws x, eq_iff w.id v.id)

find-occ :
    (id : String) (ws : List Vertex) (old : Vertex)
    → find (λ (w : Vertex). w.id == id) ws ≡ some old
    → 0 < occ id (ids ws)
find-occ id [] old e = ground arith
find-occ id (w ∷ ws) old e = ground (arith, find-occ id ws old)

-- Adding a vertex loses none, repeats none and adds its own.
occ-add_vertex :
    (v : Vertex) (g : Graph) (x : String)
    → (occ x (ids g.vertices) ≤ occ x (ids (add_vertex v g).vertices))
      × (occ x (ids g.vertices) ≤ 1 → occ x (ids (add_vertex v g).vertices) ≤ 1)
unfolding add_vertex
occ-add_vertex v g x = ground (arith, occ-put_vertex v g.vertices x, eq_iff v.id x)

add_vertex-there :
    (v : Vertex) (g : Graph) → (v.id == "") ≡ false → 0 < occ v.id (ids (add_vertex v g).vertices)
unfolding add_vertex keeps_vertex
add_vertex-there v g named = elim (Option-cases (find (λ (w : Vertex). w.id == v.id) g.vertices)) [
  | inl n ↦ ground (arith, occ-put_vertex v g.vertices v.id, eq_refl v.id)
  | inr (old, is) ↦
      ground
        (arith, occ-put_vertex v g.vertices v.id, eq_refl v.id, find-occ v.id g.vertices old is)
]

add_vertex-edges : (v : Vertex) (g : Graph) → (add_vertex v g).edges ≡ g.edges
unfolding add_vertex
add_vertex-edges v g = ground arith

add_vertex-IsGraph : (v : Vertex) (g : Graph) → IsGraph g → IsGraph (add_vertex v g)
add_vertex-IsGraph v g h = record {
  single = λ x. (occ-add_vertex v g x).1 (h.single x);
  ends = rw (add_vertex-edges v g) (
      All-weaken _ _ g.edges
        (λ e k.
          ground (arith, (occ-add_vertex v g e.from).0, (occ-add_vertex v g e.to).0, k.0, k.1, k.2))
        h.ends);
}

add_edge-IsGraph :
    (from to kind : String) (g : Graph) → IsGraph g → IsGraph (add_edge from to kind g)
unfolding add_edge
add_edge-IsGraph from to kind g h =
    let g₁ = add_vertex (bare from) g in
    let g₂ = add_vertex (bare to) g₁ in
    let h₂ = add_vertex-IsGraph (bare to) g₁ (add_vertex-IsGraph (bare from) g h) in
    let e : Edge = record { from = from; to = to; kind = kind } in
    if-elim IsGraph ((from == "") || (to == "") || (from == to)) (λ _. h)
      λ good.
        if-elim IsGraph (exists (same_edge e) g₂.edges) (λ _. h₂)
          λ fresh. record {
            single = h₂.single;
            ends = All-append _ g₂.edges (e ∷ []) h₂.ends (
              (
                ground
                    (arith, add_vertex-there (bare from) g, (occ-add_vertex (bare to) g₁ from).0),
                ground (arith, add_vertex-there (bare to) g₁),
                ground arith,
              ),
              tt,
            );
          }

-- The calls that build a graph.
pub data Build : Type 0 where
  vertex : Vertex → Build
  edge : String → String → String → Build

unfoldable pub build : List Build → Graph → Graph
build [] g = g
build (vertex v ∷ cs) g = build cs (add_vertex v g)
build (edge from to kind ∷ cs) g = build cs (add_edge from to kind g)

build-keeps : (cs : List Build) (g : Graph) → IsGraph g → IsGraph (build cs g)
unfolding build
build-keeps [] g h = h
build-keeps (vertex v ∷ cs) g h = build-keeps cs (add_vertex v g) (add_vertex-IsGraph v g h)
build-keeps (edge from to kind ∷ cs) g h =
    build-keeps cs (add_edge from to kind g) (add_edge-IsGraph from to kind g h)

-- Whatever vertices and edges are added, with empty names, loops and repetitions among them, each
-- vertex of the graph is there once, and the ends of each edge are two different vertices of it.
pub build-IsGraph : (cs : List Build) → IsGraph (build cs new)
build-IsGraph cs = build-keeps cs new (record { single = λ v. omega arith; ends = tt })
