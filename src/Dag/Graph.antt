-- ===== src/Dag/Graph.antt =====
-- The graph of internal/dag/dag.go. Vertices and kinds of edges are strings, as in both packages
-- that build graphs. The two maps are lists with one entry for a key; what Go reads from a map in
-- no fixed order is sorted before it is used, so the order of the lists does not show.
pub mod Built
pub mod Reads
use bachkator.Base.{
  ℕ, suc, String, Bool, true, false, ◌&&◌, ◌||◌, not, Option, none, some, List, [], ◌∷◌, ◌++◌, ◌==◌,
  if◌then◌else◌, str_lt, find, exists, select, order_by, map,
}

pub record Vertex : Type 0 where
  pub id : String
  pub kind : String

pub record Edge : Type 0 where
  pub from : String
  pub to : String
  pub kind : String

pub record Graph : Type 0 where
  pub vertices : List Vertex
  pub edges : List Edge

-- New
abbrev pub new : Graph
new = record { vertices = []; edges = [] }

-- g.vertices[vertex.ID] = vertex
unfoldable pub put_vertex : Vertex → List Vertex → List Vertex
put_vertex v [] = v ∷ []
put_vertex v (w ∷ ws) = let rest = put_vertex v ws in if w.id == v.id then v ∷ ws else w ∷ rest

-- The guards of AddVertex: an entry with the id keeps its place if the new one has no kind, or if
-- it has another kind.
unfoldable pub keeps_vertex : Vertex → Option Vertex → Bool
keeps_vertex v none = false
keeps_vertex v (some old) = (v.kind == "") || (not (old.kind == "") && not (old.kind == v.kind))

unfoldable pub add_vertex : Vertex → Graph → Graph
add_vertex v g =
    if v.id == ""
    then g
    else if keeps_vertex v (find (λ (w : Vertex). w.id == v.id) g.vertices)
    then g
    else record g { vertices = put_vertex v g.vertices }

abbrev pub same_edge : Edge → Edge → Bool
same_edge e f = (e.from == f.from) && (e.to == f.to) && (e.kind == f.kind)

abbrev pub bare : String → Vertex
bare id = record { id = id; kind = "" }

-- AddEdge: an edge that is there is written over by itself.
unfoldable pub add_edge : String → String → String → Graph → Graph
add_edge from to kind g =
    let e : Edge = record { from = from; to = to; kind = kind } in
    let g' = add_vertex (bare to) (add_vertex (bare from) g) in
    if (from == "") || (to == "") || (from == to)
    then g
    else if exists (same_edge e) g'.edges
    then g'
    else record g' { edges = g'.edges ++ (e ∷ []) }

-- EdgeFilter; a nil filter lets every edge through.
abbrev pub Filter : Type 0
Filter = Option (Edge → Bool)

abbrev pub passes : Filter → Edge → Bool
passes none e = true
passes (some test) e = test e

-- Vertices, by their ids: sort.SliceStable on fmt.Sprint of the id.
unfoldable pub vertex_ids : Graph → List String
vertex_ids g = order_by str_lt (map (λ (v : Vertex). v.id) g.vertices)

-- From, then To, then Kind.
abbrev pub edge_lt : Edge → Edge → Bool
edge_lt e f =
    if e.from == f.from
    then (if e.to == f.to then str_lt e.kind f.kind else str_lt e.to f.to)
    else str_lt e.from f.from

-- Edges
unfoldable pub edges_of : Filter → Graph → List Edge
edges_of filter g = order_by edge_lt (select (passes filter) g.edges)

abbrev pub member : String → List String → Bool
member a = exists (λ x. x == a)

-- The `seen` map: each name once, where it comes first.
unfoldable pub distinct : List String → List String → List String
distinct seen [] = []
distinct seen (x ∷ xs) =
    let rest = distinct (if member x seen then seen else x ∷ seen) xs in
    if member x seen then rest else x ∷ rest

-- Successors
unfoldable pub successors : Filter → Graph → String → List String
successors filter g id = order_by str_lt (
    distinct []
      (map (λ (e : Edge). e.to) (select (λ (e : Edge). (e.from == id) && passes filter e) g.edges)))

-- Predecessors
unfoldable pub predecessors : Filter → Graph → String → List String
predecessors filter g id = order_by str_lt (
    distinct []
      (map (λ (e : Edge). e.from) (select (λ (e : Edge). (e.to == id) && passes filter e) g.edges)))
