-- ===== src/Plan/Waves.antt =====
-- BuildSelection and waves of internal/plan/graph.go.
--
-- The map `byID` is the list of the documents that it holds; `remainingDeps` is a list with one
-- entry for a key, read in no fixed order and sorted before it is used; a map whose missing key
-- reads as an empty list is a function. A set is a list without repetitions. The loop over `ready`,
-- which has no bound in Go, runs on fuel: two more than twice the number of documents.
pub mod Marks
pub mod Ends
pub mod Waits
pub mod Order
pub mod Complete
pub mod Whole
use bachkator.Base.{
  ℕ, zero, suc, ◌+◌, String, Bool, true, false, ◌&&◌, not, Option, none, some, List, [], ◌∷◌, ◌++◌,
  ◌==◌, eqb, if◌then◌else◌, str_lt, length, find, exists, select, update, order_by, map,
}
use bachkator.Plan.Types.{
  Document, Diagnostic, Selection, duplicate_id, missing_dependency, cycle_includes,
}

-- byID[id]
unfoldable pub find_doc : String → List Document → Option Document
find_doc id by_id = find (λ d. d.id == id) by_id

-- _, ok := byID[id]
unfoldable pub selected : String → List Document → Bool
selected id by_id = exists (λ d. d.id == id) by_id

-- The first loop of BuildSelection: the documents of `byID` and the duplicates.
unfoldable pub index : List Document → List Document → List Document × List Diagnostic
unfolding find_doc
index by_id [] = (by_id, [])
index by_id (doc ∷ docs) = elim (find_doc doc.id by_id) [
  | some existing ↦ let rest = index by_id docs in (rest.0, duplicate_id doc existing ∷ rest.1)
  | none ↦ index (by_id ++ doc ∷ []) docs
]

-- The second loop of BuildSelection: the dependencies that are not selected.
unfoldable pub missing_deps : List Document → Document → List String → List Diagnostic
unfolding selected
missing_deps by_id doc [] = []
missing_deps by_id doc (dep ∷ deps) =
    let rest = missing_deps by_id doc deps in
    if selected dep by_id then rest else missing_dependency doc dep ∷ rest

unfoldable pub missing : List Document → List Document → List Diagnostic
missing by_id [] = []
missing by_id (doc ∷ docs) = missing_deps by_id doc doc.depends_on ++ missing by_id docs

-- An entry of `remainingDeps`: a document's id, and the set of dependencies that it waits for.
pub record Waiting : Type 0 where
  pub id : String
  pub deps : List String

unfoldable pub holds : String → List String → Bool
holds x xs = exists (λ y. y == x) xs

unfoldable pub add : String → List String → List String
unfolding holds
add x xs = if holds x xs then xs else x ∷ xs

unfoldable pub remove : String → List String → List String
remove x xs = select (λ y. not (y == x)) xs

-- remainingDeps[id] = deps
unfoldable pub put : Waiting → List Waiting → List Waiting
put w [] = w ∷ []
put w (e ∷ es) = let rest = put w es in if e.id == w.id then w ∷ es else e ∷ rest

-- remainingDeps[id]
unfoldable pub waits_for : String → List Waiting → List String
waits_for id es = elim (find (λ e. e.id == id) es) [ some e ↦ e.deps | none ↦ [] ]

-- The dependencies of one document that are selected, as a set.
unfoldable pub selected_deps : List Document → List String → List String
unfolding selected add
selected_deps by_id [] = []
selected_deps by_id (dep ∷ deps) =
    let rest = selected_deps by_id deps in if selected dep by_id then add dep rest else rest

unfoldable pub remaining_deps : List Document → List Document → List Waiting → List Waiting
unfolding put selected_deps
remaining_deps by_id [] es = es
remaining_deps by_id (doc ∷ docs) es =
    remaining_deps by_id docs
      (put (record { id = doc.id; deps = selected_deps by_id doc.depends_on }) es)

-- dependents[id]: a document stands there once for each time that it names `id`.
unfoldable pub dependents_in : String → String → List String → List String
dependents_in id doc [] = []
dependents_in id doc (dep ∷ deps) =
    let rest = dependents_in id doc deps in if dep == id then doc ∷ rest else rest

unfoldable pub dependents : List Document → List Document → String → List String
unfolding selected dependents_in
dependents by_id [] id = []
dependents by_id (doc ∷ docs) id =
    let rest = dependents by_id docs id in
    if selected id by_id then dependents_in id doc.id doc.depends_on ++ rest else rest

-- The variables of the loop.
pub record Progress : Type 0 where
  pub remaining : List Waiting
  pub processed : List String
  pub next : List String

abbrev pub is_empty : List String → Bool
is_empty [] = true
is_empty (x ∷ xs) = false

-- The body of the loop over dependents[id].
unfoldable pub release_one : String → String → Progress → Progress
unfolding remove waits_for holds
release_one id dependent p =
    let remaining =
      update (λ e. e.id == dependent) (λ e. record e { deps = remove id e.deps }) p.remaining in
    let p' = record p { remaining = remaining } in
    if is_empty (waits_for dependent remaining) && not (holds dependent p.processed)
    then record p' { next = p.next ++ dependent ∷ [] }
    else p'

unfoldable pub release_all : String → List String → Progress → Progress
release_all id [] p = p
release_all id (d ∷ ds) p = release_all id ds (release_one id d p)

-- The body of the loop over a wave.
unfoldable pub process : (String → List String) → String → Progress → Progress
unfolding add release_all
process deps id p = release_all id (deps id) (record p { processed = add id p.processed })

unfoldable pub run_wave : (String → List String) → List String → Progress → Progress
run_wave deps [] p = p
run_wave deps (id ∷ wave) p = run_wave deps wave (process deps id p)

-- The loop: `none` once the fuel is out.
unfoldable pub run_waves :
    ℕ
    → (String → List String)
    → List String
    → List Waiting
    → List String
    → Option (List (List String) × Progress)
run_waves zero deps ready remaining processed = none
run_waves (suc n) deps [] remaining processed =
    some ([], record { remaining = remaining; processed = processed; next = [] })
run_waves (suc n) deps (id ∷ ids) remaining processed =
    let p =
      run_wave deps (id ∷ ids)
        (record { remaining = remaining; processed = processed; next = [] }) in
    elim (run_waves n deps (order_by str_lt p.next) p.remaining p.processed) [
      | some (rest, end) ↦ some ((id ∷ ids) ∷ rest, end)
      | none ↦ none
    ]

-- The keys without dependencies at the start.
unfoldable pub first_wave : List Waiting → List String
first_wave es = order_by str_lt (map (λ (e : Waiting). e.id) (select (λ e. is_empty e.deps) es))

unfoldable pub cycle_diagnostics : List Document → Progress → List Diagnostic
unfolding holds find_doc
cycle_diagnostics by_id p =
    if eqb (length p.processed) (length p.remaining)
    then []
    else map (λ id. cycle_includes (find_doc id by_id) id)
        (order_by str_lt
          (select (λ id. not (holds id p.processed)) (map (λ (e : Waiting). e.id) p.remaining)))

unfoldable pub waves : List Document → List Document → Option (List (List String) × List Diagnostic)
unfolding first_wave run_waves cycle_diagnostics
waves docs by_id =
    let es = remaining_deps by_id docs [] in
    elim (run_waves (suc (suc (length docs + length docs))) (dependents by_id docs) (first_wave es)
      es []) [ some (found, end) ↦ some (found, cycle_diagnostics by_id end) | none ↦ none ]

-- BuildSelection
unfoldable pub build_selection : List Document → Option Selection
unfolding index missing waves
build_selection docs =
    let indexed = index [] docs in
    elim (waves docs indexed.0) [
      | some (found, cycles) ↦ some (record {
        documents = docs;
        waves = found;
        diagnostics = indexed.1 ++ missing indexed.0 docs ++ cycles;
      })
      | none ↦ none
    ]
