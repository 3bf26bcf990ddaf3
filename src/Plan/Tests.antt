-- ===== src/Plan/Tests.antt =====
-- Selections of a few documents of internal/plan.
use bachkator.Base.{
  ℕ, ◌<◌, ◌≢◌, ◌==◌, if◌then◌else◌, text_ne, Each, All, In, here, there, subst, arith, String, List,
  [], ◌∷◌, ◌≡◌, refl, some, none, map, Option,
}
use mathlib.Core.Logic.{◌↔◌}
use bachkator.Plan.Waves.Ends.{build_selection_ends}
use bachkator.Plan.Waves.Order.{Ordered, build_selection-Ordered}
use bachkator.Plan.Waves.Complete.{flat}
use bachkator.Plan.Waves.Waits.{Needs}
use bachkator.Plan.Waves.Whole.{build_selection_complete}
use bachkator.Plan.Ledgers.{ready, implemented, ledger_schema_version, validate_ledger}
use bachkator.Plan.Ledgers.Valid.{IsValidLedger, validate_ledger_iff}
use bachkator.Plan.Status.{status_record, derive_statuses}
use bachkator.Plan.Status.Derived.{Current, status_record-implemented, status_record-ready}
use bachkator.Plan.Status.Causes.{Explained, derive_statuses-Explained}
use bachkator.Plan.Types.{
  Ledger, StatusRecord, Document, Selection, Diagnostic, missing_dependency, cycle_includes,
  duplicate_id, diag,
}
use bachkator.Plan.Waves.{
  build_selection, waves, remaining_deps, dependents, dependents_in, selected_deps, selected, index,
  missing, missing_deps, find_doc, holds, add, put, remove, waits_for, release_one, release_all,
  process, run_wave, run_waves, first_wave, cycle_diagnostics,
}

abbrev doc : String → List String → Document
doc id deps = record {
  path = "";
  id = id;
  title = "";
  description = "";
  depends_on = deps;
  agent_template = "";
  policy = "";
  required_targets = [];
  labels = [];
  metadata = [];
  hash = "";
}

abbrev waves_of : List Document → Option (List (List String) × List String)
waves_of ds = elim (build_selection ds) [
  | some s ↦ some (s.waves, map (λ (d : Diagnostic). d.code) s.diagnostics)
  | none ↦ none
]

chain_waves :
    waves_of (doc "c" ("b" ∷ []) ∷ doc "b" ("a" ∷ "x" ∷ []) ∷ doc "a" [] ∷ [])
    ≡ some (("a" ∷ []) ∷ ("b" ∷ []) ∷ ("c" ∷ []) ∷ [], "missing-plan-dependency" ∷ [])
unfolding build_selection waves remaining_deps dependents dependents_in selected_deps selected index
    missing missing_deps find_doc holds add put remove waits_for release_one release_all process
    run_wave run_waves first_wave cycle_diagnostics missing_dependency cycle_includes duplicate_id
    diag
chain_waves = refl

-- A dependency that is named twice puts the document into its wave twice.
repeated_waves :
    waves_of (doc "b" ("a" ∷ "a" ∷ []) ∷ doc "a" [] ∷ [])
    ≡ some (("a" ∷ []) ∷ ("b" ∷ "b" ∷ []) ∷ [], [])
unfolding build_selection waves remaining_deps dependents dependents_in selected_deps selected index
    missing missing_deps find_doc holds add put remove waits_for release_one release_all process
    run_wave run_waves first_wave cycle_diagnostics missing_dependency cycle_includes duplicate_id
    diag
repeated_waves = refl

cycle_waves :
    waves_of (doc "b" ("a" ∷ []) ∷ doc "a" ("b" ∷ []) ∷ [])
    ≡ some ([], "plan-dependency-cycle" ∷ "plan-dependency-cycle" ∷ [])
unfolding build_selection waves remaining_deps dependents dependents_in selected_deps selected index
    missing missing_deps find_doc holds add put remove waits_for release_one release_all process
    run_wave run_waves first_wave cycle_diagnostics missing_dependency cycle_includes duplicate_id
    diag
cycle_waves = refl

-- c needs b, and b needs a.
abbrev chain : List Document
chain = doc "c" ("b" ∷ []) ∷ doc "b" ("a" ∷ []) ∷ doc "a" [] ∷ []

abbrev selection : Selection
selection = record {
  documents = chain;
  waves = ("a" ∷ []) ∷ ("b" ∷ []) ∷ ("c" ∷ []) ∷ [];
  diagnostics = [];
}

selection-built : build_selection chain ≡ some selection
unfolding build_selection waves remaining_deps dependents dependents_in selected_deps selected index
    missing missing_deps find_doc holds add put remove waits_for release_one release_all process
    run_wave run_waves first_wave cycle_diagnostics missing_dependency cycle_includes duplicate_id
    diag
selection-built = refl

chain-distinct : Each (λ (x y : Document). x.id ≢ y.id) chain
chain-distinct =
    ((text_ne "c" "b" refl, (text_ne "c" "a" refl, tt)), ((text_ne "b" "a" refl, tt), (tt, tt)))

build_selection_ends_example : (s : Selection) × (build_selection chain ≡ some s)
build_selection_ends_example = build_selection_ends chain

build_selection-Ordered_example : Ordered (Needs chain chain) [] selection.waves
build_selection-Ordered_example =
    build_selection-Ordered chain selection chain-distinct selection-built

abbrev chain_rank : String → ℕ
chain_rank x = if x == "c" then 2 else if x == "b" then 1 else 0

single :
    (a x d : String) → In d (a ∷ []) → chain_rank a < chain_rank x → chain_rank d < chain_rank x
single a x _ here h = h
single a x d (there k) h = elim k [ ]

-- The dependencies of the documents of the chain.
chain-deps :
    (y : Document) (d : String) → In y chain → In d y.depends_on → chain_rank d < chain_rank y.id
chain-deps _ d here m = single "b" "c" d m (omega arith)
chain-deps _ d (there here) m = single "a" "b" d m (omega arith)
chain-deps _ d (there (there here)) m = elim m [ ]
chain-deps y d (there (there (there k))) m = elim k [ ]

chain-rises : (d x : String) → Needs chain chain d x → chain_rank d < chain_rank x
chain-rises d x (y, m, is, dep, s) =
    subst (λ z. chain_rank d < chain_rank z) is (chain-deps y d m dep)

build_selection_complete_example : All (λ (x : Document). In x.id (flat selection.waves)) chain
build_selection_complete_example =
    build_selection_complete chain selection chain_rank chain-rises selection-built

abbrev ledger_a : Ledger String
ledger_a = record {
  schema_version = ledger_schema_version;
  ledger_id = "l";
  plan_id = "a";
  status = implemented;
  hash = "sha256:0";
  run_id = "";
  commit = "";
  recorded_at = record { seconds = 1; nanos = 0 };
  evidence = [];
  implemented_at = record { seconds = 1; nanos = 0 };
}

validate_ledger_iff_example :
    (validate_ledger (doc "a" []) ledger_a ≡ []) ↔ IsValidLedger (doc "a" []) ledger_a
validate_ledger_iff_example = validate_ledger_iff (doc "a" []) ledger_a

status_record-implemented_example :
    ((status_record (λ x. "") (doc "a" []) (some ledger_a)).status ≡ implemented) ↔ (
      (l : Ledger String) × (some ledger_a ≡ some l)
      × (validate_ledger (doc "a" []) l ≡ [])
      × Current (doc "a" []) l)
status_record-implemented_example = status_record-implemented (λ x. "") (doc "a" []) (some ledger_a)

status_record-ready_example :
    ((status_record {C = String} (λ x. implemented) (doc "b" ("a" ∷ [])) none).status ≡ ready)
    ↔ (◌≡◌ {A = Option (Ledger String)} none none) × (◌≡◌ {A = List String} ("a" ∷ []) [])
status_record-ready_example =
    status_record-ready {C = String} (λ x. implemented) (doc "b" ("a" ∷ [])) none

-- The hash of a's ledger is not that of a, so a is stale and b and c are blocked.
abbrev stale_ledgers : String → Option (Ledger String)
stale_ledgers x = if x == "a" then some ledger_a else none

derived_stale :
    map (λ (r : StatusRecord). r.status) (derive_statuses selection stale_ledgers)
    ≡ "stale" ∷ "blocked" ∷ "blocked" ∷ []
unfolding derive_statuses validate_ledger diag
derived_stale = refl

derive_statuses-Explained_example : Explained [] (derive_statuses selection stale_ledgers)
derive_statuses-Explained_example =
    derive_statuses-Explained chain stale_ledgers selection selection-built
