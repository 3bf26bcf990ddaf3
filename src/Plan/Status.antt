-- ===== src/Plan/Status.antt =====
-- DeriveStatuses of internal/plan/status.go.
--
-- The maps `statuses` and `ledgers` are functions; a missing status is the empty text. `byID` holds
-- the last document with an id, and the zero document for an id without one.
pub mod Derived
pub mod Causes
use bachkator.Base.{
  String, Bool, true, false, ◌&&◌, ◌||◌, not, Option, none, some, List, [], ◌∷◌, ◌++◌, ◌==◌,
  if◌then◌else◌,
}
use bachkator.Plan.Types.{
  Document, Diagnostic, Ledger, Evidence, LedgerSummary, StatusRecord, Selection, diag,
}
use bachkator.Plan.Ledgers.{
  ready, planned, blocked, pending, in_progress, implemented, failed, stale, invalid_ledger,
  validate_ledger,
}

-- The loop over the dependencies of a document without a ledger.
unfoldable pub dependency_status : (String → String) → List String → String
dependency_status statuses [] = planned
dependency_status statuses (dep ∷ deps) =
    let rest = dependency_status statuses deps in
    if (statuses dep == blocked) || (statuses dep == invalid_ledger) || (statuses dep == stale)
    then blocked
    else rest

-- The switch on a ledger without diagnostics: the status and the diagnostics.
unfoldable pub valid_status : {C : Type 0} → Document → Ledger C → String × List Diagnostic
valid_status doc ledger =
    if (ledger.status == implemented) && (ledger.hash == doc.hash)
    then (implemented, [])
    else if ledger.status == implemented
    then (stale, [])
    else if (ledger.status == pending)
        || (ledger.status == in_progress)
        || (ledger.status == failed)
    then (ledger.status, [])
    else (
      invalid_ledger,
      diag doc.path "invalid-ledger-status" "Plan ledger status is not supported" ∷ [],
    )

-- The switch, given the diagnostics of ValidateLedger.
unfoldable pub judge :
    {C : Type 0} → Document → Ledger C → List Diagnostic → String × List Diagnostic
unfolding valid_status
judge doc ledger (d ∷ ds) = (invalid_ledger, d ∷ ds)
judge doc ledger [] = valid_status doc ledger

unfoldable pub ledger_status : {C : Type 0} → Document → Ledger C → String × List Diagnostic
unfolding judge
ledger_status doc ledger = judge doc ledger (validate_ledger doc ledger)

unfoldable pub summary : {C : Type 0} → Ledger C → LedgerSummary
summary ledger = record {
  ledger_id = ledger.ledger_id;
  status = ledger.status;
  hash = ledger.hash;
  recorded_at = ledger.recorded_at;
}

unfoldable pub without_ledger : (String → String) → List String → String
unfolding dependency_status
without_ledger statuses [] = ready
without_ledger statuses (dep ∷ deps) = dependency_status statuses (dep ∷ deps)

-- The body of the loop over the ids of a wave.
unfoldable pub status_record :
    {C : Type 0} → (String → String) → Document → Option (Ledger C) → StatusRecord
unfolding ledger_status summary without_ledger
status_record statuses doc none = record {
  document = doc;
  status = without_ledger statuses doc.depends_on;
  diagnostics = [];
  ledger = none;
}
status_record statuses doc (some ledger) =
    let judged = ledger_status doc ledger in
    record {
      document = doc;
      status = judged.0;
      diagnostics = judged.1;
      ledger = some (summary ledger);
    }

-- doc := byID[id]
unfoldable pub last_doc : String → List Document → Option Document
last_doc id [] = none
last_doc id (d ∷ ds) = elim (last_doc id ds) [
  | some found ↦ some found
  | none ↦ if d.id == id then some d else none
]

abbrev pub zero_document : Document
zero_document = record {
  path = "";
  id = "";
  title = "";
  description = "";
  depends_on = [];
  agent_template = "";
  policy = "";
  required_targets = [];
  labels = [];
  metadata = [];
  hash = "";
}

unfoldable pub doc_of : String → List Document → Document
unfolding last_doc
doc_of id docs = elim (last_doc id docs) [ some d ↦ d | none ↦ zero_document ]

-- statuses[id] = status
abbrev pub set_status : String → String → (String → String) → String → String
set_status id status statuses x = if id == x then status else statuses x

-- The loops over the waves and over the ids of one.
unfoldable pub derive_ids :
    {C : Type 0}
    → List Document
    → (String → Option (Ledger C))
    → List String
    → (String → String)
    → List StatusRecord × (String → String)
unfolding status_record doc_of
derive_ids docs ledgers [] statuses = ([], statuses)
derive_ids docs ledgers (id ∷ ids) statuses =
    let r = status_record statuses (doc_of id docs) (ledgers id) in
    let rest = derive_ids docs ledgers ids (set_status id r.status statuses) in (r ∷ rest.0, rest.1)

unfoldable pub derive_waves :
    {C : Type 0}
    → List Document
    → (String → Option (Ledger C))
    → List (List String)
    → (String → String)
    → List StatusRecord
unfolding derive_ids
derive_waves docs ledgers [] statuses = []
derive_waves docs ledgers (wave ∷ waves) statuses =
    let done = derive_ids docs ledgers wave statuses in
    done.0 ++ derive_waves docs ledgers waves done.1

-- DeriveStatuses
unfoldable pub derive_statuses :
    {C : Type 0} → Selection → (String → Option (Ledger C)) → List StatusRecord
unfolding derive_waves
derive_statuses selection ledgers = derive_waves selection.documents ledgers selection.waves λ x. ""
