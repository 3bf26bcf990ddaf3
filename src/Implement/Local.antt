-- ===== src/Implement/Local.antt =====
-- internal/backend/plan_ledger.go: the client of ledgers, where the backend is the local store.
--
-- internal/planexecute and internal/planstatus have a ledger type of internal/plan and one of
-- internal/backend, which is that of the store; here the one is turned into the other.
use bachkator.Base.{String, Option, some, none, map, Result, ok, err}
use bachkator.Plan.Types.{Ledger, Evidence}
use bachkator.State.PlanLedgers.Compare.{PlanLedger, PlanEvidence, Content}
use bachkator.State.PlanLedgers.{
  LedgerTables, LedgerError, closed, missing_ids, missing_fields, conflict, id_taken, panicked,
  record_ledger, get_latest_plan_ledger,
}

unfoldable pub to_store : Ledger Content → PlanLedger
to_store l = record {
  schema_version = l.schema_version;
  ledger_id = l.ledger_id;
  plan_id = l.plan_id;
  status = l.status;
  hash = l.hash;
  run_id = l.run_id;
  commit_sha = l.commit;
  recorded_at = l.recorded_at;
  evidence =
      map
        (λ (e : Evidence Content). record {
          id = e.id;
          kind = e.kind;
          hash = e.hash;
          content = e.content;
          metadata = e.metadata;
        })
        l.evidence;
  implemented_at = l.implemented_at;
}

unfoldable pub from_store : PlanLedger → Ledger Content
from_store l = record {
  schema_version = l.schema_version;
  ledger_id = l.ledger_id;
  plan_id = l.plan_id;
  status = l.status;
  hash = l.hash;
  run_id = l.run_id;
  commit = l.commit_sha;
  recorded_at = l.recorded_at;
  evidence =
      map
        (λ (e : PlanEvidence). record {
          id = e.id;
          kind = e.kind;
          hash = e.hash;
          content = e.content;
          metadata = e.metadata;
        })
        l.evidence;
  implemented_at = l.implemented_at;
}

-- The texts of the errors of RecordPlanLedger; a panic stands as an error, and the text of an error
-- of SQLite is shortened.
unfoldable pub ledger_error_text : LedgerError → String
ledger_error_text closed = "store is closed or read-only"
ledger_error_text missing_ids = "ledger_id and plan_id are required"
ledger_error_text missing_fields = "schema_version, status, hash, and recorded_at are required"
ledger_error_text conflict = "plan ledger conflict"
ledger_error_text id_taken = "UNIQUE constraint failed"
ledger_error_text panicked = "panic"

-- PlanLedgerClient.Record
unfoldable pub client_record : Ledger Content → LedgerTables → Result String LedgerTables
unfolding to_store ledger_error_text record_ledger
client_record l t = elim (record_ledger (to_store l) t) [
  | ok t' ↦ ok t'
  | err e ↦ err (ledger_error_text e)
]

-- PlanLedgerClient.Get
unfoldable pub client_get : String → LedgerTables → Result String (Option (Ledger Content))
unfolding from_store get_latest_plan_ledger
client_get plan_id t = elim (get_latest_plan_ledger plan_id (some t)) [
  | some l ↦ ok (some (from_store l))
  | none ↦ ok none
]
