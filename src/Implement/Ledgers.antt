-- ===== src/Implement/Ledgers.antt =====
-- recordLedger of internal/planexecute/execute.go.
use bachkator.Base.{String, [], ◌∷◌, ◌==◌, if◌then◌else◌, eqb, Result, ok, ◌>>=◌}
use bachkator.State.Time.{Time, zero_time}
use bachkator.State.Tables.{Meta}
use bachkator.Plan.Types.{Document, Ledger, LedgerSummary}
use bachkator.Plan.Ledgers.{implemented, ledger_schema_version}
use Prim.Native.String.{◌++◌ as ◌+++◌, ◌∷◌ as ◌∷ˢ◌, [] as []ˢ}
use Prim.Native.Char.{code}
use bachkator.Implement.Types.{Service}

-- strings.ReplaceAll(status, "_", "-"); the code of `_` is 95.
unfoldable pub dashed : String → String
dashed []ˢ = ""
dashed (c ∷ˢ rest) = (if eqb (code c) 95 then "-" else c) ∷ˢ dashed rest

-- The metadata of a ledger's evidence.
unfoldable pub ledger_metadata : Document → String → String → Meta
ledger_metadata doc target run_id =
    ("plan_path", doc.path)
    ∷ ("generated_target", target)
    ∷ (if run_id == "" then [] else ("run_id", run_id) ∷ [])

module _ {State Content : Type 0} (s : Service State Content) where
  unfoldable pub new_ledger :
      Document → String → String → String → Time → String → String → Ledger Content
  unfolding ledger_metadata dashed
  new_ledger doc status target run_id now ledger_id evidence_id = record {
    schema_version = ledger_schema_version;
    ledger_id = ledger_id;
    plan_id = doc.id;
    status = status;
    hash = doc.hash;
    run_id = run_id;
    commit = "";
    recorded_at = now;
    evidence =
        record {
          id = evidence_id;
          kind = "plan." +++ dashed status;
          hash = doc.hash;
          content = s.no_content;
          metadata = ledger_metadata doc target run_id;
        }
        ∷ [];
    implemented_at = if status == implemented then now else zero_time;
  }

  unfoldable pub record_summary : Ledger Content → LedgerSummary
  record_summary l = record {
    ledger_id = l.ledger_id;
    status = l.status;
    hash = l.hash;
    recorded_at = l.recorded_at;
  }

  -- recordLedger
  unfoldable pub record_ledger :
      Document → String → String → String → State → Result String (LedgerSummary × State)
  unfolding new_ledger record_summary
  record_ledger doc status target run_id st =
      let (now, st₁) = s.now st in
      s.new_id st₁ >>= λ (ledger_id, st₂). s.new_id st₂ >>= λ (evidence_id, st₃).
      let l = new_ledger doc status target run_id now ledger_id evidence_id in
      s.store_ledger l st₃ >>= λ st₄. ok (record_summary l, st₄)
