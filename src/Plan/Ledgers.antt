-- ===== src/Plan/Ledgers.antt =====
-- ValidateLedger of internal/plan/status.go, and the statuses of types.go.
pub mod Valid
use bachkator.Base.{String, Bool, true, false, ◌&&◌, ◌||◌, not, List, [], ◌∷◌, ◌==◌, if◌then◌else◌}
use bachkator.State.Time.{is_zero}
use bachkator.Plan.Types.{Document, Diagnostic, Ledger, Evidence, diag}
use Prim.Native.String.{◌++◌}
use text.Mathlib.Text.{starts_with}

-- The constants of types.go that are statuses.
abbrev pub ready : String
ready = "ready"

abbrev pub planned : String
planned = "planned"

abbrev pub blocked : String
blocked = "blocked"

abbrev pub pending : String
pending = "pending"

abbrev pub in_progress : String
in_progress = "in_progress"

abbrev pub implemented : String
implemented = "implemented"

abbrev pub failed : String
failed = "failed"

abbrev pub stale : String
stale = "stale"

abbrev pub invalid_ledger : String
invalid_ledger = "invalid_ledger"

abbrev pub ledger_schema_version : String
ledger_schema_version = "bach.plan_ledger.v1"

-- if test { diagnostics = append(diagnostics, …) }
abbrev pub report : Bool → Diagnostic → List Diagnostic → List Diagnostic
report test d rest = if test then d ∷ rest else rest

unfoldable pub supported : String → Bool
supported s = (s == pending) || (s == in_progress) || (s == implemented) || (s == failed)

-- The loop of ValidateLedger over the evidence.
unfoldable pub validate_evidence : {C : Type 0} → String → List (Evidence C) → List Diagnostic
validate_evidence path [] = []
validate_evidence path (e ∷ es) =
    report (e.id == "") (diag path "missing-evidence-id" "Plan evidence ID is empty") (
      report (e.kind == "") (diag path "missing-evidence-kind" "Plan evidence kind is empty")
        (validate_evidence path es))

-- ValidateLedger
unfoldable pub validate_ledger : {C : Type 0} → Document → Ledger C → List Diagnostic
unfolding supported validate_evidence
validate_ledger doc ledger =
    report (not (ledger.schema_version == ledger_schema_version))
      (diag doc.path "invalid-ledger-schema"
        ("Plan ledger schema must be " ++ ledger_schema_version))
      (report (ledger.ledger_id == "") (diag doc.path "missing-ledger-id" "Plan ledger ID is empty")
        (report (not (ledger.plan_id == doc.id))
          (diag doc.path "ledger-plan-mismatch" ("Plan ledger belongs to " ++ ledger.plan_id))
          (report (not (supported ledger.status))
            (diag doc.path "invalid-ledger-status" "Plan ledger status must be implemented")
            (report (not (starts_with ledger.hash "sha256:"))
              (diag doc.path "invalid-ledger-hash" "Plan ledger hash must start with sha256:")
              (report (is_zero ledger.recorded_at)
                (diag doc.path "invalid-ledger-recorded-at" "Plan ledger recorded_at is required")
                (validate_evidence doc.path ledger.evidence))))))
