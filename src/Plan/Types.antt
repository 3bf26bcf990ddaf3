-- ===== src/Plan/Types.antt =====
-- internal/plan/types.go, and the diagnostics of internal/plan.
--
-- The content of evidence is a value of a type that stands for `map[string]any`; no function of
-- the package looks into it.
use bachkator.Base.{String, List, Option, some, none}
use bachkator.State.Time.{Time}
use bachkator.State.Tables.{Meta}
use Prim.Native.String.{◌++◌}

pub record Document : Type 0 where
  pub path : String
  pub id : String
  pub title : String
  pub description : String
  pub depends_on : List String
  pub agent_template : String
  pub policy : String
  pub required_targets : List String
  pub labels : List String
  pub metadata : Meta
  pub hash : String

pub record Diagnostic : Type 0 where
  pub severity : String
  pub file : String
  pub message : String
  pub code : String

pub record Evidence (Content : Type 0) : Type 0 where
  pub id : String
  pub kind : String
  pub hash : String
  pub content : Content
  pub metadata : Meta

pub record Ledger (Content : Type 0) : Type 0 where
  pub schema_version : String
  pub ledger_id : String
  pub plan_id : String
  pub status : String
  pub hash : String
  pub run_id : String
  pub commit : String
  pub recorded_at : Time
  pub evidence : List (Evidence Content)
  pub implemented_at : Time

pub record LedgerSummary : Type 0 where
  pub ledger_id : String
  pub status : String
  pub hash : String
  pub recorded_at : Time

pub record StatusRecord : Type 0 where
  pub document : Document
  pub status : String
  pub diagnostics : List Diagnostic
  pub ledger : Option LedgerSummary

pub record Selection : Type 0 where
  pub documents : List Document
  pub waves : List (List String)
  pub diagnostics : List Diagnostic

-- diag; filepath.ToSlash changes nothing where paths have slashes.
unfoldable pub diag : String → String → String → Diagnostic
diag path code message = record { severity = "error"; file = path; message = message; code = code }

-- The diagnostics of BuildSelection and waves.
unfoldable pub duplicate_id : Document → Document → Diagnostic
unfolding diag
duplicate_id doc existing =
    diag doc.path "duplicate-plan-id"
      ("duplicate Plan ID " ++ doc.id ++ " also used by " ++ existing.path)

unfoldable pub missing_dependency : Document → String → Diagnostic
unfolding diag
missing_dependency doc dep =
    diag doc.path "missing-plan-dependency"
      ("Plan dependency " ++ dep ++ " is not in the selected Plan set")

-- The path is that of byID[id], which is empty where there is no such document.
unfoldable pub cycle_includes : Option Document → String → Diagnostic
unfolding diag
cycle_includes doc id =
    diag (elim doc [ some d ↦ d.path | none ↦ "" ]) "plan-dependency-cycle"
      ("Plan dependency cycle includes " ++ id)
