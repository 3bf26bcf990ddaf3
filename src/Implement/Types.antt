-- ===== src/Implement/Types.antt =====
-- The types of internal/planexecute/execute.go, and what Implement calls.
use bachkator.Base.{String, Bool, Option, List, Result}
use bachkator.State.Time.{Time}
use bachkator.Plan.Types.{Document, Diagnostic, Ledger, LedgerSummary, StatusRecord, Selection}

-- The errors of materializeProject, with the text between the quotes.
pub data MaterializeError : Type 0 where
  project_required : MaterializeError
  unknown_template wrong_mode target_conflict unknown_policy : String → MaterializeError

pub data ExecError : Type 0 where
  not_one_plan invalid_plan missing_template : ExecError
  no_run_evidence : String → ExecError
  status_error backend_error run_error : String → ExecError
  materialize_error : MaterializeError → ExecError

-- The fields of Options that Implement reads; the others are passed to the runner.
pub record ExecOptions : Type 0 where
  pub dry_run : Bool
  pub force : Bool
  pub template : String

-- planexecute.Result
pub record ImplementResult : Type 0 where
  pub plan : Document
  pub result : String
  pub target : String
  pub template : String
  pub run_id : String
  pub ledger : Option LedgerSummary
  pub written : List LedgerSummary
  pub diagnostics : List Diagnostic

-- planstatus.Result
pub record StatusResult : Type 0 where
  pub selection : Selection
  pub records : List StatusRecord
  pub diagnostics : List Diagnostic

pub record Service (State Content : Type 0) : Type 0 where
  -- project != nil
  pub has_project : Bool
  -- project.AgentTemplates, with the mode of each
  pub templates : String → Option String
  pub has_policy : String → Bool
  pub has_target : String → Bool
  pub get_ledger : String → State → Result String (Option (Ledger Content))
  pub store_ledger : Ledger Content → State → Result String State
  -- RunTargets, given whether the run is dry
  pub run_targets : Document → String → String → Bool → State → Option String × State
  -- The ids of the runs of a target, the latest first.
  pub list_runs : String → State → Result String (List String)
  pub now : State → Time × State
  pub new_id : State → Result String (String × State)
  pub no_content : Content
  -- %q
  pub quote : String → String

pub record Ended (State : Type 0) : Type 0 where
  pub result : ImplementResult
  pub error : Option ExecError
  pub state : State

abbrev pub skipped : String
skipped = "skipped"
