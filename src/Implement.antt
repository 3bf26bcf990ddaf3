-- ===== src/Implement.antt =====
-- internal/planexecute/execute.go: Implement; the checks of materializeProject of materialize.go.
--
-- The backend's clients, the runner, the clock and id.New are the fields of Service, on a state of
-- which nothing is known; a call that fails leaves the state as it was. The status of the plan,
-- which Implement asks of internal/planstatus, is an argument. The project that materializeProject
-- makes is passed to the runner only, so the runner takes the document and the names instead.
pub mod Types
pub mod Checks
pub mod Ledgers
pub mod Local
pub mod Guards
pub mod Records
mod Tests
use bachkator.Base.{
  ℕ, String, Bool, true, false, ◌&&◌, not, Option, none, some, List, [], ◌∷◌, ◌++◌, ◌==◌,
  if◌then◌else◌, exists, map, eqb, select, Result, ok, err, ◌>>=◌,
}
use bachkator.State.Time.{Time, zero_time}
use bachkator.State.Tables.{Meta}
use bachkator.Plan.Types.{Document, Diagnostic, Ledger, Evidence, LedgerSummary, StatusRecord, diag}
use bachkator.Plan.Ledgers.{pending, in_progress, implemented, failed, ledger_schema_version}
use text.Mathlib.Text.{starts_with}
use Prim.Native.String.{◌++◌ as ◌+++◌, ◌∷◌ as ◌∷ˢ◌, [] as []ˢ}
use Prim.Native.Char.{code}
use bachkator.Plan.Status.{zero_document}
use Prim.Native.String.{len, slice}
use bachkator.Implement.Types.{
  MaterializeError, ExecError, ExecOptions, ImplementResult, StatusResult, Service, Ended, skipped,
  not_one_plan, invalid_plan, missing_template, no_run_evidence, status_error, backend_error,
  run_error, materialize_error, unknown_template, wrong_mode, target_conflict, unknown_policy,
}
use bachkator.Implement.Checks.{
  generated_target_name, trim_prefix, canonical_ref, has_error_diagnostics, filter_external,
  dependency_diagnostics, external_diagnostics, all_diagnostics, with_mode, materialize_project,
  error_text, first_run, latest_run_id,
}
use bachkator.Implement.Ledgers.{dashed, ledger_metadata, new_ledger, record_summary, record_ledger}

abbrev pub add_written : ImplementResult → LedgerSummary → ImplementResult
add_written r l = record r { written = r.written ++ l ∷ [] }

abbrev pub run_id_of : Result ExecError String → String
run_id_of (ok id) = id
run_id_of (err e) = ""

abbrev pub run_error_of : Option String → Option ExecError
run_error_of (some e) = some (run_error e)
run_error_of none = none

abbrev pub zero_result : ImplementResult
zero_result = record {
  plan = zero_document;
  result = "";
  target = "";
  template = "";
  run_id = "";
  ledger = none;
  written = [];
  diagnostics = [];
}

abbrev pub first_result : StatusRecord → List Diagnostic → ImplementResult
first_result found ds = record zero_result {
  plan = found.document;
  target = generated_target_name found.document;
  ledger = found.ledger;
  diagnostics = ds;
}

module _ {State Content : Type 0} (s : Service State Content) where
  -- Implement after RunTargets and latestRunID: the terminal ledger.
  unfoldable pub with_terminal :
      ImplementResult
      → Option ExecError
      → State
      → Result String (LedgerSummary × State)
      → Ended State
  with_terminal r run_err st (err e) = record {
    result = r;
    error = some (backend_error e);
    state = st;
  }
  with_terminal r run_err st (ok (l, st')) = record {
    result = record (add_written r l) { ledger = some l };
    error = run_err;
    state = st';
  }

  unfoldable pub after_run :
      Document
      → String
      → ImplementResult
      → Option String
      → Result ExecError String
      → State
      → Ended State
  unfolding with_terminal record_ledger
  after_run doc target r (some e) found st =
      let id = run_id_of found in
      with_terminal (record r { run_id = id; result = failed }) (some (run_error e)) st
        (record_ledger s doc failed target id st)
  after_run doc target r none (err e) st = record {
    result = record r { run_id = ""; result = implemented };
    error = some e;
    state = st;
  }
  after_run doc target r none (ok id) st =
      with_terminal (record r { run_id = id; result = implemented }) none st
        (record_ledger s doc implemented target id st)

  -- The ledgers before the run, and the run.
  unfoldable pub with_in_progress :
      Document
      → String
      → String
      → ImplementResult
      → State
      → Result String (LedgerSummary × State)
      → Ended State
  unfolding after_run latest_run_id
  with_in_progress doc target template r st (err e) = record {
    result = r;
    error = some (backend_error e);
    state = st;
  }
  with_in_progress doc target template r st (ok (l, st₁)) =
      let ran = s.run_targets doc target template false st₁ in
      after_run doc target (add_written r l) ran.0 (latest_run_id s target ran.1) ran.1

  unfoldable pub with_pending :
      Document
      → String
      → String
      → ImplementResult
      → State
      → Result String (LedgerSummary × State)
      → Ended State
  unfolding with_in_progress
  with_pending doc target template r st (err e) = record {
    result = r;
    error = some (backend_error e);
    state = st;
  }
  with_pending doc target template r st (ok (l, st₁)) =
      with_in_progress doc target template (add_written r l) st₁
        (record_ledger s doc in_progress target "" st₁)

  unfoldable pub execute :
      ExecOptions → Document → String → String → ImplementResult → State → Ended State
  unfolding with_pending
  execute opts doc target template r st =
      if opts.dry_run
      then (let ran = s.run_targets doc target template true st in
          record { result = r; error = run_error_of ran.0; state = ran.1 })
      else with_pending doc target template r st (record_ledger s doc pending target "" st)

  -- Implement after materializeProject.
  unfoldable pub with_project :
      ExecOptions
      → Document
      → ImplementResult
      → State
      → Result MaterializeError (String × String)
      → Ended State
  unfolding execute error_text
  with_project opts doc r st (err e) = record {
    result = record r {
      diagnostics = r.diagnostics ++ diag doc.path "generated-target-error" (error_text s e) ∷ [];
    };
    error = some (materialize_error e);
    state = st;
  }
  with_project opts doc r st (ok (target, template)) =
      execute opts doc target template (record r { target = target; template = template }) st

  -- The choice of the template.
  unfoldable pub with_template : ExecOptions → Document → ImplementResult → State → Ended State
  unfolding with_project materialize_project
  with_template opts doc r st =
      let chosen = record doc { agent_template = opts.template } in
      if not (opts.template == "")
      then with_project opts chosen (record r { plan = chosen }) st (materialize_project s chosen)
      else if doc.agent_template == ""
      then record {
        result = record r {
          diagnostics =
              r.diagnostics
              ++ diag doc.path "missing-agent-template"
                  "Plan execution requires agent_template metadata"
                ∷ [];
        };
        error = some missing_template;
        state = st;
      }
      else with_project opts doc r st (materialize_project s doc)

  -- The tests before it.
  unfoldable pub checked : ExecOptions → StatusRecord → ImplementResult → State → Ended State
  unfolding with_template has_error_diagnostics
  checked opts found r st =
      if has_error_diagnostics r.diagnostics
      then record { result = r; error = some invalid_plan; state = st }
      else if (found.status == implemented) && not opts.force
      then record { result = record r { result = skipped }; error = none; state = st }
      else with_template opts found.document r st

  unfoldable pub with_diagnostics :
      ExecOptions
      → StatusRecord
      → List Diagnostic
      → State
      → Result String (List Diagnostic)
      → Ended State
  unfolding checked
  with_diagnostics opts found ds st (err e) = record {
    result = first_result found (filter_external ds found.document);
    error = some (backend_error e);
    state = st;
  }
  with_diagnostics opts found ds st (ok all) = checked opts found (first_result found all) st

  unfoldable pub with_records :
      ExecOptions → List StatusRecord → List Diagnostic → State → Ended State
  unfolding with_diagnostics all_diagnostics
  with_records opts (found ∷ []) ds st =
      with_diagnostics opts found ds st
        (all_diagnostics s found.document found.document.depends_on ds st)
  with_records opts other ds st = record {
    result = zero_result;
    error = some not_one_plan;
    state = st;
  }

  -- Implement
  unfoldable pub implement : ExecOptions → Result String StatusResult → State → Ended State
  unfolding with_records
  implement opts (err e) st = record {
    result = zero_result;
    error = some (status_error e);
    state = st;
  }
  implement opts (ok status) st = with_records opts status.records status.diagnostics st
