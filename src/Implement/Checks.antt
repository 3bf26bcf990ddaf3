-- ===== src/Implement/Checks.antt =====
-- internal/planexecute/execute.go: the diagnostics of dependencies and latestRunID;
-- internal/planexecute/materialize.go: the checks of materializeProject.
use bachkator.Base.{
  String, Bool, ◌&&◌, not, Option, none, some, List, [], ◌∷◌, ◌++◌, ◌==◌, if◌then◌else◌, exists,
  select, Result, ok, err, ◌>>=◌,
}
use bachkator.Plan.Types.{Document, Diagnostic, Ledger, diag}
use bachkator.Plan.Ledgers.{implemented}
use text.Mathlib.Text.{starts_with}
use Prim.Native.String.{◌++◌ as ◌+++◌}
use Prim.Native.String.{len, slice}
use bachkator.Implement.Types.{
  MaterializeError, ExecError, Service, no_run_evidence, backend_error, project_required,
  unknown_template, wrong_mode, target_conflict, unknown_policy,
}

-- generatedTargetName
unfoldable pub generated_target_name : Document → String
generated_target_name doc = "agent/plan." +++ doc.id

-- strings.TrimPrefix
abbrev pub trim_prefix : String → String → String
trim_prefix value prefix =
    if starts_with value prefix then slice value (len prefix) (len value) else value

-- canonicalRef
unfoldable pub canonical_ref : String → String → String
canonical_ref value prefix =
    if starts_with value (prefix +++ "/")
    then value
    else prefix +++ "/" +++ trim_prefix value (prefix +++ ".")

-- hasErrorDiagnostics
unfoldable pub has_error_diagnostics : List Diagnostic → Bool
has_error_diagnostics ds = exists (λ d. d.severity == "error") ds

-- filterExternalDependencyDiagnostics
unfoldable pub filter_external : List Diagnostic → Document → List Diagnostic
filter_external ds doc =
    select (λ d. not ((d.file == doc.path) && (d.code == "missing-plan-dependency"))) ds

-- The body of the loop of externalDependencyDiagnostics.
unfoldable pub dependency_diagnostics :
    {C : Type 0} → Document → String → Option (Ledger C) → List Diagnostic
dependency_diagnostics doc dep none =
    diag doc.path "missing-dependency-ledger"
      ("Plan dependency " +++ dep +++ " has no Backend ledger")
    ∷ []
dependency_diagnostics doc dep (some ledger) =
    if ledger.status == implemented
    then []
    else diag doc.path "dependency-not-implemented"
        ("Plan dependency " +++ dep +++ " is " +++ ledger.status)
      ∷ []

module _ {State Content : Type 0} (s : Service State Content) where
  -- externalDependencyDiagnostics
  unfoldable pub external_diagnostics :
      Document → List String → State → Result String (List Diagnostic)
  unfolding dependency_diagnostics
  external_diagnostics doc [] st = ok []
  external_diagnostics doc (dep ∷ deps) st = s.get_ledger dep st >>= λ found.
      external_diagnostics doc deps st >>= λ rest. ok (dependency_diagnostics doc dep found ++ rest)

  -- The diagnostics of Implement before the test for errors.
  unfoldable pub all_diagnostics :
      Document → List String → List Diagnostic → State → Result String (List Diagnostic)
  unfolding external_diagnostics filter_external
  all_diagnostics doc [] ds st = ok ds
  all_diagnostics doc (dep ∷ deps) ds st =
      external_diagnostics doc (dep ∷ deps) st >>= λ rest. ok (filter_external ds doc ++ rest)

  -- materializeProject: the names of the target and of the template.
  unfoldable pub with_mode : Document → Option String → Result MaterializeError (String × String)
  unfolding canonical_ref generated_target_name
  with_mode doc none = err (unknown_template doc.agent_template)
  with_mode doc (some mode) =
      if not (mode == "") && not (mode == "implement")
      then err (wrong_mode doc.agent_template)
      else if s.has_target (generated_target_name doc)
      then err (target_conflict (generated_target_name doc))
      else if not (doc.policy == "") && not (s.has_policy (canonical_ref doc.policy "policy"))
      then err (unknown_policy doc.policy)
      else ok (generated_target_name doc, canonical_ref doc.agent_template "agent_template")

  unfoldable pub materialize_project : Document → Result MaterializeError (String × String)
  unfolding with_mode canonical_ref
  materialize_project doc =
      if s.has_project
      then with_mode doc (s.templates (canonical_ref doc.agent_template "agent_template"))
      else err project_required

  unfoldable pub error_text : MaterializeError → String
  error_text project_required = "project is required"
  error_text (unknown_template t) = "unknown agent template " +++ (s.quote t)
  error_text (wrong_mode t) = "agent template " +++ (s.quote t) +++ " must be implement mode"
  error_text (target_conflict t) =
      "generated target " +++ (s.quote t) +++ " conflicts with an existing target"
  error_text (unknown_policy p) = "unknown policy " +++ (s.quote p)

  -- latestRunID
  unfoldable pub first_run : String → List String → Result ExecError String
  first_run target [] = err (no_run_evidence target)
  first_run target (id ∷ ids) = ok id

  unfoldable pub latest_run_id : String → State → Result ExecError String
  unfolding first_run
  latest_run_id target st = elim (s.list_runs target st) [
    | ok ids ↦ first_run target ids
    | err e ↦ err (backend_error e)
  ]
