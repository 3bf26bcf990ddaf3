-- ===== src/PlanStatus/Tests.antt =====
-- Status of internal/planstatus/status.go on two files.
use bachkator.Base.{
  String, false, none, some, List, [], ◌∷◌, ◌==◌, ◌≡◌, refl, All, Result, ok, err, Option,
}
use bachkator.Plan.Types.{
  Document, Ledger, StatusRecord, diag, missing_dependency, cycle_includes, duplicate_id,
}
use bachkator.Plan.Waves.{
  build_selection, waves, remaining_deps, dependents, dependents_in, selected_deps, selected, index,
  missing, missing_deps, find_doc, holds, add, put, remove, waits_for, release_one, release_all,
  process, run_wave, run_waves, first_wave, cycle_diagnostics,
}
use bachkator.Plan.Status.{derive_statuses}
use bachkator.Implement.Types.{StatusResult}
use bachkator.Implement.Checks.{canonical_ref, has_error_diagnostics}
use bachkator.PlanStatus.{Loaded, loaded, stopped, context_done, Project, status}
use bachkator.PlanStatus.Clean.{IsClean, status-IsClean}

abbrev project : Project
project = record {
  knows_template = λ t. t == "agent_template/coder";
  knows_policy = λ p. false;
  knows_target = λ t. false;
}

abbrev doc : String → List String → Document
doc id deps = record {
  path = "plans/a.md";
  id = id;
  title = "";
  description = "";
  depends_on = deps;
  agent_template = "agent_template.coder";
  policy = "";
  required_targets = [];
  labels = [];
  metadata = [];
  hash = "sha256:1";
}

abbrev no_ledger : String → Result String (Option (Ledger String))
no_ledger id = ok none

abbrev loads : List Loaded
loads = loaded (doc "b" ("a" ∷ [])) [] ∷ loaded (doc "a" []) [] ∷ []

abbrev planned_of : Document → String → StatusRecord
planned_of d state = record { document = d; status = state; diagnostics = []; ledger = none }

abbrev result : StatusResult
result = record {
  selection = record {
    documents = doc "b" ("a" ∷ []) ∷ doc "a" [] ∷ [];
    waves = ("a" ∷ []) ∷ ("b" ∷ []) ∷ [];
    diagnostics = [];
  };
  records = planned_of (doc "a" []) "ready" ∷ planned_of (doc "b" ("a" ∷ [])) "planned" ∷ [];
  diagnostics = [];
}

status_of_loads : status no_ledger (some project) loads ≡ some (ok result)
unfolding status build_selection waves remaining_deps dependents dependents_in selected_deps
    selected index missing missing_deps find_doc holds add put remove waits_for release_one
    release_all process run_wave run_waves first_wave cycle_diagnostics missing_dependency
    cycle_includes duplicate_id diag derive_statuses canonical_ref
status_of_loads = refl

stopped_status : status no_ledger (some project) (stopped ∷ []) ≡ some (err context_done)
unfolding status
stopped_status = refl

status-IsClean_example : All (IsClean project) loads
unfolding has_error_diagnostics
status-IsClean_example = status-IsClean no_ledger project loads result status_of_loads refl
