-- ===== src/Batch.antt =====
-- internal/planbatch/execute.go: the state of a batch and its operations.
--
-- The map `results` is a function, `externalStatus` too (a missing key reads as false);
-- `recordsByID` holds the last record with an id.
mod Messages
pub mod Runs
pub mod Filed
pub mod Reported
pub mod Cleared
pub mod Review
mod Tests
use bachkator.Base.{
  ℕ, zero, suc, String, Bool, true, false, ◌&&◌, ◌||◌, not, Option, none, some, List, [], ◌∷◌, ◌++◌,
  ◌==◌, if◌then◌else◌, exists, select, order_by, str_lt,
}
use bachkator.Plan.Types.{Document, Diagnostic, LedgerSummary, StatusRecord}
use bachkator.Plan.Ledgers.{implemented}
use bachkator.Plan.Status.{zero_document}
use bachkator.Batch.Messages.{not_implemented}

-- The constants of types.go that are states; `implemented` is that of internal/plan.
abbrev pub already_implemented : String
already_implemented = "already_implemented"

abbrev pub failed : String
failed = "failed"

abbrev pub blocked : String
blocked = "blocked"

abbrev pub skipped : String
skipped = "skipped"

pub record PlanResult : Type 0 where
  pub plan : Document
  pub state : String
  pub run_id : String
  pub target : String
  pub ledger : Option LedgerSummary
  pub reason : String
  pub diagnostics : List Diagnostic

-- The fields of planexecute.Result that a batch reads.
pub record ExecResult : Type 0 where
  pub result : String
  pub target : String
  pub run_id : String
  pub ledger : Option LedgerSummary
  pub diagnostics : List Diagnostic

pub record BatchState : Type 0 where
  pub force : Bool
  pub records : List StatusRecord
  pub waves : List (List String)
  pub results : String → Option PlanResult
  pub external : String → Bool

abbrev pub zero_record : StatusRecord
zero_record = record { document = zero_document; status = ""; diagnostics = []; ledger = none }

-- b.recordsByID[id]
unfoldable pub find_record : String → List StatusRecord → Option StatusRecord
find_record id [] = none
find_record id (r ∷ rs) = elim (find_record id rs) [
  | some found ↦ some found
  | none ↦ if r.document.id == id then some r else none
]

unfoldable pub record_of : String → List StatusRecord → StatusRecord
unfolding find_record
record_of id rs = elim (find_record id rs) [ some r ↦ r | none ↦ zero_record ]

-- b.results[id] = result
abbrev pub set_result : String → PlanResult → BatchState → BatchState
set_result id result b = record b { results = λ x. if id == x then some result else b.results x }

-- hasError
unfoldable pub has_error : List Diagnostic → Bool
has_error ds = exists (λ d. d.severity == "error") ds

-- dependencyImplemented
abbrev pub is_done : PlanResult → Bool
is_done r = (r.state == implemented) || (r.state == already_implemented)

unfoldable pub dependency_implemented : BatchState → String → Bool
dependency_implemented b dep = elim (b.results dep) [ some r ↦ is_done r | none ↦ b.external dep ]

unfoldable pub unlinked : StatusRecord → String → String → PlanResult
unlinked record_ state reason = record {
  plan = record_.document;
  state = state;
  run_id = "";
  target = "";
  ledger = none;
  reason = reason;
  diagnostics = [];
}

-- The loop of classify over the dependencies.
unfoldable pub first_missing : BatchState → List String → Option String
unfolding dependency_implemented
first_missing b [] = none
first_missing b (dep ∷ deps) =
    let rest = first_missing b deps in if dependency_implemented b dep then rest else some dep

unfoldable pub is_current : StatusRecord → Bool
is_current r = elim r.ledger [
  | some l ↦ (l.status == implemented) && (l.hash == r.document.hash)
  | none ↦ false
]

unfoldable pub block : StatusRecord → Option String → Option PlanResult
unfolding unlinked
block r (some dep) = some (unlinked r blocked (not_implemented dep))
block r none = none

-- classify: the result of a plan that is not run, or `none`.
unfoldable pub classify : BatchState → StatusRecord → Option PlanResult
unfolding has_error unlinked first_missing is_current block
classify b r =
    if has_error r.diagnostics
    then some
        (record (unlinked r failed "plan has validation errors") { diagnostics = r.diagnostics })
    else if is_current r && not b.force
    then some
        (record (unlinked r already_implemented "latest ledger is implemented and hash matches") {
          ledger = r.ledger;
        })
    else block r (first_missing b r.document.depends_on)

-- readyPlans: the plans to run, and the state with the results of the others.
unfoldable pub ready_plans : List String → BatchState → List StatusRecord × BatchState
unfolding find_record classify
ready_plans [] b = ([], b)
ready_plans (id ∷ wave) b = elim (find_record id b.records) [
  | none ↦ ready_plans wave b
  | some r ↦ elim (classify b r) [
    | some result ↦ ready_plans wave (set_result id result b)
    | none ↦ let rest = ready_plans wave b in (r ∷ rest.0, rest.1)
  ]
]

-- The switch of complete: the state and the reason.
unfoldable pub verdict : ExecResult → Option String → String × String
verdict exec (some error) = (failed, error)
verdict exec none =
    if exec.result == "skipped"
    then (already_implemented, "latest ledger is implemented and hash matches")
    else if exec.result == "failed"
    then (failed, "implementation run failed")
    else (implemented, "implementation run succeeded")

-- The result that complete builds.
unfoldable pub completed : String → ExecResult → Option String → BatchState → PlanResult
unfolding record_of verdict
completed id exec error b =
    let judged = verdict exec error in
    record {
      plan = (record_of id b.records).document;
      state = judged.0;
      run_id = exec.run_id;
      target = exec.target;
      ledger = exec.ledger;
      reason = judged.1;
      diagnostics = exec.diagnostics;
    }

-- complete
unfoldable pub complete : String → ExecResult → Option String → BatchState → BatchState
unfolding completed
complete id exec error b = set_result id (completed id exec error b) b

-- skip
unfoldable pub skip : String → String → BatchState → BatchState
unfolding record_of unlinked
skip id reason b = set_result id (unlinked (record_of id b.records) skipped reason) b

unfoldable pub skip_all : List StatusRecord → BatchState → BatchState
unfolding skip
skip_all [] b = b
skip_all (r ∷ rs) b = skip_all rs (skip r.document.id "batch stopped after earlier failure" b)

-- resultsInWave
abbrev pub has_result : BatchState → String → Bool
has_result b id = elim (b.results id) [ some r ↦ true | none ↦ false ]

unfoldable pub results_in_wave : BatchState → List String → List String
results_in_wave b wave = order_by str_lt (select (has_result b) wave)

abbrev pub has_failed : BatchState → String → Bool
has_failed b id = elim (b.results id) [ some r ↦ r.state == failed | none ↦ false ]

-- waveHadFailure, for the wave that its index names.
unfoldable pub wave_had_failure : BatchState → List String → Bool
unfolding results_in_wave
wave_had_failure b wave = exists (has_failed b) (results_in_wave b wave)

-- flushRemaining
unfoldable pub flush_wave : String → BatchState → List String → List PlanResult
unfolding record_of unlinked
flush_wave error b [] = []
flush_wave error b (id ∷ ids) =
    elim (b.results id) [ some r ↦ r | none ↦ unlinked (record_of id b.records) skipped error ]
    ∷ flush_wave error b ids

unfoldable pub flush_remaining : String → BatchState → List (List String) → List PlanResult
unfolding flush_wave
flush_remaining error b [] = []
flush_remaining error b (wave ∷ waves) = flush_wave error b wave ++ flush_remaining error b waves

-- sortedResults
unfoldable pub wave_results : BatchState → List String → List PlanResult
wave_results b [] = []
wave_results b (id ∷ ids) =
    let rest = wave_results b ids in elim (b.results id) [ some r ↦ r ∷ rest | none ↦ rest ]

unfoldable pub sorted_results : BatchState → List (List String) → List PlanResult
unfolding wave_results
sorted_results b [] = []
sorted_results b (wave ∷ waves) = wave_results b wave ++ sorted_results b waves

-- newBatchState
unfoldable pub new_batch_state :
    Bool → List StatusRecord → List (List String) → (String → Bool) → BatchState
new_batch_state force records waves external = record {
  force = force;
  records = records;
  waves = waves;
  results = λ x. none;
  external = external;
}

-- loadExternalLedgers, where `ledger_status` is the status of the ledger that the client returns.
unfoldable pub external_dep : List Document → (String → String) → List Document → String → Bool
external_dep docs ledger_status [] dep = false
external_dep docs ledger_status (d ∷ ds) dep =
    let rest = external_dep docs ledger_status ds dep in
    if exists (λ x. x == dep) d.depends_on && not (exists (λ x. x.id == dep) docs)
    then ledger_status dep == implemented
    else rest
