-- ===== src/Batch/Tests.antt =====
-- A batch of two plans of internal/planbatch: b needs a.
use bachkator.Base.{
  ◌==◌, ◌&&◌, ◌||◌, not, String, true, false, none, some, List, [], ◌∷◌, ◌≡◌, refl, text_ne, map,
  All, here, there,
}
use bachkator.Plan.Types.{Document, StatusRecord}
use bachkator.Plan.Waves.Complete.{flat}
use bachkator.Plan.Ledgers
use bachkator.Plan.Status.{zero_document}
use bachkator.Batch.{
  BatchState, PlanResult, ExecResult, ready_plans, find_record, classify, dependency_implemented,
  complete, completed, new_batch_state, external_dep, sorted_results, wave_had_failure, unlinked,
  failed, blocked, already_implemented, skipped,
}
use bachkator.Batch.Runs.{first, finished, run_one, Execute, at_end, wave_done, stop_on_failure}
use bachkator.Batch.Filed.{Recorded}
use bachkator.Batch.Reported.{Execute-reports}
use bachkator.Batch.Cleared.Ordered.{Execute-dependencies}
use bachkator.Batch.Review.{review, has_any}
use bachkator.Batch.Review.Sorted.{items, review-sorts}

abbrev doc_a : Document
doc_a = record zero_document { id = "a" }

abbrev doc_b : Document
doc_b = record zero_document { id = "b"; depends_on = "a" ∷ [] }

abbrev record_a : StatusRecord
record_a = record { document = doc_a; status = "ready"; diagnostics = []; ledger = none }

abbrev record_b : StatusRecord
record_b = record { document = doc_b; status = "planned"; diagnostics = []; ledger = none }

abbrev records : List StatusRecord
records = record_a ∷ record_b ∷ []

abbrev waves : List (List String)
waves = ("a" ∷ []) ∷ ("b" ∷ []) ∷ []

abbrev at_start : BatchState
at_start =
    new_batch_state false records waves
      (external_dep (doc_a ∷ doc_b ∷ []) (λ x. "") (doc_a ∷ doc_b ∷ []))

abbrev succeeds : ExecResult
succeeds = record {
  result = "implemented";
  target = "t";
  run_id = "1";
  ledger = none;
  diagnostics = [];
}

abbrev after_a : BatchState
after_a = complete "a" succeeds none (ready_plans ("a" ∷ []) at_start).1

abbrev after_b : BatchState
after_b = complete "b" succeeds none (ready_plans ("b" ∷ []) after_a).1

batch_run : Execute stop_on_failure waves false at_start after_b (sorted_results after_b waves) none
unfolding ready_plans find_record classify complete new_batch_state wave_had_failure external_dep
batch_run =
    wave_done (run_one first succeeds none finished)
      (wave_done (run_one first succeeds none finished) at_end)

known-records : All (All (Recorded records)) waves
unfolding find_record
known-records = (((record_a, refl), tt), (((record_b, refl), tt), tt))

Execute-reports_example :
    map (λ (r : PlanResult). r.plan.id) (sorted_results after_b waves) ≡ flat waves
Execute-reports_example =
    Execute-reports false records waves
      (external_dep (doc_a ∷ doc_b ∷ []) (λ x. "") (doc_a ∷ doc_b ∷ [])) known-records batch_run

abbrev result_b : PlanResult
result_b = completed "b" succeeds none (ready_plans ("b" ∷ []) after_a).1

result-after_b : after_b.results "b" ≡ some result_b
unfolding complete
result-after_b = refl

is-implemented : result_b.state ≡ Ledgers.implemented
unfolding completed
is-implemented = refl

Execute-dependencies_example :
    All (λ dep. dependency_implemented after_b dep ≡ true) result_b.plan.depends_on
Execute-dependencies_example =
    Execute-dependencies false (doc_a ∷ doc_b ∷ []) records waves (λ x. "") (here, (there here, tt))
      ((text_ne "a" "b" refl, tt), (tt, tt)) batch_run "b" result_b result-after_b is-implemented

-- A failed plan.
abbrev failed_a : PlanResult
failed_a = unlinked record_a failed "implementation run failed"

review-sorts_example : review (failed_a ∷ []) ≡ record {
  implemented_ones =
      items (λ r. (r.state == Ledgers.implemented) && not (has_any r.diagnostics)) (failed_a ∷ []);
  needs_review_ones =
      items (λ r. (r.state == Ledgers.implemented) && has_any r.diagnostics) (failed_a ∷ []);
  failed_ones = items (λ r. r.state == failed) (failed_a ∷ []);
  blocked_ones = items (λ r. r.state == blocked) (failed_a ∷ []);
  skipped_ones =
      items (λ r. (r.state == already_implemented) || (r.state == skipped)) (failed_a ∷ []);
}
unfolding unlinked
review-sorts_example = review-sorts (failed_a ∷ []) (refl, tt)
