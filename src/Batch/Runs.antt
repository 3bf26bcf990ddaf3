-- ===== src/Batch/Runs.antt =====
-- Execute, executeWave and runOne of internal/planbatch/execute.go as relations.
--
-- The workers of a wave take its plans from a channel and run them in parallel; a run ends with
-- `complete`, under the lock. So a wave is any order of these ends, each with any result of
-- Implement, which is a field of the service. A worker that finds the context done drops the plan
-- that it took, and what no worker takes any more is dropped too.
use bachkator.Base.{String, Bool, true, false, ◌&&◌, Option, none, some, List, [], ◌∷◌, ◌==◌}
use bachkator.Plan.Types.{StatusRecord}
use bachkator.Batch.{
  BatchState, PlanResult, ExecResult, ready_plans, complete, skip_all, wave_had_failure,
  flush_remaining, sorted_results,
}

-- One element, and the others.
pub data Taken {A : Type 0} (x : A) : List A → List A → Type 0 where
  first : {xs : List A} → Taken x (x ∷ xs) xs
  later : {y : A} {xs rest : List A} → Taken x xs rest → Taken x (y ∷ xs) (y ∷ rest)

-- executeWave: the plans to run, the states before and after, and whether the context was done.
pub data WaveRun : List StatusRecord → BatchState → BatchState → Bool → Type 0 where
  finished : {b : BatchState} → WaveRun [] b b false
  run_one :
      {r : StatusRecord} {work rest : List StatusRecord} {b b' : BatchState} {cancelled : Bool}
      → Taken r work rest
      → (exec : ExecResult) (error : Option String)
      → WaveRun rest (complete r.document.id exec error b) b' cancelled
      → WaveRun work b b' cancelled
  drop :
      {r : StatusRecord} {work rest : List StatusRecord} {b b' : BatchState} {cancelled : Bool}
      → Taken r work rest
      → WaveRun rest b b' cancelled
      → WaveRun work b b' true

abbrev pub stop_on_failure : String
stop_on_failure = "failure"

-- The loop of Execute: the waves left, whether the batch has stopped, the state; the state at the
-- end, the plans of the result and the error.
pub data Execute (stop_on : String)
    : List (List String)
      → Bool
      → BatchState
      → BatchState
      → List PlanResult
      → Option String
      → Type 0 where
  at_end :
      {stopped : Bool} {b : BatchState}
      → Execute stop_on [] stopped b b (sorted_results b b.waves) none
  done_before :
      {wave : List String} {waves : List (List String)} {stopped : Bool} {b : BatchState}
      → (error : String)
      → Execute stop_on (wave ∷ waves) stopped b b (flush_remaining error b b.waves) (some error)
  skipped_wave :
      {wave : List String} {waves : List (List String)} {b b' : BatchState}
      {plans : List PlanResult} {error : Option String}
      → Execute stop_on waves true
          (skip_all (ready_plans wave b).0 (ready_plans wave b).1)
          b'
          plans
          error
      → Execute stop_on (wave ∷ waves) true b b' plans error
  wave_done :
      {wave : List String} {waves : List (List String)} {b b₁ b' : BatchState}
      {plans : List PlanResult} {error : Option String}
      → WaveRun (ready_plans wave b).0 (ready_plans wave b).1 b₁ false
      → Execute stop_on waves
          ((stop_on == stop_on_failure) && wave_had_failure b₁ wave)
          b₁
          b'
          plans
          error
      → Execute stop_on (wave ∷ waves) false b b' plans error
  wave_cancelled :
      {wave : List String} {waves : List (List String)} {b b₁ : BatchState}
      → (error : String) → WaveRun (ready_plans wave b).0 (ready_plans wave b).1 b₁ true
      → Execute stop_on (wave ∷ waves) false b b₁ (flush_remaining error b₁ b₁.waves) (some error)
