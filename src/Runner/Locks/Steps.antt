-- ===== src/Runner/Locks/Steps.antt =====
-- The nodes of an execution graph run by internal/runner/scheduler.go: runExecutionNode between its
-- calls of the session, as a step relation.
--
-- dag.Walk reserves a node that does not run, and runs it. What a target does between the calls
-- does not show here. A scope starts once, and its end runs after its start, by the edges of the
-- graph; the steps have these two as premises.
use bachkator.Base.{String, Bool, true, false, none, some, ◌≡◌, ◌==◌, if◌then◌else◌}
use bachkator.Runner.Nodes.{
  Target, ExecutionGraph, is_barrier, scope_start_target, scope_end_target,
}
use bachkator.Runner.Locks.{
  Session, is_in, try_reserve_execution_node, release_execution_node, forget_reservation,
  start_scope, finish_scope, new_session,
}

pub record Run : Type 0 where
  pub session : Session
  pub running : String → Bool

abbrev pub set_running : String → Bool → (String → Bool) → String → Bool
set_running name b running x = if name == x then b else running x

abbrev pub after_end : String → Session → Run → Run
after_end name s r = record { session = s; running = set_running name false r.running }

pub data NodeStep (g : ExecutionGraph) (r : Run) : Run → Type 0 where
  reserve :
      (name : String) {s : Session}
      → r.running name ≡ false
      → try_reserve_execution_node g r.session name ≡ some s
      → NodeStep g r (record { session = s; running = set_running name true r.running })
  -- The operation of the scope's target fails.
  start_fails :
      (name : String) {t : Target}
      → r.running name ≡ true
      → scope_start_target g name ≡ some t
      → NodeStep g r (after_end name (release_execution_node name r.session) r)
  scope_starts :
      (name : String) {t : Target}
      → r.running name ≡ true
      → scope_start_target g name ≡ some t
      → is_in t.name r.session.active ≡ false
      → NodeStep g r (after_end name (forget_reservation name (start_scope t r.session)) r)
  pass_barrier :
      (name : String)
      → r.running name ≡ true
      → scope_start_target g name ≡ none
      → is_barrier g name ≡ true
      → NodeStep g r (after_end name r.session r)
  end_scope :
      (name : String) {t : Target}
      → r.running name ≡ true
      → scope_start_target g name ≡ none
      → scope_end_target g name ≡ some t
      → is_in t.name r.session.active ≡ true
      → NodeStep g r (after_end name (finish_scope t r.session) r)
  end_target :
      (name : String)
      → r.running name ≡ true
      → scope_start_target g name ≡ none
      → is_barrier g name ≡ false
      → scope_end_target g name ≡ none
      → NodeStep g r (after_end name (release_execution_node name r.session) r)

abbrev pub idle : Run
idle = record { session = new_session; running = λ x. false }

pub data NodeRuns (g : ExecutionGraph) : Run → Type 0 where
  at_start : NodeRuns g idle
  then_ : {r r' : Run} → NodeRuns g r → NodeStep g r r' → NodeRuns g r'
