-- ===== src/Runner/Tests.antt =====
-- Runs of internal/runner: a scope p with the lock L, and a target q with the same lock.
use bachkator.Base.{
  String, true, Option, none, some, [], ◌∷◌, ◌==◌, ◌≡◌, ◌≢◌, refl, text_ne, if◌then◌else◌,
  Bool-cases, inl, inr, subst,
}
use mathlib.Core.Option.{some-injective, none-ne-some}
use bachkator.Runner.Nodes.{
  Target, ExecNode, NodeKind, target, scope_start, ExecutionGraph, is_barrier, scope_start_target,
  scope_end_target,
}
use bachkator.Runner.Locks.{
  Session, try_reserve_execution_node, try_reserve_lock, try_acquire, note_reservation,
  lock_held_by_active_scope, has_lock, reserve_for, release_lock, forget_reservation, start_scope,
  finish_scope,
}
use bachkator.Runner.Locks.Owners.{scope, owned}
use bachkator.Runner.Locks.Reserves.{IsPlanned}
use bachkator.Runner.Locks.Steps.{
  Run, after_end, set_running, reserve, scope_starts, end_scope, idle, NodeRuns, at_start, then_,
}
use bachkator.Runner.Locks.Exclusive.{NodeRuns-alone}

abbrev p : Target
p = record { name = "p"; lock = "L" }

abbrev i : Target
i = record { name = "i"; lock = "L" }

abbrev q : Target
q = record { name = "q"; lock = "L" }

abbrev plan : String → Option Target
plan x = if x == "p" then some p else if x == "i" then some i else if x == "q" then some q else none

abbrev exec_node : String → NodeKind → Target → Option ExecNode
exec_node id kind t = some (record { id = id; kind = kind; node_target = some t; depth = 1 })

abbrev nodes : String → Option ExecNode
nodes x =
    if x == "start p"
    then exec_node x scope_start p
    else if x == "start i"
    then exec_node x scope_start i
    else if x == "i"
    then exec_node x target i
    else if x == "p"
    then exec_node x target p
    else if x == "q"
    then exec_node x target q
    else none

-- The scope i is a step of the pipeline p, and both have the lock.
abbrev nested : ExecutionGraph
nested = record {
  nodes = nodes;
  targets = plan;
  members = λ x. if x == "start i" then record { name = "p"; depth = 1 } ∷ [] else [];
  scopes = λ x. (if x == "p" then true else x == "i");
  plan = plan;
}

-- The states of a run: p starts, i starts in it, and i after_end.
abbrev s₁ : Session
s₁ = record {
  held = "L" ∷ [];
  reserved_lock = λ x. if "start p" == x then "L" else "";
  active = [];
}

abbrev after_reserve : String → Session → Run → Run
after_reserve name s r = record { session = s; running = set_running name true r.running }

abbrev reserved_p : Run
reserved_p = after_reserve "start p" s₁ idle

abbrev started_p : Run
started_p = after_end "start p" (forget_reservation "start p" (start_scope p s₁)) reserved_p

abbrev reserved_i : Run
reserved_i = after_reserve "start i" started_p.session started_p

abbrev started_i : Run
started_i =
    after_end "start i" (forget_reservation "start i" (start_scope i reserved_i.session)) reserved_i

abbrev running_i : Run
running_i = after_reserve "i" started_i.session started_i

abbrev ended_i : Run
ended_i = after_end "i" (finish_scope i running_i.session) running_i

nested_run : NodeRuns nested ended_i
unfolding is_barrier scope_start_target scope_end_target try_reserve_execution_node try_reserve_lock
    try_acquire note_reservation lock_held_by_active_scope has_lock reserve_for release_lock
    forget_reservation start_scope finish_scope
nested_run =
    then_
      (then_
        (then_
          (then_
            (then_ (then_ at_start (reserve "start p" refl refl))
              (scope_starts "start p" refl refl refl))
            (reserve "start i" refl refl))
          (scope_starts "start i" refl refl refl))
        (reserve "i" refl refl))
      (end_scope "i" refl refl refl refl)

-- The end of i releases the lock, though p is active: q reserves it then.
nested_releases : (owned nested ended_i.session (scope "p") ≡ "L") × (ended_i.session.held ≡ [])
unfolding release_lock forget_reservation start_scope finish_scope
nested_releases = (refl, refl)

-- Without i: a scope p, and q outside it.
abbrev single_nodes : String → Option ExecNode
single_nodes x =
    if x == "start p"
    then exec_node x scope_start p
    else if x == "p"
    then exec_node x target p
    else none

abbrev single : ExecutionGraph
single = record {
  nodes = single_nodes;
  targets = plan;
  members = λ x. [];
  scopes = λ x. x == "p";
  plan = plan;
}

single-starts :
    (name : String) (t : Target)
    → scope_start_target single name ≡ some t
    → single.plan t.name ≡ some t
unfolding scope_start_target
single-starts name t e = elim (Bool-cases (name == "start p")) [
  | inl is ↦
      subst (λ (z : Target). plan z.name ≡ some z)
        (some-injective _ _ (rw (scope_start_target, is) at e)) refl
  | inr ne ↦ elim (Bool-cases (name == "p")) [
    | inl is ↦ absurd (none-ne-some t (rw (scope_start_target, ne, is) at e))
    | inr ne' ↦ absurd (none-ne-some t (rw (scope_start_target, ne, ne') at e))
  ]
]

single-after_end :
    (name : String) (t : Target)
    → scope_end_target single name ≡ some t
    → single.plan t.name ≡ some t
unfolding scope_end_target
single-after_end name t e = elim (Bool-cases (name == "start p")) [
  | inl is ↦ absurd (none-ne-some t (rw (scope_end_target, is) at e))
  | inr ne ↦ elim (Bool-cases (name == "p")) [
    | inl is ↦
        subst (λ (z : Target). plan z.name ≡ some z)
          (some-injective _ _ (rw (scope_end_target, ne, is, is) at e)) refl
    | inr ne' ↦ absurd (none-ne-some t (rw (scope_end_target, ne, ne') at e))
  ]
]

single-IsPlanned : IsPlanned single
single-IsPlanned = record {
  starts = single-starts;
  scope_ends = single-after_end;
  apart = λ name t e. tt;
}

single_run : NodeRuns single started_p
unfolding is_barrier scope_start_target scope_end_target try_reserve_execution_node try_reserve_lock
    try_acquire note_reservation lock_held_by_active_scope has_lock reserve_for release_lock
    forget_reservation start_scope finish_scope
single_run =
    then_ (then_ at_start (reserve "start p" refl refl)) (scope_starts "start p" refl refl refl)

p-owned : owned single started_p.session (scope "p") ≢ ""
unfolding start_scope forget_reservation
p-owned = text_ne "L" "" refl

NodeRuns-alone_example : scope "p" ≡ scope "p"
NodeRuns-alone_example =
    NodeRuns-alone single started_p single-IsPlanned single_run (scope "p") (scope "p") refl p-owned
