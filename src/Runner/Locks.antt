-- ===== src/Runner/Locks.antt =====
-- The lock manager of internal/runner/scheduler.go, and the functions of a session of
-- internal/runner/session.go that reserve and release its locks.
--
-- `held` is the set of the locks that are held; `reserved_lock` the map from nodes to locks, where
-- a missing key reads as the empty text; `active` the names that scopeCtx holds. Run records,
-- contexts and the channel that wakes the walk are left out.
pub mod Owners
pub mod Steps
pub mod Reserves
pub mod Exclusive
use bachkator.Base.{
  String, Bool, true, false, ◌&&◌, ◌||◌, not, Option, none, some, List, [], ◌∷◌, ◌==◌,
  if◌then◌else◌, exists, select,
}
use bachkator.Runner.Nodes.{
  Target, ExecutionGraph, ExecutionScope, is_barrier, scope_start_target, scope_end_target,
}

pub record Session : Type 0 where
  pub held : List String
  pub reserved_lock : String → String
  pub active : List String

abbrev pub is_in : String → List String → Bool
is_in x xs = exists (λ y. y == x) xs

abbrev pub without : String → List String → List String
without x xs = select (λ y. not (y == x)) xs

-- s.reservedLock[name] = lock; the empty text deletes the key.
abbrev pub set_reserved : String → String → (String → String) → String → String
set_reserved name lock reserved x = if name == x then lock else reserved x

-- newSession
abbrev pub new_session : Session
new_session = record { held = []; reserved_lock = λ x. ""; active = [] }

-- tryAcquire, of a lock with a name
unfoldable pub try_acquire : String → List String → Option (List String)
try_acquire lock held = if is_in lock held then none else some (lock ∷ held)

-- release
unfoldable pub release_lock : String → List String → List String
release_lock lock held = if lock == "" then held else without lock held

-- lockHeldByActiveScope
unfoldable pub has_lock : ExecutionGraph → String → String → Bool
has_lock g lock scope = elim (g.plan scope) [ some t ↦ t.lock == lock | none ↦ false ]

unfoldable pub lock_held_by_active_scope :
    ExecutionGraph → Session → String → List ExecutionScope → Bool
unfolding has_lock
lock_held_by_active_scope g s lock [] = false
lock_held_by_active_scope g s lock (scope ∷ scopes) =
    (is_in scope.name s.active && has_lock g lock scope.name)
    || lock_held_by_active_scope g s lock scopes

unfoldable pub note_reservation : Session → String → String → Option (List String) → Option Session
note_reservation s name lock none = none
note_reservation s name lock (some held) =
    some (record s { held = held; reserved_lock = set_reserved name lock s.reserved_lock })

-- tryReserveLock: the session after it, or `none` where the lock is held.
unfoldable pub try_reserve_lock :
    ExecutionGraph → Session → String → String → List ExecutionScope → Option Session
unfolding try_acquire note_reservation
try_reserve_lock g s name lock scopes =
    if (lock == "") || lock_held_by_active_scope g s lock scopes
    then some s
    else note_reservation s name lock (try_acquire lock s.held)

abbrev pub is_some : Option Target → Bool
is_some none = false
is_some (some t) = true

-- tryReserveExecutionNode
unfoldable pub reserve_for : ExecutionGraph → Session → String → Option Target → Option Session
unfolding try_reserve_lock
reserve_for g s name none = some s
reserve_for g s name (some t) = try_reserve_lock g s name t.lock (g.members name)

unfoldable pub try_reserve_execution_node : ExecutionGraph → Session → String → Option Session
unfolding reserve_for
try_reserve_execution_node g s name = elim (scope_start_target g name) [
  | some t ↦ reserve_for g s name (some t)
  | none ↦
      if is_some (scope_end_target g name) || is_barrier g name
      then some s
      else reserve_for g s name (g.targets name)
]

-- releaseExecutionNode
unfoldable pub release_execution_node : String → Session → Session
unfolding release_lock
release_execution_node name s = record s {
  held = release_lock (s.reserved_lock name) s.held;
  reserved_lock = set_reserved name "" s.reserved_lock;
}

-- forgetExecutionNodeReservation
unfoldable pub forget_reservation : String → Session → Session
forget_reservation name s = record s { reserved_lock = set_reserved name "" s.reserved_lock }

-- startScope
unfoldable pub start_scope : Target → Session → Session
start_scope t s = if is_in t.name s.active then s else record s { active = t.name ∷ s.active }

-- finishScope
unfoldable pub finish_scope : Target → Session → Session
unfolding release_lock
finish_scope t s = record s { active = without t.name s.active; held = release_lock t.lock s.held }

-- closeActiveScopes
unfoldable pub release_scopes : ExecutionGraph → List String → List String → List String
unfolding release_lock
release_scopes g [] held = held
release_scopes g (name ∷ names) held = elim (g.plan name) [
  | some t ↦ release_scopes g names (release_lock t.lock held)
  | none ↦ release_scopes g names held
]

unfoldable pub close_active_scopes : ExecutionGraph → Session → Session
unfolding release_scopes
close_active_scopes g s = record s { active = []; held = release_scopes g s.active s.held }
