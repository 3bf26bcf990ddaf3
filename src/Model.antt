-- ===== src/Model.antt =====
-- internal/model/status.go: the lifecycle and the priority of a work item. Both are strings there.
-- The lifecycle is modelled by its constants; a priority is any text.
use bachkator.Base.{Bool, true, false, String}

pub data Lifecycle : Type 0 where
  pending claimed running waiting_approval cancelled completed failed : Lifecycle

abbrev pub Priority : Type 0
Priority = String

abbrev pub critical : Priority
critical = "critical"

abbrev pub urgent : Priority
urgent = "urgent"

abbrev pub high : Priority
high = "high"

abbrev pub normal : Priority
normal = "normal"

abbrev pub low : Priority
low = "low"

-- l == model.LifecyclePending, and so on
abbrev pub is_pending : Lifecycle → Bool
is_pending pending = true
is_pending _ = false

abbrev pub is_waiting : Lifecycle → Bool
is_waiting waiting_approval = true
is_waiting _ = false

abbrev pub is_cancelled : Lifecycle → Bool
is_cancelled cancelled = true
is_cancelled _ = false

abbrev pub is_completed : Lifecycle → Bool
is_completed completed = true
is_completed _ = false
