-- ===== src/State/Enqueue.antt =====
-- internal/state/factory_enqueue.go and findOpenFactoryWorkItemByDedupe of factory.go: work items
-- enter the queue.
pub mod OneOpen
pub mod Answers
use bachkator.Base.{
  String, Bool, true, false, ◌&&◌, ◌||◌, not, Option, none, some, List, [], ◌∷◌, ◌==◌, ◌++◌,
  if◌then◌else◌, select, update, first_by, find, exists, Result, ok, err, ◌>>=◌,
}
use bachkator.Model.{Lifecycle, pending, claimed, running, waiting_approval, is_pending}
use bachkator.State.Time.{Time, format_time, text_gt}
use bachkator.State.Tables.{
  Meta, Json, json, text, StoreError, bad_json, constraint, Outcome, Columns, Attempt, Event,
  FactoryWorkItem, ItemRow, Db, Store, transaction,
}
use bachkator.State.Items.{get_item, keyed, insert_item, insert_attempt, insert_event, pending_with}

-- lifecycle IN ('pending', 'claimed', 'running', 'waiting_approval')
abbrev pub is_open : Lifecycle → Bool
is_open pending = true
is_open claimed = true
is_open running = true
is_open waiting_approval = true
is_open _ = false

abbrev pub open_with : String → String → String → ItemRow → Bool
open_with factory workflow key r =
    (r.factory == factory)
    && (r.workflow == workflow)
    && (r.dedupe_key == key)
    && is_open r.lifecycle

-- findOpenFactoryWorkItemByDedupe: ORDER BY created_at DESC LIMIT 1
unfoldable pub find_open : String → String → String → Db → Option ItemRow
find_open factory workflow key db =
    first_by (λ (r s : ItemRow). text_gt r.created_at s.created_at)
      (select (open_with factory workflow key) db.items)

-- `event.AttemptID`, set to the first attempt if there is one.
abbrev pub with_attempt : List (Attempt Time) → Event Time Meta → Event Time Meta
with_attempt [] e = e
with_attempt (a ∷ rest) e = record e { attempt_id = a.id }

-- insertFactoryWorkItemEvent under `if event.ID != ""`
unfoldable pub insert_event_if : Event Time Meta → Db → Outcome Db
insert_event_if event db = if event.id == "" then ok db else insert_event event db

-- The request met an open item with its key: an event is added to that item.
unfoldable pub dedupe :
    Columns Time (List String) Meta
    → Event Time Meta
    → ItemRow
    → Db
    → Outcome ((FactoryWorkItem × Bool) × Db)
dedupe item dedupe_event row db = get_item item.factory row.id db >>= λ existing.
    insert_event_if
      (with_attempt existing.attempts (record dedupe_event { work_item_id = existing.id })) db
    >>= λ db'. get_item item.factory existing.id db' >>= λ loaded. ok ((loaded, false), db')

unfoldable pub insert_all :
    Columns Time (List String) Meta
    → Attempt Time
    → Event Time Meta
    → Db
    → Outcome ((FactoryWorkItem × Bool) × Db)
insert_all item attempt event db = insert_item item db >>= λ db₁.
    insert_attempt attempt db₁ >>= λ db₂. insert_event event db₂ >>= λ db₃.
    get_item item.factory item.id db₃ >>= λ loaded. ok ((loaded, true), db₃)

unfoldable pub enqueue_with :
    Columns Time (List String) Meta
    → Attempt Time
    → Event Time Meta
    → Event Time Meta
    → Option ItemRow
    → Db
    → Outcome ((FactoryWorkItem × Bool) × Db)
enqueue_with item attempt event dedupe_event none db = insert_all item attempt event db
enqueue_with item attempt event dedupe_event (some row) db = dedupe item dedupe_event row db

unfoldable pub enqueue_tx :
    Columns Time (List String) Meta
    → Attempt Time
    → Event Time Meta
    → Event Time Meta
    → Db
    → Outcome ((FactoryWorkItem × Bool) × Db)
enqueue_tx item attempt event dedupe_event db =
    enqueue_with item attempt event dedupe_event
      (if item.dedupe_key == ""
        then none
        else find_open item.factory item.workflow item.dedupe_key db)
      db

-- EnqueueFactoryWorkItem. The Boolean says whether the item is new.
unfoldable pub enqueue :
    Columns Time (List String) Meta
    → Attempt Time
    → Event Time Meta
    → Event Time Meta
    → Store
    → Outcome (FactoryWorkItem × Bool) × Store
enqueue item attempt event dedupe_event = transaction (enqueue_tx item attempt event dedupe_event)
