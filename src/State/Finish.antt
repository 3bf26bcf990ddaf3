-- ===== src/State/Finish.antt =====
-- The end of a work item: CancelFactoryWorkItem of internal/state/factory.go, and
-- CompleteFactoryWorkItem and FailFactoryWorkItem of factory_daemon.go.
pub mod Ends
use bachkator.Base.{
  String, Bool, true, false, ◌&&◌, Option, none, some, List, [], ◌∷◌, ◌==◌, if◌then◌else◌, update,
  find, Result, ok, err, ◌>>=◌,
}
use bachkator.Model.{
  Lifecycle, pending, cancelled, completed, failed, is_pending, is_cancelled, is_completed,
}
use bachkator.State.Time.{Time, Stamp, blank, format_time}
use bachkator.State.Tables.{
  Meta, StoreError, no_rows, not_pending, Outcome, Attempt, AttemptRow, Event, FactoryWorkItem,
  ItemRow, Db, Store, transaction,
}
use bachkator.State.Items.{get_item, keyed}
use bachkator.State.Enqueue.{with_attempt, insert_event_if}

-- A missing item is `false` and no error.
abbrev pub or_missing :
    Db
    → Outcome FactoryWorkItem
    → (FactoryWorkItem → Outcome (Option FactoryWorkItem × Db))
    → Outcome (Option FactoryWorkItem × Db)
or_missing db (ok item) f = f item
or_missing db (err no_rows) f = ok (none, db)
or_missing db (err e) f = err e

-- SET lifecycle = 'cancelled', …
abbrev pub cancel_row : String → Time → ItemRow → ItemRow
cancel_row reason at r = record r {
  lifecycle = cancelled;
  updated_at = format_time at;
  cancelled_at = format_time at;
  cancel_reason = reason;
}

abbrev pub pending_attempt : String → AttemptRow → Bool
pending_attempt item a = (a.work_item_id == item) && is_pending a.status

abbrev pub close_attempt : Lifecycle → Time → AttemptRow → AttemptRow
close_attempt status at a = record a {
  status = status;
  updated_at = format_time at;
  finished_at = format_time at;
}

-- The two UPDATEs of a cancellation.
abbrev pub cancel_db : String → String → String → Time → Db → Db
cancel_db factory id reason at db = record db {
  items = update (keyed factory id) (cancel_row reason at) db.items;
  attempts = update (pending_attempt id) (close_attempt cancelled at) db.attempts;
}

unfoldable pub cancel_item :
    String
    → String
    → String
    → Time
    → Event Time Meta
    → Db
    → FactoryWorkItem
    → Outcome (Option FactoryWorkItem × Db)
cancel_item factory id reason at event db item =
    if is_cancelled item.lifecycle
    then ok (some item, db)
    else if is_pending item.lifecycle
    then (insert_event_if (with_attempt item.attempts (record event { work_item_id = id }))
          (cancel_db factory id reason at db)
        >>= λ db'. get_item factory id db' >>= λ loaded. ok (some loaded, db'))
    else err (not_pending id)

-- CancelFactoryWorkItem
unfoldable pub cancel :
    String
    → String
    → String
    → Time
    → Event Time Meta
    → Store
    → Outcome (Option FactoryWorkItem) × Store
cancel factory id reason at event =
    transaction
      λ db. or_missing db (get_item factory id db) (cancel_item factory id reason at event db)

-- SET lifecycle = ?, current_phase = '', …
abbrev pub finish_row : Lifecycle → String → String → Time → ItemRow → ItemRow
finish_row lifecycle phase message at r = record r {
  lifecycle = lifecycle;
  current_phase = "";
  updated_at = format_time at;
  completed_at = if is_completed lifecycle then format_time at else blank;
  failed_at = if is_completed lifecycle then blank else format_time at;
  failure_phase = phase;
  failure_message = message;
}

-- The first attempt, by its number, gets the item's lifecycle.
abbrev pub finish_attempts :
    Lifecycle → Time → List (Attempt Time) → List AttemptRow → List AttemptRow
finish_attempts lifecycle at [] rows = rows
finish_attempts lifecycle at (a ∷ rest) rows =
    update (λ (x : AttemptRow). x.id == a.id) (close_attempt lifecycle at) rows

abbrev pub finish_db :
    String → String → Lifecycle → String → String → Time → List (Attempt Time) → Db → Db
finish_db factory id lifecycle phase message at attempts db = record db {
  items = update (keyed factory id) (finish_row lifecycle phase message at) db.items;
  attempts = finish_attempts lifecycle at attempts db.attempts;
}

unfoldable pub finish_item :
    String
    → String
    → Lifecycle
    → String
    → String
    → Time
    → Db
    → FactoryWorkItem
    → Outcome (Option FactoryWorkItem × Db)
finish_item factory id lifecycle phase message at db item =
    let db' = finish_db factory id lifecycle phase message at item.attempts db in
    get_item factory id db' >>= λ loaded. ok (some loaded, db')

-- finishFactoryWorkItem
unfoldable pub finish :
    String
    → String
    → Lifecycle
    → String
    → String
    → Time
    → Store
    → Outcome (Option FactoryWorkItem) × Store
finish factory id lifecycle phase message at = transaction λ db.
    or_missing db (get_item factory id db) (finish_item factory id lifecycle phase message at db)

-- CompleteFactoryWorkItem
unfoldable pub complete : String → String → Time → Store → Outcome (Option FactoryWorkItem) × Store
unfolding finish
complete factory id at = finish factory id completed "" "" at

-- FailFactoryWorkItem
unfoldable pub fail :
    String → String → String → String → Time → Store → Outcome (Option FactoryWorkItem) × Store
unfolding finish
fail factory id phase message at = finish factory id failed phase message at
