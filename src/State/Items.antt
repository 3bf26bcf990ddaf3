-- ===== src/State/Items.antt =====
-- internal/state/factory_scan.go and the INSERTs of internal/state/factory.go: a work item in the
-- tables, and read back with its attempts and its events.
pub mod Loads
use bachkator.Base.{
  ℕ, String, Bool, true, false, ◌&&◌, ◌||◌, not, Option, none, some, List, [], ◌∷◌, ◌++◌, ◌==◌, ltb,
  if◌then◌else◌, str_lt, select, find, exists, order_by, Result, ok, err, ◌>>=◌, eqb, map, ◌≡◌,
}
use bachkator.Model.{is_pending}
use bachkator.State.Time.{Time, Stamp, format_time, parse_time, text_lt, text_le}
use bachkator.State.Tables.{
  Meta, Json, json, text, StoreError, no_rows, constraint, bad_json, Outcome, Columns, Attempt,
  Event, FactoryWorkItem, ItemRow, AttemptRow, EventRow, Db,
}

-- The record with each part of it changed: `format_time` or `parse_time` for the times, and the
-- JSON text or the value for the labels and the metadata.
abbrev pub convert_columns :
    {T U L K M N : Type 0} → (T → U) → (L → K) → (M → N) → Columns T L M → Columns U K N
convert_columns time labels meta r = record {
  id = r.id;
  factory = r.factory;
  workflow = r.workflow;
  lifecycle = r.lifecycle;
  current_phase = r.current_phase;
  title = r.title;
  body = r.body;
  body_hash = r.body_hash;
  priority = r.priority;
  labels = labels r.labels;
  source_type = r.source_type;
  source_id = r.source_id;
  dedupe_key = r.dedupe_key;
  submitted_plan_path = r.submitted_plan_path;
  submitted_plan_hash = r.submitted_plan_hash;
  intake_evidence_id = r.intake_evidence_id;
  intake_evidence_uri = r.intake_evidence_uri;
  intake_evidence_hash = r.intake_evidence_hash;
  metadata = meta r.metadata;
  created_at = time r.created_at;
  updated_at = time r.updated_at;
  cancelled_at = time r.cancelled_at;
  cancel_reason = r.cancel_reason;
  claimed_by_daemon_id = r.claimed_by_daemon_id;
  claimed_at = time r.claimed_at;
  claim_expires_at = time r.claim_expires_at;
  completed_at = time r.completed_at;
  failed_at = time r.failed_at;
  failure_phase = r.failure_phase;
  failure_message = r.failure_message;
}

abbrev pub convert_attempt : {T U : Type 0} → (T → U) → Attempt T → Attempt U
convert_attempt time a = record {
  id = a.id;
  work_item_id = a.work_item_id;
  attempt_number = a.attempt_number;
  status = a.status;
  start_phase = a.start_phase;
  submitted_plan_path = a.submitted_plan_path;
  submitted_plan_hash = a.submitted_plan_hash;
  created_at = time a.created_at;
  updated_at = time a.updated_at;
  finished_at = time a.finished_at;
}

abbrev pub convert_event : {T U M N : Type 0} → (T → U) → (M → N) → Event T M → Event U N
convert_event time meta e = record {
  id = e.id;
  work_item_id = e.work_item_id;
  attempt_id = e.attempt_id;
  type = e.type;
  message = e.message;
  metadata = meta e.metadata;
  created_at = time e.created_at;
}

-- `if labels != "" { json.Unmarshal }`
abbrev pub read_json : {A : Type 0} → A → Json A → Outcome A
read_json empty (json a) = ok a
read_json empty (text s) = if s == "" then ok empty else err bad_json

-- The columns of a row as a value, once the JSON columns are read.
unfoldable pub columns_of : List String → Meta → ItemRow → Columns Time (List String) Meta
columns_of labels metadata row = convert_columns parse_time (λ _. labels) (λ _. metadata) row

-- scanFactoryWorkItem
unfoldable pub scan_item : ItemRow → Outcome (Columns Time (List String) Meta)
scan_item row = read_json [] row.labels >>= λ labels.
    read_json [] row.metadata >>= λ metadata. ok (columns_of labels metadata row)

unfoldable pub scan_events : List EventRow → Outcome (List (Event Time Meta))
scan_events [] = ok []
scan_events (e ∷ es) =
    let rest = scan_events es in
    read_json [] e.metadata >>= λ metadata.
    rest >>= λ others. ok (convert_event parse_time (λ _. metadata) e ∷ others)

-- listFactoryWorkItemAttempts: ORDER BY attempt_number ASC
unfoldable pub list_attempts : String → List AttemptRow → List (Attempt Time)
list_attempts item rows = map (convert_attempt parse_time) (
    order_by (λ (a b : AttemptRow). ltb a.attempt_number b.attempt_number)
      (select (λ (a : AttemptRow). a.work_item_id == item) rows))

-- created_at ASC, id ASC
abbrev pub event_before : EventRow → EventRow → Bool
event_before e f =
    text_lt e.created_at f.created_at
    || (text_le e.created_at f.created_at && text_le f.created_at e.created_at && str_lt e.id f.id)

-- listFactoryWorkItemEvents
unfoldable pub list_events : String → List EventRow → Outcome (List (Event Time Meta))
list_events item rows =
    scan_events (order_by event_before (select (λ (e : EventRow). e.work_item_id == item) rows))

-- hydrateFactoryWorkItem
unfoldable pub hydrate : Db → Columns Time (List String) Meta → Outcome FactoryWorkItem
hydrate db columns = list_events columns.id db.events >>= λ events.
    ok (record {
      columns = columns;
      attempts = list_attempts columns.id db.attempts;
      events = events;
    })

-- `factory = ? AND id = ?`
abbrev pub keyed : String → String → ItemRow → Bool
keyed factory id r = (r.factory == factory) && (r.id == id)

unfoldable pub load_row : Db → Option ItemRow → Outcome FactoryWorkItem
load_row db none = err no_rows
load_row db (some row) = scan_item row >>= λ columns. hydrate db columns

-- getFactoryWorkItemTx, getFactoryWorkItemDB
unfoldable pub get_item : String → String → Db → Outcome FactoryWorkItem
get_item factory id db = load_row db (find (keyed factory id) db.items)

-- The rows of the index idx_factory_work_items_open_dedupe with one key.
abbrev pub pending_with : {T L M : Type 0} → Columns T L M → ItemRow → Bool
pending_with item r =
    not (item.dedupe_key == "")
    && is_pending item.lifecycle
    && is_pending r.lifecycle
    && (r.factory == item.factory)
    && (r.workflow == item.workflow)
    && (r.dedupe_key == item.dedupe_key)

-- insertFactoryWorkItem: `id` is the table's key, and of pending items with one dedupe key there
-- is one.
unfoldable pub insert_item : Columns Time (List String) Meta → Db → Outcome Db
insert_item item db =
    if exists (λ (r : ItemRow). (r.id == item.id) || pending_with item r) db.items
    then err constraint
    else ok (record db { items = db.items ++ (convert_columns format_time json json item ∷ []) })

-- insertFactoryWorkItemAttempt: the key, the pair of item and number, and the item's existence.
unfoldable pub insert_attempt : Attempt Time → Db → Outcome Db
insert_attempt attempt db =
    if exists
        (λ (a : AttemptRow).
          (a.id == attempt.id)
          || ((a.work_item_id == attempt.work_item_id)
              && eqb a.attempt_number attempt.attempt_number))
        db.attempts
      || not (exists (λ (r : ItemRow). r.id == attempt.work_item_id) db.items)
    then err constraint
    else ok (record db { attempts = db.attempts ++ (convert_attempt format_time attempt ∷ []) })

-- insertFactoryWorkItemEvent: the key, and the item's existence.
unfoldable pub insert_event : Event Time Meta → Db → Outcome Db
insert_event event db =
    if exists (λ (e : EventRow). e.id == event.id) db.events
      || not (exists (λ (r : ItemRow). r.id == event.work_item_id) db.items)
    then err constraint
    else ok (record db { events = db.events ++ (convert_event format_time json event ∷ []) })
