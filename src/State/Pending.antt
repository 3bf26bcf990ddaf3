-- ===== src/State/Pending.antt =====
-- UpdatePendingFactoryWorkItem of internal/state/factory_enqueue.go: an item that no daemon has
-- taken yet is written anew.
pub mod Fails
use Prim.Native.String.{◌++◌ as ◌+++◌}
use bachkator.Base.{
  String, Bool, true, false, ◌&&◌, not, Option, none, some, List, [], ◌∷◌, ◌==◌, if◌then◌else◌,
  update, exists, Result, ok, err, ◌>>=◌,
}
use bachkator.Model.{Lifecycle, is_pending}
use bachkator.State.Time.{Time, nano_text}
use bachkator.State.Tables.{
  Meta, Json, json, text, constraint, Outcome, Columns, Event, FactoryWorkItem, ItemRow, Db, Store,
  transaction,
}
use bachkator.State.Items.{get_item, keyed}
use bachkator.State.Enqueue.{with_attempt, insert_event_if}
use bachkator.State.Finish.{or_missing}

-- strings.Join(labels, ",")
unfoldable pub join : List String → String
join [] = ""
join (l ∷ []) = l
join (l ∷ m ∷ rest) = l +++ ("," +++ join (m ∷ rest))

-- The columns that UpdatePendingFactoryWorkItem sets. The labels are not written as JSON.
abbrev pub overwrite : Columns Time (List String) Meta → Json (List String) → ItemRow → ItemRow
overwrite item labels r = record r {
  title = item.title;
  body = item.body;
  body_hash = item.body_hash;
  priority = item.priority;
  labels = labels;
  metadata = json item.metadata;
  source_type = item.source_type;
  source_id = item.source_id;
  dedupe_key = item.dedupe_key;
  submitted_plan_path = item.submitted_plan_path;
  submitted_plan_hash = item.submitted_plan_hash;
  intake_evidence_id = item.intake_evidence_id;
  intake_evidence_uri = item.intake_evidence_uri;
  intake_evidence_hash = item.intake_evidence_hash;
  updated_at = nano_text item.updated_at;
}

-- What a text in the labels' column is to encoding/json: `as_labels` is json.Unmarshal into
-- []string.
abbrev pub labels_text : (String → Option (List String)) → String → Json (List String)
labels_text as_labels s = elim (as_labels s) [ some labels ↦ json labels | none ↦ text s ]

-- Another pending item of the key that the update gives.
abbrev pub taken : Columns Time (List String) Meta → ItemRow → Bool
taken item r =
    not (item.dedupe_key == "")
    && is_pending r.lifecycle
    && (r.factory == item.factory)
    && (r.dedupe_key == item.dedupe_key)
    && not (r.id == item.id)

-- The database after the UPDATE.
abbrev pub overwritten : (String → Option (List String)) → Columns Time (List String) Meta → Db → Db
overwritten as_labels item db = record db {
  items =
      update (keyed item.factory item.id)
        (overwrite item (labels_text as_labels (join item.labels))) db.items;
}

unfoldable pub update_row :
    (String → Option (List String))
    → Columns Time (List String) Meta
    → Event Time Meta
    → Db
    → FactoryWorkItem
    → Outcome (Option FactoryWorkItem × Db)
update_row as_labels item event db existing =
    let db' = overwritten as_labels item db in
    if not (is_pending existing.lifecycle)
    then ok (none, db)
    else if exists (λ (r : ItemRow). taken item r && (r.workflow == existing.workflow)) db.items
    then err constraint
    else (insert_event_if (with_attempt existing.attempts event) db' >>= λ db''.
        get_item item.factory item.id db'' >>= λ loaded. ok (some loaded, db''))

-- UpdatePendingFactoryWorkItem
unfoldable pub update_pending :
    (String → Option (List String))
    → Columns Time (List String) Meta
    → Event Time Meta
    → Store
    → Outcome (Option FactoryWorkItem) × Store
update_pending as_labels item event =
    transaction
      λ db. or_missing db (get_item item.factory item.id db) (update_row as_labels item event db)
