-- ===== src/State/Items/Loads.antt =====
-- The results of getFactoryWorkItemTx of internal/state/factory_scan.go.
use bachkator.Base.{
  String, true, some, List, [], ◌==◌, find, ok, ◌≡◌, In, arith, Option-cases, find-In, ap, sym, ◌∙◌,
  eq_iff, and_true, inl, inr,
}
use bachkator.State.Time.{Time}
use bachkator.State.Tables.{Meta, Columns, FactoryWorkItem, ItemRow, Db}
use bachkator.State.Items.{
  read_json, columns_of, scan_item, hydrate, keyed, load_row, get_item, list_attempts, list_events,
}

-- A value is that of a row: read from its columns, with the attempts and events of its id.
pub record IsLoaded (db : Db) (row : ItemRow) (item : FactoryWorkItem) : Type 0 where
  pub labels_read : read_json [] row.labels ≡ ok item.labels
  pub metadata_read : read_json [] row.metadata ≡ ok item.metadata
  pub columns_read : item.columns ≡ columns_of item.labels item.metadata row
  pub attempts_read : item.attempts ≡ list_attempts row.id db.attempts
  pub events_read : list_events row.id db.events ≡ ok item.events

load_row-IsLoaded :
    (db : Db) (row : ItemRow) (item : FactoryWorkItem)
    → load_row db (some row) ≡ ok item
    → IsLoaded db row item
unfolding load_row scan_item hydrate columns_of
load_row-IsLoaded db row item e = ground arith

-- What the store returns is one of its rows, the one with the factory and the id asked for.
pub get_item-IsLoaded :
    (factory id : String) (db : Db) (item : FactoryWorkItem)
    → get_item factory id db ≡ ok item
    → (row : ItemRow) × In row db.items × (keyed factory id row ≡ true) × IsLoaded db row item
unfolding get_item
get_item-IsLoaded factory id db item e = elim (Option-cases (find (keyed factory id) db.items)) [
  | inl n ↦ absurd (unfold load_row in ground arith)
  | inr (row, is) ↦
      let (m, k) = find-In (keyed factory id) db.items row is in
      (row, m, k, load_row-IsLoaded db row item (rw is at e))
]

-- The value has the id that was asked for.
pub IsLoaded-id :
    (factory id : String) (db : Db) (row : ItemRow) (item : FactoryWorkItem)
    → keyed factory id row ≡ true
    → IsLoaded db row item
    → item.id ≡ id
unfolding columns_of
IsLoaded-id factory id db row item k h =
    ap (λ (c : Columns Time (List String) Meta). c.id) h.columns_read
    ∙ (eq_iff row.id id).0 (and_true (row.factory == factory) (row.id == id) k).1

pub IsLoaded-lifecycle :
    (db : Db) (row : ItemRow) (item : FactoryWorkItem)
    → IsLoaded db row item
    → row.lifecycle ≡ item.lifecycle
unfolding columns_of
IsLoaded-lifecycle db row item h =
    sym (ap (λ (c : Columns Time (List String) Meta). c.lifecycle) h.columns_read)

pub IsLoaded-phase :
    (db : Db) (row : ItemRow) (item : FactoryWorkItem)
    → IsLoaded db row item
    → row.current_phase ≡ item.current_phase
unfolding columns_of
IsLoaded-phase db row item h =
    sym (ap (λ (c : Columns Time (List String) Meta). c.current_phase) h.columns_read)

pub get_item-id :
    (factory id : String) (db : Db) (item : FactoryWorkItem)
    → get_item factory id db ≡ ok item
    → item.id ≡ id
get_item-id factory id db item e =
    let (row, m, k, read) = get_item-IsLoaded factory id db item e in
    IsLoaded-id factory id db row item k read
