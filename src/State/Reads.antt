-- ===== src/State/Reads.antt =====
-- GetFactoryWorkItem and ListFactoryWorkItems of internal/state/factory.go.
pub mod Listed
use bachkator.Base.{
  String, Bool, true, false, ◌&&◌, ◌||◌, List, [], ◌∷◌, ◌==◌, Option, none, some, if◌then◌else◌,
  select, order_by, str_lt, Result, ok, err, ◌>>=◌, map,
}
use bachkator.Model.{
  Lifecycle, pending, claimed, running, waiting_approval, cancelled, completed, failed, is_pending,
  is_waiting,
}
use bachkator.State.Time.{text_gt, text_le}
use bachkator.State.Tables.{Outcome, StoreError, no_rows, FactoryWorkItem, ItemRow, Db, Store}
use bachkator.State.Items.{get_item}

-- The text of a lifecycle in its column.
abbrev pub lifecycle_text : Lifecycle → String
lifecycle_text pending = "pending"
lifecycle_text claimed = "claimed"
lifecycle_text running = "running"
lifecycle_text waiting_approval = "waiting_approval"
lifecycle_text cancelled = "cancelled"
lifecycle_text completed = "completed"
lifecycle_text failed = "failed"

abbrev pub or_no_item : Outcome FactoryWorkItem → Outcome (Option FactoryWorkItem)
or_no_item (ok item) = ok (some item)
or_no_item (err no_rows) = ok none
or_no_item (err e) = err e

-- GetFactoryWorkItem
unfoldable pub find_item : String → String → Store → Outcome (Option FactoryWorkItem)
find_item factory id none = ok none
find_item factory id (some db) = or_no_item (get_item factory id db)

-- The WHERE clause that the query's factory and status make.
abbrev pub asked : String → String → ItemRow → Bool
asked factory status r =
    (r.factory == factory)
    && (if status == ""
        then (is_pending r.lifecycle || is_waiting r.lifecycle)
        else ((status == "all") || (lifecycle_text r.lifecycle == status)))

-- ORDER BY created_at DESC, id DESC
abbrev pub newer : ItemRow → ItemRow → Bool
newer r s =
    text_gt r.created_at s.created_at
    || (text_le r.created_at s.created_at && text_le s.created_at r.created_at && str_lt s.id r.id)

-- SELECT id
unfoldable pub asked_ids : String → String → Db → List String
asked_ids factory status db =
    map (λ (r : ItemRow). r.id) (order_by newer (select (asked factory status) db.items))

unfoldable pub load_each : String → Db → List String → Outcome (List FactoryWorkItem)
load_each factory db [] = ok []
load_each factory db (id ∷ ids) =
    let rest = load_each factory db ids in
    get_item factory id db >>= λ item. rest >>= λ items. ok (item ∷ items)

-- ListFactoryWorkItems
unfoldable pub list_items : String → String → Store → Outcome (List FactoryWorkItem)
list_items factory status none = ok []
list_items factory status (some db) = load_each factory db (asked_ids factory status db)
