-- ===== src/State/Tests/Pending.antt =====
-- Updates of a pending item of internal/state/factory_enqueue.go on concrete rows, and what the
-- store reads back of one.
use bachkator.Base.{
  String, List, [], ◌∷◌, ◌≡◌, refl, Option, none, some, ok, err, ◌==◌, text_ne, if◌then◌else◌,
}
use bachkator.Model.{pending, normal}
use bachkator.State.Time.{parse_time, fraction}
use bachkator.State.Tables.{FactoryWorkItem, ItemRow, Db, json, StoreError, constraint}
use bachkator.State.Items.{
  get_item, load_row, scan_item, columns_of, hydrate, list_attempts, list_events, scan_events,
}
use bachkator.State.Pending.{update_pending, join}
use bachkator.State.Pending.Fails.{update_pending-event_taken, update_pending_labels}
use bachkator.State.Tests.{row, submission, attempt, attempt_row, event, event_row, tables}

-- A reader of JSON that knows the empty list.
abbrev as_labels : String → Option (List String)
as_labels s = if s == "[]" then some [] else none

abbrev labelled : ItemRow
labelled = record (row "a" pending normal "") { labels = json ("bug" ∷ []) }

abbrev one_pending : Db
one_pending = tables (labelled ∷ []) (attempt_row "t" "a" pending ∷ []) (event_row "e" "a" ∷ []) []

abbrev existing : FactoryWorkItem
existing = record {
  columns = columns_of ("bug" ∷ []) [] labelled;
  attempts = attempt "t" "a" ∷ [];
  events = event "e" "a" ∷ [];
}

get_item-one_pending : get_item "f" "a" one_pending ≡ ok existing
unfolding get_item load_row scan_item columns_of hydrate list_attempts list_events scan_events
    parse_time fraction
get_item-one_pending = refl

update_pending-event_taken_example :
    update_pending as_labels (submission "a" pending []) (event "e" "a") (some one_pending)
    ≡ (err constraint, some one_pending)
unfolding columns_of
update_pending-event_taken_example =
    update_pending-event_taken as_labels (submission "a" pending []) (event "e" "a") one_pending
      existing get_item-one_pending refl (text_ne "e" "" refl) refl

update_pending_labels_example :
    (x : StoreError) × (update_pending as_labels
        (submission "a" pending ("bug" ∷ []))
        (event "e2" "a")
        (some one_pending)
      ≡ (err x, some one_pending))
unfolding columns_of join
update_pending_labels_example =
    update_pending_labels as_labels (submission "a" pending ("bug" ∷ [])) (event "e2" "a")
      one_pending existing get_item-one_pending refl refl (text_ne "bug" "" refl)
