-- ===== src/State/Tests/Reads.antt =====
-- A list of work items of internal/state/factory.go on concrete rows.
use bachkator.Base.{List, [], ◌∷◌, ◌≡◌, refl, some, ok}
use bachkator.Model.{pending, completed, normal}
use bachkator.State.Time.{parse_time, fraction}
use bachkator.State.Tables.{FactoryWorkItem, Db}
use bachkator.State.Items.{
  get_item, load_row, scan_item, columns_of, hydrate, list_attempts, list_events, scan_events,
}
use bachkator.State.Reads.{asked_ids, load_each, list_items}
use bachkator.State.Tests.{row, tables}

abbrev two_items : Db
two_items = tables (row "a" pending normal "" ∷ row "b" completed normal "" ∷ []) [] [] []

abbrev waiting_items : List FactoryWorkItem
waiting_items =
    record { columns = columns_of [] [] (row "a" pending normal ""); attempts = []; events = [] }
    ∷ []

list-two_items : list_items "f" "" (some two_items) ≡ ok waiting_items
unfolding list_items asked_ids load_each get_item load_row scan_item columns_of hydrate
    list_attempts list_events scan_events parse_time fraction
list-two_items = refl
