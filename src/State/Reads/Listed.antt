-- ===== src/State/Reads/Listed.antt =====
-- The results of ListFactoryWorkItems of internal/state/factory.go.
use bachkator.Base.{
  String, List, [], ◌∷◌, ◌==◌, ◌≡◌, refl, sym, ap, ◌∙◌, some, map, occ, affected, select, order_by,
  affected-order_by, ok, >>=-eq-ok, arith,
}
use bachkator.State.Tables.{FactoryWorkItem, ItemRow, Db}
use bachkator.State.Items.{get_item}
use bachkator.State.Items.Loads.{get_item-id}
use bachkator.State.Reads.{asked, newer, asked_ids, load_each, list_items}

abbrev pub item_id : FactoryWorkItem → String
item_id item = item.id

load_each-ids :
    (factory : String) (db : Db) (ids : List String) (items : List FactoryWorkItem)
    → load_each factory db ids ≡ ok items
    → map item_id items ≡ ids
unfolding load_each
load_each-ids factory db [] items e =
    let same : [] ≡ items = ground arith in ap (map item_id) (sym same)
load_each-ids factory db (id ∷ ids) items e =
    let (item, got, rest) = >>=-eq-ok (get_item factory id db) _ e in
    let (others, more, last) = >>=-eq-ok (load_each factory db ids) _ rest in
    let same : item ∷ others ≡ items = ground arith in
    ap (map item_id) (sym same)
    ∙ ap (λ xs. item_id item ∷ xs) (load_each-ids factory db ids others more)
    ∙ ap (λ x. x ∷ ids) (get_item-id factory id db item got)

occ-ids :
    (v : String) (rows : List ItemRow)
    → occ v (map (λ (r : ItemRow). r.id) rows) ≡ affected (λ (r : ItemRow). r.id == v) rows
occ-ids v [] = refl
occ-ids v (r ∷ rows) = ground (arith, occ-ids v rows)

-- A list that succeeds has, in the query's order, the ids of the rows that the factory and the
-- status select, and each id as often as there are such rows.
pub list_items_lists :
    (factory status : String) (db : Db) (items : List FactoryWorkItem)
    → list_items factory status (some db) ≡ ok items
    → (map item_id items
        ≡ map (λ (r : ItemRow). r.id) (order_by newer (select (asked factory status) db.items)))
      × ((v : String)
          → occ v (map item_id items)
            ≡ affected (λ (r : ItemRow). r.id == v) (select (asked factory status) db.items))
unfolding list_items asked_ids
list_items_lists factory status db items e =
    let same = load_each-ids factory db (asked_ids factory status db) items e in
    (
      same,
      λ v.
          ap (occ v) same
          ∙ occ-ids v (order_by newer (select (asked factory status) db.items))
          ∙ affected-order_by (λ (r : ItemRow). r.id == v) newer
              (select (asked factory status) db.items),
    )
