-- ===== src/State/Enqueue/Answers.antt =====
-- The results of EnqueueFactoryWorkItem of internal/state/factory_enqueue.go.
use bachkator.Base.{
  String, Bool, true, false, some, List, [], ◌∷◌, ◌++◌, ◌==◌, ◌≡◌, ◌≢◌, ◌⊎◌, inl, inr, sym, ap, ◌∙◌,
  arith, eq_iff, All, In, select-In, first_by-In, Bool-cases, Option-cases, ok, >>=-eq-ok,
}
use bachkator.State.Time.{Time}
use bachkator.State.Tables.{
  Meta, Columns, Attempt, Event, FactoryWorkItem, ItemRow, Db, commit-eq-ok,
}
use bachkator.State.Items.{get_item}
use bachkator.State.Items.Loads.{get_item-id}
use bachkator.State.Enqueue.{
  open_with, find_open, with_attempt, insert_event_if, dedupe, insert_all, enqueue_with, enqueue_tx,
  enqueue,
}
use bachkator.State.Enqueue.OneOpen.{new_row, items-dedupe, items-insert_all, find_open-none}

module _ (item : Columns Time (List String) Meta) (attempt : Attempt Time)
    (event dedupe_event : Event Time Meta) (db db' : Db) (loaded : FactoryWorkItem)
    (is_new : Bool) where
  abbrev keyed_open : ItemRow → Bool
  keyed_open = open_with item.factory item.workflow item.dedupe_key

  -- A new item: no open item had its key, and it is the last row.
  abbrev pub Added : Type 0
  Added =
      (is_new ≡ true)
      × (loaded.id ≡ item.id)
      × ((item.dedupe_key ≡ "") ⊎ All (λ r. keyed_open r ≡ false) db.items)
      × (db'.items ≡ db.items ++ (new_row item ∷ []))

  -- An open item with the key, and no change of any item.
  abbrev pub Deduped : Type 0
  Deduped =
      (is_new ≡ false)
      × (item.dedupe_key ≢ "")
      × ((row : ItemRow) × In row db.items × (keyed_open row ≡ true) × (loaded.id ≡ row.id))
      × (db'.items ≡ db.items)

  insert_all-eq-ok :
      insert_all item attempt event db ≡ ok ((loaded, is_new), db')
      → (is_new ≡ true) × (get_item item.factory item.id db' ≡ ok loaded)
  unfolding insert_all
  insert_all-eq-ok e = ground arith

  dedupe-eq-ok :
      (row : ItemRow)
      → dedupe item dedupe_event row db ≡ ok ((loaded, is_new), db')
      → (is_new ≡ false) × (loaded.id ≡ row.id)
  unfolding dedupe
  dedupe-eq-ok row e =
      let (existing, got, rest) = >>=-eq-ok (get_item item.factory row.id db) _ e in
      let noted =
        insert_event_if
          (with_attempt existing.attempts (record dedupe_event { work_item_id = existing.id }))
          db in
      let (db₁, inserted, rest') = >>=-eq-ok noted _ rest in
      let (last, got', ends) = >>=-eq-ok (get_item item.factory existing.id db₁) _ rest' in
      let same : last ≡ loaded = cc in
      (
        cc,
        sym (ap (λ (x : FactoryWorkItem). x.id) same)
            ∙ get_item-id item.factory existing.id db₁ last got'
            ∙ get_item-id item.factory row.id db existing got,
      )

  find_open-In :
      (row : ItemRow)
      → find_open item.factory item.workflow item.dedupe_key db ≡ some row
      → In row db.items × (keyed_open row ≡ true)
  unfolding find_open
  find_open-In row e = select-In keyed_open db.items row (first_by-In _ _ row e)

  added :
      (item.dedupe_key ≡ "") ⊎ All (λ r. keyed_open r ≡ false) db.items
      → insert_all item attempt event db ≡ ok ((loaded, is_new), db')
      → Added
  added alone e =
      let (new, got) = insert_all-eq-ok e in
      (
        new,
        get_item-id item.factory item.id db' loaded got,
        alone,
        items-insert_all item attempt event dedupe_event db db' (loaded, is_new) e,
      )

  -- A request to enqueue that succeeds either adds the item as the last row, where it has no dedupe
  -- key or no open item has its factory, workflow and key, or it returns such an open item and
  -- changes no item. The Boolean tells which.
  pub enqueue_answers :
      enqueue item attempt event dedupe_event (some db) ≡ (ok (loaded, is_new), some db')
      → Added ⊎ Deduped
  unfolding enqueue enqueue_tx enqueue_with
  enqueue_answers e =
      let run =
        commit-eq-ok db db' (enqueue_tx item attempt event dedupe_event db) (loaded, is_new) e in
      elim (Bool-cases (item.dedupe_key == "")) [
        | inl no_key ↦ inl (added (inl ((eq_iff item.dedupe_key "").0 no_key)) (rw no_key at run))
        | inr key ↦ elim (Option-cases (find_open item.factory item.workflow item.dedupe_key db)) [
          | inl n ↦ inl (
              added (inr (find_open-none item attempt event dedupe_event db n))
                (rw (key, n) at run))
          | inr (row, found) ↦
              let run' : dedupe item dedupe_event row db ≡ ok ((loaded, is_new), db') =
                rw (key, found) at run in
              let (old, same) = dedupe-eq-ok row run' in
              let (m, k) = find_open-In row found in
              inr (
                old,
                (λ none_. absurd (ground (arith, eq_iff item.dedupe_key ""))),
                (row, m, k, same),
                items-dedupe item attempt event dedupe_event row db db' (loaded, is_new) run',
              )
        ]
      ]
