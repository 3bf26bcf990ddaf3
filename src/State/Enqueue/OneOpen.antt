-- ===== src/State/Enqueue/OneOpen.antt =====
-- The open items of the queue under EnqueueFactoryWorkItem of internal/state/factory_enqueue.go.
use bachkator.Base.{
  String, Bool, true, false, ◌&&◌, not, Option, none, some, List, [], ◌∷◌, ◌++◌, ◌==◌, update,
  changed, ok, >>=-eq-ok, ◌≡◌, ◌⊎◌, inl, inr, All, Each, All-weaken, Each-with, Each-update,
  Each-append_one, arith, eq_iff, Bool-cases, first_by-none, select-nil, refl, subst, sym, ap, ◌∙◌,
}
use bachkator.State.Time.{Time, format_time}
use bachkator.State.Tables.{
  Meta, json, Columns, Attempt, Event, FactoryWorkItem, ItemRow, Db, commit-keeps,
}
use bachkator.State.Items.{convert_columns, get_item, insert_item, insert_attempt, insert_event}
use bachkator.State.Enqueue.{
  is_open, open_with, find_open, with_attempt, insert_event_if, dedupe, insert_all, enqueue_with,
  enqueue_tx, enqueue,
}

abbrev pub same_open : ItemRow → ItemRow → Bool
same_open r s =
    not (r.dedupe_key == "") && is_open r.lifecycle && open_with r.factory r.workflow r.dedupe_key s

-- No two open items share factory, workflow and a dedupe key that is not empty.
abbrev pub OneOpen : List ItemRow → Type 0
OneOpen rows = Each (λ r s. same_open r s ≡ false) rows

-- The row keeps its place and its key, and is not opened.
abbrev pub NoOpening : ItemRow → ItemRow → Type 0
NoOpening r s =
    (r.factory ≡ s.factory)
    × (r.workflow ≡ s.workflow)
    × (r.dedupe_key ≡ s.dedupe_key)
    × ((is_open r.lifecycle ≡ true) ⊎ (is_open s.lifecycle ≡ false))

same_open-NoOpening :
    (r r' s s' : ItemRow)
    → NoOpening r r'
    → NoOpening s s'
    → same_open r s ≡ false
    → same_open r' s' ≡ false
same_open-NoOpening r r' s s' h k e = ground arith

-- An UPDATE that opens no item keeps the open items apart.
pub update-OneOpen :
    (test : ItemRow → Bool) (change : ItemRow → ItemRow) (rows : List ItemRow)
    → ((r : ItemRow) → NoOpening r (changed test change r))
    → OneOpen rows
    → OneOpen (update test change rows)
update-OneOpen test change rows keep =
    Each-update test change (λ r s. same_open r s ≡ false) (λ r s. same_open r s ≡ false) rows
      λ r s.
        same_open-NoOpening r (changed test change r) s (changed test change s) (keep r) (keep s)

-- The same, of an UPDATE whose rows have a property.
pub update-OneOpen_where :
    (P : ItemRow → Type 0) (test : ItemRow → Bool) (change : ItemRow → ItemRow)
    (rows : List ItemRow)
    → ((r : ItemRow) → P r → NoOpening r (changed test change r))
    → All P rows
    → OneOpen rows
    → OneOpen (update test change rows)
update-OneOpen_where P test change rows keep p h =
    Each-update test change (λ r s. P r × P s × (same_open r s ≡ false))
      (λ r s. same_open r s ≡ false) rows
      (λ r s k.
        same_open-NoOpening r (changed test change r) s (changed test change s) (keep r k.0)
          (keep s k.1) k.2)
      (Each-with (λ r s. same_open r s ≡ false) P rows p h)

abbrev pub new_row : Columns Time (List String) Meta → ItemRow
new_row = convert_columns format_time json json

-- An event changes no item.
pub items-insert_event_if :
    (e : Event Time Meta) (db db' : Db) → insert_event_if e db ≡ ok db' → db'.items ≡ db.items
unfolding insert_event_if insert_event
items-insert_event_if e db db' h = ground arith

module _ (item : Columns Time (List String) Meta) (attempt : Attempt Time) (event : Event Time Meta)
    (dedupe_event : Event Time Meta) where
  pub items-dedupe :
      (row : ItemRow) (db db' : Db) (r : FactoryWorkItem × Bool)
      → dedupe item dedupe_event row db ≡ ok (r, db')
      → db'.items ≡ db.items
  unfolding dedupe
  items-dedupe row db db' r h =
      let (existing, got, rest) = >>=-eq-ok (get_item item.factory row.id db) _ h in
      let (db₁, inserted, rest') =
        >>=-eq-ok
          (insert_event_if
            (with_attempt existing.attempts (record dedupe_event { work_item_id = existing.id }))
            db)
          _ rest in
      let (loaded, got', ends) = >>=-eq-ok (get_item item.factory existing.id db₁) _ rest' in
      let same : db₁ ≡ db' = cc in
      sym (ap (λ (d : Db). d.items) same) ∙ items-insert_event_if _ db db₁ inserted

  pub items-insert_all :
      (db db' : Db) (r : FactoryWorkItem × Bool)
      → insert_all item attempt event db ≡ ok (r, db')
      → db'.items ≡ db.items ++ (new_row item ∷ [])
  unfolding insert_all insert_item insert_attempt insert_event
  items-insert_all db db' r h = ground arith

  new-closed :
      (rows : List ItemRow)
      → (item.dedupe_key == "") ≡ true
      → All (λ r. same_open r (new_row item) ≡ false) rows
  new-closed [] e = tt
  new-closed (r ∷ rows) e = (
    ground (
      arith,
      eq_iff item.dedupe_key "",
      eq_iff r.dedupe_key "",
      eq_iff item.dedupe_key r.dedupe_key,
    ),
    new-closed rows e,
  )

  new-alone :
      (rows : List ItemRow)
      → All (λ r. open_with item.factory item.workflow item.dedupe_key r ≡ false) rows
      → All (λ r. same_open r (new_row item) ≡ false) rows
  new-alone rows =
      All-weaken (λ r. open_with item.factory item.workflow item.dedupe_key r ≡ false)
        (λ r. same_open r (new_row item) ≡ false) rows
        λ r off. ground (
          arith,
          eq_iff item.factory r.factory,
          eq_iff r.factory item.factory,
          eq_iff item.workflow r.workflow,
          eq_iff r.workflow item.workflow,
          eq_iff item.dedupe_key r.dedupe_key,
          eq_iff r.dedupe_key item.dedupe_key,
        )

  pub find_open-none :
      (db : Db)
      → find_open item.factory item.workflow item.dedupe_key db ≡ none
      → All (λ r. open_with item.factory item.workflow item.dedupe_key r ≡ false) db.items
  unfolding find_open
  find_open-none db h =
      select-nil (open_with item.factory item.workflow item.dedupe_key) db.items
        (first_by-none _ _ h)

  enqueue_tx-OneOpen :
      (db db' : Db) (r : FactoryWorkItem × Bool)
      → OneOpen db.items
      → enqueue_tx item attempt event dedupe_event db ≡ ok (r, db')
      → OneOpen db'.items
  unfolding enqueue_tx
  enqueue_tx-OneOpen db db' r h e = elim (Bool-cases (item.dedupe_key == "")) [
    | inl blank ↦ added (new-closed db.items blank) (rw blank at e)
    | inr keyed ↦ go (find_open item.factory item.workflow item.dedupe_key db) refl (rw keyed at e)
  ]
    where
      added :
          All (λ s. same_open s (new_row item) ≡ false) db.items
          → enqueue_with item attempt event dedupe_event none db ≡ ok (r, db')
          → OneOpen db'.items
      added alone e' =
          subst OneOpen (sym (items-insert_all db db' r (unfold enqueue_with in e')))
            (Each-append_one (λ s t. same_open s t ≡ false) db.items (new_row item) h alone)

      go :
          (found : Option ItemRow)
          → find_open item.factory item.workflow item.dedupe_key db ≡ found
          → enqueue_with item attempt event dedupe_event
              (find_open item.factory item.workflow item.dedupe_key db)
              db
            ≡ ok (r, db')
          → OneOpen db'.items
      go none f e' = added (new-alone db.items (find_open-none db f)) (rw f at e')
      go (some row) f e' =
          subst OneOpen (sym (items-dedupe row db db' r (unfold enqueue_with in (rw f at e')))) h

-- A request to enqueue, accepted, deduped or refused, keeps the open items apart.
pub enqueue-OneOpen :
    (item : Columns Time (List String) Meta) (attempt : Attempt Time)
    (event dedupe_event : Event Time Meta) (db db' : Db)
    → OneOpen db.items
    → (enqueue item attempt event dedupe_event (some db)).1 ≡ some db'
    → OneOpen db'.items
unfolding enqueue
enqueue-OneOpen item attempt event dedupe_event db db' h =
    commit-keeps (λ d. OneOpen d.items) db db' (enqueue_tx item attempt event dedupe_event db) h
      λ r d. enqueue_tx-OneOpen item attempt event dedupe_event db d r h
