-- ===== src/State/Queue/Keeps.antt =====
-- The open items under the calls of internal/state that do not enqueue.
use bachkator.Base.{
  String, Bool, true, false, Option, none, some, List, ◌==◌, ◌&&◌, exists, update, changed, ok, err,
  >>=-eq-ok, ◌≡◌, ◌⊎◌, inl, inr, All, arith, subst, sym, ap, ◌∙◌, Bool-cases,
}
use bachkator.Model.{Lifecycle, is_pending, is_cancelled}
use bachkator.State.Time.{Time}
use bachkator.State.Tables.{
  Meta, Outcome, Columns, Event, Phase, Approval, FactoryWorkItem, ItemRow, Db, no_rows,
  not_pending, constraint, Json,
}
use bachkator.State.Items.{get_item, keyed}
use bachkator.State.Enqueue.{is_open, insert_event_if}
use bachkator.State.Enqueue.OneOpen.{
  OneOpen, NoOpening, update-OneOpen, update-OneOpen_where, items-insert_event_if,
}
use bachkator.State.Claim.{claim_row, unclaimed, take}
use bachkator.State.Finish.{
  or_missing, cancel_item, cancel_db, cancel_row, finish_item, finish_db, finish_row,
}
use bachkator.State.Phases.{move_items, start_row, wait_row}
use bachkator.State.Pending.{update_row, overwrite, overwritten, labels_text, join, taken}
use bachkator.State.Approvals.{
  approve_tx, approve_found, add_approval, insert_approval, check_waiting, get_approval,
}

pub or_missing-keeps :
    (P : Db → Type 0) (db db' : Db) (found : Outcome FactoryWorkItem)
    (f : FactoryWorkItem → Outcome (Option FactoryWorkItem × Db)) (r : Option FactoryWorkItem)
    → P db
    → ((item : FactoryWorkItem) (d : Db) (x : Option FactoryWorkItem) → f item ≡ ok (x, d) → P d)
    → or_missing db found f ≡ ok (r, db')
    → P db'
or_missing-keeps P db db' (ok item) f r h keep e = keep item db' r e
or_missing-keeps P db db' (err no_rows) f r h keep e =
    subst P
      (ap (λ (x : Outcome (Option FactoryWorkItem × Db)). elim x [ ok (a, d) ↦ d | err z ↦ db ]) e)
      h
or_missing-keeps P db db' (err x) f r h keep e = cc

-- A claim leaves the database or updates the row.
pub claim_row-db :
    (factory daemon : String) (at expires : Time) (db db' : Db) (x : ItemRow)
    (r : Option FactoryWorkItem)
    → claim_row factory daemon at expires db (some x) ≡ ok (r, db')
    → (db' ≡ db)
      ⊎ (db'
          ≡ record db { items = update (unclaimed factory x.id) (take daemon at expires) db.items })
unfolding claim_row
claim_row-db factory daemon at expires db db' x r e = ground arith

pub claim_row-OneOpen :
    (factory daemon : String) (at expires : Time) (db db' : Db) (c : Option ItemRow)
    (r : Option FactoryWorkItem)
    → OneOpen db.items
    → claim_row factory daemon at expires db c ≡ ok (r, db')
    → OneOpen db'.items
unfolding claim_row
claim_row-OneOpen factory daemon at expires db db' none r h e =
    let same : db ≡ db' = cc in subst (λ (d : Db). OneOpen d.items) same h
claim_row-OneOpen factory daemon at expires db db' (some x) r h e =
    let kept =
      update-OneOpen (unclaimed factory x.id) (take daemon at expires) db.items (λ y. ground arith)
        h in
    elim (claim_row-db factory daemon at expires db db' x r e) [
      | inl same ↦ subst (λ (d : Db). OneOpen d.items) (sym same) h
      | inr new ↦ subst (λ (d : Db). OneOpen d.items) (sym new) kept
    ]

-- A cancellation that succeeds found the item cancelled, or pending and cancels it.
pub cancel_item-items :
    (factory id reason : String) (at : Time) (event : Event Time Meta) (db db' : Db)
    (item : FactoryWorkItem) (r : Option FactoryWorkItem)
    → cancel_item factory id reason at event db item ≡ ok (r, db')
    → (db'.items ≡ db.items)
      ⊎ (db'.items ≡ update (keyed factory id) (cancel_row reason at) db.items)
unfolding cancel_item
cancel_item-items factory id reason at event db db' item r e =
    elim (Bool-cases (is_cancelled item.lifecycle)) [
      | inl c ↦
          let stop : ◌≡◌ {A = Outcome (Option FactoryWorkItem × Db)} (ok (some item, db))
              (ok (r, db')) =
            rw c at e in
          let same : db ≡ db' = cc in inl (sym (ap (λ (d : Db). d.items) same))
      | inr n ↦ elim (Bool-cases (is_pending item.lifecycle)) [
        | inl p ↦
            let (db₁, inserted, rest) = >>=-eq-ok _ _ (rw p at (rw n at e)) in
            let (loaded, got, ends) = >>=-eq-ok (get_item factory id db₁) _ rest in
            let same : db₁ ≡ db' = cc in
            inr (
              sym (ap (λ (d : Db). d.items) same)
              ∙ items-insert_event_if _ (cancel_db factory id reason at db) db₁ inserted)
        | inr q ↦ absurd (not_cancelled (rw q at (rw n at e)))
      ]
    ]
  where
    not_cancelled :
        ◌≡◌ {A = Outcome (Option FactoryWorkItem × Db)} (err (not_pending id)) (ok (r, db')) → ⊥
    not_cancelled x = cc

pub cancel_item-OneOpen :
    (factory id reason : String) (at : Time) (event : Event Time Meta) (db db' : Db)
    (item : FactoryWorkItem) (r : Option FactoryWorkItem)
    → OneOpen db.items
    → cancel_item factory id reason at event db item ≡ ok (r, db')
    → OneOpen db'.items
cancel_item-OneOpen factory id reason at event db db' item r h e =
    elim (cancel_item-items factory id reason at event db db' item r e) [
      | inl same ↦ subst OneOpen (sym same) h
      | inr new ↦
          subst OneOpen (sym new) (
            update-OneOpen (keyed factory id) (cancel_row reason at) db.items (λ y. ground arith) h)
    ]

pub finish_item-OneOpen :
    (factory id : String) (l : Lifecycle) (phase message : String) (at : Time) (db db' : Db)
    (item : FactoryWorkItem) (r : Option FactoryWorkItem)
    → is_open l ≡ false
    → OneOpen db.items
    → finish_item factory id l phase message at db item ≡ ok (r, db')
    → OneOpen db'.items
unfolding finish_item
finish_item-OneOpen factory id l phase message at db db' item r closed h e =
    let kept =
      update-OneOpen (keyed factory id) (finish_row l phase message at) db.items (λ y. ground arith)
        h in
    let new = finish_db factory id l phase message at item.attempts db in
    let (loaded, got, ends) = >>=-eq-ok (get_item factory id new) _ e in
    let same : new ≡ db' = cc in subst (λ (d : Db). OneOpen d.items) same kept

-- The item that the call is about is open.
abbrev pub IsOpenItem : String → Db → Type 0
IsOpenItem id db = All (λ (r : ItemRow). (r.id == id) ≡ true → is_open r.lifecycle ≡ true) db.items

abbrev OpenIf : Phase Time Meta → ItemRow → Type 0
OpenIf p r = (r.id == p.work_item_id) ≡ true → is_open r.lifecycle ≡ true

start-NoOpening :
    (p : Phase Time Meta) (y : ItemRow)
    → OpenIf p y
    → NoOpening y (changed (λ (r : ItemRow). r.id == p.work_item_id) (start_row p) y)
start-NoOpening p y k = elim (Bool-cases (y.id == p.work_item_id)) [
  | inl e ↦ let opened = k e in ground arith
  | inr e ↦ ground arith
]

wait-NoOpening :
    (p : Phase Time Meta) (y : ItemRow)
    → OpenIf p y
    → NoOpening y (changed (λ (r : ItemRow). r.id == p.work_item_id) (wait_row p) y)
wait-NoOpening p y k = elim (Bool-cases (y.id == p.work_item_id)) [
  | inl e ↦ let opened = k e in ground arith
  | inr e ↦ ground arith
]

pub move_items-OneOpen :
    (p : Phase Time Meta) (rows : List ItemRow)
    → All (λ (r : ItemRow). (r.id == p.work_item_id) ≡ true → is_open r.lifecycle ≡ true) rows
    → OneOpen rows
    → OneOpen (move_items p rows)
unfolding move_items
move_items-OneOpen p rows o h = elim (Bool-cases (p.status == "running")) [
  | inl run ↦ rw run (
      update-OneOpen_where (OpenIf p) (λ (r : ItemRow). r.id == p.work_item_id) (start_row p) rows
        (λ y k. start-NoOpening p y k) o h)
  | inr other ↦ rw other (elim (Bool-cases (p.status == "waiting_approval")) [
    | inl wait ↦ rw wait (
        update-OneOpen_where (OpenIf p) (λ (r : ItemRow). r.id == p.work_item_id) (wait_row p) rows
          (λ y k. wait-NoOpening p y k) o h)
    | inr none_ ↦ rw none_ h
  ])
]

insert_approval-items :
    (a : Approval Time Meta) (db db' : Db) → insert_approval a db ≡ ok db' → db'.items ≡ db.items
unfolding insert_approval
insert_approval-items a db db' e = ground arith

add_approval-items :
    (a : Approval Time Meta) (event : Event Time Meta) (db db' : Db) (r : Approval Time Meta × Bool)
    → add_approval a event db ≡ ok (r, db')
    → db'.items ≡ db.items
unfolding add_approval
add_approval-items a event db db' r e =
    let (item, got, rest) = >>=-eq-ok (get_item a.factory a.work_item_id db) _ e in
    let (u, waits, rest₁) = >>=-eq-ok (check_waiting a item) _ rest in
    let (db₁, inserted, rest₂) = >>=-eq-ok (insert_approval a db) _ rest₁ in
    let (db₂, noted, rest₃) = >>=-eq-ok (insert_event_if event db₁) _ rest₂ in
    let (loaded, got', ends) = >>=-eq-ok (get_approval a.id db₂) _ rest₃ in
    let same : db₂ ≡ db' = cc in
    sym (ap (λ (d : Db). d.items) same)
    ∙ items-insert_event_if event db₁ db₂ noted
    ∙ insert_approval-items a db db₁ inserted

-- An approval changes no item.
pub approve_tx-items :
    (a : Approval Time Meta) (event : Event Time Meta) (db db' : Db) (r : Approval Time Meta × Bool)
    → approve_tx a event db ≡ ok (r, db')
    → db'.items ≡ db.items
unfolding approve_tx approve_found
approve_tx-items a event db db' r e = ground (arith, add_approval-items a event db db' r)

-- The update gives the item the dedupe key that it has.
abbrev pub KeepsKey : Columns Time (List String) Meta → Db → Type 0
KeepsKey item db =
    All (λ (r : ItemRow). keyed item.factory item.id r ≡ true → r.dedupe_key ≡ item.dedupe_key)
      db.items

abbrev KeyIf : Columns Time (List String) Meta → ItemRow → Type 0
KeyIf item r = keyed item.factory item.id r ≡ true → r.dedupe_key ≡ item.dedupe_key

-- An update that succeeds changes no item or writes the one with the key of the table.
pub update_row-items :
    (as_labels : String → Option (List String)) (item : Columns Time (List String) Meta)
    (event : Event Time Meta) (db db' : Db) (existing : FactoryWorkItem)
    (r : Option FactoryWorkItem)
    → update_row as_labels item event db existing ≡ ok (r, db')
    → (db'.items ≡ db.items) ⊎ (db'.items ≡ (overwritten as_labels item db).items)
unfolding update_row
update_row-items as_labels item event db db' existing r e =
    elim (Bool-cases (is_pending existing.lifecycle)) [
      | inr n ↦
          let stop : ◌≡◌ {A = Outcome (Option FactoryWorkItem × Db)} (ok (none, db)) (ok (r, db')) =
            rw (update_row, n) at e in
          let same : db ≡ db' = cc in inl (sym (ap (λ (d : Db). d.items) same))
      | inl p ↦
          elim (Bool-cases (
            exists (λ (x : ItemRow). taken item x && (x.workflow == existing.workflow)) db.items)) [
              | inl t ↦ absurd (refused (rw (update_row, p, t) at e))
              | inr t ↦
                  let (db₁, inserted, rest) = >>=-eq-ok _ _ (rw (update_row, p, t) at e) in
                  let (loaded, got, ends) = >>=-eq-ok (get_item item.factory item.id db₁) _ rest in
                  let same : db₁ ≡ db' = cc in
                  inr (
                    sym (ap (λ (d : Db). d.items) same)
                    ∙ items-insert_event_if _ (overwritten as_labels item db) db₁ inserted)
            ]
    ]
  where
    refused : ◌≡◌ {A = Outcome (Option FactoryWorkItem × Db)} (err constraint) (ok (r, db')) → ⊥
    refused x = cc

overwrite-NoOpening :
    (item : Columns Time (List String) Meta) (labels : Json (List String)) (y : ItemRow)
    → KeyIf item y
    → NoOpening y (changed (keyed item.factory item.id) (overwrite item labels) y)
overwrite-NoOpening item labels y k = elim (Bool-cases (keyed item.factory item.id y)) [
  | inl e ↦ let same = k e in ground arith
  | inr e ↦ ground arith
]

pub update_row-OneOpen :
    (as_labels : String → Option (List String)) (item : Columns Time (List String) Meta)
    (event : Event Time Meta) (db db' : Db) (existing : FactoryWorkItem)
    (r : Option FactoryWorkItem)
    → KeepsKey item db
    → OneOpen db.items
    → update_row as_labels item event db existing ≡ ok (r, db')
    → OneOpen db'.items
update_row-OneOpen as_labels item event db db' existing r key h e =
    let labels = labels_text as_labels (join item.labels) in
    elim (update_row-items as_labels item event db db' existing r e) [
      | inl same ↦ subst OneOpen (sym same) h
      | inr new ↦ subst OneOpen (sym new) (
          update-OneOpen_where (KeyIf item) (keyed item.factory item.id) (overwrite item labels)
            db.items (overwrite-NoOpening item labels) key h)
    ]
