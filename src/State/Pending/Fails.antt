-- ===== src/State/Pending/Fails.antt =====
-- Errors of UpdatePendingFactoryWorkItem of internal/state/factory_enqueue.go.
use bachkator.Base.{
  String, true, ◌&&◌, Option, none, some, List, [], ◌∷◌, ◌==◌, find, find-update, exists, ok, err,
  ◌>>=◌, ◌≡◌, ◌≢◌, arith, eq_iff, refl, sym, ap, ◌∙◌, Bool-cases, Option-cases, inl, inr, ◌⊎◌,
}
use bachkator.Model.{pending}
use bachkator.State.Time.{Time}
use bachkator.State.Tables.{
  Meta, Outcome, Columns, Attempt, Event, EventRow, FactoryWorkItem, ItemRow, Db, constraint,
  bad_json, StoreError,
}
use bachkator.State.Items.{get_item, keyed, load_row, scan_item, read_json, insert_event}
use bachkator.State.Enqueue.{insert_event_if, with_attempt}
use bachkator.State.Enqueue.OneOpen.{items-insert_event_if}
use bachkator.State.Pending.{
  join, labels_text, overwrite, taken, overwritten, update_row, update_pending,
}

-- An insertion of an event whose id the table has.
insert_event-taken :
    (event : Event Time Meta) (db : Db)
    → exists (λ (e : EventRow). e.id == event.id) db.events ≡ true
    → insert_event event db ≡ err constraint
unfolding insert_event
insert_event-taken event db h = ground arith

with_attempt-id :
    (attempts : List (Attempt Time)) (event : Event Time Meta)
    → (with_attempt attempts event).id ≡ event.id
with_attempt-id [] event = refl
with_attempt-id (a ∷ rest) event = refl

insert_event_if-taken :
    (event : Event Time Meta) (db : Db)
    → event.id ≢ ""
    → exists (λ (e : EventRow). e.id == event.id) db.events ≡ true
    → insert_event_if event db ≡ err constraint
unfolding insert_event_if
insert_event_if-taken event db named h =
    ground (arith, insert_event-taken event db h, eq_iff event.id "")

load_row-bad :
    (db : Db) (row : ItemRow)
    → read_json [] row.labels ≡ err bad_json
    → load_row db (some row) ≡ err bad_json
unfolding load_row scan_item
load_row-bad db row h = ground arith

labels_text-bad :
    (as_labels : String → Option (List String)) (s : String)
    → as_labels s ≡ none
    → s ≢ ""
    → read_json [] (labels_text as_labels s) ≡ err bad_json
labels_text-bad as_labels s no_json some_label = ground (arith, eq_iff s "")

module _ (as_labels : String → Option (List String)) (item : Columns Time (List String) Meta)
    (event : Event Time Meta) (db : Db) (existing : FactoryWorkItem)
    (got : get_item item.factory item.id db ≡ ok existing)
    (waits : existing.lifecycle ≡ pending) where
  abbrev noted : Outcome Db
  noted = insert_event_if (with_attempt existing.attempts event) (overwritten as_labels item db)

  -- What the rest of an update does after the event is written.
  abbrev reread : Db → Outcome (Option FactoryWorkItem × Db)
  reread db₁ = get_item item.factory item.id db₁ >>= λ loaded. ok (some loaded, db₁)

  update_row-cases :
      (update_row as_labels item event db existing ≡ err constraint)
      ⊎ (update_row as_labels item event db existing ≡ (noted >>= reread))
  unfolding update_row
  update_row-cases =
      elim (Bool-cases
        (exists (λ (r : ItemRow). taken item r && (r.workflow == existing.workflow)) db.items)) [
          | inl t ↦ inl (rw waits (rw t refl))
          | inr f ↦ inr (rw waits (rw f refl))
        ]

  fails :
      (e : StoreError)
      → update_row as_labels item event db existing ≡ err e
      → update_pending as_labels item event (some db) ≡ (err e, some db)
  unfolding update_pending
  fails e h = rw got (rw h refl)

  -- Where the table of events has the id of the update's event, the update of a pending item fails
  -- and changes nothing.
  pub update_pending-event_taken :
      event.id ≢ ""
      → exists (λ (e : EventRow). e.id == event.id) db.events ≡ true
      → update_pending as_labels item event (some db) ≡ (err constraint, some db)
  update_pending-event_taken named h = fails constraint (elim update_row-cases [
    | inl c ↦ c
    | inr c ↦
        c
        ∙ ap (λ (m : Outcome Db). m >>= reread)
            (insert_event_if-taken (with_attempt existing.attempts event)
              (overwritten as_labels item db)
              (λ e. named (sym (with_attempt-id existing.attempts event) ∙ e))
              (rw with_attempt-id h))
  ])

  stored_row : (row : ItemRow) × (find (keyed item.factory item.id) db.items ≡ some row)
  unfolding get_item load_row
  stored_row = elim (Option-cases (find (keyed item.factory item.id) db.items)) [
    | inl n ↦ absurd (ground arith)
    | inr found ↦ found
  ]

  abbrev written : ItemRow → ItemRow
  written = overwrite item (labels_text as_labels (join item.labels))

  load-bad :
      (db₁ : Db) (row : ItemRow)
      → as_labels (join item.labels) ≡ none
      → join item.labels ≢ ""
      → load_row db₁ (some (written row)) ≡ err bad_json
  load-bad db₁ row no_json some_label =
      load_row-bad db₁ (written row)
        (labels_text-bad as_labels (join item.labels) no_json some_label)

  reread-bad :
      (db₁ : Db)
      → noted ≡ ok db₁
      → as_labels (join item.labels) ≡ none
      → join item.labels ≢ ""
      → reread db₁ ≡ err bad_json
  unfolding get_item
  reread-bad db₁ h no_json some_label =
      let (row, found) = stored_row in
      let same : db₁.items ≡ (overwritten as_labels item db).items =
        items-insert_event_if (with_attempt existing.attempts event) (overwritten as_labels item db)
          db₁ h in
      let hit : find (keyed item.factory item.id) db₁.items ≡ some (written row) =
        ap (find (keyed item.factory item.id)) same
        ∙ find-update (keyed item.factory item.id) written (λ x k. k) db.items row found in
      ap (λ (m : Outcome FactoryWorkItem). m >>= λ loaded. ok (some loaded, db₁))
        (ap (load_row db₁) hit ∙ load-bad db₁ row no_json some_label)

  -- Where the text of the labels joined by commas is not empty and not JSON for a list of texts,
  -- the update of a pending item fails and changes nothing.
  pub update_pending_labels :
      as_labels (join item.labels) ≡ none
      → join item.labels ≢ ""
      → (e : StoreError) × (update_pending as_labels item event (some db) ≡ (err e, some db))
  update_pending_labels no_json some_label = elim update_row-cases [
    | inl c ↦ (constraint, fails constraint c)
    | inr c ↦ go noted refl c
  ]
    where
      go :
          (m : Outcome Db)
          → noted ≡ m
          → update_row as_labels item event db existing ≡ (noted >>= reread)
          → (e : StoreError) × (update_pending as_labels item event (some db) ≡ (err e, some db))
      go (ok db₁) h c = (
        bad_json,
        fails bad_json
            (c ∙ ap (λ (x : Outcome Db). x >>= reread) h ∙ reread-bad db₁ h no_json some_label),
      )
      go (err e) h c = (e, fails e (c ∙ ap (λ (x : Outcome Db). x >>= reread) h))
