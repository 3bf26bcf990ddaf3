-- ===== src/State/Queue/Closed/Rows.antt =====
-- The rows of a closed item under the calls of internal/state that change items.
use bachkator.Base.{
  String, Bool, true, false, ◌&&◌, ◌||◌, Option, some, none, List, [], ◌∷◌, ◌++◌, ◌==◌, ok, update,
  changed, exists, All, All-weaken, All-intro, ◌≡◌, inl, inr, arith, refl, sym, subst, ap, ◌∙◌,
  Bool-cases, if◌then◌else◌, >>=-eq-ok,
}
use mathlib.Core.Bool.{true≢false}
use bachkator.Model.{Lifecycle}
use bachkator.State.Time.{Time}
use bachkator.State.Tables.{Meta, Columns, Attempt, Event, Phase, FactoryWorkItem, ItemRow, Db}
use bachkator.State.Items.{get_item, keyed, insert_item, pending_with}
use bachkator.State.Enqueue.{is_open, insert_all}
use bachkator.State.Claim.{claim_row, unclaimed, take}
use bachkator.State.Finish.{cancel_item, cancel_row, finish_item, finish_db, finish_row}
use bachkator.State.Phases.{move_items, start_row, wait_row}
use bachkator.State.Pending.{update_row, overwrite, labels_text, join}
use bachkator.State.Queue.Keeps.{claim_row-db, cancel_item-items, update_row-items}

-- The row keeps its keys, and is not opened.
abbrev Stays : ItemRow → ItemRow → Type 0
Stays r s =
    (s.id ≡ r.id)
    × (s.factory ≡ r.factory)
    × (is_open r.lifecycle ≡ false → is_open s.lifecycle ≡ false)

module _ (factory id : String) where
  abbrev pub ShutRow : ItemRow → Type 0
  ShutRow r = keyed factory id r ≡ true → is_open r.lifecycle ≡ false

  -- There is a row with the id, and the rows of the factory and the id are closed.
  abbrev pub Shut : List ItemRow → Type 0
  Shut rows = (exists (λ (r : ItemRow). r.id == id) rows ≡ true) × All ShutRow rows

  Stays-ShutRow : (r s : ItemRow) → Stays r s → ShutRow r → ShutRow s
  Stays-ShutRow r s (is, of_, stays) shut k = stays (
      shut (
        ap (λ f. (f == factory) && (r.id == id)) (sym of_)
        ∙ ap (λ i. (s.factory == factory) && (i == id)) (sym is)
        ∙ k))

  update-exists :
      (test : ItemRow → Bool) (change : ItemRow → ItemRow) (rows : List ItemRow)
      → All (λ r. Stays r (changed test change r)) rows
      → exists (λ (r : ItemRow). r.id == id) rows ≡ true
      → exists (λ (r : ItemRow). r.id == id) (update test change rows) ≡ true
  update-exists test change [] h e = e
  update-exists test change (r ∷ rows) h e =
      let same = ap (λ i. i == id) (h.0).0 in
      elim (Bool-cases (r.id == id)) [
        | inl k ↦ ground (arith, same, k)
        | inr k ↦ ground (arith, same, k, update-exists test change rows h.1 (rw k at e))
      ]

  update-ShutRow :
      (test : ItemRow → Bool) (change : ItemRow → ItemRow) (rows : List ItemRow)
      → All (λ r. Stays r (changed test change r)) rows
      → All ShutRow rows
      → All ShutRow (update test change rows)
  update-ShutRow test change [] h k = tt
  update-ShutRow test change (r ∷ rows) h k =
      (Stays-ShutRow r (changed test change r) h.0 k.0, update-ShutRow test change rows h.1 k.1)

  update-Shut :
      (P : ItemRow → Type 0) (test : ItemRow → Bool) (change : ItemRow → ItemRow)
      (rows : List ItemRow)
      → ((r : ItemRow) → P r → Stays r (changed test change r))
      → All P rows
      → Shut rows
      → Shut (update test change rows)
  update-Shut P test change rows keep p (there_, shut) =
      let stays = All-weaken P (λ r. Stays r (changed test change r)) rows keep p in
      (update-exists test change rows stays there_, update-ShutRow test change rows stays shut)

  update-Shut_all :
      (test : ItemRow → Bool) (change : ItemRow → ItemRow) (rows : List ItemRow)
      → ((r : ItemRow) → Stays r (changed test change r))
      → Shut rows
      → Shut (update test change rows)
  update-Shut_all test change rows keep =
      update-Shut (λ r. Unit {0}) test change rows (λ r _. keep r) (All-intro _ rows λ r m. tt)

  pub claim_row-Shut :
      (f daemon : String) (at expires : Time) (db db' : Db) (c : Option ItemRow)
      (r : Option FactoryWorkItem)
      → Shut db.items
      → claim_row f daemon at expires db c ≡ ok (r, db')
      → Shut db'.items
  unfolding claim_row
  claim_row-Shut f daemon at expires db db' none r h e =
      let same : db ≡ db' = cc in subst (λ (d : Db). Shut d.items) same h
  claim_row-Shut f daemon at expires db db' (some x) r h e =
      let kept =
        update-Shut_all (unclaimed f x.id) (take daemon at expires) db.items (λ y. ground arith)
          h in
      elim (claim_row-db f daemon at expires db db' x r e) [
        | inl same ↦ subst (λ (d : Db). Shut d.items) (sym same) h
        | inr new ↦ subst (λ (d : Db). Shut d.items) (sym new) kept
      ]

  pub cancel_item-Shut :
      (f i reason : String) (at : Time) (event : Event Time Meta) (db db' : Db)
      (item : FactoryWorkItem) (r : Option FactoryWorkItem)
      → Shut db.items
      → cancel_item f i reason at event db item ≡ ok (r, db')
      → Shut db'.items
  cancel_item-Shut f i reason at event db db' item r h e =
      elim (cancel_item-items f i reason at event db db' item r e) [
        | inl same ↦ subst Shut (sym same) h
        | inr new ↦
            subst Shut (sym new)
              (update-Shut_all (keyed f i) (cancel_row reason at) db.items (λ y. ground arith) h)
      ]

  pub finish_item-Shut :
      (f i : String) (l : Lifecycle) (phase message : String) (at : Time) (db db' : Db)
      (item : FactoryWorkItem) (r : Option FactoryWorkItem)
      → is_open l ≡ false
      → Shut db.items
      → finish_item f i l phase message at db item ≡ ok (r, db')
      → Shut db'.items
  unfolding finish_item
  finish_item-Shut f i l phase message at db db' item r closed h e =
      let new = finish_db f i l phase message at item.attempts db in
      let (loaded, got, ends) = >>=-eq-ok (get_item f i new) _ e in
      let same : new ≡ db' = cc in
      subst (λ (d : Db). Shut d.items) same
        (update-Shut_all (keyed f i) (finish_row l phase message at) db.items (λ y. ground arith) h)

  abbrev pub is_hit : Phase Time Meta → ItemRow → Bool
  is_hit p r = r.id == p.work_item_id

  opened-Stays :
      (r s : ItemRow) (hit : Bool)
      → (hit ≡ true → is_open r.lifecycle ≡ true)
      → s.id ≡ r.id
      → s.factory ≡ r.factory
      → Stays r (if hit then s else r)
  opened-Stays r s hit o is of_ = ground arith

  pub move_items-Shut :
      (p : Phase Time Meta) (rows : List ItemRow)
      → All (λ (r : ItemRow). is_hit p r ≡ true → is_open r.lifecycle ≡ true) rows
      → Shut rows
      → Shut (move_items p rows)
  unfolding move_items
  move_items-Shut p rows o h = elim (Bool-cases (p.status == "running")) [
    | inl run ↦ rw run (
        update-Shut (λ r. is_hit p r ≡ true → is_open r.lifecycle ≡ true) (is_hit p) (start_row p)
          rows (λ r k. opened-Stays r (start_row p r) (is_hit p r) k refl refl) o h)
    | inr other ↦ rw other (elim (Bool-cases (p.status == "waiting_approval")) [
      | inl wait ↦ rw wait (
          update-Shut (λ r. is_hit p r ≡ true → is_open r.lifecycle ≡ true) (is_hit p) (wait_row p)
            rows (λ r k. opened-Stays r (wait_row p r) (is_hit p r) k refl refl) o h)
      | inr none_ ↦ rw none_ h
    ])
  ]

  pub update_row-Shut :
      (as_labels : String → Option (List String)) (item : Columns Time (List String) Meta)
      (event : Event Time Meta) (db db' : Db) (existing : FactoryWorkItem)
      (r : Option FactoryWorkItem)
      → Shut db.items
      → update_row as_labels item event db existing ≡ ok (r, db')
      → Shut db'.items
  update_row-Shut as_labels item event db db' existing r h e =
      elim (update_row-items as_labels item event db db' existing r e) [
        | inl same ↦ subst Shut (sym same) h
        | inr new ↦ subst Shut (sym new) (
            update-Shut_all (keyed item.factory item.id)
              (overwrite item (labels_text as_labels (join item.labels))) db.items
              (λ y. ground arith) h)
      ]

  pub append-exists :
      (rows : List ItemRow) (x : ItemRow)
      → exists (λ (r : ItemRow). r.id == id) rows ≡ true
      → exists (λ (r : ItemRow). r.id == id) (rows ++ x ∷ []) ≡ true
  append-exists [] x e = absurd (true≢false (sym e))
  append-exists (r ∷ rows) x e = elim (Bool-cases (r.id == id)) [
    | inl k ↦ rw k refl
    | inr k ↦ rw k (append-exists rows x (rw k at e))
  ]

  pub append-ShutRow :
      (rows : List ItemRow) (x : ItemRow)
      → ShutRow x
      → All ShutRow rows
      → All ShutRow (rows ++ x ∷ [])
  append-ShutRow [] x h k = (h, tt)
  append-ShutRow (r ∷ rows) x h k = (k.0, append-ShutRow rows x h k.1)

  pub insert_all-fresh :
      (item : Columns Time (List String) Meta) (attempt : Attempt Time) (event : Event Time Meta)
      (db db' : Db) (r : FactoryWorkItem × Bool)
      → insert_all item attempt event db ≡ ok (r, db')
      → exists (λ (x : ItemRow). (x.id == item.id) || pending_with item x) db.items ≡ false
  unfolding insert_all insert_item
  insert_all-fresh item attempt event db db' r e = ground arith
