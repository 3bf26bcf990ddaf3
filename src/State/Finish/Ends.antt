-- ===== src/State/Finish/Ends.antt =====
-- CancelFactoryWorkItem of internal/state/factory.go, CompleteFactoryWorkItem and
-- FailFactoryWorkItem of factory_daemon.go: what they return.
use bachkator.Base.{
  String, Option, none, some, List, if◌then◌else◌, ok, err, ◌>>=◌, >>=-eq-ok, ◌≡◌, ◌≢◌, refl, subst,
  sym, ap, ◌∙◌, Bool-cases, inl, inr, In, In-update_inv,
}
use mathlib.Core.Bool.{true≢false}
use bachkator.Model.{
  Lifecycle, pending, cancelled, completed, failed, claimed, running, waiting_approval, is_pending,
  is_cancelled,
}
use bachkator.State.Time.{Time}
use bachkator.State.Tables.{
  Meta, Outcome, Event, Attempt, FactoryWorkItem, ItemRow, Db, commit, commit-eq-ok, not_pending,
  no_rows,
}
use bachkator.State.Items.{get_item, keyed}
use bachkator.State.Items.Loads.{get_item-IsLoaded, IsLoaded-lifecycle}
use bachkator.State.Enqueue.{insert_event_if, with_attempt}
use bachkator.State.Finish.{
  or_missing, cancel, cancel_item, cancel_db, finish, finish_item, finish_db, finish_row,
}

-- Cancelling an item that is neither pending nor cancelled fails and changes nothing; of an item
-- that is cancelled it returns it and changes nothing.
cancel_refused :
    (factory id reason : String) (at : Time) (event : Event Time Meta) (db : Db)
    (item : FactoryWorkItem)
    → get_item factory id db ≡ ok item
    → item.lifecycle ≢ pending
    → cancel factory id reason at event (some db)
      ≡ ((if is_cancelled item.lifecycle then ok (some item) else err (not_pending id)), some db)
unfolding cancel cancel_item
cancel_refused factory id reason at event db item got h = rw got (go item.lifecycle h)
  where
    go :
        (l : Lifecycle)
        → l ≢ pending
        → commit db (
            if is_cancelled l
            then ok (some item, db)
            else if is_pending l
            then (insert_event_if
                  (with_attempt item.attempts (record event { work_item_id = id }))
                  (cancel_db factory id reason at db)
                >>= λ db'. get_item factory id db' >>= λ loaded. ok (some loaded, db'))
            else err (not_pending id))
          ≡ ((if is_cancelled l then ok (some item) else err (not_pending id)), some db)
    go pending n = absurd (n refl)
    go claimed n = refl
    go running n = refl
    go waiting_approval n = refl
    go cancelled n = refl
    go completed n = refl
    go failed n = refl

-- An item that is returned was there before.
or_missing-some :
    (db db' : Db) (found : Outcome FactoryWorkItem)
    (f : FactoryWorkItem → Outcome (Option FactoryWorkItem × Db)) (item : FactoryWorkItem)
    → or_missing db found f ≡ ok (some item, db')
    → (old : FactoryWorkItem) × (found ≡ ok old) × (f old ≡ ok (some item, db'))
or_missing-some db db' (ok old) f item e = (old, refl, e)
or_missing-some db db' (err no_rows) f item e = absurd (none_found e)
  where
    none_found :
        ◌≡◌ {A = Outcome (Option FactoryWorkItem × Db)} (ok (none, db)) (ok (some item, db')) → ⊥
    none_found x = cc
or_missing-some db db' (err x) f item e = cc

module _ (factory id : String) (at : Time) (db db' : Db) (item : FactoryWorkItem) where
  pub finish-eq-ok :
      (l : Lifecycle) (phase message : String)
      → finish factory id l phase message at (some db) ≡ (ok (some item), some db')
      → (old : FactoryWorkItem) × (db' ≡ finish_db factory id l phase message at old.attempts db)
        × (get_item factory id db' ≡ ok item)
  unfolding finish finish_item
  finish-eq-ok l phase message e =
      let (old, got, ends) =
        or_missing-some db db' (get_item factory id db)
          (finish_item factory id l phase message at db) item
          (commit-eq-ok db db' _ (some item) e) in
      let new = finish_db factory id l phase message at old.attempts db in
      let (loaded, got', is) = >>=-eq-ok (get_item factory id new) _ ends in
      let same : new ≡ db' = cc in
      let same_item : loaded ≡ item = cc in
      (old, sym same, ap (get_item factory id) (sym same) ∙ got' ∙ ap ok same_item)

  pub finished :
      (l : Lifecycle) (phase message : String) (attempts : List (Attempt Time))
      → db' ≡ finish_db factory id l phase message at attempts db
      → get_item factory id db' ≡ ok item
      → item.lifecycle ≡ l
  finished l phase message attempts same got =
      let (row, m, k, read) = get_item-IsLoaded factory id db' item got in
      let (x, mx, is) =
        In-update_inv (keyed factory id) (finish_row l phase message at) row db.items
          (subst (λ (d : Db). In row d.items) same m) in
      sym (IsLoaded-lifecycle db' row item read) ∙ (elim (Bool-cases (keyed factory id x)) [
        | inl hit ↦
            ap (λ (z : ItemRow). z.lifecycle)
              (is ∙ ap (λ b. if b then finish_row l phase message at x else x) hit)
        | inr miss ↦ absurd (
            true≢false (
              sym k
              ∙ ap (keyed factory id)
                  (is ∙ ap (λ b. if b then finish_row l phase message at x else x) miss)
              ∙ miss))
      ])
