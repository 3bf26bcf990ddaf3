-- ===== src/State/Queue/Closed.antt =====
-- Closed items under the calls of internal/state: what CompleteFactoryWorkItem of factory_daemon.go
-- ends stays ended.
mod Rows
use bachkator.Base.{
  String, Bool, true, false, ◌&&◌, ◌||◌, Option, some, none, List, [], ◌∷◌, ◌++◌, ◌==◌, ok, update,
  changed, exists, All, All-weaken, All-intro, All-In, exists-In, exists-of-In, exists-none, ◌≡◌,
  inl, inr, arith, refl, sym, subst, ap, ◌∙◌, Bool-cases, if◌then◌else◌, eq_iff, >>=-eq-ok,
}
use mathlib.Core.Bool.{true≢false}
use mathlib.Core.Option.{some-injective}
use bachkator.Model.{Lifecycle, completed, failed}
use bachkator.State.Time.{Time, Stamp}
use bachkator.State.Tables.{
  Meta, Columns, Attempt, Event, Phase, FactoryWorkItem, ItemRow, Db, commit-keeps,
}
use bachkator.State.Items.{get_item, keyed, insert_item, pending_with}
use bachkator.State.Enqueue.{is_open, insert_all, enqueue, enqueue_tx, enqueue_with}
use bachkator.State.Enqueue.OneOpen.{items-dedupe, items-insert_all, new_row}
use bachkator.State.Claim.{claim, claim_tx, claim_row, unclaimed, take, claimable}
use bachkator.State.Finish.{
  cancel, cancel_item, cancel_row, finish, finish_item, finish_db, finish_row, complete, fail,
}
use bachkator.State.Finish.Ends.{finish-eq-ok, finished}
use bachkator.State.Items.Loads.{get_item-IsLoaded}
use bachkator.State.Phases.{update_phase, phase_tx, move_items, is_incomplete, start_row, wait_row}
use bachkator.State.Pending.{update_pending, update_row, overwrite, labels_text, join}
use bachkator.State.Approvals.{record_approval}
use bachkator.State.Queue.Keeps.{
  or_missing-keeps, claim_row-db, cancel_item-items, update_row-items, approve_tx-items,
}
use bachkator.State.Queue.{
  QueueStep, enqueues, claims, reports, cancels, completes, fails, approves, updates, Reach, here,
  next, phase_tx-items,
}
use bachkator.State.Queue.Closed.Rows.{
  ShutRow, Shut, claim_row-Shut, cancel_item-Shut, finish_item-Shut, is_hit, move_items-Shut,
  update_row-Shut, append-exists, append-ShutRow, insert_all-fresh,
}

module _ (factory id : String) where
  insert_all-Shut :
      (item : Columns Time (List String) Meta) (attempt : Attempt Time) (event : Event Time Meta)
      (db db' : Db) (r : FactoryWorkItem × Bool)
      → Shut factory id db.items
      → insert_all item attempt event db ≡ ok (r, db')
      → Shut factory id db'.items
  insert_all-Shut item attempt event db db' r (there_, shut) e =
      let (x, m, is) = exists-In (λ (y : ItemRow). y.id == id) db.items there_ in
      let apart =
        All-In (λ (y : ItemRow). ((y.id == item.id) || pending_with item y) ≡ false) db.items
          (exists-none (λ (y : ItemRow). (y.id == item.id) || pending_with item y) db.items
            (insert_all-fresh factory id item attempt event db db' r e))
          m in
      let other : ShutRow factory id (new_row item) =
        λ k. ground (arith, eq_iff x.id id, eq_iff item.id id, eq_iff x.id item.id) in
      subst (Shut factory id) (sym (items-insert_all item attempt event event db db' r e)) (
        append-exists factory id db.items (new_row item) there_,
        append-ShutRow factory id db.items (new_row item) other shut,
      )

  enqueue_tx-Shut :
      (item : Columns Time (List String) Meta) (attempt : Attempt Time)
      (event dedupe_event : Event Time Meta) (db db' : Db) (r : FactoryWorkItem × Bool)
      → Shut factory id db.items
      → enqueue_tx item attempt event dedupe_event db ≡ ok (r, db')
      → Shut factory id db'.items
  unfolding enqueue_tx enqueue_with
  enqueue_tx-Shut item attempt event dedupe_event db db' r h e = go _ e
    where
      go :
          (found : Option ItemRow)
          → enqueue_with item attempt event dedupe_event found db ≡ ok (r, db')
          → Shut factory id db'.items
      go none k = insert_all-Shut item attempt event db db' r h k
      go (some row) k =
          subst (Shut factory id)
            (sym (items-dedupe item attempt event dedupe_event row db db' r k)) h

  finish-Shut :
      (f i : String) (l : Lifecycle) (phase message : String) (at : Time) (s s' : Db)
      → is_open l ≡ false
      → Shut factory id s.items
      → (finish f i l phase message at (some s)).1 ≡ some s'
      → Shut factory id s'.items
  unfolding finish
  finish-Shut f i l phase message at s s' closed h =
      commit-keeps (λ d. Shut factory id d.items) s s' _ h
        λ r d.
          or_missing-keeps (λ (x : Db). Shut factory id x.items) s d (get_item f i s)
            (finish_item f i l phase message at s) r h
            λ item x y. finish_item-Shut factory id f i l phase message at s x item y closed h

  update_phase-Shut :
      (p : Phase Time Meta) (s s' : Db)
      → All (λ (r : ItemRow). is_hit factory id p r ≡ true → is_open r.lifecycle ≡ true) s.items
      → Shut factory id s.items
      → (update_phase p (some s)).1 ≡ some s'
      → Shut factory id s'.items
  unfolding update_phase
  update_phase-Shut p s s' o h e = elim (Bool-cases (is_incomplete p)) [
    | inl bad ↦ subst (λ (d : Db). Shut factory id d.items) (some-injective _ _ (rw bad at e)) h
    | inr good ↦
        commit-keeps (λ d. Shut factory id d.items) s s' (phase_tx p s) h
          (λ u d k.
            subst (Shut factory id) (sym (phase_tx-items p s d u k))
              (move_items-Shut factory id p s.items o h))
          (rw good at e)
  ]

  QueueStep-Shut : {s s' : Db} → QueueStep s s' → Shut factory id s.items → Shut factory id s'.items
  unfolding enqueue claim claim_tx cancel complete fail record_approval update_pending
  QueueStep-Shut {s} {s'} (enqueues item attempt event dedupe_event e) h =
      commit-keeps (λ d. Shut factory id d.items) s s' _ h
        (λ r d. enqueue_tx-Shut item attempt event dedupe_event s d r h) e
  QueueStep-Shut {s} {s'} (claims f daemon at expires e) h =
      commit-keeps (λ d. Shut factory id d.items) s s' (claim_tx f daemon at expires s) h
        (λ r d. claim_row-Shut factory id f daemon at expires s d _ r h) e
  QueueStep-Shut {s} {s'} (reports p o e) h = update_phase-Shut p s s' o h e
  QueueStep-Shut {s} {s'} (cancels f i reason at event e) h =
      commit-keeps (λ d. Shut factory id d.items) s s' _ h
        (λ r d.
          or_missing-keeps (λ (x : Db). Shut factory id x.items) s d (get_item f i s)
            (cancel_item f i reason at event s) r h
            λ item x y. cancel_item-Shut factory id f i reason at event s x item y h)
        e
  QueueStep-Shut {s} {s'} (completes f i at e) h = finish-Shut f i completed "" "" at s s' refl h e
  QueueStep-Shut {s} {s'} (fails f i phase message at e) h =
      finish-Shut f i failed phase message at s s' refl h e
  QueueStep-Shut {s} {s'} (approves a event e) h =
      commit-keeps (λ d. Shut factory id d.items) s s' _ h
        (λ r d k. subst (Shut factory id) (sym (approve_tx-items a event s d r k)) h) e
  QueueStep-Shut {s} {s'} (updates as_labels item event _ e) h =
      commit-keeps (λ d. Shut factory id d.items) s s' _ h
        (λ r d.
          or_missing-keeps (λ (x : Db). Shut factory id x.items) s d
            (get_item item.factory item.id s) (update_row as_labels item event s) r h
            λ existing x y. update_row-Shut factory id as_labels item event s x existing y h)
        e

  Reach-Shut :
      {start s : Db} → Shut factory id start.items → Reach start s → Shut factory id s.items
  Reach-Shut h here = h
  Reach-Shut h (next r step) = QueueStep-Shut step (Reach-Shut h r)

  ShutRow-claimable :
      (db : Db) (daemon : String) (now : Stamp) (r : ItemRow)
      → ShutRow factory id r
      → (keyed factory id r && claimable db factory daemon now r) ≡ false
  unfolding claimable
  ShutRow-claimable db daemon now r h = elim (Bool-cases (keyed factory id r)) [
    | inl k ↦ let shut = h k in ground arith
    | inr k ↦ rw k refl
  ]

  finish_row-ShutRow :
      (l : Lifecycle) (phase message : String) (at : Time) (rows : List ItemRow)
      → is_open l ≡ false
      → All (ShutRow factory id) (update (keyed factory id) (finish_row l phase message at) rows)
  finish_row-ShutRow l phase message at [] closed = tt
  finish_row-ShutRow l phase message at (r ∷ rows) closed = (
    elim (Bool-cases (keyed factory id r)) [
      | inl k ↦ rw k (λ _. closed)
      | inr k ↦ rw k (λ same. absurd (true≢false (sym same ∙ k)))
    ],
    finish_row-ShutRow l phase message at rows closed,
  )

  complete-Shut :
      (at : Time) (db db' : Db) (item : FactoryWorkItem)
      → complete factory id at (some db) ≡ (ok (some item), some db')
      → (item.lifecycle ≡ completed) × Shut factory id db'.items
  unfolding complete
  complete-Shut at db db' item e =
      let (old, same, got) = finish-eq-ok factory id at db db' item completed "" "" e in
      let (row, m, k, _) = get_item-IsLoaded factory id db' item got in
      (
        finished factory id at db db' item completed "" "" old.attempts same got,
        (
          exists-of-In (λ (r : ItemRow). r.id == id) db'.items row m (ground arith),
          subst (λ (d : Db). All (ShutRow factory id) d.items) (sym same)
              (finish_row-ShutRow completed "" "" at db.items refl),
        ),
      )

  -- An item that is completed is returned as completed, and stays ended: after any further calls
  -- that enqueue, claim, cancel, complete, fail, approve or update items or report phases, no
  -- daemon at any time may claim a row of its factory and id. A reported phase is taken to be one
  -- of an open item, and an update to give the item the dedupe key that it has.
  pub complete-Reach :
      (at : Time) (db db' s : Db) (item : FactoryWorkItem) (daemon : String) (now : Stamp)
      → complete factory id at (some db) ≡ (ok (some item), some db')
      → Reach db' s
      → (item.lifecycle ≡ completed)
        × All (λ r. (keyed factory id r && claimable s factory daemon now r) ≡ false) s.items
  complete-Reach at db db' s item daemon now e steps =
      let (ended, shut) = complete-Shut at db db' item e in
      (
        ended,
        All-weaken (ShutRow factory id)
            (λ r. (keyed factory id r && claimable s factory daemon now r) ≡ false) s.items
            (ShutRow-claimable s daemon now) (Reach-Shut shut steps).1,
      )
