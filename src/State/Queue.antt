-- ===== src/State/Queue.antt =====
-- The factory queue as a whole: the calls that change its work items, in any order.
mod Keeps
pub mod Closed
use Keeps.{
  IsOpenItem, KeepsKey, update_row-OneOpen, or_missing-keeps, claim_row-OneOpen,
  cancel_item-OneOpen, finish_item-OneOpen, move_items-OneOpen, approve_tx-items,
}
use bachkator.Base.{
  String, Bool, true, false, ◌||◌, Option, some, List, [], ◌==◌, if◌then◌else◌, Result, ok, err,
  ◌≡◌, arith, refl, subst, sym, Bool-cases, inl, inr, ◌≤◌, ◌≢◌, affected, affected_single, Each,
  All-weaken, eq_iff, ◌&&◌, not, ◌∷◌,
}
use bachkator.Model.{Lifecycle, completed, failed}
use bachkator.State.Time.{Time, format_time}
use bachkator.State.Tables.{
  Meta, Outcome, Columns, Attempt, Event, Phase, Approval, FactoryWorkItem, ItemRow, Db,
  transaction, commit, commit-keeps,
}
use bachkator.State.Items.{get_item}
use mathlib.Core.Option.{some-injective}
use bachkator.State.Enqueue.{is_open, enqueue, open_with}
use bachkator.State.Enqueue.OneOpen.{OneOpen, same_open, enqueue-OneOpen}
use bachkator.State.Claim.{claim, claim_tx, next_item}
use bachkator.State.Finish.{cancel, cancel_item, finish, finish_item, complete, fail}
use bachkator.State.Phases.{update_phase, phase_tx, move_items, is_incomplete}
use bachkator.State.Pending.{update_pending, update_row}
use bachkator.State.Approvals.{record_approval, approve_tx}

-- One call on an open store. The daemon reports phases of items that it works on or that wait:
-- `update_phase` itself would move a closed item too. A provider updates the item that an enqueue
-- of the same dedupe key returned to it, so an update keeps the key: `update_pending` itself would
-- write any key.
pub data QueueStep (s s' : Db) : Type 0 where
  enqueues :
      (item : Columns Time (List String) Meta) (attempt : Attempt Time)
      (event dedupe_event : Event Time Meta)
      → (enqueue item attempt event dedupe_event (some s)).1 ≡ some s'
      → QueueStep s s'
  claims :
      (factory daemon : String) (at expires : Time)
      → (claim factory daemon at expires (some s)).1 ≡ some s'
      → QueueStep s s'
  reports :
      (p : Phase Time Meta)
      → IsOpenItem p.work_item_id s
      → (update_phase p (some s)).1 ≡ some s'
      → QueueStep s s'
  cancels :
      (factory id reason : String) (at : Time) (event : Event Time Meta)
      → (cancel factory id reason at event (some s)).1 ≡ some s'
      → QueueStep s s'
  completes :
      (factory id : String) (at : Time)
      → (complete factory id at (some s)).1 ≡ some s'
      → QueueStep s s'
  fails :
      (factory id phase message : String) (at : Time)
      → (fail factory id phase message at (some s)).1 ≡ some s'
      → QueueStep s s'
  approves :
      (a : Approval Time Meta) (event : Event Time Meta)
      → (record_approval a event (some s)).1 ≡ some s'
      → QueueStep s s'
  updates :
      (as_labels : String → Option (List String)) (item : Columns Time (List String) Meta)
      (event : Event Time Meta)
      → KeepsKey item s
      → (update_pending as_labels item event (some s)).1 ≡ some s'
      → QueueStep s s'

pub data Reach (start : Db) : Db → Type 0 where
  here : Reach start start
  next : {s s' : Db} → Reach start s → QueueStep s s' → Reach start s'

claim-OneOpen :
    (factory daemon : String) (at expires : Time) (s s' : Db)
    → OneOpen s.items
    → (claim factory daemon at expires (some s)).1 ≡ some s'
    → OneOpen s'.items
unfolding claim claim_tx
claim-OneOpen factory daemon at expires s s' h =
    commit-keeps (λ d. OneOpen d.items) s s' (claim_tx factory daemon at expires s) h
      λ r d e. claim_row-OneOpen factory daemon at expires s d _ r h e

cancel-OneOpen :
    (factory id reason : String) (at : Time) (event : Event Time Meta) (s s' : Db)
    → OneOpen s.items
    → (cancel factory id reason at event (some s)).1 ≡ some s'
    → OneOpen s'.items
unfolding cancel
cancel-OneOpen factory id reason at event s s' h =
    commit-keeps (λ d. OneOpen d.items) s s' _ h
      λ r d.
        or_missing-keeps (λ (x : Db). OneOpen x.items) s d (get_item factory id s)
          (cancel_item factory id reason at event s) r h
          λ item x y. cancel_item-OneOpen factory id reason at event s x item y h

finish-OneOpen :
    (factory id : String) (l : Lifecycle) (phase message : String) (at : Time) (s s' : Db)
    → is_open l ≡ false
    → OneOpen s.items
    → (finish factory id l phase message at (some s)).1 ≡ some s'
    → OneOpen s'.items
unfolding finish
finish-OneOpen factory id l phase message at s s' closed h =
    commit-keeps (λ d. OneOpen d.items) s s' _ h
      λ r d.
        or_missing-keeps (λ (x : Db). OneOpen x.items) s d (get_item factory id s)
          (finish_item factory id l phase message at s) r h
          λ item x y. finish_item-OneOpen factory id l phase message at s x item y closed h

pub phase_tx-items :
    (p : Phase Time Meta) (s d : Db) (u : Unit {0})
    → phase_tx p s ≡ ok (u, d)
    → d.items ≡ move_items p s.items
unfolding phase_tx
phase_tx-items p s d u e = ground arith

update_phase-OneOpen :
    (p : Phase Time Meta) (s s' : Db)
    → IsOpenItem p.work_item_id s
    → OneOpen s.items
    → (update_phase p (some s)).1 ≡ some s'
    → OneOpen s'.items
unfolding update_phase
update_phase-OneOpen p s s' o h e = elim (Bool-cases (is_incomplete p)) [
  | inl bad ↦ subst (λ (d : Db). OneOpen d.items) (some-injective _ _ (rw bad at e)) h
  | inr good ↦
      commit-keeps (λ d. OneOpen d.items) s s' (phase_tx p s) h
        (λ u d k. subst OneOpen (sym (phase_tx-items p s d u k)) (move_items-OneOpen p s.items o h))
        (rw good at e)
]

approve-OneOpen :
    (a : Approval Time Meta) (event : Event Time Meta) (s s' : Db)
    → OneOpen s.items
    → (record_approval a event (some s)).1 ≡ some s'
    → OneOpen s'.items
unfolding record_approval
approve-OneOpen a event s s' h =
    commit-keeps (λ d. OneOpen d.items) s s' (approve_tx a event s) h
      λ r d e. subst OneOpen (sym (approve_tx-items a event s d r e)) h

update_pending-OneOpen :
    (as_labels : String → Option (List String)) (item : Columns Time (List String) Meta)
    (event : Event Time Meta) (s s' : Db)
    → KeepsKey item s
    → OneOpen s.items
    → (update_pending as_labels item event (some s)).1 ≡ some s'
    → OneOpen s'.items
unfolding update_pending
update_pending-OneOpen as_labels item event s s' same h =
    commit-keeps (λ d. OneOpen d.items) s s' _ h
      λ r d.
        or_missing-keeps (λ (x : Db). OneOpen x.items) s d (get_item item.factory item.id s)
          (update_row as_labels item event s) r h
          λ existing x y. update_row-OneOpen as_labels item event s x existing y same h

QueueStep-OneOpen : {s s' : Db} → QueueStep s s' → OneOpen s.items → OneOpen s'.items
unfolding complete fail
QueueStep-OneOpen {s} {s'} (enqueues item attempt event dedupe_event e) h =
    enqueue-OneOpen item attempt event dedupe_event s s' h e
QueueStep-OneOpen {s} {s'} (claims factory daemon at expires e) h =
    claim-OneOpen factory daemon at expires s s' h e
QueueStep-OneOpen {s} {s'} (reports p o e) h = update_phase-OneOpen p s s' o h e
QueueStep-OneOpen {s} {s'} (cancels factory id reason at event e) h =
    cancel-OneOpen factory id reason at event s s' h e
QueueStep-OneOpen {s} {s'} (completes factory id at e) h =
    finish-OneOpen factory id completed "" "" at s s' refl h e
QueueStep-OneOpen {s} {s'} (fails factory id phase message at e) h =
    finish-OneOpen factory id failed phase message at s s' refl h e
QueueStep-OneOpen {s} {s'} (approves a event e) h = approve-OneOpen a event s s' h e
QueueStep-OneOpen {s} {s'} (updates as_labels item event same e) h =
    update_pending-OneOpen as_labels item event s s' same h e

Reach-OneOpen : {start s : Db} → OneOpen start.items → Reach start s → OneOpen s.items
Reach-OneOpen h here = h
Reach-OneOpen h (next r step) = QueueStep-OneOpen step (Reach-OneOpen h r)

-- From a database without items, after any calls that enqueue, claim, cancel, complete, fail,
-- approve or update items or report phases, in any order and by anyone, at most one open item has a
-- given factory, workflow and non-empty dedupe key. A reported phase is taken to be one of an open
-- item, and an update to give the item the dedupe key that it has.
pub Reach-one_open :
    (start s : Db) (factory workflow key : String)
    → start.items ≡ []
    → Reach start s
    → key ≢ ""
    → affected (open_with factory workflow key) s.items ≤ 1
Reach-one_open start s factory workflow key empty r named =
    affected_single (open_with factory workflow key) s.items
      (go s.items (Reach-OneOpen (rw empty tt) r))
  where
    go :
        (rows : List ItemRow)
        → OneOpen rows
        → Each
            (λ x y.
              open_with factory workflow key x ≡ true → open_with factory workflow key y ≡ false)
            rows
    go [] h = tt
    go (x ∷ rows) h = (
      All-weaken (λ y. same_open x y ≡ false) _ rows
          (λ y apart k. ground (
            arith,
            eq_iff key "",
            eq_iff x.dedupe_key key,
            eq_iff x.factory factory,
            eq_iff x.workflow workflow,
            eq_iff x.dedupe_key "",
          ))
          h.0,
      go rows h.1,
    )
