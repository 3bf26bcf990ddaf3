-- ===== src/State/Phases.antt =====
-- UpdateFactoryWorkItemPhase of internal/state/factory_daemon.go: the phase that an item is in.
pub mod Starts
use bachkator.Base.{
  String, Bool, ◌&&◌, ◌||◌, none, some, List, [], ◌∷◌, ◌==◌, if◌then◌else◌, update, exists, ok, err,
}
use bachkator.Model.{running, waiting_approval}
use bachkator.State.Time.{Time, Stamp, blank, stamp, format_time}
use bachkator.State.Tables.{
  Meta, json, missing_fields, read_only, constraint, Outcome, Phase, PhaseRow, ItemRow, AttemptRow,
  Db, Store, commit,
}

abbrev pub phase_row : Phase Time Meta → PhaseRow
phase_row p = record {
  work_item_id = p.work_item_id;
  attempt_id = p.attempt_id;
  phase_key = p.phase_key;
  status = p.status;
  target = p.target;
  run_id = p.run_id;
  plan_path = p.plan_path;
  ledger_id = p.ledger_id;
  evidence = json p.evidence;
  started_at = format_time p.started_at;
  finished_at = format_time p.finished_at;
  updated_at = format_time p.updated_at;
}

-- The table's key.
abbrev pub same_phase : PhaseRow → PhaseRow → Bool
same_phase p q =
    (p.work_item_id == q.work_item_id)
    && (p.attempt_id == q.attempt_id)
    && (p.phase_key == q.phase_key)

-- COALESCE(NULLIF(old, ''), new)
abbrev pub first_stamp : Stamp → Stamp → Stamp
first_stamp blank new = new
first_stamp (stamp s bytes) new = stamp s bytes

-- INSERT … ON CONFLICT DO UPDATE: the first start stays.
unfoldable pub upsert_phase : PhaseRow → List PhaseRow → List PhaseRow
upsert_phase new [] = new ∷ []
upsert_phase new (p ∷ ps) =
    let rest = upsert_phase new ps in
    if same_phase p new
    then record new { started_at = first_stamp p.started_at new.started_at } ∷ ps
    else p ∷ rest

-- The two foreign keys.
abbrev pub refers : Db → String → String → Bool
refers db item attempt =
    exists (λ (r : ItemRow). r.id == item) db.items
    && exists (λ (a : AttemptRow). a.id == attempt) db.attempts

abbrev pub start_row : Phase Time Meta → ItemRow → ItemRow
start_row p r = record r {
  lifecycle = running;
  current_phase = p.phase_key;
  updated_at = format_time p.updated_at;
}

abbrev pub wait_row : Phase Time Meta → ItemRow → ItemRow
wait_row p r = record r {
  lifecycle = waiting_approval;
  current_phase = p.phase_key;
  claimed_by_daemon_id = "";
  claimed_at = blank;
  claim_expires_at = blank;
  updated_at = format_time p.updated_at;
}

-- What the status does to the item.
unfoldable pub move_items : Phase Time Meta → List ItemRow → List ItemRow
move_items p items =
    if p.status == "running"
    then update (λ (r : ItemRow). r.id == p.work_item_id) (start_row p) items
    else if p.status == "waiting_approval"
    then update (λ (r : ItemRow). r.id == p.work_item_id) (wait_row p) items
    else items

unfoldable pub phase_tx : Phase Time Meta → Db → Outcome (Unit {0} × Db)
phase_tx p db =
    if refers db p.work_item_id p.attempt_id
    then ok (
      tt,
      record db { phases = upsert_phase (phase_row p) db.phases; items = move_items p db.items },
    )
    else err constraint

abbrev pub is_incomplete : Phase Time Meta → Bool
is_incomplete p =
    (p.work_item_id == "") || (p.attempt_id == "") || (p.phase_key == "") || (p.status == "")

-- UpdateFactoryWorkItemPhase. The fields are checked before the store.
unfoldable pub update_phase : Phase Time Meta → Store → Outcome (Unit {0}) × Store
update_phase p none = (err (if is_incomplete p then missing_fields else read_only), none)
update_phase p (some db) =
    if is_incomplete p then (err missing_fields, some db) else commit db (phase_tx p db)
