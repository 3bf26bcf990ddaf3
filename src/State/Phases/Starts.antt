-- ===== src/State/Phases/Starts.antt =====
-- The table of phases after UpdateFactoryWorkItemPhase of internal/state/factory_daemon.go.
use bachkator.Base.{
  true, false, Option, none, some, List, [], ◌∷◌, ◌≡◌, refl, arith, eq_iff, eq_refl, find,
  Bool-cases, inl, inr, ok,
}
use bachkator.State.Time.{Time, Stamp, format_time}
use bachkator.State.Tables.{Meta, Phase, PhaseRow, Db}
use bachkator.State.Phases.{
  phase_row, same_phase, first_stamp, upsert_phase, phase_tx, update_phase,
}

-- The start that the row of a report gets, when the table has a row of its key or none.
abbrev pub first_start : Option PhaseRow → Stamp → Stamp
first_start none new = new
first_start (some old) new = first_stamp old.started_at new

same_phase_refl : (p : PhaseRow) → same_phase p p ≡ true
same_phase_refl p =
    ground (arith, eq_refl p.work_item_id, eq_refl p.attempt_id, eq_refl p.phase_key)

upsert_phase-find :
    (new : PhaseRow) (rows : List PhaseRow)
    → find (λ r. same_phase r new) (upsert_phase new rows)
      ≡ some (record new {
        started_at = first_start (find (λ r. same_phase r new) rows) new.started_at;
      })
unfolding upsert_phase
upsert_phase-find new [] = rw (same_phase_refl new) refl
upsert_phase-find new (r ∷ rows) = elim (Bool-cases (same_phase r new)) [
  | inl e ↦ rw (e, same_phase_refl new) refl
  | inr e ↦ rw (e, e) (upsert_phase-find new rows)
]

upsert_phase-others :
    (new key : PhaseRow) (rows : List PhaseRow)
    → same_phase new key ≡ false
    → find (λ r. same_phase r key) (upsert_phase new rows) ≡ find (λ r. same_phase r key) rows
unfolding upsert_phase
upsert_phase-others new key [] off = ground arith
upsert_phase-others new key (r ∷ rows) off = ground (
  arith,
  upsert_phase-others new key rows off,
  eq_iff r.work_item_id new.work_item_id,
  eq_iff r.attempt_id new.attempt_id,
  eq_iff r.phase_key new.phase_key,
)

update_phase-eq-ok :
    (p : Phase Time Meta) (db db' : Db)
    → update_phase p (some db) ≡ (ok tt, some db')
    → db'.phases ≡ upsert_phase (phase_row p) db.phases
unfolding update_phase phase_tx
update_phase-eq-ok p db db' e = ground arith

-- A report that succeeds leaves, under its item, attempt and phase, the row of the report, with the
-- start that was stored there before if one was.
pub update_phase_stores :
    (p : Phase Time Meta) (db db' : Db)
    → update_phase p (some db) ≡ (ok tt, some db')
    → find (λ r. same_phase r (phase_row p)) db'.phases
      ≡ some (record (phase_row p) {
        started_at =
            first_start
              (find (λ r. same_phase r (phase_row p)) db.phases)
              (format_time p.started_at);
      })
update_phase_stores p db db' e =
    rw (update_phase-eq-ok p db db' e) (upsert_phase-find (phase_row p) db.phases)

-- After a report that succeeds, the table of phases finds under every key but that of the report
-- what it found before.
pub update_phase_keeps :
    (p : Phase Time Meta) (key : PhaseRow) (db db' : Db)
    → update_phase p (some db) ≡ (ok tt, some db')
    → same_phase (phase_row p) key ≡ false
    → find (λ r. same_phase r key) db'.phases ≡ find (λ r. same_phase r key) db.phases
update_phase_keeps p key db db' e off =
    rw (update_phase-eq-ok p db db' e) (upsert_phase-others (phase_row p) key db.phases off)
