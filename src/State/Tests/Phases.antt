-- ===== src/State/Tests/Phases.antt =====
-- A phase of internal/state/factory_daemon.go reported twice.
use bachkator.Base.{String, [], ◌∷◌, ◌≡◌, refl, some, ok, find, map}
use bachkator.Model.{normal, claimed, completed, waiting_approval}
use bachkator.State.Time.{Time, blank, zero_time, format_time, suffix}
use bachkator.State.Tables.{Meta, Phase, PhaseRow, ItemRow, Db, json}
use bachkator.State.Phases.{
  phase_row, same_phase, upsert_phase, move_items, phase_tx, start_row, update_phase,
}
use bachkator.State.Phases.Starts.{first_start, update_phase_stores}
use bachkator.State.Tests.{second, second_text, row, attempt_row, tables}

abbrev report : String → Phase Time Meta
report status = record {
  work_item_id = "a";
  attempt_id = "t";
  phase_key = "build";
  status = status;
  target = "";
  run_id = "";
  plan_path = "";
  ledger_id = "";
  evidence = [];
  started_at = second 5;
  finished_at = zero_time;
  updated_at = second 5;
}

abbrev stored : PhaseRow
stored = record {
  work_item_id = "a";
  attempt_id = "t";
  phase_key = "build";
  status = "running";
  target = "";
  run_id = "";
  plan_path = "";
  ledger_id = "";
  evidence = json [];
  started_at = second_text 4;
  finished_at = blank;
  updated_at = second_text 4;
}

abbrev before : Db
before = record (tables (row "a" claimed normal "" ∷ []) (attempt_row "t" "a" claimed ∷ []) [] []) {
  phases = stored ∷ [];
}

abbrev after : Db
after = record before {
  phases = record stored { updated_at = second_text 5 } ∷ [];
  items = start_row (report "running") (row "a" claimed normal "") ∷ [];
}

report-again : update_phase (report "running") (some before) ≡ (ok tt, some after)
unfolding update_phase phase_tx upsert_phase move_items format_time suffix
report-again = refl

update_phase_stores_example :
    find (λ r. same_phase r (phase_row (report "running"))) after.phases
    ≡ some (record (phase_row (report "running")) {
      started_at =
          first_start
            (find (λ r. same_phase r (phase_row (report "running"))) before.phases)
            (format_time (second 5));
    })
update_phase_stores_example = update_phase_stores (report "running") before after report-again

abbrev other_phase : PhaseRow
other_phase = record stored { phase_key = "test" }

-- A report that comes late: the completed item waits for an approval again.
late :
    map
      (λ (r : ItemRow). r.lifecycle)
      (move_items (report "waiting_approval") (row "a" completed normal "" ∷ []))
    ≡ waiting_approval ∷ []
unfolding move_items
late = refl
