-- ===== src/State/Tests/Approvals.antt =====
-- Approvals of internal/state/factory_approvals.go on concrete rows.
use bachkator.Base.{map, true, false, [], ◌∷◌, ◌++◌, ◌≡◌, refl, some, ok, All, In, ap}
use bachkator.Model.{waiting_approval, normal}
use bachkator.State.Time.{Time, parse_time, format_time, suffix, digits, fraction}
use bachkator.State.Tables.{Approval, Meta, ItemRow, ApprovalRow, Db, json}
use bachkator.State.Items.{
  get_item, load_row, scan_item, columns_of, hydrate, list_attempts, list_events, scan_events,
  keyed, insert_event,
}
use bachkator.State.Enqueue.{insert_event_if}
use bachkator.State.Approvals.{
  convert_approval, scan_approval, insert_approval, get_approval, check_waiting, add_approval,
  approve_found, approve_tx, record_approval, approval_of, list_approval_evidence,
}
use bachkator.State.Approvals.Once.{OneApproval, record_approval-OneApproval, record_approval_new}
use bachkator.State.Tests.{second_text, row, attempt_row, event, event_row, approval, tables}

abbrev waiting : Db
waiting =
    tables (row "a" waiting_approval normal "build" ∷ [])
      (attempt_row "t" "a" waiting_approval ∷ []) [] []

abbrev stored : ApprovalRow
stored = record (convert_approval (λ _. second_text 4) json (approval "p" "a" "t" "build")) {
  reason = "";
}

abbrev approved : Db
approved = record waiting { approvals = stored ∷ []; events = event_row "e" "a" ∷ [] }

record-waiting :
    record_approval (approval "p" "a" "t" "build") (event "e" "a") (some waiting)
    ≡ (ok (approval "p" "a" "t" "build", false), some approved)
unfolding record_approval approve_tx approve_found add_approval check_waiting insert_approval
    insert_event_if insert_event get_approval scan_approval get_item load_row scan_item columns_of
    hydrate list_attempts list_events scan_events format_time parse_time suffix digits fraction
record-waiting = refl

record_approval_new_example :
    (r : ItemRow) × In r waiting.items
    × (keyed "f" "a" r ≡ true)
    × (r.lifecycle ≡ waiting_approval)
    × (r.current_phase ≡ "build")
    × All (λ b. approval_of "a" "t" "build" b ≡ false) waiting.approvals
    × (approved.approvals ≡ waiting.approvals ++ (stored ∷ []))
unfolding format_time suffix
record_approval_new_example =
    record_approval_new (approval "p" "a" "t" "build") (event "e" "a") waiting approved
      (approval "p" "a" "t" "build") record-waiting

record_approval-OneApproval_example : OneApproval approved.approvals
record_approval-OneApproval_example =
    record_approval-OneApproval (approval "p" "a" "t" "build") (event "e" "a") waiting approved tt
      (ap (λ r. r.1) record-waiting)

-- The export of one approval.
evidence_listed :
    map (λ (a : Approval Time Meta). a.id) (list_approval_evidence (some approved)) ≡ "p" ∷ []
unfolding list_approval_evidence scan_approval
evidence_listed = refl
