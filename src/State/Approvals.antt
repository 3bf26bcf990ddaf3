-- ===== src/State/Approvals.antt =====
-- RecordFactoryApproval and the queries of internal/state/factory_approvals.go.
pub mod Once
use bachkator.Base.{
  String, Bool, true, false, ◌&&◌, ◌||◌, not, Option, none, some, List, [], ◌∷◌, ◌==◌, ◌++◌, map,
  if◌then◌else◌, find, exists, select, order_by, str_lt, Result, ok, err, ◌>>=◌,
}
use bachkator.Model.{is_waiting}
use bachkator.State.Time.{Time, format_time, parse_time, text_lt, text_le}
use bachkator.State.Tables.{
  Meta, Json, json, text, StoreError, no_rows, constraint, missing_fields, not_waiting, wrong_phase,
  Outcome, Approval, ApprovalRow, Event, FactoryWorkItem, Db, Store, transaction,
}
use bachkator.State.Items.{get_item}
use bachkator.State.Enqueue.{insert_event_if}
use bachkator.State.Phases.{refers}

abbrev pub convert_approval : {T U M N : Type 0} → (T → U) → (M → N) → Approval T M → Approval U N
convert_approval time meta a = record {
  id = a.id;
  factory = a.factory;
  workflow = a.workflow;
  work_item_id = a.work_item_id;
  attempt_id = a.attempt_id;
  phase = a.phase;
  plan_path = a.plan_path;
  plan_hash = a.plan_hash;
  approved_at = time a.approved_at;
  approver = a.approver;
  approver_source = a.approver_source;
  reason = a.reason;
  metadata = meta a.metadata;
}

-- unmarshalMetadata: a text that is no JSON is an empty map.
abbrev pub lenient : Json Meta → Meta
lenient (json m) = m
lenient (text s) = []

-- scanFactoryApproval
unfoldable pub scan_approval : ApprovalRow → Approval Time Meta
scan_approval = convert_approval parse_time lenient

-- The key that the table holds unique: one approval for an item, an attempt and a phase.
abbrev pub approval_of : String → String → String → ApprovalRow → Bool
approval_of item attempt phase a =
    (a.work_item_id == item) && (a.attempt_id == attempt) && (a.phase == phase)

-- insertFactoryApproval
unfoldable pub insert_approval : Approval Time Meta → Db → Outcome Db
insert_approval a db =
    if exists
        (λ (b : ApprovalRow). (b.id == a.id) || approval_of a.work_item_id a.attempt_id a.phase b)
        db.approvals
      || not (refers db a.work_item_id a.attempt_id)
    then err constraint
    else ok (record db { approvals = db.approvals ++ (convert_approval format_time json a ∷ []) })

-- getFactoryApprovalTx
unfoldable pub get_approval : String → Db → Outcome (Approval Time Meta)
get_approval id db = elim (find (λ (a : ApprovalRow). a.id == id) db.approvals) [
  | none ↦ err no_rows
  | some a ↦ ok (scan_approval a)
]

-- The item waits at the phase that the approval names.
unfoldable pub check_waiting : Approval Time Meta → FactoryWorkItem → Outcome (Unit {0})
check_waiting a item =
    if not (is_waiting item.lifecycle)
    then err (not_waiting a.work_item_id)
    else if not (item.current_phase == a.phase)
    then err (wrong_phase a.work_item_id item.current_phase a.phase)
    else ok tt

unfoldable pub add_approval :
    Approval Time Meta → Event Time Meta → Db → Outcome ((Approval Time Meta × Bool) × Db)
add_approval a event db = get_item a.factory a.work_item_id db >>= λ item.
    check_waiting a item >>= λ _. insert_approval a db >>= λ db₁.
    insert_event_if event db₁ >>= λ db₂.
    get_approval a.id db₂ >>= λ loaded. ok ((loaded, false), db₂)

unfoldable pub approve_found :
    Approval Time Meta
    → Event Time Meta
    → Option ApprovalRow
    → Db
    → Outcome ((Approval Time Meta × Bool) × Db)
approve_found a event (some existing) db = ok ((scan_approval existing, true), db)
approve_found a event none db = add_approval a event db

unfoldable pub approve_tx :
    Approval Time Meta → Event Time Meta → Db → Outcome ((Approval Time Meta × Bool) × Db)
approve_tx a event db =
    if (a.id == "") || (a.work_item_id == "") || (a.attempt_id == "") || (a.phase == "")
    then err missing_fields
    else approve_found a event (find (approval_of a.work_item_id a.attempt_id a.phase) db.approvals)
        db

-- RecordFactoryApproval. The Boolean says whether the approval was there before.
unfoldable pub record_approval :
    Approval Time Meta → Event Time Meta → Store → Outcome (Approval Time Meta × Bool) × Store
record_approval a event = transaction (approve_tx a event)

-- approved_at ASC, id ASC
abbrev pub approved_before : ApprovalRow → ApprovalRow → Bool
approved_before a b =
    text_lt a.approved_at b.approved_at
    || (text_le a.approved_at b.approved_at
        && text_le b.approved_at a.approved_at
        && str_lt a.id b.id)

-- ListFactoryWorkItemApprovals
unfoldable pub list_approvals : String → Store → List (Approval Time Meta)
list_approvals item none = []
list_approvals item (some db) =
    map scan_approval
      (order_by approved_before (select (λ (a : ApprovalRow). a.work_item_id == item) db.approvals))

-- work_item_id ASC, attempt_id ASC, phase ASC, id ASC
abbrev pub text_then : String → String → Bool → Bool
text_then a b rest = str_lt a b || ((a == b) && rest)

abbrev pub evidence_before : ApprovalRow → ApprovalRow → Bool
evidence_before a b =
    text_then a.work_item_id b.work_item_id
      (text_then a.attempt_id b.attempt_id (text_then a.phase b.phase (str_lt a.id b.id)))

-- ListFactoryApprovalEvidence
unfoldable pub list_approval_evidence : Store → List (Approval Time Meta)
list_approval_evidence none = []
list_approval_evidence (some db) = map scan_approval (order_by evidence_before db.approvals)
