-- ===== src/State/PlanLedgers.antt =====
-- internal/state/plan_ledger.go: the ledgers of plans and their evidence.
--
-- The two tables are used by no other operation, so they are a state of their own; `none` is the
-- closed store. The columns with the content of evidence are read back as they were written.
pub mod Compare
pub mod Keeps
pub mod Stores
pub mod Again
use bachkator.Base.{
  ℕ, zero, suc, String, Bool, true, false, ◌&&◌, ◌||◌, not, Option, none, some, List, [], ◌∷◌, ◌++◌,
  ◌==◌, eqb, if◌then◌else◌, str_lt, length, find, exists, select, order_by, first_by, map, Result,
  ok, err, ◌>>=◌,
}
use bachkator.State.Time.{Time, Stamp, is_zero, format_time, parse_time, text_gt, text_lt}
use bachkator.State.Tables.{Meta}
use bachkator.State.PlanLedgers.Compare.{
  PlanLedger, PlanEvidence, Compared, equal, different, panics, plan_ledgers_equal,
}

pub record LedgerRow : Type 0 where
  pub ledger_id : String
  pub plan_id : String
  pub status : String
  pub hash : String
  pub run_id : String
  pub commit_sha : String
  pub recorded_at : Stamp
  pub implemented_at : Stamp

pub record EvidenceRow : Type 0 where
  pub evidence : PlanEvidence
  pub of_ledger : String

pub record LedgerTables : Type 0 where
  pub ledgers : List LedgerRow
  pub evidence : List EvidenceRow

-- `panicked` is the run-time panic of a comparison of two maps or two slices.
pub data LedgerError : Type 0 where
  closed missing_ids missing_fields conflict id_taken panicked : LedgerError

-- validatePlanLedgerForWrite
unfoldable pub validate_for_write : PlanLedger → Result LedgerError (Unit {0})
validate_for_write l =
    if (l.ledger_id == "") || (l.plan_id == "")
    then err missing_ids
    else if (l.schema_version == "") || (l.status == "") || (l.hash == "") || is_zero l.recorded_at
    then err missing_fields
    else ok tt

-- listPlanEvidence
abbrev pub evidence_before : PlanEvidence → PlanEvidence → Bool
evidence_before a b = str_lt a.id b.id

unfoldable pub list_plan_evidence : String → List EvidenceRow → List PlanEvidence
list_plan_evidence id rows =
    order_by evidence_before
      (map (λ (r : EvidenceRow). r.evidence) (select (λ r. r.of_ledger == id) rows))

abbrev pub plan_schema : String
plan_schema = "bach.plan_ledger.v1"

-- scanPlanLedger
unfoldable pub scan_plan_ledger : LedgerRow → List PlanEvidence → PlanLedger
scan_plan_ledger r evidence = record {
  schema_version = plan_schema;
  ledger_id = r.ledger_id;
  plan_id = r.plan_id;
  status = r.status;
  hash = r.hash;
  run_id = r.run_id;
  commit_sha = r.commit_sha;
  recorded_at = parse_time r.recorded_at;
  evidence = evidence;
  implemented_at = parse_time r.implemented_at;
}

-- getPlanLedgerTx, getPlanLedgerDB
unfoldable pub scan_found_ledger : String → Option LedgerRow → List EvidenceRow → Option PlanLedger
unfolding scan_plan_ledger list_plan_evidence
scan_found_ledger id none rows = none
scan_found_ledger id (some r) rows = some (scan_plan_ledger r (list_plan_evidence id rows))

unfoldable pub get_plan_ledger : String → LedgerTables → Option PlanLedger
unfolding scan_found_ledger
get_plan_ledger id t = scan_found_ledger id (find (λ r. r.ledger_id == id) t.ledgers) t.evidence

-- insertPlanLedger
unfoldable pub ledger_row : PlanLedger → LedgerRow
ledger_row l = record {
  ledger_id = l.ledger_id;
  plan_id = l.plan_id;
  status = l.status;
  hash = l.hash;
  run_id = l.run_id;
  commit_sha = l.commit_sha;
  recorded_at = format_time l.recorded_at;
  implemented_at = format_time l.implemented_at;
}

unfoldable pub insert_plan_ledger : PlanLedger → LedgerTables → Result LedgerError LedgerTables
unfolding ledger_row
insert_plan_ledger l t =
    if exists (λ r. r.ledger_id == l.ledger_id) t.ledgers
    then err id_taken
    else ok (record t { ledgers = t.ledgers ++ ledger_row l ∷ [] })

-- insertPlanEvidence: the id is the key of all evidence, not of that of one ledger.
unfoldable pub insert_plan_evidence :
    String → PlanEvidence → LedgerTables → Result LedgerError LedgerTables
insert_plan_evidence ledger_id e t =
    if exists (λ r. r.evidence.id == e.id) t.evidence
    then err id_taken
    else ok
        (record t { evidence = t.evidence ++ record { evidence = e; of_ledger = ledger_id } ∷ [] })

unfoldable pub insert_each :
    String → List PlanEvidence → LedgerTables → Result LedgerError LedgerTables
unfolding insert_plan_evidence
insert_each ledger_id [] t = ok t
insert_each ledger_id (e ∷ es) t =
    insert_plan_evidence ledger_id e t >>= λ t'. insert_each ledger_id es t'

-- What RecordPlanLedger does with the ledger that has the id.
unfoldable pub on_existing : Compared → LedgerTables → Result LedgerError LedgerTables
on_existing equal t = ok t
on_existing different t = err conflict
on_existing panics t = err panicked

unfoldable pub insert_or_compare :
    PlanLedger → Option PlanLedger → LedgerTables → Result LedgerError LedgerTables
unfolding on_existing insert_plan_ledger insert_each plan_ledgers_equal
insert_or_compare l (some existing) t = on_existing (plan_ledgers_equal existing l) t
insert_or_compare l none t = insert_plan_ledger l t >>= λ t'. insert_each l.ledger_id l.evidence t'

-- The transaction of RecordPlanLedger.
unfoldable pub record_ledger : PlanLedger → LedgerTables → Result LedgerError LedgerTables
unfolding validate_for_write insert_or_compare get_plan_ledger
record_ledger l t =
    validate_for_write l >>= λ _. insert_or_compare l (get_plan_ledger l.ledger_id t) t

-- RecordPlanLedger: after an error the tables are as before, after the rollback.
abbrev pub after_commit :
    LedgerTables
    → Result LedgerError LedgerTables
    → Result LedgerError (Unit {0}) × Option LedgerTables
after_commit t (ok t') = (ok tt, some t')
after_commit t (err e) = (err e, some t)

unfoldable pub record_plan_ledger :
    PlanLedger → Option LedgerTables → Result LedgerError (Unit {0}) × Option LedgerTables
unfolding record_ledger
record_plan_ledger l none = (err closed, none)
record_plan_ledger l (some t) = after_commit t (record_ledger l t)

-- GetLatestPlanLedger
abbrev pub later_ledger : LedgerRow → LedgerRow → Bool
later_ledger a b =
    text_gt a.recorded_at b.recorded_at
    || (not (text_gt b.recorded_at a.recorded_at) && str_lt b.ledger_id a.ledger_id)

unfoldable pub latest_of : Option LedgerRow → LedgerTables → Option PlanLedger
unfolding get_plan_ledger
latest_of none t = none
latest_of (some r) t = get_plan_ledger r.ledger_id t

unfoldable pub get_latest_plan_ledger : String → Option LedgerTables → Option PlanLedger
unfolding latest_of
get_latest_plan_ledger plan_id none = none
get_latest_plan_ledger plan_id (some t) =
    latest_of (first_by later_ledger (select (λ r. r.plan_id == plan_id) t.ledgers)) t

-- ListPlanLedgerEvidence
abbrev pub ledger_before : LedgerRow → LedgerRow → Bool
ledger_before a b =
    str_lt a.plan_id b.plan_id
    || ((a.plan_id == b.plan_id)
        && (text_lt a.recorded_at b.recorded_at
            || (not (text_lt b.recorded_at a.recorded_at) && str_lt a.ledger_id b.ledger_id)))

unfoldable pub load_ledgers : List LedgerRow → LedgerTables → List PlanLedger
unfolding get_plan_ledger
load_ledgers [] t = []
load_ledgers (r ∷ rs) t =
    let rest = load_ledgers rs t in
    elim (get_plan_ledger r.ledger_id t) [ some l ↦ l ∷ rest | none ↦ rest ]

unfoldable pub list_plan_ledgers : Option LedgerTables → List PlanLedger
unfolding load_ledgers
list_plan_ledgers none = []
list_plan_ledgers (some t) = load_ledgers (order_by ledger_before t.ledgers) t
