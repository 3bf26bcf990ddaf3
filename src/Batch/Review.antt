-- ===== src/Batch/Review.antt =====
-- internal/planbatch/review.go.
--
-- A queue is built by appending the items in turn; here it is the queue of the later results with
-- the item of the first one before them.
pub mod Sorted
use bachkator.Base.{
  String, Bool, true, false, ◌&&◌, ◌||◌, not, Option, none, some, List, [], ◌∷◌, ◌==◌,
  if◌then◌else◌,
}
use bachkator.Plan.Types.{Diagnostic, LedgerSummary, StatusRecord}
use bachkator.Plan.Ledgers
use bachkator.Batch.{PlanResult, already_implemented, failed, blocked, skipped}

-- The constants, which also name the fields of a queue.
pub data ReviewState : Type 0 where
  implemented needs_review failed_ blocked_ skipped_ : ReviewState

pub record ReviewItem : Type 0 where
  pub plan_id : String
  pub plan_path : String
  pub title : String
  pub state : String
  pub reason : String
  pub run_id : String
  pub target : String
  pub ledger_id : String
  pub diagnostics : List Diagnostic

pub record ReviewQueue : Type 0 where
  pub implemented_ones : List ReviewItem
  pub needs_review_ones : List ReviewItem
  pub failed_ones : List ReviewItem
  pub blocked_ones : List ReviewItem
  pub skipped_ones : List ReviewItem

abbrev pub empty_queue : ReviewQueue
empty_queue = record {
  implemented_ones = [];
  needs_review_ones = [];
  failed_ones = [];
  blocked_ones = [];
  skipped_ones = [];
}

unfoldable pub ledger_id_of : Option LedgerSummary → String
ledger_id_of none = ""
ledger_id_of (some l) = l.ledger_id

-- reviewItemForResult
unfoldable pub review_item_for_result : PlanResult → ReviewItem
unfolding ledger_id_of
review_item_for_result r = record {
  plan_id = r.plan.id;
  plan_path = r.plan.path;
  title = r.plan.title;
  state = r.state;
  reason = r.reason;
  run_id = r.run_id;
  target = r.target;
  ledger_id = ledger_id_of r.ledger;
  diagnostics = r.diagnostics;
}

-- reviewItemForRecord
unfoldable pub review_item_for_record : StatusRecord → ReviewItem
unfolding ledger_id_of
review_item_for_record r = record {
  plan_id = r.document.id;
  plan_path = r.document.path;
  title = r.document.title;
  state = r.status;
  reason = "";
  run_id = "";
  target = "";
  ledger_id = ledger_id_of r.ledger;
  diagnostics = r.diagnostics;
}

abbrev pub has_any : List Diagnostic → Bool
has_any [] = false
has_any (d ∷ ds) = true

-- reviewState
unfoldable pub review_state : PlanResult → ReviewState
review_state r =
    if r.state == Ledgers.implemented
    then if has_any r.diagnostics then needs_review else implemented
    else if r.state == already_implemented
    then skipped_
    else if r.state == failed
    then failed_
    else if r.state == blocked
    then blocked_
    else if r.state == skipped
    then skipped_
    else needs_review

-- reviewStateForRecord
unfoldable pub review_state_for_record : StatusRecord → ReviewState
review_state_for_record r =
    if r.status == Ledgers.implemented
    then if has_any r.diagnostics then needs_review else implemented
    else if r.status == Ledgers.failed
    then failed_
    else if (r.status == Ledgers.blocked)
        || (r.status == Ledgers.stale)
        || (r.status == Ledgers.invalid_ledger)
    then blocked_
    else if (r.status == Ledgers.ready)
        || (r.status == Ledgers.planned)
        || (r.status == Ledgers.pending)
        || (r.status == Ledgers.in_progress)
    then blocked_
    else needs_review

-- The switch that appends an item.
unfoldable pub place : ReviewState → ReviewItem → ReviewQueue → ReviewQueue
place implemented x q = record q { implemented_ones = x ∷ q.implemented_ones }
place needs_review x q = record q { needs_review_ones = x ∷ q.needs_review_ones }
place failed_ x q = record q { failed_ones = x ∷ q.failed_ones }
place blocked_ x q = record q { blocked_ones = x ∷ q.blocked_ones }
place skipped_ x q = record q { skipped_ones = x ∷ q.skipped_ones }

-- Review
unfoldable pub review : List PlanResult → ReviewQueue
unfolding place
review [] = empty_queue
review (r ∷ rs) = place (review_state r) (review_item_for_result r) (review rs)

-- ReviewStatus
unfoldable pub review_status : List StatusRecord → ReviewQueue
unfolding place
review_status [] = empty_queue
review_status (r ∷ rs) =
    place (review_state_for_record r) (review_item_for_record r) (review_status rs)
