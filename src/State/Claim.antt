-- ===== src/State/Claim.antt =====
-- ClaimNextFactoryWorkItem of internal/state/factory_daemon.go: a daemon with a running lease takes
-- the first item that may be worked on.
pub mod Sound
pub mod Again
use bachkator.Base.{
  ℕ, String, Bool, true, false, ◌&&◌, ◌||◌, not, Option, none, some, List, [], ◌∷◌, ◌==◌, ltb, eqb,
  if◌then◌else◌, str_lt, select, update, affected, first_by, exists, Result, ok, err, ◌>>=◌,
}
use bachkator.Model.{
  Lifecycle, pending, claimed, running, waiting_approval, is_pending, is_waiting, Priority, urgent,
  high, normal, low,
}
use bachkator.State.Time.{Time, Stamp, format_time, text_gt, text_le, text_lt}
use bachkator.State.Tables.{
  Outcome, Attempt, AttemptRow, ApprovalRow, LeaseRow, FactoryWorkItem, ItemRow, Db, Store,
  transaction,
}
use bachkator.State.Leases.{is_active}
use bachkator.State.Items.{get_item, keyed}

-- SELECT id … ORDER BY attempt_number DESC, id DESC LIMIT 1
unfoldable pub newest_attempt : String → List AttemptRow → Option AttemptRow
newest_attempt item rows =
    first_by
      (λ (a b : AttemptRow).
        ltb b.attempt_number a.attempt_number
        || (eqb a.attempt_number b.attempt_number && str_lt b.id a.id))
      (select (λ (a : AttemptRow). a.work_item_id == item) rows)

-- The approval is of the attempt that the subquery found; nothing equals NULL.
abbrev pub approves : Option AttemptRow → ApprovalRow → Bool
approves none a = false
approves (some attempt) a = a.attempt_id == attempt.id

-- Someone approved the item's current phase in its newest attempt.
unfoldable pub is_approved : Db → ItemRow → Bool
is_approved db r =
    exists
      (λ (a : ApprovalRow).
        (a.work_item_id == r.id)
        && (a.phase == r.current_phase)
        && approves (newest_attempt r.id db.attempts) a)
      db.approvals

-- The daemon's lease of the item's factory runs at the time of the claim.
unfoldable pub has_lease : Db → String → Stamp → ItemRow → Bool
has_lease db daemon now r =
    exists
      (λ (l : LeaseRow).
        (l.daemon_id == daemon)
        && (l.factory == r.factory)
        && is_active l.status
        && text_gt l.expires_at now)
      db.leases

-- The WHERE clause.
unfoldable pub claimable : Db → String → String → Stamp → ItemRow → Bool
claimable db factory daemon now r =
    (r.factory == factory)
    && (is_pending r.lifecycle || (is_waiting r.lifecycle && is_approved db r))
    && has_lease db daemon now r

-- CASE priority WHEN 'urgent' THEN 0 WHEN 'high' THEN 1 WHEN 'normal' THEN 2 WHEN 'low' THEN 3 ELSE 4
unfoldable pub rank : Priority → ℕ
rank p =
    if p == urgent
    then 0
    else if p == high
    then 1
    else if p == normal
    then 2
    else if p == low
    then 3
    else 4

-- ORDER BY rank ASC, created_at ASC, id ASC
unfoldable pub claimed_before : ItemRow → ItemRow → Bool
claimed_before r s =
    ltb (rank r.priority) (rank s.priority)
    || (eqb (rank r.priority) (rank s.priority)
        && (text_lt r.created_at s.created_at
            || (text_le r.created_at s.created_at
                && text_le s.created_at r.created_at
                && str_lt r.id s.id)))

unfoldable pub next_item : Db → String → String → Stamp → Option ItemRow
next_item db factory daemon now =
    first_by claimed_before (select (claimable db factory daemon now) db.items)

-- `id = ? AND factory = ? AND lifecycle IN ('pending', 'waiting_approval')`
abbrev pub unclaimed : String → String → ItemRow → Bool
unclaimed factory id r = keyed factory id r && (is_pending r.lifecycle || is_waiting r.lifecycle)

abbrev pub take : String → Time → Time → ItemRow → ItemRow
take daemon claimed_at expires_at r = record r {
  lifecycle = claimed;
  claimed_by_daemon_id = daemon;
  claimed_at = format_time claimed_at;
  claim_expires_at = format_time expires_at;
  updated_at = format_time claimed_at;
}

unfoldable pub claim_row :
    String → String → Time → Time → Db → Option ItemRow → Outcome (Option FactoryWorkItem × Db)
claim_row factory daemon claimed_at expires_at db none = ok (none, db)
claim_row factory daemon claimed_at expires_at db (some r) =
    let db' = record db {
      items = update (unclaimed factory r.id) (take daemon claimed_at expires_at) db.items;
    } in
    if eqb (affected (unclaimed factory r.id) db.items) 0
    then ok (none, db)
    else get_item factory r.id db' >>= λ item. ok (some item, db')

unfoldable pub claim_tx : String → String → Time → Time → Db → Outcome (Option FactoryWorkItem × Db)
claim_tx factory daemon claimed_at expires_at db =
    claim_row factory daemon claimed_at expires_at db
      (next_item db factory daemon (format_time claimed_at))

-- ClaimNextFactoryWorkItem
unfoldable pub claim :
    String → String → Time → Time → Store → Outcome (Option FactoryWorkItem) × Store
claim factory daemon claimed_at expires_at =
    transaction (claim_tx factory daemon claimed_at expires_at)
