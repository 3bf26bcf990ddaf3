-- ===== src/State/Tests/Claims.antt =====
-- Claims of internal/state/factory_daemon.go and the queue on concrete rows.
use bachkator.Base.{
  false, String, true, [], ◌∷◌, ◌≡◌, ◌≢◌, ◌≤◌, refl, none, some, ok, text_ne, All, In, here, there,
  select, affected,
}
use bachkator.Model.{pending, low, critical, normal}
use bachkator.State.Time.{
  parse_time, format_time, suffix, digits, fraction, compare_text, compare_bytes,
}
use bachkator.State.Tables.{FactoryWorkItem, ItemRow, Db}
use bachkator.State.Items.{
  insert_item, insert_attempt, insert_event, get_item, load_row, scan_item, columns_of, hydrate,
  list_attempts, list_events, scan_events,
}
use bachkator.State.Enqueue.{find_open, insert_all, enqueue_with, enqueue_tx, enqueue, open_with}
use bachkator.State.Claim.{
  newest_attempt, is_approved, has_lease, claimable, rank, claimed_before, next_item, take,
  claim_row, claim_tx, claim,
}
use bachkator.State.Claim.Sound.{is_listed, claims, after, claim_takes, next_item-critical_last}
use bachkator.State.Claim.Again.{claim-claim_ne}
use bachkator.State.Queue.{Reach, enqueues, next, Reach-one_open}
use bachkator.State.Tests.{
  second, second_text, lease_until, row, tables, submission, attempt, attempt_row, event, event_row,
  empty,
}

-- Two pending items and a lease of the daemon.
abbrev two_pending : Db
two_pending =
    tables (row "a" pending low "" ∷ row "b" pending normal "" ∷ []) [] []
      (lease_until "d1" "f" 9 ∷ [])

abbrev take_row : ItemRow → ItemRow
take_row = take "d1" (second 3) (second 8)

abbrev b_claimed : Db
b_claimed = record two_pending {
  items = row "a" pending low "" ∷ take_row (row "b" pending normal "") ∷ [];
}

abbrev both_claimed : Db
both_claimed = record two_pending {
  items = take_row (row "a" pending low "") ∷ take_row (row "b" pending normal "") ∷ [];
}

abbrev loaded : ItemRow → FactoryWorkItem
loaded r = record { columns = columns_of [] [] r; attempts = []; events = [] }

claim-two_pending :
    claim "f" "d1" (second 3) (second 8) (some two_pending)
    ≡ (ok (some (loaded (take_row (row "b" pending normal "")))), some b_claimed)
unfolding claim claim_tx claim_row next_item claimed_before rank claimable has_lease is_approved
    newest_attempt get_item load_row scan_item columns_of hydrate list_attempts list_events
    scan_events format_time parse_time suffix digits fraction compare_text compare_bytes
claim-two_pending = refl

claim-b_claimed :
    claim "f" "d1" (second 3) (second 8) (some b_claimed)
    ≡ (ok (some (loaded (take_row (row "a" pending low "")))), some both_claimed)
unfolding claim claim_tx claim_row next_item claimed_before rank claimable has_lease is_approved
    newest_attempt get_item load_row scan_item columns_of hydrate list_attempts list_events
    scan_events format_time parse_time suffix digits fraction compare_text compare_bytes
claim-b_claimed = refl

claim-both_claimed :
    claim "f" "d1" (second 3) (second 8) (some both_claimed) ≡ (ok none, some both_claimed)
unfolding claim claim_tx claim_row next_item claimed_before rank claimable has_lease is_approved
    newest_attempt get_item load_row scan_item columns_of hydrate list_attempts list_events
    scan_events format_time parse_time suffix digits fraction compare_text compare_bytes
claim-both_claimed = refl

abbrev b : ItemRow
b = row "b" pending normal ""

claim_takes_example :
    (r : ItemRow) × In r two_pending.items
    × (claims "f" "d1" (second 3) (second 8) two_pending r ≡ true)
    × All
        (λ (s : ItemRow). rank r.priority ≤ rank s.priority)
        (select (claims "f" "d1" (second 3) (second 8) two_pending) two_pending.items)
    × (b_claimed ≡ after "f" "d1" (second 3) (second 8) two_pending r)
    × In (take "d1" (second 3) (second 8) r) b_claimed.items
    × ("b" ≡ r.id)
unfolding columns_of
claim_takes_example =
    claim_takes "f" "d1" (second 3) (second 8) two_pending (loaded (take_row b)) b_claimed
      claim-two_pending

claim-claim_ne_example : ◌≢◌ {A = String} "a" "b"
unfolding columns_of
claim-claim_ne_example =
    claim-claim_ne "f" "d1" "d1" (second 3) (second 3) (second 8) (second 8) two_pending b_claimed
      both_claimed (loaded (take_row b)) (loaded (take_row (row "a" pending low "")))
      claim-two_pending claim-b_claimed

-- A critical item, and one whose priority is none of the constants.
abbrev two_last : Db
two_last = record two_pending {
  items = row "a" pending critical "" ∷ row "b" pending "someday" "" ∷ [];
}

next-two_last : next_item two_last "f" "d1" (second_text 3) ≡ some (row "a" pending critical "")
unfolding next_item claimed_before rank claimable has_lease is_approved compare_text compare_bytes
next-two_last = refl

claimable-b : claimable two_last "f" "d1" (second_text 3) (row "b" pending "someday" "") ≡ true
unfolding claimable has_lease compare_text
claimable-b = refl

next_item-critical_last_example : is_listed "someday" ≡ false
next_item-critical_last_example =
    next_item-critical_last two_last "f" "d1" (second_text 3) (row "a" pending critical "")
      (row "b" pending "someday" "") next-two_last refl (there here) claimable-b

-- An item is submitted, and claimed by the daemon.
abbrev submitted : Db
submitted = record empty {
  items = row "a" pending normal "" ∷ [];
  attempts = attempt_row "t" "a" pending ∷ [];
  events = event_row "e" "a" ∷ [];
}

enqueue-empty :
    (enqueue
      (submission "a" pending [])
      (attempt "t" "a")
      (event "e" "a")
      (event "e2" "a")
      (some empty)).1
    ≡ some submitted
unfolding enqueue enqueue_tx enqueue_with find_open insert_all insert_item insert_attempt
    insert_event get_item load_row scan_item columns_of hydrate list_attempts list_events
    scan_events format_time parse_time suffix digits fraction compare_text compare_bytes
enqueue-empty = refl

Reach-one_open_example : affected (open_with "f" "w" "k") submitted.items ≤ 1
Reach-one_open_example =
    Reach-one_open empty submitted "f" "w" "k" refl
      (next Reach.here (
        enqueues (submission "a" pending []) (attempt "t" "a") (event "e" "a") (event "e2" "a")
          enqueue-empty))
      (text_ne "k" "" refl)
