-- ===== src/State/Tests/Ends.antt =====
-- The end of a work item in internal/state on concrete rows.
use bachkator.Base.{String, false, [], ◌∷◌, ◌≡◌, refl, some, ok, ◌&&◌, All}
use bachkator.Model.{Lifecycle, running, completed, failed, normal}
use bachkator.State.Time.{parse_time, format_time, suffix, digits, fraction}
use bachkator.State.Tables.{FactoryWorkItem, Db}
use bachkator.State.Items.{
  get_item, load_row, scan_item, columns_of, hydrate, list_attempts, list_events, scan_events,
  keyed,
}
use bachkator.State.Claim.{claimable}
use bachkator.State.Finish.{
  finish_row, finish_item, finish, complete, fail, close_attempt, cancel, cancel_item,
}
use bachkator.State.Queue.{Reach, next, cancels}
use bachkator.State.Queue.Closed.{complete-Reach}
use bachkator.State.Tests.{event, second, second_text, row, attempt, attempt_row, tables}

abbrev working : Db
working = tables (row "a" running normal "build" ∷ []) (attempt_row "t" "a" running ∷ []) [] []

abbrev item : FactoryWorkItem
item = record {
  columns = columns_of [] [] (row "a" running normal "build");
  attempts = record (attempt "t" "a") { status = running } ∷ [];
  events = [];
}

abbrev ended : Lifecycle → String → String → Db
ended l phase message =
    tables (finish_row l phase message (second 5) (row "a" running normal "build") ∷ [])
      (close_attempt l (second 5) (attempt_row "t" "a" running) ∷ []) [] []

abbrev ended_item : Lifecycle → String → String → FactoryWorkItem
ended_item l phase message = record {
  columns =
      columns_of [] [] (finish_row l phase message (second 5) (row "a" running normal "build"));
  attempts =
      record (attempt "t" "a") { status = l; updated_at = second 5; finished_at = second 5 } ∷ [];
  events = [];
}

complete-working :
    complete "f" "a" (second 5) (some working)
    ≡ (ok (some (ended_item completed "" "")), some (ended completed "" ""))
unfolding complete finish finish_item get_item load_row scan_item columns_of hydrate list_attempts
    list_events scan_events format_time parse_time suffix digits fraction
complete-working = refl

fail-working :
    fail "f" "a" "build" "broken" (second 5) (some working)
    ≡ (ok (some (ended_item failed "build" "broken")), some (ended failed "build" "broken"))
unfolding fail finish finish_item get_item load_row scan_item columns_of hydrate list_attempts
    list_events scan_events format_time parse_time suffix digits fraction
fail-working = refl

-- A cancellation of the completed item is refused.
cancel-ended :
    (cancel "f" "a" "late" (second 6) (event "e" "a") (some (ended completed "" ""))).1
    ≡ some (ended completed "" "")
unfolding cancel cancel_item get_item load_row scan_item columns_of hydrate list_attempts
    list_events scan_events format_time parse_time suffix digits fraction
cancel-ended = refl

complete-Reach_example :
    ((ended_item completed "" "").lifecycle ≡ completed)
    × All
        (λ r.
          (keyed "f" "a" r && claimable (ended completed "" "") "f" "d1" (second_text 6) r) ≡ false)
        (ended completed "" "").items
complete-Reach_example =
    complete-Reach "f" "a" (second 5) working (ended completed "" "") (ended completed "" "")
      (ended_item completed "" "") "d1" (second_text 6) complete-working
      (next Reach.here (cancels "f" "a" "late" (second 6) (event "e" "a") cancel-ended))

get_item-working : get_item "f" "a" working ≡ ok item
unfolding get_item load_row scan_item columns_of hydrate list_attempts list_events scan_events
    parse_time fraction
get_item-working = refl
