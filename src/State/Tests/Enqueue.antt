-- ===== src/State/Tests/Enqueue.antt =====
-- Requests to enqueue of internal/state/factory_enqueue.go on concrete rows.
use bachkator.Base.{false, [], ◌∷◌, ◌≡◌, ◌⊎◌, refl, some, ok}
use bachkator.Model.{pending, normal}
use bachkator.State.Time.{
  format_time, parse_time, suffix, digits, fraction, compare_text, compare_bytes,
}
use bachkator.State.Tables.{FactoryWorkItem, Db}
use bachkator.State.Items.{
  insert_event, get_item, load_row, scan_item, columns_of, hydrate, list_attempts, list_events,
  scan_events,
}
use bachkator.State.Enqueue.{find_open, insert_event_if, dedupe, enqueue_with, enqueue_tx, enqueue}
use bachkator.State.Enqueue.Answers.{Added, Deduped, enqueue_answers}
use bachkator.State.Tests.{row, submission, attempt, attempt_row, event, event_row, tables}

abbrev submitted : Db
submitted =
    tables (row "a" pending normal "" ∷ []) (attempt_row "t" "a" pending ∷ [])
      (event_row "e" "a" ∷ []) []

abbrev noted : Db
noted = record submitted {
  events = event_row "e" "a" ∷ record (event_row "e2" "a") { attempt_id = "t" } ∷ [];
}

abbrev loaded : FactoryWorkItem
loaded = record {
  columns = columns_of [] [] (row "a" pending normal "");
  attempts = attempt "t" "a" ∷ [];
  events = event "e" "a" ∷ record (event "e2" "a") { attempt_id = "t" } ∷ [];
}

-- A second item with the key "k" meets the first.
enqueue-submitted :
    enqueue
      (submission "b" pending [])
      (attempt "u" "b")
      (event "e3" "b")
      (event "e2" "a")
      (some submitted)
    ≡ (ok (loaded, false), some noted)
unfolding enqueue enqueue_tx enqueue_with find_open dedupe insert_event_if insert_event get_item
    load_row scan_item columns_of hydrate list_attempts list_events scan_events format_time
    parse_time suffix digits fraction compare_text compare_bytes
enqueue-submitted = refl

enqueue_answers_example :
    Added
      (submission "b" pending [])
      (attempt "u" "b")
      (event "e3" "b")
      (event "e2" "a")
      submitted
      noted
      loaded
      false
    ⊎ Deduped
        (submission "b" pending [])
        (attempt "u" "b")
        (event "e3" "b")
        (event "e2" "a")
        submitted
        noted
        loaded
        false
enqueue_answers_example =
    enqueue_answers (submission "b" pending []) (attempt "u" "b") (event "e3" "b") (event "e2" "a")
      submitted noted loaded false enqueue-submitted
