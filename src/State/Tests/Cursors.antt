-- ===== src/State/Tests/Cursors.antt =====
-- Cursors of internal/state/factory_trigger_cursors.go on concrete rows.
use bachkator.Base.{◌≡◌, ok, some, [], arith}
use bachkator.State.Time.{Time, zero_time}
use bachkator.State.Tables.{Meta}
use bachkator.State.Cursors.{Cursor, dated, get_cursor, record_cursor}
use bachkator.State.Cursors.Stores.{record_cursor-get_cursor}
use bachkator.State.Tests.{second}

abbrev issues : Cursor Time Meta
issues = record {
  factory = "f";
  trigger = "issues";
  cursor = "17";
  last_poll_at = second 5;
  last_ack_at = zero_time;
  last_nack_at = zero_time;
  last_error = "";
  updated_at = zero_time;
  metadata = [];
}

record_cursor-get_cursor_example :
    ((record_cursor issues (second 6) (some [])).0 ≡ ok (dated (second 6) issues))
    × (get_cursor "f" "issues" (record_cursor issues (second 6) (some [])).1
        ≡ ok (dated (second 6) issues))
record_cursor-get_cursor_example =
    record_cursor-get_cursor issues (second 6) []
      (omega arith, omega arith, omega arith, omega arith)
