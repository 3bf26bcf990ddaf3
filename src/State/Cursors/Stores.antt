-- ===== src/State/Cursors/Stores.antt =====
-- RecordFactoryTriggerCursor and GetFactoryTriggerCursor of
-- internal/state/factory_trigger_cursors.go, one after the other.
use bachkator.Base.{
  ◌^◌, ◌<◌, String, false, ◌&&◌, some, List, [], ◌∷◌, ◌==◌, ◌≡◌, ap, ◌∙◌, arith, eq_iff, eq_refl,
  find, ok,
}
use bachkator.State.Time.{Time, parse_time, nano_text, suffix}
use bachkator.State.Time.Fraction.{fraction-digits, parse_time-format_time}
use bachkator.State.Tables.{Meta, Outcome}
use bachkator.State.Cursors.{
  Cursor, CursorRow, scan_cursor, cursor_of, scan_found, get_cursor, cursor_row, upsert_cursor,
  dated, record_cursor,
}

parse_time-nano_text : (t : Time) → t.nanos < 10 ^ 9 → parse_time (nano_text t) ≡ t
unfolding parse_time suffix
parse_time-nano_text t h = ground (arith, fraction-digits 9 t.nanos h)

upsert_cursor-find :
    (new : CursorRow) (rows : List CursorRow)
    → find (cursor_of new.factory new.trigger) (upsert_cursor new rows) ≡ some new
unfolding upsert_cursor
upsert_cursor-find new [] = ground (arith, eq_refl new.factory, eq_refl new.trigger)
upsert_cursor-find new (r ∷ rows) =
    ground (arith, eq_refl new.factory, eq_refl new.trigger, upsert_cursor-find new rows)

upsert_cursor-others :
    (new : CursorRow) (factory trigger : String) (rows : List CursorRow)
    → cursor_of factory trigger new ≡ false
    → find (cursor_of factory trigger) (upsert_cursor new rows)
      ≡ find (cursor_of factory trigger) rows
unfolding upsert_cursor
upsert_cursor-others new factory trigger [] off = ground arith
upsert_cursor-others new factory trigger (r ∷ rows) off = ground (
  arith,
  upsert_cursor-others new factory trigger rows off,
  eq_iff r.factory new.factory,
  eq_iff r.trigger new.trigger,
)

-- Every time of a cursor has less than a second of nanoseconds.
abbrev pub HasTimes : Cursor Time Meta → Type 0
HasTimes c =
    (c.last_poll_at.nanos < 10 ^ 9)
    × (c.last_ack_at.nanos < 10 ^ 9)
    × (c.last_nack_at.nanos < 10 ^ 9)
    × (c.updated_at.nanos < 10 ^ 9)

scan_cursor-cursor_row : (c : Cursor Time Meta) → HasTimes c → scan_cursor (cursor_row c) ≡ c
unfolding scan_cursor cursor_row
scan_cursor-cursor_row c (a, b, d, e) = ground (
  arith,
  parse_time-format_time c.last_poll_at a,
  parse_time-format_time c.last_ack_at b,
  parse_time-format_time c.last_nack_at d,
  parse_time-nano_text c.updated_at e,
)

-- Recording a cursor in an open store returns the cursor, with the clock's time where it has none,
-- and afterwards the store returns it for its factory and trigger.
pub record_cursor-get_cursor :
    (c : Cursor Time Meta) (now : Time) (rows : List CursorRow)
    → HasTimes (dated now c)
    → ((record_cursor c now (some rows)).0 ≡ ok (dated now c))
      × (get_cursor c.factory c.trigger (record_cursor c now (some rows)).1 ≡ ok (dated now c))
unfolding record_cursor get_cursor scan_found cursor_row
record_cursor-get_cursor c now rows times =
    let found = upsert_cursor-find (cursor_row (dated now c)) rows in
    let is : ◌≡◌ {A = Outcome (Cursor Time Meta)} _ (ok (dated now c)) =
      ap (λ x. ok (scan_found x)) found ∙ ap ok (scan_cursor-cursor_row (dated now c) times) in
    (is, is)

-- Recording a cursor changes no cursor of another factory or trigger.
pub record_cursor_keeps :
    (c : Cursor Time Meta) (now : Time) (rows : List CursorRow) (factory trigger : String)
    → ((c.factory == factory) && (c.trigger == trigger)) ≡ false
    → get_cursor factory trigger (record_cursor c now (some rows)).1
      ≡ get_cursor factory trigger (some rows)
unfolding record_cursor get_cursor cursor_row
record_cursor_keeps c now rows factory trigger off =
    ap (λ x. ok (scan_found x))
      (upsert_cursor-others (cursor_row (dated now c)) factory trigger rows off)
