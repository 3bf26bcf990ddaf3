-- ===== src/State/Cursors.antt =====
-- internal/state/factory_trigger_cursors.go: how far a trigger has read its source. Its table is
-- used by no other operation, so it is a state of its own; `none` is the closed store. The clock
-- that is read when a cursor has no `updated_at` is an argument.
pub mod Stores
use bachkator.Base.{
  String, Bool, true, false, ◌&&◌, Option, none, some, List, [], ◌∷◌, ◌==◌, if◌then◌else◌, find,
  Result, ok, err,
}
use bachkator.State.Time.{Time, Stamp, zero_time, is_zero, format_time, nano_text, parse_time}
use bachkator.State.Tables.{Meta, Json, json, text, StoreError, read_only, Outcome}

pub record Cursor (T M : Type 0) : Type 0 where
  pub factory : String
  pub trigger : String
  pub cursor : String
  pub last_poll_at : T
  pub last_ack_at : T
  pub last_nack_at : T
  pub last_error : String
  pub updated_at : T
  pub metadata : M

abbrev pub CursorRow : Type 0
CursorRow = Cursor Stamp (Json Meta)

-- FactoryTriggerCursor{}
abbrev pub no_cursor : Cursor Time Meta
no_cursor = record {
  factory = "";
  trigger = "";
  cursor = "";
  last_poll_at = zero_time;
  last_ack_at = zero_time;
  last_nack_at = zero_time;
  last_error = "";
  updated_at = zero_time;
  metadata = [];
}

-- A text that is no JSON leaves the map empty.
abbrev pub any_meta : Json Meta → Meta
any_meta (json m) = m
any_meta (text s) = []

-- scanFactoryTriggerCursor
unfoldable pub scan_cursor : CursorRow → Cursor Time Meta
scan_cursor r = record {
  factory = r.factory;
  trigger = r.trigger;
  cursor = r.cursor;
  last_poll_at = parse_time r.last_poll_at;
  last_ack_at = parse_time r.last_ack_at;
  last_nack_at = parse_time r.last_nack_at;
  last_error = r.last_error;
  updated_at = parse_time r.updated_at;
  metadata = any_meta r.metadata;
}

abbrev pub cursor_of : String → String → CursorRow → Bool
cursor_of factory trigger r = (r.factory == factory) && (r.trigger == trigger)

-- A trigger without a row has the empty cursor.
unfoldable pub scan_found : Option CursorRow → Cursor Time Meta
scan_found none = no_cursor
scan_found (some r) = scan_cursor r

-- GetFactoryTriggerCursor
unfoldable pub get_cursor : String → String → Option (List CursorRow) → Outcome (Cursor Time Meta)
get_cursor factory trigger none = err read_only
get_cursor factory trigger (some rows) = ok (scan_found (find (cursor_of factory trigger) rows))

-- The row that the INSERT writes.
unfoldable pub cursor_row : Cursor Time Meta → CursorRow
cursor_row c = record {
  factory = c.factory;
  trigger = c.trigger;
  cursor = c.cursor;
  last_poll_at = format_time c.last_poll_at;
  last_ack_at = format_time c.last_ack_at;
  last_nack_at = format_time c.last_nack_at;
  last_error = c.last_error;
  updated_at = nano_text c.updated_at;
  metadata = json c.metadata;
}

-- INSERT … ON CONFLICT(factory, trigger) DO UPDATE: every column.
unfoldable pub upsert_cursor : CursorRow → List CursorRow → List CursorRow
upsert_cursor new [] = new ∷ []
upsert_cursor new (r ∷ rows) =
    let rest = upsert_cursor new rows in
    if cursor_of new.factory new.trigger r then new ∷ rows else r ∷ rest

-- `if cursor.UpdatedAt.IsZero()`
abbrev pub dated : Time → Cursor Time Meta → Cursor Time Meta
dated now c = record c { updated_at = if is_zero c.updated_at then now else c.updated_at }

-- RecordFactoryTriggerCursor
unfoldable pub record_cursor :
    Cursor Time Meta
    → Time
    → Option (List CursorRow)
    → Outcome (Cursor Time Meta) × Option (List CursorRow)
record_cursor c now none = (err read_only, none)
record_cursor c now (some rows) =
    let rows' = upsert_cursor (cursor_row (dated now c)) rows in
    (get_cursor c.factory c.trigger (some rows'), some rows')
