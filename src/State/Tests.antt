-- ===== src/State/Tests.antt =====
-- Concrete rows, and the calls of internal/state on them.
mod Leases
mod Claims
mod Cursors
mod Enqueue
mod Ends
mod Approvals
mod Pending
mod PlanLedgers
mod Phases
mod Reads
mod Status
mod Times
use bachkator.Base.{ℕ, String, List, [], ◌∷◌}
use bachkator.Model.{Lifecycle, pending, Priority, normal}
use bachkator.State.Time.{Time, Stamp, blank, stamp, zero_time}
use bachkator.State.Tables.{
  Meta, json, Columns, Attempt, Event, Lease, LeaseRow, active, ItemRow, EventRow, AttemptRow,
  Approval, Db,
}

abbrev pub second : ℕ → Time
second n = record { seconds = n; nanos = 0 }

-- The text of a whole second.
abbrev pub second_text : ℕ → Stamp
second_text n = stamp n (b'Z' ∷ [])

abbrev pub request : String → String → ℕ → ℕ → Lease Time
request daemon factory now expires = record {
  daemon_id = daemon;
  factory = factory;
  hostname = "host";
  pid = 7;
  acquired_at = zero_time;
  renewed_at = second now;
  expires_at = second expires;
  released_at = zero_time;
  status = active;
}

abbrev pub lease_until : String → String → ℕ → LeaseRow
lease_until daemon factory expires = record {
  daemon_id = daemon;
  factory = factory;
  hostname = "host";
  pid = 7;
  acquired_at = second_text 1;
  renewed_at = second_text 1;
  expires_at = second_text expires;
  released_at = blank;
  status = active;
}

-- A work item of the factory "f" with an id and a lifecycle, and no times but that of its creation.
abbrev pub columns :
    {T L M : Type 0} → T → T → L → M → String → Lifecycle → Priority → String → Columns T L M
columns created never labels meta id lifecycle priority phase = record {
  id = id;
  factory = "f";
  workflow = "w";
  lifecycle = lifecycle;
  current_phase = phase;
  title = "a title";
  body = "";
  body_hash = "";
  priority = priority;
  labels = labels;
  source_type = "";
  source_id = "";
  dedupe_key = "k";
  submitted_plan_path = "";
  submitted_plan_hash = "";
  intake_evidence_id = "";
  intake_evidence_uri = "";
  intake_evidence_hash = "";
  metadata = meta;
  created_at = created;
  updated_at = never;
  cancelled_at = never;
  cancel_reason = "";
  claimed_by_daemon_id = "";
  claimed_at = never;
  claim_expires_at = never;
  completed_at = never;
  failed_at = never;
  failure_phase = "";
  failure_message = "";
}

abbrev pub row : String → Lifecycle → Priority → String → ItemRow
row = columns (second_text 2) blank (json []) (json [])

abbrev pub submission : String → Lifecycle → List String → Columns Time (List String) Meta
submission id lifecycle labels = columns (second 2) zero_time labels [] id lifecycle normal ""

abbrev pub event : String → String → Event Time Meta
event id item = record {
  id = id;
  work_item_id = item;
  attempt_id = "";
  type = "note";
  message = "";
  metadata = [];
  created_at = second 3;
}

abbrev pub event_row : String → String → EventRow
event_row id item = record {
  id = id;
  work_item_id = item;
  attempt_id = "";
  type = "note";
  message = "";
  metadata = json [];
  created_at = second_text 3;
}

abbrev pub attempt_row : String → String → Lifecycle → AttemptRow
attempt_row id item status = record {
  id = id;
  work_item_id = item;
  attempt_number = 1;
  status = status;
  start_phase = "";
  submitted_plan_path = "";
  submitted_plan_hash = "";
  created_at = second_text 2;
  updated_at = second_text 2;
  finished_at = blank;
}

abbrev pub attempt : String → String → Attempt Time
attempt id item = record {
  id = id;
  work_item_id = item;
  attempt_number = 1;
  status = pending;
  start_phase = "";
  submitted_plan_path = "";
  submitted_plan_hash = "";
  created_at = second 2;
  updated_at = second 2;
  finished_at = zero_time;
}

abbrev pub approval : String → String → String → String → Approval Time Meta
approval id item attempt phase = record {
  id = id;
  factory = "f";
  workflow = "w";
  work_item_id = item;
  attempt_id = attempt;
  phase = phase;
  plan_path = "";
  plan_hash = "";
  approved_at = second 4;
  approver = "someone";
  approver_source = "cli";
  reason = "";
  metadata = [];
}

-- A database with items, attempts, events and leases.
abbrev pub tables : List ItemRow → List AttemptRow → List EventRow → List LeaseRow → Db
tables items attempts events leases = record {
  items = items;
  attempts = attempts;
  events = events;
  leases = leases;
  phases = [];
  approvals = [];
}

abbrev pub empty : Db
empty = tables [] [] [] []
