-- ===== src/State/Leases.antt =====
-- internal/state/factory_daemon.go, the leases: a daemon works on a factory while it holds the
-- factory's lease. The clock that `AcquireFactoryDaemonLease` reads when the request has no
-- `renewed_at` is an argument.
pub mod Exclusive
pub mod Acquire
pub mod Excludes
use bachkator.Base.{
  String, Bool, true, false, ◌&&◌, ◌||◌, not, Option, none, some, List, [], ◌∷◌, ◌==◌,
  if◌then◌else◌, str_lt, select, update, find, affected, first_by, ok, err, ◌>>=◌, eqb,
}
use bachkator.State.Time.{Time, Stamp, blank, is_zero, format_time, parse_time, text_gt, text_le}
use bachkator.State.Tables.{
  no_rows, missing_fields, already_leased, Outcome, Lease, LeaseStatus, active, expired, released,
  LeaseRow, Db, Store, transaction,
}

abbrev pub is_active : LeaseStatus → Bool
is_active active = true
is_active _ = false

-- `status = 'active'` and the factory
abbrev pub active_for : String → LeaseRow → Bool
active_for factory r = (r.factory == factory) && is_active r.status

-- The rows that have run out, by the order of the texts.
abbrev pub lapsed : String → Stamp → LeaseRow → Bool
lapsed factory now r = active_for factory r && text_le r.expires_at now

abbrev pub expire : LeaseRow → LeaseRow
expire r = record r { status = expired }

-- expireFactoryDaemonLeases
unfoldable pub expire_leases : String → Stamp → List LeaseRow → List LeaseRow
expire_leases factory now = update (lapsed factory now) expire

-- scanFactoryDaemonLease
unfoldable pub scan_lease : LeaseRow → Lease Time
scan_lease r = record {
  daemon_id = r.daemon_id;
  factory = r.factory;
  hostname = r.hostname;
  pid = r.pid;
  acquired_at = parse_time r.acquired_at;
  renewed_at = parse_time r.renewed_at;
  expires_at = parse_time r.expires_at;
  released_at = parse_time r.released_at;
  status = r.status;
}

-- getFactoryDaemonLeaseTx, getFactoryDaemonLeaseDB
unfoldable pub get_lease : String → List LeaseRow → Outcome (Lease Time)
get_lease daemon rows = elim (find (λ (r : LeaseRow). r.daemon_id == daemon) rows) [
  | none ↦ err no_rows
  | some r ↦ ok (scan_lease r)
]

-- ORDER BY renewed_at DESC, daemon_id DESC
abbrev pub renewed_later : LeaseRow → LeaseRow → Bool
renewed_later r s =
    text_gt r.renewed_at s.renewed_at
    || (text_le s.renewed_at r.renewed_at
        && text_le r.renewed_at s.renewed_at
        && str_lt s.daemon_id r.daemon_id)

-- `status = 'active' AND expires_at > now`
abbrev pub holds : String → Stamp → LeaseRow → Bool
holds factory now r = active_for factory r && text_gt r.expires_at now

unfoldable pub holder : String → Stamp → List LeaseRow → Option LeaseRow
holder factory now rows = first_by renewed_later (select (holds factory now) rows)

-- The row that the INSERT writes.
unfoldable pub lease_row : Lease Time → Time → LeaseRow
lease_row lease now = record {
  daemon_id = lease.daemon_id;
  factory = lease.factory;
  hostname = lease.hostname;
  pid = lease.pid;
  acquired_at = format_time (if is_zero lease.acquired_at then now else lease.acquired_at);
  renewed_at = format_time now;
  expires_at = format_time lease.expires_at;
  released_at = blank;
  status = active;
}

-- INSERT … ON CONFLICT(daemon_id) DO UPDATE: all columns but `acquired_at`.
unfoldable pub upsert_lease : LeaseRow → List LeaseRow → List LeaseRow
upsert_lease new [] = new ∷ []
upsert_lease new (r ∷ rs) =
    let rest = upsert_lease new rs in
    if r.daemon_id == new.daemon_id
    then record new { acquired_at = r.acquired_at } ∷ rs
    else r ∷ rest

-- The daemon that keeps `daemon` from the lease. A query without a row leaves `activeID` empty.
unfoldable pub blocker : String → Option LeaseRow → Option String
blocker daemon none = none
blocker daemon (some r) =
    if not (r.daemon_id == "") && not (r.daemon_id == daemon) then some r.daemon_id else none

unfoldable pub acquire_at : Lease Time → Time → Db → Outcome (Lease Time × Db)
acquire_at lease now db =
    let rows = expire_leases lease.factory (format_time now) db.leases in
    elim (blocker lease.daemon_id (holder lease.factory (format_time now) rows)) [
      | some other ↦ err (already_leased lease.factory other)
      | none ↦
          let rows' = upsert_lease (lease_row lease now) rows in
          get_lease lease.daemon_id rows' >>= λ loaded. ok (loaded, record db { leases = rows' })
    ]

unfoldable pub acquire_tx : Lease Time → Time → Db → Outcome (Lease Time × Db)
acquire_tx lease system_now db =
    if (lease.daemon_id == "") || (lease.factory == "") || is_zero lease.expires_at
    then err missing_fields
    else acquire_at lease (if is_zero lease.renewed_at then system_now else lease.renewed_at) db

-- AcquireFactoryDaemonLease
unfoldable pub acquire : Lease Time → Time → Store → Outcome (Lease Time) × Store
acquire lease system_now = transaction (acquire_tx lease system_now)

-- `daemon_id = ? AND status = 'active'`
abbrev pub active_of : String → LeaseRow → Bool
active_of daemon r = (r.daemon_id == daemon) && is_active r.status

-- An UPDATE of the active lease of a daemon: nothing and false if there is none. The statements
-- run outside of a transaction; the SELECT after an UPDATE that changed a row finds that row.
unfoldable pub change_lease :
    String → (LeaseRow → LeaseRow) → Db → Outcome (Option (Lease Time) × Db)
change_lease daemon change db =
    let rows = update (active_of daemon) change db.leases in
    if eqb (affected (active_of daemon) db.leases) 0
    then ok (none, db)
    else get_lease daemon rows >>= λ lease. ok (some lease, record db { leases = rows })

-- SET renewed_at = ?, expires_at = ?, status = 'active'
abbrev pub extend : Time → Time → LeaseRow → LeaseRow
extend renewed_at expires_at r = record r {
  renewed_at = format_time renewed_at;
  expires_at = format_time expires_at;
  status = active;
}

-- SET released_at = ?, status = 'released'
abbrev pub give_back : Time → LeaseRow → LeaseRow
give_back released_at r = record r { released_at = format_time released_at; status = released }

-- RenewFactoryDaemonLease
unfoldable pub renew : String → Time → Time → Store → Outcome (Option (Lease Time)) × Store
renew daemon renewed_at expires_at =
    transaction (change_lease daemon (extend renewed_at expires_at))

-- ReleaseFactoryDaemonLease
unfoldable pub release : String → Time → Store → Outcome (Option (Lease Time)) × Store
release daemon released_at = transaction (change_lease daemon (give_back released_at))
