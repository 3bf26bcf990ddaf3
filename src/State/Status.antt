-- ===== src/State/Status.antt =====
-- GetFactoryDaemonStatus of internal/state/factory_daemon.go.
pub mod Agrees
use bachkator.Base.{
  ℕ, String, Bool, true, false, ◌&&◌, ◌||◌, not, Option, none, some, List, ◌==◌, if◌then◌else◌,
  str_lt, select, first_by, affected, Result, ok, err, ◌>>=◌,
}
use bachkator.Model.{Lifecycle, claimed, running}
use bachkator.State.Time.{Time, format_time, text_gt, text_le}
use bachkator.State.Tables.{Outcome, Lease, FactoryWorkItem, ItemRow, Db, Store}
use bachkator.State.Leases.{holder, scan_lease}
use bachkator.State.Items.{get_item}
use bachkator.State.Reads.{lifecycle_text}

-- FactoryDaemonStatus. A lifecycle that the map lacks counts 0.
pub record DaemonStatus : Type 0 where
  pub lease : Option (Lease Time)
  pub active_item : Option FactoryWorkItem
  pub lifecycle_counts : Lifecycle → ℕ

-- getActiveFactoryDaemonLease
unfoldable pub active_lease : String → Time → Db → Option (Lease Time)
active_lease factory now db = elim (holder factory (format_time now) db.leases) [
  | none ↦ none
  | some r ↦ some (scan_lease r)
]

-- lifecycle IN ('claimed', 'running')
abbrev pub in_work : String → ItemRow → Bool
in_work factory r =
    (r.factory == factory)
    && ((lifecycle_text r.lifecycle == "claimed") || (lifecycle_text r.lifecycle == "running"))

-- ORDER BY updated_at DESC, id DESC
abbrev pub updated_later : ItemRow → ItemRow → Bool
updated_later r s =
    text_gt r.updated_at s.updated_at
    || (text_le r.updated_at s.updated_at && text_le s.updated_at r.updated_at && str_lt s.id r.id)

-- GROUP BY lifecycle
abbrev pub counts_of : String → Db → Lifecycle → ℕ
counts_of factory db l =
    affected
      (λ (r : ItemRow). (r.factory == factory) && (lifecycle_text r.lifecycle == lifecycle_text l))
      db.items

-- The item, loaded if the query gave an id.
unfoldable pub load_active : String → Db → Option ItemRow → Outcome (Option FactoryWorkItem)
load_active factory db none = ok none
load_active factory db (some r) =
    if r.id == "" then ok none else (get_item factory r.id db >>= λ item. ok (some item))

unfoldable pub daemon_status : String → Time → Store → Outcome DaemonStatus
daemon_status factory now none =
    ok (record { lease = none; active_item = none; lifecycle_counts = λ l. 0 })
daemon_status factory now (some db) =
    load_active factory db (first_by updated_later (select (in_work factory) db.items)) >>= λ item.
    ok (record {
      lease = active_lease factory now db;
      active_item = item;
      lifecycle_counts = counts_of factory db;
    })
