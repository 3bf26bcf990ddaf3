-- ===== src/State/Tests/Status.antt =====
-- A status of internal/state/factory_daemon.go on concrete rows.
use bachkator.Base.{true, [], ◌∷◌, ◌≡◌, refl, some, ok}
use bachkator.Model.{running, normal}
use bachkator.State.Time.{format_time, suffix, parse_time, fraction, compare_text}
use bachkator.State.Tables.{FactoryWorkItem, Db}
use bachkator.State.Leases.{holds, holder, scan_lease}
use bachkator.State.Items.{
  get_item, load_row, scan_item, columns_of, hydrate, list_attempts, list_events, scan_events,
}
use bachkator.State.Status.{DaemonStatus, active_lease, counts_of, load_active, daemon_status}
use bachkator.State.Tests.{second, lease_until, row, tables}

abbrev working : Db
working = tables (row "a" running normal "build" ∷ []) [] [] (lease_until "d1" "f" 9 ∷ [])

abbrev in_progress : FactoryWorkItem
in_progress = record {
  columns = columns_of [] [] (row "a" running normal "build");
  attempts = [];
  events = [];
}

abbrev shown : DaemonStatus
shown = record {
  lease = some (scan_lease (lease_until "d1" "f" 9));
  active_item = some in_progress;
  lifecycle_counts = counts_of "f" working;
}

lease-runs : holds "f" (format_time (second 3)) (lease_until "d1" "f" 9) ≡ true
unfolding format_time suffix compare_text
lease-runs = refl

status-working : daemon_status "f" (second 3) (some working) ≡ ok shown
unfolding daemon_status active_lease holder load_active get_item load_row scan_item columns_of
    hydrate list_attempts list_events scan_events format_time suffix parse_time fraction
    compare_text
status-working = refl
