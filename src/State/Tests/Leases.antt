-- ===== src/State/Tests/Leases.antt =====
-- The leases of internal/state/factory_daemon.go on concrete requests.
use bachkator.Base.{List, [], ◌∷◌, ◌≡◌, ◌≤◌, refl, some, ok, err, text_ne, true, affected}
use bachkator.State.Time.{
  Time, text_gt, parse_time, format_time, suffix, digits, fraction, compare_text, compare_bytes,
}
use bachkator.State.Tables.{Lease, Db, already_leased}
use bachkator.State.Leases.{
  active_for, acquire, acquire_tx, acquire_at, expire_leases, holder, blocker, lease_row,
  upsert_lease, get_lease, scan_lease,
}
use bachkator.State.Leases.Acquire.{LeaseCall, acquires, call, calls, calls-one_active}
use bachkator.State.Leases.Excludes.{acquire-excludes}
use bachkator.State.Tests.{second, request, lease_until, empty, tables}

-- One daemon takes the lease and gives it back, and another one takes it.
abbrev handover : List LeaseCall
handover =
    acquires (request "d1" "f" 1 5) (second 1) ∷ acquires (request "d2" "f" 2 6) (second 2) ∷ []

abbrev after_first : Db
after_first = tables [] [] [] (lease_until "d1" "f" 5 ∷ [])

calls-handover : calls handover (some empty) ≡ some after_first
unfolding calls call acquire acquire_tx acquire_at expire_leases holder blocker lease_row
    upsert_lease get_lease scan_lease format_time parse_time suffix digits fraction compare_text
    compare_bytes
calls-handover = refl

calls-one_active_example : affected (active_for "f") after_first.leases ≤ 1
calls-one_active_example = calls-one_active handover empty after_first "f" refl calls-handover

abbrev granted : Lease Time
granted = record (request "d1" "f" 1 5) { acquired_at = second 1 }

acquire-first :
    acquire (request "d1" "f" 1 5) (second 1) (some empty) ≡ (ok granted, some after_first)
unfolding acquire acquire_tx acquire_at expire_leases holder blocker lease_row upsert_lease
    get_lease scan_lease format_time parse_time suffix digits fraction compare_text compare_bytes
acquire-first = refl

runs : text_gt (format_time (second 5)) (format_time (second 2)) ≡ true
unfolding format_time suffix compare_text
runs = refl

-- The second daemon asks while the first one's lease runs.
acquire-excludes_example :
    acquire (request "d2" "f" 2 6) (second 2) (some after_first)
    ≡ (err (already_leased "f" "d1"), some after_first)
acquire-excludes_example =
    acquire-excludes (request "d1" "f" 1 5) (request "d2" "f" 2 6) (second 1) (second 2) empty
      after_first granted (record { apart = tt; named = tt }) acquire-first refl
      (text_ne "d2" "d1" refl) (text_ne "d2" "" refl) (text_ne "f" "" refl) refl refl runs
