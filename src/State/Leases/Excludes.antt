-- ===== src/State/Leases/Excludes.antt =====
-- Two calls of AcquireFactoryDaemonLease of internal/state/factory_daemon.go by two daemons.
use bachkator.Base.{
  String, true, false, some, List, [], ◌∷◌, ◌==◌, ◌≡◌, ◌≢◌, ◌⊎◌, inl, inr, arith, eq_iff,
  if◌then◌else◌, All-In, In, here, there, In-update, ok, err, changed, Bool-cases, refl, sym, subst,
  update, ap, ◌∙◌,
}
use mathlib.Core.Bool.{true≢false}
use bachkator.State.Time.{Time, Stamp, text_gt, is_zero, format_time}
use bachkator.State.Tables.{Lease, LeaseRow, Db, already_leased}
use bachkator.State.Leases.{
  lapsed, expire, acquire, expire_leases, holds, holder, lease_row, upsert_lease, blocker,
  acquire_at, acquire_tx,
}
use bachkator.State.Leases.Exclusive.{IsExclusive, expire_leases-IsExclusive, holder-alone}
use bachkator.State.Leases.Acquire.{
  acquire_at-eq-ok, acquire_tx-eq-ok, acquire_at-IsExclusive, current,
}

-- The row of the new lease is in the table, with an older time of acquisition perhaps.
upsert_lease-In :
    (new : LeaseRow) (rows : List LeaseRow)
    → (at : Stamp) × In (record new { acquired_at = at }) (upsert_lease new rows)
unfolding upsert_lease
upsert_lease-In new [] = (new.acquired_at, here)
upsert_lease-In new (r ∷ rs) = elim (Bool-cases (r.daemon_id == new.daemon_id)) [
  | inl e ↦ rw e (r.acquired_at, here)
  | inr e ↦ let (at, m) = upsert_lease-In new rs in rw e (at, there m)
]

-- A lease that runs is not expired.
stays :
    (factory : String) (now : Stamp) (rows : List LeaseRow) (r : LeaseRow)
    → In r rows
    → holds factory now r ≡ true
    → In r (expire_leases factory now rows)
unfolding expire_leases
stays factory now rows r m runs =
    subst (λ x. In x (update (lapsed factory now) expire rows)) same
      (In-update (lapsed factory now) expire r rows m)
  where
    same : changed (lapsed factory now) expire r ≡ r
    same = ground arith

-- A lease that runs is the holder's.
holder-of-In :
    (factory : String) (now : Stamp) (rows : List LeaseRow) (r : LeaseRow)
    → IsExclusive rows
    → In r rows
    → holds factory now r ≡ true
    → holder factory now (expire_leases factory now rows) ≡ some r
holder-of-In factory now rows r h m runs =
    let h' = expire_leases-IsExclusive factory now rows h in
    let found = holder factory now (expire_leases factory now rows) in
    let fact =
      All-In (λ s. (holds factory now s ≡ false) ⊎ (found ≡ some s))
        (expire_leases factory now rows)
        (holder-alone factory now (expire_leases factory now rows) found refl h'.apart)
        (stays factory now rows r m runs) in
    elim fact [ inl off ↦ absurd (true≢false (sym runs ∙ off)) | inr is ↦ is ]

acquire_at-refused :
    (lease : Lease Time) (now : Time) (db : Db) (r : LeaseRow)
    → holder lease.factory
        (format_time now)
        (expire_leases lease.factory (format_time now) db.leases)
      ≡ some r
    → (r.daemon_id == "") ≡ false
    → (r.daemon_id == lease.daemon_id) ≡ false
    → acquire_at lease now db ≡ err (already_leased lease.factory r.daemon_id)
unfolding acquire_at blocker
acquire_at-refused lease now db r e n o = ground arith

acquire-eq-ok :
    (lease : Lease Time) (clock : Time) (db : Db) (granted : Lease Time) (db' : Db)
    → acquire lease clock (some db) ≡ (ok granted, some db')
    → acquire_tx lease clock db ≡ ok (granted, db')
unfolding acquire
acquire-eq-ok lease clock db granted db' won = ground arith

module _ (first second : Lease Time) (clock clock' : Time) (db db' : Db) (granted : Lease Time)
    (before : IsExclusive db.leases)
    (won : acquire first clock (some db) ≡ (ok granted, some db')) where
  abbrev asked : Time
  asked = if is_zero first.renewed_at then clock else first.renewed_at

  won_tx : acquire_tx first clock db ≡ ok (granted, db')
  won_tx = acquire-eq-ok first clock db granted db' won

  granted_parts :
      (first.daemon_id == "") ≡ false
      × (db' ≡ record db { leases = upsert_lease (lease_row first asked) (current first asked db) })
      × IsExclusive db'.leases
  granted_parts =
      let (named, at) = acquire_tx-eq-ok first clock db (granted, db') won_tx in
      let (free, is) = acquire_at-eq-ok first asked db granted db' at in
      (named, is, acquire_at-IsExclusive first asked db granted db' named before at)

  abbrev at_time : Stamp
  at_time = (upsert_lease-In (lease_row first asked) (current first asked db)).0

  abbrev granted_row : LeaseRow
  granted_row = record (lease_row first asked) { acquired_at = at_time }

  granted_row-In : In granted_row db'.leases
  granted_row-In =
      let (named, is, exclusive) = granted_parts in
      rw is (upsert_lease-In (lease_row first asked) (current first asked db)).1

  module _ (same_factory : second.factory ≡ first.factory)
      (runs : text_gt (format_time first.expires_at) (format_time second.renewed_at) ≡ true) where
    granted_row-holds : holds second.factory (format_time second.renewed_at) granted_row ≡ true
    unfolding lease_row
    granted_row-holds = ground (arith, eq_iff first.factory second.factory)

    second_refused :
        (second.daemon_id ≢ first.daemon_id)
        → acquire_at second second.renewed_at db'
          ≡ err (already_leased first.factory first.daemon_id)
    unfolding lease_row
    second_refused other =
        let (named, is, exclusive) = granted_parts in
        let held =
          holder-of-In second.factory (format_time second.renewed_at) db'.leases granted_row
            exclusive granted_row-In granted_row-holds in
        let refused =
          acquire_at-refused second second.renewed_at db' granted_row held named
            (unfold lease_row in ground (arith, eq_iff first.daemon_id second.daemon_id)) in
        refused ∙ ap (λ f. err (already_leased f first.daemon_id)) same_factory

  -- While a lease runs, by the order of the texts, a well-formed request of another daemon for the
  -- same factory fails with the holder's name and changes nothing.
  pub acquire-excludes :
      (second.factory ≡ first.factory)
      → (second.daemon_id ≢ first.daemon_id)
      → (second.daemon_id ≢ "")
      → (second.factory ≢ "")
      → is_zero second.expires_at ≡ false
      → is_zero second.renewed_at ≡ false
      → text_gt (format_time first.expires_at) (format_time second.renewed_at) ≡ true
      → acquire second clock' (some db')
        ≡ (err (already_leased first.factory first.daemon_id), some db')
  unfolding acquire acquire_tx
  acquire-excludes same_factory other named factory_named expires renewed runs = ground (
    arith,
    second_refused same_factory runs other,
    eq_iff second.daemon_id "",
    eq_iff second.factory "",
  )
