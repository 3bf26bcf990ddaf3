-- ===== src/State/Leases/Acquire.antt =====
-- Sequences of calls of AcquireFactoryDaemonLease, RenewFactoryDaemonLease and
-- ReleaseFactoryDaemonLease of internal/state/factory_daemon.go.
use bachkator.Base.{
  String, true, false, Option, none, some, List, [], ◌∷◌, ◌==◌, ◌≡◌, ◌≤◌, ◌⊎◌, inl, inr, arith,
  eq_iff, if◌then◌else◌, All, Each, All-weaken, affected, ok, affected_single, changed, refl, subst,
  ◌∙◌,
}
use mathlib.Core.Option.{some-injective, none-ne-some}
use bachkator.State.Time.{Time, is_zero, format_time}
use bachkator.State.Tables.{Lease, LeaseRow, Db, Store, transaction, commit-keeps}
use bachkator.State.Leases.{
  active_for, active_of, extend, give_back, renew, release, acquire, expire_leases, holds, holder,
  lease_row, upsert_lease, blocker, acquire_at, acquire_tx, change_lease,
}
use bachkator.State.Leases.Exclusive.{
  Apart, Named, IsExclusive, Each-Weaker, expire_leases-IsExclusive, expire_leases-running, Yields,
  upsert_lease-All, upsert_lease-Each, holder-alone, Weaker,
}

-- What stands in the way of a row that nobody else holds the lease of.
blocker-none :
    (daemon : String) (c : Option LeaseRow) (r : LeaseRow)
    → blocker daemon c ≡ none
    → c ≡ some r
    → Named r
    → (r.daemon_id == daemon) ≡ true
unfolding blocker
blocker-none daemon none r b e n = cc
blocker-none daemon (some x) r b e n = ground arith

module _ (lease : Lease Time) (now : Time) (db : Db) where
  abbrev pub current : List LeaseRow
  current = expire_leases lease.factory (format_time now) db.leases

  abbrev pub held : Option LeaseRow
  held = holder lease.factory (format_time now) current

  current-Yields :
      blocker lease.daemon_id held ≡ none
      → IsExclusive db.leases
      → All (Yields (lease_row lease now)) current
  unfolding lease_row
  current-Yields free h =
      let h' = expire_leases-IsExclusive lease.factory (format_time now) db.leases h in
      go current h'.named (expire_leases-running lease.factory (format_time now) db.leases)
        (holder-alone lease.factory (format_time now) current held refl h'.apart)
    where
      go :
          (rs : List LeaseRow)
          → All Named rs
          → All (λ r. active_for lease.factory r ≡ holds lease.factory (format_time now) r) rs
          → All (λ r. (holds lease.factory (format_time now) r ≡ false) ⊎ (held ≡ some r)) rs
          → All (Yields (lease_row lease now)) rs
      go [] n runs alone = tt
      go (r ∷ rs) n runs alone = (
        elim (alone.0) [
          | inl off ↦ inr (runs.0 ∙ off)
          | inr is ↦ inl (blocker-none lease.daemon_id held r free is n.0)
        ],
        go rs n.1 runs.1 alone.1,
      )

  pub acquire_at-eq-ok :
      (l : Lease Time) (db' : Db)
      → acquire_at lease now db ≡ ok (l, db')
      → (blocker lease.daemon_id held ≡ none)
        × (db' ≡ record db { leases = upsert_lease (lease_row lease now) current })
  unfolding acquire_at
  acquire_at-eq-ok l db' e = ground arith

  pub acquire_at-IsExclusive :
      (l : Lease Time) (db' : Db)
      → (lease.daemon_id == "") ≡ false
      → IsExclusive db.leases
      → acquire_at lease now db ≡ ok (l, db')
      → IsExclusive db'.leases
  acquire_at-IsExclusive l db' named h e =
      let (free, is) = acquire_at-eq-ok l db' e in
      let new = lease_row lease now in
      let h' = expire_leases-IsExclusive lease.factory (format_time now) db.leases h in
      rw is (record {
        apart = upsert_lease-Each new current (current-Yields free h) h'.apart;
        named =
            upsert_lease-All new Named current (λ r. unfold lease_row in named)
              (unfold lease_row in named) h'.named;
      })

pub acquire_tx-eq-ok :
    (lease : Lease Time) (system_now : Time) (db : Db) (r : Lease Time × Db)
    → acquire_tx lease system_now db ≡ ok r
    → ((lease.daemon_id == "") ≡ false)
      × (acquire_at lease (if is_zero lease.renewed_at then system_now else lease.renewed_at) db
          ≡ ok r)
unfolding acquire_tx
acquire_tx-eq-ok lease system_now db r e = ground arith

-- A request for the lease, granted or refused, leaves the leases exclusive.
pub acquire-IsExclusive :
    (lease : Lease Time) (system_now : Time) (db db' : Db)
    → IsExclusive db.leases
    → (acquire lease system_now (some db)).1 ≡ some db'
    → IsExclusive db'.leases
unfolding acquire
acquire-IsExclusive lease system_now db db' h =
    commit-keeps (λ d. IsExclusive d.leases) db db' (acquire_tx lease system_now db) h
      λ l d e.
        let (named, at) = acquire_tx-eq-ok lease system_now db (l, d) e in
        acquire_at-IsExclusive lease _ db l d named h at

change_lease-IsExclusive :
    (daemon : String) (change : LeaseRow → LeaseRow) (db db' : Db)
    → ((r : LeaseRow) → Weaker r (changed (active_of daemon) change r))
    → IsExclusive db.leases
    → (transaction (change_lease daemon change) (some db)).1 ≡ some db'
    → IsExclusive db'.leases
unfolding change_lease
change_lease-IsExclusive daemon change db db' weaker h e =
    ground (arith, Each-Weaker (active_of daemon) change db.leases weaker h)

renew-IsExclusive :
    (daemon : String) (renewed_at expires_at : Time) (db db' : Db)
    → IsExclusive db.leases
    → (renew daemon renewed_at expires_at (some db)).1 ≡ some db'
    → IsExclusive db'.leases
unfolding renew
renew-IsExclusive daemon renewed_at expires_at db db' =
    change_lease-IsExclusive daemon (extend renewed_at expires_at) db db' (λ r. ground arith)

release-IsExclusive :
    (daemon : String) (released_at : Time) (db db' : Db)
    → IsExclusive db.leases
    → (release daemon released_at (some db)).1 ≡ some db'
    → IsExclusive db'.leases
unfolding release
release-IsExclusive daemon released_at db db' =
    change_lease-IsExclusive daemon (give_back released_at) db db' (λ r. ground arith)

-- The calls that touch the leases, by any daemon and with any clock.
pub data LeaseCall : Type 0 where
  acquires : Lease Time → Time → LeaseCall
  renews : String → Time → Time → LeaseCall
  releases : String → Time → LeaseCall

unfoldable pub call : LeaseCall → Store → Store
unfolding acquire renew release
call (acquires lease now) s = (acquire lease now s).1
call (renews daemon renewed_at expires_at) s = (renew daemon renewed_at expires_at s).1
call (releases daemon released_at) s = (release daemon released_at s).1

unfoldable pub calls : List LeaseCall → Store → Store
unfolding call
calls [] s = s
calls (c ∷ cs) s = calls cs (call c s)

abbrev pub StoreExclusive : Store → Type 0
StoreExclusive s = (db : Db) → s ≡ some db → IsExclusive db.leases

-- Every call keeps the leases exclusive.
pub call-StoreExclusive : (c : LeaseCall) (s : Store) → StoreExclusive s → StoreExclusive (call c s)
unfolding call
call-StoreExclusive (acquires lease now) none h db' e = absurd (none-ne-some db' e)
call-StoreExclusive (acquires lease now) (some db) h db' e =
    acquire-IsExclusive lease now db db' (h db refl) e
call-StoreExclusive (renews daemon renewed_at expires_at) none h db' e = absurd (none-ne-some db' e)
call-StoreExclusive (renews daemon renewed_at expires_at) (some db) h db' e =
    renew-IsExclusive daemon renewed_at expires_at db db' (h db refl) e
call-StoreExclusive (releases daemon released_at) none h db' e = absurd (none-ne-some db' e)
call-StoreExclusive (releases daemon released_at) (some db) h db' e =
    release-IsExclusive daemon released_at db db' (h db refl) e

pub calls-StoreExclusive :
    (cs : List LeaseCall) (s : Store) → StoreExclusive s → StoreExclusive (calls cs s)
unfolding calls
calls-StoreExclusive [] s h = h
calls-StoreExclusive (c ∷ cs) s h = calls-StoreExclusive cs (call c s) (call-StoreExclusive c s h)

-- Exclusive leases count one active lease of a factory at most.
active_at_most_one :
    (factory : String) (rows : List LeaseRow)
    → IsExclusive rows
    → affected (active_for factory) rows ≤ 1
active_at_most_one factory rows h = affected_single (active_for factory) rows (go rows h.apart)
  where
    go :
        (rs : List LeaseRow)
        → Each Apart rs
        → Each (λ r s. active_for factory r ≡ true → active_for factory s ≡ false) rs
    go [] h = tt
    go (r ∷ rs) h = (
      All-weaken (Apart r) _ rs
          (λ s a k.
            ground (
              arith,
              eq_iff r.factory factory,
              eq_iff s.factory factory,
              eq_iff r.factory s.factory,
            ))
          h.0,
      go rs h.1,
    )

-- From a database without leases, whatever requests to acquire, renew and release leases any
-- daemons send, in any order and with any clocks: at every moment each factory has at most one
-- active lease.
pub calls-one_active :
    (cs : List LeaseCall) (start db : Db) (factory : String)
    → start.leases ≡ []
    → calls cs (some start) ≡ some db
    → affected (active_for factory) db.leases ≤ 1
calls-one_active cs start db factory empty e = active_at_most_one factory db.leases (
    calls-StoreExclusive cs (some start)
      (λ d same.
        subst (λ (x : Db). IsExclusive x.leases) (some-injective _ _ same)
          (rw empty (record { apart = tt; named = tt })))
      db e)
