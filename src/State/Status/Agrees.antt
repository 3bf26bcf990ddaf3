-- ===== src/State/Status/Agrees.antt =====
-- The lease and the item of GetFactoryDaemonStatus of internal/state/factory_daemon.go.
use bachkator.Base.{
  String, true, false, Option, none, some, ◌==◌, ◌≡◌, ◌⊎◌, inl, inr, refl, sym, ap, ◌∙◌, arith,
  select, first_by, first_by-In, All-In, In, select-In, Bool-cases, ok, ◌>>=◌, >>=-eq-ok,
}
use mathlib.Core.Bool.{true≢false}
use bachkator.State.Time.{Time, format_time}
use bachkator.State.Tables.{Outcome, LeaseRow, FactoryWorkItem, ItemRow, Db}
use bachkator.State.Leases.{holder, holds, scan_lease}
use bachkator.State.Leases.Exclusive.{IsExclusive, holder-alone}
use bachkator.State.Items.{get_item}
use bachkator.State.Items.Loads.{get_item-id}
use bachkator.State.Status.{
  DaemonStatus, active_lease, in_work, updated_later, load_active, daemon_status,
}

active_lease-holds :
    (factory : String) (now : Time) (db : Db) (r : LeaseRow)
    → IsExclusive db.leases
    → In r db.leases
    → holds factory (format_time now) r ≡ true
    → active_lease factory now db ≡ some (scan_lease r)
unfolding active_lease
active_lease-holds factory now db r h m runs =
    let c = holder factory (format_time now) db.leases in
    elim (All-In (λ s. (holds factory (format_time now) s ≡ false) ⊎ (c ≡ some s)) db.leases
      (holder-alone factory (format_time now) db.leases c refl h.apart) m) [
        | inl off ↦ absurd (true≢false (sym runs ∙ off))
        | inr is ↦ ground arith
      ]

load_active-In :
    (factory : String) (db : Db) (c : Option ItemRow) (item : FactoryWorkItem)
    → load_active factory db c ≡ ok (some item)
    → (r : ItemRow) × (c ≡ some r) × (item.id ≡ r.id)
unfolding load_active
load_active-In factory db none item e = absurd (ground arith)
load_active-In factory db (some r) item e = elim (Bool-cases (r.id == "")) [
  | inl b ↦ absurd (ground arith)
  | inr b ↦
      let run : (get_item factory r.id db >>= λ x. ok (some x)) ≡ ok (some item) = rw b at e in
      let (loaded, got, last) = >>=-eq-ok (get_item factory r.id db) (λ x. ok (some x)) run in
      let same : loaded ≡ item = ground arith in
      (
        r,
        refl,
        ap (λ (x : FactoryWorkItem). x.id) (sym same) ∙ get_item-id factory r.id db loaded got,
      )
]

status_is : {s t : DaemonStatus} → ◌≡◌ {A = Outcome DaemonStatus} (ok s) (ok t) → s ≡ t
status_is h = cc

-- Where the leases are exclusive, a status shows the lease of any row that runs for the factory at
-- its time.
pub daemon_status_shows_lease :
    (factory : String) (now : Time) (db : Db) (status : DaemonStatus) (r : LeaseRow)
    → daemon_status factory now (some db) ≡ ok status
    → IsExclusive db.leases
    → In r db.leases
    → holds factory (format_time now) r ≡ true
    → status.lease ≡ some (scan_lease r)
unfolding daemon_status
daemon_status_shows_lease factory now db status r e h m runs =
    let active = first_by updated_later (select (in_work factory) db.items) in
    let (item, loads, last) = >>=-eq-ok (load_active factory db active) _ e in
    ap (λ (s : DaemonStatus). s.lease) (sym (status_is last))
    ∙ active_lease-holds factory now db r h m runs

-- The item that a status shows has the id of a row of the factory that is claimed or running.
pub daemon_status_shows_item :
    (factory : String) (now : Time) (db : Db) (status : DaemonStatus) (shown : FactoryWorkItem)
    → daemon_status factory now (some db) ≡ ok status
    → status.active_item ≡ some shown
    → (r : ItemRow) × In r db.items × (in_work factory r ≡ true) × (shown.id ≡ r.id)
unfolding daemon_status
daemon_status_shows_item factory now db status shown e is =
    let active = first_by updated_later (select (in_work factory) db.items) in
    let (item, loads, last) = >>=-eq-ok (load_active factory db active) _ e in
    let (r, found, same) =
      load_active-In factory db active shown
        (loads ∙ ap ok (ap (λ (s : DaemonStatus). s.active_item) (status_is last) ∙ is)) in
    let (m, k) = select-In (in_work factory) db.items r (first_by-In _ _ r found) in (r, m, k, same)
