-- ===== src/State/Claim/Sound.antt =====
-- The results of ClaimNextFactoryWorkItem of internal/state/factory_daemon.go.
use bachkator.Base.{
  String, Bool, true, false, none, some, if◌then◌else◌, select, update, affected, ok, ◌≡◌, ◌≤◌, ◌<◌,
  All, In, arith, eq_refl, In-update, Option-cases, first_by-In, select-In, first_by-none,
  first_by-least, select-nil, affected-pos, inl, inr, sym, ap, All-In, In-select, subst, ◌||◌, ◌==◌,
}
use bachkator.Model.{Priority, urgent, high, normal, low}
use bachkator.State.Time.{Time, Stamp, format_time}
use bachkator.State.Tables.{FactoryWorkItem, ItemRow, Db}
use bachkator.State.Items.{get_item}
use bachkator.State.Items.Loads.{get_item-IsLoaded, IsLoaded-id}
use bachkator.State.Claim.{
  claimable, rank, claimed_before, next_item, unclaimed, take, claim_row, claim_tx, claim,
}

-- A row that may be claimed can be updated.
pub claimable-unclaimed :
    (db : Db) (factory daemon : String) (now : Stamp) (r : ItemRow)
    → claimable db factory daemon now r ≡ true
    → unclaimed factory r.id r ≡ true
unfolding claimable
claimable-unclaimed db factory daemon now r h = ground (arith, eq_refl r.id)

next_item-In :
    (db : Db) (factory daemon : String) (now : Stamp) (r : ItemRow)
    → next_item db factory daemon now ≡ some r
    → In r db.items × (claimable db factory daemon now r ≡ true)
unfolding next_item
next_item-In db factory daemon now r h =
    select-In (claimable db factory daemon now) db.items r (first_by-In claimed_before _ r h)

next_item-none :
    (db : Db) (factory daemon : String) (now : Stamp)
    → next_item db factory daemon now ≡ none
    → All (λ r. claimable db factory daemon now r ≡ false) db.items
unfolding next_item
next_item-none db factory daemon now h =
    select-nil (claimable db factory daemon now) db.items (first_by-none claimed_before _ h)

rank-before : (r s : ItemRow) → claimed_before r s ≡ true → rank r.priority ≤ rank s.priority
unfolding claimed_before
rank-before r s h = ground arith

rank-after : (r s : ItemRow) → claimed_before r s ≡ false → rank s.priority ≤ rank r.priority
unfolding claimed_before
rank-after r s h = ground arith

next_item-least :
    (db : Db) (factory daemon : String) (now : Stamp) (r : ItemRow)
    → next_item db factory daemon now ≡ some r
    → All
        (λ (s : ItemRow). rank r.priority ≤ rank s.priority)
        (select (claimable db factory daemon now) db.items)
unfolding next_item
next_item-least db factory daemon now r =
    first_by-least claimed_before (λ (x : ItemRow). rank x.priority) rank-before rank-after _ r

-- A priority that the CASE gives a rank of its own.
abbrev pub is_listed : Priority → Bool
is_listed p = (p == urgent) || (p == high) || (p == normal) || (p == low)

rank_last : (p q : Priority) → is_listed p ≡ false → rank p ≤ rank q → is_listed q ≡ false
unfolding rank
rank_last p q e h = ground arith

-- An item whose priority is not urgent, high, normal or low, such as a critical one, is next only
-- where no claimable item has one of these four priorities: even those of priority low go before it.
pub next_item-critical_last :
    (db : Db) (factory daemon : String) (now : Stamp) (r s : ItemRow)
    → next_item db factory daemon now ≡ some r
    → is_listed r.priority ≡ false
    → In s db.items
    → claimable db factory daemon now s ≡ true
    → is_listed s.priority ≡ false
next_item-critical_last db factory daemon now r s h p m c = rank_last r.priority s.priority p (
    All-In (λ (x : ItemRow). rank r.priority ≤ rank x.priority)
      (select (claimable db factory daemon now) db.items)
      (next_item-least db factory daemon now r h)
      (In-select (claimable db factory daemon now) db.items s m c))

module _ (factory daemon : String) (claimed_at expires_at : Time) (db : Db) where
  abbrev pub claims : ItemRow → Bool
  claims = claimable db factory daemon (format_time claimed_at)

  -- The database after the claim of a row.
  abbrev pub after : ItemRow → Db
  after r = record db {
    items = update (unclaimed factory r.id) (take daemon claimed_at expires_at) db.items;
  }

  claim_row-some :
      (r : ItemRow) (item : FactoryWorkItem) (db' : Db)
      → claim_row factory daemon claimed_at expires_at db (some r) ≡ ok (some item, db')
      → (db' ≡ after r) × (get_item factory r.id (after r) ≡ ok item)
  unfolding claim_row
  claim_row-some r item db' e = ground arith

  claim_row-none :
      (r : ItemRow) (db' : Db)
      → 0 < affected (unclaimed factory r.id) db.items
      → claim_row factory daemon claimed_at expires_at db (some r) ≡ ok (none, db')
      → ⊥
  unfolding claim_row
  claim_row-none r db' h e = ground arith

  claim_tx-some :
      (item : FactoryWorkItem) (db' : Db)
      → claim_tx factory daemon claimed_at expires_at db ≡ ok (some item, db')
      → (r : ItemRow) × (next_item db factory daemon (format_time claimed_at) ≡ some r)
        × (db' ≡ after r)
        × (get_item factory r.id (after r) ≡ ok item)
  unfolding claim_tx
  claim_tx-some item db' e =
      elim (Option-cases (next_item db factory daemon (format_time claimed_at))) [
        | inl n ↦ absurd (unfold claim_row in ground arith)
        | inr (r, is) ↦
            let (same, loads) = claim_row-some r item db' (rw is at e) in (r, is, same, loads)
      ]

  taken-In :
      (r : ItemRow)
      → In r db.items
      → claims r ≡ true
      → In (take daemon claimed_at expires_at r) (after r).items
  taken-In r m c =
      subst
        (λ x. In x (update (unclaimed factory r.id) (take daemon claimed_at expires_at) db.items))
        (ap (λ b. if b then take daemon claimed_at expires_at r else r)
          (claimable-unclaimed db factory daemon (format_time claimed_at) r c))
        (In-update (unclaimed factory r.id) (take daemon claimed_at expires_at) r db.items m)

  claim_tx-none :
      (db' : Db)
      → claim_tx factory daemon claimed_at expires_at db ≡ ok (none, db')
      → (next_item db factory daemon (format_time claimed_at) ≡ none) × (db' ≡ db)
  unfolding claim_tx
  claim_tx-none db' e = elim (Option-cases (next_item db factory daemon (format_time claimed_at))) [
    | inl n ↦ (n, unfold claim_row in ground arith)
    | inr (r, is) ↦
        let (m, c) = next_item-In db factory daemon (format_time claimed_at) r is in
        absurd (
          claim_row-none r db'
            (affected-pos (unclaimed factory r.id) db.items r m
              (claimable-unclaimed db factory daemon (format_time claimed_at) r c))
            (rw is at e))
  ]

  -- The item that a claim returns was claimable: it is of the factory, it waited for nobody or was
  -- approved for its phase in its newest attempt, and the daemon's lease of the factory ran.
  -- Every claimable item of the factory had the same or a larger rank. The claim writes the
  -- daemon, the times and the lifecycle to the rows of that factory and id that were not claimed,
  -- and nothing else; the claimed row is among the items, and the result has its id.
  pub claim_takes :
      (item : FactoryWorkItem) (db' : Db)
      → claim factory daemon claimed_at expires_at (some db) ≡ (ok (some item), some db')
      → (r : ItemRow) × In r db.items
        × (claims r ≡ true)
        × All (λ (s : ItemRow). rank r.priority ≤ rank s.priority) (select claims db.items)
        × (db' ≡ after r)
        × In (take daemon claimed_at expires_at r) db'.items
        × (item.id ≡ r.id)
  unfolding claim
  claim_takes item db' e =
      let now = format_time claimed_at in
      let (r, is, same, loads) = claim_tx-some item db' (ground arith) in
      let (m, c) = next_item-In db factory daemon now r is in
      let (row, m', k, loaded) = get_item-IsLoaded factory r.id (after r) item loads in
      (
        r,
        m,
        c,
        next_item-least db factory daemon now r is,
        same,
        subst (λ (d : Db). In (take daemon claimed_at expires_at r) d.items) (sym same)
            (taken-In r m c),
        IsLoaded-id factory r.id (after r) row item k loaded,
      )

  -- A claim that returns no item and no error has left the database alone, and no item of it was
  -- claimable.
  pub claim-none :
      (db' : Db)
      → claim factory daemon claimed_at expires_at (some db) ≡ (ok none, some db')
      → (db' ≡ db) × All (λ r. claims r ≡ false) db.items
  unfolding claim
  claim-none db' e =
      let (n, same) = claim_tx-none db' (ground arith) in
      (same, next_item-none db factory daemon (format_time claimed_at) n)
