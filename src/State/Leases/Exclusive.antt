-- ===== src/State/Leases/Exclusive.antt =====
-- The table of leases of internal/state/factory_daemon.go under its UPDATEs and its INSERT.
use bachkator.Base.{
  String, Bool, true, false, ◌&&◌, Option, some, List, [], ◌∷◌, ◌==◌, ◌≡◌, ◌⊎◌, inl, inr, arith,
  eq_iff, All, Each, All-weaken, update, select_single, changed, All-update, Each-update,
  Bool-cases, sym, ap, ◌∙◌,
}
use bachkator.State.Time.{Stamp}
use bachkator.State.Tables.{LeaseRow}
use bachkator.State.Leases.{
  is_active, active_for, lapsed, expire, expire_leases, holds, holder, upsert_lease,
}

-- `daemon_id` is the table's key, and of two leases of a factory one is not active.
abbrev pub Apart : LeaseRow → LeaseRow → Type 0
Apart r s =
    ((r.daemon_id == s.daemon_id) ≡ false)
    × (((r.factory == s.factory) && is_active r.status && is_active s.status) ≡ false)

abbrev pub Named : LeaseRow → Type 0
Named r = (r.daemon_id == "") ≡ false

pub record IsExclusive (rows : List LeaseRow) : Type 0 where
  pub apart : Each Apart rows
  pub named : All Named rows

str_sym : (a b : String) → (a == b) ≡ false → (b == a) ≡ false
str_sym a b h = ground (arith, eq_iff a b, eq_iff b a)

-- A row that an UPDATE made no more active than it was, and left in its place.
abbrev pub Weaker : LeaseRow → LeaseRow → Type 0
Weaker r s =
    (r.daemon_id ≡ s.daemon_id)
    × (r.factory ≡ s.factory)
    × ((is_active r.status ≡ true) ⊎ (is_active s.status ≡ false))

Apart-Weaker : (r r' s s' : LeaseRow) → Weaker r r' → Weaker s s' → Apart r s → Apart r' s'
Apart-Weaker r r' s s' h k a = ground arith

pub Each-Weaker :
    (test : LeaseRow → Bool) (change : LeaseRow → LeaseRow) (rows : List LeaseRow)
    → ((r : LeaseRow) → Weaker r (changed test change r))
    → IsExclusive rows
    → IsExclusive (update test change rows)
Each-Weaker test change rows weaker h = record {
  apart =
      Each-update test change Apart Apart rows
        (λ r s a.
          Apart-Weaker r (changed test change r) s (changed test change s) (weaker r) (weaker s) a)
        h.apart;
  named = All-update test change Named Named rows (λ r n. let w = weaker r in ground arith) h.named;
}

pub expire_leases-IsExclusive :
    (factory : String) (now : Stamp) (rows : List LeaseRow)
    → IsExclusive rows
    → IsExclusive (expire_leases factory now rows)
unfolding expire_leases
expire_leases-IsExclusive factory now rows h =
    Each-Weaker (lapsed factory now) expire rows (λ r. ground arith) h

-- After expiry each active lease of the factory still runs.
pub expire_leases-running :
    (factory : String) (now : Stamp) (rows : List LeaseRow)
    → All (λ r. active_for factory r ≡ holds factory now r) (expire_leases factory now rows)
unfolding expire_leases
expire_leases-running factory now [] = tt
expire_leases-running factory now (r ∷ rows) =
    (ground arith, expire_leases-running factory now rows)

-- A row that `new` can stand beside, or that it replaces.
abbrev pub Yields : LeaseRow → LeaseRow → Type 0
Yields new r = ((r.daemon_id == new.daemon_id) ≡ true) ⊎ (active_for new.factory r ≡ false)

Apart-of-Yields :
    (new r s : LeaseRow)
    → (r.daemon_id == new.daemon_id) ≡ true
    → Yields new s
    → Apart r s
    → Apart new s
Apart-of-Yields new r s same y a = ground (
  arith,
  eq_iff r.daemon_id new.daemon_id,
  eq_iff s.daemon_id new.daemon_id,
  eq_iff r.daemon_id s.daemon_id,
  eq_iff new.daemon_id s.daemon_id,
  eq_iff new.factory s.factory,
  eq_iff s.factory new.factory,
)

Apart-beside :
    (new r : LeaseRow) → (r.daemon_id == new.daemon_id) ≡ false → Yields new r → Apart r new
Apart-beside new r other y = ground arith

module _ (new : LeaseRow) where
  pub upsert_lease-All :
      (P : LeaseRow → Type 0) (rows : List LeaseRow)
      → ((r : LeaseRow) → P (record new { acquired_at = r.acquired_at }))
      → P new
      → All P rows
      → All P (upsert_lease new rows)
  unfolding upsert_lease
  upsert_lease-All P [] keep at h = (at, tt)
  upsert_lease-All P (r ∷ rs) keep at h = elim (Bool-cases (r.daemon_id == new.daemon_id)) [
    | inl e ↦ rw e (keep r, h.1)
    | inr e ↦ rw e (h.0, upsert_lease-All P rs keep at h.1)
  ]

  pub upsert_lease-Each :
      (rows : List LeaseRow)
      → All (Yields new) rows
      → Each Apart rows
      → Each Apart (upsert_lease new rows)
  unfolding upsert_lease
  upsert_lease-Each [] y h = (tt, tt)
  upsert_lease-Each (r ∷ rs) y h = elim (Bool-cases (r.daemon_id == new.daemon_id)) [
    | inl e ↦ rw e (beside rs e y.1 h.0, h.1)
    | inr e ↦ rw e (
      upsert_lease-All (Apart r) rs (λ s. Apart-beside new r e y.0) (Apart-beside new r e y.0) h.0,
      upsert_lease-Each rs y.1 h.1,
    )
  ]
    where
      beside :
          (ss : List LeaseRow)
          → (r.daemon_id == new.daemon_id) ≡ true
          → All (Yields new) ss
          → All (Apart r) ss
          → All (Apart new) ss
      beside [] e y a = tt
      beside (s ∷ ss) e y a = (Apart-of-Yields new r s e y.0 a.0, beside ss e y.1 a.1)

-- The query for the holder finds every active lease of the factory that runs.
pub holder-alone :
    (factory : String) (now : Stamp) (rows : List LeaseRow) (c : Option LeaseRow)
    → holder factory now rows ≡ c
    → Each Apart rows
    → All (λ r. (holds factory now r ≡ false) ⊎ (c ≡ some r)) rows
unfolding holder
holder-alone factory now rows c e h = elim (select_single (holds factory now) rows (alone rows h)) [
  | inl (none_selected, all) ↦ All-weaken _ _ rows (λ r k. inl k) all
  | inr (only, selected, all) ↦
      All-weaken (λ r. (holds factory now r ≡ false) ⊎ (r ≡ only)) _ rows
        (λ r k. elim k [
          | inl off ↦ inl off
          | inr is ↦ inr (sym e ∙ (rw selected (ap some (sym is))))
        ])
        all
]
  where
    alone :
        (rs : List LeaseRow)
        → Each Apart rs
        → Each (λ r s. holds factory now r ≡ true → holds factory now s ≡ false) rs
    alone [] h = tt
    alone (r ∷ rs) h = (
      All-weaken (Apart r) _ rs
          (λ s a k.
            ground (
              arith,
              eq_iff r.factory factory,
              eq_iff s.factory factory,
              eq_iff r.factory s.factory,
            ))
          h.0,
      alone rs h.1,
    )
