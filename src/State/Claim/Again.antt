-- ===== src/State/Claim/Again.antt =====
-- Two calls of ClaimNextFactoryWorkItem of internal/state/factory_daemon.go, one after the other.
use bachkator.Base.{
  String, true, ◌||◌, some, if◌then◌else◌, ok, ◌≡◌, ◌≢◌, In, arith, changed, Bool-cases, inl, inr,
  sym, ap, ◌∙◌, In-update_inv, subst,
}
use bachkator.Model.{is_pending, is_waiting}
use bachkator.State.Time.{Time, Stamp, format_time}
use bachkator.State.Tables.{FactoryWorkItem, ItemRow, Db}
use bachkator.State.Claim.{claimable, unclaimed, take, claim}
use bachkator.State.Claim.Sound.{claimable-unclaimed, claim_takes}

claimable-in :
    (db : Db) (factory daemon : String) (now : Stamp) (y : ItemRow)
    → claimable db factory daemon now y ≡ true
    → (is_pending y.lifecycle || is_waiting y.lifecycle) ≡ true
unfolding claimable
claimable-in db factory daemon now y h = ground arith

-- No row of the claimed id is claimable after the claim.
not-claimable :
    (db : Db) (factory daemon other id : String) (claimed_at expires_at : Time) (now : Stamp)
    (x y : ItemRow)
    → y ≡ changed (unclaimed factory id) (take daemon claimed_at expires_at) x
    → y.id ≡ id
    → claimable db factory other now y ≡ true
    → ⊥
not-claimable db factory daemon other id claimed_at expires_at now x y e i c =
    elim (Bool-cases (unclaimed factory id x)) [
      | inl u ↦
          let is : y ≡ take daemon claimed_at expires_at x =
            e ∙ ap (λ b. if b then take daemon claimed_at expires_at x else x) u in
          let open_ = claimable-in db factory other now y c in
          let closed = ap (λ (z : ItemRow). is_pending z.lifecycle || is_waiting z.lifecycle) is in
          cc (sym open_ ∙ closed)
      | inr u ↦
          let is : y ≡ x = e ∙ ap (λ b. if b then take daemon claimed_at expires_at x else x) u in
          let un = claimable-unclaimed db factory other now y c in
          cc (sym un ∙ ap (λ i. unclaimed factory i y) i ∙ ap (unclaimed factory id) is ∙ u)
    ]

-- Of two claims of one factory, the second on the database that the first left, by any daemons and
-- at any times, each with a result: the results are different items.
pub claim-claim_ne :
    (factory daemon daemon' : String) (at at' expires expires' : Time) (db db₁ db₂ : Db)
    (item item' : FactoryWorkItem)
    → claim factory daemon at expires (some db) ≡ (ok (some item), some db₁)
    → claim factory daemon' at' expires' (some db₁) ≡ (ok (some item'), some db₂)
    → item'.id ≢ item.id
claim-claim_ne factory daemon daemon' at at' expires expires' db db₁ db₂ item item' h k e =
    let (r, m, c, least, same, taken, i) = claim_takes factory daemon at expires db item db₁ h in
    let (r', m', c', least', same', taken', i') =
      claim_takes factory daemon' at' expires' db₁ item' db₂ k in
    let (x, mx, is) =
      In-update_inv (unclaimed factory r.id) (take daemon at expires) r' db.items
        (subst (λ (d : Db). In r' d.items) same m') in
    not-claimable db₁ factory daemon daemon' r.id at expires (format_time at') x r' is
      (sym i' ∙ e ∙ i) c'
