-- ===== src/Base/Queries.antt =====
-- What the queries of `Rows` return.
use bachkator.Base.Tests.{Bool-cases, Option-cases}
use bachkator.Base.Lists.{All, In, here, there, In-cons, All-weaken}
use bachkator.Base.Rows.{select, find, exists, affected, first_by, update, changed}
use Prim.Native.Nat.{ℕ, ◌≤◌, ◌<◌}
use mathlib.Core.Path.{◌≡◌, refl, ap, sym, subst, ◌∙◌}
use mathlib.Core.Logic.{inl, inr}
use mathlib.Core.Bool.{Bool, true, false}
use mathlib.Core.Option.{none, some, some-injective, none-ne-some, some-ne-none}
use mathlib.Core.List.{cons≢nil, List, [], ◌∷◌}
use native.Mathlib.Nat.{le_trans, le_of_eq}
use native.Mathlib.Omega.{arith}

module _ {ℓ} {A : Type ℓ} (test : A → Bool) where
  pub select-In : (xs : List A) (a : A) → In a (select test xs) → In a xs × (test a ≡ true)
  select-In [] a m = elim m [ ]
  select-In (x ∷ xs) a m = elim (Bool-cases (test x)) [
    | inl e ↦ elim (In-cons (rw e at m)) [
      | inl is ↦ (subst (λ y. In y (x ∷ xs)) (sym is) here, ap test is ∙ e)
      | inr m' ↦ let (m'', t) = select-In xs a m' in (there m'', t)
    ]
    | inr e ↦ let (m', t) = select-In xs a (rw e at m) in (there m', t)
  ]

  pub find-In : (xs : List A) (a : A) → find test xs ≡ some a → In a xs × (test a ≡ true)
  find-In [] a h = absurd (none-ne-some a h)
  find-In (x ∷ xs) a h = elim (Bool-cases (test x)) [
    | inl e ↦
        subst (λ y. In y (x ∷ xs) × (test y ≡ true)) (some-injective _ _ (rw e at h)) (here, e)
    | inr e ↦ let (m, t) = find-In xs a (rw e at h) in (there m, t)
  ]

  pub find-none : (xs : List A) → find test xs ≡ none → All (λ x. test x ≡ false) xs
  find-none [] h = tt
  find-none (x ∷ xs) h = elim (Bool-cases (test x)) [
    | inl e ↦ absurd (some-ne-none x (rw e at h))
    | inr e ↦ (e, find-none xs (rw e at h))
  ]

  pub exists-none : (xs : List A) → exists test xs ≡ false → All (λ x. test x ≡ false) xs
  exists-none [] h = tt
  exists-none (x ∷ xs) h = ground (arith, exists-none xs)

  pub exists-In : (xs : List A) → exists test xs ≡ true → (a : A) × In a xs × (test a ≡ true)
  exists-In [] h = ground arith
  exists-In (x ∷ xs) h = elim (Bool-cases (test x)) [
    | inl e ↦ (x, here, e)
    | inr e ↦ let (a, m, t) = exists-In xs (rw e at h) in (a, there m, t)
  ]

  pub exists-of-In : (xs : List A) (a : A) → In a xs → test a ≡ true → exists test xs ≡ true
  exists-of-In [] a m t = elim m [ ]
  exists-of-In (x ∷ xs) a here t = ground arith
  exists-of-In (x ∷ xs) a (there m) t = ground (arith, exists-of-In xs a m t)

  pub affected-pos : (xs : List A) (a : A) → In a xs → test a ≡ true → 0 < affected test xs
  affected-pos [] a m t = elim m [ ]
  affected-pos (x ∷ xs) a here t = ground arith
  affected-pos (x ∷ xs) a (there m) t = ground (arith, affected-pos xs a m t)

module _ {ℓ} {A : Type ℓ} (before : A → A → Bool) where
  pub first_by-In : (xs : List A) (a : A) → first_by before xs ≡ some a → In a xs
  first_by-In [] a h = absurd (none-ne-some a h)
  first_by-In (x ∷ xs) a h = elim (Option-cases (first_by before xs)) [
    | inl e ↦ subst (λ y. In y (x ∷ xs)) (some-injective _ _ (rw e at h)) here
    | inr (y, e) ↦ elim (Bool-cases (before y x)) [
      | inl b ↦ there (first_by-In xs a (e ∙ rw b at (rw e at h)))
      | inr b ↦ subst (λ z. In z (x ∷ xs)) (some-injective _ _ (rw b at (rw e at h))) here
    ]
  ]

  pub first_by-none : (xs : List A) → first_by before xs ≡ none → xs ≡ []
  first_by-none [] h = refl
  first_by-none (x ∷ xs) h = ground arith

  -- Where the order refines a number, the first row has the least number.
  pub first_by-least :
      (key : A → ℕ)
      → ((x y : A) → before x y ≡ true → key x ≤ key y)
      → ((x y : A) → before x y ≡ false → key y ≤ key x)
      → (xs : List A) (a : A) → first_by before xs ≡ some a
      → All (λ x. key a ≤ key x) xs
  first_by-least key fwd back [] a h = tt
  first_by-least key fwd back (x ∷ xs) a h = elim (Option-cases (first_by before xs)) [
    | inl e ↦ (
      le_of_eq (ap key (sym (some-injective _ _ (rw e at h)))),
      subst (All (λ z. key a ≤ key z)) (sym (first_by-none xs e)) tt,
    )
    | inr (y, e) ↦ elim (Bool-cases (before y x)) [
      | inl b ↦
          let is : y ≡ a = some-injective _ _ (rw b at (rw e at h)) in
          (
            subst (λ z. key z ≤ key x) is (fwd y x b),
            first_by-least key fwd back xs a (e ∙ ap some is),
          )
      | inr b ↦
          let is : x ≡ a = some-injective _ _ (rw b at (rw e at h)) in
          let low : key a ≤ key y = subst (λ z. key z ≤ key y) is (back y x b) in
          (
            le_of_eq (ap key (sym is)),
            All-weaken (λ z. key y ≤ key z) (λ z. key a ≤ key z) xs (λ z k. le_trans low k)
                (first_by-least key fwd back xs y e),
          )
    ]
  ]

module _ {ℓ} {A : Type ℓ} (test : A → Bool) where
  pub select-nil : (xs : List A) → select test xs ≡ [] → All (λ x. test x ≡ false) xs
  select-nil [] h = tt
  select-nil (x ∷ xs) h = elim (Bool-cases (test x)) [
    | inl e ↦ absurd (cons≢nil (rw e at h))
    | inr e ↦ (e, select-nil xs (rw e at h))
  ]

  pub In-select : (xs : List A) (a : A) → In a xs → test a ≡ true → In a (select test xs)
  In-select [] a m t = elim m [ ]
  In-select (x ∷ xs) a here t = rw t here
  In-select (x ∷ xs) a (there m) t = elim (Bool-cases (test x)) [
    | inl e ↦ rw e (there (In-select xs a m t))
    | inr e ↦ rw e (In-select xs a m t)
  ]

module _ {ℓ} {A : Type ℓ} (test : A → Bool) (change : A → A) where
  -- A row after an UPDATE comes from a row before it.
  pub In-update_inv :
      (y : A) (xs : List A)
      → In y (update test change xs)
      → (x : A) × In x xs × (y ≡ changed test change x)
  In-update_inv y [] m = elim m [ ]
  In-update_inv y (x ∷ xs) m = elim (In-cons m) [
    | inl e ↦ (x, here, e)
    | inr m' ↦ let (x', m'', e) = In-update_inv y xs m' in (x', there m'', e)
  ]

  -- An UPDATE by the key that a query uses, which leaves the key: the query finds the changed row.
  pub find-update :
      ((x : A) → test x ≡ true → test (change x) ≡ true)
      → (xs : List A) (x : A) → find test xs ≡ some x
      → find test (update test change xs) ≡ some (change x)
  find-update keep [] x h = absurd (none-ne-some x h)
  find-update keep (y ∷ ys) x h = elim (Bool-cases (test y)) [
    | inl e ↦ rw (e, keep y e) (ap (λ z. some (change z)) (some-injective _ _ (rw e at h)))
    | inr e ↦ rw (e, e) (find-update keep ys x (rw e at h))
  ]
