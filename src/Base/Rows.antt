-- ===== src/Base/Rows.antt =====
-- The SQL statements that the program uses, over tables as lists of rows.
use bachkator.Base.Tests.{if◌then◌else◌, Bool-cases}
use bachkator.Base.Lists.{All, Each, In, here, there, All-weaken}
use Prim.Native.Nat.{ℕ, suc, ◌≤◌}
use mathlib.Core.Path.{◌≡◌, refl, ap}
use mathlib.Core.Logic.{◌⊎◌, inl, inr}
use mathlib.Core.Bool.{Bool, true, false, ◌||◌}
use mathlib.Core.Option.{Option, none, some}
use mathlib.Core.List.{List, [], ◌∷◌}
use native.Mathlib.Omega.{arith}

module _ {ℓ} {A : Type ℓ} where
  -- SELECT … WHERE test
  abbrev pub select : (A → Bool) → List A → List A
  select test [] = []
  select test (x ∷ xs) = let rest = select test xs in if test x then x ∷ rest else rest

  -- UPDATE … SET change WHERE test
  abbrev pub update : (A → Bool) → (A → A) → List A → List A
  update test change [] = []
  update test change (x ∷ xs) = (if test x then change x else x) ∷ update test change xs

  -- EXISTS (SELECT 1 … WHERE test)
  abbrev pub exists : (A → Bool) → List A → Bool
  exists test [] = false
  exists test (x ∷ xs) = test x || exists test xs

  -- the one row that a key determines
  abbrev pub find : (A → Bool) → List A → Option A
  find test [] = none
  find test (x ∷ xs) = let rest = find test xs in if test x then some x else rest

  -- RowsAffected of an UPDATE … WHERE test
  abbrev pub affected : (A → Bool) → List A → ℕ
  affected test [] = 0
  affected test (x ∷ xs) = let rest = affected test xs in if test x then suc rest else rest

  -- ORDER BY … LIMIT 1, where `before x y` says that `x` sorts strictly before `y`
  abbrev pub first_by : (A → A → Bool) → List A → Option A
  first_by before [] = none
  first_by before (x ∷ xs) = elim (first_by before xs) [
    | none ↦ some x
    | some y ↦ if before y x then some y else some x
  ]

  -- ORDER BY, stable
  abbrev pub insert_by : (A → A → Bool) → A → List A → List A
  insert_by before x [] = x ∷ []
  insert_by before x (y ∷ ys) =
      let rest = insert_by before x ys in if before y x then y ∷ rest else x ∷ y ∷ ys

  abbrev pub order_by : (A → A → Bool) → List A → List A
  order_by before [] = []
  order_by before (x ∷ xs) = insert_by before x (order_by before xs)

-- What an UPDATE does to one row.
abbrev pub changed {ℓ} : {A : Type ℓ} → (A → Bool) → (A → A) → A → A
changed test change x = if test x then change x else x

module _ {ℓ κ} {A : Type ℓ} (test : A → Bool) (change : A → A) where
  pub All-update :
      (P Q : A → Type κ) (xs : List A)
      → ((x : A) → P x → Q (changed test change x))
      → All P xs
      → All Q (update test change xs)
  All-update P Q [] keep h = tt
  All-update P Q (x ∷ xs) keep h = (keep x h.0, All-update P Q xs keep h.1)

  pub Each-update :
      (R S : A → A → Type κ) (xs : List A)
      → ((x y : A) → R x y → S (changed test change x) (changed test change y))
      → Each R xs
      → Each S (update test change xs)
  Each-update R S [] keep h = tt
  Each-update R S (x ∷ xs) keep h =
      (All-update (R x) (S (changed test change x)) xs (keep x) h.0, Each-update R S xs keep h.1)

module _ {ℓ} {A : Type ℓ} (test : A → Bool) where
  pub select-none : (xs : List A) → All (λ x. test x ≡ false) xs → select test xs ≡ []
  select-none [] h = refl
  select-none (x ∷ xs) h = rw (h.0) (select-none xs h.1)

  pub affected-none : (xs : List A) → All (λ x. test x ≡ false) xs → affected test xs ≡ 0
  affected-none [] h = refl
  affected-none (x ∷ xs) h = rw (h.0) (affected-none xs h.1)

  -- Where no two rows pass the test, it selects one row or none.
  pub select_single :
      (xs : List A)
      → Each (λ x y. test x ≡ true → test y ≡ false) xs
      → (select test xs ≡ []) × All (λ x. test x ≡ false) xs
        ⊎ ((c : A) × (select test xs ≡ c ∷ []) × All (λ x. (test x ≡ false) ⊎ (x ≡ c)) xs)
  select_single [] h = inl (refl, tt)
  select_single (x ∷ xs) h = elim (Bool-cases (test x)) [
    | inl e ↦
        let others =
          All-weaken (λ y. test x ≡ true → test y ≡ false) (λ y. test y ≡ false) xs (λ y k. k e)
            h.0 in
        inr (
          x,
          rw e (ap (λ l. x ∷ l) (select-none xs others)),
          (
            inr refl,
            All-weaken (λ y. test y ≡ false) (λ y. (test y ≡ false) ⊎ (y ≡ x)) xs (λ y k. inl k)
                others,
          ),
        )
    | inr e ↦ elim (select_single xs h.1) [
      | inl (none_selected, all) ↦ inl (rw e none_selected, (e, all))
      | inr (c, one_selected, all) ↦ inr (c, rw e one_selected, (inl e, all))
    ]
  ]

  pub affected_single :
      (xs : List A) → Each (λ x y. test x ≡ true → test y ≡ false) xs → affected test xs ≤ 1
  affected_single [] h = omega arith
  affected_single (x ∷ xs) h = elim (Bool-cases (test x)) [
    | inl e ↦
        let others =
          All-weaken (λ y. test x ≡ true → test y ≡ false) (λ y. test y ≡ false) xs (λ y k. k e)
            h.0 in
        rw e (rw (affected-none xs others) (omega arith))
    | inr e ↦ rw e (affected_single xs h.1)
  ]

module _ {ℓ} {A : Type ℓ} where
  -- A row of the table is a row after the UPDATE, changed or not.
  pub In-update :
      (test : A → Bool) (change : A → A) (a : A) (xs : List A)
      → In a xs
      → In (changed test change a) (update test change xs)
  In-update test change a [] m = elim m [ ]
  In-update test change a (x ∷ xs) here = here
  In-update test change a (x ∷ xs) (there m) = there (In-update test change a xs m)
