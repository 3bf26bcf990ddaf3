-- ===== src/Base/Counts.antt =====
-- Counting the elements of a list that pass a test.
use bachkator.Base.Tests.{if◌then◌else◌, ◌==◌}
use bachkator.Base.Lists.{length}
use bachkator.Base.Rows.{select, exists, affected, insert_by, order_by}
use Prim.Native.Nat.{ℕ, suc, ◌+◌, ◌≤◌, ◌<◌}
use Prim.Native.String.{String}
use mathlib.Core.Path.{◌≡◌, refl, sym, ◌∙◌, ap}
use mathlib.Core.Bool.{Bool, true, ◌&&◌}
use mathlib.Core.List.{List, [], ◌∷◌, ◌++◌, map}
use native.Mathlib.Omega.{arith}
use text.Mathlib.TextEquality.{eq_iff}
use text.Mathlib.TextPositions.{eq_refl}

module _ {ℓ} {A : Type ℓ} (test : A → Bool) where
  pub affected-append :
      (xs ys : List A) → affected test (xs ++ ys) ≡ affected test xs + affected test ys
  affected-append [] ys = omega arith
  affected-append (x ∷ xs) ys = ground (arith, affected-append xs ys)

  pub affected-insert_by :
      (before : A → A → Bool) (x : A) (xs : List A)
      → affected test (insert_by before x xs) ≡ affected test (x ∷ xs)
  affected-insert_by before x [] = refl
  affected-insert_by before x (y ∷ ys) = ground (arith, affected-insert_by before x ys)

  -- Sorting changes no count.
  pub affected-order_by :
      (before : A → A → Bool) (xs : List A) → affected test (order_by before xs) ≡ affected test xs
  affected-order_by before [] = refl
  affected-order_by before (x ∷ xs) =
      ground (arith, affected-insert_by before x (order_by before xs), affected-order_by before xs)

  pub affected-select :
      (keep : A → Bool) (xs : List A)
      → affected test (select keep xs) ≡ affected (λ x. test x && keep x) xs
  affected-select keep [] = refl
  affected-select keep (x ∷ xs) = ground (arith, affected-select keep xs)

  pub exists-of-affected : (xs : List A) → 0 < affected test xs → exists test xs ≡ true
  exists-of-affected [] h = ground arith
  exists-of-affected (x ∷ xs) h = ground (arith, exists-of-affected xs)

  pub affected-of-exists : (xs : List A) → exists test xs ≡ true → 0 < affected test xs
  affected-of-exists [] h = ground arith
  affected-of-exists (x ∷ xs) h = ground (arith, affected-of-exists xs)

-- How often a text occurs.
abbrev pub occ : String → List String → ℕ
occ v = affected (λ x. x == v)

-- The list without the first occurrence of a text.
abbrev pub drop_one : String → List String → List String
drop_one a [] = []
drop_one a (x ∷ xs) = let rest = drop_one a xs in if x == a then xs else x ∷ rest

pub occ-drop_one :
    (a v : String) (xs : List String)
    → 0 < occ a xs
    → occ v xs ≡ (if a == v then 1 else 0) + occ v (drop_one a xs)
occ-drop_one a v [] h = ground arith
occ-drop_one a v (x ∷ xs) h =
    ground (arith, occ-drop_one a v xs, eq_iff x a, eq_iff a v, eq_iff x v)

pub length-drop_one :
    (a : String) (xs : List String) → 0 < occ a xs → length xs ≡ suc (length (drop_one a xs))
length-drop_one a [] h = ground arith
length-drop_one a (x ∷ xs) h = ground (arith, length-drop_one a xs)

-- A list in which each text occurs at most as often as in another is no longer.
pub length-of-occ :
    (xs ys : List String) → ((v : String) → occ v xs ≤ occ v ys) → length xs ≤ length ys
length-of-occ [] ys h = omega arith
length-of-occ (x ∷ xs) ys h =
    let pos : 0 < occ x ys = ground (arith, h x, eq_refl x) in
    let rest = length-of-occ xs (drop_one x ys) λ v. ground (arith, h v, occ-drop_one x v ys pos) in
    omega (arith, rest, length-drop_one x ys pos)

-- And where it is no shorter, each text occurs as often in both.
pub occ-of-length :
    (xs ys : List String)
    → ((v : String) → occ v xs ≤ occ v ys)
    → length ys ≤ length xs
    → (v : String) → occ v xs ≡ occ v ys
occ-of-length [] [] h k v = refl
occ-of-length [] (y ∷ ys) h k v = ground arith
occ-of-length (x ∷ xs) ys h k v =
    let pos : 0 < occ x ys = ground (arith, h x, eq_refl x) in
    let rest =
      occ-of-length xs (drop_one x ys) (λ u. ground (arith, h u, occ-drop_one x u ys pos))
        (omega (arith, k, length-drop_one x ys pos)) v in
    ground (arith, rest, occ-drop_one x v ys pos)

pub length-map {ℓ κ} :
    {A : Type ℓ} {B : Type κ} (f : A → B) (xs : List A) → length (map f xs) ≡ length xs
length-map f [] = refl
length-map f (x ∷ xs) = ap suc (length-map f xs)

-- The length of a list is the number of its elements that pass the test that all pass.
length-affected {ℓ} : {A : Type ℓ} (xs : List A) → length xs ≡ affected (λ _. true) xs
length-affected [] = refl
length-affected (x ∷ xs) = ap suc (length-affected xs)

pub length-order_by {ℓ} :
    {A : Type ℓ} (before : A → A → Bool) (xs : List A) → length (order_by before xs) ≡ length xs
length-order_by before xs =
    length-affected (order_by before xs)
    ∙ affected-order_by (λ _. true) before xs
    ∙ sym (length-affected xs)
