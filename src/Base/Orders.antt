-- ===== src/Base/Orders.antt =====
-- Lists sorted and selected: what holds of their elements.
use bachkator.Base.Tests.{if-elim}
use bachkator.Base.Lists.{All, In, here, there, In-cons}
use bachkator.Base.Rows.{select, insert_by, order_by}
use mathlib.Core.Path.{◌≡◌}
use mathlib.Core.Logic.{inl, inr}
use mathlib.Core.Bool.{Bool, true}
use mathlib.Core.List.{List, [], ◌∷◌}

-- A list in another order: what holds of all its elements.
insert_by-All {ℓ κ} :
    {A : Type ℓ} (P : A → Type κ) (before : A → A → Bool) (x : A) (xs : List A)
    → P x
    → All P xs
    → All P (insert_by before x xs)
insert_by-All P before x [] p h = (p, tt)
insert_by-All P before x (y ∷ ys) p h =
    if-elim (All P) (before y x) (λ _. (h.0, insert_by-All P before x ys p h.1)) λ _. (p, h)

pub order_by-All {ℓ κ} :
    {A : Type ℓ} (P : A → Type κ) (before : A → A → Bool) (xs : List A)
    → All P xs
    → All P (order_by before xs)
order_by-All P before [] h = tt
order_by-All P before (x ∷ xs) h =
    insert_by-All P before x (order_by before xs) h.0 (order_by-All P before xs h.1)

insert_by-In {ℓ} :
    {A : Type ℓ} (before : A → A → Bool) (x a : A) (xs : List A)
    → In a (x ∷ xs)
    → In a (insert_by before x xs)
insert_by-In before x a [] m = m
insert_by-In before x a (y ∷ ys) m =
    if-elim (In a) (before y x)
      (λ _. elim (In-cons m) [
        | inl e ↦ there (insert_by-In before x a ys (rw e here))
        | inr later ↦ elim (In-cons later) [
          | inl e ↦ rw e here
          | inr m' ↦ there (insert_by-In before x a ys (there m'))
        ]
      ])
      λ _. m

pub order_by-In {ℓ} :
    {A : Type ℓ} (before : A → A → Bool) (a : A) (xs : List A) → In a xs → In a (order_by before xs)
order_by-In before a [] m = m
order_by-In before a (x ∷ xs) m =
    insert_by-In before x a (order_by before xs)
      (elim (In-cons m) [ inl e ↦ rw e here | inr later ↦ there (order_by-In before a xs later) ])

pub select-All {ℓ κ} :
    {A : Type ℓ} (P : A → Type κ) (test : A → Bool) (xs : List A)
    → All (λ x. test x ≡ true → P x) xs
    → All P (select test xs)
select-All P test [] h = tt
select-All P test (x ∷ xs) h =
    if-elim (All P) (test x) (λ e. (h.0 e, select-All P test xs h.1)) λ _. select-All P test xs h.1
