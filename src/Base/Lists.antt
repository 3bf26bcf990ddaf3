-- ===== src/Base/Lists.antt =====
-- Lists measured by native numbers, and predicates on lists by recursion.
use Prim.Native.Nat.{ℕ, suc, ◌+◌}
use mathlib.Core.Path.{◌≡◌, refl}
use mathlib.Core.List.{List, [], ◌∷◌, ◌++◌}
use mathlib.Core.Logic.{◌⊎◌, inl, inr}
use native.Mathlib.Omega.{arith}

module _ {ℓ} {A : Type ℓ} where
  abbrev pub length : List A → ℕ
  length [] = 0
  length (x ∷ xs) = suc (length xs)

  abbrev pub All {κ} : (A → Type κ) → List A → Type κ
  All P [] = Unit
  All P (x ∷ xs) = P x × All P xs

  -- The relation holds of each element and each later one.
  abbrev pub Each {κ} : (A → A → Type κ) → List A → Type κ
  Each R [] = Unit
  Each R (x ∷ xs) = All (R x) xs × Each R xs

  -- Membership with its place kept.
  pub data In (a : A) : List A → Type ℓ where
    here : {xs : List A} → In a (a ∷ xs)
    there : {x : A} {xs : List A} → In a xs → In a (x ∷ xs)

  pub In-cons : {a x : A} {xs : List A} → In a (x ∷ xs) → (a ≡ x) ⊎ In a xs
  In-cons here = inl refl
  In-cons (there m) = inr m

  pub In-append_right : {a : A} (xs ys : List A) → In a ys → In a (xs ++ ys)
  In-append_right [] ys m = m
  In-append_right (x ∷ xs) ys m = there (In-append_right xs ys m)

  pub In-append_left : {a : A} (xs ys : List A) → In a xs → In a (xs ++ ys)
  In-append_left [] ys m = elim m [ ]
  In-append_left (x ∷ xs) ys here = here
  In-append_left (x ∷ xs) ys (there m) = there (In-append_left xs ys m)

  pub length-append : (xs ys : List A) → length (xs ++ ys) ≡ length xs + length ys
  length-append [] ys = omega arith
  length-append (x ∷ xs) ys = omega (arith, length-append xs ys)

module _ {ℓ κ} {A : Type ℓ} (P : A → Type κ) where
  pub All-In : {a : A} (xs : List A) → All P xs → In a xs → P a
  All-In [] h m = elim m [ ]
  All-In (x ∷ xs) h here = h.0
  All-In (x ∷ xs) h (there m) = All-In xs h.1 m

  pub All-intro : (xs : List A) → ((a : A) → In a xs → P a) → All P xs
  All-intro [] h = tt
  All-intro (x ∷ xs) h = (h x here, All-intro xs (λ a m. h a (there m)))

  pub All-append : (xs ys : List A) → All P xs → All P ys → All P (xs ++ ys)
  All-append [] ys h k = k
  All-append (x ∷ xs) ys h k = (h.0, All-append xs ys h.1 k)

  pub All-weaken {μ} : (Q : A → Type μ) (xs : List A) → ((a : A) → P a → Q a) → All P xs → All Q xs
  All-weaken Q [] keep h = tt
  All-weaken Q (x ∷ xs) keep h = (keep x h.0, All-weaken Q xs keep h.1)

module _ {ℓ κ} {A : Type ℓ} (R : A → A → Type κ) where
  pub Each-append_one :
      (xs : List A) (y : A) → Each R xs → All (λ x. R x y) xs → Each R (xs ++ y ∷ [])
  Each-append_one [] y h k = (tt, tt)
  Each-append_one (x ∷ xs) y h k =
      (All-append (R x) xs (y ∷ []) h.0 (k.0, tt), Each-append_one xs y h.1 k.1)

  -- The relation with what holds of each element.
  pub Each-with :
      (P : A → Type κ) (xs : List A) → All P xs → Each R xs → Each (λ x y. P x × P y × R x y) xs
  Each-with P [] p h = tt
  Each-with P (x ∷ xs) p h = (both xs p.1 h.0, Each-with P xs p.1 h.1)
    where
      both : (ys : List A) → All P ys → All (R x) ys → All (λ y. P x × P y × R x y) ys
      both [] q r = tt
      both (y ∷ ys) q r = ((p.0, q.0, r.0), both ys q.1 r.1)
