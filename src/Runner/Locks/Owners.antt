-- ===== src/Runner/Locks/Owners.antt =====
-- Who holds the locks of internal/runner/scheduler.go: a node by its reservation, or a scope.
use bachkator.Base.{
  String, Bool, true, false, none, some, List, [], ◌∷◌, ◌==◌, ◌≡◌, ◌≢◌, sym, ap, ◌∙◌, subst, arith,
  eq_iff, eq_refl, if◌then◌else◌, if-elim, text_ne, inl, inr, ◌⊎◌,
}
use mathlib.Core.Bool.{true≢false}
use bachkator.Runner.Nodes.{ExecutionGraph}
use bachkator.Runner.Locks.{Session, is_in, without, release_lock}

pub data Owner : Type 0 where
  node scope : String → Owner

abbrev name_of : Owner → String
name_of (node x) = x
name_of (scope x) = x

abbrev is_scope : Owner → Bool
is_scope (node x) = false
is_scope (scope x) = true

pub node-ne : (x y : String) → (x == y) ≡ false → node y ≢ node x
node-ne x y h e = text_ne x y h (sym (ap name_of e))

pub scope-ne : (x y : String) → (x == y) ≡ false → scope y ≢ scope x
scope-ne x y h e = text_ne x y h (sym (ap name_of e))

pub scope-ne-node : (x y : String) → scope x ≢ node y
scope-ne-node x y e = true≢false (ap is_scope e)

-- The lock of a target of the plan.
abbrev pub plan_lock : ExecutionGraph → String → String
plan_lock g name = elim (g.plan name) [ some t ↦ t.lock | none ↦ "" ]

-- The lock that a node has reserved, or that an active scope has; empty for none.
abbrev pub owned : ExecutionGraph → Session → Owner → String
owned g s (node name) = s.reserved_lock name
owned g s (scope name) = if is_in name s.active then plan_lock g name else ""

-- What is owned is held, and has one owner.
pub record IsExclusive (held : List String) (own : Owner → String) : Type 0 where
  pub holds_it : (x : Owner) → own x ≢ "" → is_in (own x) held ≡ true
  pub alone : (x y : Owner) → own x ≡ own y → own x ≢ "" → x ≡ y

-- One owner owns another lock than before.
abbrev pub Updated : Owner → String → (Owner → String) → (Owner → String) → Type 0
Updated o lock own own' = (x : Owner) → (x ≡ o) × (own' x ≡ lock) ⊎ (x ≢ o) × (own' x ≡ own x)

is_in-removed :
    (x y : String) (xs : List String) → x ≢ y → is_in x xs ≡ true → is_in x (without y xs) ≡ true
is_in-removed x y [] ne h = h
is_in-removed x y (z ∷ xs) ne h =
    ground (arith, ne, is_in-removed x y xs ne, eq_iff z x, eq_iff z y, eq_iff x y, h)

module _ (held : List String) (own own' : Owner → String) (o : Owner)
    (exclusive : IsExclusive held own) where
  pub acquire-IsExclusive :
      (lock : String)
      → is_in lock held ≡ false
      → Updated o lock own own'
      → IsExclusive (lock ∷ held) own'
  acquire-IsExclusive lock free update = record {
    holds_it = λ x n. elim (update x) [
      | inl (_, e) ↦ rw e (ground (arith, eq_refl lock))
      | inr (_, e) ↦
          let h = exclusive.holds_it x (λ k. n (e ∙ k)) in
          subst (λ z. is_in z (lock ∷ held) ≡ true) (sym e) (ground (arith, h))
    ];
    alone = λ x y same n. elim (update x) [
      | inl (is, e) ↦ elim (update y) [
        | inl (is', _) ↦ is ∙ sym is'
        | inr (_, e') ↦
            let k : own y ≡ lock = sym e' ∙ sym same ∙ e in
            absurd (
              true≢false (
                sym (exclusive.holds_it y (λ z. n (same ∙ e' ∙ z)))
                ∙ ap (λ z. is_in z held) k
                ∙ free))
      ]
      | inr (_, e) ↦ elim (update y) [
        | inl (_, e') ↦
            let k : own x ≡ lock = sym e ∙ same ∙ e' in
            absurd (
              true≢false
                (sym (exclusive.holds_it x (λ z. n (e ∙ z))) ∙ ap (λ z. is_in z held) k ∙ free))
        | inr (_, e') ↦ exclusive.alone x y (sym e ∙ same ∙ e') (λ z. n (e ∙ z))
      ]
    ];
  }

  pub release-IsExclusive : Updated o "" own own' → IsExclusive (release_lock (own o) held) own'
  unfolding release_lock
  release-IsExclusive update = record {
    holds_it = λ x n. elim (update x) [
      | inl (_, e) ↦ absurd (n e)
      | inr (ne, e) ↦
          let owned_ : own x ≢ "" = λ z. n (e ∙ z) in
          let h = exclusive.holds_it x owned_ in
          let other : own x ≢ own o = λ z. ne (exclusive.alone x o z owned_) in
          if-elim (λ l. is_in (own' x) l ≡ true) (own o == "") (λ _. rw e h)
            λ _. rw e (is_in-removed (own x) (own o) held other h)
    ];
    alone = λ x y same n. elim (update x) [
      | inl (_, e) ↦ absurd (n e)
      | inr (_, e) ↦ elim (update y) [
        | inl (_, e') ↦ absurd (n (same ∙ e'))
        | inr (_, e') ↦ exclusive.alone x y (sym e ∙ same ∙ e') (λ z. n (e ∙ z))
      ]
    ];
  }

  -- The lock of one owner passes to another that owns none.
  pub transfer-IsExclusive :
      (o' : Owner)
      → ((x : Owner) → (x ≡ o') × (own' x ≡ own o) ⊎ (own' x ≡ "") ⊎ (x ≢ o) × (own' x ≡ own x))
      → IsExclusive held own'
  transfer-IsExclusive o' change = record {
    holds_it = λ x n. elim (change x) [
      | inl (_, e) ↦ rw e (exclusive.holds_it o (λ z. n (e ∙ z)))
      | inr (inl e) ↦ absurd (n e)
      | inr (inr (_, e)) ↦ rw e (exclusive.holds_it x (λ z. n (e ∙ z)))
    ];
    alone = λ x y same n. elim (change x) [
      | inl (is, e) ↦ elim (change y) [
        | inl (is', _) ↦ is ∙ sym is'
        | inr (inl e') ↦ absurd (n (same ∙ e'))
        | inr (inr (ne, e')) ↦
            absurd (ne (exclusive.alone y o (sym e' ∙ sym same ∙ e) (λ z. n (same ∙ e' ∙ z))))
      ]
      | inr (inl e) ↦ absurd (n e)
      | inr (inr (ne, e)) ↦ elim (change y) [
        | inl (is', e') ↦ absurd (ne (exclusive.alone x o (sym e ∙ same ∙ e') (λ z. n (e ∙ z))))
        | inr (inl e') ↦ absurd (n (same ∙ e'))
        | inr (inr (_, e')) ↦ exclusive.alone x y (sym e ∙ same ∙ e') (λ z. n (e ∙ z))
      ]
    ];
  }
