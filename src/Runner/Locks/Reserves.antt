-- ===== src/Runner/Locks/Reserves.antt =====
-- What tryReserveExecutionNode of internal/runner/session.go does.
use bachkator.Base.{
  String, true, false, ◌||◌, Option, none, some, List, [], ◌∷◌, ◌==◌, ◌≡◌, refl, sym, ap, ◌∙◌,
  arith, eq_iff, if-elim, All, Bool-cases, Option-cases, inl, inr, ◌⊎◌,
}
use mathlib.Core.Bool.{true≢false}
use mathlib.Core.Option.{some-injective, none-ne-some, some-ne-none}
use bachkator.Runner.Nodes.{
  Target, ExecutionGraph, ExecutionScope, is_barrier, scope_start_target, scope_end_target,
}
use bachkator.Runner.Locks.{
  Session, is_in, set_reserved, is_some, has_lock, lock_held_by_active_scope, try_acquire,
  note_reservation, try_reserve_lock, reserve_for, try_reserve_execution_node,
}
use bachkator.Runner.Locks.Owners.{node, scope, owned, Updated, node-ne, scope-ne-node}

-- The target of a scope is that of the plan, and no scope has the lock of a scope around it.
pub record IsPlanned (g : ExecutionGraph) : Type 0 where
  pub starts :
      (name : String) (t : Target) → scope_start_target g name ≡ some t → g.plan t.name ≡ some t
  pub scope_ends :
      (name : String) (t : Target) → scope_end_target g name ≡ some t → g.plan t.name ≡ some t
  pub apart :
      (name : String) (t : Target)
      → scope_start_target g name ≡ some t
      → All (λ (s : ExecutionScope). has_lock g t.lock s.name ≡ false) (g.members name)

-- What reserving a lock does: nothing, or it acquires the lock, which is free.
abbrev pub Acquired : String → String → Session → Session → Type 0
Acquired name lock s s' =
    (is_in lock s.held ≡ false)
    × (s'
        ≡ record s { held = lock ∷ s.held; reserved_lock = set_reserved name lock s.reserved_lock })

abbrev Answer :
    ExecutionGraph → Session → String → String → List ExecutionScope → Option Session → Type 0
Answer g s name lock scopes o =
    (s' : Session)
    → o ≡ some s'
    → (s ≡ s') × ((lock ≡ "") ⊎ (lock_held_by_active_scope g s lock scopes ≡ true))
      ⊎ Acquired name lock s s'

try_reserve_lock-cases :
    (g : ExecutionGraph) (s : Session) (name lock : String) (scopes : List ExecutionScope)
    → Answer g s name lock scopes (try_reserve_lock g s name lock scopes)
unfolding try_reserve_lock try_acquire note_reservation
try_reserve_lock-cases g s name lock scopes =
    if-elim (Answer g s name lock scopes)
      ((lock == "") || lock_held_by_active_scope g s lock scopes)
      (λ k s' e. inl (
        some-injective _ _ e,
        elim (Bool-cases (lock == "")) [
          | inl is ↦ inl ((eq_iff lock "").0 is)
          | inr ne ↦ inr (ground (arith, k, ne))
        ],
      ))
      λ _.
        if-elim (λ o. Answer g s name lock scopes (note_reservation s name lock o))
          (is_in lock s.held) (λ h s' e. absurd (none-ne-some s' e))
          λ h s' e. inr (h, sym (some-injective _ _ e))

pub Updated-set :
    (g : ExecutionGraph) (s : Session) (name lock : String) (held : List String)
    → Updated
        (node name)
        lock
        (owned g s)
        (owned g (record s { held = held; reserved_lock = set_reserved name lock s.reserved_lock }))
Updated-set g s name lock held (node x) = elim (Bool-cases (name == x)) [
  | inl is ↦ inl (ap node (sym ((eq_iff name x).0 is)), rw is refl)
  | inr ne ↦ inr (node-ne name x ne, rw ne refl)
]
Updated-set g s name lock held (scope x) = inr (scope-ne-node x name, refl)

-- The lock of a scope that starts is not that of a scope around it.
not-around :
    (g : ExecutionGraph) (s : Session) (lock : String) (scopes : List ExecutionScope)
    → All (λ (x : ExecutionScope). has_lock g lock x.name ≡ false) scopes
    → lock_held_by_active_scope g s lock scopes ≡ false
unfolding lock_held_by_active_scope
not-around g s lock [] h = refl
not-around g s lock (x ∷ scopes) h = ground (arith, h.0, not-around g s lock scopes h.1)

-- What a reservation does for a node: nothing, where a scope that starts has no lock, or it
-- acquires a lock, for a target or for the scope that starts.
abbrev pub Unchanged : ExecutionGraph → String → Session → Session → Type 0
Unchanged g name s s' = (s ≡ s') × ((t : Target) → scope_start_target g name ≡ some t → t.lock ≡ "")

abbrev pub Gained : ExecutionGraph → String → Session → Session → Type 0
Gained g name s s' =
    (lock : String) × Acquired name lock s s'
    × ((t : Target) → scope_start_target g name ≡ some t → lock ≡ t.lock)
    × (scope_start_target g name ≡ none
        → (is_some (scope_end_target g name) || is_barrier g name) ≡ false)

module _ (g : ExecutionGraph) (planned : IsPlanned g) (s : Session) (name : String) where
  for-scope :
      (t : Target)
      → scope_start_target g name ≡ some t
      → (s' : Session) → reserve_for g s name (some t) ≡ some s'
      → Unchanged g name s s' ⊎ Gained g name s s'
  unfolding reserve_for
  for-scope t is s' e = elim (try_reserve_lock-cases g s name t.lock (g.members name) s' e) [
    | inl (same, why) ↦ inl (
      same,
      λ u k. ap (λ (z : Target). z.lock) (some-injective _ _ (sym k ∙ is)) ∙ elim why [
        | inl empty ↦ empty
        | inr around ↦ absurd (
            true≢false
              (sym around ∙ not-around g s t.lock (g.members name) (planned.apart name t is)))
      ],
    )
    | inr got ↦ inr (
      t.lock,
      got,
      λ u k. ap (λ (z : Target). z.lock) (some-injective _ _ (sym is ∙ k)),
      λ k. absurd (some-ne-none t (sym is ∙ k)),
    )
  ]

  for-target :
      scope_start_target g name ≡ none
      → (is_some (scope_end_target g name) || is_barrier g name) ≡ false
      → (o : Option Target) (s' : Session) → reserve_for g s name o ≡ some s'
      → Unchanged g name s s' ⊎ Gained g name s s'
  unfolding reserve_for
  for-target is plain none s' e =
      inl (some-injective _ _ e, λ t k. absurd (none-ne-some t (sym is ∙ k)))
  for-target is plain (some t) s' e =
      elim (try_reserve_lock-cases g s name t.lock (g.members name) s' e) [
        | inl (same, _) ↦ inl (same, λ u k. absurd (none-ne-some u (sym is ∙ k)))
        | inr got ↦ inr (t.lock, got, λ u k. absurd (none-ne-some u (sym is ∙ k)), λ _. plain)
      ]

  pub reserve-cases :
      (s' : Session)
      → try_reserve_execution_node g s name ≡ some s'
      → Unchanged g name s s' ⊎ Gained g name s s'
  unfolding try_reserve_execution_node
  reserve-cases s' e = elim (Option-cases (scope_start_target g name)) [
    | inr (t, is) ↦ for-scope t is s' (sym (rw (try_reserve_execution_node, is) refl) ∙ e)
    | inl is ↦ elim (Bool-cases (is_some (scope_end_target g name) || is_barrier g name)) [
      | inl k ↦ inl (
        some-injective _ _ (sym (rw (try_reserve_execution_node, is, k) refl) ∙ e),
        λ t k'. absurd (none-ne-some t (sym is ∙ k')),
      )
      | inr k ↦
          for-target is k (g.targets name) s'
            (sym (rw (try_reserve_execution_node, is, k) refl) ∙ e)
    ]
  ]
