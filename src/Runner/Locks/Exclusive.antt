-- ===== src/Runner/Locks/Exclusive.antt =====
-- The locks of a run of internal/runner: one owner for each.
use bachkator.Base.{
  String, true, false, ◌&&◌, ◌||◌, not, none, some, List, [], ◌∷◌, ◌==◌, ◌≡◌, ◌≢◌, refl, sym, ap,
  ◌∙◌, subst, arith, eq_iff, eq_refl, if◌then◌else◌, Bool-cases, inl, inr, ◌⊎◌,
}
use mathlib.Core.Bool.{true≢false}
use bachkator.Runner.Nodes.{
  Target, ExecutionGraph, is_barrier, scope_start_target, scope_end_target,
}
use bachkator.Runner.Locks.{
  Session, is_in, without, set_reserved, release_lock, is_some, try_reserve_execution_node,
  release_execution_node, forget_reservation, start_scope, finish_scope, new_session,
}
use bachkator.Runner.Locks.Owners.{
  Owner, node, scope, plan_lock, owned, IsExclusive, Updated, node-ne, scope-ne, scope-ne-node,
  acquire-IsExclusive, release-IsExclusive, transfer-IsExclusive,
}
use bachkator.Runner.Locks.Reserves.{IsPlanned, Updated-set, reserve-cases}
use bachkator.Runner.Locks.Steps.{
  Run, set_running, after_end, NodeStep, reserve, start_fails, scope_starts, pass_barrier,
  end_scope, end_target, NodeRuns, at_start, then_,
}

abbrev pub Distinct : ExecutionGraph → Run → Type 0
Distinct g r = IsExclusive r.session.held (owned g r.session)

pub record IsConsistent (g : ExecutionGraph) (r : Run) : Type 0 where
  pub exclusive : Distinct g r
  pub only_running : (name : String) → r.running name ≡ false → r.session.reserved_lock name ≡ ""
  pub scope_locks :
      (name : String) (t : Target)
      → r.running name ≡ true
      → scope_start_target g name ≡ some t
      → r.session.reserved_lock name ≡ t.lock
  pub no_locks :
      (name : String)
      → scope_start_target g name ≡ none
      → (is_some (scope_end_target g name) || is_barrier g name) ≡ true
      → r.session.reserved_lock name ≡ ""

is_in-without :
    (x y : String) (xs : List String) → is_in x (without y xs) ≡ (is_in x xs && not (y == x))
is_in-without x y [] = refl
is_in-without x y (z ∷ xs) =
    ground (arith, is_in-without x y xs, eq_iff z x, eq_iff z y, eq_iff y x)

Updated-without :
    (g : ExecutionGraph) (s : Session) (name : String) (held : List String)
    → Updated
        (scope name)
        ""
        (owned g s)
        (owned g (record s { active = without name s.active; held = held }))
Updated-without g s name held (node x) = inr (λ e. scope-ne-node name x (sym e), refl)
Updated-without g s name held (scope x) = elim (Bool-cases (name == x)) [
  | inl is ↦
      inl
        (ap scope (sym ((eq_iff name x).0 is)), ap (λ b. if b then plan_lock g x else "") (gone is))
  | inr ne ↦ inr (scope-ne name x ne, ap (λ b. if b then plan_lock g x else "") (stays ne))
]
  where
    gone : (name == x) ≡ true → is_in x (without name s.active) ≡ false
    gone e = ground (arith, is_in-without x name s.active, e)

    stays : (name == x) ≡ false → is_in x (without name s.active) ≡ is_in x s.active
    stays e = ground (arith, is_in-without x name s.active, e)

plan_lock-eq :
    (g : ExecutionGraph) (t : Target) → g.plan t.name ≡ some t → plan_lock g t.name ≡ t.lock
plan_lock-eq g t e = rw (plan_lock, e) refl

-- After a node after_end without a reservation, and the others keep theirs.
after_end-IsConsistent :
    (g : ExecutionGraph) (r : Run) (name : String) (s : Session)
    → IsConsistent g r
    → IsExclusive s.held (owned g s)
    → s.reserved_lock name ≡ ""
    → ((x : String) → (name == x) ≡ false → s.reserved_lock x ≡ r.session.reserved_lock x)
    → IsConsistent g (after_end name s r)
after_end-IsConsistent g r name s ok exclusive gone rest = record {
  exclusive = exclusive;
  only_running = λ x e. elim (Bool-cases (name == x)) [
    | inl is ↦ ap s.reserved_lock (sym ((eq_iff name x).0 is)) ∙ gone
    | inr ne ↦ rest x ne ∙ ok.only_running x (rw ne at e)
  ];
  scope_locks = λ x t e k. elim (Bool-cases (name == x)) [
    | inl is ↦ absurd (true≢false (sym (rw is at e)))
    | inr ne ↦ rest x ne ∙ ok.scope_locks x t (rw ne at e) k
  ];
  no_locks = λ x e k. elim (Bool-cases (name == x)) [
    | inl is ↦ ap s.reserved_lock (sym ((eq_iff name x).0 is)) ∙ gone
    | inr ne ↦ rest x ne ∙ ok.no_locks x e k
  ];
}

-- After a node starts with a reservation that fits it, and the others keep theirs.
starts-IsConsistent :
    (g : ExecutionGraph) (r : Run) (name : String) (s : Session)
    → IsConsistent g r
    → IsExclusive s.held (owned g s)
    → ((x : String) → (name == x) ≡ false → s.reserved_lock x ≡ r.session.reserved_lock x)
    → ((t : Target) → scope_start_target g name ≡ some t → s.reserved_lock name ≡ t.lock)
    → (scope_start_target g name ≡ none
        → (is_some (scope_end_target g name) || is_barrier g name) ≡ true
        → s.reserved_lock name ≡ "")
    → IsConsistent g (record { session = s; running = set_running name true r.running })
starts-IsConsistent g r name s ok exclusive rest locks none_ = record {
  exclusive = exclusive;
  only_running = λ x e. elim (Bool-cases (name == x)) [
    | inl is ↦ absurd (true≢false (rw is at e))
    | inr ne ↦ rest x ne ∙ ok.only_running x (rw ne at e)
  ];
  scope_locks = λ x t e k. elim (Bool-cases (name == x)) [
    | inl is ↦
        let same = (eq_iff name x).0 is in
        ap s.reserved_lock (sym same) ∙ locks t (ap (scope_start_target g) same ∙ k)
    | inr ne ↦ rest x ne ∙ ok.scope_locks x t (rw ne at e) k
  ];
  no_locks = λ x e k. elim (Bool-cases (name == x)) [
    | inl is ↦
        let same = (eq_iff name x).0 is in
        ap s.reserved_lock (sym same)
        ∙ none_ (ap (scope_start_target g) same ∙ e)
            (ap (λ y. is_some (scope_end_target g y) || is_barrier g y) same ∙ k)
    | inr ne ↦ rest x ne ∙ ok.no_locks x e k
  ];
}

module _ (g : ExecutionGraph) (planned : IsPlanned g) (r : Run) (ok : IsConsistent g r)
    (name : String) where
  released : IsConsistent g (after_end name (release_execution_node name r.session) r)
  unfolding release_execution_node
  released =
      let s = r.session in
      after_end-IsConsistent g r name (release_execution_node name s) ok
        (release-IsExclusive s.held (owned g s) _ (node name) ok.exclusive
          (Updated-set g s name "" (release_lock (s.reserved_lock name) s.held)))
        (rw (eq_refl name) refl) λ x ne. rw ne refl

  moved :
      (t : Target)
      → r.session.reserved_lock name ≡ t.lock
      → g.plan t.name ≡ some t
      → let s = r.session in
        let own' = owned g (record s {
          active = t.name ∷ s.active;
          reserved_lock = set_reserved name "" s.reserved_lock;
        }) in
        (x : Owner)
        → (x ≡ scope t.name) × (own' x ≡ s.reserved_lock name)
          ⊎ (own' x ≡ "")
          ⊎ (x ≢ node name) × (own' x ≡ owned g s x)
  moved t own plan (node x) = elim (Bool-cases (name == x)) [
    | inl is ↦ inr (inl (rw is refl))
    | inr ne ↦ inr (inr (node-ne name x ne, rw ne refl))
  ]
  moved t own plan (scope x) = elim (Bool-cases (t.name == x)) [
    | inl is ↦
        let same = (eq_iff t.name x).0 is in
        inl (
          ap scope (sym same),
          rw is (ap (plan_lock g) (sym same) ∙ plan_lock-eq g t plan ∙ sym own),
        )
    | inr ne ↦ inr (inr (scope-ne-node x name, rw ne refl))
  ]

  started :
      (t : Target)
      → r.running name ≡ true
      → scope_start_target g name ≡ some t
      → is_in t.name r.session.active ≡ false
      → IsConsistent g (after_end name (forget_reservation name (start_scope t r.session)) r)
  unfolding forget_reservation start_scope
  started t run is out =
      let s = r.session in
      let s' : Session = record s {
        active = t.name ∷ s.active;
        reserved_lock = set_reserved name "" s.reserved_lock;
      } in
      let is_new : forget_reservation name (start_scope t s) ≡ s' = rw (start_scope, out) refl in
      let own : s.reserved_lock name ≡ t.lock = ok.scope_locks name t run is in
      subst (λ z. IsConsistent g (after_end name z r)) (sym is_new)
        (after_end-IsConsistent g r name s' ok
          (transfer-IsExclusive s.held (owned g s) (owned g s') (node name) ok.exclusive
            (scope t.name) (moved t own (planned.starts name t is)))
          (rw (eq_refl name) refl) λ x ne. rw ne refl)

  finished :
      (t : Target)
      → scope_start_target g name ≡ none
      → scope_end_target g name ≡ some t
      → is_in t.name r.session.active ≡ true
      → IsConsistent g (after_end name (finish_scope t r.session) r)
  unfolding finish_scope
  finished t no_start is active =
      let s = r.session in
      let lock : owned g s (scope t.name) ≡ t.lock =
        ap (λ b. if b then plan_lock g t.name else "") active
        ∙ plan_lock-eq g t (planned.scope_ends name t is) in
      after_end-IsConsistent g r name (finish_scope t s) ok
        (subst (λ l. IsExclusive (release_lock l s.held) (owned g (finish_scope t s))) lock
          (release-IsExclusive s.held (owned g s) _ (scope t.name) ok.exclusive
            (Updated-without g s t.name (release_lock t.lock s.held))))
        (ok.no_locks name no_start (rw is refl)) λ x ne. refl

  reserved :
      (s' : Session)
      → r.running name ≡ false
      → try_reserve_execution_node g r.session name ≡ some s'
      → IsConsistent g (record { session = s'; running = set_running name true r.running })
  reserved s' idle_ e = elim (reserve-cases g planned r.session name s' e) [
    | inl (same, no_lock) ↦
        subst
          (λ z. IsConsistent g (record { session = z; running = set_running name true r.running }))
          same
          (starts-IsConsistent g r name r.session ok ok.exclusive (λ x ne. refl)
            (λ t k. ok.only_running name idle_ ∙ sym (no_lock t k))
            λ k b. ok.only_running name idle_)
    | inr (lock, (free, is), for_scope, plain) ↦
        subst
          (λ z. IsConsistent g (record { session = z; running = set_running name true r.running }))
          (sym is)
          (starts-IsConsistent g r name _ ok
            (acquire-IsExclusive r.session.held (owned g r.session) _ (node name) ok.exclusive lock
              free (Updated-set g r.session name lock (lock ∷ r.session.held)))
            (λ x ne. rw ne refl) (λ t k. rw (eq_refl name) (for_scope t k))
            λ k b. absurd (true≢false (sym b ∙ plain k)))
  ]

nothing-owned : (g : ExecutionGraph) (x : Owner) → owned g new_session x ≡ ""
nothing-owned g (node x) = refl
nothing-owned g (scope x) = refl

NodeStep-IsConsistent :
    (g : ExecutionGraph)
    → IsPlanned g
    → {r r' : Run} → NodeStep g r r'
    → IsConsistent g r
    → IsConsistent g r'
NodeStep-IsConsistent g planned {r} (reserve name {s} off e) ok =
    reserved g planned r ok name s off e
NodeStep-IsConsistent g planned {r} (start_fails name run is) ok = released g planned r ok name
NodeStep-IsConsistent g planned {r} (scope_starts name {t} run is out) ok =
    started g planned r ok name t run is out
NodeStep-IsConsistent g planned {r} (pass_barrier name run is b) ok =
    after_end-IsConsistent g r name r.session ok ok.exclusive
      (ok.no_locks name is (ground (arith, b))) λ x ne. refl
NodeStep-IsConsistent g planned {r} (end_scope name {t} run is k active) ok =
    finished g planned r ok name t is k active
NodeStep-IsConsistent g planned {r} (end_target name run is b k) ok = released g planned r ok name

NodeRuns-IsConsistent :
    (g : ExecutionGraph) → IsPlanned g → {r : Run} → NodeRuns g r → IsConsistent g r
NodeRuns-IsConsistent g planned at_start = record {
  exclusive = record {
    holds_it = λ x n. absurd (n (nothing-owned g x));
    alone = λ x y e n. absurd (n (nothing-owned g x));
  };
  only_running = λ x e. refl;
  scope_locks = λ x t e k. absurd (true≢false (sym e));
  no_locks = λ x e k. refl;
}
NodeRuns-IsConsistent g planned (then_ runs step) =
    NodeStep-IsConsistent g planned step (NodeRuns-IsConsistent g planned runs)

-- At every point of a run whose graph has no scope inside a scope with the same lock: a lock has
-- one owner at most, a running node that has reserved it or an active scope.
pub NodeRuns-alone :
    (g : ExecutionGraph) (r : Run)
    → IsPlanned g
    → NodeRuns g r
    → (x y : Owner) → owned g r.session x ≡ owned g r.session y
    → owned g r.session x ≢ ""
    → x ≡ y
NodeRuns-alone g r planned runs = (NodeRuns-IsConsistent g planned runs).exclusive.alone
