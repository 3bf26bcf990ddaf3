-- ===== src/Plan/Status/Derived.antt =====
-- The statuses that DeriveStatuses of internal/plan/status.go gives.
use bachkator.Base.{
  String, Bool, true, ◌&&◌, ◌||◌, Option, none, some, List, [], ◌∷◌, ◌==◌, ◌≡◌, ◌≢◌, refl, sym, ap,
  ◌∙◌, subst, eq_iff, ◌⊎◌, if-elim, In, here, there, and_true, Bool-cases, inl, inr, text_ne,
}
use mathlib.Core.Bool.{true≢false}
use mathlib.Core.Logic.{◌↔◌}
use mathlib.Core.List.{cons≢nil}
use mathlib.Core.Option.{some-injective, none-ne-some, some-ne-none}
use bachkator.Plan.Types.{Document, Diagnostic, Ledger}
use bachkator.Plan.Ledgers.{
  ready, planned, blocked, pending, in_progress, implemented, failed, stale, invalid_ledger,
  validate_ledger,
}
use bachkator.Plan.Status.{
  valid_status, judge, dependency_status, ledger_status, without_ledger, status_record,
}

abbrev pub Current : {C : Type 0} → Document → Ledger C → Type 0
Current doc ledger = (ledger.status ≡ implemented) × (ledger.hash ≡ doc.hash)

abbrev Neither : String × List Diagnostic → Type 0
Neither q = (q.0 ≢ implemented) × (q.0 ≢ ready) × (q.0 ≢ blocked)

abbrev unfinished : String → Bool
unfinished s = (s == pending) || (s == in_progress) || (s == failed)

valid_status-cases :
    {C : Type 0} (doc : Document) (ledger : Ledger C)
    → ((valid_status doc ledger).0 ≡ implemented) × Current doc ledger
      ⊎ Neither (valid_status doc ledger)
unfolding valid_status
valid_status-cases doc ledger =
    elim (Bool-cases ((ledger.status == implemented) && (ledger.hash == doc.hash))) [
      | inl e ↦
          let (s, h) = and_true _ _ e in
          inl
            (rw e refl, ((eq_iff ledger.status implemented).0 s, (eq_iff ledger.hash doc.hash).0 h))
      | inr e ↦ inr (
          rw e (
            if-elim Neither (ledger.status == implemented)
              (λ _. (
                text_ne stale implemented refl,
                text_ne stale ready refl,
                text_ne stale blocked refl,
              ))
              λ other.
                if-elim Neither (unfinished ledger.status)
                  (λ k. (
                    text_ne ledger.status implemented other,
                    λ is. true≢false (sym k ∙ ap unfinished is),
                    λ is. true≢false (sym k ∙ ap unfinished is),
                  ))
                  λ _. (
                    text_ne invalid_ledger implemented refl,
                    text_ne invalid_ledger ready refl,
                    text_ne invalid_ledger blocked refl,
                  )))
    ]

judge-cases :
    {C : Type 0} (doc : Document) (ledger : Ledger C) (ds : List Diagnostic)
    → ((judge doc ledger ds).0 ≡ implemented) × (ds ≡ []) × Current doc ledger
      ⊎ Neither (judge doc ledger ds)
unfolding judge
judge-cases doc ledger (d ∷ ds) = inr (
  text_ne invalid_ledger implemented refl,
  text_ne invalid_ledger ready refl,
  text_ne invalid_ledger blocked refl,
)
judge-cases doc ledger [] = elim (valid_status-cases doc ledger) [
  | inl (e, c) ↦ inl (e, refl, c)
  | inr n ↦ inr n
]

judge-Current :
    {C : Type 0} (doc : Document) (ledger : Ledger C) (ds : List Diagnostic)
    → ds ≡ []
    → Current doc ledger
    → (judge doc ledger ds).0 ≡ implemented
unfolding judge valid_status
judge-Current doc ledger (d ∷ ds) e c = absurd (cons≢nil e)
judge-Current doc ledger [] e (s, h) =
    rw (valid_status, (eq_iff ledger.status implemented).1 s, (eq_iff ledger.hash doc.hash).1 h)
      refl

-- The statuses of a dependency that block.
abbrev pub stops : String → Bool
stops s = (s == blocked) || (s == invalid_ledger) || (s == stale)

abbrev pub Stops : String → Type 0
Stops s = stops s ≡ true

-- A document without a ledger is planned or blocked where it has dependencies.
dependency_status-cases :
    (statuses : String → String) (deps : List String)
    → (dependency_status statuses deps ≡ planned)
      ⊎ ((dependency_status statuses deps ≡ blocked)
          × ((d : String) × In d deps × Stops (statuses d)))
unfolding dependency_status
dependency_status-cases statuses [] = inl refl
dependency_status-cases statuses (d ∷ deps) = elim (Bool-cases (stops (statuses d))) [
  | inl e ↦ inr (rw (dependency_status, e) refl, (d, here, e))
  | inr e ↦ elim (dependency_status-cases statuses deps) [
    | inl p ↦ inl (rw (dependency_status, e) p)
    | inr (p, (x, m, k)) ↦ inr (rw (dependency_status, e) p, (x, there m, k))
  ]
]

without_ledger-cases :
    (statuses : String → String) (deps : List String)
    → (deps ≡ []) × (without_ledger statuses deps ≡ ready)
      ⊎ (deps ≢ [])
        × ((without_ledger statuses deps ≡ planned)
            ⊎ ((without_ledger statuses deps ≡ blocked)
                × ((d : String) × In d deps × Stops (statuses d))))
unfolding without_ledger
without_ledger-cases statuses [] = inl (refl, refl)
without_ledger-cases statuses (d ∷ deps) =
    inr (cons≢nil, dependency_status-cases statuses (d ∷ deps))

module _ {C : Type 0} (statuses : String → String) (doc : Document) where
  -- A document has the status implemented just where it has a ledger without diagnostics whose
  -- status is implemented and whose hash is the document's.
  pub status_record-implemented :
      (ledger : Option (Ledger C))
      → ((status_record statuses doc ledger).status ≡ implemented)
        ↔ ((l : Ledger C) × (ledger ≡ some l) × (validate_ledger doc l ≡ []) × Current doc l)
  unfolding status_record ledger_status judge valid_status
  status_record-implemented none = (
    λ e. elim (without_ledger-cases statuses doc.depends_on) [
      | inl (_, is) ↦ absurd (text_ne ready implemented refl (sym is ∙ e))
      | inr (_, inl is) ↦ absurd (text_ne planned implemented refl (sym is ∙ e))
      | inr (_, inr (is, _)) ↦ absurd (text_ne blocked implemented refl (sym is ∙ e))
    ],
    λ (l, e, v, c). absurd (none-ne-some l e),
  )
  status_record-implemented (some l) = (
    λ e. elim (judge-cases doc l (validate_ledger doc l)) [
      | inl (_, v, c) ↦ (l, refl, v, c)
      | inr other ↦ absurd (other.0 e)
    ],
    λ (l', e, v, c).
        let is = some-injective _ _ e in
        judge-Current doc l (validate_ledger doc l) (ap (validate_ledger doc) is ∙ v)
          (subst (Current doc) (sym is) c),
  )

  -- A document has the status ready just where it has neither a ledger nor dependencies.
  pub status_record-ready :
      (ledger : Option (Ledger C))
      → ((status_record statuses doc ledger).status ≡ ready)
        ↔ ((ledger ≡ none) × (doc.depends_on ≡ []))
  unfolding status_record ledger_status
  status_record-ready none = (
    λ e. elim (without_ledger-cases statuses doc.depends_on) [
      | inl (is, _) ↦ (refl, is)
      | inr (_, inl is) ↦ absurd (text_ne planned ready refl (sym is ∙ e))
      | inr (_, inr (is, _)) ↦ absurd (text_ne blocked ready refl (sym is ∙ e))
    ],
    λ (_, is). elim (without_ledger-cases statuses doc.depends_on) [
      | inl (_, r) ↦ r
      | inr (some_, _) ↦ absurd (some_ is)
    ],
  )
  status_record-ready (some l) = (
    λ e. elim (judge-cases doc l (validate_ledger doc l)) [
      | inl (is, _, _) ↦ absurd (text_ne implemented ready refl (sym is ∙ e))
      | inr other ↦ absurd (other.1 e)
    ],
    λ (e, _). absurd (some-ne-none l e),
  )

  pub status_record-blocked :
      (ledger : Option (Ledger C))
      → (status_record statuses doc ledger).status ≡ blocked
      → (d : String) × In d doc.depends_on × Stops (statuses d)
  unfolding status_record ledger_status
  status_record-blocked none e = elim (without_ledger-cases statuses doc.depends_on) [
    | inl (_, is) ↦ absurd (text_ne ready blocked refl (sym is ∙ e))
    | inr (_, inl is) ↦ absurd (text_ne planned blocked refl (sym is ∙ e))
    | inr (_, inr (_, cause)) ↦ cause
  ]
  status_record-blocked (some l) e = elim (judge-cases doc l (validate_ledger doc l)) [
    | inl (is, _, _) ↦ absurd (text_ne implemented blocked refl (sym is ∙ e))
    | inr other ↦ absurd (other.2 e)
  ]
