-- ===== src/Implement/Guards.antt =====
-- What Implement of internal/planexecute/execute.go requires before it records a ledger.
use bachkator.Base.{
  String, true, false, ◌&&◌, not, Option, none, some, List, [], ◌∷◌, ◌++◌, ◌==◌, ◌≡◌, ◌≢◌, refl, ap,
  ◌∙◌, arith, eq_iff, if-elim, Bool-cases, Result-cases, inl, inr, ◌⊎◌, All, Result, ok, err,
  >>=-eq-ok, ok-injective,
}
use mathlib.Core.Bool.{true≢false}
use bachkator.Plan.Types.{Selection, Document, Diagnostic, Ledger, StatusRecord, diag}
use bachkator.Plan.Ledgers.{implemented}
use bachkator.Implement.Types.{ExecOptions, ImplementResult, Service, Ended, MaterializeError}
use bachkator.Implement.Checks.{
  has_error_diagnostics, dependency_diagnostics, external_diagnostics, all_diagnostics,
  filter_external, materialize_project,
}
use bachkator.Implement.{
  execute, with_project, with_template, checked, with_diagnostics, with_records, implement,
  first_result,
}

pub has_error-append :
    (ds es : List Diagnostic)
    → has_error_diagnostics (ds ++ es) ≡ false
    → (has_error_diagnostics ds ≡ false) × (has_error_diagnostics es ≡ false)
unfolding has_error_diagnostics
has_error-append [] es h = (refl, h)
has_error-append (d ∷ ds) es h = elim (Bool-cases (d.severity == "error")) [
  | inl k ↦ absurd (true≢false (rw k at h))
  | inr k ↦ let (a, b) = has_error-append ds es (rw k at h) in (rw k a, b)
]

module _ {State Content : Type 0} (s : Service State Content) (opts : ExecOptions) where
  -- The backend has a ledger of the plan with the status implemented.
  abbrev pub IsDone : State → String → Type 0
  IsDone st dep =
      (l : Ledger Content) × (s.get_ledger dep st ≡ ok (some l)) × (l.status ≡ implemented)

  -- The end of an execution that has recorded a ledger.
  abbrev pub Recorded : Ended State → Type 0
  Recorded e = e.result.written ≢ []

  -- A dependency without an error diagnostic is done.
  dependency_diagnostics-IsDone :
      (st : State) (doc : Document) (dep : String) (found : Option (Ledger Content))
      → s.get_ledger dep st ≡ ok found
      → has_error_diagnostics (dependency_diagnostics doc dep found) ≡ false
      → IsDone st dep
  unfolding dependency_diagnostics has_error_diagnostics diag
  dependency_diagnostics-IsDone st doc dep none e h = absurd (true≢false h)
  dependency_diagnostics-IsDone st doc dep (some l) e h =
      elim (Bool-cases (l.status == implemented)) [
        | inl k ↦ (l, e, (eq_iff l.status implemented).0 k)
        | inr k ↦ absurd (true≢false (rw k at h))
      ]

  external_diagnostics-IsDone :
      (st : State) (doc : Document) (deps : List String) (ds : List Diagnostic)
      → external_diagnostics s doc deps st ≡ ok ds
      → has_error_diagnostics ds ≡ false
      → All (IsDone st) deps
  unfolding external_diagnostics
  external_diagnostics-IsDone st doc [] ds e h = tt
  external_diagnostics-IsDone st doc (dep ∷ deps) ds e h =
      let (found, got, rest) = >>=-eq-ok (s.get_ledger dep st) _ e in
      let (more, next, is) = >>=-eq-ok (external_diagnostics s doc deps st) _ rest in
      let (a, b) =
        has_error-append (dependency_diagnostics doc dep found) more
          (ap has_error_diagnostics (ok-injective is) ∙ h) in
      (
        dependency_diagnostics-IsDone st doc dep found got a,
        external_diagnostics-IsDone st doc deps more next b,
      )

  all_diagnostics-IsDone :
      (st : State) (doc : Document) (deps : List String) (ds all : List Diagnostic)
      → all_diagnostics s doc deps ds st ≡ ok all
      → has_error_diagnostics all ≡ false
      → All (IsDone st) deps
  unfolding all_diagnostics
  all_diagnostics-IsDone st doc [] ds all e h = tt
  all_diagnostics-IsDone st doc (dep ∷ deps) ds all e h =
      let (more, next, is) = >>=-eq-ok (external_diagnostics s doc (dep ∷ deps) st) _ e in
      let (_, b) =
        has_error-append (filter_external ds doc) more
          (ap has_error_diagnostics (ok-injective is) ∙ h) in
      external_diagnostics-IsDone st doc (dep ∷ deps) more next b

  execute-wet :
      (doc : Document) (target template : String) (r : ImplementResult) (st : State)
      → r.written ≡ []
      → Recorded (execute s opts doc target template r st)
      → opts.dry_run ≡ false
  unfolding execute
  execute-wet doc target template r st none_ n = elim (Bool-cases opts.dry_run) [
    | inr k ↦ k
    | inl k ↦ absurd ((rw (execute, k) at n) none_)
  ]

  with_project-wet :
      (doc : Document) (r : ImplementResult) (st : State)
      (made : Result MaterializeError (String × String))
      → r.written ≡ []
      → Recorded (with_project s opts doc r st made)
      → opts.dry_run ≡ false
  unfolding with_project
  with_project-wet doc r st (err e) none_ n = absurd (n none_)
  with_project-wet doc r st (ok (target, template)) none_ n =
      execute-wet doc target template (record r { target = target; template = template }) st none_ n

  with_template-wet :
      (doc : Document) (r : ImplementResult) (st : State)
      → r.written ≡ []
      → Recorded (with_template s opts doc r st)
      → opts.dry_run ≡ false
  unfolding with_template
  with_template-wet doc r st none_ =
      let chosen = record doc { agent_template = opts.template } in
      if-elim (λ e. Recorded e → opts.dry_run ≡ false) (not (opts.template == ""))
        (λ _.
          with_project-wet chosen (record r { plan = chosen }) st (materialize_project s chosen)
            none_)
        λ _.
          if-elim (λ e. Recorded e → opts.dry_run ≡ false) (doc.agent_template == "")
            (λ _ n. absurd (n none_))
            λ _. with_project-wet doc r st (materialize_project s doc) none_

  -- What holds where a ledger has been recorded for a plan with the status.
  abbrev pub Allowed : String → Type 0
  Allowed status = (opts.dry_run ≡ false) × ((status ≢ implemented) ⊎ (opts.force ≡ true))

  checked-Allowed :
      (found : StatusRecord) (r : ImplementResult) (st : State)
      → r.written ≡ []
      → Recorded (checked s opts found r st)
      → (has_error_diagnostics r.diagnostics ≡ false) × Allowed found.status
  unfolding checked
  checked-Allowed found r st none_ n = elim (Bool-cases (has_error_diagnostics r.diagnostics)) [
    | inl k ↦ absurd ((rw (checked, k) at n) none_)
    | inr k ↦ elim (Bool-cases ((found.status == implemented) && not opts.force)) [
      | inl j ↦ absurd ((rw (checked, k, j) at n) none_)
      | inr j ↦ (
        k,
        (
          with_template-wet found.document r st none_ (rw (checked, k, j) at n),
          elim (Bool-cases opts.force) [
            | inl f ↦ inr f
            | inr f ↦ inl (λ is. ground (arith, j, f, (eq_iff found.status implemented).1 is))
          ],
        ),
      )
    ]
  ]

  -- Where Implement has recorded a ledger for a plan, all its dependencies had a ledger in the
  -- backend with the status implemented, the run was not dry, and the plan was not implemented
  -- before, unless it was forced.
  pub implement-dependencies :
      (sel : Selection) (found : StatusRecord) (ds : List Diagnostic) (st : State)
      → Recorded (
          implement s opts
            (ok (record { selection = sel; records = found ∷ []; diagnostics = ds }))
            st)
      → All (IsDone st) found.document.depends_on × Allowed found.status
  unfolding implement with_records with_diagnostics
  implement-dependencies sel found ds st n =
      elim (Result-cases (all_diagnostics s found.document found.document.depends_on ds st)) [
        | inr (e, k) ↦ absurd ((rw k at n) refl)
        | inl (all, k) ↦
            let (clean, allowed) =
              checked-Allowed found (first_result found all) st refl (rw k at n) in
            (
              all_diagnostics-IsDone st found.document found.document.depends_on ds all k clean,
              allowed,
            )
      ]
