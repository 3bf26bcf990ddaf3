-- ===== src/Implement/Records.antt =====
-- Implement of internal/planexecute/execute.go, and the status of the plan afterwards.
use bachkator.Base.{
  String, true, false, ◌&&◌, not, Option, none, some, List, [], ◌∷◌, ◌==◌, ◌≡◌, refl, sym, ap, ◌∙◌,
  subst, arith, eq_refl, if-elim, Result-cases, inl, inr, Result, ok, err, >>=-eq-ok, ok-injective,
  text_ne,
}
use mathlib.Core.Option.{some-ne-none}
use text.Mathlib.Text.{starts_with}
use bachkator.State.Time.{Time, is_zero}
use bachkator.Plan.Types.{Selection, Document, Diagnostic, Ledger, LedgerSummary, StatusRecord}
use bachkator.Plan.Ledgers.{
  pending, in_progress, implemented, failed, validate_ledger, validate_evidence, supported,
}
use bachkator.Plan.Status.{status_record}
use bachkator.Plan.Status.Derived.{Current, status_record-implemented}
use bachkator.Implement.Types.{
  ExecOptions, ExecError, ImplementResult, Service, Ended, MaterializeError, skipped,
}
use bachkator.Implement.Ledgers.{new_ledger, record_ledger}
use bachkator.Implement.{
  with_terminal, after_run, with_in_progress, with_pending, execute, add_written, run_id_of,
  with_project, with_template, checked, with_diagnostics, with_records, implement, first_result,
}
use bachkator.Implement.Checks.{
  latest_run_id, materialize_project, all_diagnostics, has_error_diagnostics,
}

module _ {State Content : Type 0} (s : Service State Content) where
  -- uuid.NewV7, which id.New calls, gives no empty id, and the clock is past the zero time.
  pub record HasIds : Type 0 where
    pub ids : (st st' : State) (id : String) → s.new_id st ≡ ok (id, st') → (id == "") ≡ false
    pub times : (st : State) → is_zero (s.now st).0 ≡ false

  -- The state comes from storing a ledger of the document, by which it is implemented.
  abbrev pub IsImplemented : Document → State → Type 0
  IsImplemented doc st =
      (l : Ledger Content) × (before : State) × (s.store_ledger l before ≡ ok st)
      × (l.plan_id ≡ doc.id)
      × (validate_ledger doc l ≡ [])
      × Current doc l

  -- An end with the result implemented and no error.
  abbrev pub Success : Ended State → Type 0
  Success e = (e.error ≡ none) × (e.result.result ≡ implemented)

  new_ledger-valid :
      (doc : Document) (target run_id : String) (now : Time) (a b : String)
      → starts_with doc.hash "sha256:" ≡ true
      → is_zero now ≡ false
      → (a == "") ≡ false
      → (b == "") ≡ false
      → validate_ledger doc (new_ledger s doc implemented target run_id now a b) ≡ []
  unfolding validate_ledger validate_evidence supported new_ledger
  new_ledger-valid doc target run_id now a b hash time one two =
      ground (arith, hash, time, one, two, eq_refl doc.id)

  record_ledger-IsImplemented :
      HasIds
      → (doc : Document) (target run_id : String) (st st' : State) (l : LedgerSummary)
      → starts_with doc.hash "sha256:" ≡ true
      → record_ledger s doc implemented target run_id st ≡ ok (l, st')
      → IsImplemented doc st'
  unfolding record_ledger
  record_ledger-IsImplemented ids doc target run_id st st' l hash e =
      let ((a, st₂), one, rest) = >>=-eq-ok (s.new_id (s.now st).1) _ e in
      let ((b, st₃), two, rest') = >>=-eq-ok (s.new_id st₂) _ rest in
      let made = new_ledger s doc implemented target run_id (s.now st).0 a b in
      let (st₄, put, is) = >>=-eq-ok (s.store_ledger made st₃) _ rest' in
      subst (IsImplemented doc) (ap (λ (p : LedgerSummary × State). p.1) (ok-injective is)) (
        made,
        st₃,
        put,
        refl,
        new_ledger-valid doc target run_id (s.now st).0 a b hash (ids.times st)
            (ids.ids _ st₂ a one) (ids.ids st₂ st₃ b two),
        (refl, refl),
      )

  no-error : {R : Type 0} {e : ExecError} → ◌≡◌ {A = Option ExecError} (some e) none → R
  no-error k = absurd (some-ne-none _ k)

  module _ (ids : HasIds) where
    after_run-IsImplemented :
        (doc : Document) (target : String) (r : ImplementResult) (run_err : Option String)
        (found : Result ExecError String) (st : State)
        → starts_with doc.hash "sha256:" ≡ true
        → Success (after_run s doc target r run_err found st)
        → IsImplemented doc (after_run s doc target r run_err found st).state
    unfolding after_run with_terminal
    after_run-IsImplemented doc target r (some e) found st hash (k, _) =
        elim (Result-cases (record_ledger s doc failed target (run_id_of found) st)) [
          | inl (p, is) ↦ no-error (rw is at k)
          | inr (x, is) ↦ no-error (rw is at k)
        ]
    after_run-IsImplemented doc target r none (err e) st hash (k, _) = no-error k
    after_run-IsImplemented doc target r none (ok id) st hash (k, _) =
        elim (Result-cases (record_ledger s doc implemented target id st)) [
          | inl ((l, st'), is) ↦
              rw is (record_ledger-IsImplemented ids doc target id st st' l hash is)
          | inr (x, is) ↦ no-error (rw is at k)
        ]

    with_in_progress-IsImplemented :
        (doc : Document) (target template : String) (r : ImplementResult) (st : State)
        (recorded : Result String (LedgerSummary × State))
        → starts_with doc.hash "sha256:" ≡ true
        → Success (with_in_progress s doc target template r st recorded)
        → IsImplemented doc (with_in_progress s doc target template r st recorded).state
    unfolding with_in_progress
    with_in_progress-IsImplemented doc target template r st (err e) hash (k, _) = no-error k
    with_in_progress-IsImplemented doc target template r st (ok (l, st₁)) hash k =
        let ran = s.run_targets doc target template false st₁ in
        after_run-IsImplemented doc target (add_written r l) ran.0 (latest_run_id s target ran.1)
          ran.1 hash k

    with_pending-IsImplemented :
        (doc : Document) (target template : String) (r : ImplementResult) (st : State)
        (recorded : Result String (LedgerSummary × State))
        → starts_with doc.hash "sha256:" ≡ true
        → Success (with_pending s doc target template r st recorded)
        → IsImplemented doc (with_pending s doc target template r st recorded).state
    unfolding with_pending
    with_pending-IsImplemented doc target template r st (err e) hash (k, _) = no-error k
    with_pending-IsImplemented doc target template r st (ok (l, st₁)) hash k =
        with_in_progress-IsImplemented doc target template (add_written r l) st₁
          (record_ledger s doc in_progress target "" st₁) hash k

    module _ (opts : ExecOptions) where
      execute-IsImplemented :
          (doc : Document) (target template : String) (r : ImplementResult) (st : State)
          → starts_with doc.hash "sha256:" ≡ true
          → r.result ≡ ""
          → Success (execute s opts doc target template r st)
          → IsImplemented doc (execute s opts doc target template r st).state
      unfolding execute
      execute-IsImplemented doc target template r st hash fresh =
          if-elim (λ e. Success e → IsImplemented doc e.state) opts.dry_run
            (λ _ (_, is). absurd (text_ne "" implemented refl (sym fresh ∙ is)))
            λ _.
              with_pending-IsImplemented doc target template r st
                (record_ledger s doc pending target "" st) hash

      with_project-IsImplemented :
          (doc : Document) (r : ImplementResult) (st : State)
          (made : Result MaterializeError (String × String))
          → starts_with doc.hash "sha256:" ≡ true
          → r.result ≡ ""
          → Success (with_project s opts doc r st made)
          → IsImplemented doc (with_project s opts doc r st made).state
      unfolding with_project
      with_project-IsImplemented doc r st (err e) hash fresh = λ (k, _). no-error k
      with_project-IsImplemented doc r st (ok (target, template)) hash fresh =
          execute-IsImplemented doc target template
            (record r { target = target; template = template }) st hash fresh

      with_template-IsImplemented :
          (doc : Document) (r : ImplementResult) (st : State)
          → starts_with doc.hash "sha256:" ≡ true
          → r.result ≡ ""
          → Success (with_template s opts doc r st)
          → IsImplemented doc (with_template s opts doc r st).state
      unfolding with_template validate_ledger
      with_template-IsImplemented doc r st hash fresh =
          let chosen = record doc { agent_template = opts.template } in
          if-elim (λ e. Success e → IsImplemented doc e.state) (not (opts.template == ""))
            (λ _.
              with_project-IsImplemented chosen (record r { plan = chosen }) st
                (materialize_project s chosen) hash fresh)
            λ _.
              if-elim (λ e. Success e → IsImplemented doc e.state) (doc.agent_template == "")
                (λ _ (k, _). no-error k)
                λ _. with_project-IsImplemented doc r st (materialize_project s doc) hash fresh

      checked-IsImplemented :
          (found : StatusRecord) (r : ImplementResult) (st : State)
          → starts_with found.document.hash "sha256:" ≡ true
          → r.result ≡ ""
          → Success (checked s opts found r st)
          → IsImplemented found.document (checked s opts found r st).state
      unfolding checked
      checked-IsImplemented found r st hash fresh =
          if-elim (λ e. Success e → IsImplemented found.document e.state)
            (has_error_diagnostics r.diagnostics) (λ _ (k, _). no-error k)
            λ _.
              if-elim (λ e. Success e → IsImplemented found.document e.state)
                ((found.status == implemented) && not opts.force)
                (λ _ (_, is). absurd (text_ne skipped implemented refl is))
                λ _. with_template-IsImplemented found.document r st hash fresh

      implement-IsImplemented :
          (sel : Selection) (found : StatusRecord) (ds : List Diagnostic) (st : State)
          → starts_with found.document.hash "sha256:" ≡ true
          → Success (
              implement s opts
                (ok (record { selection = sel; records = found ∷ []; diagnostics = ds }))
                st)
          → IsImplemented found.document
              (implement s opts
                (ok (record { selection = sel; records = found ∷ []; diagnostics = ds }))
                st).state
      unfolding implement with_records with_diagnostics
      implement-IsImplemented sel found ds st hash =
          go (all_diagnostics s found.document found.document.depends_on ds st)
        where
          go :
              (all : Result String (List Diagnostic))
              → Success (with_diagnostics s opts found ds st all)
              → IsImplemented found.document (with_diagnostics s opts found ds st all).state
          go (err e) (k, _) = no-error k
          go (ok all) k = checked-IsImplemented found (first_result found all) st hash refl k

      -- Where Implement ends without an error and with the result implemented, the last thing that
      -- it did was to store, with success, a ledger of the plan with which DeriveStatuses gives the
      -- plan the status implemented, whatever the statuses of its dependencies. The hash of the
      -- plan starts with `sha256:`, ids are not empty, and the clock is past the zero time.
      pub implement-status_record :
          (sel : Selection) (found : StatusRecord) (ds : List Diagnostic) (st : State)
          (statuses : String → String)
          → starts_with found.document.hash "sha256:" ≡ true
          → Success (
              implement s opts
                (ok (record { selection = sel; records = found ∷ []; diagnostics = ds }))
                st)
          → (l : Ledger Content) × (before : State) × (s.store_ledger l before
              ≡ ok
                  (implement s opts
                    (ok (record { selection = sel; records = found ∷ []; diagnostics = ds }))
                    st).state)
            × (l.plan_id ≡ found.document.id)
            × ((status_record statuses found.document (some l)).status ≡ implemented)
      implement-status_record sel found ds st statuses hash k =
          let (l, before, put, plan, valid, current) =
            implement-IsImplemented sel found ds st hash k in
          (
            l,
            before,
            put,
            plan,
            (status_record-implemented statuses found.document (some l)).1
                (l, refl, valid, current),
          )
