-- ===== src/PlanStatus/Clean.antt =====
-- What a status of internal/planstatus/status.go without errors says.
use bachkator.Base.{
  String, Bool, true, false, ◌&&◌, not, ◌==◌, eq_iff, arith, if◌then◌else◌, Bool-cases, Option,
  none, some, List, [], ◌∷◌, ◌++◌, ◌≡◌, ◌≢◌, ap, ◌∙◌, inl, inr, Result, ok, err, >>=-eq-ok,
  ok-injective, All, Result-cases,
}
use mathlib.Core.Bool.{true≢false}
use mathlib.Core.Option.{some-injective}
use bachkator.Plan.Types.{Document, Diagnostic, Ledger, Selection, diag}
use bachkator.Plan.Waves.Ends.{build_selection_ends}
use bachkator.Plan.Status.{derive_statuses}
use bachkator.Implement.Types.{StatusResult}
use bachkator.Implement.Checks.{canonical_ref, has_error_diagnostics}
use bachkator.Implement.Guards.{has_error-append}
use bachkator.PlanStatus.{
  Loaded, stopped, unreadable, loaded, StatusError, Project, required_targets, validate_references,
  load_all, finish, record_diagnostics, with_selection, with_loaded, status, fetch,
}

-- The project has the template and the policy of the document, where it names one, and all its
-- required targets.
abbrev pub Known : Project → Document → Type 0
Known p doc =
    (doc.agent_template ≢ ""
      → p.knows_template (canonical_ref doc.agent_template "agent_template") ≡ true)
    × (doc.policy ≢ "" → p.knows_policy (canonical_ref doc.policy "policy") ≡ true)
    × All (λ t. p.knows_target t ≡ true) doc.required_targets

-- A path that is read, whose document has no error of the parser and knows its references.
abbrev pub IsClean : Project → Loaded → Type 0
IsClean p stopped = ⊥
IsClean p (unreadable path message) = ⊥
IsClean p (loaded doc own) = (has_error_diagnostics own ≡ false) × Known p doc

required_targets-known :
    (p : Project) (doc : Document) (ts : List String)
    → has_error_diagnostics (required_targets p doc ts) ≡ false
    → All (λ t. p.knows_target t ≡ true) ts
unfolding required_targets has_error_diagnostics diag
required_targets-known p doc [] h = tt
required_targets-known p doc (t ∷ ts) h = elim (Bool-cases (p.knows_target t)) [
  | inl k ↦ (k, required_targets-known p doc ts (rw (required_targets, k) at h))
  | inr k ↦ absurd (true≢false (rw (required_targets, k) at h))
]

-- A diagnostic that is given unless the reference is empty or known.
reference-known :
    (name path code message : String) (known : Bool)
    → has_error_diagnostics
        (if not (name == "") && not known then diag path code message ∷ [] else [])
      ≡ false
    → name ≢ ""
    → known ≡ true
unfolding has_error_diagnostics diag
reference-known name path code message known h named = ground (arith, eq_iff name "")

validate_references-Known :
    (p : Project) (doc : Document)
    → has_error_diagnostics (validate_references p doc) ≡ false
    → Known p doc
unfolding validate_references
validate_references-Known p doc h =
    let (before, targets) = has_error-append _ (required_targets p doc doc.required_targets) h in
    let (template, policy) = has_error-append _ _ before in
    (
      reference-known doc.agent_template doc.path _ _ _ template,
      reference-known doc.policy doc.path _ _ _ policy,
      required_targets-known p doc doc.required_targets targets,
    )

load_all-IsClean :
    (p : Project) (loads : List Loaded) (docs : List Document) (ds : List Diagnostic)
    → load_all p loads ≡ ok (docs, ds)
    → has_error_diagnostics ds ≡ false
    → All (IsClean p) loads
unfolding load_all has_error_diagnostics diag
load_all-IsClean p [] docs ds e h = tt
load_all-IsClean p (stopped ∷ loads) docs ds e h = cc
load_all-IsClean p (unreadable path message ∷ loads) docs ds e h =
    let ((docs', ds'), _, is) = >>=-eq-ok (load_all p loads) _ e in
    absurd (true≢false (ap (λ q. has_error_diagnostics q.1) (ok-injective is) ∙ h))
load_all-IsClean p (loaded doc own ∷ loads) docs ds e h =
    let ((docs', ds'), rest, is) = >>=-eq-ok (load_all p loads) _ e in
    let (mine, rest_) =
      has_error-append (own ++ validate_references p doc) ds'
        (ap (λ q. has_error_diagnostics q.1) (ok-injective is) ∙ h) in
    let (fine, refs) = has_error-append own (validate_references p doc) mine in
    ((fine, validate_references-Known p doc refs), load_all-IsClean p loads docs' ds' rest rest_)

finish-clean :
    {C : Type 0} (ds : List Diagnostic) (selection : Selection)
    (ledgers : String → Option (Ledger C))
    → has_error_diagnostics (finish ds selection ledgers).diagnostics ≡ false
    → has_error_diagnostics ds ≡ false
unfolding finish
finish-clean ds selection ledgers h =
    let (before, _) =
      has_error-append (ds ++ selection.diagnostics)
        (record_diagnostics (derive_statuses selection ledgers)) h in
    (has_error-append ds selection.diagnostics before).0

module _ {C : Type 0} (get : String → Result String (Option (Ledger C))) where
  with_loaded-IsClean :
      (p : Project) (loads : List Loaded) (r : StatusResult)
      → with_loaded get (load_all p loads) ≡ some (ok r)
      → has_error_diagnostics r.diagnostics ≡ false
      → All (IsClean p) loads
  unfolding with_loaded with_selection
  with_loaded-IsClean p loads r e h = elim (Result-cases (load_all p loads)) [
    | inr (x, k) ↦ absurd (refused (some-injective _ _ (rw k at e)))
    | inl ((docs, ds), k) ↦
        let (sel, built) = build_selection_ends docs in
        let (ledgers, _, is) =
          >>=-eq-ok (fetch get sel.documents (λ id. none)) _
            (some-injective _ _ (rw (with_loaded, k, built) at e)) in
        load_all-IsClean p loads docs ds k (
          finish-clean ds sel ledgers
            (ap (λ (x : StatusResult). has_error_diagnostics x.diagnostics) (ok-injective is) ∙ h))
  ]
    where
      refused : {x : StatusError} → ◌≢◌ {A = Result StatusError StatusResult} (err x) (ok r)
      refused k = cc

  -- Where Status returns a result without an error diagnostic, every path was read, and every
  -- document has no error of the parser; the project has its required targets, and its template and
  -- its policy where it names one.
  pub status-IsClean :
      (p : Project) (loads : List Loaded) (r : StatusResult)
      → status get (some p) loads ≡ some (ok r)
      → has_error_diagnostics r.diagnostics ≡ false
      → All (IsClean p) loads
  unfolding status
  status-IsClean p [] r e h = tt
  status-IsClean p (l ∷ loads) r e h = with_loaded-IsClean p (l ∷ loads) r e h
