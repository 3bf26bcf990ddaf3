-- ===== src/Plan/Ledgers/Valid.antt =====
-- What ValidateLedger of internal/plan/status.go accepts.
use bachkator.Base.{
  text_ne, refl, ap, Bool, ◌==◌, not, String, ◌≡◌, ◌≢◌, arith, eq_iff, All, true, false, [], ◌∷◌,
  List,
}
use mathlib.Core.Bool.{true≢false}
use mathlib.Core.Logic.{◌↔◌}
use mathlib.Core.List.{cons≢nil}
use bachkator.State.Time.{is_zero}
use bachkator.Plan.Types.{Document, Ledger, Evidence, Diagnostic}
use bachkator.Plan.Ledgers.{
  report, validate_ledger, validate_evidence, supported, ledger_schema_version,
}
use text.Mathlib.Text.{starts_with}

-- What the fields of a ledger of a document must be.
pub record IsValidLedger {C : Type 0} (doc : Document) (ledger : Ledger C) : Type 0 where
  pub schema : ledger.schema_version ≡ ledger_schema_version
  pub named : ledger.ledger_id ≢ ""
  pub of_plan : ledger.plan_id ≡ doc.id
  pub status : supported ledger.status ≡ true
  pub hash : starts_with ledger.hash "sha256:" ≡ true
  pub dated : is_zero ledger.recorded_at ≡ false
  pub evidence : All (λ (e : Evidence C). (e.id ≢ "") × (e.kind ≢ "")) ledger.evidence

not-eq_false : (b : Bool) → not b ≡ false → b ≡ true
not-eq_false true e = refl
not-eq_false false e = absurd (true≢false e)

ne-test : (a b : String) → a ≢ b → (a == b) ≡ false
ne-test a b h = ground (arith, eq_iff a b, h)

report-nil :
    (test : Bool) (d : Diagnostic) (rest : List Diagnostic)
    → report test d rest ≡ []
    → (test ≡ false) × (rest ≡ [])
report-nil true d rest e = absurd (cons≢nil e)
report-nil false d rest e = (refl, e)

nil-report :
    (test : Bool) (d : Diagnostic) (rest : List Diagnostic)
    → test ≡ false
    → rest ≡ []
    → report test d rest ≡ []
nil-report true d rest e k = absurd (true≢false e)
nil-report false d rest e k = k

module _ {C : Type 0} where
  validate_evidence_iff :
      (path : String) (es : List (Evidence C))
      → (validate_evidence path es ≡ []) ↔ All (λ (e : Evidence C). (e.id ≢ "") × (e.kind ≢ "")) es
  unfolding validate_evidence
  validate_evidence_iff path [] = (λ _. tt, λ _. refl)
  validate_evidence_iff path (e ∷ es) = (
    λ k.
        let (no_id, k₁) = report-nil _ _ _ k in
        let (no_kind, k₂) = report-nil _ _ _ k₁ in
        ((text_ne e.id "" no_id, text_ne e.kind "" no_kind), (validate_evidence_iff path es).0 k₂),
    λ h.
        nil-report _ _ _ (ne-test e.id "" h.0.0)
          (nil-report _ _ _ (ne-test e.kind "" h.0.1) ((validate_evidence_iff path es).1 h.1)),
  )

  -- ValidateLedger reports nothing just where the ledger has the schema of ledgers, an id, the
  -- plan's id, a supported status, a SHA-256 hash and a time, and all evidence an id and a kind.
  pub validate_ledger_iff :
      (doc : Document) (ledger : Ledger C)
      → (validate_ledger doc ledger ≡ []) ↔ IsValidLedger doc ledger
  unfolding validate_ledger
  validate_ledger_iff doc ledger = (
    λ k.
        let (a, k₁) = report-nil _ _ _ k in
        let (b, k₂) = report-nil _ _ _ k₁ in
        let (c, k₃) = report-nil _ _ _ k₂ in
        let (d, k₄) = report-nil _ _ _ k₃ in
        let (e, k₅) = report-nil _ _ _ k₄ in
        let (f, k₆) = report-nil _ _ _ k₅ in
        record {
          schema = (eq_iff ledger.schema_version ledger_schema_version).0 (not-eq_false _ a);
          named = text_ne ledger.ledger_id "" b;
          of_plan = (eq_iff ledger.plan_id doc.id).0 (not-eq_false _ c);
          status = not-eq_false _ d;
          hash = not-eq_false _ e;
          dated = f;
          evidence = (validate_evidence_iff doc.path ledger.evidence).0 k₆;
        },
    λ v.
        nil-report _ _ _ (ap not ((eq_iff ledger.schema_version ledger_schema_version).1 v.schema))
          (nil-report _ _ _ (ne-test ledger.ledger_id "" v.named) (
            nil-report _ _ _ (ap not ((eq_iff ledger.plan_id doc.id).1 v.of_plan)) (
              nil-report _ _ _ (ap not v.status) (
                nil-report _ _ _ (ap not v.hash) (
                  nil-report _ _ _ v.dated
                    ((validate_evidence_iff doc.path ledger.evidence).1 v.evidence)))))),
  )
