-- ===== src/State/PlanLedgers/Stores.antt =====
-- RecordPlanLedger of internal/state/plan_ledger.go and the ledger that is read afterwards.
use bachkator.Base.{
  ◌<◌, ◌^◌, String, Bool, true, none, some, List, [], ◌∷◌, ◌++◌, ◌==◌, ◌≡◌, ◌≢◌, refl, sym, ap, ◌∙◌,
  subst, arith, eq_iff, eq_refl, Bool-cases, Option-cases, Result-cases, inl, inr, map, find,
  select, exists, All, Result, ok, err, order_by,
}
use mathlib.Core.Bool.{true≢false}
use mathlib.Core.Option.{some-injective, some-ne-none}
use bachkator.State.Time.Fraction.{parse_time-format_time}
use bachkator.State.PlanLedgers.Compare.{PlanLedger, PlanEvidence}
use bachkator.State.PlanLedgers.{
  LedgerRow, EvidenceRow, LedgerTables, LedgerError, plan_schema, scan_found_ledger,
  scan_plan_ledger, get_plan_ledger, list_plan_evidence, evidence_before, ledger_row, record_ledger,
  record_plan_ledger,
}
use bachkator.State.PlanLedgers.Keeps.{
  rows_of, with_ledger, record_ledger-ok, find-append_none, select-append,
}

-- The ledger as it is read: of the schema, with its evidence in the order of the ids.
abbrev pub stored : PlanLedger → PlanLedger
stored l = record l { schema_version = plan_schema; evidence = order_by evidence_before l.evidence }

-- The rows of evidence are those of ledgers, which the foreign key of the table says.
abbrev pub IsLinked : LedgerTables → Type 0
IsLinked t =
    All
      (λ (r : EvidenceRow). exists (λ (l : LedgerRow). l.ledger_id == r.of_ledger) t.ledgers ≡ true)
      t.evidence

exists-find :
    (test : LedgerRow → Bool) (rows : List LedgerRow)
    → exists test rows ≡ true
    → find test rows ≢ none
exists-find test [] e n = absurd (true≢false (sym e))
exists-find test (r ∷ rows) e n = elim (Bool-cases (test r)) [
  | inl k ↦ some-ne-none r (rw k at n)
  | inr k ↦ exists-find test rows (ground (arith, e, k)) (rw k at n)
]

unlinked-none :
    (id : String) (t : LedgerTables) (rows : List EvidenceRow)
    → find (λ (r : LedgerRow). r.ledger_id == id) t.ledgers ≡ none
    → All
        (λ (r : EvidenceRow).
          exists (λ (l : LedgerRow). l.ledger_id == r.of_ledger) t.ledgers ≡ true)
        rows
    → select (λ (r : EvidenceRow). r.of_ledger == id) rows ≡ []
unlinked-none id t [] absent h = refl
unlinked-none id t (r ∷ rows) absent h = elim (Bool-cases (r.of_ledger == id)) [
  | inl is ↦
      let k =
        ap (λ i. exists (λ (l : LedgerRow). l.ledger_id == i) t.ledgers)
          (sym ((eq_iff r.of_ledger id).0 is))
        ∙ h.0 in
      absurd (exists-find (λ (l : LedgerRow). l.ledger_id == id) t.ledgers k absent)
  | inr ne ↦ rw ne (unlinked-none id t rows absent h.1)
]

select-rows_of_same :
    (id : String) (es : List PlanEvidence)
    → map
        (λ (r : EvidenceRow). r.evidence)
        (select (λ (r : EvidenceRow). r.of_ledger == id) (rows_of id es))
      ≡ es
select-rows_of_same id [] = refl
select-rows_of_same id (e ∷ es) = ground (arith, eq_refl id, select-rows_of_same id es)

absent-row :
    (id : String) (t : LedgerTables)
    → get_plan_ledger id t ≡ none
    → find (λ (r : LedgerRow). r.ledger_id == id) t.ledgers ≡ none
unfolding get_plan_ledger scan_found_ledger
absent-row id t e = elim (Option-cases (find (λ (r : LedgerRow). r.ledger_id == id) t.ledgers)) [
  | inl k ↦ k
  | inr (r, k) ↦ absurd (some-ne-none _ (rw (get_plan_ledger, k) at e))
]

pub record_ledger-of :
    (l : PlanLedger) (t t' : LedgerTables)
    → record_plan_ledger l (some t) ≡ (ok tt, some t')
    → record_ledger l t ≡ ok t'
unfolding record_plan_ledger
record_ledger-of l t t' e = elim (Result-cases (record_ledger l t)) [
  | inl (t₁, k) ↦ k ∙ ap ok (some-injective _ _ (ap (λ p. p.1) (rw k at e)))
  | inr (x, k) ↦ absurd (refused (ap (λ p. p.0) (rw k at e)))
]
  where
    refused : {x : LedgerError} → ◌≢◌ {A = Result LedgerError (Unit {0})} (err x) (ok tt)
    refused k = cc

with_ledger-get :
    (l : PlanLedger) (t : LedgerTables)
    → IsLinked t
    → l.recorded_at.nanos < 10 ^ 9
    → l.implemented_at.nanos < 10 ^ 9
    → get_plan_ledger l.ledger_id t ≡ none
    → get_plan_ledger l.ledger_id (with_ledger l t) ≡ some (stored l)
unfolding get_plan_ledger scan_found_ledger scan_plan_ledger list_plan_evidence ledger_row
with_ledger-get l t linked recorded implemented absent =
    let test = λ (r : LedgerRow). r.ledger_id == l.ledger_id in
    let none_ = absent-row l.ledger_id t absent in
    let found : find test (t.ledgers ++ ledger_row l ∷ []) ≡ some (ledger_row l) =
      find-append_none test t.ledgers (ledger_row l ∷ []) none_
      ∙ ground (arith, eq_refl l.ledger_id) in
    let evidence : list_plan_evidence l.ledger_id (t.evidence ++ rows_of l.ledger_id l.evidence)
        ≡ order_by evidence_before l.evidence =
      ap (λ rows. order_by evidence_before (map (λ (r : EvidenceRow). r.evidence) rows))
        (select-append _ t.evidence (rows_of l.ledger_id l.evidence)
          ∙ ap
              (λ xs.
                xs
                ++ select (λ (r : EvidenceRow). r.of_ledger == l.ledger_id)
                    (rows_of l.ledger_id l.evidence))
              (unlinked-none l.ledger_id t t.evidence none_ linked))
      ∙ ap (order_by evidence_before) (select-rows_of_same l.ledger_id l.evidence) in
    ap (λ o. scan_found_ledger l.ledger_id o (t.evidence ++ rows_of l.ledger_id l.evidence)) found
    ∙ ground (
      arith,
      evidence,
      parse_time-format_time l.recorded_at recorded,
      parse_time-format_time l.implemented_at implemented,
    )

-- Recording a ledger whose id is new, in an open store whose evidence is linked: where it succeeds,
-- the store returns the ledger for its id, of the schema of ledgers and with the evidence in the
-- order of the ids. The times must have less than a second of nanoseconds.
pub record_plan_ledger-get_plan_ledger :
    (l : PlanLedger) (t t' : LedgerTables)
    → IsLinked t
    → l.recorded_at.nanos < 10 ^ 9
    → l.implemented_at.nanos < 10 ^ 9
    → get_plan_ledger l.ledger_id t ≡ none
    → record_plan_ledger l (some t) ≡ (ok tt, some t')
    → get_plan_ledger l.ledger_id t' ≡ some (stored l)
record_plan_ledger-get_plan_ledger l t t' linked recorded implemented absent e =
    elim (record_ledger-ok l t t' (record_ledger-of l t t' e)) [
      | inl (there_, _) ↦ absurd (there_ absent)
      | inr (_, is) ↦
          subst (λ z. get_plan_ledger l.ledger_id z ≡ some (stored l)) is
            (with_ledger-get l t linked recorded implemented absent)
    ]
