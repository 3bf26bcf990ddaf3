-- ===== src/State/PlanLedgers/Keeps.antt =====
-- What RecordPlanLedger of internal/state/plan_ledger.go leaves as it was.
use bachkator.Base.{
  String, Bool, none, some, List, [], ◌∷◌, ◌++◌, ◌==◌, ◌≡◌, ◌≢◌, refl, sym, ap, ◌∙◌, subst, arith,
  eq_iff, if-elim, Bool-cases, Option-cases, Result-cases, inl, inr, ◌⊎◌, order_by, map, find,
  select, exists, Result, ok, err, >>=-eq-ok, ok-injective,
}
use mathlib.Core.Option.{some-injective, none-ne-some, some-ne-none}
use mathlib.Core.List.{append-nil, append_assoc}
use bachkator.State.PlanLedgers.Compare.{
  PlanLedger, PlanEvidence, Compared, equal, different, panics, plan_ledgers_equal,
}
use bachkator.State.PlanLedgers.{
  LedgerRow, EvidenceRow, LedgerTables, LedgerError, scan_found_ledger, scan_plan_ledger,
  evidence_before, get_plan_ledger, list_plan_evidence, ledger_row, insert_plan_ledger,
  insert_plan_evidence, insert_each, on_existing, insert_or_compare, validate_for_write,
  record_ledger, record_plan_ledger,
}

abbrev Tables : Type 0
Tables = Result LedgerError LedgerTables

-- The rows of the evidence of one ledger.
abbrev pub rows_of : String → List PlanEvidence → List EvidenceRow
rows_of id [] = []
rows_of id (e ∷ es) = record { evidence = e; of_ledger = id } ∷ rows_of id es

-- The tables after a ledger is inserted with its evidence.
abbrev pub with_ledger : PlanLedger → LedgerTables → LedgerTables
with_ledger l t = record {
  ledgers = t.ledgers ++ ledger_row l ∷ [];
  evidence = t.evidence ++ rows_of l.ledger_id l.evidence;
}

err-ne-ok : {a : LedgerTables} {x : LedgerError} → ◌≢◌ {A = Tables} (err x) (ok a)
err-ne-ok e = cc

insert_plan_evidence-ok :
    (id : String) (e : PlanEvidence) (t t' : LedgerTables)
    → insert_plan_evidence id e t ≡ ok t'
    → record t { evidence = t.evidence ++ record { evidence = e; of_ledger = id } ∷ [] } ≡ t'
unfolding insert_plan_evidence
insert_plan_evidence-ok id e t t' =
    if-elim
      (λ (r : Tables).
        r ≡ ok t'
        → record t { evidence = t.evidence ++ record { evidence = e; of_ledger = id } ∷ [] } ≡ t')
      (exists (λ (r : EvidenceRow). r.evidence.id == e.id) t.evidence) (λ _ k. absurd (err-ne-ok k))
      λ _ k. ok-injective k

insert_each-ok :
    (id : String) (es : List PlanEvidence) (t t' : LedgerTables)
    → insert_each id es t ≡ ok t'
    → record t { evidence = t.evidence ++ rows_of id es } ≡ t'
unfolding insert_each
insert_each-ok id [] t t' e =
    ap (λ l. record t { evidence = l }) (append-nil t.evidence) ∙ ok-injective e
insert_each-ok id (x ∷ es) t t' e =
    let (t₁, first, rest) = >>=-eq-ok (insert_plan_evidence id x t) _ e in
    let is = insert_plan_evidence-ok id x t t₁ first in
    ap (λ l. record t { evidence = l })
      (sym (append_assoc t.evidence (record { evidence = x; of_ledger = id } ∷ []) (rows_of id es)))
    ∙ ap (λ (z : LedgerTables). record z { evidence = z.evidence ++ rows_of id es }) is
    ∙ insert_each-ok id es t₁ t' rest

insert_plan_ledger-ok :
    (l : PlanLedger) (t t' : LedgerTables)
    → insert_plan_ledger l t ≡ ok t'
    → record t { ledgers = t.ledgers ++ ledger_row l ∷ [] } ≡ t'
unfolding insert_plan_ledger
insert_plan_ledger-ok l t t' =
    if-elim (λ (r : Tables). r ≡ ok t' → record t { ledgers = t.ledgers ++ ledger_row l ∷ [] } ≡ t')
      (exists (λ (r : LedgerRow). r.ledger_id == l.ledger_id) t.ledgers)
      (λ _ k. absurd (err-ne-ok k)) λ _ k. ok-injective k

on_existing-ok : (c : Compared) (t t' : LedgerTables) → on_existing c t ≡ ok t' → t ≡ t'
unfolding on_existing
on_existing-ok equal t t' e = ok-injective e
on_existing-ok different t t' e = absurd (err-ne-ok e)
on_existing-ok panics t t' e = absurd (err-ne-ok e)

-- A transaction that succeeds leaves the tables as they were, where the ledger is there, or inserts
-- it with its evidence.
pub record_ledger-ok :
    (l : PlanLedger) (t t' : LedgerTables)
    → record_ledger l t ≡ ok t'
    → (get_plan_ledger l.ledger_id t ≢ none) × (t ≡ t')
      ⊎ (get_plan_ledger l.ledger_id t ≡ none) × (with_ledger l t ≡ t')
unfolding record_ledger insert_or_compare
record_ledger-ok l t t' e =
    let (_, _, rest) = >>=-eq-ok (validate_for_write l) _ e in
    elim (Option-cases (get_plan_ledger l.ledger_id t)) [
      | inr (x, k) ↦ inl (
        λ n. none-ne-some x (sym n ∙ k),
        on_existing-ok (plan_ledgers_equal x l) t t' (rw k at rest),
      )
      | inl k ↦
          let (t₁, first, last) = >>=-eq-ok (insert_plan_ledger l t) _ (rw k at rest) in
          inr (
            k,
            ap
                  (λ (z : LedgerTables). record z {
                    evidence = z.evidence ++ rows_of l.ledger_id l.evidence;
                  })
                  (insert_plan_ledger-ok l t t₁ first)
                ∙ insert_each-ok l.ledger_id l.evidence t₁ t' last,
          )
    ]

find-append {ℓ} :
    {A : Type ℓ} (test : A → Bool) (xs ys : List A) (x : A)
    → find test xs ≡ some x
    → find test (xs ++ ys) ≡ some x
find-append test [] ys x e = absurd (none-ne-some x e)
find-append test (y ∷ xs) ys x e = elim (Bool-cases (test y)) [
  | inl k ↦ rw k (rw k at e)
  | inr k ↦ rw k (find-append test xs ys x (rw k at e))
]

pub find-append_none {ℓ} :
    {A : Type ℓ} (test : A → Bool) (xs ys : List A)
    → find test xs ≡ none
    → find test (xs ++ ys) ≡ find test ys
find-append_none test [] ys e = refl
find-append_none test (y ∷ xs) ys e = elim (Bool-cases (test y)) [
  | inl k ↦ absurd (some-ne-none y (rw k at e))
  | inr k ↦ rw k (find-append_none test xs ys (rw k at e))
]

pub select-append {ℓ} :
    {A : Type ℓ} (test : A → Bool) (xs ys : List A)
    → select test (xs ++ ys) ≡ select test xs ++ select test ys
select-append test [] ys = refl
select-append test (x ∷ xs) ys = ground (arith, select-append test xs ys)

select-rows_of :
    (id of_ : String) (es : List PlanEvidence)
    → id ≢ of_
    → select (λ (r : EvidenceRow). r.of_ledger == of_) (rows_of id es) ≡ []
select-rows_of id of_ [] ne = refl
select-rows_of id of_ (e ∷ es) ne = ground (arith, ne, eq_iff id of_, select-rows_of id of_ es ne)

list_plan_evidence-append :
    (id of_ : String) (es : List PlanEvidence) (rows : List EvidenceRow)
    → id ≢ of_
    → list_plan_evidence of_ (rows ++ rows_of id es) ≡ list_plan_evidence of_ rows
unfolding list_plan_evidence
list_plan_evidence-append id of_ es rows ne =
    ap (λ l. order_by evidence_before (map (λ (r : EvidenceRow). r.evidence) l))
      (select-append _ rows (rows_of id es)
        ∙ ap (λ l. select (λ (r : EvidenceRow). r.of_ledger == of_) rows ++ l)
            (select-rows_of id of_ es ne)
        ∙ append-nil _)

get_plan_ledger-append :
    (l x : PlanLedger) (id : String) (t : LedgerTables)
    → get_plan_ledger l.ledger_id t ≡ none
    → get_plan_ledger id t ≡ some x
    → get_plan_ledger id (with_ledger l t) ≡ some x
unfolding get_plan_ledger scan_found_ledger
get_plan_ledger-append l x id t absent there_ =
    let other : l.ledger_id ≢ id =
      λ is. none-ne-some x (sym absent ∙ ap (λ i. get_plan_ledger i t) is ∙ there_) in
    elim (Option-cases (find (λ (r : LedgerRow). r.ledger_id == id) t.ledgers)) [
      | inl e ↦ absurd (none-ne-some x (rw (get_plan_ledger, e) at there_))
      | inr (r, e) ↦
          ap (λ o. scan_found_ledger id o (t.evidence ++ rows_of l.ledger_id l.evidence))
            (find-append _ t.ledgers (ledger_row l ∷ []) r e)
          ∙ ap (λ es. some (scan_plan_ledger r es))
              (list_plan_evidence-append l.ledger_id id l.evidence t.evidence other)
          ∙ ap (λ o. scan_found_ledger id o t.evidence) (sym e)
          ∙ there_
    ]

-- Recording a ledger, with whatever outcome, changes no ledger that is recorded: an open store
-- returns the same ledger for its id as before.
pub record_plan_ledger_keeps :
    (id : String) (x l : PlanLedger) (t t' : LedgerTables)
    → get_plan_ledger id t ≡ some x
    → (record_plan_ledger l (some t)).1 ≡ some t'
    → get_plan_ledger id t' ≡ some x
unfolding record_plan_ledger
record_plan_ledger_keeps id x l t t' there_ e = elim (Result-cases (record_ledger l t)) [
  | inr (err_, k) ↦
      subst (λ z. get_plan_ledger id z ≡ some x) (some-injective _ _ (rw k at e)) there_
  | inl (t₁, k) ↦
      subst (λ z. get_plan_ledger id z ≡ some x) (some-injective _ _ (rw k at e))
        (elim (record_ledger-ok l t t₁ k) [
          | inl (_, same) ↦ subst (λ z. get_plan_ledger id z ≡ some x) same there_
          | inr (absent, is) ↦
              subst (λ z. get_plan_ledger id z ≡ some x) is
                (get_plan_ledger-append l x id t absent there_)
        ])
]
