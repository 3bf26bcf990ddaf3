-- ===== src/Batch/Filed.antt =====
-- The results of internal/planbatch/execute.go: whose they are.
use bachkator.Base.{
  String, true, false, ◌&&◌, not, Option, none, some, List, [], ◌∷◌, ◌==◌, ◌≡◌, ◌≢◌, text_ne, refl,
  sym, ap, ◌∙◌, subst, arith, eq_iff, eq_refl, if-elim, Bool-cases, Option-cases, inl, inr,
}
use mathlib.Core.Option.{some-injective, none-ne-some, some-ne-none}
use bachkator.Plan.Types.{StatusRecord}
use bachkator.Batch.{
  BatchState, PlanResult, ExecResult, complete, skip, find_record, record_of, set_result,
  has_result, classify, block, unlinked, first_missing, has_error, is_current, failed,
  already_implemented, blocked,
}
use bachkator.Plan.Ledgers.{implemented}

-- There is a record for an id.
abbrev pub Recorded : List StatusRecord → String → Type 0
Recorded rs id = (r : StatusRecord) × (find_record id rs ≡ some r)

pub find_record-id :
    (id : String) (rs : List StatusRecord) (r : StatusRecord)
    → find_record id rs ≡ some r
    → r.document.id ≡ id
unfolding find_record
find_record-id id [] r e = absurd (none-ne-some r e)
find_record-id id (x ∷ rs) r e = elim (Option-cases (find_record id rs)) [
  | inr (g, k) ↦ find_record-id id rs r (k ∙ rw (find_record, k) at e)
  | inl k ↦ elim (Bool-cases (x.document.id == id)) [
    | inl is ↦
        subst (λ (y : StatusRecord). y.document.id ≡ id)
          (some-injective _ _ (rw is at (rw (find_record, k) at e)))
          ((eq_iff x.document.id id).0 is)
    | inr other ↦ absurd (none-ne-some r (rw other at (rw (find_record, k) at e)))
  ]
]

-- A state of a batch over some records, each of whose results is that of its plan.
pub record Filed (rs : List StatusRecord) (ws : List (List String)) (b : BatchState) : Type 0 where
  pub same : b.records ≡ rs
  pub layout : b.waves ≡ ws
  pub named : (id : String) (r : PlanResult) → b.results id ≡ some r → r.plan.id ≡ id

abbrev pub Keeps : BatchState → BatchState → Type 0
Keeps b b' = (x : String) → has_result b x ≡ true → has_result b' x ≡ true

module _ (id : String) (r : PlanResult) (b : BatchState) where
  pub set_result-Keeps : Keeps b (set_result id r b)
  set_result-Keeps x h =
      if-elim (λ (o : Option PlanResult). elim o [ some y ↦ true | none ↦ false ] ≡ true) (id == x)
        (λ _. refl) λ _. h

  pub set_result-has : has_result (set_result id r b) id ≡ true
  set_result-has = ground (arith, eq_refl id)

  pub set_result-Filed :
      (rs : List StatusRecord) (ws : List (List String))
      → r.plan.id ≡ id
      → Filed rs ws b
      → Filed rs ws (set_result id r b)
  set_result-Filed rs ws is filed = record {
    same = filed.same;
    layout = filed.layout;
    named = λ x y e. elim (Bool-cases (id == x)) [
      | inl k ↦
          ap (λ (z : PlanResult). z.plan.id) (sym (some-injective _ _ (rw k at e)))
          ∙ is
          ∙ (eq_iff id x).0 k
      | inr k ↦ filed.named x y (rw k at e)
    ];
  }

pub record_of-id :
    (id : String) (rs : List StatusRecord) → Recorded rs id → (record_of id rs).document.id ≡ id
unfolding record_of
record_of-id id rs (r, e) = rw (record_of, e) (find_record-id id rs r e)

module _ (rs : List StatusRecord) (ws : List (List String)) (id : String) (known : Recorded rs id)
    (b : BatchState) (filed : Filed rs ws b) where
  pub complete-Filed :
      (exec : ExecResult) (error : Option String) → Filed rs ws (complete id exec error b)
  unfolding complete
  complete-Filed exec error =
      set_result-Filed id _ b rs ws
        (ap (λ l. (record_of id l).document.id) filed.same ∙ record_of-id id rs known) filed

  pub skip-Filed : (reason : String) → Filed rs ws (skip id reason b)
  unfolding skip unlinked
  skip-Filed reason =
      set_result-Filed id _ b rs ws
        (ap (λ l. (record_of id l).document.id) filed.same ∙ record_of-id id rs known) filed

pub complete-Keeps :
    (id : String) (exec : ExecResult) (error : Option String) (b : BatchState)
    → Keeps b (complete id exec error b)
unfolding complete
complete-Keeps id exec error b = set_result-Keeps id _ b

pub complete-has :
    (id : String) (exec : ExecResult) (error : Option String) (b : BatchState)
    → has_result (complete id exec error b) id ≡ true
unfolding complete
complete-has id exec error b = set_result-has id _ b

pub skip-Keeps : (id reason : String) (b : BatchState) → Keeps b (skip id reason b)
unfolding skip
skip-Keeps id reason b = set_result-Keeps id _ b

pub skip-has : (id reason : String) (b : BatchState) → has_result (skip id reason b) id ≡ true
unfolding skip
skip-has id reason b = set_result-has id _ b

-- What classify answers: a result of the plan itself, which is not that of a run, or that the plan
-- may run.
abbrev pub Classified : BatchState → StatusRecord → Option PlanResult → Type 0
Classified b r o =
    ((x : PlanResult) → o ≡ some x → (x.plan ≡ r.document) × (x.state ≢ implemented))
    × (o ≡ none
        → (has_error r.diagnostics ≡ false)
          × ((is_current r && not b.force) ≡ false)
          × (first_missing b r.document.depends_on ≡ none))

result-Classified :
    (b : BatchState) (r : StatusRecord) (x : PlanResult)
    → x.plan ≡ r.document
    → x.state ≢ implemented
    → Classified b r (some x)
result-Classified b r x p n = (
  λ y e.
      let is = some-injective _ _ e in
      (
        subst (λ (z : PlanResult). z.plan ≡ r.document) is p,
        subst (λ (z : PlanResult). z.state ≢ implemented) is n,
      ),
  λ e. absurd (some-ne-none x e),
)

block-Classified :
    (b : BatchState) (r : StatusRecord) (o : Option String)
    → first_missing b r.document.depends_on ≡ o
    → has_error r.diagnostics ≡ false
    → (is_current r && not b.force) ≡ false
    → Classified b r (block r o)
unfolding block unlinked
block-Classified b r (some dep) e fine due =
    result-Classified b r _ refl (text_ne blocked implemented refl)
block-Classified b r none e fine due = (λ x k. absurd (none-ne-some x k), λ _. (fine, due, e))

pub classify-Classified : (b : BatchState) (r : StatusRecord) → Classified b r (classify b r)
unfolding classify unlinked
classify-Classified b r =
    if-elim (Classified b r) (has_error r.diagnostics)
      (λ _. result-Classified b r _ refl (text_ne failed implemented refl))
      λ fine.
        if-elim (Classified b r) (is_current r && not b.force)
          (λ _. result-Classified b r _ refl (text_ne already_implemented implemented refl))
          λ due. block-Classified b r (first_missing b r.document.depends_on) refl fine due
