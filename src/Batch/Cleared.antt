-- ===== src/Batch/Cleared.antt =====
-- What Execute of internal/planbatch/execute.go runs: dependencies first.
pub mod Frames
pub mod Ordered
use bachkator.Base.{
  String, Bool, true, false, ◌&&◌, ◌||◌, not, Option, none, some, List, [], ◌∷◌, ◌++◌, ◌==◌, ◌≡◌,
  ◌≢◌, refl, sym, ap, ◌∙◌, subst, arith, eq_iff, if◌then◌else◌, All, Each, All-weaken, All-append,
  Bool-cases, Option-cases, inl, inr,
}
use mathlib.Core.Option.{some-injective, none-ne-some, some-ne-none}
use mathlib.Core.Bool.{true≢false}
use bachkator.Plan.Types.{Document, StatusRecord}
use bachkator.Plan.Ledgers.{implemented}
use bachkator.Batch.{
  BatchState, PlanResult, ExecResult, ready_plans, complete, skip, skip_all, find_record, record_of,
  set_result, dependency_implemented, first_missing, classify, skipped, unlinked,
}
use bachkator.Batch.Filed.{Classified, classify-Classified, find_record-id}
use bachkator.Batch.Reported.{Taken-All}
use bachkator.Batch.Runs.{Taken, first, later, WaveRun, finished, run_one, drop}

-- The dependencies of a document are implemented.
abbrev pub Cleared : BatchState → Document → Type 0
Cleared b d = All (λ dep. dependency_implemented b dep ≡ true) d.depends_on

abbrev pub Sound : BatchState → Type 0
Sound b =
    (id : String) (r : PlanResult)
    → b.results id ≡ some r
    → r.state ≡ implemented
    → Cleared b r.plan

-- An id without a result, which is no dependency outside the batch.
abbrev pub Fresh : BatchState → String → Type 0
Fresh b x = (b.results x ≡ none) × (b.external x ≡ false)

abbrev pub Later : BatchState → BatchState → Type 0
Later b b' = (x : String) → dependency_implemented b x ≡ true → dependency_implemented b' x ≡ true

pub Later-Cleared : (b b' : BatchState) (d : Document) → Later b b' → Cleared b d → Cleared b' d
Later-Cleared b b' d later_ h = All-weaken _ _ d.depends_on later_ h

module _ (id : String) (r : PlanResult) (b : BatchState) (fresh : Fresh b id) where
  pub set_result-Later : Later b (set_result id r b)
  unfolding dependency_implemented
  set_result-Later x h = elim (Bool-cases (id == x)) [
    | inl is ↦
        let same = (eq_iff id x).0 is in
        let (none_, outside) = subst (Fresh b) same fresh in
        absurd (true≢false (sym h ∙ rw (dependency_implemented, none_) outside))
    | inr other ↦ rw (dependency_implemented, other) h
  ]

  pub set_result-Sound :
      (r.state ≡ implemented → Cleared b r.plan) → Sound b → Sound (set_result id r b)
  set_result-Sound clear sound x y e s =
      Later-Cleared b (set_result id r b) y.plan set_result-Later (elim (Bool-cases (id == x)) [
        | inl is ↦
            let same = some-injective _ _ (rw is at e) in
            subst (λ (z : PlanResult). Cleared b z.plan) same
              (clear (ap (λ (z : PlanResult). z.state) same ∙ s))
        | inr other ↦ sound x y (rw other at e) s
      ])

pub set_result-none :
    (id x : String) (r : PlanResult) (b : BatchState)
    → id ≢ x
    → b.results x ≡ none
    → (set_result id r b).results x ≡ none
set_result-none id x r b ne e = elim (Bool-cases (id == x)) [
  | inl is ↦ absurd (ne ((eq_iff id x).0 is))
  | inr other ↦ rw other e
]

pub first_missing-none :
    (b : BatchState) (deps : List String)
    → first_missing b deps ≡ none
    → All (λ dep. dependency_implemented b dep ≡ true) deps
unfolding first_missing
first_missing-none b [] e = tt
first_missing-none b (d ∷ deps) e = elim (Bool-cases (dependency_implemented b d)) [
  | inl h ↦ (h, first_missing-none b deps (rw (first_missing, h) at e))
  | inr n ↦ absurd (some-ne-none d (rw (first_missing, n) at e))
]
