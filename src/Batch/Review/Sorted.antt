-- ===== src/Batch/Review/Sorted.antt =====
-- The queues of internal/planbatch/review.go.
use bachkator.Base.{
  String, Bool, true, ◌&&◌, ◌||◌, not, List, [], ◌∷◌, ◌==◌, ◌≡◌, refl, arith, eq_iff, map, select,
  All, Bool-cases, inl, inr, ◌⊎◌,
}
use bachkator.Plan.Ledgers
use bachkator.Batch.{PlanResult, already_implemented, failed, blocked, skipped}
use bachkator.Batch.Review.{ReviewItem, review, review_state, review_item_for_result, has_any}

-- The states that a batch gives to a plan.
abbrev pub known_state : PlanResult → Bool
known_state r =
    (r.state == Ledgers.implemented)
    || (r.state == already_implemented)
    || (r.state == failed)
    || (r.state == blocked)
    || (r.state == skipped)

abbrev in_state : String → PlanResult → Bool
in_state s r = r.state == s

-- The items of the results that pass a test, in the order of the results.
abbrev pub items : (PlanResult → Bool) → List PlanResult → List ReviewItem
items test rs = map review_item_for_result (select test rs)

state-cases :
    (r : PlanResult)
    → known_state r ≡ true
    → (r.state ≡ Ledgers.implemented)
      ⊎ (r.state ≡ already_implemented)
      ⊎ (r.state ≡ failed)
      ⊎ (r.state ≡ blocked)
      ⊎ (r.state ≡ skipped)
state-cases r k =
    let is : (s : String) → (r.state == s) ≡ true → r.state ≡ s = λ s e. (eq_iff r.state s).0 e in
    elim (Bool-cases (r.state == Ledgers.implemented)) [
      | inl e ↦ inl (is Ledgers.implemented e)
      | inr n₁ ↦ elim (Bool-cases (r.state == already_implemented)) [
        | inl e ↦ inr (inl (is already_implemented e))
        | inr n₂ ↦ elim (Bool-cases (r.state == failed)) [
          | inl e ↦ inr (inr (inl (is failed e)))
          | inr n₃ ↦ elim (Bool-cases (r.state == blocked)) [
            | inl e ↦ inr (inr (inr (inl (is blocked e))))
            | inr n₄ ↦ inr (inr (inr (inr (is skipped (ground (arith, k, n₁, n₂, n₃, n₄))))))
          ]
        ]
      ]
    ]

-- For results with the states that a batch gives, each queue holds the items of its results in
-- their order: the plans implemented without diagnostics; those with diagnostics, to be reviewed;
-- the failed ones; the blocked ones; and those skipped or implemented before.
pub review-sorts :
    (rs : List PlanResult)
    → All (λ r. known_state r ≡ true) rs
    → (review rs ≡ record {
      implemented_ones =
          items (λ r. (r.state == Ledgers.implemented) && not (has_any r.diagnostics)) rs;
      needs_review_ones = items (λ r. (r.state == Ledgers.implemented) && has_any r.diagnostics) rs;
      failed_ones = items (λ r. r.state == failed) rs;
      blocked_ones = items (λ r. r.state == blocked) rs;
      skipped_ones = items (λ r. (r.state == already_implemented) || (r.state == skipped)) rs;
    })
unfolding review review_state
review-sorts [] known = refl
review-sorts (r ∷ rs) known = elim (state-cases r known.0) [
  | inl e ↦ elim (Bool-cases (has_any r.diagnostics)) [
    | inl d ↦ rw (review, review_state, e, d) (rw (review-sorts rs known.1) refl)
    | inr d ↦ rw (review, review_state, e, d) (rw (review-sorts rs known.1) refl)
  ]
  | inr (inl e) ↦ rw (review, review_state, e) (rw (review-sorts rs known.1) refl)
  | inr (inr (inl e)) ↦ rw (review, review_state, e) (rw (review-sorts rs known.1) refl)
  | inr (inr (inr (inl e))) ↦ rw (review, review_state, e) (rw (review-sorts rs known.1) refl)
  | inr (inr (inr (inr e))) ↦ rw (review, review_state, e) (rw (review-sorts rs known.1) refl)
]
