-- ===== src/Batch/Cleared/Ordered.antt =====
-- Execute of internal/planbatch/execute.go runs a plan after its dependencies.
use bachkator.Base.{
  String, Bool, true, false, Option, some, List, [], ◌∷◌, ◌++◌, ◌==◌, ◌≡◌, ◌≢◌, refl, ap, ◌∙◌,
  arith, eq_iff, All, Each, All-weaken, All-intro, All-In, In, inl, inr, In-cons, map, exists,
}
use mathlib.Core.Option.{none-ne-some}
use bachkator.Plan.Types.{Document, StatusRecord}
use bachkator.Plan.Waves.Complete.{flat}
use bachkator.Plan.Ledgers.{implemented}
use bachkator.Batch.{
  BatchState, PlanResult, ready_plans, new_batch_state, external_dep, dependency_implemented,
}
use bachkator.Batch.Runs.{Execute, at_end, done_before, skipped_wave, wave_done, wave_cancelled}
use bachkator.Batch.Cleared.{Sound, Fresh}
use bachkator.Batch.Cleared.Frames.{
  Apart, After, Prepared, ids_of, ready_plans-Prepared, WaveRun-After, skip_all-After,
}

All-split {ℓ κ} :
    {A : Type ℓ} (P : A → Type κ) (xs ys : List A) → All P (xs ++ ys) → All P xs × All P ys
All-split P [] ys h = (tt, h)
All-split P (x ∷ xs) ys h = let (p, q) = All-split P xs ys h.1 in ((h.0, p), q)

Each-split {ℓ κ} :
    {A : Type ℓ} (R : A → A → Type κ) (xs ys : List A)
    → Each R (xs ++ ys)
    → Each R xs × Each R ys × All (λ x. All (R x) ys) xs
Each-split R [] ys h = (tt, h, tt)
Each-split R (x ∷ xs) ys h =
    let (a, b) = All-split (R x) xs ys h.0 in
    let (p, q, r) = Each-split R xs ys h.1 in ((a, p), q, (b, r))

-- The ids of later waves are apart from those of a wave.
transposed : (xs ys : List String) → All (λ x. All (λ y. x ≢ y) ys) xs → All (Apart xs) ys
transposed [] ys h = All-intro (Apart []) ys (λ y m. tt)
transposed (x ∷ xs) ys h =
    All-intro (Apart (x ∷ xs)) ys
      λ y m. (All-In (λ y. x ≢ y) ys h.0 m, All-In (Apart xs) ys (transposed xs ys h.1) m)

Apart-ids_of :
    (x : String) (work : List StatusRecord)
    → All (λ (r : StatusRecord). r.document.id ≢ x) work
    → Apart (ids_of work) x
Apart-ids_of x [] h = tt
Apart-ids_of x (r ∷ work) h = (h.0, Apart-ids_of x work h.1)

module _ (wave later_ : List String) (b : BatchState) (sound : Sound b)
    (fresh : All (Fresh b) (wave ++ later_)) (distinct : Each (λ x y. x ≢ y) (wave ++ later_)) where
  prepared : Prepared wave b (ready_plans wave b)
  prepared =
      ready_plans-Prepared wave b sound (All-split (Fresh b) wave later_ fresh).0
        (Each-split (λ x y. x ≢ y) wave later_ distinct).0

  -- The ids of later waves stay fresh.
  stays :
      (b' : BatchState)
      → After (ids_of (ready_plans wave b).0) (ready_plans wave b).1 b'
      → All (Fresh b') later_
  stays b' after =
      let q = prepared in
      let apart = transposed wave later_ (Each-split (λ x y. x ≢ y) wave later_ distinct).2 in
      let was = (All-split (Fresh b) wave later_ fresh).1 in
      All-intro (Fresh b') later_ λ x m.
        let a = All-In (Apart wave) later_ apart m in
        let f = All-In (Fresh b) later_ was m in
        (
          after.others x (Apart-ids_of x (ready_plans wave b).0 (q.among (λ y. y ≢ x) a))
              (q.after.others x a f.0),
          ap (λ g. g x) (after.outside ∙ q.after.outside) ∙ f.1,
        )

Execute-Sound :
    {stop_on : String} {waves : List (List String)} {stopped : Bool} {b b' : BatchState}
    {plans : List PlanResult} {error : Option String}
    → Execute stop_on waves stopped b b' plans error
    → Sound b
    → All (Fresh b) (flat waves)
    → Each (λ x y. x ≢ y) (flat waves)
    → Sound b'
Execute-Sound at_end sound fresh distinct = sound
Execute-Sound (done_before error) sound fresh distinct = sound
Execute-Sound (skipped_wave {wave} {waves} {b} more) sound fresh distinct =
    let q = prepared wave (flat waves) b sound fresh distinct in
    let after =
      skip_all-After (ready_plans wave b).0 (ready_plans wave b).1 q.after.sound q.runnable
        q.distinct in
    Execute-Sound more after.sound (stays wave (flat waves) b sound fresh distinct _ after)
      (Each-split (λ x y. x ≢ y) wave (flat waves) distinct).1
Execute-Sound (wave_done {wave} {waves} {b} {b₁} run more) sound fresh distinct =
    let q = prepared wave (flat waves) b sound fresh distinct in
    let after = WaveRun-After run q.after.sound q.runnable q.distinct in
    Execute-Sound more after.sound (stays wave (flat waves) b sound fresh distinct b₁ after)
      (Each-split (λ x y. x ≢ y) wave (flat waves) distinct).1
Execute-Sound (wave_cancelled {wave} {waves} {b} {b₁} error run) sound fresh distinct =
    let q = prepared wave (flat waves) b sound fresh distinct in
    (WaveRun-After run q.after.sound q.runnable q.distinct).sound

external-selected :
    (docs ds : List Document) (status : String → String) (x : String)
    → In x (map (λ (d : Document). d.id) docs)
    → external_dep docs status ds x ≡ false
unfolding external_dep
external-selected docs [] status x m = refl
external-selected docs (d ∷ ds) status x m =
    ground (arith, external-selected docs ds status x m, is-selected docs x m)
  where
    is-selected :
        (docs : List Document) (x : String)
        → In x (map (λ (d : Document). d.id) docs)
        → exists (λ (d : Document). d.id == x) docs ≡ true
    is-selected [] x m = elim m [ ]
    is-selected (d ∷ docs) x m = elim (In-cons m) [
      | inl e ↦ ground (arith, eq_iff d.id x, e)
      | inr m' ↦ ground (arith, is-selected docs x m')
    ]

-- In a batch over selected documents whose waves name no id twice, each plan with the result
-- implemented has dependencies that are all implemented: in the batch, before or now, or, those
-- that are not selected, by their ledgers. This holds at every end of the batch, whatever the
-- results of the runs and in whatever order they end.
pub Execute-dependencies :
    {stop_on : String} (force : Bool) (docs : List Document) (rs : List StatusRecord)
    (waves : List (List String)) (ledger_status : String → String) {b' : BatchState}
    {plans : List PlanResult} {error : Option String}
    → All (λ x. In x (map (λ (d : Document). d.id) docs)) (flat waves)
    → Each (λ x y. x ≢ y) (flat waves)
    → Execute stop_on waves false
        (new_batch_state force rs waves (external_dep docs ledger_status docs))
        b'
        plans
        error
    → (id : String) (r : PlanResult) → b'.results id ≡ some r
    → r.state ≡ implemented
    → All (λ dep. dependency_implemented b' dep ≡ true) r.plan.depends_on
unfolding new_batch_state
Execute-dependencies force docs rs waves ledger_status known distinct run =
    Execute-Sound run (λ id r e. absurd (none-ne-some r e))
      (All-weaken _ _ (flat waves) (λ x m. (refl, external-selected docs docs ledger_status x m))
        known)
      distinct
