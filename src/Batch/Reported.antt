-- ===== src/Batch/Reported.antt =====
-- The plans that Execute of internal/planbatch/execute.go reports.
use bachkator.Base.{
  String, Bool, true, false, Option, some, List, [], ◌∷◌, ◌++◌, ◌≡◌, refl, sym, ap, ◌∙◌, subst,
  arith, All, All-weaken, Option-cases, inl, inr, map,
}
use mathlib.Core.Option.{none-ne-some}
use mathlib.Core.List.{map-append}
use mathlib.Core.Bool.{true≢false}
use mathlib.Core.Path.{ap₂}
use bachkator.Plan.Types.{Document, StatusRecord}
use bachkator.Batch.{
  BatchState, PlanResult, ready_plans, skip, skip_all, new_batch_state, flush_wave, flush_remaining,
  sorted_results, wave_results, find_record, record_of, set_result, has_result, classify, unlinked,
}
use bachkator.Plan.Waves.Complete.{flat}
use bachkator.Batch.Filed.{
  Recorded, find_record-id, Filed, Keeps, set_result-Keeps, set_result-has, set_result-Filed,
  record_of-id, complete-Filed, skip-Filed, complete-Keeps, complete-has, skip-Keeps, skip-has,
  classify-Classified,
}
use bachkator.Batch.Runs.{
  Taken, first, later, WaveRun, finished, run_one, drop, Execute, at_end, done_before, skipped_wave,
  wave_done, wave_cancelled,
}

-- A list of plans with one taken out.
pub Taken-All :
    {A : Type 0} (P : A → Type 0) {x : A} {xs rest : List A}
    → Taken x xs rest
    → All P xs
    → P x × All P rest
Taken-All P first h = (h.0, h.1)
Taken-All P (later t) h = let (p, k) = Taken-All P t h.1 in (p, (h.0, k))

All-Taken :
    {A : Type 0} (P : A → Type 0) {x : A} {xs rest : List A}
    → Taken x xs rest
    → P x
    → All P rest
    → All P xs
All-Taken P first p h = (p, h)
All-Taken P (later t) p h = (h.0, All-Taken P t p h.1)

abbrev pub Ready : List StatusRecord → StatusRecord → Type 0
Ready rs r = find_record r.document.id rs ≡ some r

module _ (rs : List StatusRecord) (ws : List (List String)) where
  -- The plans of a wave have results afterwards, or are ready.
  pub ready_plans-Filed :
      (wave : List String) (b : BatchState)
      → Filed rs ws b
      → let ready = ready_plans wave b in
        Filed rs ws ready.1 × Keeps b ready.1 × All (Ready rs) ready.0
  unfolding ready_plans
  ready_plans-Filed [] b filed = (filed, λ x h. h, tt)
  ready_plans-Filed (id ∷ wave) b filed = elim (Option-cases (find_record id b.records)) [
    | inl e ↦ rw (ready_plans, e) (ready_plans-Filed wave b filed)
    | inr (r, e) ↦ elim (Option-cases (classify b r)) [
      | inl k ↦
          let (filed', keeps, ready) = ready_plans-Filed wave b filed in
          let is = find_record-id id b.records r e in
          let found : Ready rs r =
            subst (λ l. find_record r.document.id l ≡ some r) filed.same
              (ap (λ i. find_record i b.records) is ∙ e) in
          rw (ready_plans, e, k) (filed', keeps, (found, ready))
      | inr (x, k) ↦
          let is = find_record-id id b.records r e in
          let plan = ((classify-Classified b r).0 x k).0 in
          let (filed', keeps, ready) =
            ready_plans-Filed wave (set_result id x b)
              (set_result-Filed id x b rs ws (ap (λ (d : Document). d.id) plan ∙ is) filed) in
          rw (ready_plans, e, k) (filed', λ y h. keeps y (set_result-Keeps id x b y h), ready)
    ]
  ]

  abbrev Covered : List String → BatchState → List StatusRecord × BatchState → Type 0
  Covered wave b' ready =
      Keeps ready.1 b'
      → All (λ (r : StatusRecord). has_result b' r.document.id ≡ true) ready.0
      → All (λ x. has_result b' x ≡ true) wave

  pub ready_plans-covers :
      (wave : List String) (b b' : BatchState)
      → Filed rs ws b
      → All (Recorded rs) wave
      → Covered wave b' (ready_plans wave b)
  unfolding ready_plans
  ready_plans-covers [] b b' filed known = λ keeps done. tt
  ready_plans-covers (id ∷ wave) b b' filed known = elim (Option-cases (find_record id b.records)) [
    | inl e ↦
        let (r, e') = known.0 in
        absurd (none-ne-some r (sym e ∙ ap (find_record id) filed.same ∙ e'))
    | inr (r, e) ↦
        let is = find_record-id id b.records r e in
        elim (Option-cases (classify b r)) [
          | inl k ↦
              rw (ready_plans, e, k)
                (λ keeps done. (
                  subst (λ y. has_result b' y ≡ true) is done.0,
                  ready_plans-covers wave b b' filed known.1 keeps done.1,
                ))
          | inr (x, k) ↦
              let plan = ((classify-Classified b r).0 x k).0 in
              let filed' =
                set_result-Filed id x b rs ws (ap (λ (d : Document). d.id) plan ∙ is) filed in
              let (_, kept, _) = ready_plans-Filed wave (set_result id x b) filed' in
              rw (ready_plans, e, k)
                (λ keeps done. (
                  keeps id (kept id (set_result-has id x b)),
                  ready_plans-covers wave (set_result id x b) b' filed' known.1 keeps done,
                ))
        ]
  ]

  recorded : (r : StatusRecord) → Ready rs r → Recorded rs r.document.id
  recorded r e = (r, e)

  pub WaveRun-Filed :
      {work : List StatusRecord} {b b' : BatchState} {cancelled : Bool}
      → WaveRun work b b' cancelled
      → All (Ready rs) work
      → Filed rs ws b
      → Filed rs ws b' × Keeps b b'
  WaveRun-Filed finished ready filed = (filed, λ x h. h)
  WaveRun-Filed {b} (run_one {r} t exec error more) ready filed =
      let (p, rest) = Taken-All (Ready rs) t ready in
      let (filed', keeps) =
        WaveRun-Filed more rest
          (complete-Filed rs ws r.document.id (recorded r p) b filed exec error) in
      (filed', λ x h. keeps x (complete-Keeps r.document.id exec error b x h))
  WaveRun-Filed (drop t more) ready filed =
      WaveRun-Filed more (Taken-All (Ready rs) t ready).1 filed

  WaveRun-done :
      {work : List StatusRecord} {b b' : BatchState}
      → WaveRun work b b' false
      → All (Ready rs) work
      → Filed rs ws b
      → All (λ (r : StatusRecord). has_result b' r.document.id ≡ true) work
  WaveRun-done finished ready filed = tt
  WaveRun-done {b} (run_one {r} t exec error more) ready filed =
      let (p, rest) = Taken-All (Ready rs) t ready in
      let filed' = complete-Filed rs ws r.document.id (recorded r p) b filed exec error in
      let (_, keeps) = WaveRun-Filed more rest filed' in
      All-Taken _ t (keeps r.document.id (complete-has r.document.id exec error b))
        (WaveRun-done more rest filed')

  skip_all-Filed :
      (work : List StatusRecord) (b : BatchState)
      → All (Ready rs) work
      → Filed rs ws b
      → let b' = skip_all work b in
        Filed rs ws b'
        × Keeps b b'
        × All (λ (r : StatusRecord). has_result b' r.document.id ≡ true) work
  unfolding skip_all
  skip_all-Filed [] b ready filed = (filed, λ x h. h, tt)
  skip_all-Filed (r ∷ work) b ready filed =
      let reason : String = "batch stopped after earlier failure" in
      let (filed', keeps, done) =
        skip_all-Filed work (skip r.document.id reason b) ready.1
          (skip-Filed rs ws r.document.id (recorded r ready.0) b filed reason) in
      (
        filed',
        λ x h. keeps x (skip-Keeps r.document.id reason b x h),
        (keeps r.document.id (skip-has r.document.id reason b), done),
      )

  wave_results-ids :
      (b : BatchState) (wave : List String)
      → Filed rs ws b
      → All (λ x. has_result b x ≡ true) wave
      → map (λ (r : PlanResult). r.plan.id) (wave_results b wave) ≡ wave
  unfolding wave_results
  wave_results-ids b [] filed done = refl
  wave_results-ids b (id ∷ wave) filed done = elim (Option-cases (b.results id)) [
    | inl e ↦ absurd (true≢false (sym done.0 ∙ rw (has_result, e) refl))
    | inr (r, e) ↦
        rw (wave_results, e)
          (ground (arith, filed.named id r e, wave_results-ids b wave filed done.1))
  ]

  sorted_results-ids :
      (b : BatchState) (waves : List (List String))
      → Filed rs ws b
      → All (All (λ x. has_result b x ≡ true)) waves
      → map (λ (r : PlanResult). r.plan.id) (sorted_results b waves) ≡ flat waves
  unfolding sorted_results
  sorted_results-ids b [] filed done = refl
  sorted_results-ids b (wave ∷ waves) filed done =
      map-append _ (wave_results b wave) (sorted_results b waves)
      ∙ ap₂ ◌++◌ (wave_results-ids b wave filed done.0) (sorted_results-ids b waves filed done.1)

  flush_wave-ids :
      (error : String) (b : BatchState) (wave : List String)
      → Filed rs ws b
      → All (Recorded rs) wave
      → map (λ (r : PlanResult). r.plan.id) (flush_wave error b wave) ≡ wave
  unfolding flush_wave unlinked
  flush_wave-ids error b [] filed known = refl
  flush_wave-ids error b (id ∷ wave) filed known = elim (Option-cases (b.results id)) [
    | inl e ↦
        let is : (record_of id b.records).document.id ≡ id =
          ap (λ l. (record_of id l).document.id) filed.same ∙ record_of-id id rs known.0 in
        rw (flush_wave, e) (ap₂ (λ x l. x ∷ l) is (flush_wave-ids error b wave filed known.1))
    | inr (r, e) ↦
        rw (flush_wave, e)
          (ap₂ (λ x l. x ∷ l) (filed.named id r e) (flush_wave-ids error b wave filed known.1))
  ]

  flush_remaining-ids :
      (error : String) (b : BatchState) (waves : List (List String))
      → Filed rs ws b
      → All (All (Recorded rs)) waves
      → map (λ (r : PlanResult). r.plan.id) (flush_remaining error b waves) ≡ flat waves
  unfolding flush_remaining
  flush_remaining-ids error b [] filed known = refl
  flush_remaining-ids error b (wave ∷ waves) filed known =
      map-append _ (flush_wave error b wave) (flush_remaining error b waves)
      ∙ ap₂ ◌++◌ (flush_wave-ids error b wave filed known.0)
          (flush_remaining-ids error b waves filed known.1)

  -- The batch reports the plans of its waves in their order, each once for each place that it has
  -- there, however it ends.
  Execute-ids :
      {stop_on : String} {waves : List (List String)} {stopped : Bool} {b b' : BatchState}
      {plans : List PlanResult} {error : Option String}
      → Execute stop_on waves stopped b b' plans error
      → Filed rs ws b
      → All (All (Recorded rs)) ws
      → All (All (Recorded rs)) waves
      → ((c : BatchState)
          → Keeps b c
          → All (All (λ x. has_result c x ≡ true)) waves
          → All (All (λ x. has_result c x ≡ true)) ws)
      → map (λ (r : PlanResult). r.plan.id) plans ≡ flat ws
  Execute-ids {b} at_end filed all known covered =
      subst (λ l. map (λ (r : PlanResult). r.plan.id) (sorted_results b l) ≡ flat ws)
        (sym filed.layout) (sorted_results-ids b ws filed (covered b (λ x h. h) tt))
  Execute-ids {b} (done_before error) filed all known covered =
      subst (λ l. map (λ (r : PlanResult). r.plan.id) (flush_remaining error b l) ≡ flat ws)
        (sym filed.layout) (flush_remaining-ids error b ws filed all)
  Execute-ids (skipped_wave {wave} {b} more) filed all known covered =
      let (filed₁, kept₁, ready) = ready_plans-Filed wave b filed in
      let (filed₂, kept₂, done) =
        skip_all-Filed (ready_plans wave b).0 (ready_plans wave b).1 ready filed₁ in
      Execute-ids more filed₂ all known.1 λ c k rest.
        covered c (λ x h. k x (kept₂ x (kept₁ x h)))
          (
            ready_plans-covers wave b c filed known.0 (λ x h. k x (kept₂ x h))
                (All-weaken _ _ (ready_plans wave b).0 (λ (r : StatusRecord) h. k r.document.id h)
                  done),
            rest,
          )
  Execute-ids (wave_done {wave} {b} {b₁} run more) filed all known covered =
      let (filed₁, kept₁, ready) = ready_plans-Filed wave b filed in
      let (filed₂, kept₂) = WaveRun-Filed run ready filed₁ in
      let done = WaveRun-done run ready filed₁ in
      Execute-ids more filed₂ all known.1 λ c k rest.
        covered c (λ x h. k x (kept₂ x (kept₁ x h)))
          (
            ready_plans-covers wave b c filed known.0 (λ x h. k x (kept₂ x h))
                (All-weaken _ _ (ready_plans wave b).0 (λ (r : StatusRecord) h. k r.document.id h)
                  done),
            rest,
          )
  Execute-ids (wave_cancelled {wave} {b} {b₁} error run) filed all known covered =
      let (filed₁, kept₁, ready) = ready_plans-Filed wave b filed in
      let (filed₂, _) = WaveRun-Filed run ready filed₁ in
      subst (λ l. map (λ (r : PlanResult). r.plan.id) (flush_remaining error b₁ l) ≡ flat ws)
        (sym filed₂.layout) (flush_remaining-ids error b₁ ws filed₂ all)

-- A batch that starts without results reports the ids of its waves, in the order of the waves, each
-- once for each place that it has there, on every end: also where the context is done, where plans
-- fail and where the batch stops. Each id of the waves must have a record.
pub Execute-reports :
    {stop_on : String} (force : Bool) (rs : List StatusRecord) (waves : List (List String))
    (external : String → Bool) {b' : BatchState} {plans : List PlanResult} {error : Option String}
    → All (All (Recorded rs)) waves
    → Execute stop_on waves false (new_batch_state force rs waves external) b' plans error
    → map (λ (r : PlanResult). r.plan.id) plans ≡ flat waves
unfolding new_batch_state
Execute-reports force rs waves external known run =
    Execute-ids rs waves run
      (record { same = refl; layout = refl; named = λ id r e. absurd (none-ne-some r e) }) known
      known λ c k rest. rest
