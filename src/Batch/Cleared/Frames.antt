-- ===== src/Batch/Cleared/Frames.antt =====
-- What a wave of internal/planbatch/execute.go does to the state of a batch.
use bachkator.Base.{
  String, Bool, none, some, List, [], ◌∷◌, ◌≡◌, ◌≢◌, refl, sym, ap, ◌∙◌, subst, All, Each,
  All-weaken, text_ne, Option-cases, inl, inr,
}
use bachkator.Plan.Types.{StatusRecord}
use bachkator.Plan.Ledgers.{implemented}
use bachkator.Batch.{
  BatchState, PlanResult, ready_plans, complete, skip, skip_all, find_record, record_of, set_result,
  completed, classify, skipped, unlinked,
}
use bachkator.Batch.Filed.{classify-Classified, find_record-id}
use bachkator.Batch.Runs.{Taken, first, later, WaveRun, finished, run_one, drop}
use bachkator.Batch.Reported.{Taken-All}
use bachkator.Batch.Cleared.{
  Cleared, Sound, Fresh, Later, Later-Cleared, set_result-Later, set_result-Sound, set_result-none,
  first_missing-none,
}

-- An id is none of some ids.
abbrev pub Apart : List String → String → Type 0
Apart xs x = All (λ y. y ≢ x) xs

flip : (x : String) (xs : List String) → All (λ y. x ≢ y) xs → Apart xs x
flip x xs h = All-weaken _ _ xs (λ y n e. n (sym e)) h

-- A plan that may run: its dependencies are implemented, and it has no result yet.
abbrev pub Runnable : BatchState → StatusRecord → Type 0
Runnable b r =
    Cleared b r.document × Fresh b r.document.id × (find_record r.document.id b.records ≡ some r)

-- A state after another, with the results of some ids.
pub record After (ids : List String) (b b' : BatchState) : Type 0 where
  pub sound : Sound b'
  pub later : Later b b'
  pub others : (x : String) → Apart ids x → b.results x ≡ none → b'.results x ≡ none
  pub outside : b'.external ≡ b.external
  pub records : b'.records ≡ b.records

-- What readyPlans returns for a wave.
pub record Prepared (wave : List String) (b : BatchState) (p : List StatusRecord × BatchState)
    : Type 1 where
  pub after : After wave b p.1
  pub runnable : All (Runnable p.1) p.0
  pub distinct : Each (λ (r s : StatusRecord). r.document.id ≢ s.document.id) p.0
  pub among : (P : String → Type 0) → All P wave → All (λ (r : StatusRecord). P r.document.id) p.0

pub ready_plans-Prepared :
    (wave : List String) (b : BatchState)
    → Sound b
    → All (Fresh b) wave
    → Each (λ x y. x ≢ y) wave
    → Prepared wave b (ready_plans wave b)
unfolding ready_plans
ready_plans-Prepared [] b sound fresh apart = record {
  after = record {
    sound = sound;
    later = λ x h. h;
    others = λ x a e. e;
    outside = refl;
    records = refl;
  };
  runnable = tt;
  distinct = tt;
  among = λ P h. tt;
}
ready_plans-Prepared (id ∷ wave) b sound fresh apart =
    elim (Option-cases (find_record id b.records)) [
      | inl e ↦
          let q = ready_plans-Prepared wave b sound fresh.1 apart.1 in
          rw (ready_plans, e)
            (record {
              after = record {
                sound = q.after.sound;
                later = q.after.later;
                others = λ x a. q.after.others x a.1;
                outside = q.after.outside;
                records = q.after.records;
              };
              runnable = q.runnable;
              distinct = q.distinct;
              among = λ P h. q.among P h.1;
            })
      | inr (r, e) ↦
          let is = find_record-id id b.records r e in
          elim (Option-cases (classify b r)) [
            | inl k ↦
                let q = ready_plans-Prepared wave b sound fresh.1 apart.1 in
                let clear =
                  first_missing-none b r.document.depends_on ((classify-Classified b r).1 k).2 in
                let b' = (ready_plans wave b).1 in
                let none' = q.after.others id (flip id wave apart.0) (fresh.0).0 in
                let outside' = ap (λ f. f id) q.after.outside ∙ (fresh.0).1 in
                rw (ready_plans, e, k)
                  (record {
                    after = record {
                      sound = q.after.sound;
                      later = q.after.later;
                      others = λ x a. q.after.others x a.1;
                      outside = q.after.outside;
                      records = q.after.records;
                    };
                    runnable = (
                      (
                        Later-Cleared b b' r.document q.after.later clear,
                        subst (Fresh b') (sym is) (none', outside'),
                        ap (find_record r.document.id) q.after.records
                            ∙ ap (λ i. find_record i b.records) is
                            ∙ e,
                      ),
                      q.runnable,
                    );
                    distinct = (
                      q.among (λ y. r.document.id ≢ y)
                          (All-weaken _ _ wave (λ y n h. n (sym is ∙ h)) apart.0),
                      q.distinct,
                    );
                    among = λ P h. (subst P (sym is) h.0, q.among P h.1);
                  })
            | inr (x, k) ↦
                let (plan, not_run) = (classify-Classified b r).0 x k in
                let b₁ = set_result id x b in
                let sound₁ = set_result-Sound id x b fresh.0 (λ s. absurd (not_run s)) sound in
                let fresh₁ : All (Fresh b₁) wave = fresh-rest id x b wave apart.0 fresh.1 in
                let q = ready_plans-Prepared wave b₁ sound₁ fresh₁ apart.1 in
                rw (ready_plans, e, k)
                  (record {
                    after = record {
                      sound = q.after.sound;
                      later = λ y h. q.after.later y (set_result-Later id x b fresh.0 y h);
                      others = λ y a n. q.after.others y a.1 (set_result-none id y x b a.0 n);
                      outside = q.after.outside;
                      records = q.after.records;
                    };
                    runnable = q.runnable;
                    distinct = q.distinct;
                    among = λ P h. q.among P h.1;
                  })
          ]
    ]
  where
    fresh-rest :
        (id : String) (x : PlanResult) (b : BatchState) (wave : List String)
        → All (λ y. id ≢ y) wave
        → All (Fresh b) wave
        → All (Fresh (set_result id x b)) wave
    fresh-rest id x b [] n f = tt
    fresh-rest id x b (y ∷ wave) n f =
        ((set_result-none id y x b n.0 (f.0).0, (f.0).1), fresh-rest id x b wave n.1 f.1)

-- A list of plans with one taken out, whose ids are distinct.
Taken-distinct :
    {r : StatusRecord} {xs rest : List StatusRecord}
    → Taken r xs rest
    → Each (λ (x y : StatusRecord). x.document.id ≢ y.document.id) xs
    → All (λ (y : StatusRecord). r.document.id ≢ y.document.id) rest
      × Each (λ (x y : StatusRecord). x.document.id ≢ y.document.id) rest
Taken-distinct first h = (h.0, h.1)
Taken-distinct (later t) h =
    let (p, k) = Taken-distinct t h.1 in
    let (n, others) = Taken-All _ t h.0 in ((λ e. n (sym e), p), (others, k))

module _ (id : String) (x : PlanResult) (b : BatchState) (fresh : Fresh b id) where
  Runnable-rest :
      (work : List StatusRecord)
      → All (λ (y : StatusRecord). id ≢ y.document.id) work
      → All (Runnable b) work
      → All (Runnable (set_result id x b)) work
  Runnable-rest [] n h = tt
  Runnable-rest (r ∷ work) n h = (
    (
      Later-Cleared b (set_result id x b) r.document (set_result-Later id x b fresh) (h.0).0,
      (set_result-none id r.document.id x b n.0 ((h.0).1).0, ((h.0).1).1),
      (h.0).2,
    ),
    Runnable-rest work n.1 h.1,
  )

abbrev pub ids_of : List StatusRecord → List String
ids_of [] = []
ids_of (r ∷ rs) = r.document.id ∷ ids_of rs

Apart-Taken :
    {r : StatusRecord} {work rest : List StatusRecord} (x : String)
    → Taken r work rest
    → Apart (ids_of work) x
    → (r.document.id ≢ x) × Apart (ids_of rest) x
Apart-Taken x first a = (a.0, a.1)
Apart-Taken x (later t) a = let (n, k) = Apart-Taken x t a.1 in (n, (a.0, k))

record_of-Ready :
    (r : StatusRecord) (b : BatchState)
    → find_record r.document.id b.records ≡ some r
    → record_of r.document.id b.records ≡ r
unfolding record_of
record_of-Ready r b e = rw (record_of, e) refl

-- The end of a run puts a result under an id of the wave.
pub WaveRun-After :
    {work : List StatusRecord} {b b' : BatchState} {cancelled : Bool}
    → WaveRun work b b' cancelled
    → Sound b
    → All (Runnable b) work
    → Each (λ (r s : StatusRecord). r.document.id ≢ s.document.id) work
    → After (ids_of work) b b'
unfolding complete
WaveRun-After finished sound runnable distinct = record {
  sound = sound;
  later = λ x h. h;
  others = λ x a e. e;
  outside = refl;
  records = refl;
}
WaveRun-After {b} (run_one {r} t exec error more) sound runnable distinct =
    let (can, rest) = Taken-All (Runnable b) t runnable in
    let (n, distinct') = Taken-distinct t distinct in
    let id = r.document.id in
    let x = completed id exec error b in
    let is = record_of-Ready r b can.2 in
    let q =
      WaveRun-After more
        (set_result-Sound id x b can.1
          (λ _. subst (λ (z : StatusRecord). Cleared b z.document) (sym is) can.0) sound)
        (Runnable-rest id x b can.1 _ n rest) distinct' in
    record {
      sound = q.sound;
      later = λ y h. q.later y (set_result-Later id x b can.1 y h);
      others =
          λ y a e. let (m, a') = Apart-Taken y t a in q.others y a' (set_result-none id y x b m e);
      outside = q.outside;
      records = q.records;
    }
WaveRun-After {b} (drop {r} t more) sound runnable distinct =
    let q =
      WaveRun-After more sound (Taken-All (Runnable b) t runnable).1
        (Taken-distinct t distinct).1 in
    record {
      sound = q.sound;
      later = q.later;
      others = λ y a e. q.others y (Apart-Taken y t a).1 e;
      outside = q.outside;
      records = q.records;
    }

pub skip_all-After :
    (work : List StatusRecord) (b : BatchState)
    → Sound b
    → All (Runnable b) work
    → Each (λ (r s : StatusRecord). r.document.id ≢ s.document.id) work
    → After (ids_of work) b (skip_all work b)
unfolding skip_all skip unlinked
skip_all-After [] b sound runnable distinct = record {
  sound = sound;
  later = λ x h. h;
  others = λ x a e. e;
  outside = refl;
  records = refl;
}
skip_all-After (r ∷ work) b sound runnable distinct =
    let id = r.document.id in
    let x = unlinked (record_of id b.records) skipped "batch stopped after earlier failure" in
    let fresh = (runnable.0).1 in
    let q =
      skip_all-After work (set_result id x b)
        (set_result-Sound id x b fresh (λ s. absurd (text_ne skipped implemented refl s)) sound)
        (Runnable-rest id x b fresh work distinct.0 runnable.1) distinct.1 in
    record {
      sound = q.sound;
      later = λ y h. q.later y (set_result-Later id x b fresh y h);
      others = λ y a e. q.others y a.1 (set_result-none id y x b a.0 e);
      outside = q.outside;
      records = q.records;
    }
