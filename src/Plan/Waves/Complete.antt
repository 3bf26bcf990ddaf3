-- ===== src/Plan/Waves/Complete.antt =====
-- The end of the loop of waves in internal/plan/graph.go: the ids that no wave holds.
use bachkator.Base.{
  ℕ, zero, suc, String, Bool, true, false, ◌&&◌, ◌||◌, not, some, List, [], ◌∷◌, ◌++◌, ◌==◌, ◌≡◌,
  refl, sym, ap, ◌∙◌, subst, arith, eq_iff, if-elim, and_true, and_intro, Bool-cases, Option-cases,
  inl, inr, insert_by, order_by, str_lt,
}
use mathlib.Core.Option.{some-injective, none-ne-some}
use bachkator.Plan.Waves.{
  Progress, Waiting, holds, add, waits_for, release_one, release_all, process, run_wave, run_waves,
  is_empty,
}
use bachkator.Plan.Waves.Marks.{
  holds-add, holds-marks, release_one-processed, release_all-processed, run_wave-processed,
}
use bachkator.Plan.Waves.Order.{holds-append}
use bachkator.Plan.Waves.Waits.{without, holds-remove, waits_for-without, has_entry}

abbrev pub all_empty : String → Progress → Bool
all_empty x p = has_entry x p.remaining && is_empty (waits_for x p.remaining)

-- Without a dependency to wait for, an id is processed, or stands in this wave or the next.
abbrev Placed : List String → Progress → Type 0
Placed wave p =
    (x : String)
    → all_empty x p ≡ true
    → (holds x p.processed || holds x p.next || holds x wave) ≡ true

has_entry-without :
    (id d x : String) (es : List Waiting) → has_entry x (without id d es) ≡ has_entry x es
has_entry-without id d x [] = refl
has_entry-without id d x (e ∷ es) = ground (arith, has_entry-without id d x es)

release_one-remaining :
    (id d : String) (p : Progress) → (release_one id d p).remaining ≡ without id d p.remaining
unfolding release_one
release_one-remaining id d p =
    if-elim (λ (q : Progress). q.remaining ≡ without id d p.remaining) _ (λ _. refl) λ _. refl

-- A dependency that is waited for is not processed.
abbrev pub Unmet : (String → List String) → Progress → Type 0
Unmet deps p =
    (d x : String)
    → holds d (waits_for x p.remaining) ≡ true
    → (holds x (deps d) && not (holds d p.processed)) ≡ true

release_one-holds :
    (id d x : String) (p : Progress)
    → holds x (release_one id d p).next ≡ (
        holds x p.next
        || ((d == x)
            && is_empty (waits_for d (without id d p.remaining))
            && not (holds d p.processed)))
unfolding release_one holds
release_one-holds id d x p =
    if-elim
      (λ (q : Progress). holds x q.next ≡ (
        holds x p.next
        || ((d == x)
            && is_empty (waits_for d (without id d p.remaining))
            && not (holds d p.processed))))
      (is_empty (waits_for d (without id d p.remaining)) && not (holds d p.processed))
      (λ e. ground (arith, e, holds-append x p.next (d ∷ []))) λ e. ground (arith, e)

release_one-Placed :
    (wave : List String) (id d : String) (p : Progress)
    → Placed wave p
    → Placed wave (release_one id d p)
release_one-Placed wave id d p placed x e =
    let es = p.remaining in
    let (k, empty) =
      and_true (has_entry x (release_one id d p).remaining)
        (is_empty (waits_for x (release_one id d p).remaining)) e in
    let k' : has_entry x es ≡ true =
      sym (has_entry-without id d x es)
      ∙ ap (has_entry x) (sym (release_one-remaining id d p))
      ∙ k in
    let empty' : is_empty (waits_for x (without id d es)) ≡ true =
      ap (λ l. is_empty (waits_for x l)) (sym (release_one-remaining id d p)) ∙ empty in
    elim (Bool-cases (d == x)) [
      | inl is ↦
          let is' = (eq_iff d x).0 is in
          let here_ : is_empty (waits_for d (without id d es)) ≡ true =
            ap (λ y. is_empty (waits_for y (without id d es))) is' ∙ empty' in
          ground (
            arith,
            is,
            here_,
            release_one-holds id d x p,
            ap (holds x) (release_one-processed id d p),
            ap (λ y. holds y p.processed) is',
          )
      | inr other ↦
          let same : waits_for x (without id d es) ≡ waits_for x es =
            waits_for-without id d x es ∙ rw other refl in
          let before : is_empty (waits_for x es) ≡ true = ap is_empty (sym same) ∙ empty' in
          ground (
            arith,
            placed x (and_intro _ _ k' before),
            release_one-holds id d x p,
            ap (holds x) (release_one-processed id d p),
          )
    ]

release_all-Placed :
    (wave : List String) (id : String) (ds : List String) (p : Progress)
    → Placed wave p
    → Placed wave (release_all id ds p)
unfolding release_all
release_all-Placed wave id [] p h = h
release_all-Placed wave id (d ∷ ds) p h =
    release_all-Placed wave id ds (release_one id d p) (release_one-Placed wave id d p h)

release_all-waits :
    (id : String) (ds : List String) (p : Progress) (d x : String)
    → holds d (waits_for x (release_all id ds p).remaining)
      ≡ (holds d (waits_for x p.remaining) && not ((id == d) && holds x ds))
unfolding release_all holds
release_all-waits id [] p d x = ground arith
release_all-waits id (y ∷ ds) p d x =
    let es = p.remaining in
    let step : holds d (waits_for x (release_one id y p).remaining)
        ≡ (holds d (waits_for x es) && not ((id == d) && (y == x))) =
      ap (λ l. holds d (waits_for x l)) (release_one-remaining id y p)
      ∙ ap (holds d) (waits_for-without id y x es)
      ∙ if-elim (λ l. holds d l ≡ (holds d (waits_for x es) && not ((id == d) && (y == x))))
          (y == x) (λ e. ground (arith, e, holds-remove d id (waits_for x es)))
          (λ e. ground (arith, e)) in
    ground (arith, release_all-waits id ds (release_one id y p) d x, step)

release_all-has_entry :
    (id : String) (ds : List String) (p : Progress) (x : String)
    → has_entry x (release_all id ds p).remaining ≡ has_entry x p.remaining
unfolding release_all
release_all-has_entry id [] p x = refl
release_all-has_entry id (d ∷ ds) p x =
    release_all-has_entry id ds (release_one id d p) x
    ∙ ap (has_entry x) (release_one-remaining id d p)
    ∙ has_entry-without id d x p.remaining

module _ (deps : String → List String) where
  -- The loop over a wave.
  process-keeps :
      (id : String) (wave : List String) (p : Progress)
      → Placed (id ∷ wave) p
      → Unmet deps p
      → Placed wave (process deps id p) × Unmet deps (process deps id p)
  unfolding process holds
  process-keeps id wave p placed unmet =
      let p' : Progress = record p { processed = add id p.processed } in
      (
        release_all-Placed wave id (deps id) p'
            λ x e. ground (arith, placed x e, holds-add x id p.processed),
        λ d x e.
            let was = release_all-waits id (deps id) p' d x in
            let done = ap (holds d) (release_all-processed id (deps id) p') in
            let same : (id == d) ≡ true → holds x (deps id) ≡ holds x (deps d) =
              λ k. ap (λ y. holds x (deps y)) ((eq_iff id d).0 k) in
            ground (arith, e, was, unmet d x, done, same, holds-add d id p.processed),
      )

  run_wave-keeps :
      (wave : List String) (p : Progress)
      → Placed wave p
      → Unmet deps p
      → Placed [] (run_wave deps wave p) × Unmet deps (run_wave deps wave p)
  unfolding run_wave
  run_wave-keeps [] p placed unmet = (placed, unmet)
  run_wave-keeps (id ∷ wave) p placed unmet =
      let (placed', unmet') = process-keeps id wave p placed unmet in
      run_wave-keeps wave (process deps id p) placed' unmet'

holds-insert_by :
    (x y : String) (xs : List String) → holds x (insert_by str_lt y xs) ≡ ((y == x) || holds x xs)
unfolding holds
holds-insert_by x y [] = refl
holds-insert_by x y (z ∷ xs) = ground (arith, holds-insert_by x y xs)

holds-order_by : (x : String) (xs : List String) → holds x (order_by str_lt xs) ≡ holds x xs
unfolding holds
holds-order_by x [] = refl
holds-order_by x (y ∷ xs) =
    ground (arith, holds-insert_by x y (order_by str_lt xs), holds-order_by x xs)

abbrev pub flat : List (List String) → List String
flat [] = []
flat (wave ∷ rest) = wave ++ flat rest

-- What holds at the end of the loop.
pub record Ended (deps : String → List String) (es : List Waiting) (old : List String)
    (r : List (List String) × Progress) : Type 0 where
  pub placed : (x : String) → all_empty x r.1 ≡ true → holds x r.1.processed ≡ true
  pub unmet : Unmet deps r.1
  pub keys : (x : String) → has_entry x r.1.remaining ≡ has_entry x es
  pub in_waves : (x : String) → holds x r.1.processed ≡ (holds x (flat r.0) || holds x old)

holds-nil : (x : String) → holds x [] ≡ false
unfolding holds
holds-nil x = refl

module _ (deps : String → List String) where
  run_wave-has_entry :
      (wave : List String) (p : Progress) (x : String)
      → has_entry x (run_wave deps wave p).remaining ≡ has_entry x p.remaining
  unfolding run_wave process
  run_wave-has_entry [] p x = refl
  run_wave-has_entry (id ∷ wave) p x =
      run_wave-has_entry wave (process deps id p) x
      ∙ release_all-has_entry id (deps id) (record p { processed = add id p.processed }) x

  pub run_waves-Ended :
      (n : ℕ) (ready : List String) (es : List Waiting) (old : List String)
      → Placed ready (record { remaining = es; processed = old; next = [] })
      → Unmet deps (record { remaining = es; processed = old; next = [] })
      → (r : List (List String) × Progress) → run_waves n deps ready es old ≡ some r
      → Ended deps es old r
  unfolding run_waves
  run_waves-Ended zero ready es old placed unmet r e = absurd (none-ne-some r e)
  run_waves-Ended (suc n) [] es old placed unmet r e =
      subst (Ended deps es old) (some-injective _ _ e) (record {
        placed = λ x k. ground (arith, placed x k, holds-nil x);
        unmet = unmet;
        keys = λ x. refl;
        in_waves = λ x. ground (arith, holds-nil x);
      })
  run_waves-Ended (suc n) (id ∷ ids) es old placed unmet r e =
      let start : Progress = record { remaining = es; processed = old; next = [] } in
      let p = run_wave deps (id ∷ ids) start in
      let next = order_by str_lt p.next in
      let (placed', unmet') = run_wave-keeps deps (id ∷ ids) start placed unmet in
      elim (Option-cases (run_waves n deps next p.remaining p.processed)) [
        | inl stops ↦ absurd (none-ne-some r (rw stops at e))
        | inr (q, goes) ↦
            let ended =
              run_waves-Ended n next p.remaining p.processed
                (λ x k. ground (arith, placed' x k, holds-order_by x p.next, holds-nil x)) unmet' q
                goes in
            subst (Ended deps es old) (some-injective _ _ (rw goes at e)) (record {
              placed = ended.placed;
              unmet = ended.unmet;
              keys = λ x. ended.keys x ∙ run_wave-has_entry (id ∷ ids) start x;
              in_waves = λ x. ground (
                arith,
                ended.in_waves x,
                ap (holds x) (run_wave-processed deps (id ∷ ids) start),
                holds-marks x (id ∷ ids) old,
                holds-append x (id ∷ ids) (flat q.0),
              );
            })
      ]
