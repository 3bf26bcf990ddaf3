-- ===== src/Plan/Waves/Marks.antt =====
-- What the loops of waves in internal/plan/graph.go do to the processed ids and to the next wave.
use bachkator.Base.{
  String, true, false, ◌||◌, List, [], ◌∷◌, ◌==◌, ◌≡◌, refl, sym, ap, ◌∙◌, arith, eq_iff, if-elim,
  subst, All, All-append, All-weaken, exists, Bool-cases, inl, inr,
}
use mathlib.Core.Bool.{true≢false}
use bachkator.Plan.Waves.{Progress, holds, add, release_one, release_all, process, run_wave}

-- The ids processed after a wave.
abbrev pub marks : List String → List String → List String
marks [] old = old
marks (id ∷ wave) old = marks wave (add id old)

pub release_one-processed :
    (id d : String) (p : Progress) → (release_one id d p).processed ≡ p.processed
unfolding release_one
release_one-processed id d p =
    if-elim (λ (q : Progress). q.processed ≡ p.processed) _ (λ _. refl) (λ _. refl)

pub release_all-processed :
    (id : String) (ds : List String) (p : Progress) → (release_all id ds p).processed ≡ p.processed
unfolding release_all
release_all-processed id [] p = refl
release_all-processed id (d ∷ ds) p =
    release_all-processed id ds (release_one id d p) ∙ release_one-processed id d p

module _ (deps : String → List String) where
  pub process-processed :
      (id : String) (p : Progress) → (process deps id p).processed ≡ add id p.processed
  unfolding process
  process-processed id p =
      release_all-processed id (deps id) (record p { processed = add id p.processed })

  pub run_wave-processed :
      (wave : List String) (p : Progress)
      → (run_wave deps wave p).processed ≡ marks wave p.processed
  unfolding run_wave
  run_wave-processed [] p = refl
  run_wave-processed (id ∷ wave) p =
      run_wave-processed wave (process deps id p) ∙ ap (marks wave) (process-processed id p)

pub holds-add :
    (x id : String) (old : List String) → holds x (add id old) ≡ ((id == x) || holds x old)
unfolding holds add
holds-add x id old = elim (Bool-cases (exists (λ y. y == id) old)) [
  | inl e ↦ rw e (elim (Bool-cases (id == x)) [
    | inl same ↦ rw same (rw (← (eq_iff id x).0 same) e)
    | inr other ↦ rw other refl
  ])
  | inr e ↦ rw e refl
]

pub holds-marks :
    (x : String) (wave old : List String) → holds x (marks wave old) ≡ (holds x wave || holds x old)
unfolding holds
holds-marks x [] old = refl
holds-marks x (id ∷ wave) old = ground (arith, holds-marks x wave (add id old), holds-add x id old)

-- What holds of the ids that are not processed yet holds of those put into the next wave.
module _ (N : String → Type 0) (id : String) where
  release_one-next :
      (d : String) (p : Progress)
      → (holds d p.processed ≡ false → N d)
      → All N p.next
      → All N (release_one id d p).next
  unfolding release_one
  release_one-next d p new h =
      if-elim (λ (q : Progress). All N q.next) _
        (λ e. All-append N p.next (d ∷ []) h (new (ground arith), tt)) λ _. h

  pub release_all-next :
      (ds : List String) (p : Progress)
      → All (λ d. holds d p.processed ≡ false → N d) ds
      → All N p.next
      → All N (release_all id ds p).next
  unfolding release_all
  release_all-next [] p new h = h
  release_all-next (d ∷ ds) p new h =
      release_all-next ds (release_one id d p)
        (subst (λ now. All (λ x. holds x now ≡ false → N x) ds) (sym (release_one-processed id d p))
          new.1)
        (release_one-next d p new.0 h)

module _ (N : String → Type 0) (deps : String → List String) (old : List String)
    (new : (id : String) → All (λ d. holds d old ≡ false → N d) (deps id)) where
  pub run_wave-next :
      (wave : List String) (p : Progress)
      → ((x : String) → holds x old ≡ true → holds x p.processed ≡ true)
      → All N p.next
      → All N (run_wave deps wave p).next
  unfolding run_wave process
  run_wave-next [] p grows h = h
  run_wave-next (id ∷ wave) p grows h =
      let p' : Progress = record p { processed = add id p.processed } in
      let grown : (x : String) → holds x old ≡ true → holds x p'.processed ≡ true =
        λ x e. ground (arith, grows x e, holds-add x id p.processed) in
      run_wave-next wave (release_all id (deps id) p')
        (λ x e. ap (holds x) (release_all-processed id (deps id) p') ∙ grown x e)
        (release_all-next N id (deps id) p'
          (All-weaken _ _ (deps id)
            (λ d k e. k (elim (Bool-cases (holds d old)) [
              | inl y ↦ absurd (true≢false (sym (grown d y) ∙ e))
              | inr n ↦ n
            ]))
            (new id))
          h)
