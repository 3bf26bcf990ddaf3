-- ===== src/Plan/Waves/Order.antt =====
-- The order of the waves in internal/plan/graph.go.
use bachkator.Base.{
  length, ◌+◌, ℕ, zero, suc, String, true, false, ◌||◌, some, List, [], ◌∷◌, ◌++◌, ◌==◌, ◌≡◌, ◌≢◌,
  refl, sym, ap, ◌∙◌, subst, arith, eq_iff, eq_refl, if-elim, All, All-append, All-weaken, Each,
  Option-cases, inl, inr, find-In, exists-of-In, order_by, order_by-All, str_lt,
}
use mathlib.Core.Bool.{true≢false}
use mathlib.Core.Option.{some-injective, none-ne-some}
use bachkator.Plan.Types.{Document, Selection}
use bachkator.Plan.Waves.{
  Progress, Waiting, holds, add, waits_for, selected, release_one, release_all, process, run_wave,
  run_waves, first_wave, waves, remaining_deps, dependents, build_selection, index, is_empty,
  find_doc,
}
use bachkator.Plan.Waves.Marks.{holds-add, holds-marks, release_one-processed, run_wave-processed}
use bachkator.Plan.Waves.Ends.{build_selection_inv, first_wave-All}
use bachkator.Plan.Waves.Waits.{
  Needs, without, holds-remove, waits_for-without, has_entry-remaining_deps, waits_for-entry,
  remaining_deps-holds,
}

pub empty-holds : (d : String) (xs : List String) → is_empty xs ≡ true → holds d xs ≡ false
unfolding holds
empty-holds d [] e = refl
empty-holds d (x ∷ xs) e = ground arith

pub holds-append :
    (x : String) (xs ys : List String) → holds x (xs ++ ys) ≡ (holds x xs || holds x ys)
unfolding holds
holds-append x [] ys = refl
holds-append x (z ∷ xs) ys = ground (arith, holds-append x xs ys)

module _ (N : String → String → Type 0) where
  -- A dependency is waited for, or it is processed.
  abbrev Met : List Waiting → List String → Type 0
  Met es old = (d x : String) → N d x → (holds d (waits_for x es) || holds d old) ≡ true

  -- All dependencies are among some ids.
  abbrev pub Ready : List String → String → Type 0
  Ready old x = (d : String) → N d x → holds d old ≡ true

  abbrev Sound : Progress → Type 0
  Sound p = Met p.remaining p.processed × All (Ready p.processed) p.next

  -- Each id stands in a wave after those that it needs.
  abbrev pub Ordered : List String → List (List String) → Type 0
  Ordered earlier [] = Unit
  Ordered earlier (wave ∷ waves) = All (Ready earlier) wave × Ordered (earlier ++ wave) waves

  module _ (id d : String) (p : Progress) (done : holds id p.processed ≡ true) where
    release_one-Met : Met p.remaining p.processed → Met (without id d p.remaining) p.processed
    release_one-Met met d' x n = ground (
      arith,
      met d' x n,
      done,
      eq_iff id d',
      ap (holds d') (waits_for-without id d x p.remaining),
      holds-remove d' id (waits_for x p.remaining),
    )

    release_one-Sound : Sound p → Sound (release_one id d p)
    unfolding release_one
    release_one-Sound (met, ready) =
        if-elim Sound _
          (λ e. (
            release_one-Met met,
            All-append _ p.next (d ∷ []) ready (
              λ d' n.
                  let m = release_one-Met met d' d n in
                  ground (arith, m, empty-holds d' (waits_for d (without id d p.remaining))),
              tt,
            ),
          ))
          λ _. (release_one-Met met, ready)

  release_all-Sound :
      (id : String) (ds : List String) (p : Progress)
      → holds id p.processed ≡ true
      → Sound p
      → Sound (release_all id ds p)
  unfolding release_all
  release_all-Sound id [] p done h = h
  release_all-Sound id (d ∷ ds) p done h =
      release_all-Sound id ds (release_one id d p)
        (ap (holds id) (release_one-processed id d p) ∙ done) (release_one-Sound id d p done h)

  module _ (deps : String → List String) where
    run_wave-Sound : (wave : List String) (p : Progress) → Sound p → Sound (run_wave deps wave p)
    unfolding run_wave process
    run_wave-Sound [] p h = h
    run_wave-Sound (id ∷ wave) p (met, ready) =
        let grows : (x : String)
            → holds x p.processed ≡ true
            → holds x (add id p.processed) ≡ true =
          λ x e. ground (arith, holds-add x id p.processed) in
        run_wave-Sound wave _ (
          release_all-Sound id (deps id) (record p { processed = add id p.processed })
            (ground (arith, holds-add id id p.processed, eq_refl id))
            (
              λ d x n. ground (arith, met d x n, grows d),
              All-weaken _ _ p.next (λ x r d n. grows d (r d n)) ready,
            ))

    run_waves-Ordered :
        (n : ℕ) (ready : List String) (es : List Waiting) (old earlier : List String)
        → Met es old
        → All (Ready old) ready
        → ((x : String) → holds x old ≡ true → holds x earlier ≡ true)
        → (r : List (List String) × Progress) → run_waves n deps ready es old ≡ some r
        → Ordered earlier r.0
    unfolding run_waves
    run_waves-Ordered zero ready es old earlier met ok_ sub r e = absurd (none-ne-some r e)
    run_waves-Ordered (suc n) [] es old earlier met ok_ sub r e =
        subst (λ (q : List (List String) × Progress). Ordered earlier q.0) (some-injective _ _ e) tt
    run_waves-Ordered (suc n) (id ∷ ids) es old earlier met ok_ sub r e =
        let start : Progress = record { remaining = es; processed = old; next = [] } in
        let p = run_wave deps (id ∷ ids) start in
        let next = order_by str_lt p.next in
        let (met', ready') = run_wave-Sound (id ∷ ids) start (met, tt) in
        elim (Option-cases (run_waves n deps next p.remaining p.processed)) [
          | inl stops ↦ absurd (none-ne-some r (rw stops at e))
          | inr (q, goes) ↦
              subst (λ (t : List (List String) × Progress). Ordered earlier t.0)
                (some-injective _ _ (rw goes at e))
                (
                  All-weaken _ _ (id ∷ ids) (λ x k d n'. sub d (k d n')) ok_,
                  run_waves-Ordered n next p.remaining p.processed (earlier ++ id ∷ ids) met'
                      (order_by-All (Ready p.processed) str_lt p.next ready')
                      (λ x h. ground (
                        arith,
                        sub x,
                        holds-append x earlier (id ∷ ids),
                        ap (holds x) (run_wave-processed deps (id ∷ ids) start),
                        holds-marks x (id ∷ ids) old,
                      ))
                      q goes,
                )
        ]

waves-start :
    (by_id docs : List Document)
    → Each (λ (x y : Document). x.id ≢ y.id) docs
    → let es = remaining_deps by_id docs [] in
      Met (Needs by_id docs) es [] × All (Ready (Needs by_id docs) []) (first_wave es)
unfolding selected
waves-start by_id docs u =
    let es = remaining_deps by_id docs [] in
    let holding = remaining_deps-holds by_id docs u in
    (
      (λ d x (doc, m, is, dep, s).
          let (e, h, is', w) =
            waits_for-entry _ x es
              (has_entry-remaining_deps by_id docs [] x
                ∙ ground (
                  arith,
                  exists-of-In (λ (y : Document). y.id == x) docs doc m ((eq_iff doc.id x).1 is),
                ))
              holding in
          ap (λ l. holds d l || holds d []) w ∙ ground (arith, h d (doc, m, is ∙ sym is', dep, s))),
      first_wave-All (Ready (Needs by_id docs) []) es (
          All-weaken _ _ es
            (λ e h empty d n. absurd (true≢false (sym (h d n) ∙ empty-holds d e.deps empty)))
            holding),
    )

Ordered-weaken :
    (N M : String → String → Type 0)
    → ((d x : String) → M d x → N d x)
    → (earlier : List String) (found : List (List String)) → Ordered N earlier found
    → Ordered M earlier found
Ordered-weaken N M less earlier [] h = tt
Ordered-weaken N M less earlier (wave ∷ found) h = (
  All-weaken _ _ wave (λ x k d n. k d (less d x n)) h.0,
  Ordered-weaken N M less (earlier ++ wave) found h.1,
)

selected-append :
    (x : String) (xs ys : List Document) → selected x (xs ++ ys) ≡ (selected x xs || selected x ys)
unfolding selected
selected-append x [] ys = refl
selected-append x (z ∷ xs) ys = ground (arith, selected-append x xs ys)

-- `byID` has the ids of all documents.
pub selected-index :
    (x : String) (by_id docs : List Document)
    → selected x (index by_id docs).0 ≡ (selected x by_id || selected x docs)
unfolding selected index
selected-index x by_id [] = ground arith
selected-index x by_id (doc ∷ docs) = elim (Option-cases (find_doc doc.id by_id)) [
  | inr (d, e) ↦
      let (m, same) = find-In (λ (y : Document). y.id == doc.id) by_id d e in
      let there_ : (doc.id == x) ≡ true → selected x by_id ≡ true = λ k.
        exists-of-In (λ (y : Document). y.id == x) by_id d m
          (ap (λ z. z == x) ((eq_iff d.id doc.id).0 same) ∙ k) in
      rw (index, e) (ground (arith, selected-index x by_id docs, there_))
  | inl e ↦
      rw (index, e)
        (ground
          (arith, selected-index x (by_id ++ doc ∷ []) docs, selected-append x by_id (doc ∷ [])))
]

pub Needs-index :
    (docs : List Document) (d x : String) → Needs docs docs d x → Needs (index [] docs).0 docs d x
unfolding selected
Needs-index docs d x (doc, m, is, dep, s) = (doc, m, is, dep, selected-index d [] docs ∙ s)

-- Where the documents have distinct ids, each id of a wave stands after the ids of all selected
-- documents that its document names as dependencies: these stand in earlier waves.
pub build_selection-Ordered :
    (docs : List Document) (s : Selection)
    → Each (λ (x y : Document). x.id ≢ y.id) docs
    → build_selection docs ≡ some s
    → Ordered (Needs docs docs) [] s.waves
build_selection-Ordered docs s u e =
    let by_id = (index [] docs).0 in
    let es = remaining_deps by_id docs [] in
    let (met, ready) = waves-start by_id docs u in
    let (r, goes, is) = build_selection_inv docs s e in
    subst (λ (t : Selection). Ordered (Needs docs docs) [] t.waves) is
      (Ordered-weaken (Needs by_id docs) (Needs docs docs) (Needs-index docs) [] r.0 (
        run_waves-Ordered (Needs by_id docs) (dependents by_id docs)
          (suc (suc (length docs + length docs))) (first_wave es) es [] [] met ready (λ x k. k) r
          goes))
