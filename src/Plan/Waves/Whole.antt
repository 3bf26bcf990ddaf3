-- ===== src/Plan/Waves/Whole.antt =====
-- The documents that the waves of internal/plan/graph.go hold.
use bachkator.Base.{
  ℕ, zero, suc, ◌<◌, String, true, false, ◌&&◌, ◌||◌, some, List, [], ◌∷◌, ◌==◌, ◌≡◌, refl, sym, ap,
  ◌∙◌, subst, arith, eq_iff, eq_refl, if-elim, Bool-cases, inl, inr, and_true, In-cons, ◌+◌, In,
  here, there, All, All-intro, In-select, order_by-In, map, str_lt, exists-of-In, length,
}
use mathlib.Core.Bool.{true≢false}
use bachkator.Plan.Types.{Document, Selection}
use bachkator.Plan.Waves.{
  Progress, Waiting, holds, waits_for, selected, selected_deps, first_wave, remaining_deps,
  dependents, dependents_in, build_selection, index, is_empty,
}
use bachkator.Plan.Waves.Marks.{holds-add}
use bachkator.Plan.Waves.Ends.{whole_loop, build_selection_inv}
use bachkator.Plan.Waves.Waits.{
  Needs, has_entry, has_entry-remaining_deps, waits_for-entry, waits_for-unentered,
  remaining_deps-All,
}
use bachkator.Plan.Waves.Order.{holds-append, selected-index}
use bachkator.Plan.Waves.Complete.{flat, Ended, run_waves-Ended}

holds-In : (x : String) (xs : List String) → holds x xs ≡ true → In x xs
unfolding holds
holds-In x [] e = absurd (ground arith)
holds-In x (y ∷ xs) e = elim (Bool-cases (y == x)) [
  | inl is ↦ subst (λ z. In z (y ∷ xs)) ((eq_iff y x).0 is) here
  | inr other ↦ there (holds-In x xs (ground arith))
]

In-holds : (x : String) (xs : List String) → In x xs → holds x xs ≡ true
unfolding holds
In-holds x xs m = exists-of-In (λ y. y == x) xs x m (eq_refl x)

In-ids : (e : Waiting) (es : List Waiting) → In e es → In e.id (map (λ (w : Waiting). w.id) es)
In-ids e [] m = elim m [ ]
In-ids e (_ ∷ es) here = here
In-ids e (w ∷ es) (there m) = there (In-ids e es m)

-- An id without dependencies is in the first wave.
first_wave-holds :
    (x : String) (es : List Waiting)
    → has_entry x es ≡ true
    → is_empty (waits_for x es) ≡ true
    → holds x (first_wave es) ≡ true
unfolding first_wave
first_wave-holds x es k empty =
    let (e, m, is, w) = waits_for-entry (λ e. In e es) x es k (All-intro _ es (λ e m. m)) in
    subst (λ y. holds y (first_wave es) ≡ true) is
      (In-holds e.id _ (
        order_by-In str_lt e.id _ (
          In-ids e _
            (In-select (λ (y : Waiting). is_empty y.deps) es e m (ap is_empty (sym w) ∙ empty)))))

holds-selected_deps :
    (by_id : List Document) (d x : String) (deps : List String)
    → holds d (selected_deps by_id (x ∷ deps))
      ≡ ((selected x by_id && (x == d)) || holds d (selected_deps by_id deps))
unfolding selected_deps
holds-selected_deps by_id d x deps =
    if-elim
      (λ l. holds d l ≡ ((selected x by_id && (x == d)) || holds d (selected_deps by_id deps)))
      (selected x by_id) (λ e. holds-add d x (selected_deps by_id deps) ∙ ground (arith, e))
      λ e. ground (arith, e)

selected_deps-In :
    (by_id : List Document) (d : String) (deps : List String)
    → holds d (selected_deps by_id deps) ≡ true
    → In d deps × (selected d by_id ≡ true)
unfolding selected_deps holds
selected_deps-In by_id d [] e = absurd (ground arith)
selected_deps-In by_id d (x ∷ deps) e = elim (Bool-cases (selected x by_id && (x == d))) [
  | inl both ↦
      let (s, is) = and_true (selected x by_id) (x == d) both in
      subst (λ y. In y (x ∷ deps) × (selected y by_id ≡ true)) ((eq_iff x d).0 is) (here, s)
  | inr other ↦
      let (m, s) =
        selected_deps-In by_id d deps (ground (arith, e, holds-selected_deps by_id d x deps)) in
      (there m, s)
]

-- The dependents of an id are the documents that need it.
holds-dependents_in :
    (d x doc : String) (deps : List String)
    → holds x (dependents_in d doc deps) ≡ ((doc == x) && holds d deps)
unfolding dependents_in holds
holds-dependents_in d x doc [] = ground arith
holds-dependents_in d x doc (y ∷ deps) = ground (arith, holds-dependents_in d x doc deps)

dependents-Needs :
    (by_id docs : List Document) (d x : String)
    → holds x (dependents by_id docs d) ≡ true
    → Needs by_id docs d x
unfolding dependents holds
dependents-Needs by_id [] d x e = absurd (ground arith)
dependents-Needs by_id (doc ∷ docs) d x e = elim (Bool-cases (selected d by_id)) [
  | inl s ↦ elim (Bool-cases ((doc.id == x) && holds d doc.depends_on)) [
    | inl both ↦
        let (is, m) = and_true (doc.id == x) (holds d doc.depends_on) both in
        (doc, here, (eq_iff doc.id x).0 is, holds-In d doc.depends_on m, s)
    | inr other ↦
        let (doc', m, is, dep, sel) = dependents-Needs by_id docs d x (
          ground (
            arith,
            e,
            s,
            holds-append x (dependents_in d doc.id doc.depends_on) (dependents by_id docs d),
            holds-dependents_in d x doc.id doc.depends_on,
          )) in
        (doc', there m, is, dep, sel)
  ]
  | inr n ↦
      let (doc', m, is, dep, sel) = dependents-Needs by_id docs d x (ground (arith, e, n)) in
      (doc', there m, is, dep, sel)
]

Needs-dependents :
    (by_id docs : List Document) (d x : String)
    → Needs by_id docs d x
    → holds x (dependents by_id docs d) ≡ true
unfolding dependents holds
Needs-dependents by_id [] d x (doc, m, is, dep, s) = elim m [ ]
Needs-dependents by_id (doc ∷ docs) d x (doc', m, is, dep, s) =
    let here_ = holds-append x (dependents_in d doc.id doc.depends_on) (dependents by_id docs d) in
    elim (In-cons m) [
      | inl same ↦
          let in_ = holds-dependents_in d x doc.id doc.depends_on in
          let id : (doc.id == x) ≡ true =
            (eq_iff doc.id x).1 (ap (λ (y : Document). y.id) (sym same) ∙ is) in
          ground (
            arith,
            s,
            here_,
            in_,
            id,
            In-holds d doc.depends_on (subst (λ (y : Document). In d y.depends_on) same dep),
          )
      | inr later ↦
          ground (arith, s, here_, Needs-dependents by_id docs d x (doc', later, is, dep, s))
    ]

-- The documents at the end of the loop: the ids in the waves, and those that wait for others.
whole_loop-Ended :
    (by_id docs : List Document) (r : List (List String) × Progress)
    → whole_loop by_id docs ≡ some r
    → Ended (dependents by_id docs) (remaining_deps by_id docs []) [] r
unfolding holds
whole_loop-Ended by_id docs r e =
    let es = remaining_deps by_id docs [] in
    run_waves-Ended (dependents by_id docs) (suc (suc (length docs + length docs))) (first_wave es)
      es []
      (λ x k.
        let (key, empty) = and_true (has_entry x es) (is_empty (waits_for x es)) k in
        ground (arith, first_wave-holds x es key empty))
      (λ d x h. elim (Bool-cases (has_entry x es)) [
        | inl key ↦
            let (w, p, is, eq) =
              waits_for-entry
                (λ w.
                  (y : String)
                  → holds y w.deps ≡ true
                  → holds w.id (dependents by_id docs y) ≡ true)
                x es key
                (remaining_deps-All _ by_id docs []
                  (All-intro _ docs λ doc m y k.
                    let (dep, s) = selected_deps-In by_id y doc.depends_on k in
                    Needs-dependents by_id docs y doc.id (doc, m, refl, dep, s))
                  tt) in
            ground (
              arith,
              subst (λ y. holds y (dependents by_id docs d) ≡ true) is
                  (p d (ap (holds d) (sym eq) ∙ h)),
            )
        | inr n ↦ ground (arith, ap (holds d) (waits_for-unentered x es n), h)
      ])
      r e

head-holds : (xs : List String) → is_empty xs ≡ false → (d : String) × (holds d xs ≡ true)
unfolding holds
head-holds [] e = absurd (ground arith)
head-holds (x ∷ xs) e = (x, ground (arith, eq_refl x))

-- An id that no wave holds waits for another that none holds, and which it needs.
module _ (by_id docs : List Document) (r : List (List String) × Progress)
    (ended : Ended (dependents by_id docs) (remaining_deps by_id docs []) [] r) where
  waits :
      (x : String)
      → selected x docs ≡ true
      → holds x r.1.processed ≡ false
      → (d : String) × Needs by_id docs d x × (holds d r.1.processed ≡ false)
  unfolding holds
  waits x s out =
      let key = ended.keys x ∙ has_entry-remaining_deps by_id docs [] x in
      let (d, h) =
        head-holds (waits_for x r.1.remaining) (ground (arith, key, s, ended.placed x, out)) in
      (
        d,
        dependents-Needs by_id docs d x (ground (arith, ended.unmet d x h)),
        ground (arith, ended.unmet d x h),
      )

  all-processed :
      (rank : String → ℕ)
      → ((d x : String) → Needs by_id docs d x → (rank d < rank x) × (selected d docs ≡ true))
      → (n : ℕ) (x : String) → rank x < n
      → selected x docs ≡ true
      → holds x r.1.processed ≡ true
  all-processed rank up zero x less s = absurd (omega (arith, less))
  all-processed rank up (suc n) x less s = elim (Bool-cases (holds x r.1.processed)) [
    | inl done ↦ done
    | inr out ↦
        let (d, needs, out') = waits x s out in
        let (below, s') = up d x needs in
        absurd (true≢false (sym (all-processed rank up n d (omega (arith, less, below)) s') ∙ out'))
  ]

Needs-docs :
    (docs : List Document) (d x : String) → Needs (index [] docs).0 docs d x → Needs docs docs d x
unfolding selected
Needs-docs docs d x (doc, m, is, dep, s) = (doc, m, is, dep, sym (selected-index d [] docs) ∙ s)

-- Where a rank rises from each selected dependency to the document that names it, so that no
-- documents depend on one another in a circle, the waves hold the id of every document.
pub build_selection_complete :
    (docs : List Document) (s : Selection) (rank : String → ℕ)
    → ((d x : String) → Needs docs docs d x → rank d < rank x)
    → build_selection docs ≡ some s
    → All (λ (doc : Document). In doc.id (flat s.waves)) docs
unfolding selected holds
build_selection_complete docs s rank up e =
    let by_id = (index [] docs).0 in
    let (r, goes, is) = build_selection_inv docs s e in
    let ended = whole_loop-Ended by_id docs r goes in
    subst (λ (t : Selection). All (λ (doc : Document). In doc.id (flat t.waves)) docs) is
      (All-intro _ docs λ doc m. holds-In doc.id (flat r.0) (
        ground (
          arith,
          ended.in_waves doc.id,
          all-processed by_id docs r ended rank
              (λ d x n. let n' = Needs-docs docs d x n in (up d x n', n'.4)) (suc (rank doc.id))
              doc.id (omega arith)
              (exists-of-In (λ (y : Document). y.id == doc.id) docs doc m (eq_refl doc.id)),
        )))
