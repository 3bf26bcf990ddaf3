-- ===== src/Plan/Waves/Ends.antt =====
-- The loop of waves in internal/plan/graph.go comes to an end.
use bachkator.Base.{
  ℕ, zero, suc, ◌+◌, ◌≤◌, ◌<◌, String, Bool, true, false, not, Option, some, List, [], ◌∷◌, ◌++◌,
  ◌==◌, ◌≡◌, refl, sym, ap, ◌∙◌, arith, eq_refl, if◌then◌else◌, All, All-append, All-weaken,
  Option-cases, if-elim, ◌⊎◌, subst, select-All, Bool-cases, inl, inr, affected, length, In, here,
  there, map, select, order_by, str_lt, order_by-All, length-map,
}
use mathlib.Core.Option.{some-injective, none-ne-some}
use bachkator.Plan.Types.{Document, Selection}
use bachkator.Plan.Waves.{
  selected, Progress, Waiting, holds, run_wave, run_waves, first_wave, waves, remaining_deps,
  dependents, dependents_in, put, build_selection, index, missing, cycle_diagnostics, is_empty,
}
use bachkator.Plan.Waves.Marks.{marks, holds-marks, run_wave-processed, run_wave-next}

affected-le {ℓ} :
    {A : Type ℓ} (f g : A → Bool) (xs : List A)
    → ((x : A) → f x ≡ true → g x ≡ true)
    → affected f xs ≤ affected g xs
affected-le f g [] h = omega arith
affected-le f g (x ∷ xs) h = ground (arith, h x, affected-le f g xs h)

affected-lt {ℓ} :
    {A : Type ℓ} (f g : A → Bool) (a : A) (xs : List A)
    → ((x : A) → f x ≡ true → g x ≡ true)
    → In a xs
    → f a ≡ false
    → g a ≡ true
    → affected f xs < affected g xs
affected-lt f g a [] h m p q = elim m [ ]
affected-lt f g a (_ ∷ xs) h here p q = ground (arith, affected-le f g xs h)
affected-lt f g a (x ∷ xs) h (there m) p q = ground (arith, h x, affected-lt f g a xs h m p q)

-- The number of ids that are not processed.
abbrev left : List String → List String → ℕ
left ids old = affected (λ x. not (holds x old)) ids

left-le : (ids wave old : List String) → left ids (marks wave old) ≤ left ids old
left-le ids wave old = affected-le _ _ ids λ x e. ground (arith, holds-marks x wave old)

left-lt :
    (ids wave old : List String) (x : String)
    → In x ids
    → holds x old ≡ false
    → holds x (marks wave old) ≡ true
    → left ids (marks wave old) < left ids old
left-lt ids wave old x m p q =
    affected-lt _ _ x ids (λ y e. ground (arith, holds-marks y wave old)) m (ground arith)
      (ground arith)

-- A wave may start with an id that is processed only if the wave before it processed a new one.
abbrev stale : List String → List String → ℕ
stale [] old = 0
stale (x ∷ xs) old = if holds x old then 1 else 0

abbrev Open : List String → List String → String → Type 0
Open ids old x = In x ids × (holds x old ≡ false)

-- A wave of known ids that starts with an id not processed yet processes a new one.
first-drop :
    (ids : List String) (x : String) (rest old : List String)
    → In x ids
    → (left ids (marks (x ∷ rest) old) < left ids old)
      ⊎ ((left ids (marks (x ∷ rest) old) ≤ left ids old) × (stale (x ∷ rest) old ≡ 1))
unfolding holds
first-drop ids x rest old m = elim (Bool-cases (holds x old)) [
  | inl e ↦ inr (left-le ids (x ∷ rest) old, rw e refl)
  | inr e ↦
      inl (
        left-lt ids (x ∷ rest) old x m e (holds-marks x (x ∷ rest) old ∙ ground (arith, eq_refl x)))
]

module _ (ids : List String) (deps : String → List String)
    (known : (id : String) → All (λ d. In d ids) (deps id)) where
  next-stale :
      (x : String) (rest old next : List String)
      → In x ids
      → All (Open ids old) next
      → let now = marks (x ∷ rest) old in
        left ids now + left ids now + stale next now
        < left ids old + left ids old + stale (x ∷ rest) old
  next-stale x rest old [] m fresh = omega (arith, first-drop ids x rest old m)
  next-stale x rest old (y ∷ next) m fresh =
      let now = marks (x ∷ rest) old in
      elim (Bool-cases (holds y now)) [
        | inl e ↦ rw e (
            omega (
              arith,
              first-drop ids x rest old m,
              left-lt ids (x ∷ rest) old y (fresh.0).0 (fresh.0).1 e,
            ))
        | inr e ↦ rw e (omega (arith, first-drop ids x rest old m))
      ]

  pub run_waves-some :
      (n : ℕ) (ready : List String) (remaining : List Waiting) (old : List String)
      → All (λ x. In x ids) ready
      → suc (left ids old + left ids old + stale ready old) ≤ n
      → (r : List (List String) × Progress) × (run_waves n deps ready remaining old ≡ some r)
  unfolding run_waves
  run_waves-some zero ready remaining old m fuel = absurd (omega (arith, fuel))
  run_waves-some (suc n) [] remaining old m fuel = (_, refl)
  run_waves-some (suc n) (x ∷ rest) remaining old m fuel =
      let start : Progress = record { remaining = remaining; processed = old; next = [] } in
      let p = run_wave deps (x ∷ rest) start in
      let fresh : All (Open ids old) (order_by str_lt p.next) =
        order_by-All (Open ids old) str_lt p.next (
          run_wave-next (Open ids old) deps old
            (λ id. All-weaken _ _ (deps id) (λ d k e. (k, e)) (known id)) (x ∷ rest) start
            (λ y e. e) tt) in
      let (r, e) =
        run_waves-some n (order_by str_lt p.next) p.remaining p.processed
          (All-weaken _ _ (order_by str_lt p.next) (λ y k. k.0) fresh)
          (subst (λ now. suc (left ids now + left ids now + stale (order_by str_lt p.next) now) ≤ n)
            (sym (run_wave-processed deps (x ∷ rest) start))
            (omega (arith, fuel, next-stale x rest old (order_by str_lt p.next) m.0 fresh))) in
      (((x ∷ rest) ∷ r.0, r.1), rw e refl)

  -- The waves hold known ids only.
  pub run_waves-known :
      (n : ℕ) (ready : List String) (remaining : List Waiting) (old : List String)
      → All (λ x. In x ids) ready
      → (r : List (List String) × Progress) → run_waves n deps ready remaining old ≡ some r
      → All (All (λ x. In x ids)) r.0
  unfolding run_waves
  run_waves-known zero ready remaining old m r e = absurd (none-ne-some r e)
  run_waves-known (suc n) [] remaining old m r e =
      subst (λ (q : List (List String) × Progress). All (All (λ x. In x ids)) q.0)
        (some-injective _ _ e) tt
  run_waves-known (suc n) (x ∷ rest) remaining old m r e =
      let start : Progress = record { remaining = remaining; processed = old; next = [] } in
      let p = run_wave deps (x ∷ rest) start in
      elim (Option-cases (run_waves n deps (order_by str_lt p.next) p.remaining p.processed)) [
        | inl stops ↦ absurd (none-ne-some r (rw stops at e))
        | inr (q, goes) ↦
            subst (λ (t : List (List String) × Progress). All (All (λ x. In x ids)) t.0)
              (some-injective _ _ (rw goes at e))
              (
                m,
                run_waves-known n (order_by str_lt p.next) p.remaining p.processed
                    (order_by-All (λ y. In y ids) str_lt p.next
                      (run_wave-next (λ y. In y ids) deps old
                        (λ id. All-weaken _ _ (deps id) (λ d k _. k) (known id)) (x ∷ rest) start
                        (λ y k. k) tt))
                    q goes,
              )
      ]

put-ids :
    (ids : List String) (w : Waiting) (es : List Waiting)
    → In w.id ids
    → All (λ (e : Waiting). In e.id ids) es
    → All (λ (e : Waiting). In e.id ids) (put w es)
unfolding put
put-ids ids w [] m h = (m, tt)
put-ids ids w (e ∷ es) m h =
    if-elim (All (λ (x : Waiting). In x.id ids)) (e.id == w.id) (λ _. (m, h.1))
      (λ _. (h.0, put-ids ids w es m h.1))

remaining_deps-ids :
    (ids : List String) (by_id docs : List Document) (es : List Waiting)
    → All (λ (d : Document). In d.id ids) docs
    → All (λ (e : Waiting). In e.id ids) es
    → All (λ (e : Waiting). In e.id ids) (remaining_deps by_id docs es)
unfolding remaining_deps
remaining_deps-ids ids by_id [] es m h = h
remaining_deps-ids ids by_id (d ∷ docs) es m h =
    remaining_deps-ids ids by_id docs _ m.1 (put-ids ids _ es m.0 h)

dependents_in-ids :
    (ids : List String) (id doc : String) (deps : List String)
    → In doc ids
    → All (λ x. In x ids) (dependents_in id doc deps)
unfolding dependents_in
dependents_in-ids ids id doc [] m = tt
dependents_in-ids ids id doc (d ∷ deps) m =
    if-elim (All (λ x. In x ids)) (d == id) (λ _. (m, dependents_in-ids ids id doc deps m))
      (λ _. dependents_in-ids ids id doc deps m)

dependents-ids :
    (ids : List String) (by_id docs : List Document) (id : String)
    → All (λ (d : Document). In d.id ids) docs
    → All (λ x. In x ids) (dependents by_id docs id)
unfolding dependents
dependents-ids ids by_id [] id m = tt
dependents-ids ids by_id (d ∷ docs) id m =
    if-elim (All (λ x. In x ids)) (selected id by_id)
      (λ _.
        All-append (λ x. In x ids) _ _ (dependents_in-ids ids id d.id d.depends_on m.0)
          (dependents-ids ids by_id docs id m.1))
      (λ _. dependents-ids ids by_id docs id m.1)

map-id-All :
    (P : String → Type 0) (es : List Waiting)
    → All (λ (e : Waiting). P e.id) es
    → All P (map (λ (e : Waiting). e.id) es)
map-id-All P [] h = tt
map-id-All P (e ∷ es) h = (h.0, map-id-All P es h.1)

docs-ids :
    (ids : List String) (docs : List Document)
    → ((x : String) → In x (map (λ (d : Document). d.id) docs) → In x ids)
    → All (λ (d : Document). In d.id ids) docs
docs-ids ids [] h = tt
docs-ids ids (d ∷ docs) h = (h d.id here, docs-ids ids docs (λ x m. h x (there m)))

pub first_wave-All :
    (P : String → Type 0) (es : List Waiting)
    → All (λ (e : Waiting). is_empty e.deps ≡ true → P e.id) es
    → All P (first_wave es)
unfolding first_wave
first_wave-All P es h = order_by-All P str_lt _ (
    map-id-All P (select (λ (e : Waiting). is_empty e.deps) es)
      (select-All (λ (e : Waiting). P e.id) (λ (e : Waiting). is_empty e.deps) es h))

left-le-length : (ids : List String) → left ids [] ≤ length ids
unfolding holds
left-le-length [] = omega arith
left-le-length (x ∷ ids) = omega (arith, left-le-length ids)

stale-nil : (xs : List String) → stale xs [] ≡ 0
unfolding holds
stale-nil [] = refl
stale-nil (x ∷ xs) = refl

-- The whole loop of waves.
abbrev pub whole_loop : List Document → List Document → Option (List (List String) × Progress)
whole_loop by_id docs =
    let es = remaining_deps by_id docs [] in
    run_waves (suc (suc (length docs + length docs))) (dependents by_id docs) (first_wave es) es []

pub loop-ends :
    (by_id docs : List Document)
    → (r : List (List String) × Progress) × (whole_loop by_id docs ≡ some r)
loop-ends by_id docs =
    let ids = map (λ (d : Document). d.id) docs in
    let known = docs-ids ids docs (λ x m. m) in
    let es = remaining_deps by_id docs [] in
    run_waves-some ids (dependents by_id docs) (λ id. dependents-ids ids by_id docs id known)
      (suc (suc (length docs + length docs))) (first_wave es) es []
      (first_wave-All (λ x. In x ids) es
        (All-weaken _ _ es (λ e m _. m) (remaining_deps-ids ids by_id docs [] known tt)))
      (omega (
        arith,
        left-le-length ids,
        length-map (λ (d : Document). d.id) docs,
        stale-nil (first_wave es),
      ))

-- What BuildSelection makes of the end of the loop.
abbrev pub built : List Document → List (List String) × Progress → Selection
built docs r = record {
  documents = docs;
  waves = r.0;
  diagnostics =
      (index [] docs).1
      ++ missing (index [] docs).0 docs
      ++ cycle_diagnostics (index [] docs).0 r.1;
}

build_selection-built :
    (docs : List Document) (r : List (List String) × Progress)
    → whole_loop (index [] docs).0 docs ≡ some r
    → build_selection docs ≡ some (built docs r)
unfolding build_selection waves
build_selection-built docs r e = rw (build_selection, waves, e) refl

-- Every document list gives a selection, also where ids or dependencies repeat or a cycle is among
-- them: the loop over the waves ends, and the fuel of the model is never used up.
pub build_selection_ends :
    (docs : List Document) → (s : Selection) × (build_selection docs ≡ some s)
build_selection_ends docs =
    let (r, e) = loop-ends (index [] docs).0 docs in (built docs r, build_selection-built docs r e)

pub build_selection_inv :
    (docs : List Document) (s : Selection)
    → build_selection docs ≡ some s
    → (r : List (List String) × Progress) × (whole_loop (index [] docs).0 docs ≡ some r)
      × (built docs r ≡ s)
build_selection_inv docs s e =
    let (r, goes) = loop-ends (index [] docs).0 docs in
    (r, goes, some-injective _ _ (sym (build_selection-built docs r goes) ∙ e))

-- The ids in the waves are ids of documents.
pub build_selection_known :
    (docs : List Document) (s : Selection)
    → build_selection docs ≡ some s
    → All (All (λ x. In x (map (λ (d : Document). d.id) docs))) s.waves
build_selection_known docs s e =
    let by_id = (index [] docs).0 in
    let ids = map (λ (d : Document). d.id) docs in
    let known = docs-ids ids docs (λ x m. m) in
    let es = remaining_deps by_id docs [] in
    let (r, goes, is) = build_selection_inv docs s e in
    subst (λ (t : Selection). All (All (λ x. In x ids)) t.waves) is
      (run_waves-known ids (dependents by_id docs) (λ id. dependents-ids ids by_id docs id known)
        (suc (suc (length docs + length docs))) (first_wave es) es []
        (first_wave-All (λ x. In x ids) es
          (All-weaken _ _ es (λ e m _. m) (remaining_deps-ids ids by_id docs [] known tt)))
        r goes)

pub build_selection-documents :
    (docs : List Document) (s : Selection) → build_selection docs ≡ some s → s.documents ≡ docs
build_selection-documents docs s e =
    let (r, goes, is) = build_selection_inv docs s e in ap (λ (t : Selection). t.documents) (sym is)
