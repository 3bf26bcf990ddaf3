-- ===== src/Plan/Waves/Waits.antt =====
-- The map `remainingDeps` of waves in internal/plan/graph.go.
use bachkator.Base.{
  String, Bool, true, false, ◌&&◌, ◌||◌, not, List, [], ◌∷◌, ◌==◌, ◌≡◌, ◌≢◌, refl, sym, ◌∙◌, subst,
  arith, eq_iff, eq_refl, if◌then◌else◌, if-elim, All, Each, All-In, All-intro, exists, update,
  Bool-cases, inl, inr, In, here, there,
}
use bachkator.Plan.Types.{Document}
use bachkator.Plan.Waves.{
  Waiting, holds, remove, put, waits_for, selected, selected_deps, remaining_deps,
}
use bachkator.Plan.Waves.Marks.{holds-add}

-- What `delete(remainingDeps[dependent], id)` does.
abbrev pub without : String → String → List Waiting → List Waiting
without id dependent es =
    update (λ (e : Waiting). e.id == dependent)
      (λ (e : Waiting). record e { deps = remove id e.deps }) es

pub holds-remove :
    (d id : String) (xs : List String) → holds d (remove id xs) ≡ (holds d xs && not (id == d))
unfolding holds remove
holds-remove d id [] = refl
holds-remove d id (x ∷ xs) =
    ground (arith, holds-remove d id xs, eq_iff x id, eq_iff x d, eq_iff id d)

pub waits_for-without :
    (id d x : String) (es : List Waiting)
    → waits_for x (without id d es)
      ≡ (if d == x then remove id (waits_for x es) else waits_for x es)
unfolding waits_for remove
waits_for-without id d x [] = ground arith
waits_for-without id d x (e ∷ es) = elim (Bool-cases (e.id == x)) [
  | inl is ↦ elim (Bool-cases (e.id == d)) [
    | inl is' ↦
        let same : (d == x) ≡ true = ground (arith, eq_iff e.id x, eq_iff e.id d, eq_iff d x) in
        rw (waits_for, is', is, same) refl
    | inr no' ↦
        let other : (d == x) ≡ false = ground (arith, eq_iff e.id x, eq_iff e.id d, eq_iff d x) in
        rw (waits_for, no', is, other) refl
  ]
  | inr no_ ↦ elim (Bool-cases (e.id == d)) [
    | inl is' ↦ rw (waits_for, is', no_) (waits_for-without id d x es)
    | inr no' ↦ rw (waits_for, no', no_) (waits_for-without id d x es)
  ]
]

-- Each dependency that is selected is waited for at the start.
holds-selected_deps :
    (by_id : List Document) (d : String) (deps : List String)
    → In d deps
    → selected d by_id ≡ true
    → holds d (selected_deps by_id deps) ≡ true
unfolding selected_deps
holds-selected_deps by_id d [] m s = elim m [ ]
holds-selected_deps by_id d (_ ∷ deps) here s =
    rw s (holds-add d d (selected_deps by_id deps) ∙ ground (arith, eq_refl d))
holds-selected_deps by_id d (x ∷ deps) (there m) s =
    if-elim (λ l. holds d l ≡ true) (selected x by_id)
      (λ _.
        holds-add d x (selected_deps by_id deps)
        ∙ ground (arith, holds-selected_deps by_id d deps m s))
      λ _. holds-selected_deps by_id d deps m s

put-All :
    (P : Waiting → Type 0) (w : Waiting) (es : List Waiting) → P w → All P es → All P (put w es)
unfolding put
put-All P w [] p h = (p, tt)
put-All P w (e ∷ es) p h =
    if-elim (All P) (e.id == w.id) (λ _. (p, h.1)) λ _. (h.0, put-All P w es p h.1)

pub remaining_deps-All :
    (P : Waiting → Type 0) (by_id docs : List Document) (es : List Waiting)
    → All (λ (d : Document). P (record { id = d.id; deps = selected_deps by_id d.depends_on })) docs
    → All P es
    → All P (remaining_deps by_id docs es)
unfolding remaining_deps
remaining_deps-All P by_id [] es p h = h
remaining_deps-All P by_id (d ∷ docs) es p h =
    remaining_deps-All P by_id docs _ p.1 (put-All P _ es p.0 h)

abbrev pub has_entry : String → List Waiting → Bool
has_entry x es = exists (λ (e : Waiting). e.id == x) es

has_entry-put :
    (x : String) (w : Waiting) (es : List Waiting)
    → has_entry x (put w es) ≡ ((w.id == x) || has_entry x es)
unfolding put
has_entry-put x w [] = refl
has_entry-put x w (e ∷ es) = elim (Bool-cases (e.id == w.id)) [
  | inl is ↦ rw is (rw ((eq_iff e.id w.id).0 is) (ground arith))
  | inr no' ↦ rw no' (ground (arith, has_entry-put x w es))
]

pub has_entry-remaining_deps :
    (by_id docs : List Document) (es : List Waiting) (x : String)
    → has_entry x (remaining_deps by_id docs es) ≡ (selected x docs || has_entry x es)
unfolding remaining_deps selected
has_entry-remaining_deps by_id [] es x = refl
has_entry-remaining_deps by_id (d ∷ docs) es x =
    let w : Waiting = record { id = d.id; deps = selected_deps by_id d.depends_on } in
    ground (arith, has_entry-remaining_deps by_id docs (put w es) x, has_entry-put x w es)

-- What a document waits for is the set of an entry with its id, where there is one.
pub waits_for-entry :
    (P : Waiting → Type 0) (x : String) (es : List Waiting)
    → has_entry x es ≡ true
    → All P es
    → (e : Waiting) × P e × (e.id ≡ x) × (waits_for x es ≡ e.deps)
unfolding waits_for
waits_for-entry P x [] k h = ground arith
waits_for-entry P x (e ∷ es) k h = elim (Bool-cases (e.id == x)) [
  | inl is ↦ (e, h.0, (eq_iff e.id x).0 is, rw (waits_for, is) refl)
  | inr no' ↦
      let (f, p, is, w) = waits_for-entry P x es (ground arith) h.1 in
      (f, p, is, rw (waits_for, no') w)
]

pub waits_for-unentered :
    (x : String) (es : List Waiting) → has_entry x es ≡ false → waits_for x es ≡ []
unfolding waits_for
waits_for-unentered x [] k = refl
waits_for-unentered x (e ∷ es) k =
    let off : (e.id == x) ≡ false = ground (arith, k) in
    rw (waits_for, off) (waits_for-unentered x es (ground (arith, k)))

Each-same :
    (docs : List Document) (a b : Document)
    → Each (λ (x y : Document). x.id ≢ y.id) docs
    → In a docs
    → In b docs
    → a.id ≡ b.id
    → a ≡ b
Each-same [] a b u m n e = elim m [ ]
Each-same (_ ∷ docs) a b u here here e = refl
Each-same (_ ∷ docs) a b u here (there n) e = absurd (All-In _ docs u.0 n e)
Each-same (_ ∷ docs) a b u (there m) here e = absurd (All-In _ docs u.0 m (sym e))
Each-same (_ ∷ docs) a b u (there m) (there n) e = Each-same docs a b u.1 m n e

-- A document `x` names the selected document `d` as a dependency.
abbrev pub Needs : List Document → List Document → String → String → Type 0
Needs by_id docs d x =
    (doc : Document) × In doc docs × (doc.id ≡ x) × In d doc.depends_on × (selected d by_id ≡ true)

-- Where ids are distinct, each entry holds the selected dependencies of its document.
pub remaining_deps-holds :
    (by_id docs : List Document)
    → Each (λ (x y : Document). x.id ≢ y.id) docs
    → All
        (λ (e : Waiting). (d : String) → Needs by_id docs d e.id → holds d e.deps ≡ true)
        (remaining_deps by_id docs [])
remaining_deps-holds by_id docs u =
    remaining_deps-All _ by_id docs []
      (All-intro _ docs λ doc m d (doc', m', is, dep, s).
        holds-selected_deps by_id d doc.depends_on
          (subst (λ (x : Document). In d x.depends_on) (Each-same docs doc' doc u m' m is) dep) s)
      tt
