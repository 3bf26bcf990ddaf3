-- ===== src/Plan/Status/Causes.antt =====
-- Why DeriveStatuses of internal/plan/status.go blocks a document.
use bachkator.Base.{
  String, Option, none, some, List, [], ◌∷◌, ◌++◌, ◌==◌, ◌≡◌, ◌≢◌, refl, sym, ap, ◌∙◌, subst,
  eq_iff, All, In, here, Bool-cases, Option-cases, inl, inr, In-cons, map, In-append_left,
  In-append_right,
}
use mathlib.Core.Bool.{true≢false}
use mathlib.Core.Option.{some-injective, none-ne-some, some-ne-none}
use mathlib.Core.List.{append-nil, append_assoc}
use bachkator.Plan.Types.{Document, Ledger, StatusRecord, Selection}
use bachkator.Plan.Waves.{build_selection}
use bachkator.Plan.Waves.Ends.{build_selection_known, build_selection-documents}
use bachkator.Plan.Ledgers.{blocked}
use bachkator.Plan.Status.{
  status_record, derive_ids, derive_waves, derive_statuses, doc_of, last_doc, set_status,
}
use bachkator.Plan.Status.Derived.{Stops, status_record-blocked}

-- A document that is blocked names one whose status, given before, blocks.
abbrev pub Caused : List StatusRecord → StatusRecord → Type 0
Caused earlier r =
    r.status ≡ blocked
    → (d : String) × (cause : StatusRecord) × In d r.document.depends_on
      × In cause earlier
      × (cause.document.id ≡ d)
      × Stops cause.status

abbrev pub Explained : List StatusRecord → List StatusRecord → Type 0
Explained earlier [] = Unit
Explained earlier (r ∷ rs) = Caused earlier r × Explained (earlier ++ r ∷ []) rs

abbrev Tracks : List StatusRecord → (String → String) → Type 0
Tracks earlier statuses =
    (d : String)
    → Stops (statuses d)
    → (r : StatusRecord) × In r earlier × (r.document.id ≡ d) × Stops r.status

last_doc-id :
    (id : String) (docs : List Document) (f : Document) → last_doc id docs ≡ some f → f.id ≡ id
unfolding last_doc
last_doc-id id [] f e = absurd (none-ne-some f e)
last_doc-id id (d ∷ docs) f e = elim (Option-cases (last_doc id docs)) [
  | inr (g, k) ↦ last_doc-id id docs f (k ∙ rw (last_doc, k) at e)
  | inl k ↦ elim (Bool-cases (d.id == id)) [
    | inl is ↦
        subst (λ (x : Document). x.id ≡ id) (some-injective _ _ (rw is at (rw (last_doc, k) at e)))
          ((eq_iff d.id id).0 is)
    | inr other ↦ absurd (none-ne-some f (rw other at (rw (last_doc, k) at e)))
  ]
]

last_doc-some :
    (id : String) (docs : List Document)
    → In id (map (λ (d : Document). d.id) docs)
    → last_doc id docs ≢ none
unfolding last_doc
last_doc-some id [] m e = elim m [ ]
last_doc-some id (d ∷ docs) m e = elim (Option-cases (last_doc id docs)) [
  | inr (g, k) ↦ some-ne-none g (rw (last_doc, k) at e)
  | inl k ↦ elim (In-cons m) [
    | inl is ↦ some-ne-none d (rw ((eq_iff d.id id).1 (sym is)) at (rw (last_doc, k) at e))
    | inr later ↦ last_doc-some id docs later k
  ]
]

doc_of-id :
    (id : String) (docs : List Document)
    → In id (map (λ (d : Document). d.id) docs)
    → (doc_of id docs).id ≡ id
unfolding doc_of
doc_of-id id docs m = elim (Option-cases (last_doc id docs)) [
  | inl e ↦ absurd (last_doc-some id docs m e)
  | inr (f, e) ↦ rw (doc_of, e) (last_doc-id id docs f e)
]

status_record-document :
    {C : Type 0} (statuses : String → String) (doc : Document) (ledger : Option (Ledger C))
    → (status_record statuses doc ledger).document ≡ doc
unfolding status_record
status_record-document statuses doc none = refl
status_record-document statuses doc (some l) = refl

module _ {C : Type 0} (docs : List Document) (ledgers : String → Option (Ledger C)) where
  step-Tracks :
      (id : String) (earlier : List StatusRecord) (statuses : String → String)
      → In id (map (λ (d : Document). d.id) docs)
      → Tracks earlier statuses
      → let r = status_record statuses (doc_of id docs) (ledgers id) in
        Caused earlier r × Tracks (earlier ++ r ∷ []) (set_status id r.status statuses)
  step-Tracks id earlier statuses known tracks =
      let doc = doc_of id docs in
      let r = status_record statuses doc (ledgers id) in
      let same = status_record-document statuses doc (ledgers id) in
      (
        λ e.
            let (d, m, k) = status_record-blocked statuses doc (ledgers id) e in
            let (cause, among, is, k') = tracks d k in
            (d, cause, subst (λ (x : Document). In d x.depends_on) (sym same) m, among, is, k'),
        λ d k. elim (Bool-cases (id == d)) [
          | inl is ↦ (
            r,
            In-append_right earlier (r ∷ []) here,
            ap (λ (x : Document). x.id) same ∙ doc_of-id id docs known ∙ (eq_iff id d).0 is,
            rw is at k,
          )
          | inr other ↦
              let (cause, among, is, k') = tracks d (rw other at k) in
              (cause, In-append_left earlier (r ∷ []) among, is, k')
        ],
      )

  derive_ids-Explained :
      (ids : List String) (earlier : List StatusRecord) (statuses : String → String)
      → All (λ x. In x (map (λ (d : Document). d.id) docs)) ids
      → Tracks earlier statuses
      → let done = derive_ids docs ledgers ids statuses in
        Explained earlier done.0 × Tracks (earlier ++ done.0) done.1
  unfolding derive_ids
  derive_ids-Explained [] earlier statuses known tracks =
      (tt, subst (λ l. Tracks l statuses) (sym (append-nil earlier)) tracks)
  derive_ids-Explained (id ∷ ids) earlier statuses known tracks =
      let r = status_record statuses (doc_of id docs) (ledgers id) in
      let (cause, tracks') = step-Tracks id earlier statuses known.0 tracks in
      let (rest, end) =
        derive_ids-Explained ids (earlier ++ r ∷ []) (set_status id r.status statuses) known.1
          tracks' in
      let after = derive_ids docs ledgers ids (set_status id r.status statuses) in
      ((cause, rest), subst (λ l. Tracks l after.1) (append_assoc earlier (r ∷ []) _) end)

  Explained-append :
      (xs ys earlier : List StatusRecord)
      → Explained earlier xs
      → Explained (earlier ++ xs) ys
      → Explained earlier (xs ++ ys)
  Explained-append [] ys earlier h k = subst (λ l. Explained l ys) (append-nil earlier) k
  Explained-append (x ∷ xs) ys earlier h k = (
    h.0,
    Explained-append xs ys (earlier ++ x ∷ []) h.1
        (subst (λ l. Explained l ys) (sym (append_assoc earlier (x ∷ []) xs)) k),
  )

  derive_waves-Explained :
      (waves : List (List String)) (earlier : List StatusRecord) (statuses : String → String)
      → All (All (λ x. In x (map (λ (d : Document). d.id) docs))) waves
      → Tracks earlier statuses
      → Explained earlier (derive_waves docs ledgers waves statuses)
  unfolding derive_waves
  derive_waves-Explained [] earlier statuses known tracks = tt
  derive_waves-Explained (wave ∷ waves) earlier statuses known tracks =
      let done = derive_ids docs ledgers wave statuses in
      let (here_, tracks') = derive_ids-Explained wave earlier statuses known.0 tracks in
      Explained-append done.0 (derive_waves docs ledgers waves done.1) earlier here_
        (derive_waves-Explained waves (earlier ++ done.0) done.1 known.1 tracks')

-- In the statuses of a selection, whichever documents it was built from and whatever ledgers there
-- are: a document that is blocked names a dependency whose record stands before its own and has the
-- status blocked, stale or invalid_ledger.
pub derive_statuses-Explained :
    {C : Type 0} (docs : List Document) (ledgers : String → Option (Ledger C)) (s : Selection)
    → build_selection docs ≡ some s
    → Explained [] (derive_statuses s ledgers)
unfolding derive_statuses
derive_statuses-Explained docs ledgers s e =
    derive_waves-Explained s.documents ledgers s.waves [] (λ x. "")
      (subst (λ (l : List Document). All (All (λ x. In x (map (λ (d : Document). d.id) l))) s.waves)
        (sym (build_selection-documents docs s e)) (build_selection_known docs s e))
      λ d k. absurd (true≢false (sym k))
