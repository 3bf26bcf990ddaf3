-- ===== src/State/PlanLedgers/Again.antt =====
-- RecordPlanLedger of internal/state/plan_ledger.go twice with one ledger.
use bachkator.Base.{
  ◌<◌, ◌^◌, String, Bool, true, false, none, some, List, [], ◌∷◌, ◌≡◌, ◌≢◌, refl, ap, ◌∙◌, arith,
  eq_iff, eq_refl, if-elim, All, Each, All-In, All-intro, In, here, there, ok, >>=-eq-ok, eqb,
  length,
}
use bachkator.State.Tables.{Meta}
use bachkator.State.PlanLedgers.Compare.{
  PlanLedger, PlanEvidence, Compared, equal, Content, Value, null, flag, number, text, array,
  object, compared, and_then, same_value, same_found, same_entries, same_content, same_pairs,
  is_text, same_meta, same_evidence, look_up, plan_ledgers_equal,
}
use bachkator.State.PlanLedgers.{
  LedgerTables, get_plan_ledger, record_ledger, record_plan_ledger, after_commit,
  validate_for_write, insert_or_compare, on_existing,
}
use bachkator.State.PlanLedgers.Stores.{
  stored, IsLinked, record_ledger-of, record_plan_ledger-get_plan_ledger,
}

-- A value that Go compares with `==`: neither a slice nor a map.
abbrev pub is_plain : Value → Bool
is_plain (array xs) = false
is_plain (object f) = false
is_plain v = true

-- The keys of a map differ.
abbrev pub Keyed : {A : Type 0} → List (String × A) → Type 0
Keyed ps = Each (λ p q. p.0 ≢ q.0) ps

abbrev pub IsPlain : PlanEvidence → Type 0
IsPlain e = Keyed e.content × Keyed e.metadata × All (λ p. is_plain p.1 ≡ true) e.content

look_up-In :
    {A : Type 0} (p : String × A) (ps : List (String × A))
    → Keyed ps
    → In p ps
    → look_up p.0 ps ≡ some p.1
unfolding look_up
look_up-In p [] k m = elim m [ ]
look_up-In p (_ ∷ ps) k here = ground (arith, eq_refl p.0)
look_up-In p (q ∷ ps) k (there m) =
    let ne : q.0 ≢ p.0 = All-In (λ r. q.0 ≢ r.0) ps k.0 m in
    ground (arith, ne, eq_iff q.0 p.0, look_up-In p ps k.1 m)

same_value-plain : (v : Value) → is_plain v ≡ true → same_value v v ≡ equal
unfolding same_value
same_value-plain null e = refl
same_value-plain (flag true) e = refl
same_value-plain (flag false) e = refl
same_value-plain (number n) e = ap compared (eq_refl n)
same_value-plain (text s) e = ap compared (eq_refl s)
same_value-plain (array xs) e = absurd (ground arith)
same_value-plain (object f) e = absurd (ground arith)

same_entries-In :
    (ps all : Content)
    → Keyed all
    → All (λ p. In p all × (is_plain p.1 ≡ true)) ps
    → same_entries ps all ≡ equal
unfolding same_entries same_found
same_entries-In [] all k h = refl
same_entries-In (p ∷ ps) all k h =
    rw (same_entries, look_up-In p all k (h.0).0)
      (rw (same_value-plain p.1 (h.0).1) (same_entries-In ps all k h.1))

same_pairs-In : (ps all : Meta) → Keyed all → All (λ p. In p all) ps → same_pairs ps all ≡ true
unfolding same_pairs is_text
same_pairs-In [] all k h = refl
same_pairs-In (p ∷ ps) all k h =
    rw (same_pairs, look_up-In p all k h.0)
      (ground (arith, eq_refl p.1, same_pairs-In ps all k h.1))

same_content_self :
    (c : Content) → Keyed c → All (λ p. is_plain p.1 ≡ true) c → same_content c c ≡ equal
unfolding same_content
same_content_self c keyed plain =
    if-elim (λ x. x ≡ equal) (eqb (length c) (length c))
      (λ _. same_entries-In c c keyed (All-intro _ c λ p m. (m, All-In _ c plain m)))
      λ no_. absurd (ground (arith, no_))

same_meta_self : (c : Meta) → Keyed c → same_meta c c ≡ true
unfolding same_meta
same_meta_self c keyed = ground (arith, same_pairs-In c c keyed (All-intro _ c λ p m. m))

and_then-equal : (a b : Compared) → a ≡ equal → b ≡ equal → and_then a b ≡ equal
and_then-equal a b e k = rw e k

compared-true : (b : Bool) → b ≡ true → compared b ≡ equal
compared-true b e = rw e refl

same_evidence_self : (es : List PlanEvidence) → All IsPlain es → same_evidence es es ≡ equal
unfolding same_evidence
same_evidence_self [] h = refl
same_evidence_self (e ∷ es) h =
    let (content, meta, plain) = h.0 in
    and_then-equal _ _
      (compared-true _ (ground (arith, eq_refl e.id, eq_refl e.kind, eq_refl e.hash)))
      (and_then-equal _ _ (same_content_self e.content content plain) (
        and_then-equal _ _ (compared-true _ (same_meta_self e.metadata meta))
          (same_evidence_self es h.1)))

plan_ledgers_equal_self : (l : PlanLedger) → All IsPlain l.evidence → plan_ledgers_equal l l ≡ equal
unfolding plan_ledgers_equal
plan_ledgers_equal_self l h =
    and_then-equal _ _
      (compared-true _ (
        ground (
          arith,
          eq_refl l.schema_version,
          eq_refl l.ledger_id,
          eq_refl l.plan_id,
          eq_refl l.status,
          eq_refl l.hash,
          eq_refl l.run_id,
          eq_refl l.commit_sha,
        )))
      (same_evidence_self l.evidence h)

again :
    (l : PlanLedger) (t t' : LedgerTables)
    → record_ledger l t ≡ ok t'
    → get_plan_ledger l.ledger_id t' ≡ some l
    → All IsPlain l.evidence
    → record_ledger l t' ≡ ok t'
unfolding record_ledger insert_or_compare on_existing
again l t t' e found plain =
    let (u, valid, _) = >>=-eq-ok (validate_for_write l) _ e in
    rw (record_ledger, valid)
      (rw (insert_or_compare, found) (rw (on_existing, plan_ledgers_equal_self l plain) refl))

-- Recording a ledger a second time succeeds and changes nothing: where the first time its id was
-- new, it has the schema of ledgers and its evidence stands in the order of the ids; the store's
-- evidence is linked, the times have less than a second of nanoseconds, and the evidence has maps
-- with distinct keys whose contents hold no slice and no map.
pub record_plan_ledger-again :
    (l : PlanLedger) (t t' : LedgerTables)
    → IsLinked t
    → l.recorded_at.nanos < 10 ^ 9
    → l.implemented_at.nanos < 10 ^ 9
    → get_plan_ledger l.ledger_id t ≡ none
    → stored l ≡ l
    → All IsPlain l.evidence
    → record_plan_ledger l (some t) ≡ (ok tt, some t')
    → record_plan_ledger l (some t') ≡ (ok tt, some t')
unfolding record_plan_ledger
record_plan_ledger-again l t t' linked recorded implemented absent sorted plain e =
    let found =
      record_plan_ledger-get_plan_ledger l t t' linked recorded implemented absent e
      ∙ ap some sorted in
    ap (after_commit t') (again l t t' (record_ledger-of l t t' e) found plain)
