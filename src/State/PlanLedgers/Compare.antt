-- ===== src/State/PlanLedgers/Compare.antt =====
-- planLedgersEqual of internal/state/plan_ledger.go, and the ledgers it compares.
--
-- The content of evidence holds the values that json.Unmarshal makes; a nil map or slice stands as
-- the empty one, as normalizePlanLedger makes it.
use bachkator.Base.{
  String, Bool, true, false, ◌&&◌, not, Option, none, some, List, [], ◌∷◌, ◌==◌, eqb, if◌then◌else◌,
  length,
}
use bachkator.State.Time.{Time}
use bachkator.State.Tables.{Meta}

mutual
  pub data Value : Type 0 where
    null : Value
    flag : Bool → Value
    number text : String → Value
    array : Values → Value
    object : Fields → Value

  pub data Values : Type 0 where
    no_values : Values
    value : Value → Values → Values

  pub data Fields : Type 0 where
    no_fields : Fields
    field : String → Value → Fields → Fields

-- map[string]any
abbrev pub Content : Type 0
Content = List (String × Value)

pub record PlanEvidence : Type 0 where
  pub id : String
  pub kind : String
  pub hash : String
  pub content : Content
  pub metadata : Meta

pub record PlanLedger : Type 0 where
  pub schema_version : String
  pub ledger_id : String
  pub plan_id : String
  pub status : String
  pub hash : String
  pub run_id : String
  pub commit_sha : String
  pub recorded_at : Time
  pub evidence : List PlanEvidence
  pub implemented_at : Time

-- The outcome of a comparison with `==`, where values of one type that has no `==` panic.
pub data Compared : Type 0 where
  equal different panics : Compared

abbrev pub compared : Bool → Compared
compared true = equal
compared false = different

-- The rest of a chain of comparisons joined by `||`, which stops at the first difference.
abbrev pub and_then : Compared → Compared → Compared
and_then equal rest = rest
and_then different rest = different
and_then panics rest = panics

-- v1 == v2 of two values of type `any`
unfoldable pub same_value : Value → Value → Compared
same_value null null = equal
same_value (flag true) (flag b) = compared b
same_value (flag false) (flag b) = compared (not b)
same_value (number m) (number n) = compared (m == n)
same_value (text s) (text t) = compared (s == t)
same_value (array xs) (array ys) = panics
same_value (object f) (object g) = panics
same_value a b = different

unfoldable pub look_up : {A : Type 0} → String → List (String × A) → Option A
look_up k [] = none
look_up k (p ∷ ps) = let rest = look_up k ps in if p.0 == k then some p.1 else rest

-- maps.Equal on contents; Go goes through the keys in no fixed order.
unfoldable pub same_found : Value → Option Value → Compared
unfolding same_value
same_found v none = different
same_found v (some w) = same_value v w

unfoldable pub same_entries : Content → Content → Compared
unfolding look_up same_found
same_entries [] b = equal
same_entries (p ∷ ps) b = and_then (same_found p.1 (look_up p.0 b)) (same_entries ps b)

unfoldable pub same_content : Content → Content → Compared
unfolding same_entries
same_content a b = if eqb (length a) (length b) then same_entries a b else different

-- maps.Equal on metadata
unfoldable pub is_text : String → Option String → Bool
is_text v none = false
is_text v (some w) = v == w

unfoldable pub same_pairs : Meta → Meta → Bool
unfolding look_up is_text
same_pairs [] b = true
same_pairs (p ∷ ps) b = is_text p.1 (look_up p.0 b) && same_pairs ps b

unfoldable pub same_meta : Meta → Meta → Bool
unfolding same_pairs
same_meta a b = eqb (length a) (length b) && same_pairs a b

-- The loop of planLedgersEqual over the evidence, of which both have as much.
unfoldable pub same_evidence : List PlanEvidence → List PlanEvidence → Compared
unfolding same_content same_meta
same_evidence [] bs = equal
same_evidence (a ∷ as_) [] = equal
same_evidence (a ∷ as_) (b ∷ bs) =
    and_then (compared ((a.id == b.id) && (a.kind == b.kind) && (a.hash == b.hash))) (
      and_then (same_content a.content b.content)
        (and_then (compared (same_meta a.metadata b.metadata)) (same_evidence as_ bs)))

abbrev pub same_time : Time → Time → Bool
same_time a b = eqb a.seconds b.seconds && eqb a.nanos b.nanos

-- planLedgersEqual; only a ledger without a schema is changed by normalizePlanLedger, and no
-- ledger that passes the validation is one.
unfoldable pub plan_ledgers_equal : PlanLedger → PlanLedger → Compared
unfolding same_evidence
plan_ledgers_equal a b =
    and_then
      (compared (
        (a.schema_version == b.schema_version)
        && (a.ledger_id == b.ledger_id)
        && (a.plan_id == b.plan_id)
        && (a.status == b.status)
        && (a.hash == b.hash)
        && (a.run_id == b.run_id)
        && (a.commit_sha == b.commit_sha)
        && same_time a.recorded_at b.recorded_at
        && same_time a.implemented_at b.implemented_at
        && eqb (length a.evidence) (length b.evidence)))
      (same_evidence a.evidence b.evidence)
