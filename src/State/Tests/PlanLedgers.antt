-- ===== src/State/Tests/PlanLedgers.antt =====
-- The ledgers of internal/state/plan_ledger.go on concrete tables.
use bachkator.Base.{String, Option, some, List, [], ◌∷◌, ◌≡◌, refl, arith, All, text_ne, ok, err}
use bachkator.State.Time.{format_time, parse_time, compare_text}
use bachkator.State.Tests.{second}
use bachkator.State.PlanLedgers.Compare.{
  PlanLedger, PlanEvidence, no_values, value, number, text, array,
}
use bachkator.State.PlanLedgers.{
  LedgerRow, EvidenceRow, LedgerTables, conflict, panicked, id_taken, plan_schema, get_plan_ledger,
  record_plan_ledger, get_latest_plan_ledger, list_plan_ledgers, ledger_row,
}
use bachkator.State.PlanLedgers.Keeps.{record_plan_ledger_keeps}
use bachkator.State.PlanLedgers.Stores.{stored, record_plan_ledger-get_plan_ledger}
use bachkator.State.PlanLedgers.Again.{IsPlain, record_plan_ledger-again}

abbrev proof : String → PlanEvidence
proof id = record {
  id = id;
  kind = "report";
  hash = "h";
  content = ("state", text "passed") ∷ ("files", number "2") ∷ [];
  metadata = ("by", "ci") ∷ [];
}

abbrev nested : PlanEvidence
nested = record (proof "n") { content = ("files", array (value (text "a.go") no_values)) ∷ [] }

abbrev ledger : String → List PlanEvidence → PlanLedger
ledger id evidence = record {
  schema_version = plan_schema;
  ledger_id = id;
  plan_id = "P1";
  status = "implemented";
  hash = "p";
  run_id = "r";
  commit_sha = "c";
  recorded_at = second 63000000000;
  evidence = evidence;
  implemented_at = second 63000000000;
}

abbrev tables : List LedgerRow → List EvidenceRow → LedgerTables
tables ledgers evidence = record { ledgers = ledgers; evidence = evidence }

abbrev before : LedgerTables
before =
    tables (ledger_row (ledger "L1" []) ∷ [])
      (record { evidence = proof "a"; of_ledger = "L1" } ∷ [])

abbrev two : PlanLedger
two = ledger "L2" (proof "b" ∷ proof "c" ∷ [])

abbrev after : LedgerTables
after = tables (ledger_row (ledger "L1" []) ∷ ledger_row two ∷ []) (
    record { evidence = proof "a"; of_ledger = "L1" }
    ∷ record { evidence = proof "b"; of_ledger = "L2" }
    ∷ record { evidence = proof "c"; of_ledger = "L2" }
    ∷ [])

recorded : record_plan_ledger two (some before) ≡ (ok tt, some after)
unfolding record_plan_ledger ledger_row parse_time format_time
recorded = refl

record_plan_ledger_keeps_example : get_plan_ledger "L1" after ≡ some (ledger "L1" (proof "a" ∷ []))
unfolding get_plan_ledger record_plan_ledger ledger_row parse_time format_time
record_plan_ledger_keeps_example =
    record_plan_ledger_keeps "L1" (ledger "L1" (proof "a" ∷ [])) two before after refl refl

record_plan_ledger-get_plan_ledger_example : get_plan_ledger "L2" after ≡ some (stored two)
unfolding get_plan_ledger record_plan_ledger ledger_row parse_time format_time
record_plan_ledger-get_plan_ledger_example =
    record_plan_ledger-get_plan_ledger two before after (refl, tt) (omega arith) (omega arith) refl
      refl

record_plan_ledger-again_example : record_plan_ledger two (some after) ≡ (ok tt, some after)
unfolding get_plan_ledger record_plan_ledger ledger_row parse_time format_time
record_plan_ledger-again_example =
    record_plan_ledger-again two before after (refl, tt) (omega arith) (omega arith) refl refl plain
      refl
  where
    plain_b : IsPlain (proof "b")
    plain_b = (((text_ne "state" "files" refl, tt), (tt, tt)), (tt, tt), (refl, (refl, tt)))

    plain : All IsPlain two.evidence
    plain = (plain_b, (plain_b, tt))

-- A ledger with evidence that is not in the order of the ids conflicts with itself.
abbrev unsorted : PlanLedger
unsorted = ledger "L3" (proof "e" ∷ proof "d" ∷ [])

abbrev of_two : PlanLedger → Option LedgerTables
of_two l = some (
    tables (ledger_row l ∷ []) (
      record { evidence = proof "e"; of_ledger = "L3" }
      ∷ record { evidence = proof "d"; of_ledger = "L3" }
      ∷ []))

unsorted_first : record_plan_ledger unsorted (some (tables [] [])) ≡ (ok tt, of_two unsorted)
unfolding record_plan_ledger ledger_row parse_time format_time
unsorted_first = refl

unsorted_again : record_plan_ledger unsorted (of_two unsorted) ≡ (err conflict, of_two unsorted)
unfolding record_plan_ledger ledger_row parse_time format_time
unsorted_again = refl

-- Content that holds a slice panics in the comparison.
nested_again :
    record_plan_ledger
      (ledger "L4" (nested ∷ []))
      (record_plan_ledger (ledger "L4" (nested ∷ [])) (some (tables [] []))).1
    ≡ (err panicked, (record_plan_ledger (ledger "L4" (nested ∷ [])) (some (tables [] []))).1)
unfolding record_plan_ledger ledger_row parse_time format_time
nested_again = refl

-- Evidence of another ledger with the id refuses the ledger.
evidence_taken :
    record_plan_ledger (ledger "L5" (proof "a" ∷ [])) (some before) ≡ (err id_taken, some before)
unfolding record_plan_ledger ledger_row parse_time format_time
evidence_taken = refl

latest : get_latest_plan_ledger "P1" (some after) ≡ some two
unfolding get_latest_plan_ledger ledger_row compare_text format_time parse_time
latest = refl

listed : list_plan_ledgers (some after) ≡ ledger "L1" (proof "a" ∷ []) ∷ two ∷ []
unfolding list_plan_ledgers ledger_row compare_text format_time parse_time
listed = refl
