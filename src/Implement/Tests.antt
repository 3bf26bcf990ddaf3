-- ===== src/Implement/Tests.antt =====
-- Implement on the local backend's ledgers.
use bachkator.Base.{
  ℕ, suc, String, true, false, Option, none, some, List, [], ◌∷◌, ◌==◌, ◌≡◌, refl, subst, map,
  Result, ok, err, ok-injective, arith, All, Bool-cases, inl, inr, if◌then◌else◌,
}
use mathlib.Core.List.{cons≢nil}
use bachkator.State.Time.{format_time, parse_time, compare_text}
use bachkator.State.PlanLedgers.Compare.{PlanLedger, Content}
use bachkator.State.PlanLedgers.{LedgerTables, ledger_row}
use bachkator.Implement.Local.{client_record, client_get}
use bachkator.Plan.Types.{Selection, Document, Ledger, LedgerSummary, StatusRecord, diag}
use bachkator.Plan.Ledgers.{validate_ledger, implemented, ledger_schema_version}
use bachkator.Plan.Status.{status_record}
use bachkator.Implement.Types.{ExecOptions, invalid_plan, StatusResult, Service, Ended}
use bachkator.Implement.{implement}
use bachkator.Implement.Guards.{IsDone, Allowed, implement-dependencies}
use bachkator.Implement.Records.{HasIds, implement-status_record}

-- The tables of ledgers, a clock that ticks at every reading, and ids that are not used yet.
record World : Type 0 where
  seconds : ℕ
  fresh : List String
  tables : LedgerTables

abbrev no_ids : String
no_ids = "no id"

abbrev take_id : World → List String → Result String (String × World)
take_id w [] = err no_ids
take_id w (id ∷ ids) = if id == "" then err no_ids else ok (id, record w { fresh = ids })

abbrev with_tables : World → Result String LedgerTables → Result String World
with_tables w (ok t) = ok (record w { tables = t })
with_tables w (err e) = err e

-- The service of a local backend.
abbrev service : Option String → Service World Content
service run_err = record {
  has_project = true;
  templates = λ t. some "implement";
  has_policy = λ p. false;
  has_target = λ t. false;
  get_ledger = λ id w. client_get id w.tables;
  store_ledger = λ l w. with_tables w (client_record l w.tables);
  run_targets = λ doc target template dry w. (run_err, w);
  list_runs = λ target w. ok ("run-1" ∷ []);
  now = λ w. (record { seconds = suc w.seconds; nanos = 0 }, record w { seconds = suc w.seconds });
  new_id = λ w. take_id w w.fresh;
  no_content = [];
  quote = λ t. t;
}

take_id-named :
    (w w' : World) (ids : List String) (id : String)
    → take_id w ids ≡ ok (id, w')
    → (id == "") ≡ false
take_id-named w w' [] id e = cc
take_id-named w w' (x ∷ ids) id e = elim (Bool-cases (x == "")) [
  | inl k ↦ absurd (err-ne (rw k at e))
  | inr k ↦ subst (λ (p : String × World). (p.0 == "") ≡ false) (ok-injective (rw k at e)) k
]
  where
    err-ne : ◌≡◌ {A = Result String (String × World)} (err no_ids) (ok (id, w')) → ⊥
    err-ne h = cc

service-HasIds : HasIds (service none)
service-HasIds = record {
  ids = λ w w' id. take_id-named w w' w.fresh id;
  times = λ w. ground arith;
}

abbrev doc : String → List String → Document
doc id deps = record {
  path = "plans/a.md";
  id = id;
  title = "";
  description = "";
  depends_on = deps;
  agent_template = "coder";
  policy = "";
  required_targets = [];
  labels = [];
  metadata = [];
  hash = "sha256:1";
}

abbrev found : StatusRecord
found = record {
  document = doc "b" ("a" ∷ []);
  status = "planned";
  diagnostics = [];
  ledger = none;
}

abbrev sel : Selection
sel = record { documents = doc "b" ("a" ∷ []) ∷ []; waves = ("b" ∷ []) ∷ []; diagnostics = [] }

abbrev status : Result String StatusResult
status = ok (record { selection = sel; records = found ∷ []; diagnostics = [] })

abbrev plain : ExecOptions
plain = record { dry_run = false; force = false; template = "" }

abbrev noon : ℕ
noon = 63000000000

abbrev of_a : String → PlanLedger
of_a state = record {
  schema_version = ledger_schema_version;
  ledger_id = "l";
  plan_id = "a";
  status = state;
  hash = "sha256:0";
  run_id = "";
  commit_sha = "";
  recorded_at = record { seconds = noon; nanos = 0 };
  evidence = [];
  implemented_at = record { seconds = noon; nanos = 0 };
}

abbrev world : String → World
world state = record {
  seconds = noon;
  fresh = "l1" ∷ "e1" ∷ "l2" ∷ "e2" ∷ "l3" ∷ "e3" ∷ [];
  tables = record { ledgers = ledger_row (of_a state) ∷ []; evidence = [] };
}

abbrev done : World
done = world implemented

abbrev written_of : Ended World → List String
written_of e = map (λ (l : LedgerSummary). l.status) e.result.written

implemented_written :
    written_of (implement (service none) plain status done)
    ≡ "pending" ∷ "in_progress" ∷ "implemented" ∷ []
unfolding implement diag client_get client_record ledger_row format_time parse_time compare_text
implemented_written = refl

failed_written :
    written_of (implement (service (some "exit 1")) plain status done)
    ≡ "pending" ∷ "in_progress" ∷ "failed" ∷ []
unfolding implement diag client_get client_record ledger_row format_time parse_time compare_text
failed_written = refl

-- A dependency that is in progress stops the execution.
not_ready : (implement (service none) plain status (world "in_progress")).error ≡ some invalid_plan
unfolding implement diag client_get client_record ledger_row format_time parse_time compare_text
not_ready = refl

implement-dependencies_example :
    All (IsDone (service none) plain done) ("a" ∷ []) × Allowed (service none) plain "planned"
unfolding implement diag client_get client_record ledger_row format_time parse_time compare_text
implement-dependencies_example =
    implement-dependencies (service none) plain sel found [] done cons≢nil

-- The ledger that the local backend returns afterwards.
stored_status :
    elim (client_get "b" (implement (service none) plain status done).state.tables) [
      | ok (some l) ↦ (status_record (λ x. "") (doc "b" ("a" ∷ [])) (some l)).status
      | ok none ↦ ""
      | err e ↦ e
    ]
    ≡ implemented
unfolding implement diag client_get client_record ledger_row format_time parse_time compare_text
    status_record validate_ledger
stored_status = refl

implement-status_record_example :
    (l : Ledger Content) × (before : World) × ((service none).store_ledger l before
      ≡ ok (implement (service none) plain status done).state)
    × (l.plan_id ≡ "b")
    × ((status_record (λ x. "") (doc "b" ("a" ∷ [])) (some l)).status ≡ implemented)
unfolding implement diag client_get client_record ledger_row format_time parse_time compare_text
implement-status_record_example =
    implement-status_record (service none) service-HasIds plain sel found [] done (λ x. "") refl
      (refl, refl)
