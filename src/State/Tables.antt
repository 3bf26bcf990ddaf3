-- ===== src/State/Tables.antt =====
-- internal/state/factory.go: the rows of the factory tables and the records that the store
-- returns, and internal/state/factory_scan.go, which turns one into the other.
--
-- A record is parametrised by what stands for a time, so that one declaration serves the row
-- (texts in columns) and the Go struct (values).
use bachkator.Base.{◌≡◌, refl, subst, ap, ℕ, String, Option, none, some, List, Result, ok, err}
use mathlib.Core.Option.{some-injective}
use bachkator.Model.{Lifecycle, Priority}
use bachkator.State.Time.{Time, Stamp}

-- map[string]string
abbrev pub Meta : Type 0
Meta = List (String × String)

-- A column of JSON text: the text that json.Marshal writes for a value, or a text that is not
-- JSON for the column's type.
pub data Json (A : Type 0) : Type 0 where
  json : A → Json A
  text : String → Json A

pub data StoreError : Type 0 where
  read_only no_rows constraint bad_json : StoreError
  missing_fields : StoreError
  already_leased : String → String → StoreError
  not_pending : String → StoreError
  not_waiting : String → StoreError
  wrong_phase : String → String → String → StoreError

abbrev pub Outcome : Type 0 → Type 0
Outcome A = Result StoreError A

-- FactoryWorkItem without the attempts and the events, which stand in tables of their own.
pub record Columns (T L M : Type 0) : Type 0 where
  pub id : String
  pub factory : String
  pub workflow : String
  pub lifecycle : Lifecycle
  pub current_phase : String
  pub title : String
  pub body : String
  pub body_hash : String
  pub priority : Priority
  pub labels : L
  pub source_type : String
  pub source_id : String
  pub dedupe_key : String
  pub submitted_plan_path : String
  pub submitted_plan_hash : String
  pub intake_evidence_id : String
  pub intake_evidence_uri : String
  pub intake_evidence_hash : String
  pub metadata : M
  pub created_at : T
  pub updated_at : T
  pub cancelled_at : T
  pub cancel_reason : String
  pub claimed_by_daemon_id : String
  pub claimed_at : T
  pub claim_expires_at : T
  pub completed_at : T
  pub failed_at : T
  pub failure_phase : String
  pub failure_message : String

pub record Attempt (T : Type 0) : Type 0 where
  pub id : String
  pub work_item_id : String
  pub attempt_number : ℕ
  pub status : Lifecycle
  pub start_phase : String
  pub submitted_plan_path : String
  pub submitted_plan_hash : String
  pub created_at : T
  pub updated_at : T
  pub finished_at : T

pub record Event (T M : Type 0) : Type 0 where
  pub id : String
  pub work_item_id : String
  pub attempt_id : String
  pub type : String
  pub message : String
  pub metadata : M
  pub created_at : T

pub data LeaseStatus : Type 0 where
  active expired released : LeaseStatus

pub record Lease (T : Type 0) : Type 0 where
  pub daemon_id : String
  pub factory : String
  pub hostname : String
  pub pid : ℕ
  pub acquired_at : T
  pub renewed_at : T
  pub expires_at : T
  pub released_at : T
  pub status : LeaseStatus

pub record Phase (T M : Type 0) : Type 0 where
  pub work_item_id : String
  pub attempt_id : String
  pub phase_key : String
  pub status : String
  pub target : String
  pub run_id : String
  pub plan_path : String
  pub ledger_id : String
  pub evidence : M
  pub started_at : T
  pub finished_at : T
  pub updated_at : T

pub record Approval (T M : Type 0) : Type 0 where
  pub id : String
  pub factory : String
  pub workflow : String
  pub work_item_id : String
  pub attempt_id : String
  pub phase : String
  pub plan_path : String
  pub plan_hash : String
  pub approved_at : T
  pub approver : String
  pub approver_source : String
  pub reason : String
  pub metadata : M

pub record FactoryWorkItem : Type 0 where
  pub columns : Columns Time (List String) Meta
  pub open columns use *
  pub attempts : List (Attempt Time)
  pub events : List (Event Time Meta)

abbrev pub ItemRow : Type 0
ItemRow = Columns Stamp (Json (List String)) (Json Meta)

abbrev pub AttemptRow : Type 0
AttemptRow = Attempt Stamp

abbrev pub EventRow : Type 0
EventRow = Event Stamp (Json Meta)

abbrev pub LeaseRow : Type 0
LeaseRow = Lease Stamp

abbrev pub PhaseRow : Type 0
PhaseRow = Phase Stamp (Json Meta)

abbrev pub ApprovalRow : Type 0
ApprovalRow = Approval Stamp (Json Meta)

-- The factory tables of the database.
pub record Db : Type 0 where
  pub items : List ItemRow
  pub attempts : List AttemptRow
  pub events : List EventRow
  pub leases : List LeaseRow
  pub phases : List PhaseRow
  pub approvals : List ApprovalRow

-- `s.db`, which is nil once the store is closed.
abbrev pub Store : Type 0
Store = Option Db

-- What runs between `Begin` and `Commit` returns the new database; on an error the deferred
-- `Rollback` leaves the old one.
abbrev pub commit : {A : Type 0} → Db → Outcome (A × Db) → Outcome A × Store
commit db (ok (a, db')) = (ok a, some db')
commit db (err e) = (err e, some db)

abbrev pub transaction : {A : Type 0} → (Db → Outcome (A × Db)) → Store → Outcome A × Store
transaction body none = (err read_only, none)
transaction body (some db) = commit db (body db)

-- What each committing run of a body establishes holds after the transaction, if it held before.
pub commit-keeps :
    {A : Type 0} (P : Db → Type 0) (db db' : Db) (r : Outcome (A × Db))
    → P db
    → ((a : A) (d : Db) → r ≡ ok (a, d) → P d)
    → (commit db r).1 ≡ some db'
    → P db'
commit-keeps P db db' (ok (a, d)) h keep e = subst P (some-injective _ _ e) (keep a d refl)
commit-keeps P db db' (err x) h keep e = subst P (some-injective _ _ e) h

-- A transaction that succeeds ran its body to the end.
pub commit-eq-ok :
    {A : Type 0} (db db' : Db) (r : Outcome (A × Db)) (a : A)
    → commit db r ≡ (ok a, some db')
    → r ≡ ok (a, db')
commit-eq-ok db db' (ok (x, d)) a e =
    let first : ◌≡◌ {A = Outcome _} (ok x) (ok a) = ap (λ p. p.0) e in
    let second : some d ≡ some db' = ap (λ p. p.1) e in cc
commit-eq-ok db db' (err x) a e = absurd (refused (ap (λ p. p.0) e))
  where
    refused : ◌≡◌ {A = Outcome _} (err x) (ok a) → ⊥
    refused h = cc
