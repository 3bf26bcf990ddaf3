-- ===== src/PlanStatus.antt =====
-- internal/planstatus/status.go: the status of the plans in files.
--
-- What loadDocument returned for each path is an argument, since it reads files; so are the maps of
-- the project, as tests on their keys.
pub mod Clean
mod Tests
use bachkator.Base.{
  String, Bool, true, false, ◌&&◌, not, Option, none, some, List, [], ◌∷◌, ◌++◌, ◌==◌, ◌≡◌, refl,
  if◌then◌else◌, Result, ok, err, ◌>>=◌,
}
use Prim.Native.String.{◌++◌ as ◌+++◌}
use bachkator.Plan.Types.{Document, Diagnostic, Ledger, StatusRecord, Selection, diag}
use bachkator.Plan.Waves.{build_selection}
use bachkator.Plan.Waves.Ends.{build_selection_ends}
use bachkator.Plan.Status.{derive_statuses}
use bachkator.Implement.Types.{StatusResult}
use bachkator.Implement.Checks.{canonical_ref}

-- The outcome of a path: the context is done before it is read, loadDocument fails, or it returns a
-- document with its diagnostics.
pub data Loaded : Type 0 where
  stopped : Loaded
  unreadable : String → String → Loaded
  loaded : Document → List Diagnostic → Loaded

pub data StatusError : Type 0 where
  no_project no_plan_paths context_done : StatusError
  ledger_error : String → StatusError

-- The maps AgentTemplates, Policies and Targets; the last one by the name before it is resolved.
pub record Project : Type 0 where
  pub knows_template : String → Bool
  pub knows_policy : String → Bool
  pub knows_target : String → Bool

-- validateReferences
unfoldable pub required_targets : Project → Document → List String → List Diagnostic
required_targets p doc [] = []
required_targets p doc (t ∷ ts) =
    let rest = required_targets p doc ts in
    if p.knows_target t
    then rest
    else diag doc.path "unknown-required-target" ("unknown required target " +++ t) ∷ rest

unfoldable pub validate_references : Project → Document → List Diagnostic
unfolding required_targets
validate_references p doc =
    (if not (doc.agent_template == "")
        && not (p.knows_template (canonical_ref doc.agent_template "agent_template"))
      then diag doc.path "unknown-agent-template" ("unknown Agent Template " +++ doc.agent_template)
        ∷ []
      else [])
    ++ (if not (doc.policy == "") && not (p.knows_policy (canonical_ref doc.policy "policy"))
        then diag doc.path "unknown-policy" ("unknown policy " +++ doc.policy) ∷ []
        else [])
    ++ required_targets p doc doc.required_targets

-- The loop over the paths.
unfoldable pub load_all :
    Project → List Loaded → Result StatusError (List Document × List Diagnostic)
unfolding validate_references
load_all p [] = ok ([], [])
load_all p (stopped ∷ rest) = err context_done
load_all p (unreadable path message ∷ rest) =
    load_all p rest >>= λ (docs, ds). ok (docs, diag path "plan-file-error" message ∷ ds)
load_all p (loaded doc own ∷ rest) =
    load_all p rest >>= λ (docs, ds). ok (doc ∷ docs, own ++ validate_references p doc ++ ds)

unfoldable pub record_diagnostics : List StatusRecord → List Diagnostic
record_diagnostics [] = []
record_diagnostics (r ∷ rs) = r.diagnostics ++ record_diagnostics rs

unfoldable pub finish :
    {C : Type 0} → List Diagnostic → Selection → (String → Option (Ledger C)) → StatusResult
unfolding record_diagnostics
finish ds selection ledgers =
    let records = derive_statuses selection ledgers in
    record {
      selection = selection;
      records = records;
      diagnostics = ds ++ selection.diagnostics ++ record_diagnostics records;
    }

module _ {C : Type 0} (get : String → Result String (Option (Ledger C))) where
  -- ledgers[doc.ID] = …
  abbrev pub put_ledger :
      String → Option (Ledger C) → (String → Option (Ledger C)) → String → Option (Ledger C)
  put_ledger id none ledgers x = ledgers x
  put_ledger id (some l) ledgers x = if id == x then some l else ledgers x

  -- The loop over the documents.
  unfoldable pub fetch :
      List Document → (String → Option (Ledger C)) → Result StatusError (String → Option (Ledger C))
  fetch [] ledgers = ok ledgers
  fetch (doc ∷ docs) ledgers = elim (get doc.id) [
    | ok found ↦ fetch docs (put_ledger doc.id found ledgers)
    | err e ↦ err (ledger_error e)
  ]

  unfoldable pub with_selection :
      List Diagnostic → Option Selection → Option (Result StatusError StatusResult)
  unfolding fetch finish
  with_selection ds none = none
  with_selection ds (some selection) =
      some (fetch selection.documents (λ id. none) >>= λ ledgers. ok (finish ds selection ledgers))

  unfoldable pub with_loaded :
      Result StatusError (List Document × List Diagnostic)
      → Option (Result StatusError StatusResult)
  unfolding with_selection
  with_loaded (err e) = some (err e)
  with_loaded (ok (docs, ds)) = with_selection ds (build_selection docs)

  -- Status; `none` where the loops of BuildSelection run out of fuel, which they never do.
  unfoldable pub status : Option Project → List Loaded → Option (Result StatusError StatusResult)
  unfolding with_loaded load_all
  status none loads = some (err no_project)
  status (some p) [] = some (err no_plan_paths)
  status (some p) (l ∷ loads) = with_loaded (load_all p (l ∷ loads))
