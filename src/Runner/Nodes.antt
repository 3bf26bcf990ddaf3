-- ===== src/Runner/Nodes.antt =====
-- internal/runner/execution_graph.go: what a finished execution graph tells of a node.
--
-- The maps are functions. Of a target, the name and the runtime lock are read; the plan of a run
-- is its function from names to targets.
use bachkator.Base.{
  ℕ, String, Bool, true, false, Option, none, some, List, [], ◌∷◌, ◌++◌, ◌==◌, if◌then◌else◌,
  exists,
}

pub record Target : Type 0 where
  pub name : String
  pub lock : String

pub data NodeKind : Type 0 where
  target barrier scope_start : NodeKind

pub record ExecNode : Type 0 where
  pub id : String
  pub kind : NodeKind
  pub node_target : Option Target
  pub depth : ℕ

pub record ExecutionScope : Type 0 where
  pub name : String
  pub depth : ℕ

pub record ExecutionGraph : Type 0 where
  pub nodes : String → Option ExecNode
  pub targets : String → Option Target
  pub members : String → List ExecutionScope
  pub scopes : String → Bool
  pub plan : String → Option Target

-- isBarrier
unfoldable pub is_barrier : ExecutionGraph → String → Bool
is_barrier g name = elim (g.nodes name) [
  | some n ↦ elim n.kind [ barrier ↦ true | _ ↦ false ]
  | none ↦ false
]

-- scopeStartTarget
unfoldable pub scope_start_target : ExecutionGraph → String → Option Target
scope_start_target g name = elim (g.nodes name) [
  | some n ↦ elim n.kind [ scope_start ↦ n.node_target | _ ↦ none ]
  | none ↦ none
]

-- scopeEndTarget
unfoldable pub scope_end_target : ExecutionGraph → String → Option Target
scope_end_target g name = elim (g.nodes name) [
  | some n ↦ elim n.kind [ target ↦ if g.scopes name then n.node_target else none | _ ↦ none ]
  | none ↦ none
]

-- appendExecutionScope
unfoldable pub append_execution_scope : List ExecutionScope → ExecutionScope → List ExecutionScope
append_execution_scope values value =
    if exists (λ v. v.name == value.name) values then values else values ++ value ∷ []
