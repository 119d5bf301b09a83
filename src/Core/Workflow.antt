-- ===== src/Core/Workflow.antt =====
-- src/panopticon/core/workflow.py and core/state.py: a workflow's resolved state graph and the
-- queries on it. The moves of a task along the graph are in the child `Lifecycle`.
pub mod Lifecycle
pub mod Moves
pub mod WellFormed
pub mod Resolution
pub mod Phases
use panopticon_next.Base.{
  String, Bool, true, false, Option, none, some, List, [], ◌∷◌, Result, ok, err, ◌>>=◌,
  invalid_workflow, illegal_transition, attribute_error, or_raise, contains,
}
use panopticon_next.Base.Table.{Table, lookup}
use panopticon_next.Core.Models.{Actor, Responsibility}

-- Which of the base classes a state class extends: `TerminalState`, `State` or `InitialState`.
pub data StateKind : Type 0 where
  terminal plain initial : StateKind

-- The class attributes that the state machine reads. A class may lack `turn_on_enter`.
pub record StateClass : Type 0 where
  pub kind : StateKind
  pub description : String
  pub turn_on_enter : Option Actor
  pub advanced_by : Actor
  pub responsibilities : List Responsibility

-- `_Graph`: keyed by label, in the order of declaration.
pub record Graph : Type 0 where
  pub states : Table StateClass
  pub transitions : Table (List String)
  pub operations : Table (Table String)
  pub initial : String

-- The class attributes of a workflow that the control plane reads, with its graph.
pub record Workflow : Type 0 where
  pub name : String
  pub graph : Graph
  pub orchestrates : Bool
  pub opt_in : Bool
  pub hidden : Bool
  pub configures_repo_credentials : Bool
  pub default_harness : Option String
  pub default_model : Option String
  pub review_harness : Option String
  pub review_model : Option String
  -- the names of `container_skills()`
  pub skill_names : List String

abbrev pub is_terminal_kind : StateKind → Bool
is_terminal_kind StateKind.terminal = true
is_terminal_kind _ = false

module _ (wf : Workflow) where
  open wf use {graph}

  unfoldable pub state_class : String → Result StateClass
  state_class label = or_raise (lookup label graph.states) invalid_workflow

  unfoldable pub transitions : String → Result (List String)
  unfolding state_class
  transitions label = do
    cls ← state_class label
    or_raise (lookup label graph.transitions) invalid_workflow

  unfoldable pub operations : String → Result (Table String)
  unfolding state_class
  operations label = do
    cls ← state_class label
    or_raise (lookup label graph.operations) invalid_workflow

  -- A missing key on either level is the same `KeyError`.
  unfoldable pub resolve_operation : String → String → Result String
  unfolding state_class
  resolve_operation label operation = do
    cls ← state_class label
    ops ← or_raise (lookup label graph.operations) illegal_transition
    or_raise (lookup operation ops) illegal_transition

  unfoldable pub can_transition : String → String → Result Bool
  unfolding transitions
  can_transition source dest = do dests ← transitions source; ok (contains dests dest)

  unfoldable pub is_terminal : String → Result Bool
  unfolding state_class
  is_terminal label = do cls ← state_class label; ok (is_terminal_kind cls.kind)

  unfoldable pub turn_on_enter : String → Result Actor
  unfolding state_class
  turn_on_enter label = do cls ← state_class label; or_raise cls.turn_on_enter attribute_error

  -- Only subclasses of `State` are advanced.
  abbrev advanced_by_of : StateClass → StateKind → Result Actor
  advanced_by_of cls StateKind.terminal = err invalid_workflow
  advanced_by_of cls _ = ok cls.advanced_by

  unfoldable pub advanced_by : String → Result Actor
  unfolding state_class
  advanced_by label = do cls ← state_class label; advanced_by_of cls cls.kind

  unfoldable pub responsibilities : String → Result (List Responsibility)
  unfolding state_class
  responsibilities label = do cls ← state_class label; ok cls.responsibilities
