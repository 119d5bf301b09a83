-- ===== src/Core/Workflow/Resolution.antt =====
-- The resolution of a workflow's declaration into its graph: `Workflow._graph` of core/workflow.py
-- over the state classes of core/state.py. Classes are named by texts. A class that extends
-- `BaseState` alone, or several of the kinds, against what core/state.py says, has no kind here.
pub mod Registry
pub mod Closure
pub mod Edges
pub mod Tables
pub mod Start
pub mod Sound
pub mod Refusals
pub mod Ends
use panopticon_next.Base.{
  ℕ, zero, suc, ◌+◌, String, Bool, true, false, not, ◌&&◌, ◌||◌, Option, none, some, List, [], ◌∷◌,
  ◌++◌, Result, ok, err, ◌>>=◌, ◌>>◌, raise_if, or_raise, or_else, ◌==◌, if◌then◌else◌, is_some,
  is_given, contains, select, length, invalid_workflow, attribute_error, key_error, recursion_error,
}
use mathlib.Core.List.{reverse}
use panopticon_next.Base.Table.{Table, lookup, assign, values}
use panopticon_next.Core.Models.{Actor, Responsibility, complete_label, dropped_label}
use panopticon_next.Core.Workflow.{StateKind, StateClass, Graph, is_terminal_kind}

-- An entry of `transitions`, or the target of an operation: a class, a label, or something else.
pub data Target : Type 0 where
  a_class a_label : String → Target
  malformed : Target

-- A state class: its attributes, and `transitions` as each class of its method resolution order
-- below `State` declares them.
pub record StateDecl : Type 0 where
  pub label : Option String
  pub is_abstract : Bool
  pub kind : StateKind
  pub description : String
  pub turn_on_enter : Option Actor
  pub advanced_by : Actor
  pub responsibilities : List Responsibility
  pub declared : List (List Target)
  pub operations : Table Target

-- A workflow class: the state classes that its text names, those nested in it, and `initial`.
pub record WorkflowDecl : Type 0 where
  pub classes : Table StateDecl
  pub nested : List String
  pub initial : Target

abbrev pub complete_class : String
complete_class = "panopticon.core.state.Complete"

abbrev pub dropped_class : String
dropped_class = "panopticon.core.state.Dropped"

abbrev terminal_decl : String → String → StateDecl
terminal_decl label description = record {
  label = some label;
  is_abstract = false;
  kind = StateKind.terminal;
  description = description;
  turn_on_enter = some Actor.user;
  advanced_by = Actor.user;
  responsibilities = [];
  declared = [];
  operations = [];
}

-- What a name without a class would stand for, which the registration refuses.
abbrev no_decl : StateDecl
no_decl = record (terminal_decl "" "") { label = none; is_abstract = true }

abbrev pub class_of : WorkflowDecl → String → StateDecl
class_of d id =
    if id == dropped_class
    then terminal_decl dropped_label "The task was abandoned."
    else if id == complete_class
    then terminal_decl complete_label "The work has landed; the task is finished."
    else or_else (lookup id d.classes) no_decl

abbrev pub is_terminal_class : StateDecl → Bool
is_terminal_class c = is_terminal_kind c.kind

abbrev flatten : List (List Target) → List Target
flatten [] = []
flatten (ts ∷ rest) = ts ++ flatten rest

-- `_accumulated_transitions` of a class that is not terminal: `State` comes last and declares
-- DROPPED.
abbrev pub accumulated_transitions : StateDecl → List Target
accumulated_transitions c = flatten c.declared ++ a_class dropped_class ∷ []

-- `_nested_states`.
abbrev nested_states : WorkflowDecl → List String
nested_states d = select (λ id. not (class_of d id).is_abstract) d.nested

abbrev pub is_taken : Option String → String → Bool
is_taken none id = false
is_taken (some existing) id = not (existing == id)

abbrev pub label_or_empty : StateDecl → String
label_or_empty c = or_else c.label ""

-- The inner function `register`: labels to classes.
unfoldable pub register : WorkflowDecl → Table String → String → Result (Table String)
register d by_label id = do
  raise_if (class_of d id).is_abstract invalid_workflow
  raise_if (not (is_given (class_of d id).label)) invalid_workflow
  raise_if (is_taken (lookup (label_or_empty (class_of d id)) by_label) id) invalid_workflow
  ok (assign (label_or_empty (class_of d id)) id by_label)

unfoldable pub register_all : WorkflowDecl → Table String → List String → Result (Table String)
register_all d by_label [] = ok by_label
register_all d by_label (id ∷ ids) = do
  by_label' ← register d by_label id
  register_all d by_label' ids

-- The inner function `label_of`.
unfoldable pub label_of : WorkflowDecl → Table String → Target → Result (String × Table String)
label_of d by_label (a_label l) =
    if is_some (lookup l by_label) then ok (l, by_label) else err invalid_workflow
label_of d by_label malformed = err invalid_workflow
label_of d by_label (a_class id) = do
  by_label' ← register d by_label id
  ok (label_or_empty (class_of d id), by_label')

-- The loop over the targets of one class in the closure: a new class is pushed.
unfoldable pub scan :
    WorkflowDecl → List Target → Table String → List String → Result (Table String × List String)
scan d [] by_label pending = ok (by_label, pending)
scan d (a_class id ∷ ts) by_label pending = do
  label ← or_raise (class_of d id).label attribute_error
  by_label' ← register d by_label id
  scan d ts by_label' (if is_some (lookup label by_label) then pending else id ∷ pending)
scan d (a_label l ∷ ts) by_label pending = scan d ts by_label pending
scan d (malformed ∷ ts) by_label pending = scan d ts by_label pending

-- One round of the `while` loop, on the class that was popped. The last of the Python list is the
-- head here.
unfoldable pub round :
    WorkflowDecl
    → String
    → List String
    → Table String
    → List String
    → Result (Table String × List String)
round d id visited by_label pending =
    if contains visited id || is_terminal_class (class_of d id)
    then ok (by_label, pending)
    else scan d (accumulated_transitions (class_of d id)) by_label pending

unfoldable pub close :
    WorkflowDecl → ℕ → List String → Table String → List String → Result (Table String)
close d fuel visited by_label [] = ok by_label
close d zero visited by_label (id ∷ pending) = err recursion_error
close d (suc fuel) visited by_label (id ∷ pending) = do
  next ← round d id visited by_label pending
  close d fuel (id ∷ visited) next.0 next.1

-- `frozenset(label_of(t) for t in ...)`: the labels once each, in the order of their discovery.
unfoldable pub labels_of :
    WorkflowDecl → Table String → List Target → List String → Result (List String × Table String)
labels_of d by_label [] found = ok (found, by_label)
labels_of d by_label (t ∷ ts) found = do
  labelled ← label_of d by_label t
  labels_of d labelled.1 ts (if contains found labelled.0 then found else found ++ labelled.0 ∷ [])

abbrev pub state_of : StateDecl → StateClass
state_of c = record {
  kind = c.kind;
  description = c.description;
  turn_on_enter = c.turn_on_enter;
  advanced_by = c.advanced_by;
  responsibilities = c.responsibilities;
}

-- The edges of one class.
unfoldable pub destinations :
    WorkflowDecl → Table String → StateDecl → Result (List String × Table String)
destinations d by_label c =
    if is_terminal_class c
    then ok ([], by_label)
    else labels_of d by_label (accumulated_transitions c) []

pub record Materialized : Type 0 where
  pub states : Table StateClass
  pub transitions : Table (List String)
  pub by_label : Table String

-- The loop over the registered classes that builds `states` and `transitions`.
unfoldable pub materialize : WorkflowDecl → Table String → Table String → Result Materialized
materialize d [] by_label = ok (record { states = []; transitions = []; by_label = by_label })
materialize d ((label, id) ∷ rows) by_label = do
  raise_if (not (is_some (class_of d id).turn_on_enter)) invalid_workflow
  dests ← destinations d by_label (class_of d id)
  rest ← materialize d rows dests.1
  ok (record {
    states = (label, state_of (class_of d id)) ∷ rest.states;
    transitions = (label, dests.0) ∷ rest.transitions;
    by_label = rest.by_label;
  })

-- `target if isinstance(target, str) else target.label`.
abbrev pub operation_dest : WorkflowDecl → Target → Result String
operation_dest d (a_label l) = ok l
operation_dest d (a_class id) = or_raise (class_of d id).label attribute_error
operation_dest d malformed = err attribute_error

unfoldable pub declared_operations :
    WorkflowDecl → List String → Table Target → Table String → Result (Table String)
declared_operations d dests [] ops = ok ops
declared_operations d dests ((name, target) ∷ rest) ops = do
  dest ← operation_dest d target
  raise_if (not (contains dests dest)) invalid_workflow
  raise_if (name == "drop" && not (dest == dropped_label)) invalid_workflow
  declared_operations d dests rest (assign name dest ops)

abbrev pub only_forward : List String → Table String → Table String
only_forward (dest ∷ []) ops = assign "advance" dest ops
only_forward _ ops = ops

abbrev pub with_advance : List String → Table String → Table String
with_advance dests ops =
    if is_some (lookup "advance" ops)
    then ops
    else only_forward (select (λ dest. not (dest == dropped_label)) dests) ops

-- `ops.setdefault("drop", ...)`.
abbrev pub with_drop : Table String → Table String
with_drop ops = if is_some (lookup "drop" ops) then ops else assign "drop" dropped_label ops

-- `_resolve_operations`.
unfoldable pub resolve_operations : WorkflowDecl → StateDecl → List String → Result (Table String)
unfolding declared_operations
resolve_operations d c dests = if is_terminal_class c then ok [] else do
  ops ← declared_operations d dests c.operations []
  ok (with_drop (with_advance dests ops))

-- The operations of every state.
unfoldable pub all_operations :
    WorkflowDecl → Table String → Table (List String) → Result (Table (Table String))
all_operations d [] transitions = ok []
all_operations d ((label, id) ∷ rows) transitions = do
  dests ← or_raise (lookup label transitions) key_error
  ops ← resolve_operations d (class_of d id) dests
  rest ← all_operations d rows transitions
  ok ((label, ops) ∷ rest)

abbrev pub is_initial_state : StateClass → Bool
is_initial_state cls = elim cls.kind [ StateKind.initial ↦ true | _ ↦ false ]

-- The classes that are registered before the closure: the nested ones and the built-in terminals.
unfoldable pub initial_registry : WorkflowDecl → Result (Table String)
unfolding register_all
initial_registry d = register_all d [] (nested_states d ++ complete_class ∷ dropped_class ∷ [])

-- Every class is pushed once at most besides the first ones.
abbrev pub closure_fuel : WorkflowDecl → Table String → ℕ
closure_fuel d by_label = length by_label + length d.classes

unfoldable pub resolve_graph : WorkflowDecl → Result Graph
unfolding initial_registry close materialize all_operations label_of
resolve_graph d = do
  first ← initial_registry d
  by_label ← close d (closure_fuel d first) [] first (reverse (values first))
  m ← materialize d by_label by_label
  operations ← all_operations d by_label m.transitions
  initial ← label_of d m.by_label d.initial
  cls ← or_raise (lookup initial.0 m.states) key_error
  raise_if (not (is_initial_state cls)) invalid_workflow
  raise_if (not (is_some (lookup dropped_label m.states))) invalid_workflow
  ok (record {
    states = m.states;
    transitions = m.transitions;
    operations = operations;
    initial = initial.0;
  })
