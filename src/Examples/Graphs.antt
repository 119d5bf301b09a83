-- ===== src/Examples/Graphs.antt =====
-- Tests of the resolution of a workflow on the workflow of workflows/spike.py.
use panopticon_next.Base.{String, ◌≡◌, refl, some, [], ◌∷◌, ok}
use panopticon_next.Base.Table.{lookup, assign, values}
use panopticon_next.Core.Models.{Actor}
use panopticon_next.Core.Workflow.{StateKind, StateClass, Graph}
use panopticon_next.Core.Workflow.WellFormed.{IsWellFormed}
use panopticon_next.Core.Workflow.Resolution.{
  resolve_graph, register, round, scan, destinations, labels_of, resolve_operations,
}
use panopticon_next.Core.Workflow.Resolution.Refusals.{Ends}
use panopticon_next.Core.Workflow.Resolution.Ends.{resolve_graph-Ends}
use panopticon_next.Core.Workflow.Resolution.Sound.{resolve_graph-IsWellFormed}
use panopticon_next.Workflows.Simple.{spike_decl}

abbrev state : StateKind → String → StateClass
state kind description = record {
  kind = kind;
  description = description;
  turn_on_enter = some Actor.user;
  advanced_by = Actor.user;
  responsibilities = [];
}

abbrev iterating_graph : Graph
iterating_graph = record {
  states =
      (
        "ITERATING",
        state StateKind.initial "Open-ended agent work until the user marks the task complete.",
      )
      ∷ ("COMPLETE", state StateKind.terminal "The work has landed; the task is finished.")
      ∷ ("DROPPED", state StateKind.terminal "The task was abandoned.")
      ∷ [];
  transitions =
      ("ITERATING", "COMPLETE" ∷ "DROPPED" ∷ []) ∷ ("COMPLETE", []) ∷ ("DROPPED", []) ∷ [];
  operations =
      ("ITERATING", ("advance", "COMPLETE") ∷ ("drop", "DROPPED") ∷ [])
      ∷ ("COMPLETE", [])
      ∷ ("DROPPED", [])
      ∷ [];
  initial = "ITERATING";
}

spike_resolves : resolve_graph spike_decl ≡ ok iterating_graph
unfolding resolve_graph lookup register assign values round scan destinations labels_of
    resolve_operations
spike_resolves = refl

resolve_graph-IsWellFormed_example : IsWellFormed iterating_graph
resolve_graph-IsWellFormed_example =
    resolve_graph-IsWellFormed spike_decl iterating_graph spike_resolves

resolve_graph-Ends_example : Ends (resolve_graph spike_decl)
resolve_graph-Ends_example = resolve_graph-Ends spike_decl
