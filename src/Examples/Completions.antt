-- ===== src/Examples/Completions.antt =====
-- Tests of the built-in workflows: each resolves, and its phases end at COMPLETE.
use panopticon_next.Base.{String, ◌≡◌, refl, none, some, false, List, [], ok, All, get_last?}
use panopticon_next.Core.Models.{complete_label}
use panopticon_next.Core.Workflow.{Graph, Workflow, is_terminal, operations}
use panopticon_next.Core.Workflow.Phases.{ordered_phases}
use panopticon_next.Core.Workflow.Resolution.{
  WorkflowDecl, resolve_graph, register, round, scan, destinations, labels_of, resolve_operations,
}
use panopticon_next.Base.Table.{lookup, assign, values}
use panopticon_next.Workflows.{built_in_workflows}

-- A workflow with a graph; the phases depend on nothing else.
abbrev pub with_graph : Graph → Workflow
with_graph g = record {
  name = "";
  graph = g;
  orchestrates = false;
  opt_in = false;
  hidden = false;
  configures_repo_credentials = false;
  default_harness = none;
  default_model = none;
  review_harness = none;
  review_model = none;
  skill_names = [];
}

-- The declaration resolves, and its phases end at COMPLETE.
record IsCompletable (d : WorkflowDecl) : Type 0 where
  pub graph : Graph
  pub resolves : resolve_graph d ≡ ok graph
  pub order : List String
  pub walk : ordered_phases (with_graph graph) ≡ ok order
  pub ends : get_last? order ≡ some complete_label

built_in_workflows-AreCompletable : All IsCompletable built_in_workflows
unfolding resolve_graph lookup register assign values round scan destinations labels_of
    resolve_operations ordered_phases is_terminal operations
built_in_workflows-AreCompletable = (
  record { graph = _; resolves = refl; order = _; walk = refl; ends = refl },
  (
    record { graph = _; resolves = refl; order = _; walk = refl; ends = refl },
    (
      record { graph = _; resolves = refl; order = _; walk = refl; ends = refl },
      (
        record { graph = _; resolves = refl; order = _; walk = refl; ends = refl },
        (
          record { graph = _; resolves = refl; order = _; walk = refl; ends = refl },
          (
            record { graph = _; resolves = refl; order = _; walk = refl; ends = refl },
            (
              record { graph = _; resolves = refl; order = _; walk = refl; ends = refl },
              (
                record { graph = _; resolves = refl; order = _; walk = refl; ends = refl },
                (
                  record { graph = _; resolves = refl; order = _; walk = refl; ends = refl },
                  (record { graph = _; resolves = refl; order = _; walk = refl; ends = refl }, tt),
                ),
              ),
            ),
          ),
        ),
      ),
    ),
  ),
)
