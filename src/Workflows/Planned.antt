-- ===== src/Workflows/Planned.antt =====
-- The plan convention of workflows/planned_workflow.py, and workflows/local_git_self_reviewed.py.
-- A state class is named by its qualified name.
use panopticon_next.Base.{some, [], ◌∷◌}
use panopticon_next.Core.Models.{Actor, Responsibility}
use panopticon_next.Core.Workflow.Resolution.{Target, StateDecl, WorkflowDecl, complete_class}
use panopticon_next.Workflows.Declare.{promise, initial_state, plain_state}

abbrev pub plan_written : Responsibility
plan_written =
    promise "plan-written"
      "The plan is uploaded to the plan artifact `plan.md` (a markdown file) with the `put_artifact` tool — not just written to the working tree."

abbrev pub token_estimated : Responsibility
token_estimated =
    promise "token-estimated"
      "Estimate the total **cost-weighted** tokens this task will consume — i.e., input-equivalent tokens where cache-reads count ≈0.1× and output ≈5× — and record it with the `set_token_estimate` tool."

abbrev local_git_self_reviewed_planning : StateDecl
local_git_self_reviewed_planning = record initial_state {
  label = some "PLANNING";
  description = "Collect requirements. Produce a plan for the implementation.";
  responsibilities = plan_written ∷ token_estimated ∷ [];
  declared = (Target.a_label "ITERATING" ∷ []) ∷ [];
}

abbrev local_git_self_reviewed_iterating : StateDecl
local_git_self_reviewed_iterating = record plain_state {
  label = some "ITERATING";
  description =
      "Implement the plan. Implement any additional user requests or feedback. The user self-reviews and approves the change by advancing to MERGING.";
  responsibilities =
      promise "plan-implemented" "The plan is implemented in code."
      ∷ promise "requests-implemented" "All user requests are implemented in code."
      ∷ promise "tests-pass" "New and relevant tests pass locally."
      ∷ promise "committed" "Changes are committed to the local branch."
      ∷ [];
  declared = (Target.a_label "MERGING" ∷ []) ∷ [];
}

abbrev local_git_self_reviewed_merging : StateDecl
local_git_self_reviewed_merging = record plain_state {
  label = some "MERGING";
  description = "Merge the task branch into the repo's base branch.";
  advanced_by = Actor.agent;
  responsibilities = promise "local-merged" "Changes are merged into the repo's base branch." ∷ [];
  declared = (Target.a_class complete_class ∷ []) ∷ [];
}

abbrev pub local_git_self_reviewed_decl : WorkflowDecl
local_git_self_reviewed_decl = record {
  classes =
      (
        "panopticon.workflows.local_git_self_reviewed.LocalGitSelfReviewed.Planning",
        local_git_self_reviewed_planning,
      )
      ∷ (
        "panopticon.workflows.local_git_self_reviewed.LocalGitSelfReviewed.Iterating",
        local_git_self_reviewed_iterating,
      )
      ∷ (
        "panopticon.workflows.local_git_self_reviewed.LocalGitSelfReviewed.Merging",
        local_git_self_reviewed_merging,
      )
      ∷ [];
  nested =
      "panopticon.workflows.local_git_self_reviewed.LocalGitSelfReviewed.Planning"
      ∷ "panopticon.workflows.local_git_self_reviewed.LocalGitSelfReviewed.Iterating"
      ∷ "panopticon.workflows.local_git_self_reviewed.LocalGitSelfReviewed.Merging" ∷ [];
  initial =
      Target.a_class "panopticon.workflows.local_git_self_reviewed.LocalGitSelfReviewed.Planning";
}
