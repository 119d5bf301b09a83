-- ===== src/Workflows/Github.antt =====
-- The GitHub workflows: workflows/github_forge.py, github_peer_reviewed.py and github_self_reviewed.py.
-- A state class is named by its qualified name.
use panopticon_next.Base.{some, [], ◌∷◌}
use panopticon_next.Core.Models.{Actor, Responsibility}
use panopticon_next.Core.Workflow.Resolution.{Target, StateDecl, WorkflowDecl, complete_class}
use panopticon_next.Workflows.Declare.{promise, initial_state, plain_state}
use panopticon_next.Workflows.Planned.{plan_written, token_estimated}

abbrev url_recorded : Responsibility
url_recorded =
    promise "url-recorded" "The PR URL is recorded on the task with the `set_url` MCP tool."

abbrev github_peer_reviewed_planning : StateDecl
github_peer_reviewed_planning = record initial_state {
  label = some "PLANNING";
  description = "Collect requirements. Produce a plan for the implementation.";
  responsibilities = plan_written ∷ token_estimated ∷ [];
  declared = (Target.a_label "ITERATING" ∷ []) ∷ [];
}

abbrev github_peer_reviewed_iterating : StateDecl
github_peer_reviewed_iterating = record plain_state {
  label = some "ITERATING";
  description =
      "Implement the plan. Implement any additional user requests or feedback. Implement any review comments the user has approved for implementation.";
  responsibilities =
      promise "plan-implemented" "The plan is implemented in code."
      ∷ promise "requests-implemented" "All user requests are implemented in code."
      ∷ promise "tests-pass" "New and relevant tests pass locally."
      ∷ promise "committed-pushed" "Changes are committed and pushed."
      ∷ promise "ci-passing" "CI tests are passing, or any failures are irrelevant flakes."
      ∷ promise "pr-updated"
          "The PR title and description reflect the final change, with no Test Plan / Verification section."
      ∷ url_recorded
      ∷ [];
  declared = (Target.a_label "REVIEW" ∷ []) ∷ [];
}

abbrev github_peer_reviewed_review : StateDecl
github_peer_reviewed_review = record plain_state {
  label = some "REVIEW";
  description = "Wait for review or approval of the PR.";
  responsibilities = promise "pr-reviewed" "The PR has been reviewed." ∷ [];
  declared = (Target.a_label "MERGING" ∷ []) ∷ [];
}

abbrev github_peer_reviewed_merging : StateDecl
github_peer_reviewed_merging = record plain_state {
  label = some "MERGING";
  description = "Add the PR to the merge queue. If the PR exits the merge queue, re-add it.";
  advanced_by = Actor.agent;
  responsibilities = promise "pr-merged" "The PR is merged." ∷ [];
  declared = (Target.a_class complete_class ∷ []) ∷ [];
}

abbrev pub github_peer_reviewed_decl : WorkflowDecl
github_peer_reviewed_decl = record {
  classes =
      (
        "panopticon.workflows.github_peer_reviewed.GithubPeerReviewed.Planning",
        github_peer_reviewed_planning,
      )
      ∷ (
        "panopticon.workflows.github_peer_reviewed.GithubPeerReviewed.Iterating",
        github_peer_reviewed_iterating,
      )
      ∷ (
        "panopticon.workflows.github_peer_reviewed.GithubPeerReviewed.Review",
        github_peer_reviewed_review,
      )
      ∷ (
        "panopticon.workflows.github_peer_reviewed.GithubPeerReviewed.Merging",
        github_peer_reviewed_merging,
      )
      ∷ [];
  nested =
      "panopticon.workflows.github_peer_reviewed.GithubPeerReviewed.Planning"
      ∷ "panopticon.workflows.github_peer_reviewed.GithubPeerReviewed.Iterating"
      ∷ "panopticon.workflows.github_peer_reviewed.GithubPeerReviewed.Review"
      ∷ "panopticon.workflows.github_peer_reviewed.GithubPeerReviewed.Merging" ∷ [];
  initial = Target.a_class "panopticon.workflows.github_peer_reviewed.GithubPeerReviewed.Planning";
}

abbrev github_self_reviewed_planning : StateDecl
github_self_reviewed_planning = record initial_state {
  label = some "PLANNING";
  description = "Collect requirements. Produce a plan for the implementation.";
  responsibilities = plan_written ∷ token_estimated ∷ [];
  declared = (Target.a_label "ITERATING" ∷ []) ∷ [];
}

abbrev github_self_reviewed_iterating : StateDecl
github_self_reviewed_iterating = record plain_state {
  label = some "ITERATING";
  description =
      "Implement the plan. Implement any additional user requests or feedback. Implement any review comments the user has approved for implementation. The user self-reviews and approves the change by advancing to MERGING.";
  responsibilities =
      promise "plan-implemented" "The plan is implemented in code."
      ∷ promise "requests-implemented" "All user requests are implemented in code."
      ∷ promise "tests-pass" "New and relevant tests pass locally."
      ∷ promise "committed-pushed" "Changes are committed and pushed."
      ∷ promise "ci-passing" "CI tests are passing, or any failures are irrelevant flakes."
      ∷ promise "pr-updated"
          "The PR title and description reflect the final change, with no Test Plan / Verification section."
      ∷ url_recorded
      ∷ [];
  declared = (Target.a_label "MERGING" ∷ []) ∷ [];
}

abbrev github_self_reviewed_merging : StateDecl
github_self_reviewed_merging = record plain_state {
  label = some "MERGING";
  description = "Add the PR to the merge queue. If the PR exits the merge queue, re-add it.";
  advanced_by = Actor.agent;
  responsibilities = promise "pr-merged" "The PR is merged." ∷ [];
  declared = (Target.a_class complete_class ∷ []) ∷ [];
}

abbrev pub github_self_reviewed_decl : WorkflowDecl
github_self_reviewed_decl = record {
  classes =
      (
        "panopticon.workflows.github_self_reviewed.GithubSelfReviewed.Planning",
        github_self_reviewed_planning,
      )
      ∷ (
        "panopticon.workflows.github_self_reviewed.GithubSelfReviewed.Iterating",
        github_self_reviewed_iterating,
      )
      ∷ (
        "panopticon.workflows.github_self_reviewed.GithubSelfReviewed.Merging",
        github_self_reviewed_merging,
      )
      ∷ [];
  nested =
      "panopticon.workflows.github_self_reviewed.GithubSelfReviewed.Planning"
      ∷ "panopticon.workflows.github_self_reviewed.GithubSelfReviewed.Iterating"
      ∷ "panopticon.workflows.github_self_reviewed.GithubSelfReviewed.Merging" ∷ [];
  initial = Target.a_class "panopticon.workflows.github_self_reviewed.GithubSelfReviewed.Planning";
}
