-- ===== src/Workflows/Spec.antt =====
-- The RFC 2119 workflows: workflows/spec_2119.py.
-- A state class is named by its qualified name.
use panopticon_next.Base.{some, [], ◌∷◌}
use panopticon_next.Core.Models.{Actor, Responsibility}
use panopticon_next.Core.Workflow.Resolution.{Target, StateDecl, WorkflowDecl, complete_class}
use panopticon_next.Workflows.Declare.{promise, initial_state, plain_state}

abbrev spec_artifact : Responsibility
spec_artifact =
    promise "spec-artifact"
      "Publish the specification as a task artifact so the user can review it with the dashboard `a` hotkey."

abbrev url_recorded : Responsibility
url_recorded =
    promise "url-recorded"
      "Record the PR URL in the task's external URL field with the `set_url` MCP tool."

abbrev reviews_recorded : Responsibility
reviews_recorded =
    promise "reviews-recorded"
      "Both configured reviewer dispatches are machine-verified against the final diff and posted as evidence-bearing PR comments; each reviewer independently chooses every mutation it attempts, attempts at least one targeted mutation of a specific claimed property, and reports whether it was killed or survived, with a survivor treated as an evidence defect."

abbrev reviews_recorded_sol : Responsibility
reviews_recorded_sol =
    promise "reviews-recorded-sol"
      "Two independently dispatched fresh-context Sol reviewer attempts are machine-verified against the final diff and posted as evidence-bearing PR comments. The shared model provides no cross-model diversity; each reviewer independently chooses every mutation it attempts, attempts at least one targeted mutation of a specific claimed property, and reports whether it was killed or survived, with a survivor treated as an evidence defect."

abbrev findings_triaged : Responsibility
findings_triaged =
    promise "findings-triaged"
      "Every review finding is explicitly accepted or rejected with a reason; accepted fixes are implemented with gates re-run; a fresh re-review round ran if any must-fix was accepted (2 rounds max); the triage summary is a PR comment."

abbrev deferred_issues_filed : Responsibility
deferred_issues_filed =
    promise "deferred-issues-filed"
      "Every suggested placeholder issue from the triage summary has been weighed against the PR's comments — filed with `gh issue create` if the user endorsed it or left it unaddressed, skipped if the user rejected it. Filing zero issues is a legal outcome."

abbrev specifying_base : StateDecl
specifying_base = record initial_state {
  label = some "SPECIFYING";
  description =
      "Write the feature as an RFC 2119 spec plus annotated tests, then have the tests judged by fresh-context reviewers.";
  responsibilities =
      promise "spec-written"
        "The feature's requirements exist under specs/ as numbered, individually addressable statements with exactly one normative keyword each (append-only IDs), and `npx rfc2119 lint` passes."
      ∷ spec_artifact
      ∷ promise "tests-annotated"
          "Every MUST-level requirement has at least one test annotated with its ID (`// 2119: REQ-...`); `npx rfc2119 check` reports no coverage gap. The tests may still fail — implementation comes in BUILDING."
      ∷ promise "tests-judged"
          "Fresh-context test-honesty reviews are recorded for every pending review and `npx rfc2119 check` exits 0."
      ∷ [];
  declared = (Target.a_label "BUILDING" ∷ []) ∷ [];
}

abbrev building_base : StateDecl
building_base = record plain_state {
  label = some "BUILDING";
  description = "Implement the spec, nothing more.";
  advanced_by = Actor.agent;
  responsibilities =
      promise "spec-implemented" "Every requirement in the spec is implemented in code."
      ∷ promise "committed"
          "Work is committed in small reviewable commits; 2119 scaffolding, if newly adopted, is its own clearly-labeled commit."
      ∷ promise "pr-opened" "A draft PR is open for the task branch (the `open-pr` skill)."
      ∷ url_recorded
      ∷ [];
  declared = (Target.a_label "TESTING" ∷ []) ∷ [];
}

abbrev testing_base : StateDecl
testing_base = record plain_state {
  label = some "TESTING";
  description =
      "Prove it: full test suite, `npx rfc2119 check`, and the repo's own gate locally; then PR CI green.";
  advanced_by = Actor.agent;
  responsibilities =
      promise "suite-green"
        "The full test suite passes locally (2119's check never runs it for you)."
      ∷ promise "check-green" "`npx rfc2119 check` exits 0 against the implemented change."
      ∷ promise "repo-gate-green"
          "The repo's own gate (e.g. `make check`), run under pipefail, is green — or the repo has no such gate."
      ∷ promise "ci-green" "The PR's CI is green (`babysit-ci`)."
      ∷ [];
  declared = (Target.a_label "REVIEWING" ∷ []) ∷ [];
}

abbrev reviewing_base : StateDecl
reviewing_base = record plain_state {
  label = some "REVIEWING";
  description = "Run adversarial dual-model review, triage its findings, and fix accepted defects.";
  responsibilities = reviews_recorded ∷ findings_triaged ∷ [];
  declared = (Target.a_label "MERGING" ∷ []) ∷ [];
}

abbrev merging_base : StateDecl
merging_base = record plain_state {
  label = some "MERGING";
  description = "Shepherd the PR through the merge queue.";
  advanced_by = Actor.agent;
  responsibilities = deferred_issues_filed ∷ promise "pr-merged" "The PR is merged." ∷ [];
  declared = (Target.a_class complete_class ∷ []) ∷ [];
}

abbrev spec2119_human_specifying : StateDecl
spec2119_human_specifying = specifying_base

abbrev spec2119_human_building : StateDecl
spec2119_human_building = building_base

abbrev spec2119_human_testing : StateDecl
spec2119_human_testing = testing_base

abbrev spec2119_human_reviewing : StateDecl
spec2119_human_reviewing = reviewing_base

abbrev spec2119_human_merging : StateDecl
spec2119_human_merging = merging_base

abbrev pub spec2119_human_decl : WorkflowDecl
spec2119_human_decl = record {
  classes =
      ("panopticon.workflows.spec_2119.Spec2119Human.Specifying", spec2119_human_specifying)
      ∷ ("panopticon.workflows.spec_2119.Spec2119Human.Building", spec2119_human_building)
      ∷ ("panopticon.workflows.spec_2119.Spec2119Human.Testing", spec2119_human_testing)
      ∷ ("panopticon.workflows.spec_2119.Spec2119Human.Reviewing", spec2119_human_reviewing)
      ∷ ("panopticon.workflows.spec_2119.Spec2119Human.Merging", spec2119_human_merging)
      ∷ [];
  nested =
      "panopticon.workflows.spec_2119.Spec2119Human.Specifying"
      ∷ "panopticon.workflows.spec_2119.Spec2119Human.Building"
      ∷ "panopticon.workflows.spec_2119.Spec2119Human.Testing"
      ∷ "panopticon.workflows.spec_2119.Spec2119Human.Reviewing"
      ∷ "panopticon.workflows.spec_2119.Spec2119Human.Merging" ∷ [];
  initial = Target.a_class "panopticon.workflows.spec_2119.Spec2119Human.Specifying";
}

abbrev spec2119_auto_specifying : StateDecl
spec2119_auto_specifying = record specifying_base { advanced_by = Actor.agent }

abbrev spec2119_auto_building : StateDecl
spec2119_auto_building = building_base

abbrev spec2119_auto_testing : StateDecl
spec2119_auto_testing = testing_base

abbrev spec2119_auto_reviewing : StateDecl
spec2119_auto_reviewing = reviewing_base

abbrev spec2119_auto_merging : StateDecl
spec2119_auto_merging = merging_base

abbrev pub spec2119_auto_decl : WorkflowDecl
spec2119_auto_decl = record {
  classes =
      ("panopticon.workflows.spec_2119.Spec2119Auto.Specifying", spec2119_auto_specifying)
      ∷ ("panopticon.workflows.spec_2119.Spec2119Auto.Building", spec2119_auto_building)
      ∷ ("panopticon.workflows.spec_2119.Spec2119Auto.Testing", spec2119_auto_testing)
      ∷ ("panopticon.workflows.spec_2119.Spec2119Auto.Reviewing", spec2119_auto_reviewing)
      ∷ ("panopticon.workflows.spec_2119.Spec2119Auto.Merging", spec2119_auto_merging)
      ∷ [];
  nested =
      "panopticon.workflows.spec_2119.Spec2119Auto.Specifying"
      ∷ "panopticon.workflows.spec_2119.Spec2119Auto.Building"
      ∷ "panopticon.workflows.spec_2119.Spec2119Auto.Testing"
      ∷ "panopticon.workflows.spec_2119.Spec2119Auto.Reviewing"
      ∷ "panopticon.workflows.spec_2119.Spec2119Auto.Merging" ∷ [];
  initial = Target.a_class "panopticon.workflows.spec_2119.Spec2119Auto.Specifying";
}

abbrev spec2119_auto_sol_specifying : StateDecl
spec2119_auto_sol_specifying = record specifying_base { advanced_by = Actor.agent }

abbrev spec2119_auto_sol_building : StateDecl
spec2119_auto_sol_building = building_base

abbrev spec2119_auto_sol_testing : StateDecl
spec2119_auto_sol_testing = testing_base

abbrev spec2119_auto_sol_reviewing : StateDecl
spec2119_auto_sol_reviewing = record reviewing_base {
  responsibilities = reviews_recorded_sol ∷ findings_triaged ∷ [];
}

abbrev spec2119_auto_sol_merging : StateDecl
spec2119_auto_sol_merging = merging_base

abbrev pub spec2119_auto_sol_decl : WorkflowDecl
spec2119_auto_sol_decl = record {
  classes =
      ("panopticon.workflows.spec_2119.Spec2119AutoSol.Specifying", spec2119_auto_sol_specifying)
      ∷ ("panopticon.workflows.spec_2119.Spec2119AutoSol.Building", spec2119_auto_sol_building)
      ∷ ("panopticon.workflows.spec_2119.Spec2119AutoSol.Testing", spec2119_auto_sol_testing)
      ∷ ("panopticon.workflows.spec_2119.Spec2119AutoSol.Reviewing", spec2119_auto_sol_reviewing)
      ∷ ("panopticon.workflows.spec_2119.Spec2119AutoSol.Merging", spec2119_auto_sol_merging)
      ∷ [];
  nested =
      "panopticon.workflows.spec_2119.Spec2119AutoSol.Specifying"
      ∷ "panopticon.workflows.spec_2119.Spec2119AutoSol.Building"
      ∷ "panopticon.workflows.spec_2119.Spec2119AutoSol.Testing"
      ∷ "panopticon.workflows.spec_2119.Spec2119AutoSol.Reviewing"
      ∷ "panopticon.workflows.spec_2119.Spec2119AutoSol.Merging" ∷ [];
  initial = Target.a_class "panopticon.workflows.spec_2119.Spec2119AutoSol.Specifying";
}
