-- ===== src/Workflows/Simple.antt =====
-- The workflows of one agent-driven or scripted phase: workflows/spike.py, review.py, orchestrator.py and
-- setup_repo.py.
-- A state class is named by its qualified name.
use panopticon_next.Base.{some, [], ◌∷◌}
use panopticon_next.Core.Models.{Actor}
use panopticon_next.Core.Workflow.Resolution.{Target, StateDecl, WorkflowDecl, complete_class}
use panopticon_next.Workflows.Declare.{initial_state}

abbrev spike_iterating : StateDecl
spike_iterating = record initial_state {
  label = some "ITERATING";
  description = "Open-ended agent work until the user marks the task complete.";
  declared = (Target.a_class complete_class ∷ []) ∷ [];
}

abbrev pub spike_decl : WorkflowDecl
spike_decl = record {
  classes = ("panopticon.workflows.spike.Spike.Iterating", spike_iterating) ∷ [];
  nested = "panopticon.workflows.spike.Spike.Iterating" ∷ [];
  initial = Target.a_class "panopticon.workflows.spike.Spike.Iterating";
}

abbrev review_reviewing : StateDecl
review_reviewing = record initial_state {
  label = some "REVIEWING";
  description = "Review the governor's plan and diff; approve or leave structured findings.";
  turn_on_enter = some Actor.agent;
  advanced_by = Actor.agent;
  declared = (Target.a_class complete_class ∷ []) ∷ [];
}

abbrev pub review_decl : WorkflowDecl
review_decl = record {
  classes = ("panopticon.workflows.review.Review.Reviewing", review_reviewing) ∷ [];
  nested = "panopticon.workflows.review.Review.Reviewing" ∷ [];
  initial = Target.a_class "panopticon.workflows.review.Review.Reviewing";
}

abbrev orchestrator_orchestrating : StateDecl
orchestrator_orchestrating = record initial_state {
  label = some "ORCHESTRATING";
  description =
      "Decompose the request into tasks; create and pre-plan each one for the user to approve.";
  declared = (Target.a_class complete_class ∷ []) ∷ [];
}

abbrev pub orchestrator_decl : WorkflowDecl
orchestrator_decl = record {
  classes =
      ("panopticon.workflows.orchestrator.Orchestrator.Orchestrating", orchestrator_orchestrating)
      ∷ [];
  nested = "panopticon.workflows.orchestrator.Orchestrator.Orchestrating" ∷ [];
  initial = Target.a_class "panopticon.workflows.orchestrator.Orchestrator.Orchestrating";
}

abbrev setup_repo_running : StateDecl
setup_repo_running = record initial_state {
  label = some "RUNNING";
  description =
      "Configure the repo's selected harness auth in a host shell; the script completes the task when the operator finishes.";
  declared = (Target.a_class complete_class ∷ []) ∷ [];
}

abbrev pub setup_repo_decl : WorkflowDecl
setup_repo_decl = record {
  classes = ("panopticon.workflows.setup_repo.SetupRepo.Running", setup_repo_running) ∷ [];
  nested = "panopticon.workflows.setup_repo.SetupRepo.Running" ∷ [];
  initial = Target.a_class "panopticon.workflows.setup_repo.SetupRepo.Running";
}
