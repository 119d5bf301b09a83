-- ===== src/Workflows.antt =====
-- The built-in workflows (workflows/ of the package): each as the declaration that its Python class
-- is, by family in the children.
pub mod Declare
pub mod Simple
pub mod Planned
pub mod Github
pub mod Spec
use panopticon_next.Base.{List, [], ◌∷◌}
use panopticon_next.Core.Workflow.Resolution.{WorkflowDecl}
use panopticon_next.Workflows.Simple.{spike_decl, review_decl, orchestrator_decl, setup_repo_decl}
use panopticon_next.Workflows.Planned.{local_git_self_reviewed_decl}
use panopticon_next.Workflows.Github.{github_peer_reviewed_decl, github_self_reviewed_decl}
use panopticon_next.Workflows.Spec.{spec2119_human_decl, spec2119_auto_decl, spec2119_auto_sol_decl}

abbrev pub built_in_workflows : List WorkflowDecl
built_in_workflows =
    spike_decl ∷ review_decl ∷ orchestrator_decl ∷ setup_repo_decl ∷ local_git_self_reviewed_decl
    ∷ github_peer_reviewed_decl ∷ github_self_reviewed_decl ∷ spec2119_human_decl
    ∷ spec2119_auto_decl ∷ spec2119_auto_sol_decl ∷ []
