-- ===== src/Taskservice/Create/Launch.antt =====
-- The launch pair of a new task (service.py): the default harness and its model travel together.
use panopticon_next.Base.{String, ◌≡◌, ◌⊎◌, inl, inr, refl, arith, Option, none, some, eq_iff}
use panopticon_next.Core.Models.{Repo}
use panopticon_next.Core.Workflow.{Workflow}
use panopticon_next.Taskservice.Create.{default_pair, choose_launch}

-- The launch of a new task either has exactly the model that was asked for, or it is the default
-- pair as a whole: the default model never goes to another harness.
pub choose_launch_pairs :
    (wf : Workflow) (repo : Repo) (harness starting_model : Option String)
    → ((choose_launch wf repo harness starting_model).model ≡ starting_model)
      ⊎ (choose_launch wf repo harness starting_model ≡ default_pair wf repo)
unfolding choose_launch
choose_launch_pairs wf repo none none = inr refl
choose_launch_pairs wf repo none (some model) = inl refl
choose_launch_pairs wf repo (some harness) starting_model =
    ground (arith, eq_iff harness (default_pair wf repo).harness)
