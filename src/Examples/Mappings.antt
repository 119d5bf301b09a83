-- ===== src/Examples/Mappings.antt =====
-- Tests of the mapping between rows and objects.
use panopticon_next.Base.{◌≡◌, ok}
use panopticon_next.Taskservice.Rows.Mapping.{
  repo_to_domain, repo_from_domain, task_to_domain, task_from_domain, input_to_domain,
  input_from_domain,
}
use panopticon_next.Taskservice.Rows.Mapping.RoundTrips.{to_domain-from_domain}
use panopticon_next.Examples.Data.{moving, app, waiting_input}

to_domain-from_domain_example :
    (repo_to_domain (repo_from_domain app) ≡ app)
    × (task_to_domain (task_from_domain moving) ≡ ok moving)
    × (input_to_domain (input_from_domain waiting_input) ≡ ok waiting_input)
to_domain-from_domain_example = to_domain-from_domain app moving waiting_input
