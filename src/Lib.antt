-- ===== src/Lib.antt =====
-- The control plane of Panopticon: a service that keeps coding tasks, moves them along the state
-- graphs of their workflows, and hands them to runner hosts that work on them in containers.
--
-- Parts and files (paths from the repository's root):
-- - Base: what the other modules share. A raised exception is a value of `Result`; a method that
--   changes an object is an action of `Exec`, which gives the state back beside an error too. A
--   table of rows is an association list by id. `Base/Visited` measures what a search has left.
-- - Core/Models, src/panopticon/core/models.py: the records, the container status that is folded
--   from liveness signals (`Containers`), and the promises of a stage (`Promises`).
-- - Core/Workflow, src/panopticon/core/workflow.py and core/state.py: the resolved graph of a
--   workflow and its queries; `Lifecycle` has start_task, apply_transition and force_transition,
--   `WellFormed` what a validated graph satisfies, `Moves` what the moves do, and `Phases` the order
--   of the phases. `Resolution` is the validation pass `_graph`: state classes are named by texts, a
--   workflow class is the table of the state classes that it names, and each class lists what its
--   method resolution order declares. The order of a `frozenset` of labels is the order of discovery.
-- - Workflows, src/panopticon/workflows/: the built-in workflows as declarations that `_graph` takes.
-- - Core/Store, src/panopticon/core/store.py: the consistency check and the append-only check.
-- - Taskservice/Rows, src/panopticon/taskservice/store_sqlalchemy.py: the transactions on the rows;
--   `Mapping` has the ORM rows and their translation to and from the records.
-- - Taskservice, src/panopticon/taskservice/service.py: `State` is the TaskService object, with its
--   clock, its id factory, the workflow discovery and the text of exceptions as parameters of its
--   environment. Its methods are in `Workflows`, `Dependencies`, `Artifacts`, `Create`,
--   `Transitions`, `Liveness`, `Claims`, `Fields`, `Sessions`, `Provisioning` and `Repositories`, under
--   the names that the source gives them. `Repositories` takes the answers of the host on its secrets
--   dir as a parameter, and has parse_reviewer_config of src/panopticon/harnesses/base.py.
-- - Taskservice/Auth, src/panopticon/taskservice/auth.py: the capability of a task and the principal of a
--   token; Python's encodings and digests are the parameter `Library`. `Files` has the checks of a parsed
--   credential file.
-- - Taskservice/Scope, src/panopticon/taskservice/auth_scope.py: what a task's credential may do.
-- - Sessionservice, src/panopticon/sessionservice/spawner.py: `Spawner` is the object that launches and
--   heals the tasks of a host; its methods are in `Spawner/Passes`. A pass takes what the service, the
--   Docker daemon, tmux (before a respawn and after a failed spawn) and the clock answer as a `Host`,
--   and logs what is asked of them as `calls`; the time of a pass is any number. `Ready` is the choice of the tasks to claim, and `Provisioner`,
--   src/panopticon/sessionservice/provisioner.py, puts a clone on its branch with the answers of git as
--   a `Checkout`.
-- - Examples: a small workflow with its tasks, and the tests.
--
-- The parts meet as in the source: a method reads the task, asks the workflow for the move, and
-- saves the task through the checks of the store, which bump the version of the change feed.
--
-- A method is one step: the source serialises the moves of a task by a lock, and the interleaving
-- of the methods that hold no lock is not modelled. Fuel stands where the source recurses or loops
-- without a bound that is visible: the dependency search and the walk up the governors take one
-- round for each row and one more, which is enough because no row is entered twice, and both are
-- shown to end (Python's recursion limit on the dependency search is not modelled); the closure
-- over the state classes takes a round for each class that is pushed, at most one for each first class and each class of the declaration; the walk along the phases takes one
-- for each state; the nested cascade of a drop takes the number of tasks and one more, and running
-- out is the error of Python's recursion limit.
--
-- Timestamps and ids are texts. The workflows' `on_transition` hook is its empty default. Not
-- modelled: the texts for agents, the web interface, the
-- reading of credential files, the runners and workspaces of a host, containers, harnesses, the
-- terminal interface, the file stores and the migrations of the database, which are input and output or third-party code.
pub mod Base
pub mod Core
pub mod Workflows
pub mod Taskservice
pub mod Sessionservice
pub mod Examples
