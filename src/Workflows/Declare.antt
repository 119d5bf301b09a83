-- ===== src/Workflows/Declare.antt =====
-- What the state classes of core/state.py give to the classes that extend them, and a promise as it
-- is declared.
use panopticon_next.Base.{String, false, none, some, []}
use panopticon_next.Core.Models.{Actor, Status, Responsibility}
use panopticon_next.Core.Workflow.{StateKind}
use panopticon_next.Core.Workflow.Resolution.{StateDecl}

-- `Responsibility(key=..., description=...)`.
abbrev pub promise : String → String → Responsibility
promise key description = record {
  key = key;
  description = description;
  status = Status.pending;
  comment = none;
}

-- `State`, which declares DROPPED; the resolution adds that edge last.
abbrev pub plain_state : StateDecl
plain_state = record {
  label = none;
  is_abstract = false;
  kind = StateKind.plain;
  description = "";
  turn_on_enter = some Actor.agent;
  advanced_by = Actor.user;
  responsibilities = [];
  declared = [];
  operations = [];
}

-- `InitialState`.
abbrev pub initial_state : StateDecl
initial_state = record plain_state { kind = StateKind.initial; turn_on_enter = some Actor.user }
