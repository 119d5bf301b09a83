-- ===== src/Taskservice/Scope/Decisions.antt =====
-- The decisions on a task credential's requests: what an allowed request entails.
use panopticon_next.Base.{
  Option, none, String, true, ◌||◌, some, List, [], ◌∷◌, ok, ◌≡◌, ◌≢◌, refl, ap, sym, arith, ◌∙◌,
  inl, inr, ◌==◌, eq_iff, All, >>=-eq-ok, Option-cases, Bool-cases,
}
use panopticon_next.Base.Table.{lookup, values}
use panopticon_next.Core.Models.{Task}
use panopticon_next.Taskservice.State.{Service}
use panopticon_next.Taskservice.Workflows.{task_orchestrates}
use panopticon_next.Taskservice.Scope.{
  Relation, Action, Target, ScopeDecision, is_self_action, is_child_action, is_preplan, authorize,
  by_id, relation_to, target_of, decide, decide_each, decide_dependencies, find_task,
  is_planning_key, responsibility_decision, decide_responsibility,
}
use panopticon_next.Taskservice.Scope.Governance.{
  Governed, relation_to_decides, by_id-IsIndexed, by_id-key,
}

-- The authority that an allowed action needs: a task's own actions on itself, or an orchestrator's
-- planning actions on a task that it governs.
pub data IsAuthorized (s : Service) (subject : String) (action : Action) (target_id : String)
    : Type 0 where
  on_itself :
      target_id ≡ subject → is_self_action action ≡ true → IsAuthorized s subject action target_id
  on_governed :
      (t : Task)
      → lookup target_id (by_id (values s.db.tasks)) ≡ some t
      → Governed (by_id (values s.db.tasks)) subject t
      → task_orchestrates s.workflows (lookup subject (by_id (values s.db.tasks))) ≡ true
      → (is_child_action action || is_preplan action) ≡ true
      → IsAuthorized s subject action target_id

relation-governed :
    (tasks : List Task) (subject target_id : String)
    → relation_to subject (lookup target_id (by_id tasks)) (by_id tasks) ≡ ok Relation.governed
    → (t : Task) × (lookup target_id (by_id tasks) ≡ some t) × Governed (by_id tasks) subject t
unfolding relation_to
relation-governed tasks subject target_id h = elim (Option-cases (lookup target_id (by_id tasks))) [
  | inl gone ↦ absurd (ground arith)
  | inr (t, row) ↦
      let is : t.id ≡ target_id = by_id-key tasks target_id t row in
      let own : lookup t.id (by_id tasks) ≡ some t = ap (λ k. lookup k (by_id tasks)) is ∙ row in
      let found : relation_to subject (some t) (by_id tasks) ≡ ok Relation.governed =
        ap (λ o. relation_to subject o (by_id tasks)) (sym row) ∙ h in
      (
        t,
        row,
        ((relation_to_decides (by_id tasks) subject t (by_id-IsIndexed tasks) own).1.0 found).1,
      )
]

authorize_sound :
    (s : Service) (subject : String) (action : Action) (target_id : String) (target : Target)
    → target_of s subject target_id (values s.db.tasks) ≡ ok target
    → (authorize subject action target).allowed ≡ true
    → IsAuthorized s subject action target_id
unfolding target_of authorize
authorize_sound s subject action target_id target found allowed = of_relation target.relation refl
  where
    relation :
        (r : Relation) × (relation_to subject
            (lookup target_id (by_id (values s.db.tasks)))
            (by_id (values s.db.tasks))
          ≡ ok r)
        × (ok (record {
          task_id = target_id;
          relation = r;
          orchestrates = task_orchestrates s.workflows (lookup subject (by_id (values s.db.tasks)));
        })
            ≡ ok target)
    relation =
        >>=-eq-ok
          (relation_to subject (lookup target_id (by_id (values s.db.tasks)))
            (by_id (values s.db.tasks)))
          _ found

    is_target : target.task_id ≡ target_id
    is_target = let (r, _, e) = relation in ground arith

    orchestrates :
        target.orchestrates
        ≡ task_orchestrates s.workflows (lookup subject (by_id (values s.db.tasks)))
    orchestrates = let (r, _, e) = relation in ground arith

    related :
        relation_to subject
          (lookup target_id (by_id (values s.db.tasks)))
          (by_id (values s.db.tasks))
        ≡ ok target.relation
    related = let (r, is, e) = relation in ground arith

    of_relation : (r : Relation) → target.relation ≡ r → IsAuthorized s subject action target_id
    of_relation Relation.self e =
        on_itself (ground (arith, is_target, eq_iff target.task_id subject)) (ground arith)
    of_relation Relation.governed e =
        let (t, row, chain) =
          relation-governed (values s.db.tasks) subject target_id (related ∙ ap ok e) in
        on_governed t row chain (ground (arith, orchestrates)) (ground arith)
    of_relation Relation.unrelated e = absurd (ground arith)
    of_relation Relation.missing e = absurd (ground arith)

-- A request that is allowed is authorized: it is one of the credential's own actions on its own
-- task, or an orchestrator's planning action on a task that it governs.
pub decide_sound :
    (s : Service) (subject : String) (action : Action) (target_id : String) (d : ScopeDecision)
    → decide s subject action target_id ≡ ok d
    → d.allowed ≡ true
    → IsAuthorized s subject action target_id
unfolding decide
decide_sound s subject action target_id d decided allowed =
    let (target, found, e) =
      >>=-eq-ok (target_of s subject target_id (values s.db.tasks)) _ decided in
    authorize_sound s subject action target_id target found (ground arith)

-- An empty id names no task.
abbrev pub IsAuthorizedDependency : Service → String → String → Type 0
IsAuthorizedDependency s subject d = d ≢ "" → IsAuthorized s subject Action.set_dependencies d

decide_each_sound :
    (s : Service) (subject target_id : String) (primary d : ScopeDecision) (ds : List String)
    → decide_each s subject target_id primary ds ≡ ok d
    → d.allowed ≡ true
    → (primary.allowed ≡ true) × All (IsAuthorizedDependency s subject) ds
unfolding decide_each
decide_each_sound s subject target_id primary d [] decided allowed = (ground arith, tt)
decide_each_sound s subject target_id primary d (x ∷ ds) decided allowed =
    elim (Bool-cases (x == "")) [
      | inl empty ↦
          let (first, rest) =
            decide_each_sound s subject target_id primary d ds (ground arith) allowed in
          (first, ((λ named. absurd (named ((eq_iff x "").0 empty))), rest))
      | inr named ↦
          let (target, found, e) =
            >>=-eq-ok (target_of s subject x (values s.db.tasks)) _ (rw named at decided) in
          elim (Bool-cases (authorize subject Action.set_dependencies target).allowed) [
            | inl admits ↦
                let (first, rest) =
                  decide_each_sound s subject target_id primary d ds (rw admits at e) allowed in
                (
                  first,
                  (
                    (λ _. authorize_sound s subject Action.set_dependencies x target found admits),
                    rest,
                  ),
                )
            | inr refuses ↦ absurd (ground arith)
          ]
    ]

-- A dependency list that is allowed is authorized for the task and for every id in it that is not
-- empty.
pub decide_dependencies_sound :
    (s : Service) (subject target_id : String) (dep_ids : List String) (d : ScopeDecision)
    → decide_dependencies s subject target_id dep_ids ≡ ok d
    → d.allowed ≡ true
    → IsAuthorized s subject Action.set_dependencies target_id
      × All (IsAuthorizedDependency s subject) dep_ids
unfolding decide_dependencies
decide_dependencies_sound s subject target_id dep_ids d decided allowed =
    let (target, found, e) =
      >>=-eq-ok (target_of s subject target_id (values s.db.tasks)) _ decided in
    elim (Bool-cases (authorize subject Action.set_dependencies target).allowed) [
      | inl admits ↦
          let (_, rest) =
            decide_each_sound s subject target_id (authorize subject Action.set_dependencies target)
              d dep_ids (ground arith) allowed in
          (authorize_sound s subject Action.set_dependencies target_id target found admits, rest)
      | inr refuses ↦ absurd (ground arith)
    ]

planning_key-state :
    (key : String) (o : Option Task)
    → is_planning_key key o ≡ ok true
    → (t : Task) × (o ≡ some t) × (t.state ≡ "PLANNING")
planning_key-state key none h = absurd (ground arith)
planning_key-state key (some t) h = (t, refl, ground (arith, eq_iff t.state "PLANNING"))

-- The authority behind an allowed resolution: the task's own, or an orchestrator's on a task that
-- it governs and that is in planning.
pub data MayResolve (s : Service) (subject target_id : String) : Type 0 where
  own :
      IsAuthorized s subject Action.resolve_responsibility target_id
      → MayResolve s subject target_id
  planning :
      (t : Task)
      → IsAuthorized s subject Action.preplan_child target_id
      → find_task target_id (values s.db.tasks) ≡ some t
      → t.state ≡ "PLANNING"
      → MayResolve s subject target_id

-- A resolution of a promise that is allowed is one on the credential's own task, or an
-- orchestrator's on a task that it governs and that is in planning.
pub decide_responsibility_sound :
    (s : Service) (subject target_id key : String) (d : ScopeDecision)
    → decide_responsibility s subject target_id key ≡ ok d
    → d.allowed ≡ true
    → MayResolve s subject target_id
unfolding decide_responsibility
decide_responsibility_sound s subject target_id key d decided allowed =
    let (target, found, e) =
      >>=-eq-ok (target_of s subject target_id (values s.db.tasks)) _ decided in
    by_relation target found target.relation refl e
  where
    by_relation :
        (target : Target)
        → target_of s subject target_id (values s.db.tasks) ≡ ok target
        → (r : Relation) → target.relation ≡ r
        → responsibility_decision subject target_id target target.relation
            (is_planning_key key (find_task target_id (values s.db.tasks)))
          ≡ ok d
        → MayResolve s subject target_id
    by_relation target found Relation.self is e = own (
        authorize_sound s subject Action.resolve_responsibility target_id target found
          (ground arith))
    by_relation target found Relation.governed is e =
        let (t, there, state) =
          planning_key-state key (find_task target_id (values s.db.tasks)) (ground arith) in
        planning t
          (authorize_sound s subject Action.preplan_child target_id target found
            (unfold authorize in ground arith))
          there state
    by_relation target found Relation.unrelated is e = absurd (ground arith)
    by_relation target found Relation.missing is e = absurd (ground arith)
