-- ===== src/Examples/Scopes.antt =====
-- Tests of the credential's scope on the sample service, in which t1 governs t2 and t2 governs t3.
use panopticon_next.Base.{◌≡◌, ◌↔◌, refl, true, false, some, [], ◌∷◌, Result, ok, err, All}
use panopticon_next.Base.Table.{Table, lookup, assign, values}
use panopticon_next.Core.Models.{Task}
use panopticon_next.Taskservice.Workflows.{task_orchestrates}
use panopticon_next.Taskservice.Scope.{
  decide_responsibility, Relation, Action, ScopeDecision, authorize, target_of, is_self, by_id,
  relation_to, decide, decide_dependencies,
}
use panopticon_next.Taskservice.Scope.Governance.{Governed, by_id-IsIndexed, relation_to_decides}
use panopticon_next.Taskservice.Scope.Decisions.{
  IsAuthorized, IsAuthorizedDependency, decide_sound, decide_dependencies_sound, MayResolve,
  decide_responsibility_sound,
}
use panopticon_next.Examples.Data.{owned, rows, service}

abbrev index : Table Task
index = by_id (values rows.tasks)

owned_row : lookup owned.id index ≡ some owned
unfolding by_id lookup assign values
owned_row = refl

relation_to_decides_example :
    ((r : Relation) × (relation_to "t1" (some owned) index ≡ ok r))
    × ((relation_to "t1" (some owned) index ≡ ok Relation.governed)
        ↔ ((is_self "t1" owned (lookup "t1" index) ≡ false) × Governed index "t1" owned))
relation_to_decides_example =
    relation_to_decides index "t1" owned (by_id-IsIndexed (values rows.tasks)) owned_row

abbrev decision_of : Result ScopeDecision → ScopeDecision
decision_of (ok d) = d
decision_of (err e) = record { allowed = false; subject_task_id = ""; target_task_id = "" }

abbrev renaming : ScopeDecision
renaming = decision_of (decide service "t1" Action.set_slug "t3")

renaming_decided : decide service "t1" Action.set_slug "t3" ≡ ok renaming
unfolding decide lookup target_of by_id values assign authorize task_orchestrates
renaming_decided = refl

renaming_allowed : renaming.allowed ≡ true
unfolding decide lookup target_of by_id values assign authorize task_orchestrates
renaming_allowed = refl

decide_sound_example : IsAuthorized service "t1" Action.set_slug "t3"
decide_sound_example =
    decide_sound service "t1" Action.set_slug "t3" renaming renaming_decided renaming_allowed

abbrev linking : ScopeDecision
linking = decision_of (decide_dependencies service "t1" "t1" ("t3" ∷ "" ∷ []))

linking_decided : decide_dependencies service "t1" "t1" ("t3" ∷ "" ∷ []) ≡ ok linking
unfolding decide_dependencies lookup target_of by_id values assign task_orchestrates
linking_decided = refl

linking_allowed : linking.allowed ≡ true
unfolding decide_dependencies lookup target_of by_id values assign task_orchestrates
linking_allowed = refl

decide_dependencies_sound_example :
    IsAuthorized service "t1" Action.set_dependencies "t1"
    × All (IsAuthorizedDependency service "t1") ("t3" ∷ "" ∷ [])
decide_dependencies_sound_example =
    decide_dependencies_sound service "t1" "t1" ("t3" ∷ "" ∷ []) linking linking_decided
      linking_allowed

abbrev resolving : ScopeDecision
resolving = decision_of (decide_responsibility service "t4" "t6" "tests")

resolving_decided : decide_responsibility service "t4" "t6" "tests" ≡ ok resolving
unfolding decide_responsibility lookup target_of by_id values assign authorize task_orchestrates
resolving_decided = refl

resolving_allowed : resolving.allowed ≡ true
unfolding decide_responsibility lookup target_of by_id values assign authorize task_orchestrates
resolving_allowed = refl

decide_responsibility_sound_example : MayResolve service "t4" "t6"
decide_responsibility_sound_example =
    decide_responsibility_sound service "t4" "t6" "tests" resolving resolving_decided
      resolving_allowed
