-- ===== src/Sessionservice/Ready.antt =====
-- `spawnable_tasks` of sessionservice/spawner.py: which tasks of a list a runner host tries to claim,
-- against the readiness of the task service (taskservice/service.py).
use panopticon_next.Base.{
  String, ◌≡◌, refl, ap, ◌∙◌, arith, Bool, true, not, ◌&&◌, ◌||◌, Option, none, some, List, [], ◌∷◌,
  map, ◌==◌, if◌then◌else◌, is_given, or_else, any, select, Bool-cases, inl, inr,
}
use mathlib.Core.Option
use panopticon_next.Base.Table.{Table, lookup, assign}
use panopticon_next.Core.Models.{Task, ContainerStatus, dropped_label}
use panopticon_next.Core.Workflow.{Workflow}
use panopticon_next.Taskservice.Workflows.{task_is_terminal}
use panopticon_next.Taskservice.Dependencies.{
  dependency_blocks, blocks_or_missing, dependencies_blocking_in_snapshot,
}
use panopticon_next.Sessionservice.Spawner.{TaskView, is_terminal_label}

-- `{key(x): x for x in xs}`, over what is in the dict already.
unfoldable pub index {ℓ} : {A : Type ℓ} → (A → String) → Table A → List A → Table A
index key found [] = found
index key found (x ∷ xs) = index key (assign (key x) x found) xs

abbrev pub is_terminal : TaskView → Bool
is_terminal t = or_else t.terminal (is_terminal_label t.state)

abbrev pub dependency_blocks_view : Option TaskView → Bool
dependency_blocks_view none = true
dependency_blocks_view (some d) = d.state == dropped_label || not (is_terminal d)

abbrev pub is_spawnable : Table TaskView → TaskView → Bool
is_spawnable by_id t =
    not (is_given t.claimed_by)
    && not t.launch_paused
    && not (is_terminal t)
    && not (any (λ d. dependency_blocks_view (lookup d by_id)) t.depends_on_task_ids)

unfoldable pub spawnable_tasks : List TaskView → List TaskView
unfolding index
spawnable_tasks tasks = select (is_spawnable (index (λ t. t.id) [] tasks)) tasks

-- What the service sends of a task.
abbrev pub view : (Task → ContainerStatus) → Table Workflow → Task → TaskView
view status workflows t = record {
  id = t.id;
  state = t.state;
  workflow = t.workflow;
  claimed_by = t.claimed_by;
  launch_paused = t.launch_paused;
  container_status = status t;
  terminal = some (task_is_terminal workflows t);
  depends_on_task_ids = t.depends_on_task_ids;
}

module _ {ℓ κ} {A : Type ℓ} {B : Type κ} (f : A → B) where
  abbrev map_values : Table A → Table B
  map_values [] = []
  map_values ((k, v) ∷ t) = (k, f v) ∷ map_values t

  lookup-map_values :
      (k : String) (t : Table A) → lookup k (map_values t) ≡ Option.map f (lookup k t)
  unfolding lookup
  lookup-map_values k [] = refl
  lookup-map_values k ((j, v) ∷ t) = elim (Bool-cases (j == k)) [
    | inl same ↦ rw (same, if◌then◌else◌) refl
    | inr other ↦ rw (other, if◌then◌else◌) (lookup-map_values k t)
  ]

  assign-map_values :
      (k : String) (v : A) (t : Table A) → assign k (f v) (map_values t) ≡ map_values (assign k v t)
  unfolding assign
  assign-map_values k v [] = refl
  assign-map_values k v ((j, w) ∷ t) = elim (Bool-cases (j == k)) [
    | inl same ↦ rw (same, if◌then◌else◌) refl
    | inr other ↦ rw (other, if◌then◌else◌) (ap (λ r. (j, f w) ∷ r) (assign-map_values k v t))
  ]

  index-map :
      (key : A → String) (key' : B → String)
      → ((x : A) → key' (f x) ≡ key x)
      → (found : Table A) (xs : List A)
      → index key' (map_values found) (map f xs) ≡ map_values (index key found xs)
  unfolding index
  index-map key key' same found [] = refl
  index-map key key' same found (x ∷ xs) =
      ap (λ k. index key' (assign k (f x) (map_values found)) (map f xs)) (same x)
      ∙ (ap (λ t. index key' t (map f xs)) (assign-map_values (key x) x found)
          ∙ index-map key key' same (assign (key x) x found) xs)

select-map {ℓ κ} :
    {A : Type ℓ} {B : Type κ} (f : A → B) (p : B → Bool) (q : A → Bool)
    → ((x : A) → p (f x) ≡ q x)
    → (xs : List A) → select p (map f xs) ≡ map f (select q xs)
select-map f p q same [] = refl
select-map f p q same (x ∷ xs) = elim (Bool-cases (q x)) [
  | inl keeps ↦ rw (same x ∙ keeps, keeps) (ap (λ r. f x ∷ r) (select-map f p q same xs))
  | inr drops ↦ rw (same x ∙ drops, drops) (select-map f p q same xs)
]

any-same {ℓ} :
    {A : Type ℓ} (p q : A → Bool) (xs : List A) → ((x : A) → p x ≡ q x) → any p xs ≡ any q xs
any-same p q [] same = refl
any-same p q (x ∷ xs) same = ground (arith, same x, any-same p q xs same)

module _ (status : Task → ContainerStatus) (workflows : Table Workflow) where
  blocks_view :
      (o : Option Task)
      → dependency_blocks_view (Option.map (view status workflows) o)
        ≡ blocks_or_missing workflows o
  unfolding dependency_blocks
  blocks_view none = refl
  blocks_view (some d) = refl

  -- What the service takes for a task that is free and ready.
  abbrev pub is_ready : List Task → Task → Bool
  is_ready tasks t =
      not (is_given t.claimed_by)
      && not t.launch_paused
      && not (task_is_terminal workflows t)
      && not (dependencies_blocking_in_snapshot workflows t (index (λ u. u.id) [] tasks))

  blocked_alike :
      (tasks : List Task) (t : Task)
      → any
          (λ d.
            dependency_blocks_view
              (lookup d (index (λ u. u.id) [] (map (view status workflows) tasks))))
          t.depends_on_task_ids
        ≡ dependencies_blocking_in_snapshot workflows t (index (λ u. u.id) [] tasks)
  unfolding dependencies_blocking_in_snapshot
  blocked_alike tasks t = any-same _ _ t.depends_on_task_ids (λ d.
      ap (λ table. dependency_blocks_view (lookup d table))
        (index-map (view status workflows) (λ u. u.id) (λ v. v.id) (λ u. refl) [] tasks)
      ∙ (ap dependency_blocks_view (lookup-map_values (view status workflows) d _)
          ∙ blocks_view (lookup d (index (λ u. u.id) [] tasks))))

  -- The tasks that a runner host tries to claim, from what the service sends of its tasks, are
  -- those that are unclaimed, not held, not at an end by their workflow, and whose dependencies the
  -- service does not take for blocking.
  pub spawnable_tasks-eq_ready :
      (tasks : List Task)
      → spawnable_tasks (map (view status workflows) tasks)
        ≡ map (view status workflows) (select (is_ready tasks) tasks)
  unfolding spawnable_tasks
  spawnable_tasks-eq_ready tasks =
      select-map (view status workflows) _ (is_ready tasks)
        (λ t.
          ap
            (λ b.
              not (is_given t.claimed_by)
              && not t.launch_paused
              && not (task_is_terminal workflows t)
              && not b)
            (blocked_alike tasks t))
        tasks
