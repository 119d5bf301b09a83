-- ===== src/Sessionservice/Spawner/Budget.antt =====
-- The crash-loop guard of sessionservice/spawner.py: a task whose launches fail before they reach a
-- session is launched a bounded number of times, however long that takes.
use panopticon_next.Base.{
  ℕ, suc, ◌+◌, String, ◌≡◌, inl, inr, refl, ap, ◌∙◌, arith, Bool, true, false, ◌&&◌, Option, none,
  some, err, runtime_error, List, [], ◌∷◌, ◌++◌, or_else, contains, eq_nat, leb, ◌==◌, eq_refl,
  if◌then◌else◌, All, Bool-cases, Option-cases,
}
use panopticon_next.Base.Table.{Table, lookup, lookup-put_self}
use panopticon_next.Core.Models.{LifecyclePhase}
use panopticon_next.Sessionservice.Spawner.{
  Call, Failure, Host, Config, Spawner, Steps, shell_steps, container_steps, call, run_steps,
  steps_of, respawn_of, set_respawn, mark_failed, add,
}
use panopticon_next.Sessionservice.Spawner.Passes.{is_recoverable, on_failure, spawn, spawn_result}

abbrev is_claiming : LifecyclePhase → Bool
is_claiming LifecyclePhase.claiming = true
is_claiming _ = false

-- How often a launch of the task was begun: each one reports CLAIMING first.
unfoldable pub launches : String → List Call → ℕ
launches id [] = 0
launches id (Call.report i phase detail hold ∷ calls) =
    let rest = launches id calls in if i == id && is_claiming phase then suc rest else rest
launches id (_ ∷ calls) = launches id calls

launches-append :
    (id : String) (xs ys : List Call) → launches id (xs ++ ys) ≡ launches id xs + launches id ys
unfolding launches
launches-append id [] ys = omega arith
launches-append id (Call.report i phase detail hold ∷ xs) ys =
    ground (arith, launches-append id xs ys)
launches-append id (Call.claim i ∷ xs) ys = launches-append id xs ys
launches-append id (Call.clear_lifecycle i ∷ xs) ys = launches-append id xs ys
launches-append id (Call.release i ∷ xs) ys = launches-append id xs ys
launches-append id (Call.stop_backend i ∷ xs) ys = launches-append id xs ys
launches-append id (Call.clean_credentials i ∷ xs) ys = launches-append id xs ys
launches-append id (Call.clean_workspace i ∷ xs) ys = launches-append id xs ys

-- The first failure of the steps of a launch.
abbrev pub first_failure : Steps → Option Failure
first_failure [] = none
first_failure ((phase, none) ∷ steps) = first_failure steps
first_failure ((phase, some failure) ∷ steps) = some failure

abbrev is_claiming_step : Option LifecyclePhase → Bool
is_claiming_step none = false
is_claiming_step (some phase) = is_claiming phase

-- A state that differs from another one in its calls, without a further launch.
record IsQuiet (id : String) (s s' : Spawner) : Type 0 where
  pub respawns : s'.respawns ≡ s.respawns
  pub failures : s'.pre_session_failures ≡ s.pre_session_failures
  pub quiet : launches id s'.calls ≡ launches id s.calls

call-IsQuiet :
    (id : String) (c : Call) (s : Spawner) → launches id (c ∷ []) ≡ 0 → IsQuiet id s (call c s)
call-IsQuiet id c s h = record {
  respawns = refl;
  failures = refl;
  quiet = launches-append id s.calls (c ∷ []) ∙ ap (λ n. launches id s.calls + n) h ∙ omega arith;
}

IsQuiet-then : (id : String) (a b c : Spawner) → IsQuiet id a b → IsQuiet id b c → IsQuiet id a c
IsQuiet-then id a b c h k = record {
  respawns = k.respawns ∙ h.respawns;
  failures = k.failures ∙ h.failures;
  quiet = k.quiet ∙ h.quiet;
}

run_steps-IsQuiet :
    (id : String) (steps : Steps) (s : Spawner)
    → All (λ step. is_claiming_step step.0 ≡ false) steps
    → IsQuiet id s (run_steps id steps s).1
unfolding run_steps launches
run_steps-IsQuiet id [] s h = record { respawns = refl; failures = refl; quiet = refl }
run_steps-IsQuiet id ((none, none) ∷ steps) s h = run_steps-IsQuiet id steps s h.1
run_steps-IsQuiet id ((none, some f) ∷ steps) s h = record {
  respawns = refl;
  failures = refl;
  quiet = refl;
}
run_steps-IsQuiet id ((some phase, none) ∷ steps) s h =
    IsQuiet-then id s _ _
      (call-IsQuiet id (Call.report id phase none false) s (ground (arith, h.0)))
      (run_steps-IsQuiet id steps _ h.1)
run_steps-IsQuiet id ((some phase, some f) ∷ steps) s h =
    call-IsQuiet id (Call.report id phase none false) s (ground (arith, h.0))

run_steps-failure :
    (id : String) (steps : Steps) (s : Spawner) → (run_steps id steps s).0 ≡ first_failure steps
unfolding run_steps
run_steps-failure id [] s = refl
run_steps-failure id ((phase, none) ∷ steps) s = run_steps-failure id steps _
run_steps-failure id ((phase, some f) ∷ steps) s = refl

abbrev pub count : String → Spawner → ℕ
count id s = (respawn_of id s).0

pub count-set_respawn :
    (id : String) (n at : ℕ) (s : Spawner) → count id (set_respawn id n at s) ≡ n
count-set_respawn id n at s =
    ap (λ (o : Option (ℕ × ℕ)). (or_else o (0, 0)).0) (lookup-put_self id (n, at) s.respawns)

contains-add : (id : String) (xs : List String) → contains (add id xs) id ≡ true
contains-add id xs = elim (Bool-cases (contains xs id)) [
  | inl old ↦ rw (old, if◌then◌else◌) old
  | inr new ↦ rw (new, if◌then◌else◌) (ground (arith, eq_refl id))
]

count-IsQuiet : (id : String) (s s' : Spawner) → IsQuiet id s s' → count id s' ≡ count id s
count-IsQuiet id s s' q = ap (λ (t : Table (ℕ × ℕ)). (or_else (lookup id t) (0, 0)).0) q.respawns

-- A launch on this host fails before there is a session.
pub record FailsEarly (cfg : Config) (h : Host) : Type 0 where
  pub failure : Failure
  pub fails : first_failure (steps_of cfg h) ≡ some failure
  pub recoverable : is_recoverable cfg h failure ≡ true

module _ (cfg : Config) (h : Host) (id : String) where
  -- What a failure before the session leaves: the count, the mark, and no launch.
  pub record IsLatched (s s' : Spawner) : Type 0 where
    pub same_count : count id s' ≡ count id s
    pub marked : contains s'.pre_session_failures id ≡ true
    pub no_launch : launches id s'.calls ≡ launches id s.calls

  call-IsLatched :
      (c : Call) (s s' : Spawner)
      → launches id (c ∷ []) ≡ 0
      → IsLatched s s'
      → IsLatched s (call c s')
  call-IsLatched c s s' e l =
      let q = call-IsQuiet id c s' e in
      record { same_count = l.same_count; marked = l.marked; no_launch = q.quiet ∙ l.no_launch }

  marked-IsLatched : (s : Spawner) → IsLatched s (mark_failed id s)
  marked-IsLatched s = record {
    same_count = refl;
    marked = contains-add id s.pre_session_failures;
    no_launch = refl;
  }

  stamped-IsLatched :
      (s : Spawner) → IsLatched s (set_respawn id (count id s) h.failed_at (mark_failed id s))
  stamped-IsLatched s = record {
    same_count = count-set_respawn id (count id s) h.failed_at (mark_failed id s);
    marked = contains-add id s.pre_session_failures;
    no_launch = refl;
  }

  pub on_failure-IsLatched :
      (f : Failure) (s : Spawner)
      → is_recoverable cfg h f ≡ true
      → IsLatched s (on_failure cfg h id f s)
  unfolding launches
  on_failure-IsLatched (Failure.infrastructure detail) s r =
      rw (r, if◌then◌else◌)
        (elim (Bool-cases (leb cfg.max_respawns (count id s))) [
          | inl over ↦
              rw (over, if◌then◌else◌) (call-IsLatched _ s _ (ground arith) (stamped-IsLatched s))
          | inr left ↦
              rw (left, if◌then◌else◌)
                (call-IsLatched _ s _ (ground arith) (elim (Bool-cases (eq_nat (count id s) 0)) [
                  | inl fresh ↦ rw (fresh, if◌then◌else◌) (marked-IsLatched s)
                  | inr counted ↦ rw (counted, if◌then◌else◌) (stamped-IsLatched s)
                ]))
        ])
  on_failure-IsLatched (Failure.missing_auth detail) s r = absurd (ground arith)
  on_failure-IsLatched (Failure.git_credentials detail) s r = absurd (ground arith)
  on_failure-IsLatched (Failure.other_failure detail) s r = absurd (ground arith)

  -- What follows CLAIMING in a launch of a container.
  later_steps : Steps
  later_steps = if h.is_shell then shell_steps cfg h else container_steps h

  later_steps-AreQuiet :
      h.is_shell ≡ false → All (λ step. is_claiming_step step.0 ≡ false) later_steps
  unfolding later_steps
  later_steps-AreQuiet e =
      rw (e, if◌then◌else◌) (refl, (refl, (refl, (refl, (refl, (refl, (refl, tt)))))))

  not_shell : (f : Failure) → is_recoverable cfg h f ≡ true → h.is_shell ≡ false
  not_shell f r = ground arith

  repo_read : (f : Failure) → is_recoverable cfg h f ≡ true → h.get_repo ≡ none
  repo_read f r = elim (Option-cases h.get_repo) [ inl e ↦ e | inr (x, e) ↦ absurd (ground arith) ]

  -- A launch begins once.
  pub run_steps-launches :
      (s : Spawner) (f : Failure)
      → is_recoverable cfg h f ≡ true
      → (launches id (run_steps id (steps_of cfg h) s).1.calls ≡ suc (launches id s.calls))
        × (count id (run_steps id (steps_of cfg h) s).1 ≡ count id s)
  unfolding run_steps launches later_steps
  run_steps-launches s f r = rw (repo_read f r) (
      let begun = call (Call.report id LifecyclePhase.claiming none false) s in
      let q = run_steps-IsQuiet id later_steps begun (later_steps-AreQuiet (not_shell f r)) in
      let one : launches id begun.calls ≡ suc (launches id s.calls) =
        launches-append id s.calls (Call.report id LifecyclePhase.claiming none false ∷ [])
        ∙ ground (arith, eq_refl id) in
      (q.quiet ∙ one, count-IsQuiet id begun _ q))

  pub spawn-fails :
      (s : Spawner) (e : FailsEarly cfg h)
      → spawn cfg h id s
        ≡ (err runtime_error, on_failure cfg h id e.failure (run_steps id (steps_of cfg h) s).1)
  unfolding spawn
  spawn-fails s e =
      ap (λ o. spawn_result cfg h id o (run_steps id (steps_of cfg h) s).1)
        (run_steps-failure id (steps_of cfg h) s ∙ e.fails)
