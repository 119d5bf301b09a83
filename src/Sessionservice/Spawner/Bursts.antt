-- ===== src/Sessionservice/Spawner/Bursts.antt =====
-- Healing passes of sessionservice/spawner.py over a task that never reaches a session.
use panopticon_next.Base.{
  ℕ, suc, ◌+◌, ◌≤◌, String, ◌≡◌, ◌⊎◌, inl, inr, refl, ap, sym, ◌∙◌, arith, Bool, true, false, ◌&&◌,
  not, Option, none, some, List, [], ◌∷◌, ok, err, runtime_error, is_some, eq_option, contains, leb,
  if◌then◌else◌, All, Bool-cases,
}
use mathlib.Core.Path.{subst}
use panopticon_next.Base.Exec.{
  Exec, raise_if, when, modify, pure, ◌>>◌, ◌>>=◌, bind_after, bind_raised,
}
use panopticon_next.Base.Table.{lookup}
use panopticon_next.Sessionservice.Spawner.{
  TaskView, Host, Config, Spawner, is_terminal_label, forget, run_steps, steps_of, set_respawn,
}
use panopticon_next.Sessionservice.Spawner.Passes.{
  respawn_count, may_be_orphan, is_orphan, respawn, keep_fresh, heal_orphan, heal_reachable,
  heal_if, end_budget, is_orphan, probe, heal,
}
use panopticon_next.Sessionservice.Spawner.Budget.{
  launches, count, count-set_respawn, on_failure-IsLatched, FailsEarly, run_steps-launches,
  spawn-fails,
}

-- Within the budget, and every respawn that is counted failed before its session.
pub record IsBurst (cfg : Config) (id : String) (s : Spawner) : Type 0 where
  pub within : count id s ≤ cfg.max_respawns
  pub marked : (count id s ≡ 0) ⊎ (contains s.pre_session_failures id ≡ true)

not_leb : (a b : ℕ) → leb a b ≡ false → suc b ≤ a
not_leb a b h = ground arith

module _ (cfg : Config) (id : String) where
  -- A pass pays for each launch from the budget.
  record Paces (s s' : Spawner) : Type 0 where
    pub burst : IsBurst cfg id s'
    pub paid : launches id s'.calls + count id s ≡ launches id s.calls + count id s'

  Paces-refl : (s : Spawner) → IsBurst cfg id s → Paces s s
  Paces-refl s b = record { burst = b; paid = refl }

  respawn_count_lem :
      (now : ℕ) (s : Spawner) → IsBurst cfg id s → respawn_count cfg id now s ≡ count id s
  respawn_count_lem now s b = elim b.marked [
    | inl zero_count ↦ ground (arith, zero_count)
    | inr marked ↦ ground (arith, marked)
  ]

  module _ (h : Host) where
    respawn-Paces :
        (s : Spawner) → IsBurst cfg id s → FailsEarly cfg h → Paces s (respawn cfg h id s).1
    respawn-Paces s b e = elim (Bool-cases (leb cfg.max_respawns (respawn_count cfg id h.now s))) [
      | inl over ↦ rw (over, if◌then◌else◌) (Paces-refl s b)
      | inr left ↦
          let same = respawn_count_lem h.now s b in
          let s1 = set_respawn id (respawn_count cfg id h.now s + 1) h.now s in
          let (one, kept) = run_steps-launches cfg h id s1 e.failure e.recoverable in
          let l =
            on_failure-IsLatched cfg h id e.failure (run_steps id (steps_of cfg h) s1).1
              e.recoverable in
          let counted : count id (run_steps id (steps_of cfg h) s1).1 ≡ suc (count id s) =
            kept ∙ (count-set_respawn id _ h.now s ∙ omega (arith, same)) in
          let below : suc (count id s) ≤ cfg.max_respawns =
            not_leb cfg.max_respawns (count id s) (ap (leb cfg.max_respawns) (sym same) ∙ left) in
          rw (left, if◌then◌else◌)
            (rw (spawn-fails cfg h id s1 e) (record {
              burst = record {
                within = omega (arith, l.same_count, counted, below);
                marked = inr l.marked;
              };
              paid = omega (arith, l.same_count, l.no_launch, counted, one);
            }))
    ]

    keep_fresh-Paces : (s : Spawner) → IsBurst cfg id s → Paces s (keep_fresh cfg h id s)
    keep_fresh-Paces s b = elim (Bool-cases (is_some (lookup id s.respawns))) [
      | inr lacks ↦ rw (lacks, if◌then◌else◌) (Paces-refl s b)
      | inl has ↦
          let same = count-set_respawn id (count id s) h.now s in
          rw (has, if◌then◌else◌)
            (record {
              burst = record {
                within = omega (arith, same, b.within);
                marked = elim b.marked [ inl e ↦ inl (same ∙ e) | inr e ↦ inr e ];
              };
              paid = omega (arith, same);
            })
    ]

    heal_reachable-Paces :
        (up : Bool) (s : Spawner)
        → IsBurst cfg id s
        → FailsEarly cfg h
        → Paces s (heal_reachable cfg up h id s).1
    heal_reachable-Paces true s b e = respawn-Paces s b e
    heal_reachable-Paces false s b e = keep_fresh-Paces s b

module _ (cfg : Config) (h : Host) (t : TaskView) where
  module _ (s : Spawner) where
    checked-cases :
        (bad : Bool) (body : Exec Spawner (Option String))
        → (((raise_if bad runtime_error >> body) s).1 ≡ s)
          ⊎ (((raise_if bad runtime_error >> body) s).1 ≡ (body s).1)
    checked-cases true body = inl refl
    checked-cases false body = inr refl

    heal_if-cases :
        (orphan : Bool)
        → ((heal_if cfg h t.id orphan s).1 ≡ s)
          ⊎ ((heal_if cfg h t.id orphan s).1 ≡ (heal_orphan cfg h t.id s).1)
    heal_if-cases false = inl refl
    heal_if-cases true = checked-cases (is_some h.configuration) (heal_orphan cfg h t.id)

    -- The probe of the session changes nothing, also where it raises.
    is_orphan-cases :
        ((orphan : Bool) × (is_orphan cfg h t s ≡ (ok orphan, s)))
        ⊎ (is_orphan cfg h t s ≡ (err runtime_error, s))
    is_orphan-cases = at_test (may_be_orphan cfg h t) h.has_session
      where
        at_test :
            (b : Bool) (o : Option Bool)
            → ((orphan : Bool) × ((if b then probe cfg o else pure false) s ≡ (ok orphan, s)))
              ⊎ ((if b then probe cfg o else pure false) s ≡ (err runtime_error, s))
        at_test false o = inl (false, refl)
        at_test true none = inr refl
        at_test true (some there) = inl (not there, refl)

    heal-after_end_budget :
        is_terminal_label t.state ≡ false
        → heal cfg h t s ≡ (is_orphan cfg h t >>= heal_if cfg h t.id) s
    unfolding heal
    heal-after_end_budget live = bind_after (end_budget cfg t) _ (
        ap
          (λ ended.
            when (ended && eq_option t.claimed_by (some cfg.runner_id)) (modify (forget t.id)) s)
          live)

    -- A pass over a task that has not ended does nothing, or it heals the orphan.
    heal-cases :
        is_terminal_label t.state ≡ false
        → ((heal cfg h t s).1 ≡ s) ⊎ ((heal cfg h t s).1 ≡ (heal_orphan cfg h t.id s).1)
    heal-cases live = elim is_orphan-cases [
      | inr raises ↦ inl (
          ap (λ p. p.1) (heal-after_end_budget live)
          ∙ ap (λ p. p.1) (bind_raised (is_orphan cfg h t) (heal_if cfg h t.id) raises))
      | inl (orphan, probed) ↦
          let whole = heal-after_end_budget live ∙ bind_after (is_orphan cfg h t) _ probed in
          elim (heal_if-cases orphan) [
            | inl e ↦ inl (ap (λ p. p.1) whole ∙ e)
            | inr e ↦ inr (ap (λ p. p.1) whole ∙ e)
          ]
    ]

  heal-Paces :
      (s : Spawner)
      → IsBurst cfg t.id s
      → is_terminal_label t.state ≡ false
      → FailsEarly cfg h
      → Paces cfg t.id s (heal cfg h t s).1
  heal-Paces s b live e = elim (heal-cases s live) [
    | inl same ↦ subst (Paces cfg t.id s) (sym same) (Paces-refl cfg t.id s b)
    | inr heals ↦
        subst (Paces cfg t.id s) (sym heals) (heal_reachable-Paces cfg t.id h h.reachable s b e)
  ]

-- The passes of a daemon over one task: a pass that raises does not stop the later ones.
unfoldable pub heal_passes : Config → List (Host × TaskView) → Spawner → Spawner
heal_passes cfg [] s = s
heal_passes cfg ((h, t) ∷ passes) s = heal_passes cfg passes (heal cfg h t s).1

-- A pass over the task while it is live, on which a launch would fail before its session.
pub record IsFailingPass (cfg : Config) (id : String) (pass : Host × TaskView) : Type 0 where
  pub same_task : pass.1.id ≡ id
  pub live : is_terminal_label pass.1.state ≡ false
  pub fails : FailsEarly cfg pass.0

passes-Paces :
    (cfg : Config) (id : String) (passes : List (Host × TaskView)) (s : Spawner)
    → IsBurst cfg id s
    → All (IsFailingPass cfg id) passes
    → Paces cfg id s (heal_passes cfg passes s)
unfolding heal_passes
passes-Paces cfg id [] s b all = Paces-refl cfg id s b
passes-Paces cfg id ((h, t) ∷ passes) s b all =
    let first =
      subst (λ i. IsBurst cfg i s → Paces cfg i s (heal cfg h t s).1) all.0.same_task
        (λ c. heal-Paces cfg h t s c all.0.live all.0.fails) b in
    let rest = passes-Paces cfg id passes (heal cfg h t s).1 first.burst all.1 in
    record { burst = rest.burst; paid = omega (arith, first.paid, rest.paid) }

-- Over any number of healing passes on a live task on which a launch would fail before a session,
-- with whatever times, outages and answers to the probe that comes before a respawn, a task whose
-- counted respawns failed that way is launched at most as often as its respawn budget has left.
pub heal_passes-launches :
    (cfg : Config) (id : String) (passes : List (Host × TaskView)) (s : Spawner)
    → IsBurst cfg id s
    → All (IsFailingPass cfg id) passes
    → launches id (heal_passes cfg passes s).calls + count id s
      ≤ launches id s.calls + cfg.max_respawns
heal_passes-launches cfg id passes s b all =
    let p = passes-Paces cfg id passes s b all in omega (arith, p.paid, p.burst.within)
