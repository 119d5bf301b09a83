-- ===== src/Core/Workflow/Resolution/Edges.antt =====
-- The edges and the operations of one state class (core/workflow.py): over a closed registry the
-- edges lead to registered classes, and the operations lead along edges.
use panopticon_next.Base.{
  String, ◌≡◌, refl, ap, sym, ◌∙◌, arith, Bool, true, false, not, ◌&&◌, some, List, [], ◌∷◌, ◌++◌,
  ok, >>=-eq-ok, raise_if->>-eq-ok, ◌==◌, eq_iff, eq_refl, if◌then◌else◌, is_some, contains, select,
  All, All-append, Bool-cases, inl, inr,
}
use mathlib.Core.Option.{some-injective}
use mathlib.Core.Path.{subst}
use panopticon_next.Base.Table.{Table, lookup}
use panopticon_next.Core.Models.{dropped_label}
use panopticon_next.Core.Workflow.Resolution.{
  Target, StateDecl, WorkflowDecl, class_of, is_terminal_class, label_of, labels_of,
  declared_operations, only_forward, with_advance, with_drop, resolve_operations, operation_dest,
  register,
}
use panopticon_next.Core.Workflow.Resolution.Registry.{register-Registers, assign-same, All-assign}
use panopticon_next.Core.Workflow.Resolution.Closure.{InTable}

-- A label of the registry.
unfoldable pub IsLabel : Table String → String → Type 0
IsLabel t l = is_some (lookup l t) ≡ true

module _ (d : WorkflowDecl) (t : Table String) where
  label_of-IsLabel :
      (target : Target) (l : String) (after : Table String)
      → InTable d t target
      → label_of d t target ≡ ok (l, after)
      → IsLabel t l × (after ≡ t)
  unfolding label_of InTable IsLabel
  label_of-IsLabel Target.malformed l after inside h = cc
  label_of-IsLabel (Target.a_label m) l after inside h = ground arith
  label_of-IsLabel (Target.a_class id) l after (m, labelled, found) h =
      let (t', h_register, h1) = >>=-eq-ok (register d t id) _ h in
      let r = register-Registers d t id t' h_register in
      let same : r.label ≡ m = some-injective r.label m (sym r.labelled ∙ labelled) in
      let at_r : lookup r.label t ≡ some id = ap (λ x. lookup x t) same ∙ found in
      let wrote : t' ≡ t = r.wrote ∙ assign-same r.label id t at_r in
      ground (arith, r.labelled, at_r, wrote)

  -- The labels of a list of targets that are registered.
  pub record Labels (found dests : List String) (after : Table String) : Type 0 where
    pub same : after ≡ t
    pub labels : All (IsLabel t) found → All (IsLabel t) dests
    pub stays : (l : String) → contains found l ≡ true → contains dests l ≡ true

  stays_add :
      (b : Bool) (found : List String) (k l : String)
      → contains found l ≡ true
      → contains (if b then found else found ++ k ∷ []) l ≡ true
  stays_add true found k l h = h
  stays_add false found k l h = at_end found k l h
    where
      at_end :
          (found : List String) (k l : String)
          → contains found l ≡ true
          → contains (found ++ k ∷ []) l ≡ true
      at_end [] k l h = cc
      at_end (x ∷ found) k l h = ground (arith, at_end found k l)

  labels_add :
      (b : Bool) (found : List String) (k : String)
      → IsLabel t k
      → All (IsLabel t) found
      → All (IsLabel t) (if b then found else found ++ k ∷ [])
  labels_add true found k new h = h
  labels_add false found k new h = All-append (IsLabel t) found (k ∷ []) h (new, tt)

  pub labels_of-Labels :
      (ts : List Target) (found dests : List String) (after : Table String)
      → All (InTable d t) ts
      → labels_of d t ts found ≡ ok (dests, after)
      → Labels found dests after
  unfolding labels_of
  labels_of-Labels [] found dests after inside h =
      let same' : found ≡ dests = ground arith in
      record {
        same = ground arith;
        labels = subst (All (IsLabel t)) same';
        stays = λ l e. sym (ap (λ ls. contains ls l) same') ∙ e;
      }
  labels_of-Labels (target ∷ ts) found dests after inside h =
      let (labelled, h_label, h1) = >>=-eq-ok (label_of d t target) _ h in
      let (new, same) = label_of-IsLabel target labelled.0 labelled.1 inside.0 h_label in
      let rest = labels_of-Labels ts _ dests after inside.1 (rw same at h1) in
      record {
        same = rest.same;
        labels = λ e. rest.labels (labels_add (contains found labelled.0) found labelled.0 new e);
        stays = λ l e. rest.stays l (stays_add (contains found labelled.0) found labelled.0 l e);
      }

  label_of_class :
      (id l l' : String) (after : Table String)
      → (class_of d id).label ≡ some l
      → label_of d t (Target.a_class id) ≡ ok (l', after)
      → l' ≡ l
  unfolding label_of
  label_of_class id l l' after labelled h =
      let (t', h_register, h1) = >>=-eq-ok (register d t id) _ h in ground (arith, labelled)

  contains_added :
      (found : List String) (k : String)
      → contains (if contains found k then found else found ++ k ∷ []) k ≡ true
  contains_added found k = elim (Bool-cases (contains found k)) [
    | inl old ↦ rw (old, if◌then◌else◌) old
    | inr new ↦ rw (new, if◌then◌else◌) (at_end found k)
  ]
    where
      at_end : (found : List String) (k : String) → contains (found ++ k ∷ []) k ≡ true
      at_end [] k = ground (arith, eq_refl k)
      at_end (x ∷ found) k = ground (arith, at_end found k)

  -- The label of the last target is among the labels.
  pub labels_of-last :
      (ts : List Target) (id l : String) (found dests : List String) (after : Table String)
      → (class_of d id).label ≡ some l
      → All (InTable d t) (ts ++ Target.a_class id ∷ [])
      → labels_of d t (ts ++ Target.a_class id ∷ []) found ≡ ok (dests, after)
      → contains dests l ≡ true
  unfolding labels_of
  labels_of-last [] id l found dests after labelled inside h =
      let (got, h_label, h1) = >>=-eq-ok (label_of d t (Target.a_class id)) _ h in
      let is_l = label_of_class id l got.0 got.1 labelled h_label in
      let whole : (if contains found got.0 then found else found ++ got.0 ∷ []) ≡ dests =
        ground arith in
      ap (contains dests) (sym is_l)
      ∙ ap (λ ds. contains ds got.0) (sym whole)
      ∙ contains_added found got.0
  labels_of-last (target ∷ ts) id l found dests after labelled inside h =
      let (got, h_label, h1) = >>=-eq-ok (label_of d t target) _ h in
      let (new, same) = label_of-IsLabel target got.0 got.1 inside.0 h_label in
      labels_of-last ts id l _ dests after labelled inside.1 (rw same at h1)

-- An operation leads along an edge, and `drop` leads to DROPPED.
abbrev pub IsEdgeOperation : List String → String × String → Type 0
IsEdgeOperation dests op = (contains dests op.1 ≡ true) × (op.0 ≡ "drop" → op.1 ≡ dropped_label)

module _ (d : WorkflowDecl) (dests : List String) where
  declared-IsEdgeOperation :
      (rows : Table Target) (ops ops' : Table String)
      → All (IsEdgeOperation dests) ops
      → declared_operations d dests rows ops ≡ ok ops'
      → All (IsEdgeOperation dests) ops'
  unfolding declared_operations
  declared-IsEdgeOperation [] ops ops' all h =
      let same : ops ≡ ops' = ground arith in subst (All (IsEdgeOperation dests)) same all
  declared-IsEdgeOperation ((name, target) ∷ rows) ops ops' all h =
      let (dest, h_dest, h1) = >>=-eq-ok (operation_dest d target) _ h in
      let (edge, h2) = raise_if->>-eq-ok (not (contains dests dest)) _ _ h1 in
      let (drops, h3) = raise_if->>-eq-ok (name == "drop" && not (dest == dropped_label)) _ _ h2 in
      let is_drop : name ≡ "drop" → dest ≡ dropped_label =
        λ e. ground (arith, eq_iff name "drop", eq_iff dest dropped_label) in
      declared-IsEdgeOperation rows _ ops'
        (All-assign (IsEdgeOperation dests) name dest ops (ground arith, is_drop) all) h3

  contains_selected :
      (p : String → Bool) (ds : List String) (x : String)
      → contains (select p ds) x ≡ true
      → contains ds x ≡ true
  contains_selected p [] x h = cc
  contains_selected p (y ∷ ds) x h = ground (arith, contains_selected p ds x)

  forward-IsEdgeOperation :
      (forward : List String) (ops : Table String)
      → ((x : String) → contains forward x ≡ true → contains dests x ≡ true)
      → All (IsEdgeOperation dests) ops
      → All (IsEdgeOperation dests) (only_forward forward ops)
  forward-IsEdgeOperation [] ops inside all = all
  forward-IsEdgeOperation (x ∷ y ∷ forward) ops inside all = all
  forward-IsEdgeOperation (x ∷ []) ops inside all =
      All-assign (IsEdgeOperation dests) "advance" x ops
        (inside x (ground (arith, eq_refl x)), λ e. absurd (cc)) all

  advance-IsEdgeOperation :
      (ops : Table String)
      → All (IsEdgeOperation dests) ops
      → All (IsEdgeOperation dests) (with_advance dests ops)
  advance-IsEdgeOperation ops all = elim (Bool-cases (is_some (lookup "advance" ops))) [
    | inl has ↦ rw (has, if◌then◌else◌) all
    | inr lacks ↦
        rw (lacks, if◌then◌else◌)
          (forward-IsEdgeOperation _ ops (λ x h. contains_selected _ dests x h) all)
  ]

  drop-IsEdgeOperation :
      (ops : Table String)
      → contains dests dropped_label ≡ true
      → All (IsEdgeOperation dests) ops
      → All (IsEdgeOperation dests) (with_drop ops)
  drop-IsEdgeOperation ops edge all = elim (Bool-cases (is_some (lookup "drop" ops))) [
    | inl has ↦ rw (has, if◌then◌else◌) all
    | inr lacks ↦
        rw (lacks, if◌then◌else◌)
          (All-assign (IsEdgeOperation dests) "drop" dropped_label ops (edge, λ e. refl) all)
  ]

  -- The operations of a class whose edges have one to DROPPED.
  pub resolve_operations-IsEdgeOperation :
      (c : StateDecl) (ops : Table String)
      → (is_terminal_class c ≡ false → contains dests dropped_label ≡ true)
      → resolve_operations d c dests ≡ ok ops
      → All (IsEdgeOperation dests) ops
  unfolding resolve_operations
  resolve_operations-IsEdgeOperation c ops edge h = elim (Bool-cases (is_terminal_class c)) [
    | inl ends ↦
        let same : ok [] ≡ ok ops = rw (ends, if◌then◌else◌) at h in
        let is_nil : [] ≡ ops = ground arith in subst (All (IsEdgeOperation dests)) is_nil tt
    | inr live ↦
        let (declared, h_ops, h1) =
          >>=-eq-ok (declared_operations d dests c.operations []) _
            (rw (live, if◌then◌else◌) at h) in
        let same : with_drop (with_advance dests declared) ≡ ops = ground arith in
        subst (All (IsEdgeOperation dests)) same (
          drop-IsEdgeOperation _ (edge live) (
            advance-IsEdgeOperation declared
              (declared-IsEdgeOperation c.operations [] declared tt h_ops)))
  ]
