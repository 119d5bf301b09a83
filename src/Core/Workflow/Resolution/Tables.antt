-- ===== src/Core/Workflow/Resolution/Tables.antt =====
-- The tables of a graph that resolves (core/workflow.py): which edges and operations stand beside
-- each state.
use panopticon_next.Base.{
  String, ◌≡◌, refl, ap, sym, ◌∙◌, arith, true, false, not, some, List, [], ◌∷◌, ok,
  ok_pair-injective, or_raise, or_raise-eq-ok, >>=-eq-ok, raise_if->>-eq-ok, ◌==◌, eq_iff,
  if◌then◌else◌, is_some, contains, All, Bool-cases, inl, inr,
}
use mathlib.Core.Option.{some-injective}
use mathlib.Core.Path.{subst}
use panopticon_next.Base.Table.{Table, lookup}
use panopticon_next.Core.Models.{dropped_label}
use panopticon_next.Core.Workflow.{StateClass}
use panopticon_next.Core.Workflow.Resolution.{
  WorkflowDecl, class_of, is_terminal_class, state_of, destinations, Materialized, materialize,
  resolve_operations, all_operations,
}
use panopticon_next.Core.Workflow.Resolution.Closure.{IsDone}
use panopticon_next.Core.Workflow.Resolution.Edges.{IsLabel, labels_of-Labels, labels_of-last}

module _ (d : WorkflowDecl) (t : Table String) where
  -- The edges of a class: none from a terminal one, else one to DROPPED, and all to labels.
  pub record AreEdges (id : String) (dests : List String) : Type 0 where
    pub ends : is_terminal_class (class_of d id) ≡ true → dests ≡ []
    pub drops : is_terminal_class (class_of d id) ≡ false → contains dests dropped_label ≡ true
    pub labels : All (IsLabel t) dests

  destinations-AreEdges :
      (id : String) (dests : List String) (after : Table String)
      → IsDone d t id
      → destinations d t (class_of d id) ≡ ok (dests, after)
      → AreEdges id dests × (after ≡ t)
  unfolding destinations IsDone
  destinations-AreEdges id dests after done h =
      elim (Bool-cases (is_terminal_class (class_of d id))) [
        | inl ends ↦
            let (is_nil, same) =
              ok_pair-injective [] dests t after (rw (ends, if◌then◌else◌) at h) in
            (
              record {
                ends = λ e. sym is_nil;
                drops = λ e. absurd (cc);
                labels = subst (All (IsLabel t)) is_nil tt;
              },
              sym same,
            )
        | inr live ↦
            let h1 = rw (live, if◌then◌else◌) at h in
            let s = labels_of-Labels d t _ [] dests after (done live) h1 in
            (
              record {
                ends = λ e. absurd (cc);
                drops =
                    λ e. labels_of-last d t _ _ dropped_label [] dests after refl (done live) h1;
                labels = s.labels tt;
              },
              s.same,
            )
      ]

  -- The state of a label, its class and its edges.
  pub record IsBuilt (rows : Table String) (m : Materialized) (label : String) (cls : StateClass)
      : Type 0 where
    pub id : String
    pub found : lookup label rows ≡ some id
    pub is : cls ≡ state_of (class_of d id)
    pub has_turn : is_some (class_of d id).turn_on_enter ≡ true
    pub dests : List String
    pub edges_at : lookup label m.transitions ≡ some dests
    pub edges : AreEdges id dests

  -- What the loop over the registered classes builds.
  pub record AreBuilt (rows : Table String) (m : Materialized) : Type 0 where
    pub same : m.by_label ≡ t
    pub states :
        (label : String) (cls : StateClass)
        → lookup label m.states ≡ some cls
        → IsBuilt rows m label cls
    pub all_labels :
        (label id : String)
        → lookup label rows ≡ some id
        → lookup label m.states ≡ some (state_of (class_of d id))

  abbrev with_row : String → String → List String → Materialized → Materialized
  with_row label id dests m = record {
    states = (label, state_of (class_of d id)) ∷ m.states;
    transitions = (label, dests) ∷ m.transitions;
    by_label = m.by_label;
  }

  -- One row in front of those that were built.
  built_row :
      (label id : String) (rows : Table String) (dests : List String) (m : Materialized)
      → is_some (class_of d id).turn_on_enter ≡ true
      → AreEdges id dests
      → AreBuilt rows m
      → AreBuilt ((label, id) ∷ rows) (with_row label id dests m)
  unfolding lookup
  built_row label id rows dests m turn edges built = record {
    same = built.same;
    states = λ l cls e. elim (Bool-cases (label == l)) [
      | inl same ↦ record {
        id = id;
        found = rw (same, if◌then◌else◌) refl;
        is = ground arith;
        has_turn = turn;
        dests = dests;
        edges_at = rw (same, if◌then◌else◌) refl;
        edges = edges;
      }
      | inr other ↦ later l cls other (built.states l cls (rw (other, if◌then◌else◌) at e))
    ];
    all_labels = λ l i e. elim (Bool-cases (label == l)) [
      | inl same ↦ ground (arith)
      | inr other ↦
          rw (other, if◌then◌else◌) (built.all_labels l i (rw (other, if◌then◌else◌) at e))
    ];
  }
    where
      later :
          (l : String) (cls : StateClass)
          → (label == l) ≡ false
          → IsBuilt rows m l cls
          → IsBuilt ((label, id) ∷ rows) (with_row label id dests m) l cls
      later l cls other b = record {
        id = b.id;
        found = rw (other, if◌then◌else◌) b.found;
        is = b.is;
        has_turn = b.has_turn;
        dests = b.dests;
        edges_at = rw (other, if◌then◌else◌) b.edges_at;
        edges = b.edges;
      }

  pub materialize-AreBuilt :
      (rows : Table String) (m : Materialized)
      → All (λ row. IsDone d t row.1) rows
      → materialize d rows t ≡ ok m
      → AreBuilt rows m
  unfolding materialize lookup
  materialize-AreBuilt [] m done h =
      let same : record { states = []; transitions = []; by_label = t } ≡ m = ground arith in
      subst (AreBuilt []) same (record {
        same = refl;
        states = λ l cls e. absurd (cc);
        all_labels = λ l id e. absurd (cc);
      })
  materialize-AreBuilt ((label, id) ∷ rows) m done h =
      let (turn, h1) = raise_if->>-eq-ok (not (is_some (class_of d id).turn_on_enter)) _ _ h in
      let (dests, h_dests, h2) = >>=-eq-ok (destinations d t (class_of d id)) _ h1 in
      let (edges, same) = destinations-AreEdges id dests.0 dests.1 done.0 h_dests in
      let (rest, h_rest, h3) = >>=-eq-ok (materialize d rows dests.1) _ h2 in
      let built = materialize-AreBuilt rows rest done.1 (rw same at h_rest) in
      let is : with_row label id dests.0 rest ≡ m = ground arith in
      subst (AreBuilt ((label, id) ∷ rows)) is
        (built_row label id rows dests.0 rest (ground arith) edges built)

  -- The operations of a label are those of its class along its edges.
  pub all_operations-lookup :
      (rows : Table String) (transitions : Table (List String)) (ops : Table (Table String))
      → all_operations d rows transitions ≡ ok ops
      → (label id : String) (dests : List String) → lookup label rows ≡ some id
      → lookup label transitions ≡ some dests
      → (own : Table String) × (lookup label ops ≡ some own)
        × (resolve_operations d (class_of d id) dests ≡ ok own)
  unfolding all_operations lookup
  all_operations-lookup [] transitions ops h label id dests found edges = cc
  all_operations-lookup ((l, i) ∷ rows) transitions ops h label id dests found edges =
      let (ds, h_ds, h1) = >>=-eq-ok (or_raise (lookup l transitions) _) _ h in
      let (own, h_own, h2) = >>=-eq-ok (resolve_operations d (class_of d i) ds) _ h1 in
      let (rest, h_rest, h3) = >>=-eq-ok (all_operations d rows transitions) _ h2 in
      let at_l = or_raise-eq-ok (lookup l transitions) _ h_ds in
      let is : (l, own) ∷ rest ≡ ops = ground arith in
      subst
        (λ o.
          (own : Table String) × (lookup label o ≡ some own)
          × (resolve_operations d (class_of d id) dests ≡ ok own))
        is
        (elim (Bool-cases (l == label)) [
          | inl same ↦
              let is_id : i ≡ id = ground (arith) in
              let is_ds : ds ≡ dests =
                some-injective ds dests
                  (sym at_l ∙ ap (λ k. lookup k transitions) ((eq_iff l label).0 same) ∙ edges) in
              (own, rw (same, if◌then◌else◌) refl, rw is_id at (rw is_ds at h_own))
          | inr other ↦
              let (own', at', resolved) =
                all_operations-lookup rows transitions rest h_rest label id dests
                  (rw (other, if◌then◌else◌) at found) edges in
              (own', rw (other, if◌then◌else◌) at', resolved)
        ])
