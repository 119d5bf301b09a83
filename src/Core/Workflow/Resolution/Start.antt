-- ===== src/Core/Workflow/Resolution/Start.antt =====
-- The registry over which a graph is built (core/workflow.py): the first classes are registered, then
-- closed over.
use panopticon_next.Base.{
  String, ◌≡◌, ap, sym, ◌∙◌, arith, true, some, List, [], ◌∷◌, ◌++◌, ok, >>=-eq-ok, eq_iff,
  contains, All, inl,
}
use mathlib.Core.List.{reverse, reverse-cons}
use mathlib.Core.Option.{some-injective}
use mathlib.Core.Path.{subst}
use panopticon_next.Base.Table.{Table, lookup, values, All-lookup}
use panopticon_next.Base.Visited.{contains-snoc}
use panopticon_next.Core.Models.{complete_label, dropped_label}
use panopticon_next.Core.Workflow.Resolution.{
  Target, WorkflowDecl, class_of, register, register_all, initial_registry, close, closure_fuel,
  nested_states, complete_class, dropped_class,
}
use panopticon_next.Core.Workflow.Resolution.Registry.{
  AreDistinct, AreDistinct-All, Keeps, Keeps-refl, Keeps-trans, register-Registers, Registers-Keeps,
  Registers-lookup, All-assign,
}
use panopticon_next.Core.Workflow.Resolution.Closure.{
  InTable, IsDone, IsClosed, IsClosing, close-IsClosed,
}

contains-reverse :
    (xs : List String) (x : String) → contains xs x ≡ true → contains (reverse xs) x ≡ true
contains-reverse [] x h = cc
contains-reverse (y ∷ xs) x h =
    ap (λ ys. contains ys x) (reverse-cons y xs)
    ∙ (contains-snoc (reverse xs) y x ∙ ground (arith, contains-reverse xs x))

contains-values :
    (t : Table String) (l id : String) → lookup l t ≡ some id → contains (values t) id ≡ true
unfolding lookup values
contains-values [] l id h = cc
contains-values ((k, v) ∷ t) l id h = ground (arith, eq_iff v id, contains-values t l id)

module _ (d : WorkflowDecl) where
  -- A row whose class has the row's label.
  abbrev HasLabel : String × String → Type 0
  HasLabel row = (class_of d row.1).label ≡ some row.0

  -- What the registration of the first classes gives.
  record AreRegistered (ids : List String) (before after : Table String) : Type 0 where
    pub labels : All HasLabel after
    pub keeps : Keeps before after
    pub registered : All (λ id. InTable d after (Target.a_class id)) ids

  register_all-AreRegistered :
      (ids : List String) (before after : Table String)
      → All HasLabel before
      → register_all d before ids ≡ ok after
      → AreRegistered ids before after
  unfolding register_all InTable
  register_all-AreRegistered [] before after labels h =
      let same : before ≡ after = ground arith in
      subst (AreRegistered [] before) same
        (record { labels = labels; keeps = Keeps-refl before; registered = tt })
  register_all-AreRegistered (id ∷ ids) before after labels h =
      let (mid, h_register, h1) = >>=-eq-ok (register d before id) _ h in
      let r = register-Registers d before id mid h_register in
      let labels1 =
        subst (All HasLabel) (sym r.wrote)
          (All-assign HasLabel r.label id before r.labelled labels) in
      let rest = register_all-AreRegistered ids mid after labels1 h1 in
      let found = rest.keeps.classes r.label id (Registers-lookup d before id mid r) in
      record {
        labels = rest.labels;
        keeps = Keeps-trans before mid after (Registers-Keeps d before id mid r) rest.keeps;
        registered = ((r.label, r.labelled, found), rest.registered);
      }

  start-IsClosing :
      (first : Table String) → All HasLabel first → IsClosing d [] first (reverse (values first))
  start-IsClosing first labels = record {
    rows = λ l id e.
        let (k, same, has) = All-lookup HasLabel first l labels e in
        (
          has ∙ ap some same,
          inl (contains-reverse (values first) id (contains-values first l id e)),
        );
    seen = λ id e. absurd (cc);
  }

  -- The built-in terminal classes stand under their labels.
  pub record HasBuiltins (t : Table String) : Type 0 where
    pub complete : lookup complete_label t ≡ some complete_class
    pub dropped : lookup dropped_label t ≡ some dropped_class

  registered-HasBuiltins :
      (ids : List String) (t : Table String)
      → All (λ id. InTable d t (Target.a_class id)) (ids ++ complete_class ∷ dropped_class ∷ [])
      → HasBuiltins t
  unfolding InTable
  registered-HasBuiltins [] t h =
      let (k, labelled, found) = h.0 in
      let (l, labelled', found') = h.1.0 in
      let same : k ≡ complete_label = some-injective k complete_label (sym labelled) in
      let same' : l ≡ dropped_label = some-injective l dropped_label (sym labelled') in
      record {
        complete = ap (λ x. lookup x t) (sym same) ∙ found;
        dropped = ap (λ x. lookup x t) (sym same') ∙ found';
      }
  registered-HasBuiltins (id ∷ ids) t h = registered-HasBuiltins ids t h.1

  pub HasBuiltins-Keeps : (t t' : Table String) → Keeps t t' → HasBuiltins t → HasBuiltins t'
  HasBuiltins-Keeps t t' keeps h = record {
    complete = keeps.classes complete_label complete_class h.complete;
    dropped = keeps.classes dropped_label dropped_class h.dropped;
  }

  pub initial_registry-HasBuiltins :
      (first : Table String) → initial_registry d ≡ ok first → HasBuiltins first
  unfolding initial_registry
  initial_registry-HasBuiltins first h =
      registered-HasBuiltins (nested_states d) first
        (register_all-AreRegistered _ [] first tt h).registered

  -- The registry over which the graph is built.
  pub record IsRegistry (t : Table String) : Type 0 where
    pub closed : IsClosed d t
    pub distinct : AreDistinct t
    pub dropped : lookup dropped_label t ≡ some dropped_class

  pub close-IsRegistry :
      (first t : Table String)
      → initial_registry d ≡ ok first
      → close d (closure_fuel d first) [] first (reverse (values first)) ≡ ok t
      → IsRegistry t
  unfolding initial_registry AreDistinct
  close-IsRegistry first t h_first h_close =
      let r = register_all-AreRegistered _ [] first tt h_first in
      let (closed, keeps) =
        close-IsClosed d _ [] first _ t (start-IsClosing first r.labels) h_close in
      record {
        closed = closed;
        distinct = keeps.distinct (r.keeps.distinct tt);
        dropped =
            keeps.classes dropped_label dropped_class
              (initial_registry-HasBuiltins first h_first).dropped;
      }

  pub done_rows : (t : Table String) → IsRegistry t → All (λ row. IsDone d t row.1) t
  unfolding IsClosed
  done_rows t r = AreDistinct-All _ t r.distinct (λ l id e. (r.closed l id e).1)
