-- ===== src/Core/Workflow/Resolution/Registry.antt =====
-- What the registration of state classes keeps (core/workflow.py): every label leads to a class of
-- that label, and no label is ever given to another class.
use panopticon_next.Base.{
  String, ◌≡◌, inl, inr, refl, ap, sym, ◌∙◌, arith, true, false, not, Option, none, some, [], ◌∷◌,
  ok, raise_if->>-eq-ok, ◌==◌, eq_iff, eq_refl, if◌then◌else◌, is_given, or_else, All, Bool-cases,
}
use panopticon_next.Base.Table.{Table, lookup, assign, lookup-assign}
use panopticon_next.Core.Workflow.Resolution.{
  WorkflowDecl, class_of, is_taken, label_or_empty, register,
}

-- No label stands in two rows.
unfoldable pub AreDistinct : Table String → Type 0
AreDistinct [] = Unit
AreDistinct ((l, id) ∷ t) = (lookup l t ≡ none) × AreDistinct t

-- Every label of `before` keeps its class, and the labels stay distinct.
pub record Keeps (before after : Table String) : Type 0 where
  pub classes : (label id : String) → lookup label before ≡ some id → lookup label after ≡ some id
  pub distinct : AreDistinct before → AreDistinct after

pub Keeps-refl : (t : Table String) → Keeps t t
Keeps-refl t = record { classes = λ label id h. h; distinct = λ h. h }

pub Keeps-trans : (a b c : Table String) → Keeps a b → Keeps b c → Keeps a c
Keeps-trans a b c h k = record {
  classes = λ label id e. k.classes label id (h.classes label id e);
  distinct = λ e. k.distinct (h.distinct e);
}

assign-AreDistinct : (k v : String) (t : Table String) → AreDistinct t → AreDistinct (assign k v t)
unfolding assign AreDistinct lookup
assign-AreDistinct k v [] h = (refl, tt)
assign-AreDistinct k v ((j, w) ∷ t) h = elim (Bool-cases (j == k)) [
  | inl same ↦ rw (same, if◌then◌else◌) (rw ((eq_iff j k).0 same) at h.0, h.1)
  | inr other ↦
      rw (other, if◌then◌else◌)
        (
          ground (arith, lookup-assign k j v t, eq_iff j k, eq_iff k j),
          assign-AreDistinct k v t h.1,
        )
]

-- What holds of every label and its class holds of every row.
pub AreDistinct-All :
    (P : String × String → Type 0) (t : Table String)
    → AreDistinct t
    → ((l id : String) → lookup l t ≡ some id → P (l, id))
    → All P t
unfolding lookup AreDistinct
AreDistinct-All P [] h all = tt
AreDistinct-All P ((k, v) ∷ t) h all = (
  all k v (ground (arith, eq_refl k)),
  AreDistinct-All P t h.1 (λ l id e. all l id (ground (arith, eq_iff k l))),
)

-- A property of a row that holds of the new row and of all the old ones.
pub All-assign {ℓ κ} :
    {V : Type ℓ} (P : String × V → Type κ) (k : String) (v : V) (t : Table V)
    → P (k, v)
    → All P t
    → All P (assign k v t)
unfolding assign
All-assign P k v [] new old = (new, tt)
All-assign P k v ((j, w) ∷ t) new old = elim (Bool-cases (j == k)) [
  | inl same ↦ rw (same, assign) (new, old.1)
  | inr other ↦ rw (other, assign) (old.0, All-assign P k v t new old.1)
]

-- Writing what is there changes nothing.
pub assign-same {ℓ} :
    {V : Type ℓ} (k : String) (v : V) (t : Table V) → lookup k t ≡ some v → assign k v t ≡ t
unfolding assign lookup
assign-same k v [] h = cc
assign-same k v ((j, w) ∷ t) h = ground (arith, eq_iff j k, assign-same k v t)

-- What a registration that returns did.
pub record Registers (d : WorkflowDecl) (before : Table String) (id : String) (after : Table String)
    : Type 0 where
  pub label : String
  pub labelled : (class_of d id).label ≡ some label
  pub given : is_given (class_of d id).label ≡ true
  pub concrete : (class_of d id).is_abstract ≡ false
  pub wrote : after ≡ assign label id before
  pub free : is_taken (lookup label before) id ≡ false

pub register-Registers :
    (d : WorkflowDecl) (before : Table String) (id : String) (after : Table String)
    → register d before id ≡ ok after
    → Registers d before id after
unfolding register
register-Registers d before id after h =
    let (concrete, h1) = raise_if->>-eq-ok (class_of d id).is_abstract _ _ h in
    let (given, h2) = raise_if->>-eq-ok (not (is_given (class_of d id).label)) _ _ h1 in
    let (free, h3) =
      raise_if->>-eq-ok (is_taken (lookup (label_or_empty (class_of d id)) before) id) _ _ h2 in
    record {
      label = label_or_empty (class_of d id);
      labelled = given_label (class_of d id).label (ground arith);
      given = ground arith;
      concrete = concrete;
      wrote = ground arith;
      free = free;
    }
  where
    given_label : (o : Option String) → is_given o ≡ true → o ≡ some (or_else o "")
    given_label none e = cc
    given_label (some l) e = refl

-- A label that is not taken by another class belongs to this one.
pub not_taken : (o : Option String) (i id : String) → o ≡ some i → is_taken o id ≡ false → i ≡ id
not_taken none i id h free = cc
not_taken (some j) i id h free = ground (arith, eq_iff j id)

pub Keeps-assign :
    (l id : String) (t : Table String) → is_taken (lookup l t) id ≡ false → Keeps t (assign l id t)
Keeps-assign l id t free = record {
  classes = λ k i e. elim (Bool-cases (l == k)) [
    | inl same ↦
        let is : lookup l t ≡ some i = ap (λ x. lookup x t) ((eq_iff l k).0 same) ∙ e in
        rw lookup-assign
          (rw (same, if◌then◌else◌) (ap some (sym (not_taken (lookup l t) i id is free))))
    | inr other ↦ rw lookup-assign (rw (other, if◌then◌else◌) e)
  ];
  distinct = assign-AreDistinct l id t;
}

module _ (d : WorkflowDecl) (before : Table String) (id : String) where
  pub Registers-Keeps : (after : Table String) → Registers d before id after → Keeps before after
  Registers-Keeps after r = rw r.wrote (Keeps-assign r.label id before r.free)

  pub Registers-lookup :
      (after : Table String) (r : Registers d before id after) → lookup r.label after ≡ some id
  Registers-lookup after r = rw r.wrote (rw lookup-assign (rw eq_refl))

  -- A class that is registered is registered again without an effect.
  pub register-same :
      (l : String)
      → (class_of d id).is_abstract ≡ false
      → is_given (class_of d id).label ≡ true
      → (class_of d id).label ≡ some l
      → lookup l before ≡ some id
      → register d before id ≡ ok before
  unfolding register
  register-same l concrete given labelled found =
      ground (arith, eq_refl id, assign-same l id before found)
