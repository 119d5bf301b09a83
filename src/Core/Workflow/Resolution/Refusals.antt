-- ===== src/Core/Workflow/Resolution/Refusals.antt =====
-- How the parts of the resolution of a workflow end (core/workflow.py): what they raise.
use panopticon_next.Base.{
  String, ◌≡◌, refl, Bool, true, false, not, ◌&&◌, none, some, Option, or_raise, List, [], ◌∷◌,
  ◌++◌, Result, ok, err, Error, raise_if, ◌>>=◌, ◌>>◌, is_some, is_given, contains, ◌==◌,
  if◌then◌else◌, Bool-cases, inl, inr,
}
use panopticon_next.Base.Table.{Table, lookup}
use panopticon_next.Core.Models.{dropped_label}
use panopticon_next.Core.Workflow.Resolution.{
  Target, StateDecl, WorkflowDecl, class_of, is_terminal_class, label_or_empty, is_taken, register,
  register_all, label_of, scan, labels_of, destinations, materialize, operation_dest,
  declared_operations, nested_states, resolve_operations, all_operations, initial_registry,
  complete_class, dropped_class,
}

-- The exceptions of a workflow that is not accepted.
abbrev pub IsRefusal : Error → Type 0
IsRefusal Error.invalid_workflow = Unit
IsRefusal Error.attribute_error = Unit
IsRefusal Error.key_error = Unit
IsRefusal _ = ⊥

-- A call that ends: it returns or refuses.
unfoldable pub Ends {ℓ} : {V : Type ℓ} → Result V → Type 0
Ends (ok v) = Unit
Ends (err e) = IsRefusal e

pub >>=-Ends {ℓ κ} :
    {V : Type ℓ} {W : Type κ} (first : Result V) (next : V → Result W)
    → Ends first
    → ((v : V) → first ≡ ok v → Ends (next v))
    → Ends (first >>= next)
unfolding Ends
>>=-Ends (err e) next h k = h
>>=-Ends (ok v) next h k = k v refl

pub check-Ends {κ} :
    {W : Type κ} (bad : Bool) (rest : Result W)
    → Ends rest
    → Ends (raise_if bad Error.invalid_workflow >> rest)
unfolding Ends
check-Ends true rest k = tt
check-Ends false rest k = k

pub returns {ℓ} : {V : Type ℓ} (v : V) → Ends (ok v)
unfolding Ends
returns v = tt

refused {ℓ} : (V : Type ℓ) (e : Error) → IsRefusal e → Ends {V = V} (err e)
unfolding Ends
refused V e h = h

pub or_raise-Ends {ℓ} : {V : Type ℓ} (o : Option V) (e : Error) → IsRefusal e → Ends (or_raise o e)
unfolding Ends
or_raise-Ends none e h = h
or_raise-Ends (some v) e h = tt

module _ (d : WorkflowDecl) where
  register-Ends : (t : Table String) (id : String) → Ends (register d t id)
  unfolding register
  register-Ends t id = check-Ends (class_of d id).is_abstract _ (
      check-Ends (not (is_given (class_of d id).label)) _
        (check-Ends (is_taken (lookup (label_or_empty (class_of d id)) t) id) _ (returns _)))

  pub register_all-Ends : (t : Table String) (ids : List String) → Ends (register_all d t ids)
  unfolding register_all
  register_all-Ends t [] = returns _
  register_all-Ends t (id ∷ ids) =
      >>=-Ends (register d t id) _ (register-Ends t id) (λ t' e. register_all-Ends t' ids)

  pub initial_registry-Ends : Ends (initial_registry d)
  unfolding initial_registry
  initial_registry-Ends =
      register_all-Ends [] (nested_states d ++ complete_class ∷ dropped_class ∷ [])

  pub label_of-Ends : (t : Table String) (target : Target) → Ends (label_of d t target)
  unfolding label_of
  label_of-Ends t Target.malformed = refused _ Error.invalid_workflow tt
  label_of-Ends t (Target.a_class id) =
      >>=-Ends (register d t id) _ (register-Ends t id) (λ t' e. returns _)
  label_of-Ends t (Target.a_label l) = at_test (is_some (lookup l t))
    where
      at_test :
          (b : Bool)
          → Ends {V = String × Table String} (if b then ok (l, t) else err Error.invalid_workflow)
      at_test true = returns _
      at_test false = refused _ Error.invalid_workflow tt

  labels_of-Ends :
      (t : Table String) (ts : List Target) (found : List String) → Ends (labels_of d t ts found)
  unfolding labels_of
  labels_of-Ends t [] found = returns _
  labels_of-Ends t (target ∷ ts) found =
      >>=-Ends (label_of d t target) _ (label_of-Ends t target) (λ l e. labels_of-Ends l.1 ts _)

  destinations-Ends : (t : Table String) (c : StateDecl) → Ends (destinations d t c)
  unfolding destinations
  destinations-Ends t c = elim (Bool-cases (is_terminal_class c)) [
    | inl ends ↦ rw (ends, if◌then◌else◌) (returns _)
    | inr live ↦ rw (live, if◌then◌else◌) (labels_of-Ends t _ [])
  ]

  pub materialize-Ends : (rows t : Table String) → Ends (materialize d rows t)
  unfolding materialize
  materialize-Ends [] t = returns _
  materialize-Ends ((label, id) ∷ rows) t =
      check-Ends (not (is_some (class_of d id).turn_on_enter)) _ (
        >>=-Ends (destinations d t (class_of d id)) _ (destinations-Ends t (class_of d id))
          (λ dests e.
            >>=-Ends (materialize d rows dests.1) _ (materialize-Ends rows dests.1)
              (λ m e'. returns _)))

  operation_dest-Ends : (target : Target) → Ends (operation_dest d target)
  operation_dest-Ends (Target.a_label l) = returns _
  operation_dest-Ends (Target.a_class id) = or_raise-Ends (class_of d id).label _ tt
  operation_dest-Ends Target.malformed = refused _ Error.attribute_error tt

  declared_operations-Ends :
      (dests : List String) (rows : Table Target) (ops : Table String)
      → Ends (declared_operations d dests rows ops)
  unfolding declared_operations
  declared_operations-Ends dests [] ops = returns _
  declared_operations-Ends dests ((name, target) ∷ rows) ops =
      >>=-Ends (operation_dest d target) _ (operation_dest-Ends target) (λ dest e.
        check-Ends (not (contains dests dest)) _ (
          check-Ends (name == "drop" && not (dest == dropped_label)) _
            (declared_operations-Ends dests rows _)))

  resolve_operations-Ends :
      (c : StateDecl) (dests : List String) → Ends (resolve_operations d c dests)
  unfolding resolve_operations
  resolve_operations-Ends c dests = elim (Bool-cases (is_terminal_class c)) [
    | inl ends ↦ rw (ends, if◌then◌else◌) (returns _)
    | inr live ↦
        rw (live, if◌then◌else◌)
          (>>=-Ends (declared_operations d dests c.operations []) _
            (declared_operations-Ends dests c.operations []) (λ ops e. returns _))
  ]

  pub all_operations-Ends :
      (rows : Table String) (transitions : Table (List String))
      → Ends (all_operations d rows transitions)
  unfolding all_operations
  all_operations-Ends [] transitions = returns _
  all_operations-Ends ((label, id) ∷ rows) transitions =
      >>=-Ends (or_raise (lookup label transitions) _) _
        (or_raise-Ends (lookup label transitions) _ tt)
        (λ dests e.
          >>=-Ends (resolve_operations d (class_of d id) dests) _
            (resolve_operations-Ends (class_of d id) dests)
            (λ ops e'.
              >>=-Ends (all_operations d rows transitions) _ (all_operations-Ends rows transitions)
                (λ rest e''. returns _)))

  pub scan-Ends :
      (ts : List Target) (t : Table String) (pending : List String) → Ends (scan d ts t pending)
  unfolding scan
  scan-Ends [] t pending = returns _
  scan-Ends (Target.a_label l ∷ ts) t pending = scan-Ends ts t pending
  scan-Ends (Target.malformed ∷ ts) t pending = scan-Ends ts t pending
  scan-Ends (Target.a_class id ∷ ts) t pending =
      >>=-Ends (or_raise (class_of d id).label _) _ (or_raise-Ends (class_of d id).label _ tt)
        (λ label e. >>=-Ends (register d t id) _ (register-Ends t id) (λ t' e'. scan-Ends ts t' _))
