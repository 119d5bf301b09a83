-- ===== src/Core/Models/Promises.antt =====
-- The responsibilities promised on entering a state: `Responsibility.resolve`,
-- `Task.current_entry`, `Task.resolve_responsibility` and `Task.outstanding_responsibilities`.
pub mod Resolved
use panopticon_next.Base.{
  String, ◌≡◌, refl, Bool, true, false, ◌&&◌, Option, none, some, List, [], ◌∷◌, arith,
  if◌then◌else◌, Result, ok, value_error, index_error, raise_if, or_raise, ◌>>=◌, ◌>>◌, ◌==◌,
  is_blank, select, get_last?, map, contains, length, ◌≤◌, ◌↔◌, inl, inr, Option-cases,
}
use mathlib.Core.Option
use panopticon_next.Core.Models.{Status, Responsibility, HistoryEntry, Task, is_pending}

resolve : Responsibility → Status → Option String → Responsibility
resolve r status comment = record r { status = status; comment = comment }

-- `self.history[-1]`.
abbrev pub current_entry : Task → Option HistoryEntry
current_entry t = get_last? t.history

-- The loop over the promised list: the first promise of that key is resolved in place.
unfoldable pub resolve_in :
    String → Status → Option String → List Responsibility → Option (List Responsibility)
unfolding resolve
resolve_in key status comment [] = none
resolve_in key status comment (r ∷ rs) =
    let rest = resolve_in key status comment rs in
    if r.key == key then some (resolve r status comment ∷ rs) else Option.map (λ rs'. r ∷ rs') rest

abbrev pub set_last {ℓ} : {A : Type ℓ} → List A → A → List A
set_last [] a = []
set_last (x ∷ []) a = a ∷ []
set_last (x ∷ y ∷ xs) a = x ∷ set_last (y ∷ xs) a

abbrev pub no_comment : Option String → Bool
no_comment none = true
no_comment (some c) = is_blank c

abbrev pub is_failed_status : Status → Bool
is_failed_status Status.failed = true
is_failed_status _ = false

unfoldable pub resolve_responsibility : Task → String → Status → Option String → Result Task
unfolding resolve_in
resolve_responsibility t key status comment = do
  raise_if (is_pending status) value_error
  raise_if (is_failed_status status && no_comment comment) value_error
  entry ← or_raise (current_entry t) index_error
  promised ← or_raise (resolve_in key status comment entry.responsibilities) value_error
  ok (record t { history = set_last t.history (record entry { responsibilities = promised }) })

-- The promises of one entry that are still unresolved.
abbrev pub pending_of : HistoryEntry → List Responsibility
pending_of entry = select (λ r. is_pending r.status) entry.responsibilities

unfoldable pub outstanding_responsibilities : Task → Result (List Responsibility)
outstanding_responsibilities t = do
  entry ← or_raise (current_entry t) index_error
  ok (pending_of entry)

-- The keys of a list of promises, in order.
abbrev pub keys : List Responsibility → List String
keys rs = map (λ r. r.key) rs

module _ (key : String) (status : Status) (comment : Option String) where
  -- A promise of that key is found exactly when the list has the key.
  pub resolve_in-eq_none_iff :
      (rs : List Responsibility)
      → (resolve_in key status comment rs ≡ none) ↔ (contains (keys rs) key ≡ false)
  unfolding resolve_in
  resolve_in-eq_none_iff [] = (λ h. refl, λ h. refl)
  resolve_in-eq_none_iff (r ∷ rs) = elim (Option-cases (resolve_in key status comment rs)) [
    | inl e ↦ (
      λ h. ground (arith, resolve_in-eq_none_iff rs),
      λ h. ground (arith, resolve_in-eq_none_iff rs),
    )
    | inr (xs, e) ↦ (
      λ h. ground (arith, resolve_in-eq_none_iff rs),
      λ h. ground (arith, resolve_in-eq_none_iff rs),
    )
  ]
