-- ===== src/Core/Models/Promises/Resolved.antt =====
-- What `Task.resolve_responsibility` of core/models.py does to a task.
use panopticon_next.Base.{
  String, ◌≡◌, ◌≢◌, ◌⊎◌, inl, inr, refl, ap, sym, ◌∙◌, arith, eq_iff, false, ◌&&◌, ◌==◌, Option,
  none, some, List, [], ◌∷◌, ◌++◌, ok, value_error, index_error, or_raise, >>=-eq-ok,
  raise_if->>-eq-ok, or_raise-eq-ok, ok-injective, if◌then◌else◌, is_blank, get_last?, contains,
  Option-cases, Bool-cases,
}
use mathlib.Core.Option.{some-injective}
use panopticon_next.Core.Models.{Status, Responsibility, HistoryEntry, Task, is_pending}
use panopticon_next.Core.Models.Promises.{
  resolve_in, resolve_responsibility, current_entry, set_last, keys, is_failed_status, no_comment,
}

-- Of the promises `rs`, the first one of that key got the status and the comment.
pub record IsResolution (key : String) (status : Status) (comment : Option String)
    (rs rs' : List Responsibility) : Type 0 where
  pub before : List Responsibility
  pub promise : Responsibility
  pub after : List Responsibility
  pub split : rs ≡ before ++ promise ∷ after
  pub named : promise.key ≡ key
  pub first : contains (keys before) key ≡ false
  pub becomes : rs' ≡ before ++ record promise { status = status; comment = comment } ∷ after

-- The current entry of `t` had a promise resolved, and `t'` differs from it in that only.
pub record IsResolved (t : Task) (key : String) (status : Status) (comment : Option String)
    (t' : Task) : Type 0 where
  pub decided : is_pending status ≡ false
  pub explained :
      (status ≢ Status.failed) ⊎ ((c : String) × (comment ≡ some c) × (is_blank c ≡ false))
  pub earlier : List HistoryEntry
  pub entry : HistoryEntry
  pub promises : List Responsibility
  pub current : t.history ≡ earlier ++ entry ∷ []
  pub resolution : IsResolution key status comment entry.responsibilities promises
  pub becomes :
      t' ≡ record t { history = earlier ++ record entry { responsibilities = promises } ∷ [] }

module _ (key : String) (status : Status) (comment : Option String) where
  resolve_in-IsResolution :
      (rs rs' : List Responsibility)
      → resolve_in key status comment rs ≡ some rs'
      → IsResolution key status comment rs rs'
  unfolding resolve_in
  resolve_in-IsResolution [] rs' h = absurd cc
  resolve_in-IsResolution (r ∷ rs) rs' h = elim (Bool-cases (r.key == key)) [
    | inl here ↦ record {
      before = [];
      promise = r;
      after = rs;
      split = refl;
      named = (eq_iff r.key key).0 here;
      first = refl;
      becomes = sym (some-injective _ rs' (rw (here, if◌then◌else◌) at h));
    }
    | inr there ↦ elim (Option-cases (resolve_in key status comment rs)) [
      | inl missing ↦ absurd (ground arith)
      | inr (xs, found) ↦
          let rest = resolve_in-IsResolution rs xs found in
          record {
            before = r ∷ rest.before;
            promise = rest.promise;
            after = rest.after;
            split = ap (λ l. r ∷ l) rest.split;
            named = rest.named;
            first = ground (arith, rest.first);
            becomes =
                sym (some-injective (r ∷ xs) rs' (rw (there, if◌then◌else◌, found) at h))
                ∙ ap (λ l. r ∷ l) rest.becomes;
          }
    ]
  ]

-- A list with a last element ends with it.
last-split :
    (xs : List HistoryEntry) (x y : HistoryEntry)
    → get_last? xs ≡ some x
    → (init : List HistoryEntry) × (xs ≡ init ++ x ∷ []) × (set_last xs y ≡ init ++ y ∷ [])
last-split [] x y h = absurd cc
last-split (a ∷ []) x y h = ([], ap (λ b. b ∷ []) (some-injective a x h), refl)
last-split (a ∷ b ∷ xs) x y h =
    let (init, same, set) = last-split (b ∷ xs) x y h in
    (a ∷ init, ap (λ l. a ∷ l) same, ap (λ l. a ∷ l) set)

is_explained :
    (status : Status) (comment : Option String)
    → (is_failed_status status && no_comment comment) ≡ false
    → (status ≢ Status.failed) ⊎ ((c : String) × (comment ≡ some c) × (is_blank c ≡ false))
is_explained status comment h = elim (Bool-cases (is_failed_status status)) [
  | inr other ↦ inl (λ failed. ground arith)
  | inl failed ↦ inr (at_comment comment (ground arith))
]
  where
    at_comment :
        (o : Option String)
        → no_comment o ≡ false
        → (c : String) × (o ≡ some c) × (is_blank c ≡ false)
    at_comment none e = absurd cc
    at_comment (some c) e = (c, refl, e)

-- A promise that is resolved gets a status other than pending, with a comment that is not blank if it
-- failed. In the current entry the first promise of that key is changed, in its status and comment
-- only, and nothing else of the task is.
pub resolve_responsibility_sound :
    (t t' : Task) (key : String) (status : Status) (comment : Option String)
    → resolve_responsibility t key status comment ≡ ok t'
    → IsResolved t key status comment t'
unfolding resolve_responsibility
resolve_responsibility_sound t t' key status comment h =
    let (decided, h1) = raise_if->>-eq-ok (is_pending status) value_error _ h in
    let (explained, h2) =
      raise_if->>-eq-ok (is_failed_status status && no_comment comment) value_error _ h1 in
    let (entry, current, h3) = >>=-eq-ok (or_raise (current_entry t) index_error) _ h2 in
    let (promises, found, h4) =
      >>=-eq-ok (or_raise (resolve_in key status comment entry.responsibilities) value_error) _
        h3 in
    let (earlier, same, set) =
      last-split t.history entry (record entry { responsibilities = promises })
        (or_raise-eq-ok (current_entry t) index_error current) in
    record {
      decided = decided;
      explained = is_explained status comment explained;
      earlier = earlier;
      entry = entry;
      promises = promises;
      current = same;
      resolution =
          resolve_in-IsResolution key status comment entry.responsibilities promises (
            or_raise-eq-ok (resolve_in key status comment entry.responsibilities) value_error
              found);
      becomes = sym (ok-injective _ t' h4) ∙ ap (λ hs. record t { history = hs }) set;
    }
