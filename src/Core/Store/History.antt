-- ===== src/Core/Store/History.antt =====
-- What the integrity rules mean: the order `Extends` of histories, which no save ever leaves.
use panopticon_next.Base.{
  ◌≡◌, refl, ◌∙◌, ◌↔◌, ◌⊎◌, inr, ◌≤◌, true, List, [], ◌∷◌, ◌++◌, arith, ok, eq_iff, eq_option_iff,
  length,
}
use panopticon_next.Core.Models.{Status, WakeStatus, Responsibility, HistoryEntry}
use panopticon_next.Core.Store.{
  same_facts, wake_allowed, eq_status, eq_responsibility, eq_responsibilities, final_promises,
  entries_append_only, validate_history_append_only,
}

-- What is fixed once an entry is recorded.
pub record SameFacts (p c : HistoryEntry) : Type 0 where
  pub at : p.at ≡ c.at
  pub from_state : p.from_state ≡ c.from_state
  pub to_state : p.to_state ≡ c.to_state
  pub trigger : p.trigger ≡ c.trigger
  pub note : p.note ≡ c.note

-- A settled wake stays, and a pending one may settle.
abbrev pub WakeSettles : WakeStatus → WakeStatus → Type 0
WakeSettles p c = (p ≡ WakeStatus.pending) ⊎ (p ≡ c)

-- The promises of an entry are final once another entry follows it.
abbrev pub FinalPromises : List HistoryEntry → HistoryEntry → HistoryEntry → Type 0
FinalPromises [] p c = Unit
FinalPromises (_ ∷ _) p c = p.responsibilities ≡ c.responsibilities

-- `incoming` only extends `stored`.
abbrev pub Extends : List HistoryEntry → List HistoryEntry → Type 0
Extends [] incoming = Unit
Extends (p ∷ ps) [] = ⊥
Extends (p ∷ ps) (c ∷ cs) =
    SameFacts p c × WakeSettles p.wake_status c.wake_status × FinalPromises ps p c × Extends ps cs

same_facts_iff : (p c : HistoryEntry) → (same_facts p c ≡ true) ↔ SameFacts p c
unfolding same_facts
same_facts_iff p c =
    (λ h. grind (arith, eq_iff, eq_option_iff), λ h. grind (arith, eq_iff, eq_option_iff))

wake_allowed_iff : (p c : WakeStatus) → (wake_allowed p c ≡ true) ↔ WakeSettles p c
unfolding wake_allowed
wake_allowed_iff p c = (λ h. ground arith, λ h. ground arith)

eq_status_iff : (s t : Status) → (eq_status s t ≡ true) ↔ (s ≡ t)
unfolding eq_status
eq_status_iff s t = (λ h. ground arith, λ h. ground arith)

eq_responsibility_iff : (r s : Responsibility) → (eq_responsibility r s ≡ true) ↔ (r ≡ s)
unfolding eq_responsibility
eq_responsibility_iff r s = (
  λ h. grind (arith, eq_iff, eq_option_iff, eq_status_iff),
  λ h. grind (arith, eq_iff, eq_option_iff, eq_status_iff),
)

eq_responsibilities_iff :
    (rs ss : List Responsibility) → (eq_responsibilities rs ss ≡ true) ↔ (rs ≡ ss)
unfolding eq_responsibilities
eq_responsibilities_iff [] [] = (λ _. refl, λ _. refl)
eq_responsibilities_iff [] (s ∷ ss) = (λ h. cc, λ h. cc)
eq_responsibilities_iff (r ∷ rs) [] = (λ h. cc, λ h. cc)
eq_responsibilities_iff (r ∷ rs) (s ∷ ss) = (
  λ h. ground (arith, eq_responsibility_iff r s, eq_responsibilities_iff rs ss),
  λ h. ground (arith, eq_responsibility_iff r s, eq_responsibilities_iff rs ss),
)

final_promises_iff :
    (ps : List HistoryEntry) (p c : HistoryEntry)
    → (final_promises ps p c ≡ true) ↔ FinalPromises ps p c
final_promises_iff [] p c = (λ h. tt, λ h. refl)
final_promises_iff (q ∷ ps) p c = eq_responsibilities_iff p.responsibilities c.responsibilities

entries_append_only_iff :
    (stored incoming : List HistoryEntry)
    → (entries_append_only stored incoming ≡ ok tt) ↔ Extends stored incoming
unfolding entries_append_only
entries_append_only_iff [] incoming = (λ h. tt, λ h. refl)
entries_append_only_iff (p ∷ ps) [] = (λ h. cc, λ h. absurd h)
entries_append_only_iff (p ∷ ps) (c ∷ cs) = (
  λ h. ground (
    arith,
    same_facts_iff p c,
    wake_allowed_iff p.wake_status c.wake_status,
    final_promises_iff ps p c,
    entries_append_only_iff ps cs,
  ),
  λ h. ground (
    arith,
    same_facts_iff p c,
    wake_allowed_iff p.wake_status c.wake_status,
    final_promises_iff ps p c,
    entries_append_only_iff ps cs,
  ),
)

length-Extends :
    (stored incoming : List HistoryEntry)
    → Extends stored incoming
    → length stored ≤ length incoming
length-Extends [] incoming h = omega arith
length-Extends (p ∷ ps) [] h = absurd h
length-Extends (p ∷ ps) (c ∷ cs) h = omega (arith, length-Extends ps cs h.3)

-- The store accepts a history over a stored one exactly when every stored entry is kept in its
-- place with the same facts, no settled wake changes, and only the last stored entry's promises
-- may differ.
pub validate_history_append_only_iff :
    (stored incoming : List HistoryEntry)
    → (validate_history_append_only stored incoming ≡ ok tt) ↔ Extends stored incoming
unfolding validate_history_append_only
validate_history_append_only_iff stored incoming = (
  λ h. ground (arith, entries_append_only_iff stored incoming),
  λ h. ground (arith, entries_append_only_iff stored incoming, length-Extends stored incoming h),
)

pub Extends-refl : (h : List HistoryEntry) → Extends h h
Extends-refl [] = tt
Extends-refl (e ∷ []) = (
  record { at = refl; from_state = refl; to_state = refl; trigger = refl; note = refl },
  inr refl,
  tt,
  tt,
)
Extends-refl (e ∷ f ∷ h) = (
  record { at = refl; from_state = refl; to_state = refl; trigger = refl; note = refl },
  inr refl,
  refl,
  Extends-refl (f ∷ h),
)

-- Appending entries is an extension.
pub Extends-append : (h more : List HistoryEntry) → Extends h (h ++ more)
Extends-append [] more = tt
Extends-append (e ∷ []) more = (
  record { at = refl; from_state = refl; to_state = refl; trigger = refl; note = refl },
  inr refl,
  tt,
  tt,
)
Extends-append (e ∷ f ∷ h) more = (
  record { at = refl; from_state = refl; to_state = refl; trigger = refl; note = refl },
  inr refl,
  refl,
  Extends-append (f ∷ h) more,
)

-- Extensions compose: what a chain of accepted saves keeps.
pub Extends-trans : (a b c : List HistoryEntry) → Extends a b → Extends b c → Extends a c
Extends-trans [] b c h k = tt
Extends-trans (p ∷ ps) [] c h k = absurd h
Extends-trans (p ∷ ps) (q ∷ qs) [] h k = absurd k
Extends-trans (p ∷ []) (q ∷ qs) (r ∷ rs) h k = (grind arith, ground arith, tt, tt)
Extends-trans (p ∷ p' ∷ ps) (q ∷ []) (r ∷ rs) h k = absurd h.3
Extends-trans (p ∷ p' ∷ ps) (q ∷ q' ∷ qs) (r ∷ rs) h k =
    (grind arith, ground arith, h.2 ∙ k.2, Extends-trans (p' ∷ ps) (q' ∷ qs) rs h.3 k.3)
