-- ===== src/Core/Workflow/Phases/Walk.antt =====
-- What `Workflow.ordered_phases` (core/workflow.py) guarantees on a validated graph.
use panopticon_next.Base.{
  String, ◌≡◌, true, false, none, some, Option, List, [], ◌∷◌, ok, is_some, contains, get_elem?,
  get_last?, All, ◌⊎◌,
}
use panopticon_next.Base.Table.{Table, lookup}
use panopticon_next.Core.Workflow.{Workflow}
use panopticon_next.Core.Workflow.Phases.{next_phase}
use panopticon_next.Core.Workflow.WellFormed.{IsWellFormed}

-- A label leads to another by `advance`.
abbrev pub Advances : Workflow → String → String → Type 0
Advances wf a b = next_phase wf a ≡ ok (some b)

module _ (wf : Workflow) where
  -- Each label leads to the one after it.
  abbrev pub IsChain : List String → Type 0
  IsChain [] = Unit
  IsChain (a ∷ []) = Unit
  IsChain (a ∷ b ∷ order) = Advances wf a b × IsChain (b ∷ order)

  abbrev pub AreDifferent : List String → Type 0
  AreDifferent [] = Unit
  AreDifferent (a ∷ order) = (contains order a ≡ false) × AreDifferent order

  -- Nothing follows the last phase but a phase that is there already.
  abbrev pub IsMaximal : List String → Type 0
  IsMaximal order =
      (last : String)
      → get_last? order ≡ some last
      → (next_phase wf last ≡ ok none)
        ⊎ ((again : String) × Advances wf last again × (contains order again ≡ true))

  module _ (ok_graph : IsWellFormed wf.graph) where
    -- The phases so far: all of them states, each leading to the one after it, none twice.
    pub record IsWalk (first : String) (order : List String) : Type 0 where
      pub chain : IsChain order
      pub different : AreDifferent order
      pub states : All (λ l. is_some (lookup l wf.graph.states) ≡ true) order
      pub starts : get_elem? order 0 ≡ some first
