-- ===== src/Chain/Lookup.antt =====
-- The maps `statusMap` and `specMap`: pointers by name, where a later entry of a name replaces an
-- earlier one.
use roundtable.Prelude.{
  ℕ, ◌≡◌, Bool, true, false, List, [], ◌∷◌, Option, none, some, Str, str_eq, if◌then◌else◌,
}
use roundtable.Api.Chain.{ChainStep, ChainStepStatus}
pub mod Laws

unfoldable pub status_of : List ChainStepStatus → Str → Option ChainStepStatus
status_of [] name = none
status_of (ss ∷ statuses) name =
    let later = status_of statuses name in
    elim later [ some found ↦ some found | none ↦ if str_eq ss.name name then some ss else none ]

unfoldable pub spec_of : List ChainStep → Str → Option ChainStep
spec_of [] name = none
spec_of (step ∷ steps) name =
    let later = spec_of steps name in
    elim later [
      | some found ↦ some found
      | none ↦ if str_eq step.name name then some step else none
    ]

-- A write through the pointer that `statusMap` holds for a name.
unfoldable pub write_status :
    Str → (ChainStepStatus → ChainStepStatus) → List ChainStepStatus → List ChainStepStatus
unfolding status_of
write_status name f [] = []
write_status name f (ss ∷ statuses) =
    let rest = write_status name f statuses in
    let own = if str_eq ss.name name then f ss else ss in
    elim (status_of statuses name) [ some found ↦ ss ∷ rest | none ↦ own ∷ statuses ]

-- A map's value by its key, or the empty string.
unfoldable pub label : List (Str × Str) → Str → Str
label [] key = []
label ((k, v) ∷ labels) key = let rest = label labels key in if str_eq k key then v else rest
