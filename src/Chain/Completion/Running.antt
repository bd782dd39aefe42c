-- ===== src/Chain/Completion/Running.antt =====
-- A run of chain_controller.go with a step that runs.
use roundtable.Prelude.{◌≡◌, inl, inr, true, List, [], ◌∷◌, some, Str, Option-cases, arith}
use roundtable.Api.Chain.{ChainStepStatus, running}
use roundtable.Chain.Lookup.{status_of}
use roundtable.Chain.Completion.{still_running}

pub still_running-status_of :
    (s : List ChainStepStatus) (n : Str) (ss : ChainStepStatus)
    → status_of s n ≡ some ss
    → ss.phase ≡ running
    → still_running s ≡ true
unfolding status_of still_running
still_running-status_of [] n ss has e = cc
still_running-status_of (x ∷ s) n ss has e = elim (Option-cases (status_of s n)) [
  | inl none_later ↦ ground (arith, none_later, e)
  | inr (y, later) ↦ ground (arith, later, still_running-status_of s n ss (ground (arith, later)) e)
]
