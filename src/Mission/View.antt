-- ===== src/Mission/View.antt =====
-- The life of a mission in the abstract: its phase, the outcome that its condition Complete records,
-- and whether its cleanup is done, with the moves between them.
pub mod Refine
pub mod Laws
pub mod History
use roundtable.Prelude.{ℕ, ◌≡◌, ◌⊎◌, Bool, true, false, Option, none, some, if◌then◌else◌}
use roundtable.Api.Meta.{complete, cleanup_complete, Condition, StatusConditions}
use roundtable.Api.Phase.{
  MissionPhase, unset, pending, provisioning, planning, assembling, briefing, active, succeeded,
  failed, expired, cleaning_up,
}
use roundtable.Api.Mission.{Mission}
use roundtable.Mission.Outcome.{is_condition_true, phase_of_reason, is_true}
use roundtable.Mission.Reconcile.{is_cleaning}

pub record View : Type 0 where
  pub phase : MissionPhase
  -- `none`: the condition Complete is not True
  pub verdict : Option MissionPhase
  pub cleaned : Bool

unfoldable pub verdict_of : Option (Condition × ℕ) → Option MissionPhase
verdict_of none = none
verdict_of (some (c, at)) =
    if is_condition_true c.status then some (phase_of_reason c.reason) else none

unfoldable pub view : (m : StatusConditions) → Mission m.Conditions → View
unfolding verdict_of
view m mission = record {
  phase = mission.status.phase;
  verdict = verdict_of (m.find mission.status.conditions complete);
  cleaned = is_true m mission.status.conditions cleanup_complete;
}

-- The outcome that a mission is cleaned up with, where it ended in this phase.
abbrev pub or_verdict : Option MissionPhase → MissionPhase → Option MissionPhase
or_verdict none p = some p
or_verdict (some q) p = some q

-- The phases that a mission ends in.
abbrev pub IsEnd : MissionPhase → Type 0
IsEnd p = (p ≡ succeeded) ⊎ (p ≡ failed)

-- What one pass may do.
pub data Moves (v u : View) : Type 0 where
  stay : u ≡ v → Moves v u
  begin : v.phase ≡ unset → u ≡ record v { phase = pending } → Moves v u
  accept : v.phase ≡ pending → u ≡ record v { phase = provisioning } → Moves v u
  reject : v.phase ≡ pending → u ≡ record v { phase = failed } → Moves v u
  provide :
      v.phase ≡ provisioning
      → (p : MissionPhase) → (p ≡ planning) ⊎ (p ≡ assembling)
      → u ≡ record v { phase = p }
      → Moves v u
  -- In Planning the planner takes over, of which nothing is supposed.
  plan : v.phase ≡ planning → Moves v u
  assemble : v.phase ≡ assembling → u ≡ record v { phase = briefing } → Moves v u
  give_up : v.phase ≡ assembling → u ≡ record v { phase = failed } → Moves v u
  activate : v.phase ≡ briefing → u ≡ record v { phase = active } → Moves v u
  end :
      v.phase ≡ active
      → (p : MissionPhase) → IsEnd p
      → u ≡ record v { phase = p; verdict = some p }
      → Moves v u
  clean_end :
      (p : MissionPhase)
      → IsEnd p
      → v.phase ≡ p
      → v.cleaned ≡ false
      → u ≡ record v { phase = cleaning_up; verdict = or_verdict v.verdict p }
      → Moves v u
  expire :
      is_cleaning v.phase ≡ false
      → u ≡ record v { phase = cleaning_up; verdict = some expired }
      → Moves v u
  -- The outcome was recorded, and is the phase again.
  restore :
      v.phase ≡ cleaning_up
      → (p : MissionPhase) → v.verdict ≡ some p
      → u ≡ record v { phase = p; cleaned = true }
      → Moves v u
  -- It was not, and is inferred.
  infer :
      v.phase ≡ cleaning_up
      → (p : MissionPhase) → IsEnd p
      → v.verdict ≡ none
      → u ≡ record v { phase = p; cleaned = true }
      → Moves v u
  -- Expired is left for another cleanup.
  revisit : v.phase ≡ expired → u ≡ record v { phase = cleaning_up } → Moves v u

-- The phase and the recorded outcome agree.
unfoldable pub agrees : MissionPhase → Option MissionPhase → Bool
agrees succeeded none = true
agrees succeeded (some succeeded) = true
agrees failed none = true
agrees failed (some failed) = true
agrees expired (some expired) = true
agrees cleaning_up (some succeeded) = true
agrees cleaning_up (some failed) = true
agrees cleaning_up (some expired) = true
agrees unset none = true
agrees pending none = true
agrees provisioning none = true
agrees planning none = true
agrees assembling none = true
agrees briefing none = true
agrees active none = true
agrees _ _ = false

pub record IsConsistent (v : View) : Type 0 where
  pub agreeing : agrees v.phase v.verdict ≡ true
  -- Nothing is cleaned up before the mission is over.
  pub uncleaned : v.verdict ≡ none → v.cleaned ≡ false

-- How far a mission has come.
unfoldable pub rank : View → ℕ
rank v = elim v.phase [
  | unset ↦ 0
  | pending ↦ 1
  | provisioning ↦ 2
  | planning ↦ 3
  | assembling ↦ 4
  | briefing ↦ 5
  | active ↦ 6
  | succeeded ↦ if v.cleaned then 9 else 7
  | failed ↦ if v.cleaned then 9 else 7
  | cleaning_up ↦ cleaning_rank v.verdict
  | expired ↦ 11
]
  where
    cleaning_rank : Option MissionPhase → ℕ
    cleaning_rank (some expired) = 10
    cleaning_rank _ = 8
