-- ===== src/Api/Phase.antt =====
-- `MissionPhase` of api/v1alpha1/mission_types.go. `unset` is the empty string.
use roundtable.Prelude.{Bool, true, false, [], Str, bytes}

pub data MissionPhase : Type 0 where
  unset pending provisioning planning assembling briefing active : MissionPhase
  succeeded failed expired cleaning_up : MissionPhase

-- The `string` conversion.
unfoldable pub mission_phase_text : MissionPhase → Str
mission_phase_text unset = []
mission_phase_text pending = bytes "Pending"
mission_phase_text provisioning = bytes "Provisioning"
mission_phase_text planning = bytes "Planning"
mission_phase_text assembling = bytes "Assembling"
mission_phase_text briefing = bytes "Briefing"
mission_phase_text active = bytes "Active"
mission_phase_text succeeded = bytes "Succeeded"
mission_phase_text failed = bytes "Failed"
mission_phase_text expired = bytes "Expired"
mission_phase_text cleaning_up = bytes "CleaningUp"

abbrev pub is_assembling : MissionPhase → Bool
is_assembling assembling = true
is_assembling _ = false

abbrev pub is_briefing : MissionPhase → Bool
is_briefing briefing = true
is_briefing _ = false

abbrev pub is_failed_mission : MissionPhase → Bool
is_failed_mission failed = true
is_failed_mission _ = false

abbrev pub is_succeeded_mission : MissionPhase → Bool
is_succeeded_mission succeeded = true
is_succeeded_mission _ = false
