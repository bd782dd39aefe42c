-- ===== src/Mission/View/Refine.antt =====
-- Every pass is a move.
pub mod Phases
pub mod Ends
pub mod Cleanup
pub mod Passes
use roundtable.Prelude.{
  ℕ, ◌≡◌, ◌≢◌, refl, ap, ◌⊎◌, inl, inr, Bool, true, false, List, Option, none, some, Str,
  if◌then◌else◌, Bool-cases, Option-cases, arith,
}
use roundtable.Api.Meta.{
  ApiError, conflict, Reason, Message, ConditionStatus, condition_true, ConditionType, complete,
  cleanup_complete, knights_ready, briefing_published, Condition, StatusConditions,
}
use roundtable.Api.Phase.{MissionPhase, failed}
use roundtable.Api.Mission.{Mission}
use roundtable.Mission.Outcome.{is_condition_true, phase_of_reason, found_true, is_true}
use roundtable.Mission.Run.{set_phase, set_complete, set_failed, set_condition, observe}
use roundtable.Mission.View.{View, verdict_of, view}

module _ (m : StatusConditions) where
  -- A condition that the view does not show.
  pub view-set_condition :
      (now : ℕ) (t : ConditionType) (r : Reason) (msg : Message) (s : ConditionStatus)
      (mission : Mission m.Conditions)
      → t ≢ complete
      → t ≢ cleanup_complete
      → view m (set_condition m now t r msg s mission) ≡ view m mission
  unfolding view set_condition is_true found_true verdict_of
  view-set_condition now t r msg s mission nc nd =
      let c : Condition = record {
        type = t;
        status = s;
        reason = r;
        message = msg;
        observed_generation = mission.generation;
      } in
      let e = m.find-set_ne now (mission.status.conditions) c complete nc in
      let e' = m.find-set_ne now (mission.status.conditions) c cleanup_complete nd in
      rw (e, e', is_true) refl

  pub view-knights_ready :
      (now : ℕ) (r : Reason) (msg : Message) (s : ConditionStatus) (mission : Mission m.Conditions)
      → view m (set_condition m now knights_ready r msg s mission) ≡ view m mission
  view-knights_ready now r msg s mission =
      view-set_condition now knights_ready r msg s mission (λ q. cc) (λ q. cc)

  pub view-briefing_published :
      (now : ℕ) (r : Reason) (msg : Message) (s : ConditionStatus) (mission : Mission m.Conditions)
      → view m (set_condition m now briefing_published r msg s mission) ≡ view m mission
  view-briefing_published now r msg s mission =
      view-set_condition now briefing_published r msg s mission (λ q. cc) (λ q. cc)

  pub view-set_complete_condition :
      (now : ℕ) (r : Reason) (msg : Message) (mission : Mission m.Conditions)
      → view m (set_condition m now complete r msg condition_true mission)
        ≡ record (view m mission) { verdict = some (phase_of_reason r) }
  unfolding view set_condition is_true found_true verdict_of
  view-set_complete_condition now r msg mission =
      let c : Condition = record {
        type = complete;
        status = condition_true;
        reason = r;
        message = msg;
        observed_generation = mission.generation;
      } in
      let (at, e) = m.find-set now (mission.status.conditions) c in
      let e' = m.find-set_ne now (mission.status.conditions) c cleanup_complete (λ q. cc) in
      rw (e, e', is_true) refl

  pub view-set_cleanup_condition :
      (now : ℕ) (r : Reason) (msg : Message) (mission : Mission m.Conditions)
      → view m (set_condition m now cleanup_complete r msg condition_true mission)
        ≡ record (view m mission) { cleaned = true }
  unfolding view set_condition is_true found_true verdict_of
  view-set_cleanup_condition now r msg mission =
      let c : Condition = record {
        type = cleanup_complete;
        status = condition_true;
        reason = r;
        message = msg;
        observed_generation = mission.generation;
      } in
      let (at, e) = m.find-set now (mission.status.conditions) c in
      let e' = m.find-set_ne now (mission.status.conditions) c complete (λ q. cc) in
      rw (e, e', is_true) refl

  -- The view sees the status's phase and conditions only.
  pub view-set_phase :
      (p : MissionPhase) (mission : Mission m.Conditions)
      → view m (set_phase p mission) ≡ record (view m mission) { phase = p }
  unfolding view set_phase
  view-set_phase p mission = refl

  pub view-set_failed :
      (now : ℕ) (result : Str) (mission : Mission m.Conditions)
      → view m (set_failed now result mission) ≡ record (view m mission) { phase = failed }
  unfolding view set_phase set_complete set_failed
  view-set_failed now result mission = refl

  pub view-observe : (mission : Mission m.Conditions) → view m (observe mission) ≡ view m mission
  unfolding view
  view-observe mission = refl

  pub view-set_complete :
      (now : ℕ) (result : Str) (p : MissionPhase) (mission : Mission m.Conditions)
      → view m (set_complete now result p mission) ≡ record (view m mission) { phase = p }
  unfolding view set_phase set_complete
  view-set_complete now result p mission = refl
