-- ===== src/Mission/Reconcile.antt =====
-- `MissionReconciler.Reconcile`.
pub mod Laws
pub mod Expired
use roundtable.Prelude.{
  ℕ, ◌+◌, ◌*◌, Bool, true, false, ◌&&◌, not, List, [], ◌∷◌, ◌++◌, map, Option, none, some, Str,
  bytes, ◌≡◌, ◌⊎◌, is_empty, length, ◌==◌, if◌then◌else◌,
}
use roundtable.Util.Strings.{contains_string, remove_string}
use roundtable.Api.Meta.{
  ApiError, not_found, Answer, found, failed as call_failed, Error, api, wrapped, condition_true,
  complete, cleanup_complete, Reason, mission_succeeded, mission_failed, mission_expired,
  plain_message, StatusConditions, ConditionType,
}
use roundtable.Api.Chain.{WebhookSink}
use roundtable.Api.Phase.{
  MissionPhase, unset, pending, provisioning, planning, assembling, briefing, active, succeeded,
  failed, expired, cleaning_up, is_failed_mission, is_assembling, is_briefing, mission_phase_text,
}
use roundtable.Api.Mission.{MissionKnight, MissionKnightStatus, Mission}
use roundtable.Notify.{schema_v1, Payload, truncate}
use roundtable.Chain.World.{second}
use roundtable.Chain.Run.{Outcome, returned, ReconcileResult, requeue_fast, requeue_default}
use roundtable.Chain.Notification.{
  webhook_of, notification_pending, notify_completed_at, Attempt, deliver_notification,
}
use roundtable.Mission.World.{
  MissionEffect, shared, updated_mission, updated_mission_status, mission_event, phase_transition,
  mission_exceeded_ttl, assembled_knights, MissionWorld, Money,
}
use roundtable.Mission.Run.{
  MissionRun, requeue_in, finished, fails_with, outcome_of, retried_outcome, mission_ends,
  mission_after, set_phase, set_complete, set_condition, observe, save,
}
use roundtable.Mission.Outcome.{is_true, terminal_outcome}
use roundtable.Mission.Pending.{reconcile_pending}
use roundtable.Mission.Provisioning.{reconcile_provisioning}
use roundtable.Mission.Assembler.Assembling.{assemble}
use roundtable.Mission.Briefing.{reconcile_briefing}
use roundtable.Mission.Active.{reconcile_active}
use roundtable.Mission.Results.{results_bucket}
use roundtable.Mission.Cleanup.{has_expired, reconcile_cleaning_up}
use roundtable.Mission.Notify.{notify_mission}

abbrev pub mission_finalizer : Str
mission_finalizer = bytes "ai.roundtable.io/mission-finalizer"

-- `initKnightStatuses`
unfoldable pub init_knight_status : MissionKnight → MissionKnightStatus
init_knight_status mk = record {
  name = mk.name;
  ready = false;
  tasks_completed = 0;
  ephemeral = mk.ephemeral;
}

abbrev pub is_cleaning : MissionPhase → Bool
is_cleaning cleaning_up = true
is_cleaning expired = true
is_cleaning _ = false

abbrev pub is_unset_mission : MissionPhase → Bool
is_unset_mission unset = true
is_unset_mission _ = false

abbrev pub with_mission_finalizers : {C : Type 0} → List Str → Mission C → Mission C
with_mission_finalizers finalizers mission = record mission { finalizers = finalizers }

module _ {C : Type 0} (w : MissionWorld C) where
  unfoldable pub finalize_mission : Mission C → MissionRun C
  finalize_mission mission =
      let released =
        with_mission_finalizers (remove_string mission.finalizers mission_finalizer) mission in
      if contains_string mission.finalizers mission_finalizer
      then mission_after (updated_mission released ∷ [])
          (mission_ends (outcome_of 0 (w.update_mission released)) released)
      else mission_ends finished mission

  unfoldable pub init_mission : Mission C → MissionRun C
  unfolding init_knight_status
  init_mission mission =
      let now = w.base.now in
      let started : Mission C = record mission {
        status = record (mission.status) {
          started_at = some now;
          expires_at = some (now + mission.spec.ttl * second);
          knight_statuses = map init_knight_status mission.spec.knights;
        };
      } in
      save w (set_phase pending started) (retried_outcome 0)
        (mission_event (phase_transition pending) ∷ [])

  -- The phase Expired itself.
  unfoldable pub leave_expired : Mission C → MissionRun C
  leave_expired mission =
      let cleaning : Mission C = record mission {
        status = record (mission.status) { phase = cleaning_up };
      } in
      save w cleaning (retried_outcome requeue_default) []

  -- The events of `reconcileAssembling`; the phase was Assembling before.
  unfoldable pub assembly_events : Mission C → List (MissionEffect C)
  assembly_events mission =
      let count = assembled_knights (length mission.status.knight_statuses) in
      (if is_assembling mission.status.phase
        then []
        else mission_event (phase_transition mission.status.phase) ∷ [])
      ++ (if is_briefing mission.status.phase then mission_event count ∷ [] else [])

-- The planner (internal/mission/planner.go), in one pass: what its `ReconcilePlanning` does to a
-- mission in the phase Planning. Nothing is supposed of it.
pub record Planner (m : StatusConditions) : Type 0 where
  pub plan : Mission m.Conditions → MissionRun m.Conditions

module _ (m : StatusConditions) (w : MissionWorld m.Conditions) where
  -- `reconcileTTLExpiry`, once the TTL is over.
  unfoldable pub expire : Mission m.Conditions → MissionRun m.Conditions
  expire mission =
      save w
        (set_condition m w.base.now complete mission_expired
          (plain_message (bytes "Mission TTL expired")) condition_true
          (set_complete w.base.now (bytes "Mission expired (TTL exceeded)") cleaning_up mission))
        (retried_outcome requeue_default)
        (mission_event mission_exceeded_ttl ∷ mission_event (phase_transition cleaning_up) ∷ [])

  -- The status write after the assembly, by its answer.
  unfoldable pub save_assembly : Option ApiError → MissionRun m.Conditions → MissionRun m.Conditions
  unfolding assembly_events
  save_assembly (some e) run = record run {
    outcome = fails_with (wrapped (bytes "failed to update mission status") (api e));
    effects = run.effects ++ updated_mission_status run.mission ∷ [];
  }
  save_assembly none run = record run {
    effects = run.effects ++ updated_mission_status run.mission ∷ assembly_events w run.mission;
  }

  -- An error of the assembler ends the pass.
  unfoldable pub assembled_run : Outcome → MissionRun m.Conditions → MissionRun m.Conditions
  unfolding save_assembly
  assembled_run (returned result none) run = save_assembly (w.update_mission_status run.mission) run
  assembled_run outcome run = run

  unfoldable pub reconcile_assembling : Mission m.Conditions → MissionRun m.Conditions
  unfolding assemble assembled_run
  reconcile_assembling mission = let run = assemble m w mission in assembled_run run.outcome run

  -- The outcome is recorded in the condition Complete, unless it was.
  unfoldable pub record_outcome : Mission m.Conditions → Mission m.Conditions
  unfolding mission_phase_text
  record_outcome mission =
      let st = mission.status in
      let reason : Reason =
        if is_failed_mission st.phase then mission_failed else mission_succeeded in
      let message =
        if is_empty st.result then bytes "Mission " ++ mission_phase_text st.phase else st.result in
      if is_true m st.conditions complete
      then mission
      else set_condition m w.base.now complete reason (plain_message message) condition_true mission

  -- The phases Succeeded and Failed.
  unfoldable pub reconcile_ended : Mission m.Conditions → MissionRun m.Conditions
  unfolding record_outcome
  reconcile_ended mission =
      if is_true m mission.status.conditions cleanup_complete
      then mission_ends finished mission
      else save w (set_phase cleaning_up (record_outcome mission)) (retried_outcome requeue_default)
          []

module _ (m : StatusConditions) (money : Money) (w : MissionWorld m.Conditions)
    (p : Planner m) where
  -- The phase machine.
  unfoldable pub run_phase : MissionPhase → Mission m.Conditions → MissionRun m.Conditions
  unfolding reconcile_ended reconcile_assembling leave_expired
  run_phase unset mission = mission_ends finished mission
  run_phase pending mission = reconcile_pending w mission
  run_phase provisioning mission = reconcile_provisioning w mission
  run_phase planning mission = p.plan mission
  run_phase assembling mission = reconcile_assembling m w mission
  run_phase briefing mission = reconcile_briefing m w mission
  run_phase active mission = reconcile_active m money w mission
  run_phase succeeded mission = reconcile_ended m w mission
  run_phase failed mission = reconcile_ended m w mission
  run_phase cleaning_up mission = reconcile_cleaning_up m w mission
  run_phase expired mission = leave_expired w mission

  -- The mission has its finalizer and a phase.
  unfoldable pub proceed : Mission m.Conditions → MissionRun m.Conditions
  unfolding expire run_phase
  proceed mission =
      let st = mission.status in
      let notified = notify_mission m w mission in
      let run = run_phase st.phase mission in
      if has_expired w.base.now st.expires_at && not (is_cleaning st.phase)
      then expire m w mission
      else elim notified [ some done ↦ done | none ↦ run ]

  unfoldable pub begin : Mission m.Conditions → MissionRun m.Conditions
  unfolding init_mission proceed
  begin mission =
      let first = init_mission w mission in
      let next = proceed mission in if is_unset_mission mission.status.phase then first else next

  -- The write that adds the finalizer, by its answer.
  unfoldable pub adopt : Option ApiError → Mission m.Conditions → MissionRun m.Conditions
  unfolding begin
  adopt (some e) adopted =
      mission_after (updated_mission adopted ∷ []) (mission_ends (outcome_of 0 (some e)) adopted)
  adopt none adopted = mission_after (updated_mission adopted ∷ []) (begin adopted)

  -- The mission was found.
  unfoldable pub reconcile_mission : Mission m.Conditions → MissionRun m.Conditions
  unfolding finalize_mission adopt begin
  reconcile_mission mission =
      let adopted =
        with_mission_finalizers (mission.finalizers ++ mission_finalizer ∷ []) mission in
      let final = finalize_mission w mission in
      let claimed = adopt (w.update_mission adopted) adopted in
      let run = begin mission in
      if mission.deleting
      then final
      else if contains_string mission.finalizers mission_finalizer
      then run
      else claimed

  -- The pass, by what the read of the mission answered.
  unfoldable pub reconcile :
      Answer (Mission m.Conditions) → Outcome × Option (MissionRun m.Conditions)
  unfolding reconcile_mission
  reconcile (call_failed not_found) = (finished, none)
  reconcile (call_failed e) = (fails_with (api e), none)
  reconcile (found mission) = let run = reconcile_mission mission in (run.outcome, some run)
