-- ===== src/Chain/Schedule/Triggers.antt =====
-- What an attempt to trigger a run writes.
use roundtable.Prelude.{
  ◌≡◌, ◌≢◌, false, List, [], ◌∷◌, none, some, Str, is_some, if◌then◌else◌, All,
}
use roundtable.Api.Meta.{Answer, found, failed as call_failed, notification_sent, StatusConditions}
use roundtable.Api.Chain.{running, ChainStepStatus, pending, Chain}
use roundtable.Chain.World.{
  World, Effect, updated_status, event, cron_trigger_skipped, cron_triggered,
}
use roundtable.Chain.Lookup.Laws.{status_names, step_names}
use roundtable.Chain.Schedule.{trigger, is_running_phase}

module _ (m : StatusConditions) (w : World m.Conditions) where
  -- A step that was neither started nor tried.
  pub record IsFresh (ss : ChainStepStatus) : Type 0 where
    pub waits : ss.phase ≡ pending
    pub no_task : ss.task_id ≡ []
    pub not_started : ss.started_at ≡ none
    pub not_completed : ss.completed_at ≡ none
    pub no_output : ss.output ≡ []
    pub no_error : ss.error ≡ []
    pub untried : ss.retries ≡ 0

  -- What a trigger writes: the chain that the API server has, in the phase Running and neither
  -- suspended nor running before, with a new run ID, the start at this moment and no completion time,
  -- and with a status for every step, Pending and with nothing left of an earlier run.
  pub record IsTriggered (namespace name : Str) (t : Chain m.Conditions) : Type 0 where
    pub before : Chain m.Conditions
    pub read : w.get_chain namespace name ≡ found before
    pub not_suspended : before.spec.suspended ≡ false
    pub idle : before.status.phase ≢ running
    pub same_spec : t.spec ≡ before.spec
    pub running_now : t.status.phase ≡ running
    pub own_run : t.status.run_id ≡ w.new_uuid
    pub started_now : t.status.started_at ≡ some w.now
    pub unfinished : t.status.completed_at ≡ none
    pub covered : status_names t.status.step_statuses ≡ step_names t.spec.steps
    pub fresh : All IsFresh t.status.step_statuses
    -- The completion of the new run is still to be notified.
    pub unnotified : m.find t.status.conditions notification_sent ≡ none

  -- Whatever chain the effect writes is triggered.
  abbrev pub WritesTriggered : (namespace name : Str) → Effect m.Conditions → Type 0
  WritesTriggered namespace name e =
      (t : Chain m.Conditions) → e ≡ updated_status t → IsTriggered namespace name t

  -- The effects of an attempt, by the chain that it reads.
  attempt_effects : Answer (Chain m.Conditions) → List (Effect m.Conditions)
  attempt_effects (call_failed e) = []
  attempt_effects (found chain) =
      if chain.spec.suspended
      then []
      else if is_running_phase chain.status.phase
      then event cron_trigger_skipped ∷ []
      else if is_some (w.update_status (trigger m w chain))
      then updated_status (trigger m w chain) ∷ []
      else updated_status (trigger m w chain) ∷ event cron_triggered ∷ []
