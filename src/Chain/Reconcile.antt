-- ===== src/Chain/Reconcile.antt =====
-- `ChainReconciler.Reconcile`.
pub mod Laws
pub mod Deletion
pub mod Quiet
use roundtable.Prelude.{
  ℕ, Bool, true, false, ◌&&◌, ◌||◌, not, List, [], ◌∷◌, ◌++◌, Option, none, some, Str, bytes,
  is_empty, ◌==◌, if◌then◌else◌,
}
use roundtable.Util.Strings.{contains_string, remove_string}
use roundtable.Api.Meta.{
  ApiError, not_found, Answer, found, failed as call_failed, Error, api, missing_round_table_ref,
  ConditionStatus, condition_true, condition_false, ConditionType, chain_valid, complete,
  notification_sent, Reason, valid, invalid_knight_ref, Message, must_have_ref, spec_is_valid,
  of_error, Condition, StatusConditions,
}
use roundtable.Api.Chain.{ChainPhase, WebhookSink, Chain}
use roundtable.Chain.World.{World, Effect, updated, updated_status}
use roundtable.Chain.Kv.{restore_step_outputs}
use roundtable.Chain.Run.{
  Outcome, returned, Run, no_requeue, requeue_now, plain_outcome, ends, after, update_status,
}
use roundtable.Chain.Running.{init_step_statuses, reconcile_running}
use roundtable.Chain.Schedule.{
  Registry, remove_entry, registry_key, is_running_phase, reconcile_schedule, trigger_chain,
}
use roundtable.Chain.Validate.{validate_steps, is_not_found, owning_mission_inactive}
use roundtable.Chain.Notification.{
  webhook_of, notification_pending, notify_completed_at, chain_notify_payload, deliver_notification,
}

abbrev pub chain_finalizer : Str
chain_finalizer = bytes "ai.roundtable.io/chain-finalizer"

-- A pass with the cron registry that it leaves.
pub record Pass (C : Type 0) : Type 0 where
  pub registry : Registry
  -- `none`: there was no chain to work on
  pub run : Option (Run C)
  pub outcome : Outcome
  pub effects : List (Effect C)

module _ {C : Type 0} where
  abbrev pub pass_of : Registry → Run C → Pass C
  pass_of registry run = record {
    registry = registry;
    run = some run;
    outcome = run.outcome;
    effects = run.effects;
  }

  abbrev pub pass_without : Registry → Outcome → Pass C
  pass_without registry outcome = record {
    registry = registry;
    run = none;
    outcome = outcome;
    effects = [];
  }

  abbrev pub pass_after : List (Effect C) → Pass C → Pass C
  pass_after effects pass = record pass { effects = effects ++ pass.effects }

  abbrev pub with_finalizers : List Str → Chain C → Chain C
  with_finalizers finalizers chain = record chain { finalizers = finalizers }

  -- `chain.Status.Phase = p` with the observed generation.
  abbrev pub with_phase : ChainPhase → Chain C → Chain C
  with_phase p chain =
      let st = chain.status in
      record chain { status = record st { phase = p; observed_generation = chain.generation } }

abbrev pub is_unset : ChainPhase → Bool
is_unset ChainPhase.unset = true
is_unset _ = false

module _ (m : StatusConditions) (w : World m.Conditions) where
  -- The condition Valid, and the generation that it was observed at.
  abbrev pub note_validity :
      ConditionStatus → Reason → Message → Chain m.Conditions → Chain m.Conditions
  note_validity status reason message chain =
      let st = chain.status in
      record chain {
        status = record st {
          conditions = m.set w.now st.conditions (record {
            type = chain_valid;
            status = status;
            reason = reason;
            message = message;
            observed_generation = chain.generation;
          });
        };
      }

  abbrev pub observe : Chain m.Conditions → Chain m.Conditions
  observe chain =
      let st = chain.status in
      record chain { status = record st { observed_generation = chain.generation } }

  -- A refused spec: the status is written, whatever the answer, and the pass ends in the error.
  unfoldable pub refuse : Chain m.Conditions → Error → Run m.Conditions
  refuse chain e = record {
    outcome = returned no_requeue (some e);
    chain = chain;
    effects = updated_status chain ∷ [];
  }

  -- The spec has changed and no run is going on: back to Idle, keeping this run's stored outputs.
  unfoldable pub reset_to_idle : Chain m.Conditions → Run m.Conditions
  reset_to_idle chain =
      let fresh = init_step_statuses (with_phase ChainPhase.idle chain) in
      let st = fresh.status in
      let silent = record fresh {
        status = record st { conditions = m.remove st.conditions notification_sent };
      } in
      let (restored, effects) = restore_step_outputs w silent in
      after effects (update_status w restored 0)

  unfoldable pub notify_completion : Chain m.Conditions → WebhookSink → Run m.Conditions
  notify_completion chain webhook =
      let st = chain.status in
      let attempt =
        deliver_notification m w chain.namespace webhook chain.generation
          (notify_completed_at m w st.completed_at st.conditions complete) st.conditions
          (chain_notify_payload chain webhook) in
      let noted = record chain { status = record st { conditions = attempt.conditions } } in
      after attempt.effects (update_status w noted attempt.delay)

  -- A terminal phase: only a pending notification is left to do.
  unfoldable pub reconcile_terminal : Chain m.Conditions → Run m.Conditions
  reconcile_terminal chain =
      let quiet = ends (returned no_requeue none) chain in
      elim (webhook_of chain.spec.notify) [
        | none ↦ quiet
        | some webhook ↦
            if notification_pending m w chain.spec.notify chain.status.conditions
            then notify_completion chain webhook
            else quiet
      ]

  -- The `switch` on the phase.
  unfoldable pub dispatch_phase : ChainPhase → Chain m.Conditions → Run m.Conditions
  dispatch_phase ChainPhase.running chain = reconcile_running m w chain
  dispatch_phase ChainPhase.succeeded chain = reconcile_terminal chain
  dispatch_phase ChainPhase.failed chain = reconcile_terminal chain
  dispatch_phase ChainPhase.partially_succeeded chain = reconcile_terminal chain
  dispatch_phase _ chain = ends (returned no_requeue none) chain

  -- What follows a valid spec and its schedule.
  unfoldable pub reconcile_valid : Chain m.Conditions → Run m.Conditions
  reconcile_valid chain =
      let st = chain.status in
      if chain.spec.suspended
      then update_status w (with_phase ChainPhase.suspended chain) 0
      else if is_unset st.phase
      then update_status w (init_step_statuses (with_phase ChainPhase.idle chain)) 0
      else if not (st.observed_generation == chain.generation) && not (is_running_phase st.phase)
      then reset_to_idle chain
      else dispatch_phase st.phase chain

  -- A chain that is not being deleted, its finalizer in place. The worlds are those of the attempts
  -- of a catch-up trigger.
  unfoldable pub reconcile_present :
      List (World m.Conditions) → Registry → Chain m.Conditions → Pass m.Conditions
  reconcile_present attempts registry chain =
      let unreferenced =
        note_validity condition_false Reason.missing_round_table_ref must_have_ref chain in
      if is_empty chain.spec.round_table_ref && is_empty chain.spec.mission_ref
      then pass_of registry (
          refuse (with_phase ChainPhase.failed unreferenced)
            (missing_round_table_ref chain.namespace chain.name))
      else elim (validate_steps w chain) [
        | some (reason, e) ↦
            if is_not_found e && owning_mission_inactive w chain
            then pass_of registry (ends (returned no_requeue none) chain)
            else pass_of registry
                (refuse (observe (note_validity condition_false reason (of_error e) chain)) e)
        | none ↦
            let good = note_validity condition_true valid spec_is_valid chain in
            let (registry', missed) = reconcile_schedule w registry good in
            let caught_up : Run m.Conditions = record {
              outcome = returned requeue_now none;
              chain = good;
              effects = trigger_chain m chain.namespace chain.name attempts;
            } in
            if missed then pass_of registry' caught_up else pass_of registry' (reconcile_valid good)
      ]

  -- The finalizer is added before anything else is looked at.
  unfoldable pub reconcile_live :
      List (World m.Conditions) → Registry → Chain m.Conditions → Pass m.Conditions
  reconcile_live attempts registry chain =
      let finalized = with_finalizers (chain.finalizers ++ chain_finalizer ∷ []) chain in
      if contains_string chain.finalizers chain_finalizer
      then reconcile_present attempts registry chain
      else elim (w.update finalized) [
        | some e ↦
            pass_after (updated finalized ∷ [])
              (pass_without registry (returned no_requeue (some (api e))))
        | none ↦ pass_after (updated finalized ∷ []) (reconcile_present attempts registry finalized)
      ]

  unfoldable pub reconcile_deleted :
      Registry → (namespace name : Str) → Chain m.Conditions → Pass m.Conditions
  reconcile_deleted registry namespace name chain =
      let released = with_finalizers (remove_string chain.finalizers chain_finalizer) chain in
      pass_of (remove_entry registry (registry_key namespace name)) (record {
        outcome = plain_outcome (w.update released);
        chain = released;
        effects = updated released ∷ [];
      })

  unfoldable pub reconcile :
      List (World m.Conditions) → Registry → (namespace name : Str) → Pass m.Conditions
  reconcile attempts registry namespace name = elim (w.get_chain namespace name) [
    | call_failed not_found ↦
        pass_without (remove_entry registry (registry_key namespace name))
          (returned no_requeue none)
    | call_failed e ↦ pass_without registry (returned no_requeue (some (api e)))
    | found chain ↦
        if chain.deleting
        then reconcile_deleted registry namespace name chain
        else reconcile_live attempts registry chain
  ]
