-- ===== src/Chain/Running.antt =====
-- `reconcileRunning`: one pass over a chain whose phase is Running.
pub mod Laws
pub mod Panic
use roundtable.Prelude.{
  ℕ, suc, Bool, true, false, ◌&&◌, ◌||◌, not, List, [], ◌∷◌, ◌++◌, map, Option, none, some, Str,
  ◌⊎◌, inl, inr, is_empty, is_some, if◌then◌else◌,
}
use roundtable.Api.Meta.{
  Answer, found, failed as call_failed, Error, no_round_table_ref, round_table_not_found,
  ConditionStatus, condition_true, complete, notification_sent, Reason, chain_timeout, Message,
  timed_out as timed_out_message, Condition, StatusConditions,
}
use roundtable.Api.Chain.{ChainStep, ChainStepStatus, ChainStepPhase, pending, ChainPhase, Chain}
use roundtable.Chain.World.{
  World, NatsConfig, Event, started, chain_timed_out, Effect, event, updated_status,
}
use roundtable.Chain.Kv.{restore_step_outputs}
use roundtable.Chain.Poll.{timed_out, poll_steps}
use roundtable.Chain.Dispatch.{Dispatched, dispatch_steps}
use roundtable.Chain.Run.{
  Outcome, returned, panicked, Run, no_requeue, plain_outcome, ends, after, update_status,
  requeue_fast,
}
use roundtable.Chain.Completion.{finish_pass}

unfoldable pub init_step_status : ChainStep → ChainStepStatus
init_step_status step = record {
  name = step.name;
  phase = pending;
  task_id = [];
  started_at = none;
  completed_at = none;
  output = [];
  error = [];
  retries = 0;
}

module _ {C : Type 0} where
  abbrev pub with_statuses : List ChainStepStatus → Chain C → Chain C
  with_statuses statuses chain = record chain {
    status = record (chain.status) { step_statuses = statuses };
  }

  -- `initStepStatuses`
  unfoldable pub init_step_statuses : Chain C → Chain C
  init_step_statuses chain = with_statuses (map init_step_status chain.spec.steps) chain

  unfoldable pub resolve_nats_config : World C → Chain C → Error ⊎ NatsConfig
  resolve_nats_config w chain =
      if is_empty chain.spec.round_table_ref
      then inl (no_round_table_ref chain.namespace chain.name)
      else elim (w.get_round_table chain.namespace chain.spec.round_table_ref) [
        | call_failed e ↦ inl (round_table_not_found chain.spec.round_table_ref e)
        | found nc ↦ inr nc
      ]

  -- A run without an ID or a start time gets them here.
  unfoldable pub ensure_started : World C → Chain C → Chain C
  ensure_started w chain =
      let st = chain.status in
      record chain {
        status = record st {
          run_id = if is_empty st.run_id then w.new_uuid else st.run_id;
          started_at = if is_some st.started_at then st.started_at else some w.now;
        };
      }

module _ (m : StatusConditions) (w : World m.Conditions) where
  -- The first pass after a manual trigger, which only sets the phase: a new run with its own ID.
  unfoldable pub begin_run : Chain m.Conditions → Run m.Conditions
  begin_run chain =
      let fresh = init_step_statuses chain in
      let st = fresh.status in
      let identified = record fresh {
        status = record st {
          conditions = m.remove st.conditions notification_sent;
          run_id = w.new_uuid;
        };
      } in
      let (restored, effects) = restore_step_outputs w identified in
      let st' = restored.status in
      after effects (
        update_status w
          (record restored {
            status = record st' { started_at = some w.now; observed_generation = chain.generation };
          })
          requeue_fast)

  -- The chain's own timeout.
  unfoldable pub time_out_run : Chain m.Conditions → Run m.Conditions
  time_out_run chain =
      let st = chain.status in
      let failed_chain = record chain {
        status = record st {
          phase = ChainPhase.failed;
          completed_at = some w.now;
          runs_failed = suc st.runs_failed;
          observed_generation = chain.generation;
          conditions = m.set w.now st.conditions (record {
            type = complete;
            status = condition_true;
            reason = chain_timeout;
            message = timed_out_message chain.spec.timeout;
            observed_generation = chain.generation;
          });
        };
      } in
      record {
        outcome = plain_outcome (w.update_status failed_chain);
        chain = failed_chain;
        effects = event (chain_timed_out chain.spec.timeout) ∷ updated_status failed_chain ∷ [];
      }

  -- Poll, publish, conclude. After a nil dereference nothing is written.
  unfoldable pub advance_run : NatsConfig → Chain m.Conditions → Run m.Conditions
  advance_run nc chain =
      let (polled, heard) = poll_steps w nc chain chain.status.step_statuses in
      let sent = dispatch_steps w nc chain chain.spec.steps polled in
      let done = heard ++ sent.effects in
      let final = with_statuses sent.statuses chain in
      if sent.panicked
      then record { outcome = panicked; chain = final; effects = done }
      else after done (finish_pass m w final)

  unfoldable pub reconcile_running : Chain m.Conditions → Run m.Conditions
  reconcile_running chain = elim (resolve_nats_config w chain) [
    | inl e ↦ ends (returned no_requeue (some e)) chain
    | inr nc ↦
        let started_chain = ensure_started w chain in
        let noted = if is_some chain.status.started_at then [] else event started ∷ [] in
        elim chain.status.step_statuses [
          | [] ↦ begin_run chain
          | _ ∷ _ ↦
              if timed_out w.now started_chain.status.started_at chain.spec.timeout
              then after noted (time_out_run started_chain)
              else after noted (advance_run nc started_chain)
        ]
  ]
