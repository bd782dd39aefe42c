-- ===== src/Chain/Completion.antt =====
-- The end of `reconcileRunning`: whether the run is over, and with what result.
pub mod Laws
pub mod Running
use roundtable.Prelude.{
  ℕ, zero, suc, ◌+◌, Bool, true, false, ◌&&◌, ◌||◌, not, List, [], ◌∷◌, ◌++◌, map, Option, none,
  some, is_empty, length, ltb, ◌==◌, if◌then◌else◌,
}
use roundtable.Api.Meta.{
  ConditionStatus, condition_true, complete, Reason, chain_failed, chain_partially_succeeded,
  chain_succeeded, Message, steps_failed, steps_succeeded_of, all_steps_completed, Condition,
  StatusConditions,
}
use roundtable.Api.Chain.{
  ChainStep, ChainStepStatus, ChainStepPhase, pending, succeeded, failed, skipped, ChainPhase,
  Chain,
}
use roundtable.Chain.World.{World, Event, no_steps_executed, Effect, event, no_op_run}
use roundtable.Chain.Lookup.{spec_of}
use roundtable.Chain.Kv.{is_pending}
use roundtable.Chain.Poll.{is_running}
use roundtable.Chain.Run.{Run, update_status, after, requeue_default}

abbrev pub is_terminal : ChainStepPhase → Bool
is_terminal succeeded = true
is_terminal failed = true
is_terminal skipped = true
is_terminal _ = false

abbrev pub is_failed : ChainStepPhase → Bool
is_failed failed = true
is_failed _ = false

abbrev pub is_succeeded : ChainStepPhase → Bool
is_succeeded succeeded = true
is_succeeded _ = false

unfoldable pub continues : Option ChainStep → Bool
continues none = false
continues (some step) = step.continue_on_failure

-- Failed, where the spec has no such step or does not continue on failure: the test of the loop that
-- looks for a failure that ends the run.
unfoldable pub hard_failed : List ChainStep → ChainStepStatus → Bool
unfolding continues
hard_failed steps ss = is_failed ss.phase && not (continues (spec_of steps ss.name))

-- Counted as a hard failure, when the run is concluded: Failed, and not a step of the spec that
-- continues on failure.
unfoldable pub counts_as_hard : List ChainStep → ChainStepStatus → Bool
counts_as_hard steps ss =
    if is_succeeded ss.phase
    then false
    else if is_failed ss.phase
    then elim (spec_of steps ss.name) [
      | none ↦ true
      | some step ↦ if step.continue_on_failure then false else true
    ]
    else false

unfoldable pub soft_failed : List ChainStep → ChainStepStatus → Bool
unfolding continues
soft_failed steps ss = is_failed ss.phase && continues (spec_of steps ss.name)

unfoldable pub all_terminal : List ChainStepStatus → Bool
all_terminal [] = true
all_terminal (ss ∷ statuses) = is_terminal ss.phase && all_terminal statuses

unfoldable pub any_failed : List ChainStep → List ChainStepStatus → Bool
any_failed steps [] = false
any_failed steps (ss ∷ statuses) = hard_failed steps ss || any_failed steps statuses

unfoldable pub still_running : List ChainStepStatus → Bool
still_running [] = false
still_running (ss ∷ statuses) = is_running ss.phase || still_running statuses

abbrev pub skip_if_pending : ChainStepStatus → ChainStepStatus
skip_if_pending ss = if is_pending ss.phase then record ss { phase = skipped } else ss

-- A hard failure skips what is still Pending, and then the run is over once nothing runs.
unfoldable pub skip_pending : List ChainStep → List ChainStepStatus → List ChainStepStatus
skip_pending steps statuses =
    if any_failed steps statuses then map skip_if_pending statuses else statuses

unfoldable pub run_is_over : List ChainStep → List ChainStepStatus → Bool
unfolding skip_pending
run_is_over steps statuses =
    if any_failed steps statuses
    then not (still_running (skip_pending steps statuses))
    else all_terminal statuses

unfoldable pub count_if : (ChainStepStatus → Bool) → List ChainStepStatus → ℕ
count_if test [] = 0
count_if test (ss ∷ statuses) =
    let rest = count_if test statuses in if test ss then suc rest else rest

-- What a finished run amounts to.
pub record Verdict : Type 0 where
  pub phase : ChainPhase
  pub reason : Reason
  pub message : Message
  pub event : Event

unfoldable pub verdict : List ChainStep → List ChainStepStatus → Verdict
verdict steps statuses =
    let hard = count_if (counts_as_hard steps) statuses in
    let soft = count_if (soft_failed steps) statuses in
    let done = count_if (λ ss. is_succeeded ss.phase) statuses in
    let total = length statuses in
    if ltb 0 hard
    then record {
      phase = ChainPhase.failed;
      reason = chain_failed;
      message = steps_failed hard;
      event = Event.chain_failed hard;
    }
    else if ltb 0 soft
    then record {
      phase = ChainPhase.partially_succeeded;
      reason = chain_partially_succeeded;
      message = steps_succeeded_of done total soft;
      event = Event.chain_partially_succeeded done total;
    }
    else record {
      phase = ChainPhase.succeeded;
      reason = chain_succeeded;
      message = all_steps_completed total;
      event = Event.chain_succeeded;
    }

abbrev counts_as_failed : ChainPhase → Bool
counts_as_failed ChainPhase.failed = true
counts_as_failed _ = false

module _ (m : StatusConditions) (w : World m.Conditions) where
  -- The chain with the result of a run that is over.
  unfoldable pub complete_run : Chain m.Conditions → Chain m.Conditions
  unfolding verdict
  complete_run chain =
      let v = verdict chain.spec.steps chain.status.step_statuses in
      let bad = counts_as_failed v.phase in
      let st = chain.status in
      record chain {
        status = record st {
          completed_at = some w.now;
          phase = v.phase;
          runs_failed = if bad then suc st.runs_failed else st.runs_failed;
          runs_completed = if bad then st.runs_completed else suc st.runs_completed;
          observed_generation = chain.generation;
          conditions = m.set w.now st.conditions (record {
            type = complete;
            status = condition_true;
            reason = v.reason;
            message = v.message;
            observed_generation = chain.generation;
          });
        };
      }

  -- A run in which no step has a task.
  unfoldable pub no_op_effects : Chain m.Conditions → List (Effect m.Conditions)
  no_op_effects chain =
      let statuses = chain.status.step_statuses in
      let executed = count_if (λ ss. not (is_empty ss.task_id)) statuses in
      if executed == 0 && ltb 0 (length statuses)
      then event no_steps_executed ∷ no_op_run chain.name ∷ []
      else []

  unfoldable pub finish_pass : Chain m.Conditions → Run m.Conditions
  finish_pass chain =
      let steps = chain.spec.steps in
      let statuses = chain.status.step_statuses in
      let skipping = record chain {
        status = record (chain.status) { step_statuses = skip_pending steps statuses };
      } in
      let st = skipping.status in
      let going_on = record skipping {
        status = record st { observed_generation = chain.generation };
      } in
      let v = verdict steps st.step_statuses in
      if run_is_over steps statuses
      then after (event v.event ∷ no_op_effects skipping)
          (update_status w (complete_run skipping) 0)
      else update_status w going_on requeue_default
