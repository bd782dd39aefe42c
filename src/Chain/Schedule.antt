-- ===== src/Chain/Schedule.antt =====
-- Cron schedules: the registered entries, missed fires, and the trigger of a run.
pub mod Laws
pub mod Triggers
use roundtable.Prelude.{
  ℕ, suc, ◌+◌, ◌*◌, ◌%◌, Bool, true, false, ◌&&◌, ◌||◌, not, List, [], ◌∷◌, ◌++◌, Option, none,
  some, Str, bytes, is_empty, str_eq, is_some, ltb, if◌then◌else◌,
}
use roundtable.Api.Meta.{
  ApiError, conflict, Answer, found, failed as call_failed, notification_sent, StatusConditions,
}
use roundtable.Api.Chain.{ChainPhase, running, Chain}
use roundtable.Chain.World.{
  second, World, cron_trigger_skipped, cron_triggered, Effect, event, updated_status,
}
use roundtable.Chain.Running.{init_step_statuses}

-- The reconciler's `cronEntries` and the entries of the cron scheduler that they point to: by the
-- chain's key, the expression under which it fires.
abbrev pub Registry : Type 0
Registry = List (Str × Str)

unfoldable pub entry : Registry → Str → Option Str
entry [] key = none
entry ((k, schedule) ∷ registry) key =
    let rest = entry registry key in if str_eq k key then some schedule else rest

unfoldable pub remove_entry : Registry → Str → Registry
remove_entry [] key = []
remove_entry ((k, schedule) ∷ registry) key =
    let rest = remove_entry registry key in if str_eq k key then rest else (k, schedule) ∷ rest

unfoldable pub registry_key : (namespace name : Str) → Str
registry_key namespace name = namespace ++ bytes "/" ++ name

abbrev pub is_running_phase : ChainPhase → Bool
is_running_phase running = true
is_running_phase _ = false

-- 2 ^ 63: a `time.Duration` is below it.
unfoldable pub duration_bound : ℕ
duration_bound = 9223372036854775808

-- The optional window in which a missed fire is caught up has passed. The window is an int64 of
-- nanoseconds: a product from 2 ^ 63 on wraps around, to a negative number in the upper half.
unfoldable pub past_deadline : (now expected : ℕ) → Option ℕ → Bool
unfolding duration_bound
past_deadline now expected none = false
past_deadline now expected (some seconds) =
    let window = seconds * second in
    let wrapped = window % (2 * duration_bound) in
    if ltb window duration_bound
    then ltb (expected + window) now
    else if ltb wrapped duration_bound
    then ltb (expected + wrapped) now
    else ltb (expected + wrapped) (now + 2 * duration_bound)

module _ {C : Type 0} (w : World C) where
  unfoldable pub missed_since : Chain C → (last : ℕ) → Bool
  unfolding past_deadline
  missed_since chain last =
      let expected = w.next_fire chain.spec.schedule last in
      not (is_running_phase chain.status.phase)
      && (w.schedule_parses chain.spec.schedule
          && (ltb expected w.now
              && not (past_deadline w.now expected chain.spec.starting_deadline_seconds)))

  unfoldable pub missed_schedule : Chain C → Bool
  unfolding missed_since
  missed_schedule chain = elim chain.status.last_scheduled_at [
    | none ↦ false
    | some last ↦ missed_since chain last
  ]

  -- `reconcileSchedule`: the new registry, and whether a fire was missed.
  unfoldable pub reconcile_schedule : Registry → Chain C → Registry × Bool
  unfolding registry_key
  reconcile_schedule registry chain =
      let key = registry_key chain.namespace chain.name in
      if is_empty chain.spec.schedule || chain.spec.suspended
      then (remove_entry registry key, false)
      else if is_some (entry registry key)
      then (registry, missed_schedule chain)
      else if w.schedule_parses chain.spec.schedule
      then ((key, chain.spec.schedule) ∷ registry, missed_schedule chain)
      else (registry, false)

-- One attempt of `triggerChain` in the world as it then is: its error, and its effects.
module _ (m : StatusConditions) where
  -- The chain at the start of a new run.
  unfoldable pub trigger : World m.Conditions → Chain m.Conditions → Chain m.Conditions
  trigger w chain =
      let fresh = init_step_statuses chain in
      let st = fresh.status in
      record fresh {
        status = record st {
          conditions = m.remove st.conditions notification_sent;
          run_id = w.new_uuid;
          phase = running;
          started_at = some w.now;
          completed_at = none;
          last_scheduled_at = some w.now;
        };
      }

  unfoldable pub trigger_attempt :
      (namespace name : Str) → World m.Conditions → Option ApiError × List (Effect m.Conditions)
  trigger_attempt namespace name w = elim (w.get_chain namespace name) [
    | call_failed e ↦ (some e, [])
    | found chain ↦
        let triggered = trigger w chain in
        if chain.spec.suspended
        then (none, [])
        else if is_running_phase chain.status.phase
        then (none, event cron_trigger_skipped ∷ [])
        else elim (w.update_status triggered) [
          | some e ↦ (some e, updated_status triggered ∷ [])
          | none ↦ (none, updated_status triggered ∷ event cron_triggered ∷ [])
        ]
  ]

  -- `triggerChain`: an attempt that ends in a conflict is made again, in the next of the worlds
  -- that client-go's retry.DefaultRetry allows for. The last error is only logged.
  unfoldable pub trigger_chain :
      (namespace name : Str) → List (World m.Conditions) → List (Effect m.Conditions)
  trigger_chain namespace name [] = []
  trigger_chain namespace name (w ∷ later) =
      let (error, effects) = trigger_attempt namespace name w in
      let again = trigger_chain namespace name later in
      elim error [ some conflict ↦ effects ++ again | _ ↦ effects ]
