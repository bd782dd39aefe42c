-- ===== src/Mission/Run.antt =====
-- internal/status/builder.go for missions, and how a pass of the mission controller ends.
use roundtable.Prelude.{ℕ, ◌*◌, false, List, [], ◌∷◌, ◌++◌, Option, none, some, Str}
use roundtable.Api.Meta.{
  ApiError, conflict, Error, api, ConditionStatus, ConditionType, Reason, Message, Condition,
  StatusConditions,
}
use roundtable.Api.Phase.{MissionPhase, failed}
use roundtable.Api.Mission.{Mission}
use roundtable.Chain.World.{second}
use roundtable.Chain.Run.{Outcome, returned, no_requeue, requeue_now}
use roundtable.Mission.World.{MissionEffect, updated_mission_status, MissionWorld}

-- The mission is the object in memory at the end; what was persisted is in the effects.
pub record MissionRun (C : Type 0) : Type 0 where
  pub outcome : Outcome
  pub mission : Mission C
  pub effects : List (MissionEffect C)

abbrev pub requeue_medium : ℕ
requeue_medium = 2 * second

abbrev pub requeue_moderate : ℕ
requeue_moderate = 10 * second

-- `ctrl.Result{RequeueAfter: d}, nil`
abbrev pub requeue_in : ℕ → Outcome
requeue_in d = returned (record { requeue = false; requeue_after = d }) none

abbrev pub finished : Outcome
finished = returned no_requeue none

abbrev pub fails_with : Error → Outcome
fails_with e = returned no_requeue (some e)

-- The answer of a write, as the error of the pass beside this delay.
abbrev pub outcome_of : (requeue_after : ℕ) → Option ApiError → Outcome
outcome_of d none = requeue_in d
outcome_of d (some e) = returned (record { requeue = false; requeue_after = d }) (some (api e))

-- The same, where a conflicting write is tried again by a requeue.
abbrev pub retried_outcome : (requeue_after : ℕ) → Option ApiError → Outcome
retried_outcome d (some conflict) = returned requeue_now none
retried_outcome d answer = outcome_of d answer

module _ {C : Type 0} where
  -- What happens after a write that did not conflict.
  abbrev pub unless_conflict : Option ApiError → List (MissionEffect C) → List (MissionEffect C)
  unless_conflict (some conflict) effects = []
  unless_conflict _ effects = effects

  abbrev pub mission_ends : Outcome → Mission C → MissionRun C
  mission_ends outcome mission = record { outcome = outcome; mission = mission; effects = [] }

  -- Effects that a run has behind it.
  abbrev pub mission_after : List (MissionEffect C) → MissionRun C → MissionRun C
  mission_after effects run = record run { effects = effects ++ run.effects }

  unfoldable pub set_phase : MissionPhase → Mission C → Mission C
  set_phase p mission = record mission {
    status = record (mission.status) { phase = p; observed_generation = mission.generation };
  }

  -- `Complete`, at a time.
  unfoldable pub set_complete : (now : ℕ) (result : Str) → MissionPhase → Mission C → Mission C
  unfolding set_phase
  set_complete now result p mission = set_phase p (record mission {
    status = record (mission.status) { completed_at = some now; result = result };
  })

  -- `Failed`, at a time.
  unfoldable pub set_failed : (now : ℕ) (result : Str) → Mission C → Mission C
  unfolding set_complete
  set_failed now result = set_complete now result failed

  -- `mission.Status.ObservedGeneration = mission.Generation`
  abbrev pub observe : Mission C → Mission C
  observe mission = record mission {
    status = record (mission.status) { observed_generation = mission.generation };
  }

  -- A status write that ends the pass, with the events of a write that did not conflict.
  unfoldable pub save :
      MissionWorld C
      → Mission C
      → (Option ApiError → Outcome)
      → (events : List (MissionEffect C)) → MissionRun C
  save w mission outcome events = record {
    outcome = outcome (w.update_mission_status mission);
    mission = mission;
    effects =
        updated_mission_status mission ∷ unless_conflict (w.update_mission_status mission) events;
  }

module _ (m : StatusConditions) where
  -- `Condition`, which is also `meta.SetStatusCondition` with the mission's generation.
  unfoldable pub set_condition :
      (now : ℕ)
      → ConditionType
      → Reason
      → Message
      → ConditionStatus
      → Mission m.Conditions
      → Mission m.Conditions
  set_condition now type reason message status mission =
      let c : Condition = record {
        type = type;
        status = status;
        reason = reason;
        message = message;
        observed_generation = mission.generation;
      } in
      record mission {
        status = record (mission.status) { conditions = m.set now (mission.status.conditions) c };
      }
