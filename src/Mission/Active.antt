-- ===== src/Mission/Active.antt =====
-- `reconcileActive`.
use roundtable.Prelude.{
  ℕ, ◌-◌, ◌*◌, Bool, true, false, ◌&&◌, ◌||◌, not, List, [], ◌∷◌, ◌++◌, Option, none, some, Str,
  bytes, ltb, if◌then◌else◌,
}
use roundtable.Api.Meta.{
  Answer, found, failed as call_failed, condition_true, complete, Reason, mission_timeout,
  over_budget, mission_chain_failed, mission_succeeded, plain_message, StatusConditions,
}
use roundtable.Api.Chain.{ChainPhase}
use roundtable.Api.Phase.{MissionPhase, succeeded, failed}
use roundtable.Api.Mission.{
  MissionKnight, MissionKnightStatus, MissionChainRef, MissionChainStatus, Mission,
}
use roundtable.Nats.Subjects.{decimal}
use roundtable.Chain.World.{second}
use roundtable.Chain.Run.{Outcome, panicked, requeue_default}
use roundtable.Mission.World.{readiness, MissionEffect, MissionWorld, Money}
use roundtable.Mission.Run.{
  MissionRun, requeue_in, retried_outcome, mission_ends, mission_after, set_phase, set_failed,
  set_condition, observe, save,
}
use roundtable.Mission.Outcome.{is_succeeded_chain, is_failed_chain}
use roundtable.Mission.Chains.{Sweep, reconcile_mission_chains, suspend_mission_chains}
use roundtable.Mission.Costs.{check_budget}
pub mod Laws

abbrev pub some_chains_failed : Str
some_chains_failed = bytes "One or more mission chains failed"

abbrev pub all_chains_completed : Str
all_chains_completed = bytes "All mission chains completed successfully"

unfoldable pub has_non_terminal_chains : List MissionChainStatus → Bool
has_non_terminal_chains [] = false
has_non_terminal_chains (cs ∷ statuses) =
    let rest = has_non_terminal_chains statuses in
    if not (is_succeeded_chain cs.phase) && not (is_failed_chain cs.phase) then true else rest

unfoldable pub timed_out : (now : ℕ) → (started_at : Option ℕ) → (timeout : ℕ) → Bool
timed_out now none timeout = false
timed_out now (some started) timeout = ltb (timeout * second) (now - started)

module _ {C : Type 0} (w : MissionWorld C) where
  unfoldable pub is_ready_now : (namespace name : Str) → Bool
  is_ready_now namespace name = elim (w.get_knight readiness namespace name) [
    | call_failed e ↦ false
    | found knight ↦ knight.status.ready
  ]

  abbrev pub cons_some :
      MissionKnightStatus → Option (List MissionKnightStatus) → Option (List MissionKnightStatus)
  cons_some ks none = none
  cons_some ks (some rest) = some (ks ∷ rest)

  -- The statuses by the position of the knight in the spec; `none`: there is none at a position.
  unfoldable pub refresh_statuses :
      (namespace : Str)
      → List MissionKnight
      → List MissionKnightStatus
      → Option (List MissionKnightStatus)
  unfolding is_ready_now
  refresh_statuses namespace [] statuses = some statuses
  refresh_statuses namespace (mk ∷ knights) [] =
      let rest = refresh_statuses namespace knights [] in if mk.ephemeral then rest else none
  refresh_statuses namespace (mk ∷ knights) (ks ∷ statuses) =
      let rest = refresh_statuses namespace knights statuses in
      let seen : MissionKnightStatus = record ks { ready = is_ready_now namespace mk.name } in
      if mk.ephemeral then cons_some ks rest else cons_some seen rest

  -- The end of a pass over a mission that stays active.
  unfoldable pub stay_active : Mission C → MissionRun C
  unfolding refresh_statuses
  stay_active mission =
      elim (refresh_statuses mission.namespace mission.spec.knights
        mission.status.knight_statuses) [
          | none ↦ mission_ends panicked mission
          | some statuses ↦
              save w
                (observe (record mission {
                  status = record (mission.status) { knight_statuses = statuses };
                }))
                (λ answer. requeue_in requeue_default) []
        ]

module _ (m : StatusConditions) (w : MissionWorld m.Conditions) where
  -- The mission is over: the phase, the result and the condition.
  unfoldable pub finish_mission :
      MissionPhase → Reason → (result : Str) → Mission m.Conditions → MissionRun m.Conditions
  finish_mission p reason result mission =
      let ended : Mission m.Conditions = record mission {
        status = record (mission.status) {
          phase = p;
          completed_at = some w.base.now;
          result = result;
        };
      } in
      save w
        (observe
          (set_condition m w.base.now complete reason (plain_message result) condition_true ended))
        (retried_outcome 0) []

  -- A failure that the builder records, and the condition.
  unfoldable pub fail_mission :
      (result : Str) → Reason → (message : Str) → Mission m.Conditions → MissionRun m.Conditions
  fail_mission result reason message mission =
      save w
        (set_condition m w.base.now complete reason (plain_message message) condition_true
          (set_failed w.base.now result mission))
        (retried_outcome 0) []

  -- What the sweep over the chains came to.
  unfoldable pub settle_sweep : Sweep m w → MissionRun m.Conditions
  unfolding has_non_terminal_chains stay_active finish_mission
  settle_sweep sweep =
      let mission = sweep.mission in
      let over = sweep.any_failed || sweep.all_complete in
      elim sweep.error [
        | some e ↦ mission_ends (requeue_in requeue_default) mission
        | none ↦
            if over && has_non_terminal_chains mission.status.chain_statuses
            then mission_ends (requeue_in requeue_default) mission
            else if sweep.any_failed
            then finish_mission failed mission_chain_failed some_chains_failed mission
            else if sweep.all_complete
            then finish_mission succeeded mission_succeeded all_chains_completed mission
            else stay_active w mission
      ]

  unfoldable pub run_chains : List MissionChainRef → Mission m.Conditions → MissionRun m.Conditions
  unfolding reconcile_mission_chains settle_sweep stay_active
  run_chains [] mission = stay_active w mission
  run_chains (ref ∷ refs) mission =
      let sweep = reconcile_mission_chains m w mission in
      mission_after sweep.effects (settle_sweep sweep)

module _ (m : StatusConditions) (money : Money) (w : MissionWorld m.Conditions) where
  -- The mission is over its budget.
  unfoldable pub exceed_budget :
      (total budget : money.Cost) → Mission m.Conditions → MissionRun m.Conditions
  unfolding suspend_mission_chains fail_mission
  exceed_budget total budget mission =
      let spent = money.two_decimals total in
      let allowed = money.two_decimals budget in
      mission_after (suspend_mission_chains m w mission.namespace mission.status.chain_statuses) (
        fail_mission m w (bytes "Cost budget exceeded: $" ++ spent ++ bytes " > $" ++ allowed)
          over_budget (bytes "Cost $" ++ spent ++ bytes " exceeded budget $" ++ allowed) mission)

  -- What the check of the budget came to.
  unfoldable pub settle_budget :
      Mission m.Conditions × Option (money.Cost × money.Cost) → MissionRun m.Conditions
  unfolding exceed_budget run_chains
  settle_budget (mission, some (total, budget)) = exceed_budget total budget mission
  settle_budget (mission, none) = run_chains m w mission.spec.chains mission

  unfoldable pub reconcile_active : Mission m.Conditions → MissionRun m.Conditions
  unfolding timed_out fail_mission check_budget settle_budget decimal
  reconcile_active mission =
      let text = bytes "Mission timed out after " ++ decimal mission.spec.timeout ++ bytes "s" in
      let run = settle_budget (check_budget money w mission) in
      if timed_out w.base.now mission.status.started_at mission.spec.timeout
      then fail_mission m w text mission_timeout text mission
      else run
