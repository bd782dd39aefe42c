-- ===== src/Mission/View/Refine/Ends.antt =====
-- The handlers of the phase Active and of those after it are moves.
use roundtable.Prelude.{
  ◌≡◌, refl, ◌∙◌, ◌⊎◌, inl, inr, List, [], ◌∷◌, Option, none, some, Str, Bool-cases, Option-cases,
  arith,
}
use roundtable.Api.Meta.{
  Reason, mission_chain_failed, mission_timeout, over_budget, mission_succeeded, StatusConditions,
}
use roundtable.Api.Phase.{MissionPhase, active, failed, succeeded}
use roundtable.Api.Mission.{MissionChainRef, Mission}
use roundtable.Mission.World.{MissionWorld, Money}
use roundtable.Mission.Run.{save}
use roundtable.Mission.Outcome.{phase_of_reason}
use roundtable.Mission.Chains.{
  Sweep, sweep_chain, sweep_chains, join_sweeps, monitor_mission_chain, watched,
  trigger_mission_chain, triggered, reconcile_mission_chains, is_active_ref,
}
use roundtable.Mission.Costs.{check_budget, aggregate_mission_cost}
use roundtable.Mission.Active.{
  stay_active, finish_mission, fail_mission, settle_sweep, run_chains, exceed_budget,
  reconcile_active, some_chains_failed, all_chains_completed, settle_budget, timed_out,
}
use roundtable.Mission.View.{View, Moves, stay, end, view}
use roundtable.Mission.View.Refine.{view-set_complete_condition, view-set_failed, view-observe}

module _ (m : StatusConditions) (w : MissionWorld m.Conditions) where
  stay_active-view :
      (mission : Mission m.Conditions) → view m (stay_active w mission).mission ≡ view m mission
  unfolding stay_active save view
  stay_active-view mission = ground arith

  finish_mission-view :
      (p : MissionPhase) (reason : Reason) (result : Str) (mission : Mission m.Conditions)
      → view m (finish_mission m w p reason result mission).mission
        ≡ record (view m mission) { phase = p; verdict = some (phase_of_reason reason) }
  unfolding finish_mission save
  finish_mission-view p reason result mission =
      rw (view-observe m, view-set_complete_condition m) (unfold view in refl)

  fail_mission-view :
      (result : Str) (reason : Reason) (message : Str) (mission : Mission m.Conditions)
      → view m (fail_mission m w result reason message mission).mission
        ≡ record (view m mission) { phase = failed; verdict = some (phase_of_reason reason) }
  unfolding fail_mission save
  fail_mission-view result reason message mission =
      rw (view-set_complete_condition m, view-set_failed m) refl

  monitor_mission_chain-view :
      (ref : MissionChainRef) (mission : Mission m.Conditions)
      → view m (monitor_mission_chain m w ref mission).mission ≡ view m mission
  unfolding monitor_mission_chain watched trigger_mission_chain triggered view
  monitor_mission_chain-view ref mission = ground arith

  sweep_chain-view :
      (ref : MissionChainRef) (mission : Mission m.Conditions)
      → view m (sweep_chain m w ref mission).mission ≡ view m mission
  unfolding sweep_chain
  sweep_chain-view ref mission = ground (arith, monitor_mission_chain-view ref mission)

  join_sweeps-view :
      (one rest : Sweep m w) (v : View)
      → view m one.mission ≡ v
      → view m rest.mission ≡ v
      → view m (join_sweeps m w one rest).mission ≡ v
  unfolding join_sweeps
  join_sweeps-view one rest v h h' = elim (Option-cases one.error) [
    | inl e ↦ rw (e, join_sweeps) h'
    | inr (x, e) ↦ rw (e, join_sweeps) h
  ]

  pub sweep_chains-view :
      (refs : List MissionChainRef) (mission : Mission m.Conditions)
      → view m (sweep_chains m w refs mission).mission ≡ view m mission
  unfolding sweep_chains
  sweep_chains-view [] mission = refl
  sweep_chains-view (ref ∷ refs) mission =
      let one = sweep_chain m w ref mission in
      let first = sweep_chain-view ref mission in
      elim (Bool-cases (is_active_ref ref.phase)) [
        | inl e ↦ rw e (
            join_sweeps-view one _ (view m mission) first
              (sweep_chains-view refs one.mission ∙ first))
        | inr e ↦ rw e (sweep_chains-view refs mission)
      ]

  -- What a sweep ends with.
  settle_sweep-view :
      (sweep : Sweep m w)
      → let t = (settle_sweep m w sweep).mission in
        (view m t ≡ view m sweep.mission)
        ⊎ (view m t ≡ record (view m sweep.mission) { phase = failed; verdict = some failed })
        ⊎ (view m t ≡ record (view m sweep.mission) { phase = succeeded; verdict = some succeeded })
  unfolding settle_sweep
  settle_sweep-view sweep = ground (
    arith,
    stay_active-view sweep.mission,
    finish_mission-view failed mission_chain_failed some_chains_failed sweep.mission,
    finish_mission-view succeeded mission_succeeded all_chains_completed sweep.mission,
  )

  run_chains-view :
      (refs : List MissionChainRef) (mission : Mission m.Conditions)
      → let t = (run_chains m w refs mission).mission in
        (view m t ≡ view m mission)
        ⊎ (view m t ≡ record (view m mission) { phase = failed; verdict = some failed })
        ⊎ (view m t ≡ record (view m mission) { phase = succeeded; verdict = some succeeded })
  unfolding run_chains reconcile_mission_chains
  run_chains-view [] mission = inl (stay_active-view mission)
  run_chains-view (ref ∷ refs) mission =
      let same = sweep_chains-view mission.spec.chains mission in
      rw (← same) (settle_sweep-view (sweep_chains m w mission.spec.chains mission))

module _ (m : StatusConditions) (money : Money) (w : MissionWorld m.Conditions) where
  pub check_budget-view :
      (mission : Mission m.Conditions) → view m (check_budget money w mission).0 ≡ view m mission
  unfolding check_budget aggregate_mission_cost view
  check_budget-view mission = ground arith

  exceed_budget-view :
      (total budget : money.Cost) (mission : Mission m.Conditions)
      → view m (exceed_budget m money w total budget mission).mission
        ≡ record (view m mission) { phase = failed; verdict = some failed }
  unfolding exceed_budget
  exceed_budget-view total budget mission = fail_mission-view m w _ over_budget _ mission

  budget_settled :
      (checked : Mission m.Conditions × Option (money.Cost × money.Cost)) (v : View)
      → view m checked.0 ≡ v
      → let t = (settle_budget m money w checked).mission in
        (view m t ≡ v)
        ⊎ (view m t ≡ record v { phase = failed; verdict = some failed })
        ⊎ (view m t ≡ record v { phase = succeeded; verdict = some succeeded })
  unfolding settle_budget
  budget_settled (mission, some (total, budget)) v e =
      rw (← e) (inr (inl (exceed_budget-view total budget mission)))
  budget_settled (mission, none) v e = rw (← e) (run_chains-view m w mission.spec.chains mission)

  pub reconcile_active-view :
      (mission : Mission m.Conditions)
      → let t = (reconcile_active m money w mission).mission in
        (view m t ≡ view m mission)
        ⊎ (view m t ≡ record (view m mission) { phase = failed; verdict = some failed })
        ⊎ (view m t ≡ record (view m mission) { phase = succeeded; verdict = some succeeded })
  unfolding reconcile_active
  reconcile_active-view mission =
      elim (Bool-cases (timed_out w.base.now mission.status.started_at mission.spec.timeout)) [
        | inl e ↦ rw e (inr (inl (fail_mission-view m w _ mission_timeout _ mission)))
        | inr e ↦ rw e (
            budget_settled (check_budget money w mission) (view m mission)
              (check_budget-view mission))
      ]

  pub reconcile_active-Moves :
      (mission : Mission m.Conditions)
      → mission.status.phase ≡ active
      → Moves (view m mission) (view m (reconcile_active m money w mission).mission)
  reconcile_active-Moves mission h = elim (reconcile_active-view mission) [
    | inl e ↦ stay e
    | inr (inl e) ↦ unfold view in end h failed (inr refl) e
    | inr (inr e) ↦ unfold view in end h succeeded (inl refl) e
  ]
