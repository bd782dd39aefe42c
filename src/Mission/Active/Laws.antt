-- ===== src/Mission/Active/Laws.antt =====
-- How an active mission ends.
use roundtable.Mission.View.Refine.Ends.{sweep_chains-view}
use roundtable.Mission.View.{View, view}
use roundtable.Prelude.{
  ◌≡◌, ◌≢◌, refl, ap, ◌∙◌, true, List, [], ◌∷◌, Option, none, some, Bool-cases, All, arith, inl,
  inr,
}
use roundtable.Api.Meta.{StatusConditions}
use roundtable.Api.Phase.{active, succeeded}
use roundtable.Api.Mission.{MissionChainRef, Mission}
use roundtable.Mission.World.{MissionWorld, Money}
use roundtable.Mission.Run.{save, set_failed, set_complete, set_phase, set_condition}
use roundtable.Mission.Chains.{is_active_ref, Sweep, sweep_chains, reconcile_mission_chains}
use roundtable.Mission.Chains.Laws.{HasSucceeded, IsClean, sweep_chains-HasSucceeded}
use roundtable.Mission.Costs.{check_budget, aggregate_mission_cost}
use roundtable.Mission.Active.{
  timed_out, stay_active, finish_mission, fail_mission, settle_sweep, run_chains, exceed_budget,
  settle_budget, reconcile_active,
}

module _ (m : StatusConditions) (w : MissionWorld m.Conditions) where
  phase-stay_active :
      (mission : Mission m.Conditions)
      → (stay_active w mission).mission.status.phase ≡ mission.status.phase
  unfolding stay_active save
  phase-stay_active mission = ground arith

  -- A sweep ends a mission with success only if it says that all is well.
  settle_sweep-IsClean :
      (sweep : Sweep m w)
      → sweep.mission.status.phase ≢ succeeded
      → (settle_sweep m w sweep).mission.status.phase ≡ succeeded
      → IsClean m w [] [] sweep
  unfolding settle_sweep finish_mission save set_condition
  settle_sweep-IsClean sweep h e = ground (arith, h, e, phase-stay_active sweep.mission)

  run_chains-HasSucceeded :
      (refs : List MissionChainRef) (mission : Mission m.Conditions)
      → mission.status.phase ≡ active
      → (run_chains m w refs mission).mission.status.phase ≡ succeeded
      → All
          (λ ref.
            is_active_ref ref.phase ≡ true → HasSucceeded m w mission.namespace mission.name ref)
          mission.spec.chains
  unfolding run_chains reconcile_mission_chains
  run_chains-HasSucceeded [] mission h e = absurd (ground (arith, h, e, phase-stay_active mission))
  run_chains-HasSucceeded (ref ∷ refs) mission h e =
      let sweep = sweep_chains m w mission.spec.chains mission in
      let same : sweep.mission.status.phase ≡ mission.status.phase =
        unfold view in
        ap (λ (v : View). v.phase) (sweep_chains-view m w mission.spec.chains mission) in
      sweep_chains-HasSucceeded m w mission.namespace mission.name mission.spec.chains mission
        (refl, refl) (settle_sweep-IsClean sweep (ground (arith, h, same)) e)

module _ (m : StatusConditions) (money : Money) (w : MissionWorld m.Conditions) where
  -- The check of the budget leaves this alone.
  record IsSameMission (a b : Mission m.Conditions) : Type 0 where
    named : a.name ≡ b.name
    placed : a.namespace ≡ b.namespace
    chained : a.spec.chains ≡ b.spec.chains
    phased : a.status.phase ≡ b.status.phase

  check_budget-IsSameMission :
      (mission : Mission m.Conditions) → IsSameMission (check_budget money w mission).0 mission
  unfolding check_budget aggregate_mission_cost
  check_budget-IsSameMission mission = ground arith

  settle_budget-HasSucceeded :
      (checked : Mission m.Conditions × Option (money.Cost × money.Cost))
      (mission : Mission m.Conditions)
      → IsSameMission checked.0 mission
      → mission.status.phase ≡ active
      → (settle_budget m money w checked).mission.status.phase ≡ succeeded
      → All
          (λ ref.
            is_active_ref ref.phase ≡ true → HasSucceeded m w mission.namespace mission.name ref)
          mission.spec.chains
  unfolding settle_budget exceed_budget fail_mission save set_failed set_complete set_phase
      set_condition
  settle_budget-HasSucceeded (checked, some (total, budget)) mission s h e =
      absurd (ground (arith, e))
  settle_budget-HasSucceeded (checked, none) mission s h e =
      rw (← s.named, ← s.placed, ← s.chained)
        (run_chains-HasSucceeded m w checked.spec.chains checked (s.phased ∙ h) e)

  -- A pass that ends an active mission with success has seen the mission's own copy of every chain of
  -- the phases Setup and Active that its spec names, each of them in the phase Succeeded.
  pub reconcile_active-HasSucceeded :
      (mission : Mission m.Conditions)
      → mission.status.phase ≡ active
      → (reconcile_active m money w mission).mission.status.phase ≡ succeeded
      → All
          (λ ref.
            is_active_ref ref.phase ≡ true → HasSucceeded m w mission.namespace mission.name ref)
          mission.spec.chains
  unfolding reconcile_active fail_mission save set_failed set_complete set_phase set_condition
  reconcile_active-HasSucceeded mission h e =
      elim (Bool-cases (timed_out w.base.now mission.status.started_at mission.spec.timeout)) [
        | inl t ↦ absurd (ground (arith, e, t))
        | inr t ↦
            settle_budget-HasSucceeded (check_budget money w mission) mission
              (check_budget-IsSameMission mission) h (ground (arith, e, t))
      ]
