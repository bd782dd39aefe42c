-- ===== src/Mission/View/Refine/Phases.antt =====
-- The handlers of the phases up to Briefing are moves.
use roundtable.Prelude.{
  ℕ, ◌≡◌, refl, ◌⊎◌, inl, inr, List, [], ◌++◌, Option, none, some, Str, is_empty, Bool-cases, arith,
  length,
}
use roundtable.Api.Meta.{ApiError, StatusConditions}
use roundtable.Api.Phase.{pending, provisioning, planning, assembling, briefing, active, failed}
use roundtable.Api.Mission.{MissionKnight, MissionKnightStatus, Mission}
use roundtable.Chain.Run.{Outcome}
use roundtable.Mission.World.{MissionEffect, MissionWorld}
use roundtable.Mission.Run.{MissionRun, set_phase, set_failed, set_complete, save}
use roundtable.Mission.Pending.{settle_pending, reject_templates, reject_spec, reconcile_pending}
use roundtable.Mission.Assembler.Setup.{with_shared, build_ephemeral_round_table}
use roundtable.Mission.Provisioning.{
  OwnNames, next_phase_after_provisioning, create_own_table, provision_table, provision_own,
  reconcile_provisioning,
}
use roundtable.Mission.Briefing.{
  activate, note_briefing, note_no_briefing, briefing_failed, publish_briefing, settle_briefing,
  reconcile_briefing,
}
use roundtable.Mission.Assembler.Assembling.{
  Assembled, goes, lacks, errs, time_out_assembly, all_assembled, settle_assembly, with_assembly,
  assemble, run_assembly, with_account, assembly_start, assemble_knights,
}
use roundtable.Mission.Reconcile.{reconcile_assembling, assembled_run, save_assembly}
use roundtable.Mission.View.{
  Moves, stay, accept, reject, provide, assemble as goes_on, give_up, activate as goes_active, view,
}
use roundtable.Mission.View.Refine.{
  view-observe, view-knights_ready, view-briefing_published, view-set_failed, view-set_phase,
}

module _ (m : StatusConditions) (w : MissionWorld m.Conditions) where
  settle_pending-Moves :
      (templates knights : Option Str) (chains : Option (Str ⊎ ApiError))
      (mission : Mission m.Conditions)
      → mission.status.phase ≡ pending
      → Moves (view m mission) (view m (settle_pending w templates knights chains mission).mission)
  unfolding view settle_pending reject_templates reject_spec save set_failed set_complete set_phase
  settle_pending-Moves (some fault) knights chains mission h = reject h refl
  settle_pending-Moves none (some fault) chains mission h = reject h refl
  settle_pending-Moves none none (some (inl fault)) mission h = reject h refl
  settle_pending-Moves none none (some (inr e)) mission h = stay refl
  settle_pending-Moves none none none mission h = accept h refl

  pub reconcile_pending-Moves :
      (mission : Mission m.Conditions)
      → mission.status.phase ≡ pending
      → Moves (view m mission) (view m (reconcile_pending w mission).mission)
  unfolding reconcile_pending
  reconcile_pending-Moves mission h = settle_pending-Moves _ _ _ mission h

  next_phase_cases :
      (mission : Mission m.Conditions)
      → (next_phase_after_provisioning mission ≡ planning)
        ⊎ (next_phase_after_provisioning mission ≡ assembling)
  unfolding next_phase_after_provisioning
  next_phase_cases mission = ground arith

  onward-Moves :
      (outcome : Option ApiError → Outcome) (mission : Mission m.Conditions)
      → mission.status.phase ≡ provisioning
      → Moves (view m mission) (
          view m
            (save w (set_phase (next_phase_after_provisioning mission) mission) outcome []).mission)
  unfolding view save set_phase
  onward-Moves outcome mission h =
      provide h (next_phase_after_provisioning mission) (next_phase_cases mission) refl

  create_own_table-view :
      (names : OwnNames) (mission : Mission m.Conditions)
      → view m (create_own_table w names mission).mission ≡ view m mission
  unfolding create_own_table build_ephemeral_round_table with_shared view save
  create_own_table-view names mission = ground arith

  provision_table-view :
      (names : OwnNames) (mission : Mission m.Conditions)
      → let t = (provision_table w names mission).mission in
        (view m t ≡ view m mission)
        ⊎ (view m t ≡ record (view m mission) { phase = next_phase_after_provisioning mission })
  unfolding provision_table view save set_phase
  provision_table-view names mission = ground (arith, create_own_table-view names mission)

  provision_own-view :
      (names : OwnNames) (mission : Mission m.Conditions)
      → let t = (provision_own w names mission).mission in
        (view m t ≡ view m mission)
        ⊎ (view m t ≡ record (view m mission) { phase = next_phase_after_provisioning mission })
  unfolding provision_own
  provision_own-view names mission = ground (arith, provision_table-view names mission)

  reconcile_provisioning-view :
      (mission : Mission m.Conditions)
      → let t = (reconcile_provisioning w mission).mission in
        (view m t ≡ view m mission)
        ⊎ (view m t ≡ record (view m mission) { phase = next_phase_after_provisioning mission })
  unfolding reconcile_provisioning view save set_phase
  reconcile_provisioning-view mission =
      ground (arith, λ (names : OwnNames). provision_own-view names mission)

  pub reconcile_provisioning-Moves :
      (mission : Mission m.Conditions)
      → mission.status.phase ≡ provisioning
      → Moves (view m mission) (view m (reconcile_provisioning w mission).mission)
  unfolding view
  reconcile_provisioning-Moves mission h = elim (reconcile_provisioning-view mission) [
    | inl e ↦ stay e
    | inr e ↦ provide h (next_phase_after_provisioning mission) (next_phase_cases mission) e
  ]

  -- A mission that is briefed has its chains started and goes on, or stays.
  activate-view :
      (mission : Mission m.Conditions)
      → let t = (activate m w mission).mission in
        (view m t ≡ view m mission) ⊎ (view m t ≡ record (view m mission) { phase = active })
  unfolding activate view save set_phase
  activate-view mission = ground arith

  activated :
      (noted mission : Mission m.Conditions)
      → view m noted ≡ view m mission
      → let t = (activate m w noted).mission in
        (view m t ≡ view m mission) ⊎ (view m t ≡ record (view m mission) { phase = active })
  activated noted mission e = rw (← e) (activate-view noted)

  briefing_failed-view :
      (error : Str) (mission : Mission m.Conditions)
      → view m (briefing_failed m w error mission).mission ≡ view m mission
  unfolding briefing_failed save
  briefing_failed-view error mission = rw (view-observe m, view-briefing_published m) refl

  brief-view :
      (result : Option Str × List (MissionEffect m.Conditions)) (mission : Mission m.Conditions)
      → let t = (settle_briefing m w result mission).mission in
        (view m t ≡ view m mission) ⊎ (view m t ≡ record (view m mission) { phase = active })
  unfolding settle_briefing
  brief-view (some e, effects) mission = inl (briefing_failed-view e mission)
  brief-view (none, effects) mission =
      activated (note_briefing m w mission) mission (view-briefing_published m _ _ _ _ mission)

  reconcile_briefing-view :
      (mission : Mission m.Conditions)
      → let t = (reconcile_briefing m w mission).mission in
        (view m t ≡ view m mission) ⊎ (view m t ≡ record (view m mission) { phase = active })
  unfolding reconcile_briefing
  reconcile_briefing-view mission = elim (Bool-cases (is_empty mission.spec.briefing)) [
    | inr e ↦ rw e (brief-view (publish_briefing w mission) mission)
    | inl e ↦ rw e (
        activated (note_no_briefing m w mission) mission
          (view-briefing_published m _ _ _ _ mission))
  ]

  pub reconcile_briefing-Moves :
      (mission : Mission m.Conditions)
      → mission.status.phase ≡ briefing
      → Moves (view m mission) (view m (reconcile_briefing m w mission).mission)
  unfolding view
  reconcile_briefing-Moves mission h = elim (reconcile_briefing-view mission) [
    | inl e ↦ stay e
    | inr e ↦ goes_active h e
  ]

  time_out_assembly-view :
      (names : List Str) (mission : Mission m.Conditions)
      → view m (time_out_assembly m w names mission).mission
        ≡ record (view m mission) { phase = failed }
  unfolding time_out_assembly save
  time_out_assembly-view names mission = rw (view-knights_ready m, view-set_failed m) refl

  all_assembled-view :
      (total : ℕ) (mission : Mission m.Conditions)
      → view m (all_assembled m w total mission).mission
        ≡ record (view m mission) { phase = briefing }
  unfolding all_assembled
  all_assembled-view total mission = rw (view-set_phase m, view-knights_ready m) refl

  view-with_assembly :
      (entries : List MissionKnightStatus) (mission : Mission m.Conditions)
      → view m (with_assembly m w entries mission) ≡ view m mission
  unfolding with_assembly view
  view-with_assembly entries mission = refl

  settle_assembly-view :
      (total : ℕ) (mission : Mission m.Conditions) (a : Assembled w)
      → let t = (settle_assembly m w total mission a).mission in
        (view m t ≡ view m mission)
        ⊎ (view m t ≡ record (view m mission) { phase = briefing })
        ⊎ (view m t ≡ record (view m mission) { phase = failed })
  unfolding settle_assembly
  settle_assembly-view total mission (errs e effects) = inl refl
  settle_assembly-view total mission (lacks name effects) =
      inl (rw (view-observe m, view-knights_ready m) refl)
  settle_assembly-view total mission (goes a) =
      let mission' = with_assembly m w a.statuses mission in
      ground (
        arith,
        time_out_assembly-view a.not_ready mission',
        all_assembled-view total mission',
        view-with_assembly a.statuses mission,
      )

  run_assembly-view :
      (knights : List MissionKnight) (mission : Mission m.Conditions)
      → let t = (run_assembly m w knights mission).mission in
        (view m t ≡ view m mission)
        ⊎ (view m t ≡ record (view m mission) { phase = briefing })
        ⊎ (view m t ≡ record (view m mission) { phase = failed })
  unfolding run_assembly
  run_assembly-view knights mission =
      settle_assembly-view (length knights) mission
        (assemble_knights w mission knights (assembly_start w mission))

  assemble-view :
      (mission : Mission m.Conditions)
      → let t = (assemble m w mission).mission in
        (view m t ≡ view m mission)
        ⊎ (view m t ≡ record (view m mission) { phase = briefing })
        ⊎ (view m t ≡ record (view m mission) { phase = failed })
  unfolding assemble with_account
  assemble-view mission =
      ground
        (arith, run_assembly-view (mission.spec.knights ++ mission.spec.generated_knights) mission)

  mission-assembled_run :
      (outcome : Outcome) (run : MissionRun m.Conditions)
      → (assembled_run m w outcome run).mission ≡ run.mission
  unfolding assembled_run save_assembly
  mission-assembled_run outcome run = ground arith

  pub reconcile_assembling-Moves :
      (mission : Mission m.Conditions)
      → mission.status.phase ≡ assembling
      → Moves (view m mission) (view m (reconcile_assembling m w mission).mission)
  unfolding reconcile_assembling
  reconcile_assembling-Moves mission h =
      let run = assemble m w mission in
      rw (mission-assembled_run run.outcome run) (elim (assemble-view mission) [
        | inl e ↦ stay e
        | inr (inl e) ↦ unfold view in goes_on h e
        | inr (inr e) ↦ unfold view in give_up h e
      ])
