-- ===== src/Mission/Reconcile/Expired.antt =====
-- The phase Expired after the cleanup.
use roundtable.Prelude.{◌≡◌, refl, sym, ap, ◌∙◌, true, false, [], ◌∷◌, none, some, arith}
use roundtable.Util.Strings.{contains_string}
use roundtable.Api.Meta.{cleanup_complete, StatusConditions}
use roundtable.Api.Phase.{expired, cleaning_up, MissionPhase}
use roundtable.Api.Mission.{Mission}
use roundtable.Chain.Notification.{webhook_of}
use roundtable.Mission.World.{updated_mission_status, MissionWorld, Money}
use roundtable.Mission.Run.{save, set_phase}
use roundtable.Mission.Outcome.{is_true, terminal_outcome}
use roundtable.Mission.Cleanup.{
  is_delete_policy, leave, transition_to_terminal_phase, reconcile_cleaning_up,
}
use roundtable.Mission.Reconcile.{
  Planner, mission_finalizer, leave_expired, run_phase, reconcile_mission,
}
use roundtable.Mission.Reconcile.Laws.{reconcile_mission-run_phase}
use roundtable.Mission.View.{view}
use roundtable.Mission.View.Refine.{view-set_phase}
use roundtable.Mission.View.Refine.Cleanup.{terminal_outcome-verdict}

module _ (m : StatusConditions) (money : Money) (w : MissionWorld m.Conditions)
    (p : Planner m) where
  -- The mission after its phase Expired was left.
  abbrev left : Mission m.Conditions → Mission m.Conditions
  left mission = record mission { status = record (mission.status) { phase = cleaning_up } }

  leave_once :
      (mission : Mission m.Conditions)
      → mission.deleting ≡ false
      → contains_string mission.finalizers mission_finalizer ≡ true
      → mission.status.phase ≡ expired
      → webhook_of mission.spec.notify ≡ none
      → (reconcile_mission m money w p mission).mission ≡ left mission
  unfolding run_phase leave_expired save
  leave_once mission d f e n =
      ground (arith, reconcile_mission-run_phase m money w p mission d f (ground (arith, e)) n)

  return_once :
      (mission : Mission m.Conditions)
      → mission.deleting ≡ false
      → contains_string mission.finalizers mission_finalizer ≡ true
      → mission.status.phase ≡ cleaning_up
      → webhook_of mission.spec.notify ≡ none
      → is_true m mission.status.conditions cleanup_complete ≡ true
      → is_delete_policy mission.spec.cleanup_policy ≡ false
      → let run = reconcile_mission m money w p mission in
        let over = set_phase (terminal_outcome m mission) mission in
        (run.mission ≡ over) × (run.effects ≡ updated_mission_status over ∷ [])
  unfolding run_phase reconcile_cleaning_up transition_to_terminal_phase leave set_phase
  return_once mission d f e n c k =
      ground (arith, reconcile_mission-run_phase m money w p mission d f (ground (arith, e)) n)

module _ (m : StatusConditions) (money : Money) (w w' : MissionWorld m.Conditions)
    (p p' : Planner m) where
  -- A mission in the phase Expired that is cleaned up, that no webhook is to be told of and that is
  -- not deleted by its policy is never at rest, in whatever outside worlds its passes run: one pass
  -- moves it to CleaningUp, and the next, which does nothing but write the status, back to Expired.
  pub reconcile_mission-expired_again :
      (mission : Mission m.Conditions)
      → mission.deleting ≡ false
      → contains_string mission.finalizers mission_finalizer ≡ true
      → mission.status.phase ≡ expired
      → webhook_of mission.spec.notify ≡ none
      → is_true m mission.status.conditions cleanup_complete ≡ true
      → (view m mission).verdict ≡ some expired
      → is_delete_policy mission.spec.cleanup_policy ≡ false
      → let once = (reconcile_mission m money w p mission).mission in
        let next = reconcile_mission m money w' p' once in
        (once.status.phase ≡ cleaning_up)
        × (view m next.mission ≡ view m mission)
        × (next.effects ≡ updated_mission_status next.mission ∷ [])
  unfolding view
  reconcile_mission-expired_again mission d f e n c v k =
      let once = left m money w p mission in
      let first = leave_once m money w p mission d f e n in
      let (over, alone) = return_once m money w' p' once d f refl n c k in
      let back : terminal_outcome m once ≡ expired =
        terminal_outcome-verdict m w once expired refl v in
      rw first (
        refl,
        ap (λ (t : Mission m.Conditions). view m t) over
            ∙ view-set_phase m _ once
            ∙ ap (λ (q : MissionPhase). record (view m mission) { phase = q }) (back ∙ sym e),
        alone ∙ ap (λ (t : Mission m.Conditions). updated_mission_status t ∷ []) (sym over),
      )
