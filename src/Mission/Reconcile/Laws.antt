-- ===== src/Mission/Reconcile/Laws.antt =====
-- Passes over a mission that has expired, and over one that is due a notification.
use roundtable.Prelude.{◌≡◌, true, false, none, arith}
use roundtable.Util.Strings.{contains_string}
use roundtable.Api.Meta.{StatusConditions}
use roundtable.Api.Mission.{Mission}
use roundtable.Chain.Notification.{webhook_of}
use roundtable.Mission.World.{MissionWorld, Money}
use roundtable.Mission.Notify.{due_webhook, notify_due, notify_mission}
use roundtable.Mission.Reconcile.{
  Planner, mission_finalizer, is_cleaning, run_phase, proceed, begin, reconcile_mission,
}

module _ (m : StatusConditions) (money : Money) (w : MissionWorld m.Conditions)
    (p : Planner m) where
  -- A pass over a mission that has its finalizer, a phase and nothing to notify.
  pub reconcile_mission-run_phase :
      (mission : Mission m.Conditions)
      → mission.deleting ≡ false
      → contains_string mission.finalizers mission_finalizer ≡ true
      → is_cleaning mission.status.phase ≡ true
      → webhook_of mission.spec.notify ≡ none
      → reconcile_mission m money w p mission ≡ run_phase m money w p mission.status.phase mission
  unfolding reconcile_mission begin proceed notify_mission due_webhook notify_due
  reconcile_mission-run_phase mission h h' c n = ground arith
