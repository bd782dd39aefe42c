-- ===== src/Mission/Tests/Lives.antt =====
-- Examples of the theorems on whole passes.
use roundtable.Prelude.{◌≡◌, ◌≤◌, refl, ap, ◌⊎◌, [], ◌∷◌, some, Str, bytes, str_eq, arith}
use roundtable.Util.Strings.{contains_string}
use roundtable.Api.Phase.{unset, failed, expired, cleaning_up, active, pending}
use roundtable.Api.Mission.{Mission}
use roundtable.Chain.Tests.Outside.{store, empty_store}
use roundtable.Chain.Notification.{webhook_of}
use roundtable.Mission.World.{updated_mission_status}
use roundtable.Mission.Run.{save, set_phase}
use roundtable.Mission.Outcome.{found_true, is_true}
use roundtable.Mission.Reconcile.{reconcile_mission, begin, init_mission}
use roundtable.Mission.Reconcile.Expired.{reconcile_mission-expired_again}
use roundtable.Mission.View.{Moves, agrees, IsConsistent, verdict_of, view}
use roundtable.Mission.View.Refine.Passes.{reconcile_mission-Moves}
use roundtable.Mission.View.History.{
  Passes, IsUnplanned, Changes, Passes-IsConsistent, Passes-outcome, Changes-bound,
}
use roundtable.Mission.Tests.Outside.{
  coins, realm, idle_planner, quest, recorded, expired_and_clean,
}

abbrev delete : Str
delete = bytes "Delete"

reconcile_mission-Moves_example : Moves (view store (quest active delete empty_store)) (
    view store
      (reconcile_mission store coins realm idle_planner (quest active delete empty_store)).mission)
reconcile_mission-Moves_example =
    reconcile_mission-Moves store coins realm idle_planner (quest active delete empty_store)

fresh-IsConsistent : IsConsistent (view store (quest unset delete empty_store))
unfolding view verdict_of agrees is_true found_true
fresh-IsConsistent = record { agreeing = refl; uncleaned = λ e. refl }

recorded-IsConsistent : IsConsistent (view store (quest failed delete recorded))
unfolding view verdict_of agrees is_true found_true
recorded-IsConsistent = record { agreeing = refl; uncleaned = λ e. refl }

Passes-IsConsistent_example : IsConsistent (
    view store
      (reconcile_mission store coins realm idle_planner (quest unset delete empty_store)).mission)
unfolding IsUnplanned
Passes-IsConsistent_example =
    Passes-IsConsistent store coins (quest unset delete empty_store) fresh-IsConsistent
      (Passes.pass Passes.here realm idle_planner) (tt, λ e. ground (arith, e))

abbrev next : Mission store.Conditions
next = (reconcile_mission store coins realm idle_planner (quest failed delete recorded)).mission

recorded_failed : (view store (quest failed delete recorded)).verdict ≡ some failed
unfolding view verdict_of is_true found_true
recorded_failed = refl

Passes-outcome_example :
    (next.status.phase ≡ failed) ⊎ (next.status.phase ≡ cleaning_up) ⊎ (next.status.phase ≡ expired)
Passes-outcome_example =
    Passes-outcome store coins (quest failed delete recorded) failed recorded-IsConsistent
      recorded_failed (Passes.pass Passes.here realm idle_planner)

abbrev started : Mission store.Conditions
started =
    (reconcile_mission store coins realm idle_planner (quest unset delete empty_store)).mission

started_pending : started.status.phase ≡ pending
unfolding reconcile_mission begin init_mission save set_phase contains_string str_eq view
started_pending = refl

Changes-bound_example : 1 ≤ 11
unfolding view
Changes-bound_example =
    Changes-bound store coins (quest unset delete empty_store) fresh-IsConsistent (
      Changes.change Changes.here realm idle_planner (λ e. ground (arith, e))
        (λ e. ground (arith, e)) (λ e. ground (arith, e, started_pending, ap (λ v. v.phase) e)))

abbrev ended : Mission store.Conditions
ended = quest expired (bytes "Retain") expired_and_clean

reconcile_mission-expired_again_example :
    let once = (reconcile_mission store coins realm idle_planner ended).mission in
    let again = reconcile_mission store coins realm idle_planner once in
    (once.status.phase ≡ cleaning_up)
    × (view store again.mission ≡ view store ended)
    × (again.effects ≡ updated_mission_status again.mission ∷ [])
unfolding contains_string str_eq webhook_of view verdict_of is_true found_true
reconcile_mission-expired_again_example =
    reconcile_mission-expired_again store coins realm realm idle_planner idle_planner ended refl
      refl refl refl refl refl refl
