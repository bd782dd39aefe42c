-- ===== src/Mission/Tests/Handlers.antt =====
-- Examples of the theorems on the handlers of the phases.
use roundtable.Prelude.{◌≡◌, ◌↔◌, refl, ap, true, [], ◌∷◌, ◌||◌, Str, bytes, str_eq, All}
use roundtable.Util.Strings.{contains_string}
use roundtable.Util.Strings.Distinct.{Distinct}
use roundtable.Api.Meta.{cleanup_complete, cleaned_up, plain_message, Condition}
use roundtable.Api.Phase.{
  pending, provisioning, assembling, briefing, active, succeeded, cleaning_up,
}
use roundtable.Chain.Tests.Outside.{store, empty_store}
use roundtable.Api.Mission.{Mission}
use roundtable.Mission.Run.{save, set_phase, set_condition}
use roundtable.Mission.Outcome.{is_true, found_true, should_delete_resources}
use roundtable.Mission.Pending.Laws.{IsValidSpec, reconcile_pending_iff}
use roundtable.Mission.Pending.{reconcile_pending}
use roundtable.Mission.Assembler.Label.{sanitize_label_value}
use roundtable.Mission.Assembler.Label.Laws.{IsLabelValue, sanitize_label_value-IsLabelValue}
use roundtable.Mission.Assembler.Knights.{mission_knight_spec, has_secret}
use roundtable.Mission.Assembler.Knights.Laws.{secret_names, mission_knight_spec-secrets}
use roundtable.Mission.Assembler.Assembling.{assemble}
use roundtable.Mission.Assembler.Assembling.Laws.{is_ready_for, assemble-ready}
use roundtable.Mission.Chains.{is_active_ref}
use roundtable.Mission.Chains.Laws.{HasSucceeded}
use roundtable.Mission.Active.{reconcile_active}
use roundtable.Mission.Active.Laws.{reconcile_active-HasSucceeded}
use roundtable.Mission.Cleanup.{reconcile_cleaning_up, clean_up}
use roundtable.Mission.Cleanup.Laws.{DeletesNothing, reconcile_cleaning_up-DeletesNothing}
use roundtable.Mission.Cleanup.Gone.{is_gone_knight, AreStreamsGone, is_gone_table, clean_up-gone}
use roundtable.Mission.Tests.Outside.{
  coins, realm, quest, table, knight_spec, recruit_of, grail, marked,
}

abbrev delete : Str
delete = bytes "Delete"

sanitize_label_value-IsLabelValue_example :
    IsLabelValue (sanitize_label_value (bytes "_the grail!"))
sanitize_label_value-IsLabelValue_example = sanitize_label_value-IsLabelValue (bytes "_the grail!")

reconcile_pending_iff_example :
    ((reconcile_pending realm (quest pending delete empty_store)).mission.status.phase
      ≡ provisioning)
    ↔ IsValidSpec realm (bytes "prod") (grail delete)
reconcile_pending_iff_example = reconcile_pending_iff realm (quest pending delete empty_store) refl

reconcile_cleaning_up-DeletesNothing_example :
    DeletesNothing
      (reconcile_cleaning_up store realm (quest cleaning_up (bytes "Retain") empty_store)).effects
reconcile_cleaning_up-DeletesNothing_example =
    reconcile_cleaning_up-DeletesNothing store realm
      (quest cleaning_up (bytes "Retain") empty_store) refl

mission_knight_spec-secrets_example :
    let sources =
      (mission_knight_spec
        (quest assembling delete empty_store)
        (recruit_of (bytes "galahad"))
        table
        knight_spec).env_from in
    Distinct (secret_names sources)
    × ((n : Str)
        → has_secret sources n ≡ (
            has_secret knight_spec.env_from n
            || contains_string table.spec.secrets n
            || contains_string (grail delete).secrets n))
unfolding contains_string
mission_knight_spec-secrets_example =
    mission_knight_spec-secrets (quest assembling delete empty_store) (recruit_of (bytes "galahad"))
      table knight_spec (refl, tt)

won :
    (reconcile_active store coins realm (quest active delete empty_store)).mission.status.phase
    ≡ succeeded
unfolding save set_condition reconcile_active str_eq
won = refl

reconcile_active-HasSucceeded_example :
    All
      (λ ref.
        is_active_ref ref.phase ≡ true
        → HasSucceeded store realm (bytes "prod") (bytes "grail") ref)
      (grail delete).chains
reconcile_active-HasSucceeded_example =
    reconcile_active-HasSucceeded store coins realm (quest active delete empty_store) refl won

assembled :
    (assemble store realm (quest assembling delete empty_store)).mission.status.phase ≡ briefing
unfolding save set_phase assemble
assembled = refl

assemble-ready_example :
    All
      (λ mk. is_ready_for realm (quest assembling delete empty_store) mk ≡ true)
      (recruit_of (bytes "galahad") ∷ [])
assemble-ready_example =
    assemble-ready store realm (quest assembling delete empty_store) refl assembled

abbrev leaving : Mission store.Conditions
leaving = quest cleaning_up delete empty_store

cleaned :
    is_true store (clean_up store realm leaving).mission.status.conditions cleanup_complete ≡ true
unfolding is_true found_true clean_up set_phase set_condition should_delete_resources str_eq
cleaned =
    let c : Condition = record (marked cleanup_complete cleaned_up) {
      message = plain_message (bytes "Mission cleanup completed");
    } in
    ap found_true (store.find-set 1000 empty_store c).1

clean_up-gone_example :
    All
      (λ ks. ks.ephemeral ≡ true → is_gone_knight realm (bytes "prod") (bytes "grail") ks ≡ true)
      leaving.status.knight_statuses
    × AreStreamsGone realm leaving
    × (is_gone_table realm (bytes "prod") (bytes "mission-grail") ≡ true)
unfolding should_delete_resources is_true found_true str_eq
clean_up-gone_example = clean_up-gone store realm leaving refl refl cleaned
