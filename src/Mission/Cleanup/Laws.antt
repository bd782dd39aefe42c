-- ===== src/Mission/Cleanup/Laws.antt =====
-- What a cleanup deletes, and when it is marked as complete.
use roundtable.Prelude.{
  ◌≡◌, refl, ◌∙◌, inl, inr, Bool, true, false, List, [], ◌∷◌, Option, none, some, Str, bytes,
  str_eq, Bool-cases, both_branches, All, All-append, arith,
}
use roundtable.Api.Meta.{Answer, found, failed as call_failed, cleanup_complete, StatusConditions}
use roundtable.Api.Chain.{Chain}
use roundtable.Api.Mission.{MissionChainRef, Mission}
use roundtable.Chain.World.{deleted_consumer}
use roundtable.Mission.World.{
  teardown, MissionEffect, shared, deleted_mission, deleted_knight, deleted_round_table,
  deleted_stream, MissionWorld,
}
use roundtable.Mission.Run.{set_phase, set_condition}
use roundtable.Mission.Outcome.{is_true, should_delete_resources}
use roundtable.Mission.Results.{retain_results, store_results_to_kv, put_results, set_results}
use roundtable.Mission.Cleanup.{
  leave, transition_to_terminal_phase, note_cleanup, settle_deletion, clean_up, tear_down,
  tear_down_chain, reconcile_cleaning_up, clean_unless_waiting,
}

module _ {C : Type 0} where
  -- The deletion of a resource of the mission, or of the mission.
  unfoldable pub is_deletion : MissionEffect C → Bool
  is_deletion (deleted_mission mission) = true
  is_deletion (deleted_knight name) = true
  is_deletion (deleted_round_table name) = true
  is_deletion (deleted_stream stream) = true
  is_deletion (shared (deleted_consumer stream consumer)) = true
  is_deletion _ = false

  abbrev pub DeletesNothing : List (MissionEffect C) → Type 0
  DeletesNothing = All (λ e. is_deletion e ≡ false)

module _ {C : Type 0} (w : MissionWorld C) where
  retain_results-DeletesNothing :
      (mission : Mission C) → DeletesNothing (retain_results w mission).1
  unfolding retain_results store_results_to_kv put_results is_deletion
  retain_results-DeletesNothing mission = ground arith

  policy-retain_results :
      (mission : Mission C)
      → (retain_results w mission).0.spec.cleanup_policy ≡ mission.spec.cleanup_policy
  unfolding retain_results store_results_to_kv put_results set_results
  policy-retain_results mission = ground arith

  -- The effects, where there are some, delete nothing.
  abbrev Harmless : Option (List (MissionEffect C)) → Type 0
  Harmless none = Unit
  Harmless (some effects) = DeletesNothing effects

  tear_down_chain-Harmless : (chain : Chain C) → Harmless (tear_down_chain w chain)
  unfolding tear_down_chain is_deletion
  tear_down_chain-Harmless chain = ground arith

  tear_down-Harmless :
      (namespace : Str) (refs : List MissionChainRef) → Harmless (tear_down w namespace refs)
  unfolding tear_down
  tear_down-Harmless namespace [] = tt
  tear_down-Harmless namespace (ref ∷ refs) =
      both_branches Harmless _ _ _ (tear_down-Harmless namespace refs)
        (waited (w.get_chain teardown namespace ref.name) _ (tear_down-Harmless namespace refs))
    where
      first :
          (o rest : Option (List (MissionEffect C)))
          → Harmless o
          → Harmless rest
          → Harmless (elim o [ some effects ↦ some effects | none ↦ rest ])
      first none rest h h' = h'
      first (some effects) rest h h' = h

      waited :
          (a : Answer (Chain C)) (rest : Option (List (MissionEffect C)))
          → Harmless rest
          → Harmless (elim a [
            | call_failed e ↦ rest
            | found chain ↦ elim (tear_down_chain w chain) [
              | some effects ↦ some effects
              | none ↦ rest
            ]
          ])
      waited (call_failed e) rest h = h
      waited (found chain) rest h =
          first (tear_down_chain w chain) rest (tear_down_chain-Harmless chain) h

module _ (m : StatusConditions) (w : MissionWorld m.Conditions) where
  transition_to_terminal_phase-DeletesNothing :
      (mission : Mission m.Conditions)
      → mission.spec.cleanup_policy ≡ bytes "Retain"
      → DeletesNothing (transition_to_terminal_phase m w mission).effects
  unfolding transition_to_terminal_phase leave set_phase is_deletion str_eq
  transition_to_terminal_phase-DeletesNothing mission h = rw h (refl, tt)

  settle_deletion-DeletesNothing :
      (mission : Mission m.Conditions)
      → mission.spec.cleanup_policy ≡ bytes "Retain"
      → DeletesNothing (settle_deletion m w (none, []) mission).effects
  unfolding settle_deletion
  settle_deletion-DeletesNothing mission h = (
    unfold is_deletion in refl,
    transition_to_terminal_phase-DeletesNothing (note_cleanup m w mission)
        (unfold set_condition in h),
  )

  clean_up-DeletesNothing :
      (mission : Mission m.Conditions)
      → mission.spec.cleanup_policy ≡ bytes "Retain"
      → DeletesNothing (clean_up m w mission).effects
  unfolding clean_up
  clean_up-DeletesNothing mission h =
      let keep : should_delete_resources m mission ≡ false =
        unfold should_delete_resources str_eq in rw h refl in
      rw keep (settle_deletion-DeletesNothing mission h)

  clean_unless_waiting-DeletesNothing :
      (o : Option (List (MissionEffect m.Conditions))) (mission : Mission m.Conditions)
      → mission.spec.cleanup_policy ≡ bytes "Retain"
      → Harmless w o
      → DeletesNothing (clean_unless_waiting m w o mission).effects
  unfolding clean_unless_waiting
  clean_unless_waiting-DeletesNothing (some waiting) mission h k =
      All-append (λ e. is_deletion e ≡ false) waiting [] k tt
  clean_unless_waiting-DeletesNothing none mission h k =
      let (retained, effects) = retain_results w mission in
      All-append (λ e. is_deletion e ≡ false) effects (clean_up m w retained).effects
        (retain_results-DeletesNothing w mission)
        (clean_up-DeletesNothing retained (policy-retain_results w mission ∙ h))

  -- Under the policy Retain a cleanup deletes nothing: no knight, consumer, stream or round table, and
  -- not the mission.
  pub reconcile_cleaning_up-DeletesNothing :
      (mission : Mission m.Conditions)
      → mission.spec.cleanup_policy ≡ bytes "Retain"
      → DeletesNothing (reconcile_cleaning_up m w mission).effects
  unfolding reconcile_cleaning_up
  reconcile_cleaning_up-DeletesNothing mission h =
      elim (Bool-cases (is_true m mission.status.conditions cleanup_complete)) [
        | inl e ↦ rw e (transition_to_terminal_phase-DeletesNothing mission h)
        | inr e ↦ rw e (
            clean_unless_waiting-DeletesNothing (tear_down w mission.namespace mission.spec.chains)
              mission h (tear_down-Harmless w mission.namespace mission.spec.chains))
      ]
