-- ===== src/Mission/Cleanup.antt =====
-- `reconcileCleaningUp`, and the return to the terminal phase.
use roundtable.Prelude.{
  ℕ, ◌-◌, Bool, true, false, ◌&&◌, ◌||◌, not, List, [], ◌∷◌, ◌++◌, Option, none, some, Str, bytes,
  ◌⊎◌, inl, inr, is_empty, str_eq, ltb, if◌then◌else◌,
}
use roundtable.Api.Meta.{
  ApiError, not_found, Answer, found, failed as call_failed, Error, api, wrapped, condition_true,
  cleanup_complete, cleaned_up, plain_message, StatusConditions,
}
use roundtable.Api.Chain.{ChainPhase, Chain}
use roundtable.Api.Phase.{MissionPhase}
use roundtable.Api.Mission.{MissionKnightStatus, MissionChainRef, Mission}
use roundtable.Chain.World.{updated_status, deleted_consumer}
use roundtable.Chain.Run.{Outcome, requeue_default}
use roundtable.Mission.World.{
  Read, teardown, removal, MissionNats, MissionEffect, shared, updated_mission_status,
  deleted_mission, deleted_knight, deleted_round_table, deleted_stream, mission_event,
  resources_cleaned_up, MissionWorld,
}
use roundtable.Mission.Run.{
  MissionRun, requeue_moderate, requeue_in, finished, outcome_of, mission_ends, mission_after,
  set_phase, set_condition,
}
use roundtable.Mission.Outcome.{is_true, terminal_outcome, should_delete_resources}
use roundtable.Mission.Chains.{start_chain}
use roundtable.Mission.Results.{retain_results}
pub mod Laws
pub mod Gone

abbrev pub is_delete_policy : Str → Bool
is_delete_policy policy = str_eq policy (bytes "Delete")

-- The TTL is over.
unfoldable pub has_expired : (now : ℕ) → (expires_at : Option ℕ) → Bool
has_expired now none = false
has_expired now (some at) = ltb at now

unfoldable pub remaining : (now : ℕ) → (expires_at : Option ℕ) → ℕ
remaining now none = 0
remaining now (some at) = at - now

module _ {C : Type 0} (w : MissionWorld C) where
  -- The first error of some calls, and their effects.
  pub record Removal : Type 0 where
    pub failed : Bool
    pub effects : List (MissionEffect C)

  abbrev pub removed : List (MissionEffect C) → Removal
  removed effects = record { failed = false; effects = effects }

  abbrev pub then_remove : Removal → Removal → Removal
  then_remove one rest =
      if one.failed
      then one
      else record { failed = rest.failed; effects = one.effects ++ rest.effects }

  -- A delete, by its answer.
  abbrev pub delete_answer : MissionEffect C → Option ApiError → Removal
  delete_answer effect none = record { failed = false; effects = effect ∷ [] }
  delete_answer effect (some e) = record { failed = true; effects = effect ∷ [] }

  unfoldable pub delete_knight_of : (namespace mission name : Str) → Removal
  delete_knight_of namespace mission name =
      let knight = mission ++ bytes "-" ++ name in
      elim (w.get_knight removal namespace knight) [
        | call_failed not_found ↦ removed []
        | call_failed e ↦ record { failed = true; effects = [] }
        | found k ↦ delete_answer (deleted_knight knight) (w.delete_knight namespace knight)
      ]

  unfoldable pub delete_ephemeral_knights :
      (namespace mission : Str) → List MissionKnightStatus → Removal
  unfolding delete_knight_of
  delete_ephemeral_knights namespace mission [] = removed []
  delete_ephemeral_knights namespace mission (ks ∷ statuses) =
      let rest = delete_ephemeral_knights namespace mission statuses in
      let joined = then_remove (delete_knight_of namespace mission ks.name) rest in
      if ks.ephemeral then joined else rest

  abbrev pub consumer_of : (stream consumer : Str) → List (MissionEffect C)
  consumer_of stream consumer =
      if is_empty stream then [] else shared (deleted_consumer stream consumer) ∷ []

  unfoldable pub consumers_of :
      (mission tasks_stream results_stream : Str)
      → List MissionKnightStatus
      → List (MissionEffect C)
  consumers_of mission tasks_stream results_stream [] = []
  consumers_of mission tasks_stream results_stream (ks ∷ statuses) =
      let rest = consumers_of mission tasks_stream results_stream statuses in
      let consumer = bytes "msn-" ++ mission ++ bytes "-" ++ ks.name in
      if ks.ephemeral
      then consumer_of tasks_stream consumer ++ consumer_of results_stream consumer ++ rest
      else rest

  -- Best effort: the answers are not looked at.
  unfoldable pub delete_nats_consumers : Mission C → List (MissionEffect C)
  unfolding consumers_of
  delete_nats_consumers mission = elim w.nats_client [
    | inl e ↦ []
    | inr client ↦
        consumers_of mission.name mission.status.nats_tasks_stream
          mission.status.nats_results_stream mission.status.knight_statuses
  ]

  unfoldable pub delete_stream_of : MissionNats C → (stream : Str) → Removal
  delete_stream_of client stream =
      if is_empty stream then removed [] else elim (client.delete_stream stream) [
        | none ↦ record { failed = false; effects = deleted_stream stream ∷ [] }
        | some e ↦ record { failed = true; effects = deleted_stream stream ∷ [] }
      ]

  -- With both names empty, which is tested before, nothing is done either.
  unfoldable pub delete_nats_streams : Mission C → Removal
  unfolding delete_stream_of
  delete_nats_streams mission = elim w.nats_client [
    | inl e ↦ removed []
    | inr client ↦
        then_remove (delete_stream_of client mission.status.nats_tasks_stream)
          (delete_stream_of client mission.status.nats_results_stream)
  ]

  unfoldable pub delete_ephemeral_round_table : Mission C → Removal
  delete_ephemeral_round_table mission =
      let name = mission.status.round_table_name in
      if is_empty name
      then removed []
      else elim (w.get_round_table removal mission.namespace name) [
        | call_failed not_found ↦ removed []
        | call_failed e ↦ record { failed = true; effects = [] }
        | found table ↦
            delete_answer (deleted_round_table name) (w.delete_round_table mission.namespace name)
      ]

  -- The deletions, in order: the delay after which to try again, if one failed, and the effects.
  unfoldable pub delete_resources : Mission C → Option ℕ × List (MissionEffect C)
  unfolding delete_ephemeral_knights delete_nats_consumers delete_nats_streams
      delete_ephemeral_round_table
  delete_resources mission =
      let knights =
        delete_ephemeral_knights mission.namespace mission.name mission.status.knight_statuses in
      let consumers = delete_nats_consumers mission in
      let streams = delete_nats_streams mission in
      let table = delete_ephemeral_round_table mission in
      if knights.failed
      then (some requeue_default, knights.effects)
      else if streams.failed
      then (some requeue_moderate, knights.effects ++ consumers ++ streams.effects)
      else (
        if table.failed then some requeue_default else none,
        knights.effects ++ consumers ++ streams.effects ++ table.effects,
      )

  -- A teardown chain that is waited for: the effects. `none`: there is nothing to wait for.
  unfoldable pub tear_down_chain : Chain C → Option (List (MissionEffect C))
  tear_down_chain chain = elim chain.status.phase [
    | ChainPhase.idle ↦ some (shared (updated_status (start_chain w.base.now chain)) ∷ [])
    | ChainPhase.running ↦ some []
    | _ ↦ none
  ]

  unfoldable pub tear_down :
      (namespace : Str) → List MissionChainRef → Option (List (MissionEffect C))
  unfolding tear_down_chain
  tear_down namespace [] = none
  tear_down namespace (ref ∷ refs) =
      let rest = tear_down namespace refs in
      if not (str_eq ref.phase (bytes "Teardown"))
      then rest
      else elim (w.get_chain teardown namespace ref.name) [
        | call_failed e ↦ rest
        | found chain ↦ elim (tear_down_chain chain) [ some effects ↦ some effects | none ↦ rest ]
      ]

module _ (m : StatusConditions) (w : MissionWorld m.Conditions) where
  -- The end of `transitionToTerminalPhase`.
  unfoldable pub leave : Mission m.Conditions → MissionRun m.Conditions
  unfolding has_expired remaining
  leave mission =
      let at = mission.status.expires_at in
      if is_delete_policy mission.spec.cleanup_policy
      then if has_expired w.base.now at
        then mission_after (deleted_mission mission ∷ [])
            (mission_ends (outcome_of 0 (w.delete_mission mission)) mission)
        else mission_ends (requeue_in (remaining w.base.now at)) mission
      else mission_ends finished mission

  unfoldable pub transition_to_terminal_phase : Mission m.Conditions → MissionRun m.Conditions
  unfolding leave
  transition_to_terminal_phase mission =
      let over = set_phase (terminal_outcome m mission) mission in
      mission_after (updated_mission_status over ∷ []) (leave over)

  abbrev pub note_cleanup : Mission m.Conditions → Mission m.Conditions
  note_cleanup mission =
      set_condition m w.base.now cleanup_complete cleaned_up
        (plain_message (bytes "Mission cleanup completed")) condition_true mission

  -- What the deletions came to: the delay after which to try again, and the effects.
  unfoldable pub settle_deletion :
      Option ℕ × List (MissionEffect m.Conditions) → Mission m.Conditions → MissionRun m.Conditions
  unfolding transition_to_terminal_phase
  settle_deletion (some delay, effects) mission =
      mission_after effects (mission_ends (requeue_in delay) mission)
  settle_deletion (none, effects) mission =
      mission_after (effects ++ mission_event resources_cleaned_up ∷ [])
        (transition_to_terminal_phase (note_cleanup mission))

  -- The deletions, if the policy asks for them, and the end of the cleanup.
  unfoldable pub clean_up : Mission m.Conditions → MissionRun m.Conditions
  unfolding delete_resources settle_deletion
  clean_up mission =
      settle_deletion
        (if should_delete_resources m mission then delete_resources w mission else (none, []))
        mission

  -- What the teardown chains came to.
  unfoldable pub clean_unless_waiting :
      Option (List (MissionEffect m.Conditions)) → Mission m.Conditions → MissionRun m.Conditions
  unfolding clean_up retain_results
  clean_unless_waiting (some waiting) mission =
      mission_after waiting (mission_ends (requeue_in requeue_default) mission)
  clean_unless_waiting none mission =
      let (retained, effects) = retain_results w mission in
      mission_after effects (clean_up retained)

  unfoldable pub reconcile_cleaning_up : Mission m.Conditions → MissionRun m.Conditions
  unfolding clean_unless_waiting tear_down transition_to_terminal_phase
  reconcile_cleaning_up mission =
      let run = clean_unless_waiting (tear_down w mission.namespace mission.spec.chains) mission in
      if is_true m mission.status.conditions cleanup_complete
      then transition_to_terminal_phase mission
      else run
