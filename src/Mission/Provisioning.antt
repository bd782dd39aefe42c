-- ===== src/Mission/Provisioning.antt =====
-- `reconcileProvisioning`.
use roundtable.Prelude.{
  Bool, true, false, not, List, [], ◌∷◌, ◌++◌, Option, none, some, Str, bytes, is_empty, length,
  take, leb, ◌==◌, if◌then◌else◌, map,
}
use roundtable.Api.Meta.{ApiError, not_found, conflict, found, failed as call_failed, api, wrapped}
use roundtable.Api.Phase.{MissionPhase, planning, assembling}
use roundtable.Api.RoundTable.{RoundTablePhase, ready}
use roundtable.Api.Mission.{MissionKnight, Mission}
use roundtable.Chain.Run.{Outcome, panicked, requeue_fast, returned, requeue_now}
use roundtable.Mission.World.{own_table, created_round_table, MissionWorld}
use roundtable.Mission.Run.{
  MissionRun, requeue_medium, requeue_in, fails_with, outcome_of, mission_ends, mission_after,
  set_phase, save,
}
use roundtable.Mission.Assembler.Setup.{
  ensure_mission_service_account, ensure_mission_network_policy, build_ephemeral_round_table,
}

unfoldable pub any_ephemeral : List MissionKnight → Bool
any_ephemeral [] = false
any_ephemeral (mk ∷ knights) =
    let rest = any_ephemeral knights in if mk.ephemeral then true else rest

-- `strings.ReplaceAll(s, "-", "_")`
unfoldable pub underscored : Str → Str
underscored = map (λ c. if c == b'-' then b'_' else c)

-- `string(uid)[:8]`, which panics on a shorter one.
unfoldable pub uid8 : Str → Option Str
uid8 uid = if leb 8 (length uid) then some (take 8 uid) else none

-- The names of what is made for a mission.
pub record OwnNames : Type 0 where
  pub table : Str
  pub prefix : Str
  pub account : Str
  pub tasks_stream : Str
  pub results_stream : Str

unfoldable pub own_names : (mission uid8 : Str) → OwnNames
unfolding underscored
own_names mission uid8 =
    let stream = bytes "msn_" ++ underscored mission ++ bytes "_" ++ uid8 in
    record {
      table = bytes "mission-" ++ mission ++ bytes "-" ++ uid8;
      prefix = bytes "msn-" ++ mission ++ bytes "-" ++ uid8;
      account = bytes "mission-" ++ mission;
      tasks_stream = stream ++ bytes "_tasks";
      results_stream = stream ++ bytes "_results";
    }

-- A write whose error is wrapped.
abbrev pub wrapped_outcome : (context : Str) → Outcome → Option ApiError → Outcome
wrapped_outcome context outcome none = outcome
wrapped_outcome context outcome (some e) = fails_with (wrapped context (api e))

-- The same, where a conflict is tried again.
abbrev pub provisioned_outcome : Option ApiError → Outcome
provisioned_outcome (some conflict) = returned requeue_now none
provisioned_outcome answer =
    wrapped_outcome (bytes "failed to transition to Assembling") (returned requeue_now none) answer

abbrev pub is_ready_table : RoundTablePhase → Bool
is_ready_table ready = true
is_ready_table _ = false

module _ {C : Type 0} where
  unfoldable pub next_phase_after_provisioning : Mission C → MissionPhase
  next_phase_after_provisioning mission = if mission.spec.meta_mission then planning else assembling

module _ {C : Type 0} (w : MissionWorld C) where
  unfoldable pub create_own_table : OwnNames → Mission C → MissionRun C
  unfolding build_ephemeral_round_table
  create_own_table names mission =
      let (table, mission') =
        build_ephemeral_round_table w mission names.table names.prefix names.tasks_stream
          names.results_stream in
      let recorded : Mission C = record mission' {
        status = record (mission'.status) {
          round_table_name = names.table;
          nats_tasks_stream = names.tasks_stream;
          nats_results_stream = names.results_stream;
          observed_generation = mission'.generation;
        };
      } in
      mission_after (created_round_table table ∷ []) (elim (w.create_round_table table) [
        | some e ↦
            mission_ends
              (fails_with (wrapped (bytes "failed to create ephemeral RoundTable") (api e)))
              mission'
        | none ↦
            save w recorded
              (wrapped_outcome (bytes "failed to update mission status")
                (requeue_in requeue_medium))
              []
      ])

  unfoldable pub provision_table : OwnNames → Mission C → MissionRun C
  unfolding create_own_table next_phase_after_provisioning
  provision_table names mission = elim (w.get_round_table own_table mission.namespace names.table) [
    | call_failed not_found ↦ create_own_table names mission
    | call_failed e ↦
        mission_ends (fails_with (wrapped (bytes "failed to get ephemeral RoundTable") (api e)))
          mission
    | found table ↦
        if is_ready_table table.phase
        then save w (set_phase (next_phase_after_provisioning mission) mission) provisioned_outcome
            []
        else mission_ends (requeue_in requeue_medium) mission
  ]

  -- What `ensure_mission_service_account` came to, then the policy, then the table.
  unfoldable pub provision_own : OwnNames → Mission C → MissionRun C
  unfolding provision_table
  provision_own names mission =
      let account = ensure_mission_service_account w mission names.account in
      let policy = ensure_mission_network_policy w mission in
      mission_after account.effects (elim account.error [
        | some e ↦
            mission_ends (fails_with (wrapped (bytes "failed to ensure ServiceAccount") e)) mission
        | none ↦ mission_after policy.effects (elim policy.error [
          | some e ↦
              mission_ends (fails_with (wrapped (bytes "failed to ensure NetworkPolicy") e)) mission
          | none ↦ provision_table names mission
        ])
      ])

  unfoldable pub reconcile_provisioning : Mission C → MissionRun C
  unfolding any_ephemeral next_phase_after_provisioning uid8 own_names provision_own
  reconcile_provisioning mission =
      let onward =
        save w (set_phase (next_phase_after_provisioning mission) mission) (outcome_of requeue_fast)
          [] in
      let own : MissionRun C = elim (uid8 mission.uid) [
        | none ↦ mission_ends panicked mission
        | some id ↦ provision_own (own_names mission.name id) mission
      ] in
      if not (is_empty mission.spec.round_table_ref)
      then onward
      else if not (any_ephemeral mission.spec.knights)
      then onward
      else own
