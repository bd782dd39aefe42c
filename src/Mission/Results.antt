-- ===== src/Mission/Results.antt =====
-- `storeResultsToKV`: the results of a mission in the NATS bucket "mission-results".
use roundtable.Prelude.{
  not, List, [], ◌∷◌, ◌++◌, map, Option, none, some, Str, bytes, inl, inr, is_empty, if◌then◌else◌,
}
use roundtable.Api.Meta.{found, failed as call_failed}
use roundtable.Api.Chain.{ChainStepStatus}
use roundtable.Api.Phase.{mission_phase_text}
use roundtable.Api.Mission.{MissionChainStatus, MissionKnightCost, Mission}
use roundtable.Chain.Kv.{elapsed}
use roundtable.Chain.Notification.{phase_text}
use roundtable.Mission.World.{
  Read, StepResult, ChainResult, ResultsDocument, MissionNats, MissionEffect, stored_results,
  MissionWorld,
}

abbrev pub results_bucket : Str
results_bucket = bytes "mission-results"

step_result : ChainStepStatus → StepResult
step_result ss = record { name = ss.name; output = ss.output; error = ss.error }

-- The last output that is not empty.
final_output : List ChainStepStatus → Str
final_output [] = []
final_output (ss ∷ statuses) =
    let later = final_output statuses in if is_empty later then ss.output else later

chain_result : MissionChainStatus → List ChainStepStatus → ChainResult
unfolding step_result final_output
chain_result cs statuses = record {
  name = cs.name;
  phase = phase_text cs.phase;
  steps = map step_result statuses;
  output = final_output statuses;
}

cost_entry : List MissionKnightCost → (total : Str) → Option (List MissionKnightCost × Str)
cost_entry [] total = none
cost_entry (c ∷ costs) total = some (c ∷ costs, total)

-- `mission.Status.ResultsConfigMap`
unfoldable pub set_results : {C : Type 0} → Mission C → Mission C
set_results mission = record mission {
  status = record (mission.status) {
    results_config_map = results_bucket ++ bytes "." ++ mission.name;
  };
}

module _ {C : Type 0} (w : MissionWorld C) where
  chain_results : (namespace : Str) → List MissionChainStatus → List (Str × ChainResult)
  unfolding chain_result
  chain_results namespace [] = []
  chain_results namespace (cs ∷ statuses) =
      let rest = chain_results namespace statuses in
      elim (w.get_chain Read.results namespace cs.chain_cr_name) [
        | call_failed e ↦ rest
        | found chain ↦ (cs.name, chain_result cs chain.status.step_statuses) ∷ rest
      ]

  unfoldable pub results_document : Mission C → ResultsDocument C
  unfolding chain_results cost_entry elapsed mission_phase_text
  results_document mission =
      let st = mission.status in
      record {
        mission = mission.name;
        objective = mission.spec.objective;
        phase = mission_phase_text st.phase;
        result = st.result;
        duration = elapsed st.started_at st.completed_at;
        total_cost = st.total_cost;
        started = st.started_at;
        completed = st.completed_at;
        phases = st.conditions;
        chains = chain_results mission.namespace st.chain_statuses;
        knights = st.knight_statuses;
        costs = cost_entry st.cost_breakdown st.total_cost;
      }

  unfoldable pub put_results :
      MissionNats C → Mission C → Option (Mission C) × List (MissionEffect C)
  unfolding set_results results_document
  put_results client mission =
      if not client.is_connected
      then (none, [])
      else let document = results_document mission in
        (
          elim (client.kv_put results_bucket mission.name document) [
            | none ↦ some (set_results mission)
            | some e ↦ none
          ],
          stored_results results_bucket mission.name document ∷ [],
        )

  -- The mission with its reference, unless the results could not be stored.
  unfoldable pub store_results_to_kv : Mission C → Option (Mission C) × List (MissionEffect C)
  unfolding put_results
  store_results_to_kv mission = elim w.nats_client [
    | inl e ↦ (none, [])
    | inr client ↦ put_results client mission
  ]

  -- The storing of a cleanup. The reference is recorded also where the results could not be stored.
  unfoldable pub retain_results : Mission C → Mission C × List (MissionEffect C)
  unfolding store_results_to_kv set_results
  retain_results mission =
      let (stored, effects) = store_results_to_kv mission in
      let retained : Mission C = elim stored [
        | some mission' ↦ mission'
        | none ↦ set_results mission
      ] in
      if mission.spec.retain_results
      then if is_empty mission.status.results_config_map then (retained, effects) else (mission, [])
      else (mission, [])
