-- ===== src/Mission/Chains.antt =====
-- The chains of a mission: the copies that it makes of the chains it names, how it starts and
-- watches them, and how it suspends them.
use roundtable.Prelude.{
  ℕ, Bool, true, false, ◌&&◌, ◌||◌, not, List, [], ◌∷◌, ◌++◌, Option, none, some, Str, bytes,
  is_empty, str_eq, if◌then◌else◌,
}
use roundtable.Api.Meta.{
  ApiError, not_found, conflict, Answer, found, failed as call_failed, Error, api, plain, wrapped,
  StatusConditions,
}
use roundtable.Api.Chain.{ChainPhase, ChainSpec, Chain}
use roundtable.Api.Knight.{label_mission}
use roundtable.Api.Mission.{MissionChainRef, MissionChainStatus, Mission}
use roundtable.Chain.World.{updated, updated_status}
use roundtable.Mission.World.{
  existing, source, monitored, refetched, suspension, MissionEffect, shared, created_chain,
  MissionWorld,
}
use roundtable.Mission.Outcome.{
  is_idle_chain, is_succeeded_chain, is_failed_chain, update_chain_status, with_chain_statuses,
}
pub mod Laws

unfoldable pub mission_chain_name : (mission chain : Str) → Str
mission_chain_name mission chain = bytes "mission-" ++ mission ++ bytes "-" ++ chain

-- The chain runs in the phases Setup and Active, which is the default.
unfoldable pub is_active_ref : (phase : Str) → Bool
is_active_ref phase =
    str_eq phase (bytes "Setup") || str_eq phase (bytes "Active") || is_empty phase

-- A chain that was started at a time.
abbrev pub start_chain : {C : Type 0} → (now : ℕ) → Chain C → Chain C
start_chain now chain = record chain {
  status = record (chain.status) { phase = ChainPhase.running; started_at = some now };
}

module _ (m : StatusConditions) where
  -- The copy of a chain that a mission runs.
  unfoldable pub mission_chain :
      Mission m.Conditions → MissionChainRef → Chain m.Conditions → Chain m.Conditions
  unfolding mission_chain_name
  mission_chain mission ref source_chain =
      let spec = source_chain.spec in
      record {
        name = mission_chain_name mission.name ref.name;
        namespace = mission.namespace;
        uid = [];
        generation = 0;
        deleting = false;
        finalizers = [];
        labels =
            (label_mission, mission.name) ∷ (bytes "ai.roundtable.io/chain-phase", ref.phase) ∷ [];
        spec = record {
          description = bytes "Mission " ++ mission.name ++ bytes ": " ++ spec.description;
          steps = spec.steps;
          timeout = spec.timeout;
          schedule = [];
          starting_deadline_seconds = none;
          input = if is_empty ref.input_override then spec.input else ref.input_override;
          output_knight = spec.output_knight;
          round_table_ref =
              if is_empty mission.spec.round_table_ref
              then bytes "default"
              else mission.spec.round_table_ref;
          suspended = false;
          retry_policy = spec.retry_policy;
          mission_ref = [];
          notify = none;
        };
        status = record {
          phase = ChainPhase.unset;
          step_statuses = [];
          started_at = none;
          completed_at = none;
          runs_completed = 0;
          runs_failed = 0;
          last_scheduled_at = none;
          run_id = [];
          observed_generation = 0;
          conditions = m.empty;
        };
      }

module _ (m : StatusConditions) (w : MissionWorld m.Conditions) where
  -- The error, if there is one, and the effects.
  pub record Copied : Type 0 where
    pub error : Option Error
    pub effects : List (MissionEffect m.Conditions)

  unfoldable pub create_mission_chain : Mission m.Conditions → Chain m.Conditions → Copied
  create_mission_chain mission chain = elim (w.set_controller_reference mission chain) [
    | some e ↦ record {
      error = some (wrapped (bytes "failed to set owner reference") (plain e));
      effects = [];
    }
    | none ↦ elim (w.create_chain chain) [
      | some e ↦ record {
        error = some (wrapped (bytes "failed to create mission chain") (api e));
        effects = created_chain chain ∷ [];
      }
      | none ↦ record { error = none; effects = created_chain chain ∷ [] }
    ]
  ]

  unfoldable pub ensure_mission_chain : Mission m.Conditions → MissionChainRef → Copied
  unfolding mission_chain_name mission_chain create_mission_chain
  ensure_mission_chain mission ref =
      elim (w.get_chain existing mission.namespace (mission_chain_name mission.name ref.name)) [
        | found chain ↦ record { error = none; effects = [] }
        | call_failed not_found ↦ elim (w.get_chain source mission.namespace ref.name) [
          | call_failed e ↦ record {
            error =
                some
                  (wrapped (bytes "source chain \"" ++ ref.name ++ bytes "\" not found") (api e));
            effects = [];
          }
          | found chain ↦ create_mission_chain mission (mission_chain m mission ref chain)
        ]
        | call_failed e ↦ record { error = some (api e); effects = [] }
      ]

  -- A sweep over chains: the error that ended it, the mission, whether all are complete, whether
  -- any failed, and the effects.
  pub record Sweep : Type 0 where
    pub error : Option Error
    pub mission : Mission m.Conditions
    pub all_complete : Bool
    pub any_failed : Bool
    pub effects : List (MissionEffect m.Conditions)

  -- `chainStatuses` with a phase for this chain.
  abbrev pub noted : MissionChainRef → ChainPhase → Mission m.Conditions → Mission m.Conditions
  noted ref p mission =
      with_chain_statuses
        (update_chain_status ref.name (mission_chain_name mission.name ref.name) p
          mission.status.chain_statuses)
        mission

  abbrev pub waits : Mission m.Conditions → List (MissionEffect m.Conditions) → Sweep
  waits mission effects = record {
    error = none;
    mission = mission;
    all_complete = false;
    any_failed = false;
    effects = effects;
  }

  -- The write that starts a chain, by its answer.
  unfoldable pub triggered :
      MissionChainRef → Chain m.Conditions → Option ApiError → Mission m.Conditions → Sweep
  unfolding update_chain_status mission_chain_name
  triggered ref chain (some conflict) mission = waits mission (shared (updated_status chain) ∷ [])
  triggered ref chain (some e) mission =
      record (waits mission (shared (updated_status chain) ∷ [])) {
        error = some (wrapped (bytes "failed to trigger chain " ++ chain.name) (api e));
      }
  triggered ref chain none mission =
      waits (noted ref ChainPhase.running mission) (shared (updated_status chain) ∷ [])

  unfoldable pub trigger_mission_chain : MissionChainRef → Mission m.Conditions → Sweep
  unfolding triggered mission_chain_name
  trigger_mission_chain ref mission =
      elim (w.get_chain refetched mission.namespace (mission_chain_name mission.name ref.name)) [
        | call_failed e ↦ waits mission []
        | found chain ↦
            let started = start_chain w.base.now chain in
            triggered ref started (w.update_chain_status started) mission
      ]

  -- What the copy's phase says.
  unfoldable pub watched : MissionChainRef → ChainPhase → Mission m.Conditions → Sweep
  unfolding trigger_mission_chain update_chain_status mission_chain_name
  watched ref p mission =
      let triggered = trigger_mission_chain ref mission in
      if is_idle_chain p then triggered else record {
        error = none;
        mission = noted ref p mission;
        all_complete = is_succeeded_chain p || is_failed_chain p;
        any_failed = is_failed_chain p;
        effects = [];
      }

  unfoldable pub monitor_mission_chain : MissionChainRef → Mission m.Conditions → Sweep
  unfolding watched mission_chain_name
  monitor_mission_chain ref mission =
      elim (w.get_chain monitored mission.namespace (mission_chain_name mission.name ref.name)) [
        | call_failed not_found ↦ waits mission []
        | call_failed e ↦ record (waits mission []) { error = some (api e) }
        | found chain ↦ watched ref chain.status.phase mission
      ]

  -- One round of the loop.
  unfoldable pub sweep_chain : MissionChainRef → Mission m.Conditions → Sweep
  unfolding ensure_mission_chain monitor_mission_chain
  sweep_chain ref mission =
      let copied = ensure_mission_chain mission ref in
      let rest = monitor_mission_chain ref mission in
      elim copied.error [
        | some e ↦ record {
          error = none;
          mission = mission;
          all_complete = true;
          any_failed = true;
          effects = copied.effects;
        }
        | none ↦ record rest { effects = copied.effects ++ rest.effects }
      ]

  unfoldable pub join_sweeps : Sweep → Sweep → Sweep
  join_sweeps one rest = elim one.error [
    | some e ↦ one
    | none ↦ record {
      error = rest.error;
      mission = rest.mission;
      all_complete = one.all_complete && rest.all_complete;
      any_failed = one.any_failed || rest.any_failed;
      effects = one.effects ++ rest.effects;
    }
  ]

  unfoldable pub sweep_chains : List MissionChainRef → Mission m.Conditions → Sweep
  unfolding is_active_ref sweep_chain join_sweeps
  sweep_chains [] mission = record {
    error = none;
    mission = mission;
    all_complete = true;
    any_failed = false;
    effects = [];
  }
  sweep_chains (ref ∷ refs) mission =
      let one = sweep_chain ref mission in
      let joined = join_sweeps one (sweep_chains refs one.mission) in
      let skipped = sweep_chains refs mission in if is_active_ref ref.phase then joined else skipped

  -- `reconcileMissionChains`
  unfoldable pub reconcile_mission_chains : Mission m.Conditions → Sweep
  unfolding sweep_chains
  reconcile_mission_chains mission = sweep_chains mission.spec.chains mission

  -- The update of a chain that is to be suspended; a failure is only logged.
  unfoldable pub suspend_chain :
      (namespace : Str) → MissionChainStatus → List (MissionEffect m.Conditions)
  suspend_chain namespace cs =
      if is_empty cs.chain_cr_name
      then []
      else elim (w.get_chain suspension namespace cs.chain_cr_name) [
        | call_failed e ↦ []
        | found chain ↦
            if chain.spec.suspended
            then []
            else shared (updated (record chain { spec = record (chain.spec) { suspended = true } }))
              ∷ []
      ]

  unfoldable pub suspend_mission_chains :
      (namespace : Str) → List MissionChainStatus → List (MissionEffect m.Conditions)
  unfolding suspend_chain
  suspend_mission_chains namespace [] = []
  suspend_mission_chains namespace (cs ∷ statuses) =
      suspend_chain namespace cs ++ suspend_mission_chains namespace statuses

  -- `triggerGeneratedChains`: the chain that could not be started, and the effects.
  unfoldable pub trigger_all :
      List (Chain m.Conditions) → Option Error × List (MissionEffect m.Conditions)
  trigger_all [] = (none, [])
  trigger_all (chain ∷ chains) =
      let started = start_chain w.base.now chain in
      let (error, effects) = trigger_all chains in
      if not (is_idle_chain chain.status.phase)
      then (error, effects)
      else elim (w.update_chain_status started) [
        | some e ↦ (
          some (wrapped (bytes "failed to trigger chain " ++ chain.name) (api e)),
          shared (updated_status started) ∷ [],
        )
        | none ↦ (error, shared (updated_status started) ∷ effects)
      ]

  unfoldable pub trigger_generated_chains :
      Mission m.Conditions → Option Error × List (MissionEffect m.Conditions)
  unfolding trigger_all
  trigger_generated_chains mission = elim (w.list_chains mission.namespace mission.name) [
    | call_failed e ↦ (some (wrapped (bytes "failed to list mission chains") (api e)), [])
    | found chains ↦ trigger_all chains
  ]
