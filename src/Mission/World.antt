-- ===== src/Mission/World.antt =====
-- What one pass of the mission controller reads from outside, and the effects it has there, as
-- Chain/World.antt does for the chain controller. An answer of the API server depends on the place
-- of the code that asks, so that a read after a write may see it.
use roundtable.Prelude.{ℕ, Bool, List, Option, ◌⊎◌, Str}
use roundtable.Api.Meta.{ApiError, Answer}
use roundtable.Api.Chain.{Chain}
use roundtable.Api.Phase.{MissionPhase}
use roundtable.Api.Knight.{Knight}
use roundtable.Api.RoundTable.{RoundTable}
use roundtable.Api.Mission.{Mission, MissionKnightStatus, MissionKnightCost}
use roundtable.Nats.Payload.{TaskPayload}
use roundtable.Chain.World.{World, Effect}

-- The places that read.
pub data Read : Type 0 where
  validation existing source monitored refetched teardown results suspension : Read
  readiness briefing costs removal parent own_table recruited assembled : Read

pub record StepResult : Type 0 where
  pub name : Str
  pub output : Str
  pub error : Str

pub record ChainResult : Type 0 where
  pub name : Str
  pub phase : Str
  pub steps : List StepResult
  pub output : Str

-- The JSON document of `storeResultsToKV`. `duration` is the time between the start and the end,
-- where both are known, before it is put in words; of each condition the document has the type, the
-- status, the reason and the time. A later chain of a name replaces an earlier one.
pub record ResultsDocument (C : Type 0) : Type 0 where
  pub mission : Str
  pub objective : Str
  pub phase : Str
  pub result : Str
  pub duration : Option ℕ
  pub total_cost : Str
  pub started : Option ℕ
  pub completed : Option ℕ
  pub phases : C
  pub chains : List (Str × ChainResult)
  pub knights : List MissionKnightStatus
  pub costs : Option (List MissionKnightCost × Str)

-- The shared client of pkg/nats: an error is the text, `none` is success.
pub record MissionNats (C : Type 0) : Type 0 where
  pub is_connected : Bool
  pub publish_json : (subject : Str) → TaskPayload → Option Str
  pub kv_put : (bucket key : Str) → ResultsDocument C → Option Str
  pub delete_stream : (stream : Str) → Option Str

pub data MissionEvent : Type 0 where
  phase_transition : MissionPhase → MissionEvent
  mission_exceeded_ttl resources_cleaned_up : MissionEvent
  assembled_knights : ℕ → MissionEvent
  briefing_partial_delivery : (published attempted : ℕ) → MissionEvent

-- `shared` is an effect that the chain controller has too.
pub data MissionEffect (C : Type 0) : Type 0 where
  shared : Effect C → MissionEffect C
  updated_mission updated_mission_status deleted_mission : Mission C → MissionEffect C
  mission_event : MissionEvent → MissionEffect C
  created_chain : Chain C → MissionEffect C
  created_round_table : RoundTable → MissionEffect C
  created_service_account created_network_policy : (name : Str) → MissionEffect C
  created_knight updated_knight : Knight → MissionEffect C
  deleted_knight deleted_round_table : (name : Str) → MissionEffect C
  deleted_stream : (stream : Str) → MissionEffect C
  stored_results : (bucket key : Str) → ResultsDocument C → MissionEffect C

pub record MissionWorld (C : Type 0) : Type 0 where
  -- The clock, the secrets, the notifier and its HTTP client and the order of maps, as for the chain controller.
  pub base : World C
  pub get_chain : Read → (namespace name : Str) → Answer (Chain C)
  pub get_knight : Read → (namespace name : Str) → Answer Knight
  pub get_round_table : Read → (namespace name : Str) → Answer RoundTable
  -- whether the object is there
  pub get_service_account : (namespace name : Str) → Option ApiError
  pub get_network_policy : (namespace name : Str) → Option ApiError
  -- the chains with this mission label
  pub list_chains : (namespace mission : Str) → Answer (List (Chain C))
  -- the unclaimed warm knights of a round table
  pub list_warm_knights : (namespace round_table : Str) → Answer (List Knight)
  pub update_mission : Mission C → Option ApiError
  pub update_mission_status : Mission C → Option ApiError
  pub delete_mission : Mission C → Option ApiError
  pub create_chain : Chain C → Option ApiError
  pub update_chain : Chain C → Option ApiError
  pub update_chain_status : Chain C → Option ApiError
  pub create_round_table : RoundTable → Option ApiError
  pub create_knight : Knight → Option ApiError
  pub update_knight : Knight → Option ApiError
  pub create_service_account : (namespace name : Str) → Option ApiError
  pub create_network_policy : (namespace name : Str) → Option ApiError
  pub delete_knight : (namespace name : Str) → Option ApiError
  pub delete_round_table : (namespace name : Str) → Option ApiError
  pub set_controller_reference : Mission C → Chain C → Option Str
  pub nats_client : Str ⊎ MissionNats C

-- The floating point numbers of costs: `%f` read by Sscanf, and printed with two or four decimals.
pub record Money : Type 1 where
  pub Cost : Type 0
  pub zero_cost : Cost
  pub add_cost : Cost → Cost → Cost
  pub exceeds : Cost → Cost → Bool
  pub parse_cost : Str → Option Cost
  pub two_decimals : Cost → Str
  pub four_decimals : Cost → Str
