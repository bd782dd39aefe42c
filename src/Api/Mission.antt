-- ===== src/Api/Mission.antt =====
-- api/v1alpha1/mission_types.go. An `int32` or `int64` field is a number: the schema bounds the
-- times and limits from below. A `*metav1.Time` is an optional number of nanoseconds.
use roundtable.Prelude.{ℕ, Bool, List, Option, Str}
use roundtable.Api.Chain.{ChainStep, ChainRetryPolicy, ChainPhase, NotifySpec}
use roundtable.Api.Knight.{KnightSpec, KnightTools, KnightPrompt}
use roundtable.Api.RoundTable.{RoundTableDefaults, RoundTablePolicies}
use roundtable.Api.Phase.{MissionPhase}

-- The skills, and the environment, of an override are there or nil.
pub record KnightSpecOverrides : Type 0 where
  pub model : Str
  pub domain : Str
  pub skills : Option (List Str)
  pub tools : Option KnightTools
  pub env : Option (List (Str × Str))
  pub prompt : Option KnightPrompt
  pub concurrency : Option ℕ

pub record MissionKnight : Type 0 where
  pub name : Str
  pub role : Str
  pub ephemeral : Bool
  pub ephemeral_spec : Option KnightSpec
  pub template_ref : Str
  pub spec_overrides : Option KnightSpecOverrides

pub record MissionChainRef : Type 0 where
  pub name : Str
  pub input_override : Str
  pub phase : Str

pub record MissionKnightTemplate : Type 0 where
  pub name : Str
  pub spec : KnightSpec

pub record MissionRoundTableTemplate : Type 0 where
  pub defaults : Option RoundTableDefaults
  pub policies : Option RoundTablePolicies
  pub nats_url : Str

pub record MissionPlanner : Type 0 where
  pub knight_ref : Str
  pub template_ref : Str
  pub ephemeral_spec : Option KnightSpec
  pub timeout : ℕ
  pub context : Str
  pub allow_skill_generation : Bool
  pub max_chains : ℕ
  pub max_knights : ℕ

pub record GeneratedChain : Type 0 where
  pub name : Str
  pub description : Str
  pub steps : List ChainStep
  pub phase : Str
  pub input : Str
  pub timeout : Option ℕ
  pub retry_policy : Option ChainRetryPolicy

pub record MissionSpec : Type 0 where
  pub objective : Str
  pub success_criteria : Str
  pub knights : List MissionKnight
  pub chains : List MissionChainRef
  pub ttl : ℕ
  pub timeout : ℕ
  pub nats_prefix : Str
  pub round_table_ref : Str
  pub meta_mission : Bool
  pub cleanup_policy : Str
  pub briefing : Str
  pub knight_templates : List MissionKnightTemplate
  pub cost_budget_usd : Str
  pub secrets : List Str
  pub recruit_existing : Bool
  pub round_table_template : Option MissionRoundTableTemplate
  pub retain_results : Bool
  pub planner : Option MissionPlanner
  pub generated_chains : List GeneratedChain
  pub generated_knights : List MissionKnight
  pub notify : Option NotifySpec

pub record MissionKnightStatus : Type 0 where
  pub name : Str
  pub ready : Bool
  pub tasks_completed : ℕ
  pub ephemeral : Bool

pub record MissionKnightCost : Type 0 where
  pub name : Str
  pub cost_usd : Str
  pub ephemeral : Bool

pub record MissionChainStatus : Type 0 where
  pub name : Str
  pub chain_cr_name : Str
  pub phase : ChainPhase

pub record PlanningResult : Type 0 where
  pub completed_at : Option ℕ
  pub chains_generated : ℕ
  pub knights_generated : ℕ
  pub skills_generated : ℕ
  pub error : Str
  pub raw_output : Str

pub record MissionStatus (Conditions : Type 0) : Type 0 where
  pub phase : MissionPhase
  pub knight_statuses : List MissionKnightStatus
  pub started_at : Option ℕ
  pub completed_at : Option ℕ
  pub expires_at : Option ℕ
  pub result : Str
  pub total_cost : Str
  pub cost_breakdown : List MissionKnightCost
  pub observed_generation : ℕ
  pub conditions : Conditions
  pub round_table_name : Str
  pub nats_tasks_stream : Str
  pub nats_results_stream : Str
  pub chain_statuses : List MissionChainStatus
  pub results_config_map : Str
  pub planning_task_id : Str
  pub planning_result : Option PlanningResult

-- The object's metadata, as far as the controller reads it. `deleting` says that the deletion
-- timestamp is set.
pub record Mission (Conditions : Type 0) : Type 0 where
  pub name : Str
  pub namespace : Str
  pub uid : Str
  pub generation : ℕ
  pub deleting : Bool
  pub finalizers : List Str
  pub spec : MissionSpec
  pub status : MissionStatus Conditions
