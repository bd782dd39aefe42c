-- ===== src/Api/RoundTable.antt =====
-- api/v1alpha1/roundtable_types.go, as far as the mission controller and the assembler read or
-- write it.
use roundtable.Prelude.{ℕ, Bool, List, Option, Str}
use roundtable.Api.Knight.{KnightSpec, KnightResources, KnightArsenal}

pub record RoundTableNats : Type 0 where
  pub url : Str
  pub subject_prefix : Str
  pub tasks_stream : Str
  pub results_stream : Str
  pub create_streams : Bool
  pub stream_retention : Str

pub record RoundTableDefaults : Type 0 where
  pub model : Str
  pub image : Str
  pub task_timeout : ℕ
  pub concurrency : ℕ
  pub resources : Option KnightResources
  pub arsenal : Option KnightArsenal

pub record RoundTablePolicies : Type 0 where
  pub max_concurrent_tasks : ℕ
  pub cost_budget_usd : Str
  pub cost_reset_schedule : Str
  pub max_knights : ℕ
  pub max_missions : ℕ

pub record WarmPoolConfig : Type 0 where
  pub size : ℕ
  pub runtime : Str
  pub template : KnightSpec
  pub max_idle_time : Str
  pub replace_on_claim : Bool

-- Without the description, the selector, the vault, the shared workspace and the suspension, which
-- missions leave alone.
pub record RoundTableSpec : Type 0 where
  pub nats : RoundTableNats
  pub defaults : Option RoundTableDefaults
  pub policies : Option RoundTablePolicies
  pub secrets : List Str
  pub knight_templates : List (Str × KnightSpec)
  pub warm_pool : Option WarmPoolConfig
  pub ephemeral : Bool
  pub mission_ref : Str

-- `unset` is the empty string.
pub data RoundTablePhase : Type 0 where
  unset provisioning ready degraded suspended over_budget : RoundTablePhase

-- The status is its phase.
pub record RoundTable : Type 0 where
  pub name : Str
  pub namespace : Str
  pub labels : List (Str × Str)
  pub spec : RoundTableSpec
  pub phase : RoundTablePhase
