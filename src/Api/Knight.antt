-- ===== src/Api/Knight.antt =====
-- api/v1alpha1/knight_types.go: what a knight is asked to be, and what the mission controller and
-- the assembler read of its status. A Kubernetes type of another library is kept as far as it is
-- used: a quantity is its text, an environment variable its name and value, and a source of
-- variables is the name of a secret or something else.
use roundtable.Prelude.{ℕ, Bool, List, Option, Str, bytes}

abbrev pub label_ephemeral : Str
label_ephemeral = bytes "ai.roundtable.io/ephemeral"

abbrev pub label_mission : Str
label_mission = bytes "ai.roundtable.io/mission"

abbrev pub label_round_table : Str
label_round_table = bytes "ai.roundtable.io/round-table"

abbrev pub label_role : Str
label_role = bytes "ai.roundtable.io/role"

abbrev pub label_warm_pool : Str
label_warm_pool = bytes "ai.roundtable.io/warm-pool"

abbrev pub label_warm_pool_claimed : Str
label_warm_pool_claimed = bytes "ai.roundtable.io/warm-pool-claimed"

pub record KnightArsenal : Type 0 where
  pub repo : Str
  pub ref : Str
  pub period : Str
  pub image : Str

pub record KnightWorkspace : Type 0 where
  pub existing_claim : Str
  pub size : Str

pub record KnightLifecycle : Type 0 where
  pub suspend_policy : Str
  pub idle_timeout : Str

pub record KnightCapabilities : Type 0 where
  pub browser : Bool

pub record KnightTools : Type 0 where
  pub nix : List Str
  pub apt : List Str
  pub mise : List Str

pub record KnightNats : Type 0 where
  pub url : Str
  pub subjects : List Str
  pub stream : Str
  pub results_stream : Str
  pub consumer_name : Str
  pub max_deliver : ℕ

pub record KnightVault : Type 0 where
  pub claim_name : Str
  pub read_only : Bool
  pub writable_paths : List Str

pub record KnightPrompt : Type 0 where
  pub identity : Str
  pub instructions : Str
  pub config_map_ref : Option Str

pub record KnightResources : Type 0 where
  pub memory : Str
  pub cpu : Str

pub record GeneratedSkill : Type 0 where
  pub name : Str
  pub content : Str

pub data EnvFromSource : Type 0 where
  secret_ref : (name : Str) → EnvFromSource
  other_source : EnvFromSource

pub record KnightSpec : Type 0 where
  pub runtime : Str
  pub domain : Str
  pub model : Str
  pub image : Str
  pub skills : List Str
  pub tools : Option KnightTools
  pub nats : KnightNats
  pub service_account_name : Str
  pub vault : Option KnightVault
  pub prompt : Option KnightPrompt
  pub capabilities : Option KnightCapabilities
  pub resources : Option KnightResources
  pub concurrency : ℕ
  pub task_timeout : ℕ
  pub nix_packages : List Str
  pub generated_skills : List GeneratedSkill
  pub env : List (Str × Str)
  pub env_from : List EnvFromSource
  pub arsenal : Option KnightArsenal
  pub workspace : Option KnightWorkspace
  pub lifecycle : Option KnightLifecycle
  pub suspended : Bool

-- `unset` is the empty string.
pub data KnightPhase : Type 0 where
  unset pending provisioning ready degraded suspended : KnightPhase

-- The phase, the readiness and the cost, which missions read.
pub record KnightStatus : Type 0 where
  pub phase : KnightPhase
  pub ready : Bool
  pub total_cost : Str

pub record Knight : Type 0 where
  pub name : Str
  pub namespace : Str
  pub labels : List (Str × Str)
  pub spec : KnightSpec
  pub status : KnightStatus
