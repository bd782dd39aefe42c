-- ===== src/Mission/Tests/Outside.antt =====
-- A small outside world of a mission: knights, a chain and a round table that are there and ready.
use roundtable.Prelude.{ℕ, ◌+◌, true, false, [], ◌∷◌, none, some, Str, bytes, inr, ltb}
use roundtable.Api.Meta.{
  found, condition_true, ConditionType, complete, cleanup_complete, Reason, mission_failed,
  mission_expired, cleaned_up, plain_message, Condition,
}
use roundtable.Api.Chain.{ChainPhase}
use roundtable.Api.Phase.{MissionPhase}
use roundtable.Api.Knight.{KnightSpec, EnvFromSource, KnightPhase, Knight}
use roundtable.Api.RoundTable.{RoundTablePhase, RoundTable}
use roundtable.Api.Mission.{MissionKnight, MissionSpec, Mission}
use roundtable.Chain.Tests.Outside.{store, audit, scanned, calm}
use roundtable.Mission.World.{MissionNats, MissionWorld, Money}
use roundtable.Mission.Run.{finished, mission_ends}
use roundtable.Mission.Reconcile.{mission_finalizer, Planner}

abbrev pub knight_spec : KnightSpec
knight_spec = record {
  runtime = [];
  domain = bytes "security";
  model = [];
  image = [];
  skills = [];
  tools = none;
  nats = record {
    url = [];
    subjects = bytes "camelot.tasks.security.galahad" ∷ [];
    stream = [];
    results_stream = [];
    consumer_name = [];
    max_deliver = 1;
  };
  service_account_name = [];
  vault = none;
  prompt = none;
  capabilities = none;
  resources = none;
  concurrency = 1;
  task_timeout = 60;
  nix_packages = [];
  generated_skills = [];
  env = [];
  env_from = EnvFromSource.secret_ref (bytes "keys") ∷ [];
  arsenal = none;
  workspace = none;
  lifecycle = none;
  suspended = false;
}

abbrev pub galahad : Knight
galahad = record {
  name = bytes "galahad";
  namespace = bytes "prod";
  labels = [];
  spec = knight_spec;
  status = record { phase = KnightPhase.ready; ready = true; total_cost = bytes "1" };
}

abbrev pub table : RoundTable
table = record {
  name = bytes "camelot";
  namespace = bytes "prod";
  labels = [];
  spec = record {
    nats = record {
      url = [];
      subject_prefix = bytes "camelot";
      tasks_stream = bytes "tasks";
      results_stream = bytes "results";
      create_streams = false;
      stream_retention = [];
    };
    defaults = none;
    policies = none;
    secrets = bytes "keys" ∷ bytes "models" ∷ [];
    knight_templates = [];
    warm_pool = none;
    ephemeral = false;
    mission_ref = [];
  };
  phase = RoundTablePhase.ready;
}

abbrev pub coins : Money
coins = record {
  Cost = ℕ;
  zero_cost = 0;
  add_cost = λ a b. a + b;
  exceeds = λ a b. ltb b a;
  parse_cost = λ s. none;
  two_decimals = λ a. [];
  four_decimals = λ a. [];
}

abbrev client : MissionNats store.Conditions
client = record {
  is_connected = true;
  publish_json = λ subject payload. none;
  kv_put = λ bucket key document. none;
  delete_stream = λ stream. none;
}

abbrev pub realm : MissionWorld store.Conditions
realm = record {
  base = calm;
  get_chain = λ read namespace name. found (audit ChainPhase.succeeded scanned);
  get_knight = λ read namespace name. found galahad;
  get_round_table = λ read namespace name. found table;
  get_service_account = λ namespace name. none;
  get_network_policy = λ namespace name. none;
  list_chains = λ namespace mission. found [];
  list_warm_knights = λ namespace name. found [];
  update_mission = λ mission. none;
  update_mission_status = λ mission. none;
  delete_mission = λ mission. none;
  create_chain = λ chain. none;
  update_chain = λ chain. none;
  update_chain_status = λ chain. none;
  create_round_table = λ made. none;
  create_knight = λ knight. none;
  update_knight = λ knight. none;
  create_service_account = λ namespace name. none;
  create_network_policy = λ namespace name. none;
  delete_knight = λ namespace name. none;
  delete_round_table = λ namespace name. none;
  set_controller_reference = λ mission chain. none;
  nats_client = inr client;
}

abbrev pub idle_planner : Planner store
idle_planner = record { plan = λ mission. mission_ends finished mission }

abbrev pub recruit_of : Str → MissionKnight
recruit_of name = record {
  name = name;
  role = [];
  ephemeral = false;
  ephemeral_spec = none;
  template_ref = [];
  spec_overrides = none;
}

abbrev pub grail : (policy : Str) → MissionSpec
grail policy = record {
  objective = bytes "Find the grail.";
  success_criteria = [];
  knights = recruit_of (bytes "galahad") ∷ [];
  chains = record { name = bytes "audit"; input_override = []; phase = [] } ∷ [];
  ttl = 3600;
  timeout = 600;
  nats_prefix = [];
  round_table_ref = bytes "camelot";
  meta_mission = false;
  cleanup_policy = policy;
  briefing = [];
  knight_templates = [];
  cost_budget_usd = [];
  secrets = bytes "models" ∷ bytes "maps" ∷ [];
  recruit_existing = false;
  round_table_template = none;
  retain_results = false;
  planner = none;
  generated_chains = [];
  generated_knights = [];
  notify = none;
}

abbrev pub quest : MissionPhase → (policy : Str) → store.Conditions → Mission store.Conditions
quest phase policy conditions = record {
  name = bytes "grail";
  namespace = bytes "prod";
  uid = bytes "0123456789";
  generation = 1;
  deleting = false;
  finalizers = mission_finalizer ∷ [];
  spec = grail policy;
  status = record {
    phase = phase;
    knight_statuses =
        record { name = bytes "galahad"; ready = false; tasks_completed = 0; ephemeral = false }
        ∷ record { name = bytes "lance"; ready = false; tasks_completed = 0; ephemeral = true }
        ∷ [];
    started_at = some 900;
    completed_at = none;
    expires_at = some 5000;
    result = [];
    total_cost = [];
    cost_breakdown = [];
    observed_generation = 1;
    conditions = conditions;
    round_table_name = bytes "mission-grail";
    nats_tasks_stream = bytes "msn_tasks";
    nats_results_stream = bytes "msn_results";
    chain_statuses = [];
    results_config_map = [];
    planning_task_id = [];
    planning_result = none;
  };
}

abbrev pub marked : ConditionType → Reason → Condition
marked type reason = record {
  type = type;
  status = condition_true;
  reason = reason;
  message = plain_message [];
  observed_generation = 1;
}

-- The outcome is recorded as failed; it is recorded as expired, and the cleanup is done.
abbrev pub recorded : store.Conditions
recorded complete = some (marked complete mission_failed, 5)
recorded _ = none

abbrev pub expired_and_clean : store.Conditions
expired_and_clean complete = some (marked complete mission_expired, 5)
expired_and_clean cleanup_complete = some (marked cleanup_complete cleaned_up, 6)
expired_and_clean _ = none
