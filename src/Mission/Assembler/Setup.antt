-- ===== src/Mission/Assembler/Setup.antt =====
-- internal/mission/assembler.go: the account, the network policy and the round table of a mission.
use roundtable.Prelude.{
  Bool, true, false, ◌&&◌, not, List, [], ◌∷◌, ◌++◌, Option, none, some, Str, bytes, is_empty,
  length, str_eq, if◌then◌else◌,
}
use roundtable.Api.Meta.{ApiError, not_found, found, failed as call_failed, Error, api, wrapped}
use roundtable.Api.Knight.{label_mission, label_ephemeral}
use roundtable.Api.RoundTable.{
  RoundTableDefaults, RoundTablePolicies, RoundTableSpec, RoundTablePhase, RoundTable,
}
use roundtable.Api.Mission.{MissionRoundTableTemplate, Mission}
use roundtable.Mission.World.{
  parent, MissionEffect, created_service_account, created_network_policy, MissionWorld,
}

-- An object that is made if it is not there: the error, and whether it was to be made.
unfoldable pub ensured :
    (get_context create_context : Str) → (got created : Option ApiError) → Option Error × Bool
ensured get_context create_context none created = (none, false)
ensured get_context create_context (some not_found) none = (none, true)
ensured get_context create_context (some not_found) (some e) =
    (some (wrapped create_context (api e)), true)
ensured get_context create_context (some e) created = (some (wrapped get_context (api e)), false)

abbrev pub or_else : {A : Type 0} → Option A → Option A → Option A
or_else (some a) other = some a
or_else none other = other

abbrev pub or_text : Str → Str → Str
or_text [] other = other
or_text (c ∷ s) other = c ∷ s

default_nats_url : Str
default_nats_url = bytes "nats://nats.database.svc.cluster.local:4222"

default_defaults : RoundTableDefaults
default_defaults = record {
  model = bytes "openrouter/deepseek/deepseek-v3.2";
  image = [];
  task_timeout = 300;
  concurrency = 3;
  resources = none;
  arsenal = none;
}

no_policies : RoundTablePolicies
no_policies = record {
  max_concurrent_tasks = 0;
  cost_budget_usd = [];
  cost_reset_schedule = [];
  max_knights = 0;
  max_missions = 0;
}

-- The policies of the template are shared with the table that is built: a write to the one is a
-- write to the other.
abbrev pub share_policies :
    RoundTablePolicies → Option MissionRoundTableTemplate → Option MissionRoundTableTemplate
share_policies policies none = none
share_policies policies (some template) =
    some (record template { policies = shared template.policies })
  where
    shared : Option RoundTablePolicies → Option RoundTablePolicies
    shared none = none
    shared (some old) = some policies

module _ {C : Type 0} where
  -- The mission's budget, if it has one, and the number of its knights.
  unfoldable pub limit_policies : Mission C → RoundTablePolicies → RoundTablePolicies
  limit_policies mission policies =
      let budget = mission.spec.cost_budget_usd in
      record policies {
        cost_budget_usd =
            if not (is_empty budget) && not (str_eq budget (bytes "0"))
            then budget
            else policies.cost_budget_usd;
        max_knights = length mission.spec.knights;
      }

  unfoldable pub with_shared : RoundTablePolicies → Mission C → Mission C
  with_shared policies mission = record mission {
    spec = record (mission.spec) {
      round_table_template = share_policies policies mission.spec.round_table_template;
    };
  }

module _ {C : Type 0} (w : MissionWorld C) where
  -- What came of an object that is to be there.
  pub record Ensured : Type 0 where
    pub error : Option Error
    pub effects : List (MissionEffect C)

  unfoldable pub ensure_mission_service_account : Mission C → (name : Str) → Ensured
  unfolding ensured
  ensure_mission_service_account mission name =
      let (error, made) =
        ensured (bytes "failed to get ServiceAccount") (bytes "failed to create ServiceAccount")
          (w.get_service_account mission.namespace name)
          (w.create_service_account mission.namespace name) in
      record { error = error; effects = if made then created_service_account name ∷ [] else [] }

  unfoldable pub ensure_mission_network_policy : Mission C → Ensured
  unfolding ensured
  ensure_mission_network_policy mission =
      let name = bytes "mission-" ++ mission.name ++ bytes "-isolation" in
      let (error, made) =
        ensured (bytes "failed to get NetworkPolicy") (bytes "failed to create NetworkPolicy")
          (w.get_network_policy mission.namespace name)
          (w.create_network_policy mission.namespace name) in
      record { error = error; effects = if made then created_network_policy name ∷ [] else [] }

  -- The parent table, where the mission names one that can be read.
  unfoldable pub parent_table : Mission C → Option RoundTable
  parent_table mission =
      if is_empty mission.spec.round_table_ref
      then none
      else elim (w.get_round_table parent mission.namespace mission.spec.round_table_ref) [
        | found table ↦ some table
        | call_failed e ↦ none
      ]

  -- Defaults, policies and URL: of the mission's template, else of the parent.
  unfoldable pub table_sources :
      Option RoundTable
      → Option MissionRoundTableTemplate
      → Option RoundTableDefaults × Option RoundTablePolicies × Str
  unfolding default_nats_url
  table_sources none none = (none, none, default_nats_url)
  table_sources (some table) none =
      (table.spec.defaults, table.spec.policies, or_text table.spec.nats.url default_nats_url)
  table_sources none (some t) = (t.defaults, t.policies, or_text t.nats_url default_nats_url)
  table_sources (some table) (some t) = (
    or_else t.defaults table.spec.defaults,
    or_else t.policies table.spec.policies,
    or_text t.nats_url (or_text table.spec.nats.url default_nats_url),
  )

  -- The table, and the mission in memory, whose template may share the table's policies.
  unfoldable pub build_ephemeral_round_table :
      Mission C → (name prefix tasks_stream results_stream : Str) → RoundTable × Mission C
  unfolding parent_table table_sources limit_policies with_shared default_defaults no_policies
  build_ephemeral_round_table mission name prefix tasks_stream results_stream =
      let (defaults, policies, url) =
        table_sources (parent_table mission) mission.spec.round_table_template in
      let limited =
        limit_policies mission (elim policies [ none ↦ no_policies | some limits ↦ limits ]) in
      let spec : RoundTableSpec = record {
        nats = record {
          url = url;
          subject_prefix = prefix;
          tasks_stream = tasks_stream;
          results_stream = results_stream;
          create_streams = true;
          stream_retention = bytes "WorkQueue";
        };
        defaults = or_else defaults (some default_defaults);
        policies = some limited;
        secrets = [];
        knight_templates = [];
        warm_pool = none;
        ephemeral = true;
        mission_ref = mission.name;
      } in
      (
        record {
          name = name;
          namespace = mission.namespace;
          labels = (label_mission, mission.name) ∷ (label_ephemeral, bytes "true") ∷ [];
          spec = spec;
          phase = RoundTablePhase.unset;
        },
        with_shared limited mission,
      )
