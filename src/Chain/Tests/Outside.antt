-- ===== src/Chain/Tests/Outside.antt =====
-- A small outside world: a condition store, an API server and a NATS client that answer, a chain.
use roundtable.Prelude.{
  ℕ, ◌+◌, ◌≡◌, refl, true, false, List, [], ◌∷◌, Option, none, some, Str, bytes,
}
use roundtable.Api.Meta.{
  not_found, found, failed as call_failed, ConditionType, ConditionType-discrete, Condition,
  StatusConditions,
}
use roundtable.Api.Chain.{
  WebhookSink, NotifySpec, ChainSpec, ChainStep, ChainStepStatus, ChainStepPhase, ChainPhase, Chain,
}
use roundtable.Notify.{response}
use roundtable.Chain.World.{World, NatsConfig, NatsClient, text, no_message, JsonValue}

abbrev Store : Type 0
Store = ConditionType → Option (Condition × ℕ)

abbrev chosen : {A : Type 0} → Dec A → (v w : Option (Condition × ℕ)) → Option (Condition × ℕ)
chosen (yes _) v w = v
chosen (no _) v w = w

abbrev chosen_yes : {A : Type 0} (d : Dec A) (v w : Option (Condition × ℕ)) → A → chosen d v w ≡ v
chosen_yes (yes _) v w a = refl
chosen_yes (no na) v w a = elim (na a) [ ]

abbrev chosen_no : {A : Type 0} (d : Dec A) (v w : Option (Condition × ℕ)) → ¬ A → chosen d v w ≡ w
chosen_no (yes a) v w na = elim (na a) [ ]
chosen_no (no _) v w na = refl

abbrev put : ConditionType → Option (Condition × ℕ) → Store → Store
put t v cs u = chosen (ConditionType-discrete t u) v (cs u)

-- Conditions by type, each with the time of its last write.
abbrev pub store : StatusConditions
store = record {
  Conditions = Store;
  find = λ cs t. cs t;
  set = λ now cs c. put c.type (some (c, now)) cs;
  remove = λ cs t. put t none cs;
  empty = λ t. none;
  find-empty = λ t. refl;
  find-set = λ now cs c. (now, chosen_yes (ConditionType-discrete c.type c.type) _ _ refl);
  find-set_ne = λ now cs c t ne. chosen_no (ConditionType-discrete c.type t) _ _ ne;
  find-remove = λ cs t. chosen_yes (ConditionType-discrete t t) _ _ refl;
  find-remove_ne = λ cs t u ne. chosen_no (ConditionType-discrete t u) _ _ ne;
}

abbrev pub empty_store : store.Conditions
empty_store = λ t. none

abbrev pub scan : ChainStep
scan = record {
  name = bytes "scan";
  knight_ref = bytes "galahad";
  task = bytes "Scan the hosts.";
  depends_on = [];
  timeout = 60;
  output_key = [];
  output_path = [];
  continue_on_failure = false;
  retry = some (record { max_attempts = 2; backoff_seconds = 30 });
}

abbrev pub report : ChainStep
report = record scan {
  name = bytes "report";
  task = bytes "Report the findings.";
  depends_on = bytes "scan" ∷ [];
  retry = none;
}

abbrev pub hook : WebhookSink
hook = record { url = bytes "https://hooks/a"; token_secret_ref = none; context = [] }

abbrev pub hooked : Option NotifySpec
hooked = some (record { webhook = some hook })

abbrev pub audit_spec : ChainSpec
audit_spec = record {
  description = [];
  steps = scan ∷ report ∷ [];
  timeout = 600;
  schedule = bytes "@hourly";
  starting_deadline_seconds = none;
  input = [];
  output_knight = [];
  round_table_ref = bytes "camelot";
  suspended = false;
  retry_policy = none;
  mission_ref = [];
  notify = hooked;
}

abbrev pub fresh : Str → ChainStepStatus
fresh name = record {
  name = name;
  phase = ChainStepPhase.pending;
  task_id = [];
  started_at = none;
  completed_at = none;
  output = [];
  error = [];
  retries = 0;
}

-- The scan runs, and the report waits for it.
abbrev pub scanning : List ChainStepStatus
scanning =
    record (fresh (bytes "scan")) {
      phase = ChainStepPhase.running;
      task_id = bytes "t1";
      started_at = some 5;
    }
    ∷ fresh (bytes "report")
    ∷ []

abbrev pub waiting : List ChainStepStatus
waiting = fresh (bytes "scan") ∷ fresh (bytes "report") ∷ []

-- The scan is done, and the report waits no more.
abbrev pub scanned : List ChainStepStatus
scanned =
    record (fresh (bytes "scan")) {
      phase = ChainStepPhase.succeeded;
      output = bytes "clean";
      completed_at = some 7;
    }
    ∷ fresh (bytes "report")
    ∷ []

abbrev pub audit : ChainPhase → List ChainStepStatus → Chain store.Conditions
audit phase statuses = record {
  name = bytes "audit";
  namespace = bytes "prod";
  uid = bytes "u1";
  generation = 1;
  deleting = false;
  finalizers = [];
  labels = [];
  spec = audit_spec;
  status = record {
    phase = phase;
    step_statuses = statuses;
    started_at = some 3;
    completed_at = none;
    runs_completed = 0;
    runs_failed = 0;
    last_scheduled_at = some 3;
    run_id = bytes "r1";
    observed_generation = 1;
    conditions = empty_store;
  };
}

abbrev pub camelot : NatsConfig
camelot = record {
  subject_prefix = bytes "camelot";
  tasks_stream = bytes "tasks";
  results_stream = bytes "results";
}

abbrev pub client : NatsClient
client = record {
  publish_json = λ subject payload. none;
  poll_message = λ request. no_message;
  kv_get = λ bucket key. some (bytes "stored");
}

-- Everything asked for is there, and every call succeeds. The stored run ID is that of the run.
abbrev pub calm : World store.Conditions
calm = record {
  now = 1000;
  date = bytes "2026-01-01";
  new_uuid = bytes "r2";
  get_chain = λ namespace name. found (audit ChainPhase.idle waiting);
  get_knight = λ namespace name. found (record { domain = bytes "security" });
  get_mission = λ namespace name. call_failed not_found;
  get_secret = λ namespace name. call_failed not_found;
  get_round_table = λ namespace name. found camelot;
  update = λ chain. none;
  update_status = λ chain. none;
  nats = some client;
  template_parse = λ source. none;
  template_execute = λ source values. text source;
  unmarshal_result = λ content. none;
  unmarshal_object = λ content. some (λ key. JsonValue.string (bytes "r1"));
  notifier =
      some (record { allowed_url_prefixes = bytes "https://hooks/" ∷ []; give_up_after = 0 });
  post = λ url token payload. response 200 (bytes "200 OK");
  map_keys = λ names. names;
  schedule_parses = λ schedule. true;
  next_fire = λ schedule last. last + 100;
}
