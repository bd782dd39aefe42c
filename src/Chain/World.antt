-- ===== src/Chain/World.antt =====
-- What one pass of the chain controller reads from outside, and the effects it has there.
-- The API server, NATS, the cron and template libraries and the clock are not part of the
-- repository: their answers in the pass are the fields of `World`, and each call that changes
-- something outside is an entry of the pass's list of effects, in order. The clock is read once.
use roundtable.Prelude.{ℕ, Bool, List, Option, Str}
use roundtable.Api.Meta.{ApiError, Answer, DeliveryError}
use roundtable.Api.Chain.{Chain}
use roundtable.Api.Phase.{MissionPhase}
use roundtable.Nats.Payload.{TaskPayload, TaskResult}
use roundtable.Notify.{Notifier, Payload, HttpAnswer}

-- time.Second in nanoseconds
abbrev pub second : ℕ
second = 1000000000

pub record Knight : Type 0 where
  pub domain : Str

-- What of a mission the chain controller reads.
pub record Mission : Type 0 where
  pub deleting : Bool
  pub phase : MissionPhase

-- `natsConfig`, which is also what of a round table the chain controller reads.
pub record NatsConfig : Type 0 where
  pub subject_prefix : Str
  pub tasks_stream : Str
  pub results_stream : Str

-- The data that a template is executed with: the outputs and errors by step and the chain's input,
-- or the variables of an output path.
pub data TemplateData : Type 0 where
  task_data : (steps : List (Str × Str × Str)) (input : Str) → TemplateData
  path_data : (date chain step : Str) → TemplateData

pub data Rendered : Type 0 where
  text : Str → Rendered
  render_error : Str → Rendered

pub record PollRequest : Type 0 where
  pub subject : Str
  pub durable : Str
  pub bind_stream : Str

pub data PollAnswer : Type 0 where
  poll_failed no_message : PollAnswer
  message : (subject content : Str) → PollAnswer

-- The JSON object stored for a step. `elapsed` is its duration, where both times are known.
pub record StoredOutput : Type 0 where
  pub output : Str
  pub error : Str
  pub knight : Str
  pub run_id : Str
  pub elapsed : Option ℕ
  pub stored_at : ℕ

pub data JsonValue : Type 0 where
  string : Str → JsonValue
  not_string : JsonValue

-- The shared client of pkg/nats: an error is the text, `none` is success.
pub record NatsClient : Type 0 where
  pub publish_json : (subject : Str) → TaskPayload → Option Str
  pub poll_message : PollRequest → PollAnswer
  pub kv_get : (bucket key : Str) → Option Str

pub data Event : Type 0 where
  started chain_succeeded no_steps_executed cron_trigger_skipped cron_triggered : Event
  chain_timed_out chain_failed : ℕ → Event
  chain_partially_succeeded : (succeeded total : ℕ) → Event
  step_empty_output step_completed : (step : Str) → Event
  notification_rejected : (url : Str) → Event
  notification_failed notification_retrying : DeliveryError → Event
  notification_sent : Event

pub data Effect (C : Type 0) : Type 0 where
  updated : Chain C → Effect C
  updated_status : Chain C → Effect C
  event : Event → Effect C
  published : (subject : Str) → TaskPayload → Effect C
  polled : PollRequest → Effect C
  acked : (subject : Str) → Effect C
  deleted_consumer : (stream consumer : Str) → Effect C
  kv_put : (bucket key : Str) → StoredOutput → Effect C
  kv_deleted : (bucket key : Str) → Effect C
  no_op_run : (chain : Str) → Effect C
  posted : (url token : Str) → Payload → Effect C

pub record World (C : Type 0) : Type 0 where
  pub now : ℕ
  -- today's date as YYYY-MM-DD, in UTC
  pub date : Str
  pub new_uuid : Str
  pub get_chain : (namespace name : Str) → Answer (Chain C)
  pub get_knight : (namespace name : Str) → Answer Knight
  pub get_mission : (namespace name : Str) → Answer Mission
  pub get_secret : (namespace name : Str) → Answer (List (Str × Str))
  pub get_round_table : (namespace name : Str) → Answer NatsConfig
  pub update : Chain C → Option ApiError
  pub update_status : Chain C → Option ApiError
  -- `none`: no NATS client, with an error that is only logged or compared with nil
  pub nats : Option NatsClient
  -- text/template: a parse error, and the execution of a template that parses
  pub template_parse : Str → Option Str
  pub template_execute : Str → TemplateData → Rendered
  -- encoding/json: `none` is an error; a field that is missing is not a string
  pub unmarshal_result : Str → Option TaskResult
  pub unmarshal_object : Str → Option (Str → JsonValue)
  -- the operator's notifier, if one is configured, and its HTTP client
  pub notifier : Option Notifier
  pub post : (url token : Str) → Payload → HttpAnswer
  -- the keys of a map, given the names it was filled with, in the order in which `range` yields them
  pub map_keys : List Str → List Str
  -- robfig/cron: whether an expression parses, and its next fire after a time
  pub schedule_parses : Str → Bool
  pub next_fire : (schedule : Str) → ℕ → ℕ
