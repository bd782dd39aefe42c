-- ===== src/Api/Meta.antt =====
-- The parts of Kubernetes' metav1 and meta packages that the controllers use, with the condition
-- types and reasons of api/v1alpha1/conditions.go.
-- A message is kept as its format and its arguments; see `Message`.
use roundtable.Prelude.{ℕ, ◌≡◌, ◌≢◌, List, Option, none, some, Str}
use roundtable.Util.Dag.{DagError}

pub data ApiError : Type 0 where
  not_found conflict already_exists : ApiError
  other : Str → ApiError

-- What a call of the API server answers.
pub data Answer {ℓ} (A : Type ℓ) : Type ℓ where
  found : A → Answer A
  failed : ApiError → Answer A

-- The errors that the controllers make or wrap; `wrapped` is `%w` after a context.
pub data Error : Type 0 where
  api : ApiError → Error
  missing_round_table_ref : (namespace name : Str) → Error
  knight_not_found : (step knight : Str) → ApiError → Error
  dag : DagError → Error
  invalid_template : (step reason : Str) → Error
  template_execution : (step reason : Str) → Error
  no_round_table_ref : (namespace name : Str) → Error
  round_table_not_found : (name : Str) → ApiError → Error
  plain : Str → Error
  wrapped : (context : Str) → Error → Error

-- Why a completion notification was not delivered.
pub data DeliveryError : Type 0 where
  secret_unreadable : (name : Str) → ApiError → DeliveryError
  secret_has_no_key : (name key : Str) → DeliveryError
  not_delivered : Str → DeliveryError

pub data ConditionStatus : Type 0 where
  condition_true condition_false condition_unknown : ConditionStatus

pub data ConditionType : Type 0 where
  available nats_ready chain_valid complete briefing_published cleanup_complete : ConditionType
  notification_sent knights_ready plan_applied : ConditionType

pub ConditionType-discrete : Discrete ConditionType
ConditionType-discrete = hlevel

pub data Reason : Type 0 where
  valid missing_round_table_ref invalid_knight_ref cyclic_dependency invalid_template : Reason
  chain_succeeded chain_failed chain_partially_succeeded chain_timeout : Reason
  notify_delivered notify_retrying notify_delivery_failed notify_url_not_allowed : Reason
  mission_chain_failed mission_expired over_budget briefing_was_published publish_failed : Reason
  no_briefing cleaned_up knight_not_found_reason assembly_timeout all_knights_ready : Reason
  planning_complete : Reason

-- Constants of a mission that are the same strings as a chain's.
abbrev pub mission_succeeded : Reason
mission_succeeded = chain_succeeded

abbrev pub mission_failed : Reason
mission_failed = chain_failed

abbrev pub mission_timeout : Reason
mission_timeout = chain_timeout

pub data Message : Type 0 where
  must_have_ref spec_is_valid : Message
  of_error : Error → Message
  timed_out : (seconds : ℕ) → Message
  steps_failed : (hard : ℕ) → Message
  steps_succeeded_of : (succeeded total soft : ℕ) → Message
  all_steps_completed : (total : ℕ) → Message
  url_not_allowed : (url : Str) → Message
  giving_up retrying : DeliveryError → Message
  delivered : (key : Str) → Message
  plain_message : Str → Message
  knights_not_ready_within : (timeout : ℕ) → List Str → Message

pub record Condition : Type 0 where
  pub type : ConditionType
  pub status : ConditionStatus
  pub reason : Reason
  pub message : Message
  pub observed_generation : ℕ

-- k8s.io/apimachinery's `meta` functions on a condition list, with the documented behaviour that
-- the controllers rely on. `find` gives the condition with the time of its last transition.
pub record StatusConditions : Type 1 where
  pub Conditions : Type 0
  pub find : Conditions → ConditionType → Option (Condition × ℕ)
  -- `SetStatusCondition` at a time, and `RemoveStatusCondition`.
  pub set : ℕ → Conditions → Condition → Conditions
  pub remove : Conditions → ConditionType → Conditions
  -- the nil list
  pub empty : Conditions
  pub find-empty : (t : ConditionType) → find empty t ≡ none
  pub find-set :
      (now : ℕ) (cs : Conditions) (c : Condition)
      → (at : ℕ) × (find (set now cs c) c.type ≡ some (c, at))
  pub find-set_ne :
      (now : ℕ) (cs : Conditions) (c : Condition) (t : ConditionType)
      → c.type ≢ t
      → find (set now cs c) t ≡ find cs t
  pub find-remove : (cs : Conditions) (t : ConditionType) → find (remove cs t) t ≡ none
  pub find-remove_ne :
      (cs : Conditions) (t u : ConditionType) → t ≢ u → find (remove cs t) u ≡ find cs u
