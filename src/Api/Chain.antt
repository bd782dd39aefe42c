-- ===== src/Api/Chain.antt =====
-- api/v1alpha1/chain_types.go and notify_types.go. An `int32` or `int64` field is a number: the
-- schema bounds them from below by 0, and the code only adds 1 to counters. A `*metav1.Time` is an
-- optional number of nanoseconds, and a map is the list of its entries.
use roundtable.Prelude.{ℕ, Bool, List, Option, Str}

pub record SecretKeySelector : Type 0 where
  pub name : Str
  pub key : Str

pub record WebhookSink : Type 0 where
  pub url : Str
  pub token_secret_ref : Option SecretKeySelector
  pub context : List (Str × Str)

pub record NotifySpec : Type 0 where
  pub webhook : Option WebhookSink

pub record StepRetry : Type 0 where
  pub max_attempts : ℕ
  pub backoff_seconds : ℕ

pub record ChainRetryPolicy : Type 0 where
  pub max_retries : ℕ
  pub backoff_seconds : ℕ

pub record ChainStep : Type 0 where
  pub name : Str
  pub knight_ref : Str
  pub task : Str
  pub depends_on : List Str
  pub timeout : ℕ
  pub output_key : Str
  pub output_path : Str
  pub continue_on_failure : Bool
  pub retry : Option StepRetry

pub record ChainSpec : Type 0 where
  pub description : Str
  pub steps : List ChainStep
  pub timeout : ℕ
  pub schedule : Str
  pub starting_deadline_seconds : Option ℕ
  pub input : Str
  pub output_knight : Str
  pub round_table_ref : Str
  pub suspended : Bool
  pub retry_policy : Option ChainRetryPolicy
  pub mission_ref : Str
  pub notify : Option NotifySpec

-- `unset` is the empty string.
pub data ChainPhase : Type 0 where
  unset idle running succeeded failed suspended partially_succeeded : ChainPhase

pub data ChainStepPhase : Type 0 where
  unset pending running succeeded failed skipped : ChainStepPhase

pub record ChainStepStatus : Type 0 where
  pub name : Str
  pub phase : ChainStepPhase
  pub task_id : Str
  pub started_at : Option ℕ
  pub completed_at : Option ℕ
  pub output : Str
  pub error : Str
  pub retries : ℕ

pub record ChainStatus (Conditions : Type 0) : Type 0 where
  pub phase : ChainPhase
  pub step_statuses : List ChainStepStatus
  pub started_at : Option ℕ
  pub completed_at : Option ℕ
  pub runs_completed : ℕ
  pub runs_failed : ℕ
  pub last_scheduled_at : Option ℕ
  pub run_id : Str
  pub observed_generation : ℕ
  pub conditions : Conditions

-- The object's metadata, as far as the controller reads it. `deleting` says that the deletion
-- timestamp is set.
pub record Chain (Conditions : Type 0) : Type 0 where
  pub name : Str
  pub namespace : Str
  pub uid : Str
  pub generation : ℕ
  pub deleting : Bool
  pub finalizers : List Str
  pub labels : List (Str × Str)
  pub spec : ChainSpec
  pub status : ChainStatus Conditions
