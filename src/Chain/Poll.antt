-- ===== src/Chain/Poll.antt =====
-- The first loop of `reconcileRunning`: polling the results of the steps that run.
use roundtable.Prelude.{
  ℕ, suc, ◌+◌, ◌*◌, ◌/◌, Bool, true, false, ◌&&◌, not, List, [], ◌∷◌, ◌++◌, Option, none, some, Str,
  bytes, is_empty, ltb, if◌then◌else◌,
}
use roundtable.Api.Chain.{
  ChainRetryPolicy, ChainSpec, ChainStep, ChainStepStatus, ChainStepPhase, pending, running,
  succeeded, failed, Chain,
}
use roundtable.Nats.Subjects.{
  decimal, task_subject, result_subject, result_subject_wildcard, chain_consumer_name,
}
use roundtable.Nats.Payload.{TaskResult, get_output, get_error}
use roundtable.Chain.World.{
  second, World, NatsConfig, PollRequest, poll_failed, no_message, message, step_empty_output,
  step_completed, Effect, event, published, polled, acked, deleted_consumer, text, render_error,
}
use roundtable.Api.Meta.{found, failed as call_failed}
use roundtable.Chain.Lookup.{spec_of}
use roundtable.Chain.Output.{is_empty_step_output, status_output}
use roundtable.Chain.Template.{render_output_path}
use roundtable.Chain.Kv.{store_step_output}

pub data Polled : Type 0 where
  poll_error nothing_yet : Polled
  received : TaskResult → Polled

abbrev pub is_running : ChainStepPhase → Bool
is_running running = true
is_running _ = false

-- The per-step policy, as a chain policy, overrides the chain's.
unfoldable pub retry_policy : ChainSpec → Option ChainStep → Option ChainRetryPolicy
retry_policy spec none = spec.retry_policy
retry_policy spec (some step) = elim step.retry [
  | none ↦ spec.retry_policy
  | some r ↦ some (record { max_retries = r.max_attempts; backoff_seconds = r.backoff_seconds })
]

-- Whether a step that failed is tried again.
unfoldable pub may_retry : Option ChainRetryPolicy → (retries : ℕ) → Bool
may_retry none retries = false
may_retry (some policy) retries = ltb retries policy.max_retries

-- More than `timeout` seconds have passed since `started`.
unfoldable pub timed_out : (now : ℕ) → (started : Option ℕ) → (timeout : ℕ) → Bool
timed_out now none timeout = false
timed_out now (some t) timeout = ltb (t + timeout * second) now

unfoldable pub step_timed_out : (now : ℕ) → ChainStepStatus → Option ChainStep → Bool
unfolding timed_out
step_timed_out now ss none = false
step_timed_out now ss (some step) = timed_out now ss.started_at step.timeout

unfoldable pub timeout_error : Option ChainStep → Str
timeout_error none = []
timeout_error (some step) = bytes "step timed out after " ++ decimal step.timeout ++ bytes "s"

module _ {C : Type 0} (w : World C) (nc : NatsConfig) (chain : Chain C) where
  -- `pollResult`; the consumer is deleted on every path on which it was used.
  unfoldable pub poll_result : (step task_id : Str) → Polled × List (Effect C)
  poll_result step task_id = elim w.nats [
    | none ↦ (poll_error, [])
    | some client ↦
        let subject =
          if not (is_empty task_id)
          then result_subject nc.subject_prefix task_id
          else result_subject_wildcard nc.subject_prefix
              (bytes "chain-" ++ chain.name ++ bytes "-" ++ step) in
        let consumer = chain_consumer_name chain.name step in
        let request : PollRequest = record {
          subject = subject;
          durable = consumer;
          bind_stream = nc.results_stream;
        } in
        let clean_up = deleted_consumer nc.results_stream consumer ∷ [] in
        elim (client.poll_message request) [
          | poll_failed ↦ (poll_error, polled request ∷ clean_up)
          | no_message ↦ (nothing_yet, polled request ∷ clean_up)
          | message from content ↦
              let effects = polled request ∷ acked from ∷ clean_up in
              elim (w.unmarshal_result content) [
                | none ↦ (poll_error, effects)
                | some r ↦ (received r, effects)
              ]
        ]
  ]

  -- `writeArtifact`: a task for the knight that writes outputs.
  unfoldable pub write_artifact : (step path content : Str) → List (Effect C)
  write_artifact step path content = elim w.nats [
    | none ↦ []
    | some client ↦
        let knight_name =
          if is_empty chain.spec.output_knight then bytes "gawain" else chain.spec.output_knight in
        elim (w.get_knight chain.namespace knight_name) [
          | call_failed e ↦ []
          | found knight ↦
              published (task_subject nc.subject_prefix knight.domain knight_name) (record {
                task_id =
                    bytes "chain-"
                    ++ chain.name
                    ++ bytes "-"
                    ++ step
                    ++ bytes "-artifact."
                    ++ chain.status.run_id
                    ++ bytes "-"
                    ++ decimal (w.now / 1000000);
                chain_name = chain.name;
                step_name = step ++ bytes "-artifact";
                run_id = chain.status.run_id;
                task =
                    bytes "Write the following content to the file at path '"
                    ++ path
                    ++ bytes
                        "'. Create any missing directories. Write ONLY the content below, do not modify or summarize it.\n\n---\n"
                    ++ content;
              })
              ∷ []
        ]
  ]

  -- What follows a success, for a step that the spec still has.
  unfoldable pub after_success :
      ChainStepStatus → Option ChainStep → (output : Str) → List (Effect C)
  unfolding write_artifact
  after_success ss none output = []
  after_success ss (some step) output =
      store_step_output w chain.name chain.status.run_id ss.name output [] step.knight_ref
        ss.started_at (some w.now)
      ++ (if is_empty step.output_path then [] else elim (render_output_path w chain.name step) [
        | render_error _ ↦ []
        | text path ↦ write_artifact step.name path output
      ])

  -- A failed step is either tried again, from Pending, or it stays Failed.
  unfoldable pub fail_step : ChainStepStatus → Option ChainStep → (error : Str) → ChainStepStatus
  fail_step ss step error =
      if may_retry (retry_policy chain.spec step) ss.retries
      then record ss { retries = suc ss.retries; phase = pending; completed_at = none; error = [] }
      else record ss { phase = failed; error = error; completed_at = some w.now }

  unfoldable pub succeed_step : ChainStepStatus → (output : Str) → ChainStepStatus
  succeed_step ss output = record ss {
    phase = succeeded;
    output = status_output chain.name ss.name output;
    completed_at = some w.now;
  }

  -- An empty output counts as a failure.
  unfoldable pub result_error : TaskResult → Str
  result_error r =
      if is_empty (get_error r) && is_empty_step_output (get_output r)
      then bytes "knight returned empty output"
      else get_error r

  unfoldable pub settle_step :
      ChainStepStatus → Option ChainStep → TaskResult → ChainStepStatus × List (Effect C)
  settle_step ss step r =
      let noted =
        if is_empty (get_error r) && is_empty_step_output (get_output r)
        then event (step_empty_output ss.name) ∷ []
        else [] in
      if is_empty (result_error r)
      then (
        succeed_step ss (get_output r),
        noted ++ event (step_completed ss.name) ∷ after_success ss step (get_output r),
      )
      else (fail_step ss step (result_error r), noted)

  unfoldable pub time_out_step : ChainStepStatus → Option ChainStep → ChainStepStatus
  time_out_step ss step = record ss {
    phase = failed;
    error = timeout_error step;
    completed_at = some w.now;
  }

  unfoldable pub poll_answered :
      ChainStepStatus
      → Option ChainStep
      → Polled
      → List (Effect C)
      → ChainStepStatus × List (Effect C)
  poll_answered ss step poll_error effects = (ss, effects)
  poll_answered ss step nothing_yet effects = (ss, effects)
  poll_answered ss step (received r) effects =
      let (ss', more) = settle_step ss step r in (ss', effects ++ more)

  -- One round of the loop.
  unfoldable pub poll_step : ChainStepStatus → ChainStepStatus × List (Effect C)
  poll_step ss =
      let step = spec_of chain.spec.steps ss.name in
      let (answer, effects) = poll_result ss.name ss.task_id in
      if not (is_running ss.phase)
      then (ss, [])
      else if is_empty ss.task_id
      then (ss, [])
      else if step_timed_out w.now ss step
      then (time_out_step ss step, [])
      else poll_answered ss step answer effects

  unfoldable pub poll_steps : List ChainStepStatus → List ChainStepStatus × List (Effect C)
  poll_steps [] = ([], [])
  poll_steps (ss ∷ statuses) =
      let (ss', done) = poll_step ss in
      let (rest, more) = poll_steps statuses in (ss' ∷ rest, done ++ more)
