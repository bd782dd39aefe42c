-- ===== src/Chain/Dispatch.antt =====
-- The second loop of `reconcileRunning`: publishing the tasks of the steps that are ready.
pub mod Panic
pub mod Moves
pub mod Order
pub mod Starts
use roundtable.Prelude.{
  ℕ, suc, ◌+◌, ◌*◌, ◌/◌, Bool, true, false, ◌&&◌, not, List, [], ◌∷◌, ◌++◌, Option, none, some, Str,
  bytes, is_empty, ltb, leb, if◌then◌else◌,
}
use roundtable.Api.Meta.{Answer, found, failed as call_failed}
use roundtable.Api.Chain.{
  ChainRetryPolicy, ChainSpec, ChainStep, ChainStepStatus, ChainStepPhase, pending, running,
  succeeded, failed, Chain,
}
use roundtable.Nats.Subjects.{decimal, task_subject}
use roundtable.Nats.Payload.{TaskPayload}
use roundtable.Chain.World.{
  second, World, Knight, NatsConfig, NatsClient, Effect, published, Rendered, text, render_error,
}
use roundtable.Chain.Lookup.{status_of, spec_of, write_status}
use roundtable.Chain.Template.{render_template}
use roundtable.Chain.Kv.{is_pending}
use roundtable.Chain.Poll.{retry_policy}

-- Whether a dependency in this phase lets its dependents run.
unfoldable pub dep_satisfied : ChainStepPhase → Option ChainStep → Bool
dep_satisfied succeeded spec = true
dep_satisfied failed none = false
dep_satisfied failed (some step) = step.continue_on_failure
dep_satisfied _ spec = false

unfoldable pub dep_ready : List ChainStep → List ChainStepStatus → Str → Bool
unfolding dep_satisfied
dep_ready steps statuses dep = elim (status_of statuses dep) [
  | none ↦ false
  | some ss ↦ dep_satisfied ss.phase (spec_of steps dep)
]

-- The `break` on a missing status leaves `ready` false, as the other cases do.
unfoldable pub deps_ready : List ChainStep → List ChainStepStatus → List Str → Bool
deps_ready steps statuses [] = true
deps_ready steps statuses (dep ∷ deps) =
    dep_ready steps statuses dep && deps_ready steps statuses deps

within_backoff : (now completed : ℕ) → Option ChainRetryPolicy → Bool
within_backoff now completed none = false
within_backoff now completed (some policy) = ltb now (completed + policy.backoff_seconds * second)

-- A retried step waits out its backoff, measured from its completion time.
unfoldable pub backing_off : (now : ℕ) → ChainSpec → Option ChainStep → ChainStepStatus → Bool
unfolding within_backoff
backing_off now spec step ss = elim ss.completed_at [
  | none ↦ false
  | some completed ↦ ltb 0 ss.retries && within_backoff now completed (retry_policy spec step)
]

-- Where the loop stands: a nil dereference ends it, after the effects so far.
pub record Dispatched (C : Type 0) : Type 0 where
  pub panicked : Bool
  pub statuses : List ChainStepStatus
  pub effects : List (Effect C)

module _ {C : Type 0} (w : World C) (nc : NatsConfig) (chain : Chain C) where
  unfoldable pub task_id_of : ChainStep → Str
  task_id_of step =
      bytes "chain-"
      ++ chain.name
      ++ bytes "-"
      ++ step.name
      ++ bytes "."
      ++ chain.status.run_id
      ++ bytes "-"
      ++ decimal (w.now / 1000000)

  unfoldable pub payload_of : ChainStep → (task : Str) → TaskPayload
  payload_of step task = record {
    task_id = task_id_of step;
    chain_name = chain.name;
    step_name = step.name;
    run_id = chain.status.run_id;
    task = task;
  }

  unfoldable pub fail_render : (reason : Str) → ChainStepStatus → ChainStepStatus
  fail_render reason ss = record ss {
    phase = failed;
    error = bytes "template render error: " ++ reason;
    completed_at = some w.now;
  }

  unfoldable pub mark_running : ChainStep → ChainStepStatus → ChainStepStatus
  mark_running step ss = record ss {
    phase = running;
    started_at = some w.now;
    task_id = task_id_of step;
  }

  -- The answer to the publish. One that fails leaves the step Pending.
  unfoldable pub publish_answered :
      ChainStep → List ChainStepStatus → Option Str → List ChainStepStatus
  publish_answered step statuses (some e) = statuses
  publish_answered step statuses none = write_status step.name (mark_running step) statuses

  -- `publishTask`, with the client if there is one.
  unfoldable pub publish_with :
      ChainStep
      → (subject task : Str) → List ChainStepStatus
      → Option NatsClient
      → List ChainStepStatus × List (Effect C)
  publish_with step subject task statuses none = (statuses, [])
  publish_with step subject task statuses (some client) = (
    publish_answered step statuses (client.publish_json subject (payload_of step task)),
    published subject (payload_of step task) ∷ [],
  )

  unfoldable pub publish_step :
      ChainStep
      → Knight
      → (task : Str) → List ChainStepStatus
      → List ChainStepStatus × List (Effect C)
  publish_step step knight task statuses =
      publish_with step (task_subject nc.subject_prefix knight.domain step.knight_ref) task statuses
        w.nats

  -- The step's knight was asked for.
  unfoldable pub start_known :
      ChainStep
      → (task : Str) → List ChainStepStatus
      → Answer Knight
      → List ChainStepStatus × List (Effect C)
  start_known step task statuses (call_failed e) = (statuses, [])
  start_known step task statuses (found knight) = publish_step step knight task statuses

  -- The step's task was rendered.
  unfoldable pub start_rendered :
      ChainStep → List ChainStepStatus → Rendered → List ChainStepStatus × List (Effect C)
  start_rendered step statuses (render_error reason) =
      (write_status step.name (fail_render reason) statuses, [])
  start_rendered step statuses (text task) =
      start_known step task statuses (w.get_knight chain.namespace step.knight_ref)

  -- A ready step: render its task, find its knight, publish.
  unfoldable pub start_step :
      ChainStep → List ChainStepStatus → List ChainStepStatus × List (Effect C)
  start_step step statuses =
      start_rendered step statuses (render_template w statuses chain.spec.input step.task)

  -- Pending, not backing off, and with all dependencies satisfied.
  unfoldable pub is_ready : ChainStep → ChainStepStatus → List ChainStepStatus → Bool
  is_ready step ss statuses =
      is_pending ss.phase
      && (not (backing_off w.now chain.spec (spec_of chain.spec.steps step.name) ss)
          && deps_ready chain.spec.steps statuses step.depends_on)

  -- One round of the loop. Without a status for the step the code dereferences a nil pointer.
  unfoldable pub dispatch_step : ChainStep → List ChainStepStatus → Dispatched C
  dispatch_step step statuses = elim (status_of statuses step.name) [
    | none ↦ record { panicked = true; statuses = statuses; effects = [] }
    | some ss ↦
        let (statuses', done) = start_step step statuses in
        if is_ready step ss statuses
        then record { panicked = false; statuses = statuses'; effects = done }
        else record { panicked = false; statuses = statuses; effects = [] }
  ]

  unfoldable pub dispatch_steps : List ChainStep → List ChainStepStatus → Dispatched C
  dispatch_steps [] statuses = record { panicked = false; statuses = statuses; effects = [] }
  dispatch_steps (step ∷ steps) statuses =
      let first = dispatch_step step statuses in
      let rest = dispatch_steps steps first.statuses in
      if first.panicked then first else record {
        panicked = rest.panicked;
        statuses = rest.statuses;
        effects = first.effects ++ rest.effects;
      }
