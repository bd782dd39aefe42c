-- ===== src/Chain/Invariant.antt =====
-- What holds of every step status that the controller writes, and that each operation keeps it.
use roundtable.Prelude.{
  ℕ, suc, ◌≤◌, ◌≡◌, ◌⊎◌, inl, inr, true, false, not, List, [], ◌∷◌, none, some, Str, is_empty,
  is_some, Bool-cases, All, arith,
}
use roundtable.Api.Chain.{
  ChainSpec, ChainStep, ChainStepStatus, pending, running, succeeded, failed, Chain,
}
use roundtable.Nats.Payload.{TaskResult, get_output}
use roundtable.Chain.World.{World, NatsConfig, Effect}
use roundtable.Chain.Lookup.{spec_of}
use roundtable.Chain.Poll.{
  Polled, poll_error, nothing_yet, received, is_running, retry_policy, may_retry, step_timed_out,
  fail_step, succeed_step, result_error, settle_step, time_out_step, timeout_error, poll_answered,
  poll_result, poll_step, poll_steps,
}
use roundtable.Chain.Dispatch.{fail_render, mark_running, task_id_of}
use roundtable.Chain.Completion.{is_failed, skip_if_pending}
use roundtable.Chain.Running.{init_step_status}

-- The retries that the spec allows a step of this name.
unfoldable pub retry_limit : ChainSpec → Str → ℕ
retry_limit spec name = elim (retry_policy spec (spec_of spec.steps name)) [
  | none ↦ 0
  | some policy ↦ policy.max_retries
]

pub record IsSound (spec : ChainSpec) (ss : ChainStepStatus) : Type 0 where
  -- A Pending step has no completion time.
  pub fresh : ss.phase ≡ pending → ss.completed_at ≡ none
  -- Exactly the Failed steps have an error text.
  pub error_of_failure : is_failed ss.phase ≡ not (is_empty ss.error)
  -- A Running step has a start time and a task ID.
  pub tracked : ss.phase ≡ running → (is_some ss.started_at ≡ true) × (is_empty ss.task_id ≡ false)
  -- A step that ran to its end has a completion time.
  pub ended : (ss.phase ≡ succeeded) ⊎ (ss.phase ≡ failed) → is_some ss.completed_at ≡ true
  -- The retries stay within the limit.
  pub bounded : ss.retries ≤ retry_limit spec ss.name

pub init_step_status-IsSound :
    (spec : ChainSpec) (step : ChainStep) → IsSound spec (init_step_status step)
unfolding init_step_status
init_step_status-IsSound spec step = ground arith

may_retry-lt :
    (spec : ChainSpec) (name : Str) (retries : ℕ)
    → may_retry (retry_policy spec (spec_of spec.steps name)) retries ≡ true
    → suc retries ≤ retry_limit spec name
unfolding may_retry retry_limit
may_retry-lt spec name retries h = ground arith

module _ {C : Type 0} (w : World C) (nc : NatsConfig) (chain : Chain C) where
  fail_step-IsSound :
      (ss : ChainStepStatus) (error : Str)
      → is_empty error ≡ false
      → IsSound chain.spec ss
      → IsSound chain.spec (fail_step w nc chain ss (spec_of chain.spec.steps ss.name) error)
  unfolding fail_step
  fail_step-IsSound ss error some_error h =
      ground (arith, may_retry-lt chain.spec ss.name ss.retries)

  succeed_step-IsSound :
      (ss : ChainStepStatus) (output : Str)
      → ss.phase ≡ running
      → IsSound chain.spec ss
      → IsSound chain.spec (succeed_step w nc chain ss output)
  unfolding succeed_step
  succeed_step-IsSound ss output busy h = ground arith

  time_out_step-IsSound :
      (ss : ChainStepStatus)
      → step_timed_out w.now ss (spec_of chain.spec.steps ss.name) ≡ true
      → IsSound chain.spec ss
      → IsSound chain.spec (time_out_step w nc chain ss (spec_of chain.spec.steps ss.name))
  unfolding step_timed_out time_out_step timeout_error
  time_out_step-IsSound ss late h = ground arith

  settle_step-IsSound :
      (ss : ChainStepStatus) (r : TaskResult)
      → ss.phase ≡ running
      → IsSound chain.spec ss
      → IsSound chain.spec (settle_step w nc chain ss (spec_of chain.spec.steps ss.name) r).0
  unfolding settle_step
  settle_step-IsSound ss r busy h = elim (Bool-cases (is_empty (result_error w nc chain r))) [
    | inl e ↦ rw e (succeed_step-IsSound ss (get_output r) busy h)
    | inr e ↦ rw e (fail_step-IsSound ss (result_error w nc chain r) e h)
  ]

  poll_answered-IsSound :
      (ss : ChainStepStatus) (answer : Polled) (effects : List (Effect C))
      → ss.phase ≡ running
      → IsSound chain.spec ss
      → IsSound chain.spec
          (poll_answered w nc chain ss (spec_of chain.spec.steps ss.name) answer effects).0
  unfolding poll_answered
  poll_answered-IsSound ss poll_error effects busy h = h
  poll_answered-IsSound ss nothing_yet effects busy h = h
  poll_answered-IsSound ss (received r) effects busy h = settle_step-IsSound ss r busy h

  pub poll_step-IsSound :
      (ss : ChainStepStatus)
      → IsSound chain.spec ss
      → IsSound chain.spec (poll_step w nc chain ss).0
  unfolding poll_step
  poll_step-IsSound ss h =
      let step = spec_of chain.spec.steps ss.name in
      let (answer, effects) = poll_result w nc chain ss.name ss.task_id in
      elim (Bool-cases (is_running ss.phase)) [
        | inr e ↦ rw e h
        | inl e ↦ elim (Bool-cases (is_empty ss.task_id)) [
          | inl e' ↦ rw (e, e') h
          | inr e' ↦ elim (Bool-cases (step_timed_out w.now ss step)) [
            | inl late ↦ rw (e, e', late) (time_out_step-IsSound ss late h)
            | inr timely ↦
                rw (e, e', timely) (poll_answered-IsSound ss answer effects (ground arith) h)
          ]
        ]
      ]

  pub poll_steps-IsSound :
      (statuses : List ChainStepStatus)
      → All (IsSound chain.spec) statuses
      → All (IsSound chain.spec) (poll_steps w nc chain statuses).0
  unfolding poll_steps
  poll_steps-IsSound [] all = tt
  poll_steps-IsSound (ss ∷ statuses) all =
      (poll_step-IsSound ss all.0, poll_steps-IsSound statuses all.1)

  pub fail_render-IsSound :
      (reason : Str) (ss : ChainStepStatus)
      → IsSound chain.spec ss
      → IsSound chain.spec (fail_render w nc chain reason ss)
  unfolding fail_render
  fail_render-IsSound reason ss h = ground arith

  pub mark_running-IsSound :
      (step : ChainStep) (ss : ChainStepStatus)
      → ss.phase ≡ pending
      → IsSound chain.spec ss
      → IsSound chain.spec (mark_running w nc chain step ss)
  unfolding mark_running task_id_of
  mark_running-IsSound step ss idle h = ground arith

pub skip_if_pending-IsSound :
    (spec : ChainSpec) (ss : ChainStepStatus) → IsSound spec ss → IsSound spec (skip_if_pending ss)
skip_if_pending-IsSound spec ss h = ground arith
