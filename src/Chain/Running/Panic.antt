-- ===== src/Chain/Running/Panic.antt =====
-- A pass over a running chain: its nil pointers.
use roundtable.Prelude.{
  ℕ, ◌≡◌, ◌≢◌, ◌↔◌, refl, inl, inr, false, List, [], ◌∷◌, Option, none, some, Str, Bool-cases,
  List-cases, arith,
}
use roundtable.Api.Meta.{ApiError, conflict, not_found, already_exists, other, StatusConditions}
use roundtable.Api.Chain.{ChainStep, ChainStepStatus, Chain}
use roundtable.Chain.World.{World, NatsConfig, Effect}
use roundtable.Chain.Lookup.{spec_of}
use roundtable.Chain.Lookup.Laws.{status_names}
use roundtable.Chain.Poll.{
  Polled, poll_error, nothing_yet, received, timed_out, fail_step, succeed_step, settle_step,
  time_out_step, poll_answered, poll_result, result_error, poll_step, poll_steps,
}
use roundtable.Chain.Dispatch.{dispatch_steps}
use roundtable.Chain.Dispatch.Panic.{covers, panicked-dispatch_steps}
use roundtable.Chain.Run.{panicked, plain_outcome, status_outcome, update_status}
use roundtable.Chain.Completion.{run_is_over, finish_pass}
use roundtable.Chain.Running.{
  with_statuses, resolve_nats_config, ensure_started, begin_run, time_out_run, advance_run,
  reconcile_running,
}
use roundtable.Chain.Running.Laws.{resolved}

module _ {C : Type 0} (w : World C) (nc : NatsConfig) (chain : Chain C) where
  name-fail_step :
      (ss : ChainStepStatus) (step : Option ChainStep) (error : Str)
      → (fail_step w nc chain ss step error).name ≡ ss.name
  unfolding fail_step
  name-fail_step ss step error = ground arith

  name-poll_answered :
      (ss : ChainStepStatus) (step : Option ChainStep) (answer : Polled) (effects : List (Effect C))
      → (poll_answered w nc chain ss step answer effects).0.name ≡ ss.name
  unfolding poll_answered settle_step succeed_step
  name-poll_answered ss step poll_error effects = refl
  name-poll_answered ss step nothing_yet effects = refl
  name-poll_answered ss step (received r) effects =
      ground (arith, name-fail_step ss step (result_error w nc chain r))

  name-poll_step : (ss : ChainStepStatus) → (poll_step w nc chain ss).0.name ≡ ss.name
  unfolding poll_step time_out_step
  name-poll_step ss =
      let step = spec_of chain.spec.steps ss.name in
      let (answer, effects) = poll_result w nc chain ss.name ss.task_id in
      ground (arith, name-poll_answered ss step answer effects)

  status_names-poll_steps :
      (s : List ChainStepStatus) → status_names (poll_steps w nc chain s).0 ≡ status_names s
  unfolding poll_steps
  status_names-poll_steps [] = refl
  status_names-poll_steps (ss ∷ s) = ground (arith, name-poll_step ss, status_names-poll_steps s)

status_outcome-panicked : (n : ℕ) (e : Option ApiError) → status_outcome n e ≢ panicked
status_outcome-panicked n none = λ q. cc
status_outcome-panicked n (some conflict) = λ q. cc
status_outcome-panicked n (some not_found) = λ q. cc
status_outcome-panicked n (some already_exists) = λ q. cc
status_outcome-panicked n (some (other e)) = λ q. cc

plain_outcome-panicked : (e : Option ApiError) → plain_outcome e ≢ panicked
plain_outcome-panicked none = λ q. cc
plain_outcome-panicked (some e) = λ q. cc

module _ (m : StatusConditions) (w : World m.Conditions) where
  finish_pass-panicked : (chain : Chain m.Conditions) → (finish_pass m w chain).outcome ≢ panicked
  unfolding finish_pass update_status
  finish_pass-panicked chain =
      elim (Bool-cases (run_is_over chain.spec.steps chain.status.step_statuses)) [
        | inl e ↦ rw e (status_outcome-panicked _ _)
        | inr e ↦ rw e (status_outcome-panicked _ _)
      ]

  -- Polling, publishing and concluding dereferences a nil pointer exactly when some step of the spec
  -- has no status.
  advance_run-panicked_iff :
      (nc : NatsConfig) (chain : Chain m.Conditions)
      → ((advance_run m w nc chain).outcome ≡ panicked)
        ↔ (covers (status_names chain.status.step_statuses) chain.spec.steps ≡ false)
  unfolding advance_run
  advance_run-panicked_iff nc chain =
      let polled = (poll_steps w nc chain chain.status.step_statuses).0 in
      let sent = dispatch_steps w nc chain chain.spec.steps polled in
      ground (
        arith,
        panicked-dispatch_steps w nc chain chain.spec.steps polled,
        status_names-poll_steps w nc chain chain.status.step_statuses,
        finish_pass-panicked (with_statuses sent.statuses chain),
      )

  begin_run-panicked : (chain : Chain m.Conditions) → (begin_run m w chain).outcome ≢ panicked
  unfolding begin_run update_status
  begin_run-panicked chain = status_outcome-panicked _ _

  time_out_run-panicked : (chain : Chain m.Conditions) → (time_out_run m w chain).outcome ≢ panicked
  unfolding time_out_run
  time_out_run-panicked chain = plain_outcome-panicked _

  -- A pass that comes to the publishing loop, with a step of the spec that has no status: the table
  -- was read, the steps have their statuses from an earlier pass, and the run has not timed out.
  pub record IsMissingStatus (chain : Chain m.Conditions) : Type 0 where
    pub config : NatsConfig
    pub resolves : resolve_nats_config w chain ≡ inr config
    pub filled : chain.status.step_statuses ≢ []
    pub timely :
        timed_out w.now (ensure_started w chain).status.started_at chain.spec.timeout ≡ false
    pub missing : covers (status_names chain.status.step_statuses) chain.spec.steps ≡ false

  started_panicked_iff :
      (nc : NatsConfig) (chain : Chain m.Conditions)
      → ((advance_run m w nc (ensure_started w chain)).outcome ≡ panicked)
        ↔ (covers (status_names chain.status.step_statuses) chain.spec.steps ≡ false)
  unfolding ensure_started
  started_panicked_iff nc chain = advance_run-panicked_iff nc (ensure_started w chain)

  -- A pass over a running chain dereferences a nil pointer exactly when some step of the spec has no
  -- status although the chain has statuses, its round table was read and it has not timed out.
  pub reconcile_running-panicked_iff :
      (chain : Chain m.Conditions)
      → ((reconcile_running m w chain).outcome ≡ panicked) ↔ IsMissingStatus chain
  unfolding reconcile_running
  reconcile_running-panicked_iff chain = elim (resolved (resolve_nats_config w chain)) [
    | inl (e, eq) ↦ (λ h. ground (arith, eq, h), λ h. ground (arith, eq, h.resolves))
    | inr (nc, eq) ↦ elim (List-cases chain.status.step_statuses) [
      | inl empty ↦ (
        λ h. ground (arith, eq, empty, h, begin_run-panicked chain),
        λ h. absurd (h.filled empty),
      )
      | inr (ss, s, filled) ↦
          elim (Bool-cases
            (timed_out w.now (ensure_started w chain).status.started_at chain.spec.timeout)) [
              | inl late ↦ (
                λ h.
                    ground
                      (arith, eq, filled, late, h, time_out_run-panicked (ensure_started w chain)),
                λ h. ground (arith, late, h.timely),
              )
              | inr timely ↦
                  let (split, join) = started_panicked_iff nc chain in
                  (
                    λ h. record {
                      config = nc;
                      resolves = eq;
                      filled = λ q. ground (arith, q, filled);
                      timely = timely;
                      missing = split (ground (arith, eq, filled, timely, h));
                    },
                    λ h. ground (arith, eq, filled, timely, join h.missing),
                  )
            ]
    ]
  ]
