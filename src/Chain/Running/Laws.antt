-- ===== src/Chain/Running/Laws.antt =====
-- A pass over a running chain: its step statuses.
use roundtable.Prelude.{◌≡◌, refl, ◌⊎◌, inl, inr, List, [], ◌∷◌, map, Bool-cases, List-cases, All}
use roundtable.Api.Meta.{Error, StatusConditions}
use roundtable.Api.Chain.{ChainSpec, ChainStep, ChainStepStatus, Chain}
use roundtable.Chain.World.{World, NatsConfig}
use roundtable.Chain.Kv.Laws.{restore_step_outputs-IsSound}
use roundtable.Chain.Poll.{timed_out, poll_steps}
use roundtable.Chain.Dispatch.{dispatch_steps}
use roundtable.Chain.Dispatch.Order.{dispatch_steps-IsSound}
use roundtable.Chain.Run.{update_status}
use roundtable.Chain.Completion.{
  skip_if_pending, skip_pending, any_failed, run_is_over, complete_run, finish_pass,
}
use roundtable.Chain.Running.{
  init_step_status, init_step_statuses, with_statuses, resolve_nats_config, ensure_started,
  begin_run, time_out_run, advance_run, reconcile_running,
}
use roundtable.Chain.Invariant.{
  IsSound, init_step_status-IsSound, poll_steps-IsSound, skip_if_pending-IsSound,
}

pub resolved :
    (r : Error ⊎ NatsConfig) → ((e : Error) × (r ≡ inl e)) ⊎ ((nc : NatsConfig) × (r ≡ inr nc))
resolved (inl e) = inl (e, refl)
resolved (inr nc) = inr (nc, refl)

-- Every status of the chain is sound.
abbrev pub AllSound : {C : Type 0} → Chain C → Type 0
AllSound chain = All (IsSound chain.spec) chain.status.step_statuses

module _ (m : StatusConditions) (w : World m.Conditions) where
  skipped-IsSound :
      (spec : ChainSpec) (s : List ChainStepStatus)
      → All (IsSound spec) s
      → All (IsSound spec) (map skip_if_pending s)
  skipped-IsSound spec [] all = tt
  skipped-IsSound spec (ss ∷ s) all =
      (skip_if_pending-IsSound spec ss all.0, skipped-IsSound spec s all.1)

  skip_pending-IsSound :
      (spec : ChainSpec) (steps : List ChainStep) (s : List ChainStepStatus)
      → All (IsSound spec) s
      → All (IsSound spec) (skip_pending steps s)
  unfolding skip_pending
  skip_pending-IsSound spec steps s all = elim (Bool-cases (any_failed steps s)) [
    | inl e ↦ rw e (skipped-IsSound spec s all)
    | inr e ↦ rw e all
  ]

  finish_pass-AllSound :
      (chain : Chain m.Conditions) → AllSound chain → AllSound (finish_pass m w chain).chain
  unfolding finish_pass update_status complete_run
  finish_pass-AllSound chain all =
      let steps = chain.spec.steps in
      let s = chain.status.step_statuses in
      elim (Bool-cases (run_is_over steps s)) [
        | inl e ↦ rw e (skip_pending-IsSound chain.spec steps s all)
        | inr e ↦ rw e (skip_pending-IsSound chain.spec steps s all)
      ]

  advance_run-AllSound :
      (nc : NatsConfig) (chain : Chain m.Conditions)
      → AllSound chain
      → AllSound (advance_run m w nc chain).chain
  unfolding advance_run
  advance_run-AllSound nc chain all =
      let polled = (poll_steps w nc chain chain.status.step_statuses).0 in
      let sent = dispatch_steps w nc chain chain.spec.steps polled in
      let ok =
        dispatch_steps-IsSound w nc chain chain.spec.steps polled
          (poll_steps-IsSound w nc chain chain.status.step_statuses all) in
      elim (Bool-cases sent.panicked) [
        | inl e ↦ rw e ok
        | inr e ↦ rw e (finish_pass-AllSound (with_statuses sent.statuses chain) ok)
      ]

  pub init_step_statuses-AllSound :
      (chain : Chain m.Conditions) → AllSound (init_step_statuses chain)
  unfolding init_step_statuses
  init_step_statuses-AllSound chain = fresh chain.spec.steps
    where
      fresh : (steps : List ChainStep) → All (IsSound chain.spec) (map init_step_status steps)
      fresh [] = tt
      fresh (step ∷ steps) = (init_step_status-IsSound chain.spec step, fresh steps)

  begin_run-AllSound : (chain : Chain m.Conditions) → AllSound (begin_run m w chain).chain
  unfolding begin_run update_status
  begin_run-AllSound chain = restore_step_outputs-IsSound w _ (init_step_statuses-AllSound chain)

  ensure_started-AllSound :
      (chain : Chain m.Conditions) → AllSound chain → AllSound (ensure_started w chain)
  unfolding ensure_started
  ensure_started-AllSound chain all = all

  time_out_run-AllSound :
      (chain : Chain m.Conditions) → AllSound chain → AllSound (time_out_run m w chain).chain
  unfolding time_out_run
  time_out_run-AllSound chain all = all

  -- A pass over a running chain leaves every step status sound, if it found them sound.
  pub reconcile_running-AllSound :
      (chain : Chain m.Conditions) → AllSound chain → AllSound (reconcile_running m w chain).chain
  unfolding reconcile_running
  reconcile_running-AllSound chain all = elim (resolved (resolve_nats_config w chain)) [
    | inl (e, eq) ↦ rw (eq, reconcile_running) all
    | inr (nc, eq) ↦ elim (List-cases chain.status.step_statuses) [
      | inl empty ↦ rw (eq, empty, reconcile_running) (begin_run-AllSound chain)
      | inr (ss, s, filled) ↦
          elim (Bool-cases
            (timed_out w.now (ensure_started w chain).status.started_at chain.spec.timeout)) [
              | inl late ↦
                  rw (eq, filled, late, reconcile_running)
                    (time_out_run-AllSound (ensure_started w chain)
                      (ensure_started-AllSound chain all))
              | inr timely ↦
                  rw (eq, filled, timely, reconcile_running)
                    (advance_run-AllSound nc (ensure_started w chain)
                      (ensure_started-AllSound chain all))
            ]
    ]
  ]
