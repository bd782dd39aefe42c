-- ===== src/Chain/Completion/Laws.antt =====
-- What the conclusion of a run says of its step statuses, and how it counts.
use roundtable.Prelude.{
  inl, inr, Option-cases, ℕ, suc, ◌≡◌, ◌≢◌, ◌↔◌, refl, Bool, true, false, List, [], ◌∷◌, map, some,
  ltb, if◌then◌else◌, All, arith,
}
use roundtable.Api.Meta.{Condition, condition_true, complete, StatusConditions}
use roundtable.Api.Chain.{ChainStep, ChainStepStatus, unset, ChainPhase, Chain}
use roundtable.Chain.World.{World}
use roundtable.Chain.Lookup.{spec_of}
use roundtable.Chain.Completion.{
  continues, hard_failed, counts_as_hard, all_terminal, any_failed, still_running, skip_if_pending,
  skip_pending, run_is_over, count_if, verdict, complete_run,
}

-- The two tests for a hard failure agree.
counts_as_hard-hard_failed :
    (steps : List ChainStep) (ss : ChainStepStatus) → counts_as_hard steps ss ≡ hard_failed steps ss
unfolding counts_as_hard hard_failed continues
counts_as_hard-hard_failed steps ss = elim (Option-cases (spec_of steps ss.name)) [
  | inl e ↦ ground (arith, e)
  | inr (step, e) ↦ ground (arith, e)
]

any_failed-count_if :
    (steps : List ChainStep) (s : List ChainStepStatus)
    → any_failed steps s ≡ ltb 0 (count_if (counts_as_hard steps) s)
unfolding any_failed count_if
any_failed-count_if steps [] = ground arith
any_failed-count_if steps (ss ∷ s) =
    ground (arith, any_failed-count_if steps s, counts_as_hard-hard_failed steps ss)

-- A run is concluded as Failed, by its count of hard failures, exactly when the loop that looks for a
-- failure which ends the run finds one, though each has a test of its own.
pub verdict-failed_iff :
    (steps : List ChainStep) (s : List ChainStepStatus)
    → ((verdict steps s).phase ≡ ChainPhase.failed) ↔ (any_failed steps s ≡ true)
unfolding verdict
verdict-failed_iff steps s = ground (arith, any_failed-count_if steps s)

-- Every phase that is not unset is Terminal, Pending or Running.
skipped_terminal :
    (steps : List ChainStep) (s : List ChainStepStatus)
    → All (λ ss. ss.phase ≢ unset) s
    → still_running (map skip_if_pending s) ≡ false
    → all_terminal (map skip_if_pending s) ≡ true
unfolding still_running all_terminal
skipped_terminal steps [] all idle = refl
skipped_terminal steps (ss ∷ s) all idle =
    ground (arith, idle, all.0, skipped_terminal steps s all.1)

-- When a run is over, every step is Succeeded, Failed or Skipped in the statuses it is concluded
-- with, if none had lost its phase.
pub run_is_over-all_terminal :
    (steps : List ChainStep) (s : List ChainStepStatus)
    → All (λ ss. ss.phase ≢ unset) s
    → run_is_over steps s ≡ true
    → all_terminal (skip_pending steps s) ≡ true
unfolding run_is_over skip_pending
run_is_over-all_terminal steps s all over = ground (arith, over, skipped_terminal steps s all)

-- The phases of a run that is over.
unfoldable pub is_concluded : ChainPhase → Bool
is_concluded ChainPhase.failed = true
is_concluded ChainPhase.succeeded = true
is_concluded ChainPhase.partially_succeeded = true
is_concluded _ = false

module _ (m : StatusConditions) (w : World m.Conditions) where
  -- Concluding a run sets a terminal phase and the completion time, counts the run once, as failed
  -- exactly when a step failed that does not continue on failure and as completed otherwise, and
  -- leaves a Complete condition that is true.
  pub complete_run_lem :
      (chain : Chain m.Conditions)
      → let st = chain.status in
        let st' = (complete_run m w chain).status in
        let bad = any_failed chain.spec.steps st.step_statuses in
        (is_concluded st'.phase ≡ true)
        × (st'.completed_at ≡ some w.now)
        × (st'.runs_failed ≡ (if bad then suc st.runs_failed else st.runs_failed))
        × (st'.runs_completed ≡ (if bad then st.runs_completed else suc st.runs_completed))
        × (c : Condition) × (at : ℕ) × (m.find st'.conditions complete ≡ some (c, at))
        × (c.status ≡ condition_true)
  unfolding complete_run verdict is_concluded
  complete_run_lem chain =
      let steps = chain.spec.steps in
      let s = chain.status.step_statuses in
      let cond : Condition = record {
        type = complete;
        status = condition_true;
        reason = (verdict steps s).reason;
        message = (verdict steps s).message;
        observed_generation = chain.generation;
      } in
      let (at, e) = m.find-set w.now chain.status.conditions cond in
      (
        ground (arith, any_failed-count_if steps s),
        refl,
        ground (arith, any_failed-count_if steps s),
        ground (arith, any_failed-count_if steps s),
        cond,
        at,
        e,
        refl,
      )
