-- ===== src/Chain/Dispatch/Panic.antt =====
-- The nil pointers of the publishing loop of chain_controller.go.
use roundtable.Prelude.{
  ◌≡◌, refl, Bool, true, not, ◌&&◌, List, [], ◌∷◌, Option, none, some, Str, str_eq_refl, arith,
}
use roundtable.Util.Strings.{contains_string}
use roundtable.Api.Chain.{ChainStep, ChainStepStatus, Chain}
use roundtable.Nats.Subjects.{task_subject}
use roundtable.Chain.World.{World, Knight, NatsConfig, NatsClient, Rendered, text, render_error}
use roundtable.Api.Meta.{Answer, found, failed as call_failed}
use roundtable.Chain.Lookup.Laws.{
  status_names, step_names, is_some-status_of, status_names-write_status,
}
use roundtable.Chain.Template.{render_template}
use roundtable.Chain.Dispatch.{
  payload_of, fail_render, mark_running, publish_answered, publish_with, publish_step, start_known,
  start_rendered, start_step, dispatch_step, dispatch_steps,
}

-- Every step has a name of the list.
unfoldable pub covers : List Str → List ChainStep → Bool
covers names [] = true
covers names (step ∷ steps) = contains_string names step.name && covers names steps

covers_of_Subset :
    (names : List Str) (steps : List ChainStep)
    → ((n : Str) → contains_string (step_names steps) n ≡ true → contains_string names n ≡ true)
    → covers names steps ≡ true
unfolding covers contains_string
covers_of_Subset names [] sub = refl
covers_of_Subset names (step ∷ steps) sub = ground (
  arith,
  sub step.name,
  str_eq_refl step.name,
  covers_of_Subset names steps (λ n m. sub n (ground (arith, m))),
)

module _ {C : Type 0} (w : World C) (nc : NatsConfig) (chain : Chain C) where
  status_names-publish_answered :
      (step : ChainStep) (statuses : List ChainStepStatus) (e : Option Str)
      → status_names (publish_answered w nc chain step statuses e) ≡ status_names statuses
  unfolding publish_answered
  status_names-publish_answered step statuses (some e) = refl
  status_names-publish_answered step statuses none =
      status_names-write_status (mark_running w nc chain step) (unfold mark_running in λ ss. refl)
        step.name statuses

  status_names-publish_with :
      (step : ChainStep) (subject task : Str) (statuses : List ChainStepStatus)
      (n : Option NatsClient)
      → status_names (publish_with w nc chain step subject task statuses n).0
        ≡ status_names statuses
  unfolding publish_with
  status_names-publish_with step subject task statuses none = refl
  status_names-publish_with step subject task statuses (some client) =
      status_names-publish_answered step statuses
        (client.publish_json subject (payload_of w nc chain step task))

  status_names-start_known :
      (step : ChainStep) (task : Str) (statuses : List ChainStepStatus) (answer : Answer Knight)
      → status_names (start_known w nc chain step task statuses answer).0 ≡ status_names statuses
  unfolding start_known publish_step
  status_names-start_known step task statuses (call_failed e) = refl
  status_names-start_known step task statuses (found knight) =
      status_names-publish_with step (task_subject nc.subject_prefix knight.domain step.knight_ref)
        task statuses w.nats

  status_names-start_rendered :
      (step : ChainStep) (statuses : List ChainStepStatus) (r : Rendered)
      → status_names (start_rendered w nc chain step statuses r).0 ≡ status_names statuses
  unfolding start_rendered
  status_names-start_rendered step statuses (render_error reason) =
      status_names-write_status (fail_render w nc chain reason) (unfold fail_render in λ ss. refl)
        step.name statuses
  status_names-start_rendered step statuses (text task) =
      status_names-start_known step task statuses (w.get_knight chain.namespace step.knight_ref)

  status_names-start_step :
      (step : ChainStep) (statuses : List ChainStepStatus)
      → status_names (start_step w nc chain step statuses).0 ≡ status_names statuses
  unfolding start_step
  status_names-start_step step statuses =
      status_names-start_rendered step statuses
        (render_template w statuses chain.spec.input step.task)

  pub status_names-dispatch_step :
      (step : ChainStep) (statuses : List ChainStepStatus)
      → status_names (dispatch_step w nc chain step statuses).statuses ≡ status_names statuses
  unfolding dispatch_step
  status_names-dispatch_step step statuses = ground (arith, status_names-start_step step statuses)

  panicked-dispatch_step :
      (step : ChainStep) (statuses : List ChainStepStatus)
      → (dispatch_step w nc chain step statuses).panicked
        ≡ not (contains_string (status_names statuses) step.name)
  unfolding dispatch_step
  panicked-dispatch_step step statuses = ground (arith, is_some-status_of statuses step.name)

  pub status_names-dispatch_steps :
      (steps : List ChainStep) (statuses : List ChainStepStatus)
      → status_names (dispatch_steps w nc chain steps statuses).statuses ≡ status_names statuses
  unfolding dispatch_steps
  status_names-dispatch_steps [] statuses = refl
  status_names-dispatch_steps (step ∷ steps) statuses =
      let first = dispatch_step w nc chain step statuses in
      ground (
        arith,
        status_names-dispatch_step step statuses,
        status_names-dispatch_steps steps first.statuses,
      )

  -- The publishing loop dereferences a nil pointer exactly when some step of the spec has no status.
  pub panicked-dispatch_steps :
      (steps : List ChainStep) (statuses : List ChainStepStatus)
      → (dispatch_steps w nc chain steps statuses).panicked
        ≡ not (covers (status_names statuses) steps)
  unfolding dispatch_steps covers
  panicked-dispatch_steps [] statuses = refl
  panicked-dispatch_steps (step ∷ steps) statuses =
      let first = dispatch_step w nc chain step statuses in
      ground (
        arith,
        status_names-dispatch_step step statuses,
        panicked-dispatch_step step statuses,
        panicked-dispatch_steps steps first.statuses,
      )

pub covers-step_names : (steps : List ChainStep) → covers (step_names steps) steps ≡ true
covers-step_names steps = covers_of_Subset (step_names steps) steps (λ n m. m)
