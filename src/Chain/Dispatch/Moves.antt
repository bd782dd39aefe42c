-- ===== src/Chain/Dispatch/Moves.antt =====
-- What one round of the publishing loop of chain_controller.go can do, and what it leaves alone.
use roundtable.Prelude.{
  ◌≡◌, refl, ap, inl, inr, true, false, List, [], ◌∷◌, Option, none, some, Str, str_eq_iff,
  Bool-cases, Option-cases, All, arith,
}
use roundtable.Api.Meta.{Answer, found, failed as call_failed}
use roundtable.Api.Chain.{ChainStep, ChainStepStatus, ChainStepPhase, Chain, pending}
use roundtable.Nats.Subjects.{task_subject}
use roundtable.Chain.World.{
  World, Knight, NatsConfig, NatsClient, Effect, published, Rendered, text, render_error,
}
use roundtable.Chain.Lookup.{status_of, write_status}
use roundtable.Chain.Lookup.Laws.{status_of-write_status, All-write_status}
use roundtable.Chain.Template.{render_template}
use roundtable.Chain.Kv.{is_pending}
use roundtable.Chain.Dispatch.{
  deps_ready, payload_of, fail_render, mark_running, publish_answered, publish_with, publish_step,
  start_known, start_rendered, start_step, is_ready, dispatch_step,
}
use roundtable.Chain.Invariant.{IsSound, fail_render-IsSound, mark_running-IsSound}

module _ {C : Type 0} (w : World C) (nc : NatsConfig) (chain : Chain C) where
  -- The step has a status, and is ready.
  pub record IsReady (step : ChainStep) (s : List ChainStepStatus) : Type 0 where
    pub own : ChainStepStatus
    pub has : status_of s step.name ≡ some own
    pub ready : is_ready w nc chain step own s ≡ true

  -- The effect of a publish.
  abbrev pub sent : ChainStep → (subject task : Str) → List (Effect C)
  sent step subject task = published subject (payload_of w nc chain step task) ∷ []

  -- What starting a step can do.
  pub data Start (step : ChainStep) (s t : List ChainStepStatus) (effects : List (Effect C))
      : Type 0 where
    nothing : t ≡ s → effects ≡ [] → Start step s t effects
    refused :
        (subject task : Str) → t ≡ s → effects ≡ sent step subject task → Start step s t effects
    unrendered :
        (reason : Str)
        → t ≡ write_status step.name (fail_render w nc chain reason) s
        → effects ≡ []
        → Start step s t effects
    started :
        (subject task : Str)
        → t ≡ write_status step.name (mark_running w nc chain step) s
        → effects ≡ sent step subject task
        → Start step s t effects

  publish_answered-Start :
      (step : ChainStep) (subject task : Str) (s : List ChainStepStatus) (e : Option Str)
      → Start step s (publish_answered w nc chain step s e) (sent step subject task)
  unfolding publish_answered
  publish_answered-Start step subject task s (some e) = refused subject task refl refl
  publish_answered-Start step subject task s none = started subject task refl refl

  publish_with-Start :
      (step : ChainStep) (subject task : Str) (s : List ChainStepStatus) (n : Option NatsClient)
      → let (t, effects) = publish_with w nc chain step subject task s n in Start step s t effects
  unfolding publish_with
  publish_with-Start step subject task s none = nothing refl refl
  publish_with-Start step subject task s (some client) =
      publish_answered-Start step subject task s
        (client.publish_json subject (payload_of w nc chain step task))

  start_known-Start :
      (step : ChainStep) (task : Str) (s : List ChainStepStatus) (answer : Answer Knight)
      → let (t, effects) = start_known w nc chain step task s answer in Start step s t effects
  unfolding start_known publish_step
  start_known-Start step task s (call_failed e) = nothing refl refl
  start_known-Start step task s (found knight) =
      publish_with-Start step (task_subject nc.subject_prefix knight.domain step.knight_ref) task s
        w.nats

  start_rendered-Start :
      (step : ChainStep) (s : List ChainStepStatus) (r : Rendered)
      → let (t, effects) = start_rendered w nc chain step s r in Start step s t effects
  unfolding start_rendered
  start_rendered-Start step s (render_error reason) = unrendered reason refl refl
  start_rendered-Start step s (text task) =
      start_known-Start step task s (w.get_knight chain.namespace step.knight_ref)

  start_step-Start :
      (step : ChainStep) (s : List ChainStepStatus)
      → let (t, effects) = start_step w nc chain step s in Start step s t effects
  unfolding start_step
  start_step-Start step s =
      start_rendered-Start step s (render_template w s chain.spec.input step.task)

  -- One round leaves everything as it was, or starts a step that is ready.
  pub data Move (step : ChainStep) (s t : List ChainStepStatus) (effects : List (Effect C))
      : Type 0 where
    idle : t ≡ s → effects ≡ [] → Move step s t effects
    starts : IsReady step s → Start step s t effects → Move step s t effects

  pub dispatch_step-Move :
      (step : ChainStep) (s : List ChainStepStatus)
      → let d = dispatch_step w nc chain step s in Move step s d.statuses d.effects
  unfolding dispatch_step
  dispatch_step-Move step s = elim (Option-cases (status_of s step.name)) [
    | inl e ↦ rw (e, dispatch_step) (idle refl refl)
    | inr (own, e) ↦ elim (Bool-cases (is_ready w nc chain step own s)) [
      | inr waits ↦ rw (e, waits, dispatch_step) (idle refl refl)
      | inl ready ↦
          rw (e, ready, dispatch_step)
            (starts (record { own = own; has = e; ready = ready }) (start_step-Start step s))
    ]
  ]

  -- A step that is ready is Pending, and its dependencies are satisfied.
  pub IsReady-pending :
      (step : ChainStep) (s : List ChainStepStatus) (r : IsReady step s)
      → (r.own.phase ≡ pending) × (deps_ready chain.spec.steps s step.depends_on ≡ true)
  unfolding is_ready
  IsReady-pending step s r =
      (pending_of r.own.phase (ground (arith, r.ready)), ground (arith, r.ready))
    where
      pending_of : (p : ChainStepPhase) → is_pending p ≡ true → p ≡ pending
      pending_of p h = ground arith

  Start-IsSound :
      (step : ChainStep) (s t : List ChainStepStatus) (effects : List (Effect C))
      → IsReady step s
      → Start step s t effects
      → All (IsSound chain.spec) s
      → All (IsSound chain.spec) t
  Start-IsSound step s t effects r (nothing e _) all = rw e all
  Start-IsSound step s t effects r (refused _ _ e _) all = rw e all
  Start-IsSound step s t effects r (unrendered reason e _) all = rw e (
      All-write_status (IsSound chain.spec) (fail_render w nc chain reason) step.name s all
        (λ ss _. fail_render-IsSound w nc chain reason ss))
  Start-IsSound step s t effects r (started _ _ e _) all = rw e (
      All-write_status (IsSound chain.spec) (mark_running w nc chain step) step.name s all (λ ss q.
        mark_running-IsSound w nc chain step ss
          (ground (arith, q, r.has, (IsReady-pending step s r).0))))

  write-settled :
      (f : ChainStepStatus → ChainStepStatus)
      → ((x : ChainStepStatus) → (f x).name ≡ x.name)
      → (step : ChainStep) (s : List ChainStepStatus) (n : Str) (ss : ChainStepStatus)
      → IsReady step s
      → status_of s n ≡ some ss
      → is_pending ss.phase ≡ false
      → status_of (write_status step.name f s) n ≡ some ss
  write-settled f keeps step s n ss r has done = ground (
    arith,
    status_of-write_status f keeps step.name n s,
    has,
    r.has,
    str_eq_iff step.name n,
    (IsReady-pending step s r).0,
    ap (status_of s) {x = step.name} {y = n},
  )

  -- A status that is not Pending is not touched.
  Start-settled :
      (step : ChainStep) (s t : List ChainStepStatus) (effects : List (Effect C)) (n : Str)
      (ss : ChainStepStatus)
      → IsReady step s
      → Start step s t effects
      → status_of s n ≡ some ss
      → is_pending ss.phase ≡ false
      → status_of t n ≡ some ss
  Start-settled step s t effects n ss r (nothing e _) has done = rw e has
  Start-settled step s t effects n ss r (refused _ _ e _) has done = rw e has
  Start-settled step s t effects n ss r (unrendered reason e _) has done = rw e (
      write-settled (fail_render w nc chain reason) (unfold fail_render in λ x. refl) step s n ss r
        has done)
  Start-settled step s t effects n ss r (started _ _ e _) has done = rw e (
      write-settled (mark_running w nc chain step) (unfold mark_running in λ x. refl) step s n ss r
        has done)

  pub Move-IsSound :
      (step : ChainStep) (s t : List ChainStepStatus) (effects : List (Effect C))
      → Move step s t effects
      → All (IsSound chain.spec) s
      → All (IsSound chain.spec) t
  Move-IsSound step s t effects (idle e _) all = rw e all
  Move-IsSound step s t effects (starts r st) all = Start-IsSound step s t effects r st all

  pub Move-settled :
      (step : ChainStep) (s t : List ChainStepStatus) (effects : List (Effect C)) (n : Str)
      (ss : ChainStepStatus)
      → Move step s t effects
      → status_of s n ≡ some ss
      → is_pending ss.phase ≡ false
      → status_of t n ≡ some ss
  Move-settled step s t effects n ss (idle e _) has done = rw e has
  Move-settled step s t effects n ss (starts r st) has done =
      Start-settled step s t effects n ss r st has done
