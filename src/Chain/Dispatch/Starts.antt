-- ===== src/Chain/Dispatch/Starts.antt =====
-- The publishing loop of chain_controller.go in a pass in which nothing outside fails.
use roundtable.Prelude.{
  ◌≡◌, refl, sym, ap, ◌∙◌, inl, inr, true, false, List, [], ◌∷◌, none, some, Str, str_eq_refl,
  Bool-cases, Option-cases, arith,
}
use mathlib.Core.List.{Memᴰ}
use roundtable.Nats.Subjects.{task_subject}
use roundtable.Api.Meta.{found}
use roundtable.Api.Chain.{ChainStep, ChainStepStatus, Chain, running}
use roundtable.Chain.World.{World, Knight, NatsConfig, NatsClient, text}
use roundtable.Chain.Lookup.{status_of, write_status}
use roundtable.Chain.Lookup.Laws.{status_names, is_some-status_of, status_of-write_status}
use roundtable.Chain.Template.{render_template}
use roundtable.Chain.Completion.{still_running}
use roundtable.Chain.Completion.Running.{still_running-status_of}
use roundtable.Chain.Dispatch.{
  payload_of, mark_running, publish_answered, publish_with, publish_step, start_known,
  start_rendered, start_step, is_ready, dispatch_step, dispatch_steps,
}
use roundtable.Chain.Dispatch.Panic.{covers}
use roundtable.Chain.Dispatch.Order.{dispatch_steps-settled}
use roundtable.Chain.Dispatch.Moves.{IsReady}

module _ {C : Type 0} (w : World C) (nc : NatsConfig) (chain : Chain C)
    (s : List ChainStepStatus) where
  -- The step's task renders, its knight is found, and the publish of the task to it is accepted.
  pub record CanStart (step : ChainStep) : Type 0 where
    pub task : Str
    pub renders : render_template w s chain.spec.input step.task ≡ text task
    pub knight : Knight
    pub knows : w.get_knight chain.namespace step.knight_ref ≡ found knight
    pub client : NatsClient
    pub connected : w.nats ≡ some client
    pub accepts :
        client.publish_json
          (task_subject nc.subject_prefix knight.domain step.knight_ref)
          (payload_of w nc chain step task)
        ≡ none

  -- What starting asks of the outside does not fail for any step of the chain that is ready.
  abbrev pub IsWorking : Type 0
  IsWorking =
      (step : ChainStep) → Memᴰ step chain.spec.steps → IsReady w nc chain step s → CanStart step

  module _ (works : IsWorking) where
    start_step-works :
        (step : ChainStep)
        → CanStart step
        → (start_step w nc chain step s).0 ≡ write_status step.name (mark_running w nc chain step) s
    unfolding start_step start_rendered start_known publish_step publish_with publish_answered
    start_step-works step can = ground (arith, can.renders, can.knows, can.connected, can.accepts)

    -- A ready step is Running after its round.
    dispatch_step-works :
        (step : ChainStep) (own : ChainStepStatus)
        → Memᴰ step chain.spec.steps
        → status_of s step.name ≡ some own
        → is_ready w nc chain step own s ≡ true
        → (ss : ChainStepStatus) × (status_of (dispatch_step w nc chain step s).statuses step.name
            ≡ some ss)
          × (ss.phase ≡ running)
    unfolding dispatch_step
    dispatch_step-works step own listed has ready =
        let keeps : (x : ChainStepStatus) → (mark_running w nc chain step x).name ≡ x.name =
          unfold mark_running in λ x. refl in
        (
          mark_running w nc chain step own,
          ground (
            arith,
            has,
            ready,
            start_step-works step
                (works step listed (record { own = own; has = has; ready = ready })),
            str_eq_refl step.name,
            status_of-write_status (mark_running w nc chain step) keeps step.name step.name s,
          ),
          unfold mark_running in refl,
        )

    dispatch_step-calm :
        (step : ChainStep) (own : ChainStepStatus)
        → status_of s step.name ≡ some own
        → (dispatch_step w nc chain step s).panicked ≡ false
    unfolding dispatch_step
    dispatch_step-calm step own has = ground (arith, has)

    dispatch_step-waits :
        (step : ChainStep) (own : ChainStepStatus)
        → status_of s step.name ≡ some own
        → is_ready w nc chain step own s ≡ false
        → (dispatch_step w nc chain step s).statuses ≡ s
    unfolding dispatch_step
    dispatch_step-waits step own has waits = ground (arith, has, waits)

    -- A ready step that waits in the list is still ready when its round comes.
    later :
        (step first : ChainStep) (steps : List ChainStep) (own : ChainStepStatus)
        → Memᴰ step (first ∷ steps)
        → IsReady w nc chain step s
        → status_of s first.name ≡ some own
        → is_ready w nc chain first own s ≡ false
        → Memᴰ step steps
    later step first steps own (Memᴰ.head e) r has waits =
        let same : some r.own ≡ some own = sym r.has ∙ ap (λ x. status_of s x.name) e ∙ has in
        ground (arith, same, r.ready, e, waits, ap (λ x. is_ready w nc chain x own s) e)
    later step first steps own (Memᴰ.tail m) r has waits = m

    pub dispatch_steps-starts :
        (steps : List ChainStep) (step : ChainStep)
        → ((x : ChainStep) → Memᴰ x steps → Memᴰ x chain.spec.steps)
        → Memᴰ step steps
        → IsReady w nc chain step s
        → covers (status_names s) steps ≡ true
        → still_running (dispatch_steps w nc chain steps s).statuses ≡ true
    unfolding dispatch_steps covers
    dispatch_steps-starts [] step within m r c = elim m [ ]
    dispatch_steps-starts (first ∷ steps) step within m r c =
        elim (Option-cases (status_of s first.name)) [
          | inl e ↦ ground (arith, e, c, is_some-status_of s first.name)
          | inr (own, e) ↦
              let d = dispatch_step w nc chain first s in
              let calm = dispatch_step-calm first own e in
              elim (Bool-cases (is_ready w nc chain first own s)) [
                | inl ready ↦
                    let (ss, has, run) =
                      dispatch_step-works first own (within first (Memᴰ.head refl)) e ready in
                    let stays =
                      dispatch_steps-settled w nc chain steps d.statuses first.name ss has
                        (ground (arith, run)) in
                    rw calm (
                      still_running-status_of (dispatch_steps w nc chain steps d.statuses).statuses
                        first.name ss stays run)
                | inr waits ↦
                    let same = dispatch_step-waits first own e waits in
                    let rest =
                      dispatch_steps-starts steps step (λ x n. within x (Memᴰ.tail n))
                        (later step first steps own m r e waits) r (ground (arith, c)) in
                    rw (calm, same) rest
              ]
        ]
