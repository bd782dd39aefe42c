-- ===== src/Chain/Reconcile/Laws.antt =====
-- A pass over a valid chain: its step statuses, and what a terminal phase keeps.
use roundtable.Prelude.{
  ◌≡◌, refl, inl, inr, Bool, true, false, not, ◌&&◌, [], ◌==◌, if◌then◌else◌, Bool-cases,
  Option-cases, arith,
}
use roundtable.Api.Meta.{StatusConditions}
use roundtable.Api.Chain.{ChainPhase, Chain}
use roundtable.Chain.World.{World}
use roundtable.Chain.Kv.Laws.{restore_step_outputs-IsSound}
use roundtable.Chain.Run.{Run, update_status}
use roundtable.Chain.Notification.{webhook_of, notification_pending}
use roundtable.Chain.Running.Laws.{
  AllSound, init_step_statuses-AllSound, reconcile_running-AllSound,
}
use roundtable.Chain.Completion.Laws.{is_concluded}
use roundtable.Chain.Schedule.{is_running_phase}
use roundtable.Chain.Reconcile.{
  with_phase, is_unset, reset_to_idle, notify_completion, reconcile_terminal, dispatch_phase,
  reconcile_valid,
}

module _ (m : StatusConditions) (w : World m.Conditions) where
  reset_to_idle-AllSound : (chain : Chain m.Conditions) → AllSound (reset_to_idle m w chain).chain
  unfolding reset_to_idle update_status
  reset_to_idle-AllSound chain =
      restore_step_outputs-IsSound w _
        (init_step_statuses-AllSound m w (with_phase ChainPhase.idle chain))

  reconcile_terminal-AllSound :
      (chain : Chain m.Conditions) → AllSound chain → AllSound (reconcile_terminal m w chain).chain
  unfolding reconcile_terminal notify_completion update_status
  reconcile_terminal-AllSound chain all = elim (Option-cases (webhook_of chain.spec.notify)) [
    | inl e ↦ rw (e, reconcile_terminal) all
    | inr (webhook, e) ↦
        elim (Bool-cases (notification_pending m w chain.spec.notify chain.status.conditions)) [
          | inl due ↦ rw (e, due, reconcile_terminal) all
          | inr over ↦ rw (e, over, reconcile_terminal) all
        ]
  ]

  if-AllSound :
      (b : Bool) (r s : Run m.Conditions)
      → AllSound r.chain
      → AllSound s.chain
      → AllSound (if b then r else s).chain
  if-AllSound true r s hr hs = hr
  if-AllSound false r s hr hs = hs

  dispatch_phase-AllSound :
      (p : ChainPhase) (chain : Chain m.Conditions)
      → AllSound chain
      → AllSound (dispatch_phase m w p chain).chain
  unfolding dispatch_phase
  dispatch_phase-AllSound ChainPhase.running chain all = reconcile_running-AllSound m w chain all
  dispatch_phase-AllSound ChainPhase.succeeded chain all = reconcile_terminal-AllSound chain all
  dispatch_phase-AllSound ChainPhase.failed chain all = reconcile_terminal-AllSound chain all
  dispatch_phase-AllSound ChainPhase.partially_succeeded chain all =
      reconcile_terminal-AllSound chain all
  dispatch_phase-AllSound ChainPhase.unset chain all = all
  dispatch_phase-AllSound ChainPhase.idle chain all = all
  dispatch_phase-AllSound ChainPhase.suspended chain all = all

  -- Whatever its phase, a pass over a valid chain leaves every step status sound, if it found them
  -- sound.
  pub reconcile_valid-AllSound :
      (chain : Chain m.Conditions) → AllSound chain → AllSound (reconcile_valid m w chain).chain
  unfolding reconcile_valid update_status
  reconcile_valid-AllSound chain all = if-AllSound chain.spec.suspended _ _ all (
      if-AllSound (is_unset chain.status.phase) _ _
        (init_step_statuses-AllSound m w (with_phase ChainPhase.idle chain))
        (if-AllSound
          (not (chain.status.observed_generation == chain.generation)
            && not (is_running_phase chain.status.phase))
          _ _ (reset_to_idle-AllSound chain)
          (dispatch_phase-AllSound chain.status.phase chain all)))

  -- The handler of the terminal phases.
  pub reconcile_terminal_lem :
      (chain : Chain m.Conditions)
      → let t = (reconcile_terminal m w chain).chain in
        (conditions : m.Conditions) × (t
          ≡ record chain { status = record (chain.status) { conditions = conditions } })
  unfolding reconcile_terminal notify_completion update_status notification_pending
  reconcile_terminal_lem chain = elim (Option-cases (webhook_of chain.spec.notify)) [
    | inl e ↦ (chain.status.conditions, ground (arith, e))
    | inr (webhook, e) ↦
        elim (Bool-cases (notification_pending m w chain.spec.notify chain.status.conditions)) [
          | inl due ↦ (
            (notify_completion m w chain webhook).chain.status.conditions,
            ground (arith, e, due),
          )
          | inr over ↦ (chain.status.conditions, ground (arith, e, over))
        ]
  ]

  pub effects-reconcile_terminal :
      (chain : Chain m.Conditions)
      → notification_pending m w chain.spec.notify chain.status.conditions ≡ false
      → (reconcile_terminal m w chain).effects ≡ []
  unfolding reconcile_terminal
  effects-reconcile_terminal chain over = elim (Option-cases (webhook_of chain.spec.notify)) [
    | inl e ↦ ground (arith, e)
    | inr (webhook, e) ↦ ground (arith, e, over)
  ]

  -- The chain's run is over, the chain is not suspended, and its generation was seen.
  pub record IsAtRest (chain : Chain m.Conditions) : Type 0 where
    pub unsuspended : chain.spec.suspended ≡ false
    pub over : is_concluded chain.status.phase ≡ true
    pub seen : (chain.status.observed_generation == chain.generation) ≡ true

  dispatch_phase-concluded :
      (p : ChainPhase) (chain : Chain m.Conditions)
      → is_concluded p ≡ true
      → (is_unset p ≡ false) × (dispatch_phase m w p chain ≡ reconcile_terminal m w chain)
  unfolding dispatch_phase is_concluded
  dispatch_phase-concluded ChainPhase.succeeded chain h = (refl, refl)
  dispatch_phase-concluded ChainPhase.failed chain h = (refl, refl)
  dispatch_phase-concluded ChainPhase.partially_succeeded chain h = (refl, refl)
  dispatch_phase-concluded ChainPhase.running chain h = cc
  dispatch_phase-concluded ChainPhase.unset chain h = cc
  dispatch_phase-concluded ChainPhase.idle chain h = cc
  dispatch_phase-concluded ChainPhase.suspended chain h = cc

  pub reconcile_valid-terminal :
      (chain : Chain m.Conditions)
      → IsAtRest chain
      → reconcile_valid m w chain ≡ reconcile_terminal m w chain
  unfolding reconcile_valid
  reconcile_valid-terminal chain rest = ground (
    arith,
    rest.unsuspended,
    rest.seen,
    dispatch_phase-concluded chain.status.phase chain rest.over,
  )

  -- What a pass does after its checks of the spec and of the schedule, over a chain whose run is over,
  -- which is not suspended and whose generation was seen: it keeps the phase, the step statuses, the
  -- run's ID, the completion time and the counters, and the chain stays such a chain.
  pub reconcile_valid-rest :
      (chain : Chain m.Conditions)
      → IsAtRest chain
      → let st = chain.status in
        let t = (reconcile_valid m w chain).chain in
        (t.status.phase ≡ st.phase)
        × (t.status.step_statuses ≡ st.step_statuses)
        × (t.status.run_id ≡ st.run_id)
        × (t.status.completed_at ≡ st.completed_at)
        × (t.status.runs_completed ≡ st.runs_completed)
        × (t.status.runs_failed ≡ st.runs_failed)
        × IsAtRest t
  reconcile_valid-rest chain rest =
      let (conditions, same) = reconcile_terminal_lem chain in
      rw (reconcile_valid-terminal chain rest, same)
        (
          refl,
          refl,
          refl,
          refl,
          refl,
          refl,
          record { unsuspended = rest.unsuspended; over = rest.over; seen = rest.seen },
        )
