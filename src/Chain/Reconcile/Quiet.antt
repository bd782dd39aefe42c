-- ===== src/Chain/Reconcile/Quiet.antt =====
-- Two passes of chain_controller.go over a chain in a terminal phase.
use roundtable.Prelude.{
  ℕ, ◌≡◌, refl, sym, ap, ◌∙◌, inl, inr, true, false, not, [], Option, none, some, ◌==◌, Bool-cases,
  Option-cases, arith,
}
use roundtable.Api.Meta.{
  ApiError, conflict, not_found, already_exists, other, complete, StatusConditions,
}
use roundtable.Api.Chain.{WebhookSink, NotifySpec, Chain}
use roundtable.Chain.World.{World}
use roundtable.Chain.Run.{returned, no_requeue, status_outcome, update_status}
use roundtable.Chain.Notification.{
  webhook_of, notification_pending, notify_completed_at, chain_notify_payload, deliver_notification,
}
use roundtable.Chain.Notification.Laws.{deliver_notification-pending}
use roundtable.Chain.Reconcile.{notify_completion, reconcile_terminal, reconcile_valid}
use roundtable.Chain.Reconcile.Laws.{
  effects-reconcile_terminal, IsAtRest, reconcile_valid-terminal, reconcile_valid-rest,
}

-- A status write that ends in no error and no requeue was asked for no delay.
status_outcome-delay :
    (delay : ℕ) (answer : Option ApiError)
    → status_outcome delay answer ≡ returned no_requeue none
    → delay ≡ 0
status_outcome-delay delay none h = cc
status_outcome-delay delay (some conflict) h = cc
status_outcome-delay delay (some not_found) h = cc
status_outcome-delay delay (some already_exists) h = cc
status_outcome-delay delay (some (other e)) h = cc

module _ (m : StatusConditions) (w w' : World m.Conditions) where
  notify_completion-pending :
      (chain : Chain m.Conditions) (webhook : WebhookSink)
      → webhook_of chain.spec.notify ≡ some webhook
      → (notify_completion m w chain webhook).outcome ≡ returned no_requeue none
      → let t = (notify_completion m w chain webhook).chain in
        notification_pending m w' t.spec.notify t.status.conditions ≡ false
  unfolding notify_completion update_status
  notify_completion-pending chain webhook e h =
      let st = chain.status in
      let at = notify_completed_at m w st.completed_at st.conditions complete in
      let payload = chain_notify_payload chain webhook in
      let a =
        deliver_notification m w chain.namespace webhook chain.generation at st.conditions
          payload in
      let pending =
        deliver_notification-pending m w chain.namespace webhook chain.generation at st.conditions
          payload w' chain.spec.notify webhook e in
      let no_delay : a.delay ≡ 0 = status_outcome-delay a.delay _ h in
      pending ∙ ap (λ n. not (n == 0)) no_delay

  -- What the pass does, by what there is to do.
  chain_if_over :
      (chain : Chain m.Conditions)
      → notification_pending m w chain.spec.notify chain.status.conditions ≡ false
      → (reconcile_terminal m w chain).chain ≡ chain
  unfolding reconcile_terminal
  chain_if_over chain over = elim (Option-cases (webhook_of chain.spec.notify)) [
    | inl e ↦ ground (arith, e)
    | inr (webhook, e) ↦ ground (arith, e, over)
  ]

  run_if_due :
      (chain : Chain m.Conditions) (webhook : WebhookSink)
      → webhook_of chain.spec.notify ≡ some webhook
      → notification_pending m w chain.spec.notify chain.status.conditions ≡ true
      → reconcile_terminal m w chain ≡ notify_completion m w chain webhook
  unfolding reconcile_terminal
  run_if_due chain webhook e due = ground (arith, e, due)

  pending-none :
      (v : World m.Conditions) (spec : Option NotifySpec) (conditions : m.Conditions)
      → webhook_of spec ≡ none
      → notification_pending m v spec conditions ≡ false
  unfolding notification_pending
  pending-none v spec conditions e = ground (arith, e)

  pending-world :
      (spec : Option NotifySpec) (conditions : m.Conditions)
      → notification_pending m w' spec conditions ≡ notification_pending m w spec conditions
  unfolding notification_pending
  pending-world spec conditions = refl

  reconcile_terminal-quiet :
      (chain : Chain m.Conditions)
      → (reconcile_terminal m w chain).outcome ≡ returned no_requeue none
      → (reconcile_terminal m w' (reconcile_terminal m w chain).chain).effects ≡ []
  reconcile_terminal-quiet chain h =
      elim (Bool-cases (notification_pending m w chain.spec.notify chain.status.conditions)) [
        | inr over ↦ rw (chain_if_over chain over) (
            effects-reconcile_terminal m w' chain
              (pending-world chain.spec.notify chain.status.conditions ∙ over))
        | inl due ↦ elim (Option-cases (webhook_of chain.spec.notify)) [
          | inl e ↦ ground (arith, due, pending-none w chain.spec.notify chain.status.conditions e)
          | inr (webhook, e) ↦
              let same = run_if_due chain webhook e due in
              rw same (
                effects-reconcile_terminal m w' (notify_completion m w chain webhook).chain
                  (notify_completion-pending chain webhook e (ap (λ r. r.outcome) (sym same) ∙ h)))
        ]
      ]

  -- What a pass does after its checks of the spec and of the schedule, over a chain whose run is over,
  -- which is not suspended and whose generation was seen: if it ends in no error and asks for no
  -- further pass, then what the next such pass does over the chain that it left, whatever the outside
  -- then answers, has no effect, so that a completion is not notified twice.
  pub reconcile_valid-quiet :
      (chain : Chain m.Conditions)
      → IsAtRest m w chain
      → (reconcile_valid m w chain).outcome ≡ returned no_requeue none
      → (reconcile_valid m w' (reconcile_valid m w chain).chain).effects ≡ []
  reconcile_valid-quiet chain rest h =
      let first = reconcile_valid-terminal m w chain rest in
      let (_, _, _, _, _, _, still) = reconcile_valid-rest m w chain rest in
      let next =
        reconcile_valid-terminal m w' (reconcile_valid m w chain).chain
          (record { unsuspended = still.unsuspended; over = still.over; seen = still.seen }) in
      rw (next, first) (reconcile_terminal-quiet chain (ap (λ r. r.outcome) (sym first) ∙ h))
