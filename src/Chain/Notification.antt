-- ===== src/Chain/Notification.antt =====
-- internal/controller/notification.go, for chains: the completion webhook.
pub mod Laws
use roundtable.Prelude.{
  ℕ, zero, suc, Bool, true, false, ◌&&◌, ◌||◌, not, List, [], ◌∷◌, ◌++◌, map, Option, none, some,
  Str, bytes, ◌⊎◌, inl, inr, is_empty, str_eq, if◌then◌else◌,
}
use roundtable.Api.Meta.{
  Answer, found, failed as call_failed, ConditionStatus, condition_true, condition_false,
  condition_unknown, ConditionType, complete, notification_sent, Reason, notify_delivered,
  notify_retrying, notify_delivery_failed, notify_url_not_allowed, Message, url_not_allowed,
  giving_up, retrying, delivered, DeliveryError, secret_unreadable, secret_has_no_key,
  not_delivered, Condition, StatusConditions,
}
use roundtable.Api.Chain.{
  NotifySpec, WebhookSink, ChainStep, ChainStepStatus, ChainStepPhase, succeeded, ChainPhase, Chain,
}
use roundtable.Notify.{
  schema_v1, StepSummary, OutputRef, Payload, Notifier, url_allowed, expired, backoff, truncate,
  delivery_error,
}
use roundtable.Chain.World.{
  World, Event, notification_rejected, notification_failed, notification_retrying, Effect, event,
  posted,
}
use roundtable.Chain.Lookup.{spec_of}
use roundtable.Chain.Kv.{outputs_bucket, output_key}
use roundtable.Chain.Completion.{is_succeeded}

unfoldable pub webhook_of : Option NotifySpec → Option WebhookSink
webhook_of none = none
webhook_of (some spec) = spec.webhook

-- The conditions True and False are final.
abbrev pub is_final : ConditionStatus → Bool
is_final condition_unknown = false
is_final _ = true

-- The `string` conversions of the phases.
unfoldable pub step_phase_text : ChainStepPhase → Str
step_phase_text ChainStepPhase.unset = []
step_phase_text ChainStepPhase.pending = bytes "Pending"
step_phase_text ChainStepPhase.running = bytes "Running"
step_phase_text succeeded = bytes "Succeeded"
step_phase_text ChainStepPhase.failed = bytes "Failed"
step_phase_text ChainStepPhase.skipped = bytes "Skipped"

unfoldable pub phase_text : ChainPhase → Str
phase_text ChainPhase.unset = []
phase_text ChainPhase.idle = bytes "Idle"
phase_text ChainPhase.running = bytes "Running"
phase_text ChainPhase.succeeded = bytes "Succeeded"
phase_text ChainPhase.failed = bytes "Failed"
phase_text ChainPhase.suspended = bytes "Suspended"
phase_text ChainPhase.partially_succeeded = bytes "PartiallySucceeded"

knight_by_step : List ChainStep → Str → Str
knight_by_step steps name = elim (spec_of steps name) [ none ↦ [] | some step ↦ step.knight_ref ]

summary : List ChainStep → ChainStepStatus → StepSummary
unfolding knight_by_step
summary steps ss = record {
  name = ss.name;
  knight = knight_by_step steps ss.name;
  phase = step_phase_text ss.phase;
}

-- The last succeeded step that has an output.
last_output : List ChainStepStatus → Option ChainStepStatus
last_output [] = none
last_output (ss ∷ statuses) =
    let later = last_output statuses in
    elim later [
      | some last ↦ some last
      | none ↦ if is_succeeded ss.phase && not (is_empty ss.output) then some ss else none
    ]

-- A key of a secret's data, if it is there.
secret_value : List (Str × Str) → Str → Option Str
secret_value [] key = none
secret_value ((k, v) ∷ entries) key =
    let rest = secret_value entries key in if str_eq k key then some v else rest

-- The key of a run: a run ID, where there is one, keeps the runs of a chain apart.
unfoldable pub idempotency_key : (uid run_id : Str) → ChainPhase → Str
unfolding phase_text
idempotency_key uid run_id phase =
    if is_empty run_id
    then uid ++ bytes "/" ++ phase_text phase
    else uid ++ bytes "/" ++ run_id ++ bytes "/" ++ phase_text phase

-- `chainNotifyPayload`. It is called with a webhook in the spec only.
unfoldable pub chain_notify_payload : {C : Type 0} → Chain C → WebhookSink → Payload
unfolding summary last_output
chain_notify_payload chain webhook =
    let statuses = chain.status.step_statuses in
    let source = last_output statuses in
    let (output, cut) = truncate (elim source [ none ↦ [] | some ss ↦ ss.output ]) in
    record {
      schema = schema_v1;
      kind = bytes "Chain";
      name = chain.name;
      namespace = chain.namespace;
      uid = chain.uid;
      phase = phase_text chain.status.phase;
      round_table_ref = chain.spec.round_table_ref;
      started_at = chain.status.started_at;
      finished_at = chain.status.completed_at;
      steps = map (summary chain.spec.steps) statuses;
      output = output;
      truncated = cut;
      output_ref = elim source [
        | none ↦ none
        | some ss ↦
            if is_empty ss.name
            then none
            else some (record {
              nats_kv =
                  some (record { bucket = outputs_bucket; key = output_key chain.name ss.name });
            })
      ];
      context = webhook.context;
      idempotency_key = idempotency_key chain.uid chain.status.run_id chain.status.phase;
    }

module _ (m : StatusConditions) (w : World m.Conditions) where
  pending_by : Option (Condition × ℕ) → Bool
  pending_by none = true
  pending_by (some (c, at)) = not (is_final c.status)

  unfoldable pub notification_pending : Option NotifySpec → m.Conditions → Bool
  unfolding webhook_of pending_by
  notification_pending spec conditions = elim (webhook_of spec) [
    | none ↦ false
    | some webhook ↦ pending_by (m.find conditions notification_sent)
  ]

  unfoldable pub notify_completed_at : Option ℕ → m.Conditions → ConditionType → ℕ
  notify_completed_at (some t) conditions type = t
  notify_completed_at none conditions type = elim (m.find conditions type) [
    | some (c, at) ↦ at
    | none ↦ w.now
  ]

  unfoldable pub webhook_token : (namespace : Str) → WebhookSink → DeliveryError ⊎ Str
  unfolding secret_value
  webhook_token namespace webhook = elim webhook.token_secret_ref [
    | none ↦ inr []
    | some ref ↦ elim (w.get_secret namespace ref.name) [
      | call_failed e ↦ inl (secret_unreadable ref.name e)
      | found entries ↦ elim (secret_value entries ref.key) [
        | none ↦ inl (secret_has_no_key ref.name ref.key)
        | some token ↦ inr token
      ]
    ]
  ]

  -- What an attempt leaves behind: the conditions, the delay (0: final), the effects.
  pub record Attempt : Type 0 where
    pub conditions : m.Conditions
    pub delay : ℕ
    pub effects : List (Effect m.Conditions)

  abbrev pub note : ℕ → ConditionStatus → Reason → Message → m.Conditions → m.Conditions
  note generation status reason message conditions = m.set w.now conditions (record {
    type = notification_sent;
    status = status;
    reason = reason;
    message = message;
    observed_generation = generation;
  })

  -- The closure `fail`.
  unfoldable pub fail_delivery :
      Notifier → (generation completed_at : ℕ) → m.Conditions → DeliveryError → Attempt
  fail_delivery n generation completed_at conditions e =
      if expired w.now n completed_at
      then record {
        conditions =
            note generation condition_false notify_delivery_failed (giving_up e) conditions;
        delay = 0;
        effects = event (notification_failed e) ∷ [];
      }
      else record {
        conditions = note generation condition_unknown notify_retrying (retrying e) conditions;
        delay = backoff w.now completed_at;
        effects = event (notification_retrying e) ∷ [];
      }

  unfoldable pub reject_url : (generation : ℕ) → m.Conditions → WebhookSink → Attempt
  reject_url generation conditions webhook = record {
    conditions =
        note generation condition_false notify_url_not_allowed (url_not_allowed webhook.url)
          conditions;
    delay = 0;
    effects = event (notification_rejected webhook.url) ∷ [];
  }

  -- The attempt over an allowed URL.
  unfoldable pub post_notification :
      Notifier
      → (namespace : Str) → WebhookSink
      → (generation completed_at : ℕ) → m.Conditions
      → Payload
      → Attempt
  unfolding fail_delivery
  post_notification n namespace webhook generation completed_at conditions payload =
      elim (webhook_token namespace webhook) [
        | inl e ↦ fail_delivery n generation completed_at conditions e
        | inr token ↦ elim (delivery_error (w.post webhook.url token payload)) [
          | some e ↦
              let failed = fail_delivery n generation completed_at conditions (not_delivered e) in
              record failed { effects = posted webhook.url token payload ∷ failed.effects }
          | none ↦ record {
            conditions =
                note generation condition_true notify_delivered (delivered payload.idempotency_key)
                  conditions;
            delay = 0;
            effects = posted webhook.url token payload ∷ event Event.notification_sent ∷ [];
          }
        ]
      ]

  unfoldable pub deliver_notification :
      (namespace : Str)
      → WebhookSink
      → (generation completed_at : ℕ) → m.Conditions
      → Payload
      → Attempt
  unfolding reject_url
  deliver_notification namespace webhook generation completed_at conditions payload =
      elim w.notifier [
        | none ↦ reject_url generation conditions webhook
        | some n ↦
            let attempt =
              post_notification n namespace webhook generation completed_at conditions payload in
            if url_allowed n webhook.url then attempt else reject_url generation conditions webhook
      ]
