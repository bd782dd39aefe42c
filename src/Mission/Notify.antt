-- ===== src/Mission/Notify.antt =====
-- The completion webhook of a mission: `missionNotifyPayload` of internal/controller/notification.go,
-- and `reconcileNotification`.
use roundtable.Prelude.{
  ℕ, [], ◌∷◌, ◌++◌, map, Option, none, some, bytes, is_empty, ◌==◌, if◌then◌else◌,
}
use roundtable.Api.Meta.{ApiError, complete, StatusConditions}
use roundtable.Api.Chain.{WebhookSink}
use roundtable.Api.Phase.{mission_phase_text}
use roundtable.Api.Mission.{Mission}
use roundtable.Notify.{schema_v1, Payload, truncate}
use roundtable.Chain.Run.{Outcome, requeue_fast}
use roundtable.Chain.Notification.{
  webhook_of, notification_pending, notify_completed_at, deliver_notification,
}
use roundtable.Mission.World.{shared, updated_mission_status, MissionWorld}
use roundtable.Mission.Run.{MissionRun, requeue_in}
use roundtable.Mission.Outcome.{is_true, terminal_outcome}
use roundtable.Mission.Results.{results_bucket}

-- The delay of a pass that notified, by the answer of its status write.
abbrev pub notified_outcome : (delay : ℕ) → Option ApiError → Outcome
notified_outcome delay (some e) = requeue_in requeue_fast
notified_outcome delay none = requeue_in (if delay == 0 then requeue_fast else delay)

module _ (m : StatusConditions) where
  -- It is called with a webhook in the spec only.
  unfoldable pub mission_notify_payload : Mission m.Conditions → WebhookSink → Payload
  unfolding mission_phase_text
  mission_notify_payload mission webhook =
      let st = mission.status in
      let (output, cut) = truncate st.result in
      let phase = mission_phase_text (terminal_outcome m mission) in
      record {
        schema = schema_v1;
        kind = bytes "Mission";
        name = mission.name;
        namespace = mission.namespace;
        uid = mission.uid;
        phase = phase;
        round_table_ref = mission.spec.round_table_ref;
        started_at = st.started_at;
        finished_at = st.completed_at;
        steps = [];
        output = output;
        truncated = cut;
        output_ref =
            if is_empty st.results_config_map
            then none
            else some (record {
              nats_kv = some (record { bucket = results_bucket; key = mission.name });
            });
        context = webhook.context;
        idempotency_key = mission.uid ++ bytes "/" ++ phase;
      }

module _ (m : StatusConditions) (w : MissionWorld m.Conditions) where
  -- An attempt for this webhook, and the status write.
  unfoldable pub notify_webhook : Mission m.Conditions → WebhookSink → MissionRun m.Conditions
  unfolding mission_notify_payload deliver_notification notify_completed_at
  notify_webhook mission webhook =
      let st = mission.status in
      let attempt =
        deliver_notification m w.base mission.namespace webhook mission.generation
          (notify_completed_at m w.base st.completed_at st.conditions complete) st.conditions
          (mission_notify_payload m mission webhook) in
      let noted : Mission m.Conditions = record mission {
        status = record st { conditions = attempt.conditions };
      } in
      record {
        outcome = notified_outcome attempt.delay (w.update_mission_status noted);
        mission = noted;
        effects = map shared attempt.effects ++ updated_mission_status noted ∷ [];
      }

  -- The webhook that is still to be notified.
  unfoldable pub due_webhook : Mission m.Conditions → Option WebhookSink
  due_webhook mission =
      let conditions = mission.status.conditions in
      let due = webhook_of mission.spec.notify in
      if is_true m conditions complete
      then if notification_pending m w.base mission.spec.notify conditions then due else none
      else none

  unfoldable pub notify_due :
      Option WebhookSink → Mission m.Conditions → Option (MissionRun m.Conditions)
  unfolding notify_webhook
  notify_due none mission = none
  notify_due (some webhook) mission = some (notify_webhook mission webhook)

  -- `reconcileNotification`; `none`: there is nothing to notify.
  unfoldable pub notify_mission : Mission m.Conditions → Option (MissionRun m.Conditions)
  unfolding due_webhook notify_due
  notify_mission mission = notify_due (due_webhook mission) mission
