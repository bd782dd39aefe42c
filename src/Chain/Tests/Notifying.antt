-- ===== src/Chain/Tests/Notifying.antt =====
-- The completion webhook of the chain of two steps.
use roundtable.Prelude.{◌≡◌, refl, not, some, bytes, All, ◌==◌}
use roundtable.Api.Chain.{ChainPhase}
use roundtable.Notify.{Payload}
use roundtable.Chain.Notification.{
  webhook_of, notification_pending, chain_notify_payload, Attempt, deliver_notification,
}
use roundtable.Chain.Notification.Laws.{
  PostsAllowed, deliver_notification-pending, deliver_notification-posted,
}
use roundtable.Chain.Tests.Outside.{store, empty_store, hook, hooked, scanned, audit, calm}

abbrev payload : Payload
payload = chain_notify_payload (audit ChainPhase.succeeded scanned) hook

abbrev attempt : Attempt store calm
attempt = deliver_notification store calm (bytes "prod") hook 1 900 empty_store payload

hooked-webhook : webhook_of hooked ≡ some hook
unfolding webhook_of
hooked-webhook = refl

deliver_notification-pending_example :
    notification_pending store calm hooked attempt.conditions ≡ not (attempt.delay == 0)
deliver_notification-pending_example =
    deliver_notification-pending store calm (bytes "prod") hook 1 900 empty_store payload calm
      hooked hook hooked-webhook

deliver_notification-posted_example : All (PostsAllowed calm.notifier hook.url) attempt.effects
deliver_notification-posted_example =
    deliver_notification-posted store calm (bytes "prod") hook 1 900 empty_store payload
