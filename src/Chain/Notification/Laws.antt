-- ===== src/Chain/Notification/Laws.antt =====
-- The completion webhook: where it is posted to, and what its condition says.
use roundtable.Prelude.{
  ℕ, ◌≡◌, refl, ◌⊎◌, inl, inr, true, false, not, List, ◌∷◌, Option, none, some, ◌==◌, Str,
  Bool-cases, Option-cases, All, All-imp, arith, ◌≢◌, sym, ◌∙◌,
}
use roundtable.Api.Meta.{
  ConditionStatus, notification_sent, Condition, Reason, Message, DeliveryError, not_delivered,
  StatusConditions, ConditionType,
}
use roundtable.Api.Chain.{NotifySpec, WebhookSink}
use roundtable.Notify.{Payload, Notifier, url_allowed, expired, backoff, delivery_error}
use roundtable.Notify.Laws.{backoff_bounds}
use roundtable.Chain.World.{World, Effect, posted}
use roundtable.Chain.Notification.{
  webhook_of, is_final, notification_pending, pending_by, webhook_token, Attempt, note,
  fail_delivery, reject_url, post_notification, deliver_notification,
}

-- The URL of an effect that posts.
unfoldable pub posted_url : {C : Type 0} → Effect C → Option Str
posted_url (posted url token payload) = some url
posted_url _ = none

backoff_positive : (now completed_at : ℕ) → false ≡ (backoff now completed_at == 0)
backoff_positive now completed_at = ground (arith, (backoff_bounds now completed_at).0)

-- The effect posts nothing, or posts to this URL.
abbrev PostsTo : {C : Type 0} → Str → Effect C → Type 0
PostsTo url e = (posted_url e ≡ none) ⊎ (posted_url e ≡ some url)

-- The effect posts nothing, or posts to this URL, which the operator's allowlist allows.
abbrev pub PostsAllowed : {C : Type 0} → Option Notifier → Str → Effect C → Type 0
PostsAllowed notifier url e =
    (posted_url e ≡ none)
    ⊎ ((posted_url e ≡ some url)
        × (n : Notifier) × (notifier ≡ some n)
        × (url_allowed n url ≡ true))

module _ (m : StatusConditions) (w : World m.Conditions) where
  -- The attempt leaves a condition that is final exactly when it asks for no delay.
  pub record IsSettled (old : m.Conditions) (a : Attempt m w) : Type 0 where
    pub condition : Condition
    pub at : ℕ
    pub found : m.find a.conditions notification_sent ≡ some (condition, at)
    pub own : condition.type ≡ notification_sent
    pub written : a.conditions ≡ m.set w.now old condition
    pub final : is_final condition.status ≡ (a.delay == 0)

  IsSettled-note :
      (generation : ℕ) (status : ConditionStatus) (reason : Reason) (message : Message)
      (conditions : m.Conditions) (delay : ℕ) (effects : List (Effect m.Conditions))
      → is_final status ≡ (delay == 0)
      → IsSettled conditions (record {
        conditions = note m w generation status reason message conditions;
        delay = delay;
        effects = effects;
      })
  IsSettled-note generation status reason message conditions delay effects h =
      let c : Condition = record {
        type = notification_sent;
        status = status;
        reason = reason;
        message = message;
        observed_generation = generation;
      } in
      let (at, e) = m.find-set w.now conditions c in
      record { condition = c; at = at; found = e; own = refl; written = refl; final = h }

  fail_delivery-IsSettled :
      (n : Notifier) (generation completed_at : ℕ) (conditions : m.Conditions) (e : DeliveryError)
      → IsSettled conditions (fail_delivery m w n generation completed_at conditions e)
  unfolding fail_delivery
  fail_delivery-IsSettled n generation completed_at conditions e =
      elim (Bool-cases (expired w.now n completed_at)) [
        | inl late ↦ rw late (IsSettled-note generation _ _ _ conditions 0 _ refl)
        | inr early ↦
            rw early
              (IsSettled-note generation _ _ _ conditions _ _ (backoff_positive w.now completed_at))
      ]

  posted-IsSettled :
      (old : m.Conditions) (e : Effect m.Conditions) (a : Attempt m w)
      → IsSettled old a
      → IsSettled old (record a { effects = e ∷ a.effects })
  posted-IsSettled old e a h = record {
    condition = h.condition;
    at = h.at;
    found = h.found;
    own = h.own;
    written = h.written;
    final = h.final;
  }

  tokens :
      (r : DeliveryError ⊎ Str) → ((e : DeliveryError) × (r ≡ inl e)) ⊎ ((t : Str) × (r ≡ inr t))
  tokens (inl e) = inl (e, refl)
  tokens (inr t) = inr (t, refl)

  module _ (n : Notifier) (namespace : Str) (webhook : WebhookSink) (generation completed_at : ℕ)
      (conditions : m.Conditions) (payload : Payload) where
    post_notification-IsSettled :
        IsSettled conditions
          (post_notification m w n namespace webhook generation completed_at conditions payload)
    unfolding post_notification
    post_notification-IsSettled = elim (tokens (webhook_token m w namespace webhook)) [
      | inl (e, eq) ↦
          rw (eq, post_notification)
            (fail_delivery-IsSettled n generation completed_at conditions e)
      | inr (token, eq) ↦ elim (Option-cases (delivery_error (w.post webhook.url token payload))) [
        | inl ok ↦
            rw (eq, ok, post_notification) (IsSettled-note generation _ _ _ conditions 0 _ refl)
        | inr (e, bad) ↦
            rw (eq, bad, post_notification)
              (posted-IsSettled conditions _ _
                (fail_delivery-IsSettled n generation completed_at conditions (not_delivered e)))
      ]
    ]

  fail_delivery-PostsTo :
      (url : Str) (n : Notifier) (generation completed_at : ℕ) (conditions : m.Conditions)
      (e : DeliveryError)
      → All (PostsTo url) (fail_delivery m w n generation completed_at conditions e).effects
  unfolding fail_delivery posted_url
  fail_delivery-PostsTo url n generation completed_at conditions e =
      elim (Bool-cases (expired w.now n completed_at)) [
        | inl late ↦ rw late (inl refl, tt)
        | inr early ↦ rw early (inl refl, tt)
      ]

  module _ (n : Notifier) (namespace : Str) (webhook : WebhookSink) (generation completed_at : ℕ)
      (conditions : m.Conditions) (payload : Payload) where
    post_notification-PostsTo :
        All
          (PostsTo webhook.url)
          (post_notification m w n namespace webhook generation completed_at conditions
            payload).effects
    unfolding post_notification
    post_notification-PostsTo = elim (tokens (webhook_token m w namespace webhook)) [
      | inl (e, eq) ↦
          rw (eq, post_notification)
            (fail_delivery-PostsTo webhook.url n generation completed_at conditions e)
      | inr (token, eq) ↦ elim (Option-cases (delivery_error (w.post webhook.url token payload))) [
        | inl ok ↦ rw (eq, ok, post_notification) (unfold posted_url in (inr refl, (inl refl, tt)))
        | inr (e, bad) ↦
            rw (eq, bad, post_notification)
              (
                unfold posted_url in inr refl,
                fail_delivery-PostsTo webhook.url n generation completed_at conditions
                    (not_delivered e),
              )
      ]
    ]

  reject_url-IsSettled :
      (generation : ℕ) (conditions : m.Conditions) (webhook : WebhookSink)
      → IsSettled conditions (reject_url m w generation conditions webhook)
  unfolding reject_url
  reject_url-IsSettled generation conditions webhook =
      IsSettled-note generation _ _ _ conditions 0 _ refl

  module _ (namespace : Str) (webhook : WebhookSink) (generation completed_at : ℕ)
      (conditions : m.Conditions) (payload : Payload) where
    deliver_notification-IsSettled :
        IsSettled conditions
          (deliver_notification m w namespace webhook generation completed_at conditions payload)
    unfolding deliver_notification
    deliver_notification-IsSettled = elim (Option-cases w.notifier) [
      | inl e ↦ rw (e, deliver_notification) (reject_url-IsSettled generation conditions webhook)
      | inr (n, e) ↦ elim (Bool-cases (url_allowed n webhook.url)) [
        | inl ok ↦
            rw (e, ok, deliver_notification)
              (post_notification-IsSettled n namespace webhook generation completed_at conditions
                payload)
        | inr bad ↦
            rw (e, bad, deliver_notification) (reject_url-IsSettled generation conditions webhook)
      ]
    ]

    -- After an attempt the notification of a webhook is still pending exactly when the attempt asked
    -- for a delay: an attempt that asks for none leaves a final condition.
    pub deliver_notification-pending :
        (w' : World m.Conditions) (spec : Option NotifySpec) (sink : WebhookSink)
        → webhook_of spec ≡ some sink
        → let a =
            deliver_notification m w namespace webhook generation completed_at conditions payload in
          notification_pending m w' spec a.conditions ≡ not (a.delay == 0)
    unfolding notification_pending pending_by
    deliver_notification-pending w' spec sink h =
        let settled = deliver_notification-IsSettled in
        ground (arith, h, settled.found, settled.final)

    -- An attempt writes the condition NotificationSent only.
    pub find-deliver_notification :
        (t : ConditionType)
        → notification_sent ≢ t
        → m.find
            (deliver_notification m w namespace webhook generation completed_at conditions
              payload).conditions
            t
          ≡ m.find conditions t
    find-deliver_notification t ne =
        let settled = deliver_notification-IsSettled in
        rw settled.written
          (m.find-set_ne w.now conditions settled.condition t (λ q. ne (sym settled.own ∙ q)))

    -- Every post goes to the webhook's URL, which the operator's allowlist allows.
    pub deliver_notification-posted :
        let a =
          deliver_notification m w namespace webhook generation completed_at conditions payload in
        All (PostsAllowed w.notifier webhook.url) a.effects
    unfolding deliver_notification
    deliver_notification-posted = elim (Option-cases w.notifier) [
      | inl e ↦ rw (e, deliver_notification) (unfold posted_url reject_url in (inl refl, tt))
      | inr (n, e) ↦ elim (Bool-cases (url_allowed n webhook.url)) [
        | inr bad ↦
            rw (e, bad, deliver_notification) (unfold posted_url reject_url in (inl refl, tt))
        | inl ok ↦
            rw (e, ok, deliver_notification)
              (All-imp (PostsTo webhook.url) (PostsAllowed (some n) webhook.url) _
                (λ x h. elim h [ inl no_url ↦ inl no_url | inr own ↦ inr (own, n, refl, ok) ])
                (post_notification-PostsTo n namespace webhook generation completed_at conditions
                  payload))
      ]
    ]
