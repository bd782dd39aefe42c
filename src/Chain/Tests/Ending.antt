-- ===== src/Chain/Tests/Ending.antt =====
-- A chain that is being deleted, and one whose completion is notified.
use roundtable.Prelude.{
  ◌≡◌, ◌≢◌, refl, true, false, List, [], ◌∷◌, none, Str, bytes, str_eq, if◌then◌else◌, arith,
}
use roundtable.Util.Strings.{contains_string}
use roundtable.Api.Meta.{found}
use roundtable.Api.Chain.{ChainPhase, Chain}
use roundtable.Notify.{has_prefix, url_allowed, delivery_error}
use roundtable.Chain.World.{World, updated}
use roundtable.Chain.Run.{returned, no_requeue, update_status}
use roundtable.Chain.Schedule.{Registry, entry, registry_key}
use roundtable.Chain.Notification.{
  webhook_of, notification_pending, webhook_token, post_notification, deliver_notification,
}
use roundtable.Chain.Completion.Laws.{is_concluded}
use roundtable.Chain.Reconcile.Laws.{IsAtRest}
use roundtable.Chain.Reconcile.{
  dispatch_phase, with_finalizers, reconcile_valid, chain_finalizer, notify_completion,
  reconcile_terminal, reconcile,
}
use roundtable.Chain.Reconcile.Deletion.{AnswersAsked, reconcile-deleting, entry-reconcile_ne}
use roundtable.Chain.Reconcile.Quiet.{reconcile_valid-quiet}
use roundtable.Chain.Tests.Outside.{store, waiting, scanned, audit, calm}

abbrev leaving : Chain store.Conditions
leaving = record (audit ChainPhase.idle waiting) {
  deleting = true;
  finalizers = bytes "other" ∷ chain_finalizer ∷ [];
}

abbrev registered : Registry
registered = (bytes "prod/audit", bytes "@hourly") ∷ (bytes "prod/report", bytes "@daily") ∷ []

abbrev with_leaving : World store.Conditions
with_leaving = record calm { get_chain = λ namespace name. found leaving }

reconcile-deleting_example :
    let pass = reconcile store with_leaving [] registered (bytes "prod") (bytes "audit") in
    let own = registry_key (bytes "prod") (bytes "audit") in
    ((k : Str) → entry pass.registry k ≡ (if str_eq own k then none else entry registered k))
    × (fs : List Str) × (pass.effects ≡ updated (with_finalizers fs leaving) ∷ [])
    × (contains_string fs chain_finalizer ≡ false)
    × ((f : Str)
        → chain_finalizer ≢ f
        → contains_string fs f ≡ contains_string leaving.finalizers f)
reconcile-deleting_example =
    reconcile-deleting store with_leaving [] registered (bytes "prod") (bytes "audit") leaving refl
      refl

audit-asked : AnswersAsked with_leaving (bytes "prod") (bytes "audit")
audit-asked chain e = ground (arith, e)

own_key-differs : registry_key (bytes "prod") (bytes "audit") ≢ bytes "prod/report"
unfolding registry_key
own_key-differs e = cc

entry-reconcile_ne_example :
    entry
      (reconcile store with_leaving [] registered (bytes "prod") (bytes "audit")).registry
      (bytes "prod/report")
    ≡ entry registered (bytes "prod/report")
entry-reconcile_ne_example =
    entry-reconcile_ne store with_leaving [] registered (bytes "prod") (bytes "audit")
      (bytes "prod/report") audit-asked own_key-differs

abbrev finished : Chain store.Conditions
finished = audit ChainPhase.succeeded scanned

finished-IsAtRest : IsAtRest store calm finished
unfolding is_concluded
finished-IsAtRest = record { unsuspended = refl; over = refl; seen = refl }

finished-notified : (reconcile_valid store calm finished).outcome ≡ returned no_requeue none
unfolding reconcile_valid reconcile_terminal notify_completion update_status notification_pending
    webhook_of deliver_notification url_allowed has_prefix post_notification webhook_token
    delivery_error dispatch_phase
finished-notified = refl

reconcile_valid-quiet_example :
    (reconcile_valid store calm (reconcile_valid store calm finished).chain).effects ≡ []
reconcile_valid-quiet_example =
    reconcile_valid-quiet store calm calm finished finished-IsAtRest finished-notified
