-- ===== src/Mission/View/Refine/Passes.antt =====
-- Every pass over a mission that was found is a move.
use roundtable.Prelude.{
  ℕ, ◌≡◌, refl, sym, ap, ◌∙◌, inl, inr, true, false, ◌&&◌, not, Option, none, some, Bool-cases,
  Option-cases, arith, if◌then◌else◌, [], ◌∷◌, ◌++◌, both_branches,
}
use roundtable.Util.Strings.{contains_string}
use roundtable.Api.Meta.{
  complete, cleanup_complete, mission_failed, mission_succeeded, StatusConditions, Condition,
  ApiError,
}
use roundtable.Api.Chain.{WebhookSink}
use roundtable.Api.Phase.{
  MissionPhase, unset, pending, provisioning, planning, assembling, briefing, active, succeeded,
  failed, expired, cleaning_up, is_failed_mission,
}
use roundtable.Api.Mission.{Mission}
use roundtable.Chain.Notification.{notify_completed_at}
use roundtable.Chain.Notification.Laws.{find-deliver_notification}
use roundtable.Mission.World.{MissionWorld, Money}
use roundtable.Mission.Run.{MissionRun, save, set_phase}
use roundtable.Mission.Outcome.{found_true, is_true, phase_of_reason}
use roundtable.Mission.Cleanup.{has_expired}
use roundtable.Mission.Notify.{
  notify_webhook, notify_mission, mission_notify_payload, notify_due, due_webhook,
}
use roundtable.Mission.Reconcile.{
  Planner, mission_finalizer, is_cleaning, finalize_mission, init_mission, leave_expired, expire,
  record_outcome, reconcile_ended, run_phase, proceed, begin, reconcile_mission, is_unset_mission,
  adopt, with_mission_finalizers,
}
use roundtable.Mission.View.{
  View, Moves, stay, begin as begins, plan as plans, clean_end, expire as expires, revisit, IsEnd,
  or_verdict, verdict_of, view,
}
use roundtable.Mission.View.Refine.{view-set_complete_condition, view-set_complete, view-set_phase}
use roundtable.Mission.View.Refine.Phases.{
  reconcile_pending-Moves, reconcile_provisioning-Moves, reconcile_briefing-Moves,
  reconcile_assembling-Moves,
}
use roundtable.Mission.View.Refine.Ends.{reconcile_active-Moves}
use roundtable.Mission.View.Refine.Cleanup.{reconcile_cleaning_up-Moves}

or_verdict-verdict_of :
    (p : MissionPhase) (c : Option (Condition × ℕ))
    → found_true c ≡ true
    → or_verdict (verdict_of c) p ≡ verdict_of c
unfolding found_true verdict_of
or_verdict-verdict_of p none h = cc
or_verdict-verdict_of p (some (c, at)) h = ground arith

no_verdict-verdict_of :
    (p : MissionPhase) (c : Option (Condition × ℕ))
    → found_true c ≡ false
    → or_verdict (verdict_of c) p ≡ some p
unfolding found_true verdict_of
no_verdict-verdict_of p none h = refl
no_verdict-verdict_of p (some (c, at)) h = ground arith

phase_of_end :
    (q p : MissionPhase)
    → IsEnd p
    → q ≡ p
    → phase_of_reason (if is_failed_mission q then mission_failed else mission_succeeded) ≡ p
phase_of_end q p h e = ground arith

module _ (m : StatusConditions) (w : MissionWorld m.Conditions) where
  expire-Moves :
      (mission : Mission m.Conditions)
      → is_cleaning mission.status.phase ≡ false
      → Moves (view m mission) (view m (expire m w mission).mission)
  unfolding expire save
  expire-Moves mission h =
      expires (unfold view in h) (rw (view-set_complete_condition m, view-set_complete m) refl)

  notify_webhook-view :
      (mission : Mission m.Conditions) (webhook : WebhookSink)
      → view m (notify_webhook m w mission webhook).mission ≡ view m mission
  unfolding notify_webhook view is_true
  notify_webhook-view mission webhook =
      let st = mission.status in
      let at = notify_completed_at m w.base st.completed_at st.conditions complete in
      let payload = mission_notify_payload m mission webhook in
      let keeps =
        find-deliver_notification m w.base mission.namespace webhook mission.generation at
          st.conditions payload in
      rw (keeps complete (λ q. cc), keeps cleanup_complete (λ q. cc)) refl

  notify_due-view :
      (due : Option WebhookSink) (mission : Mission m.Conditions) (run : MissionRun m.Conditions)
      → notify_due m w due mission ≡ some run
      → view m run.mission ≡ view m mission
  unfolding notify_due
  notify_due-view none mission run h = cc
  notify_due-view (some webhook) mission run h =
      let e : notify_webhook m w mission webhook ≡ run = ground arith in
      rw (← e) (notify_webhook-view mission webhook)

  pub notify_mission-view :
      (mission : Mission m.Conditions) (run : MissionRun m.Conditions)
      → notify_mission m w mission ≡ some run
      → view m run.mission ≡ view m mission
  unfolding notify_mission
  notify_mission-view mission run h = notify_due-view (due_webhook m w mission) mission run h

  init_mission-Moves :
      (mission : Mission m.Conditions)
      → mission.status.phase ≡ unset
      → Moves (view m mission) (view m (init_mission w mission).mission)
  unfolding init_mission save set_phase view
  init_mission-Moves mission h = begins h refl

  leave_expired-Moves :
      (mission : Mission m.Conditions)
      → mission.status.phase ≡ expired
      → Moves (view m mission) (view m (leave_expired w mission).mission)
  unfolding leave_expired save view
  leave_expired-Moves mission h = revisit h refl

  record_outcome-view :
      (mission : Mission m.Conditions) (p : MissionPhase)
      → IsEnd p
      → mission.status.phase ≡ p
      → view m (record_outcome m w mission)
        ≡ record (view m mission) { verdict = or_verdict (view m mission).verdict p }
  unfolding record_outcome
  record_outcome-view mission p h e =
      let c = m.find mission.status.conditions complete in
      elim (Bool-cases (is_true m mission.status.conditions complete)) [
        | inl t ↦
            rw (t, record_outcome)
              (ap (λ (q : Option MissionPhase). record (view m mission) { verdict = q })
                (unfold view in sym (or_verdict-verdict_of p c (unfold is_true in t))))
        | inr t ↦
            rw (t, record_outcome, view-set_complete_condition m)
              (ap (λ (q : Option MissionPhase). record (view m mission) { verdict = q })
                (ap some (phase_of_end mission.status.phase p h e)
                  ∙ unfold view in sym (no_verdict-verdict_of p c (unfold is_true in t))))
      ]

  reconcile_ended-Moves :
      (mission : Mission m.Conditions) (p : MissionPhase)
      → IsEnd p
      → mission.status.phase ≡ p
      → Moves (view m mission) (view m (reconcile_ended m w mission).mission)
  unfolding reconcile_ended save
  reconcile_ended-Moves mission p h e =
      elim (Bool-cases (is_true m mission.status.conditions cleanup_complete)) [
        | inl t ↦ rw t (stay refl)
        | inr t ↦ rw t (
            clean_end p h (unfold view in e) (unfold view in t) (
              view-set_phase m cleaning_up (record_outcome m w mission)
              ∙ ap (λ (v : View). record v { phase = cleaning_up })
                  (record_outcome-view mission p h e)))
      ]

module _ (m : StatusConditions) (money : Money) (w : MissionWorld m.Conditions)
    (p : Planner m) where
  run_phase-Moves :
      (q : MissionPhase) (mission : Mission m.Conditions)
      → mission.status.phase ≡ q
      → Moves (view m mission) (view m (run_phase m money w p q mission).mission)
  unfolding run_phase
  run_phase-Moves unset mission h = stay refl
  run_phase-Moves pending mission h = reconcile_pending-Moves m w mission h
  run_phase-Moves provisioning mission h = reconcile_provisioning-Moves m w mission h
  run_phase-Moves planning mission h = plans (unfold view in h)
  run_phase-Moves assembling mission h = reconcile_assembling-Moves m w mission h
  run_phase-Moves briefing mission h = reconcile_briefing-Moves m w mission h
  run_phase-Moves active mission h = reconcile_active-Moves m money w mission h
  run_phase-Moves succeeded mission h = reconcile_ended-Moves m w mission succeeded (inl refl) h
  run_phase-Moves failed mission h = reconcile_ended-Moves m w mission failed (inr refl) h
  run_phase-Moves cleaning_up mission h = reconcile_cleaning_up-Moves m w mission h
  run_phase-Moves expired mission h = leave_expired-Moves m w mission h

  proceed-Moves :
      (mission : Mission m.Conditions)
      → Moves (view m mission) (view m (proceed m money w p mission).mission)
  unfolding proceed
  proceed-Moves mission =
      elim (Bool-cases (
        has_expired w.base.now mission.status.expires_at
        && not (is_cleaning mission.status.phase))) [
          | inl e ↦ rw e (expire-Moves m w mission (ground (arith, e)))
          | inr e ↦ elim (Option-cases (notify_mission m w mission)) [
            | inl n ↦ rw (e, n) (run_phase-Moves mission.status.phase mission refl)
            | inr (run, n) ↦ rw (e, n) (stay (notify_mission-view m w mission run n))
          ]
        ]

  begin-Moves :
      (mission : Mission m.Conditions)
      → Moves (view m mission) (view m (begin m money w p mission).mission)
  unfolding begin
  begin-Moves mission = elim (Bool-cases (is_unset_mission mission.status.phase)) [
    | inl e ↦ rw e (init_mission-Moves m w mission (ground (arith, e)))
    | inr e ↦ rw e (proceed-Moves mission)
  ]

  finalize_mission-view :
      (mission : Mission m.Conditions)
      → view m (finalize_mission w mission).mission ≡ view m mission
  unfolding finalize_mission view
  finalize_mission-view mission = ground arith

  adopt-Moves :
      (answer : Option ApiError) (adopted : Mission m.Conditions)
      → Moves (view m adopted) (view m (adopt m money w p answer adopted).mission)
  unfolding adopt
  adopt-Moves (some e) adopted = stay refl
  adopt-Moves none adopted = begin-Moves adopted

  -- Every pass over a mission that was found, in any outside world, is a move of the abstract life of
  -- a mission, or leaves it as it is: only these changes of the phase, of the recorded outcome and of
  -- the mark of the cleanup are possible. A pass that starts in Planning is the one exception: it may
  -- end anywhere, since nothing is supposed of the planner.
  pub reconcile_mission-Moves :
      (mission : Mission m.Conditions)
      → Moves (view m mission) (view m (reconcile_mission m money w p mission).mission)
  unfolding reconcile_mission view
  reconcile_mission-Moves mission =
      let adopted =
        with_mission_finalizers (mission.finalizers ++ mission_finalizer ∷ []) mission in
      let P : MissionRun m.Conditions → Type 0 =
        λ run. Moves (view m mission) (view m run.mission) in
      both_branches P mission.deleting _ _ (stay (finalize_mission-view mission)) (
        both_branches P (contains_string mission.finalizers mission_finalizer) _ _
          (begin-Moves mission) (adopt-Moves (w.update_mission adopted) adopted))
