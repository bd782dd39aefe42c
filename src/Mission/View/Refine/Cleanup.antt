-- ===== src/Mission/View/Refine/Cleanup.antt =====
-- The cleanup is a move.
use roundtable.Prelude.{
  ℕ, ◌≡◌, refl, sym, ap, ◌∙◌, inl, inr, true, List, Option, none, some, Str, Bool-cases,
  Option-cases, arith,
}
use roundtable.Api.Meta.{complete, cleanup_complete, Condition, StatusConditions}
use roundtable.Api.Phase.{MissionPhase, cleaning_up}
use roundtable.Api.Mission.{MissionChainStatus, Mission}
use roundtable.Mission.World.{MissionEffect, MissionWorld}
use roundtable.Mission.Outcome.{
  inferred_outcome, recorded_outcome, outcome_from, terminal_outcome, is_true,
}
use roundtable.Mission.Results.{retain_results, store_results_to_kv, put_results, set_results}
use roundtable.Mission.Cleanup.{
  leave, transition_to_terminal_phase, note_cleanup, clean_up, tear_down, settle_deletion,
  reconcile_cleaning_up, clean_unless_waiting,
}
use roundtable.Mission.View.{View, Moves, stay, restore, infer, IsEnd, verdict_of, view}
use roundtable.Mission.View.Refine.{view-set_phase, view-set_cleanup_condition}

-- An outcome that was recorded is the one that is found.
pub recorded_outcome-verdict_of :
    (result : Str) (statuses : List MissionChainStatus) (c : Option (Condition × ℕ))
    (p : MissionPhase)
    → verdict_of c ≡ some p
    → recorded_outcome result statuses c ≡ p
unfolding verdict_of recorded_outcome
recorded_outcome-verdict_of result statuses none p h = ground arith
recorded_outcome-verdict_of result statuses (some (c, at)) p h = ground arith

recorded_outcome-inferred :
    (result : Str) (statuses : List MissionChainStatus) (c : Option (Condition × ℕ))
    → verdict_of c ≡ none
    → IsEnd (recorded_outcome result statuses c)
unfolding verdict_of recorded_outcome inferred_outcome
recorded_outcome-inferred result statuses none h = ground arith
recorded_outcome-inferred result statuses (some (c, at)) h = ground arith

module _ (m : StatusConditions) (w : MissionWorld m.Conditions) where
  -- A mission that is cleaned up ends with the outcome that the view shows.
  pub terminal_outcome-verdict :
      (mission : Mission m.Conditions) (p : MissionPhase)
      → mission.status.phase ≡ cleaning_up
      → (view m mission).verdict ≡ some p
      → terminal_outcome m mission ≡ p
  unfolding view terminal_outcome outcome_from
  terminal_outcome-verdict mission p h e = ground (
    arith,
    recorded_outcome-verdict_of mission.status.result mission.status.chain_statuses
        (m.find mission.status.conditions complete) p e,
  )

  terminal_outcome-IsEnd :
      (mission : Mission m.Conditions)
      → mission.status.phase ≡ cleaning_up
      → (view m mission).verdict ≡ none
      → IsEnd (terminal_outcome m mission)
  unfolding view terminal_outcome outcome_from
  terminal_outcome-IsEnd mission h e = ground (
    arith,
    recorded_outcome-inferred mission.status.result mission.status.chain_statuses
        (m.find mission.status.conditions complete) e,
  )

  mission-leave : (mission : Mission m.Conditions) → (leave m w mission).mission ≡ mission
  unfolding leave
  mission-leave mission = ground arith

  transition_to_terminal_phase-view :
      (mission : Mission m.Conditions)
      → view m (transition_to_terminal_phase m w mission).mission
        ≡ record (view m mission) { phase = terminal_outcome m mission }
  unfolding transition_to_terminal_phase
  transition_to_terminal_phase-view mission = rw (mission-leave, view-set_phase m) refl

  -- The cleanup of a mission is done.
  done-Moves :
      (mission : Mission m.Conditions) (v : View)
      → v.phase ≡ cleaning_up
      → view m mission ≡ record v { cleaned = true }
      → Moves v (view m (transition_to_terminal_phase m w mission).mission)
  done-Moves mission v h e =
      let here : mission.status.phase ≡ cleaning_up =
        unfold view in (ap (λ (u : View). u.phase) e ∙ h) in
      let seen = ap (λ (u : View). u.verdict) e in
      rw (transition_to_terminal_phase-view mission) (elim (Option-cases v.verdict) [
        | inl n ↦
            infer h (terminal_outcome m mission) (terminal_outcome-IsEnd mission here (seen ∙ n)) n
              (ap (λ (u : View). record u { phase = terminal_outcome m mission }) e)
        | inr (p, n) ↦
            restore h (terminal_outcome m mission)
              (n ∙ ap some (sym (terminal_outcome-verdict mission p here (seen ∙ n))))
              (ap (λ (u : View). record u { phase = terminal_outcome m mission }) e)
      ])

  settle_deletion-Moves :
      (deletion : Option ℕ × List (MissionEffect m.Conditions)) (mission : Mission m.Conditions)
      (v : View)
      → v.phase ≡ cleaning_up
      → view m mission ≡ v
      → Moves v (view m (settle_deletion m w deletion mission).mission)
  unfolding settle_deletion
  settle_deletion-Moves (some delay, effects) mission v h e = stay e
  settle_deletion-Moves (none, effects) mission v h e = done-Moves (note_cleanup m w mission) v h (
      view-set_cleanup_condition m _ _ _ mission ∙ ap (λ (u : View). record u { cleaned = true }) e)

  retain_results-view :
      (mission : Mission m.Conditions) → view m (retain_results w mission).0 ≡ view m mission
  unfolding retain_results store_results_to_kv put_results set_results view
  retain_results-view mission = ground arith

  pub reconcile_cleaning_up-Moves :
      (mission : Mission m.Conditions)
      → mission.status.phase ≡ cleaning_up
      → Moves (view m mission) (view m (reconcile_cleaning_up m w mission).mission)
  unfolding reconcile_cleaning_up clean_up
  reconcile_cleaning_up-Moves mission h =
      elim (Bool-cases (is_true m mission.status.conditions cleanup_complete)) [
        | inl e ↦
            rw e (done-Moves mission (view m mission) (unfold view in h) (unfold view in rw e refl))
        | inr e ↦ elim (Option-cases (tear_down w mission.namespace mission.spec.chains)) [
          | inr (waiting, e') ↦ rw (e, e', clean_unless_waiting) (stay refl)
          | inl e' ↦
              rw (e, e', clean_unless_waiting)
                (settle_deletion-Moves _ (retain_results w mission).0 (view m mission)
                  (unfold view in h) (retain_results-view mission))
        ]
      ]
