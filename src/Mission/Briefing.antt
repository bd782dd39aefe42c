-- ===== src/Mission/Briefing.antt =====
-- `reconcileBriefing` and `publishBriefing`.
use roundtable.Prelude.{
  ℕ, suc, ◌&&◌, List, [], ◌∷◌, ◌++◌, Option, none, some, Str, bytes, inl, inr, is_empty, ltb, ◌==◌,
  if◌then◌else◌,
}
use roundtable.Api.Meta.{
  found, failed as call_failed, condition_true, condition_false, briefing_published,
  briefing_was_published, publish_failed, no_briefing, plain_message, StatusConditions,
}
use roundtable.Api.Phase.{active}
use roundtable.Api.Knight.{Knight}
use roundtable.Api.Mission.{MissionKnight, Mission}
use roundtable.Nats.Payload.{TaskPayload}
use roundtable.Nats.Subjects.{decimal, task_subject}
use roundtable.Notify.{has_prefix}
use roundtable.Chain.World.{published}
use roundtable.Chain.Run.{requeue_fast, requeue_default}
use roundtable.Mission.World.{
  Read, MissionNats, MissionEffect, shared, mission_event, phase_transition,
  briefing_partial_delivery, MissionWorld,
}
use roundtable.Mission.Run.{
  MissionRun, requeue_medium, requeue_in, retried_outcome, mission_ends, mission_after, set_phase,
  set_condition, observe, save,
}
use roundtable.Mission.Outcome.{nats_prefix}
use roundtable.Mission.Chains.{trigger_generated_chains}

-- `strings.SplitN(s, sep, 2)`, its first part, if there are two.
unfoldable pub split_before : (sep s : Str) → Option Str
split_before sep [] = none
split_before sep (c ∷ s) =
    let rest = split_before sep s in
    if has_prefix (c ∷ s) sep
    then some []
    else elim rest [ none ↦ none | some before ↦ some (c ∷ before) ]

-- The prefix of the first of a knight's subjects, or else the fallback.
unfoldable pub briefing_prefix : (fallback : Str) → (subjects : List Str) → Str
unfolding split_before
briefing_prefix fallback [] = fallback
briefing_prefix fallback (subject ∷ subjects) = elim (split_before (bytes ".tasks.") subject) [
  | none ↦ fallback
  | some prefix ↦ prefix
]

unfoldable pub briefing_payload : {C : Type 0} → Mission C → (knight : Str) → TaskPayload
unfolding decimal
briefing_payload mission knight = record {
  task_id =
      bytes "mission-"
      ++ mission.name
      ++ bytes "-briefing-"
      ++ knight
      ++ bytes "-gen"
      ++ decimal mission.generation;
  chain_name = bytes "mission-" ++ mission.name;
  step_name = bytes "briefing";
  run_id = [];
  task =
      bytes "[Mission: "
      ++ mission.name
      ++ bytes "]\nObjective: "
      ++ mission.spec.objective
      ++ bytes "\n\n"
      ++ mission.spec.briefing;
}

module _ {C : Type 0} (w : MissionWorld C) where
  -- The knights that a briefing was tried for, those it reached, and the effects.
  pub record Delivery : Type 0 where
    pub attempted : ℕ
    pub reached : ℕ
    pub effects : List (MissionEffect C)

  unfoldable pub fallback_prefix : Mission C → Str
  unfolding nats_prefix
  fallback_prefix mission =
      let own = nats_prefix mission in
      if is_empty mission.spec.round_table_ref
      then own
      else elim (w.get_round_table Read.briefing mission.namespace mission.spec.round_table_ref) [
        | call_failed e ↦ own
        | found table ↦
            if is_empty table.spec.nats.subject_prefix then own else table.spec.nats.subject_prefix
      ]

  -- One knight that could be read.
  unfoldable pub brief_knight :
      MissionNats C → Mission C → (fallback name : Str) → Knight → Delivery → Delivery
  unfolding briefing_prefix briefing_payload task_subject
  brief_knight client mission fallback name knight rest =
      let subject =
        task_subject (briefing_prefix fallback knight.spec.nats.subjects) knight.spec.domain name in
      let payload = briefing_payload mission name in
      record {
        attempted = suc rest.attempted;
        reached = elim (client.publish_json subject payload) [
          | none ↦ suc rest.reached
          | some e ↦ rest.reached
        ];
        effects = shared (published subject payload) ∷ rest.effects;
      }

  unfoldable pub brief_knights :
      MissionNats C → Mission C → (fallback : Str) → List MissionKnight → Delivery
  unfolding brief_knight
  brief_knights client mission fallback [] = record { attempted = 0; reached = 0; effects = [] }
  brief_knights client mission fallback (mk ∷ knights) =
      let rest = brief_knights client mission fallback knights in
      if mk.ephemeral then rest else elim (w.get_knight Read.briefing mission.namespace mk.name) [
        | call_failed e ↦ record rest { attempted = suc rest.attempted }
        | found knight ↦ brief_knight client mission fallback mk.name knight rest
      ]

  -- The error text, and the effects.
  unfoldable pub delivery_outcome : Delivery → Option Str × List (MissionEffect C)
  unfolding decimal
  delivery_outcome d =
      if ltb 0 d.attempted && d.reached == 0
      then (
        some (bytes "briefing not delivered to any of " ++ decimal d.attempted ++ bytes " knights"),
        d.effects,
      )
      else if ltb d.reached d.attempted
      then (none, d.effects ++ mission_event (briefing_partial_delivery d.reached d.attempted) ∷ [])
      else (none, d.effects)

  unfoldable pub publish_briefing : Mission C → Option Str × List (MissionEffect C)
  unfolding fallback_prefix brief_knights delivery_outcome
  publish_briefing mission = elim w.nats_client [
    | inl e ↦ (some e, [])
    | inr client ↦
        delivery_outcome
          (brief_knights client mission (fallback_prefix mission) mission.spec.knights)
  ]

module _ (m : StatusConditions) (w : MissionWorld m.Conditions) where
  -- The chains are started, and the mission goes on.
  unfoldable pub activate : Mission m.Conditions → MissionRun m.Conditions
  unfolding trigger_generated_chains
  activate mission =
      let (error, effects) = trigger_generated_chains m w mission in
      mission_after effects (elim error [
        | some e ↦ mission_ends (requeue_in requeue_medium) mission
        | none ↦
            save w (set_phase active mission) (retried_outcome requeue_fast)
              (mission_event (phase_transition active) ∷ [])
      ])

  unfoldable pub briefing_failed : (error : Str) → Mission m.Conditions → MissionRun m.Conditions
  briefing_failed error mission =
      save w
        (observe (
          set_condition m w.base.now briefing_published publish_failed
            (plain_message (bytes "Failed to publish briefing: " ++ error)) condition_false
            mission))
        (λ answer. requeue_in requeue_default) []

  abbrev pub note_briefing : Mission m.Conditions → Mission m.Conditions
  note_briefing mission =
      set_condition m w.base.now briefing_published briefing_was_published
        (plain_message (bytes "Mission briefing published to all knights")) condition_true mission

  abbrev pub note_no_briefing : Mission m.Conditions → Mission m.Conditions
  note_no_briefing mission =
      set_condition m w.base.now briefing_published no_briefing
        (plain_message (bytes "No briefing text configured")) condition_true mission

  -- What the publishing came to: its error text, and its effects.
  unfoldable pub settle_briefing :
      Option Str × List (MissionEffect m.Conditions)
      → Mission m.Conditions
      → MissionRun m.Conditions
  unfolding activate briefing_failed
  settle_briefing (some e, effects) mission = mission_after effects (briefing_failed e mission)
  settle_briefing (none, effects) mission = mission_after effects (activate (note_briefing mission))

  unfoldable pub reconcile_briefing : Mission m.Conditions → MissionRun m.Conditions
  unfolding activate settle_briefing publish_briefing
  reconcile_briefing mission =
      let briefed = settle_briefing (publish_briefing w mission) mission in
      let unbriefed = activate (note_no_briefing mission) in
      if is_empty mission.spec.briefing then unbriefed else briefed
