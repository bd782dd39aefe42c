-- ===== src/Mission/Outcome.antt =====
-- The mission's terminal phase, what the cleanup policy deletes, and the statuses of its chains.
use roundtable.Prelude.{
  ℕ, Bool, true, false, ◌&&◌, not, List, [], ◌∷◌, ◌++◌, Option, none, some, Str, bytes, is_empty,
  str_eq, if◌then◌else◌,
}
use roundtable.Api.Meta.{
  ConditionStatus, condition_true, ConditionType, complete, Reason, chain_succeeded,
  mission_expired, Condition, StatusConditions,
}
use roundtable.Api.Chain.{ChainPhase}
use roundtable.Api.Phase.{
  MissionPhase, succeeded, failed, expired, is_succeeded_mission, is_failed_mission,
}
use roundtable.Api.Mission.{MissionChainStatus, Mission}
use roundtable.Notify.{has_prefix}

-- `strings.Contains`
unfoldable pub contains_text : (s part : Str) → Bool
contains_text [] part = is_empty part
contains_text (c ∷ s) part =
    let rest = contains_text s part in if has_prefix (c ∷ s) part then true else rest

abbrev pub is_condition_true : ConditionStatus → Bool
is_condition_true condition_true = true
is_condition_true _ = false

abbrev pub is_failed_chain : ChainPhase → Bool
is_failed_chain ChainPhase.failed = true
is_failed_chain _ = false

abbrev pub is_succeeded_chain : ChainPhase → Bool
is_succeeded_chain ChainPhase.succeeded = true
is_succeeded_chain _ = false

-- Idle, or not yet set.
abbrev pub is_idle_chain : ChainPhase → Bool
is_idle_chain ChainPhase.unset = true
is_idle_chain ChainPhase.idle = true
is_idle_chain _ = false

abbrev pub phase_of_reason : Reason → MissionPhase
phase_of_reason chain_succeeded = succeeded
phase_of_reason mission_expired = expired
phase_of_reason _ = failed

unfoldable pub any_chain_failed : List MissionChainStatus → Bool
any_chain_failed [] = false
any_chain_failed (cs ∷ statuses) =
    let rest = any_chain_failed statuses in if is_failed_chain cs.phase then true else rest

-- The inference of missions that completed before the condition was recorded.
unfoldable pub inferred_outcome : (result : Str) → List MissionChainStatus → MissionPhase
unfolding contains_text any_chain_failed
inferred_outcome result statuses =
    if not (is_empty result) && contains_text result (bytes "failed")
    then failed
    else if any_chain_failed statuses
    then failed
    else succeeded

-- What `meta.FindStatusCondition` gave for the condition Complete.
unfoldable pub recorded_outcome :
    (result : Str) → List MissionChainStatus → Option (Condition × ℕ) → MissionPhase
unfolding inferred_outcome
recorded_outcome result statuses none = inferred_outcome result statuses
recorded_outcome result statuses (some (c, at)) =
    if is_condition_true c.status
    then phase_of_reason c.reason
    else inferred_outcome result statuses

unfoldable pub outcome_from : MissionPhase → MissionPhase → MissionPhase
outcome_from succeeded other = succeeded
outcome_from failed other = failed
outcome_from expired other = expired
outcome_from _ other = other

-- `updateChainStatus`, on the list.
unfoldable pub update_chain_status :
    (chain_ref_name chain_cr_name : Str)
    → ChainPhase
    → List MissionChainStatus
    → List MissionChainStatus
update_chain_status chain_ref_name chain_cr_name p [] =
    record { name = chain_ref_name; chain_cr_name = chain_cr_name; phase = p } ∷ []
update_chain_status chain_ref_name chain_cr_name p (cs ∷ statuses) =
    let rest = update_chain_status chain_ref_name chain_cr_name p statuses in
    if str_eq cs.name chain_ref_name
    then record cs { chain_cr_name = chain_cr_name; phase = p } ∷ statuses
    else cs ∷ rest

-- Whether a condition was found and is True.
unfoldable pub found_true : Option (Condition × ℕ) → Bool
found_true none = false
found_true (some (c, at)) = is_condition_true c.status

module _ (m : StatusConditions) where
  -- `meta.IsStatusConditionTrue`
  unfoldable pub is_true : m.Conditions → ConditionType → Bool
  unfolding found_true
  is_true conditions type = found_true (m.find conditions type)

  unfoldable pub terminal_outcome : Mission m.Conditions → MissionPhase
  unfolding outcome_from recorded_outcome
  terminal_outcome mission = outcome_from mission.status.phase (
      recorded_outcome mission.status.result mission.status.chain_statuses
        (m.find mission.status.conditions complete))

  unfoldable pub should_delete_resources : Mission m.Conditions → Bool
  unfolding terminal_outcome
  should_delete_resources mission =
      let policy = mission.spec.cleanup_policy in
      let outcome = terminal_outcome mission in
      if str_eq policy (bytes "Delete")
      then true
      else if str_eq policy (bytes "Retain")
      then false
      else if str_eq policy (bytes "OnSuccess")
      then is_succeeded_mission outcome
      else if str_eq policy (bytes "OnFailure")
      then is_failed_mission outcome
      else true

abbrev pub with_chain_statuses : {C : Type 0} → List MissionChainStatus → Mission C → Mission C
with_chain_statuses statuses mission = record mission {
  status = record (mission.status) { chain_statuses = statuses };
}

unfoldable pub nats_prefix : {C : Type 0} → Mission C → Str
nats_prefix mission =
    if is_empty mission.spec.nats_prefix
    then bytes "mission-" ++ mission.name
    else mission.spec.nats_prefix
