-- ===== src/Mission/Pending.antt =====
-- `reconcilePending`: the checks of the spec.
use roundtable.Prelude.{
  ℕ, Bool, true, false, ◌&&◌, not, List, [], ◌∷◌, ◌++◌, Option, none, some, Str, bytes, ◌⊎◌, inl,
  inr, is_empty, is_some, if◌then◌else◌, map,
}
use roundtable.Util.Strings.{contains_string}
use roundtable.Api.Meta.{ApiError, not_found, Answer, found, failed as call_failed, api}
use roundtable.Api.Phase.{failed, provisioning}
use roundtable.Api.Mission.{
  MissionKnight, MissionChainRef, MissionKnightTemplate, MissionSpec, Mission,
}
use roundtable.Chain.Run.{requeue_fast}
use roundtable.Mission.World.{validation, MissionWorld, mission_event, phase_transition}
use roundtable.Mission.Run.{
  MissionRun, fails_with, outcome_of, retried_outcome, mission_ends, set_phase, set_failed, save,
}
pub mod Laws

-- The map `templateNames` is the list of the names it was given.
unfoldable pub template_fault : (seen : List Str) → List MissionKnightTemplate → Option Str
template_fault seen [] = none
template_fault seen (t ∷ templates) =
    let rest = template_fault (t.name ∷ seen) templates in
    if contains_string seen t.name
    then some (bytes "Duplicate knight template name: " ++ t.name)
    else rest

same_bool : Bool → Bool → Bool
same_bool true b = b
same_bool false b = not b

-- What is wrong with one knight's references.
unfoldable pub reference_fault :
    (templates : List Str) (round_table_ref : Str) → MissionKnight → Option Str
unfolding same_bool
reference_fault templates round_table_ref knight =
    if not (is_empty knight.template_ref)
      && not (contains_string templates knight.template_ref)
      && is_empty round_table_ref
    then some (
        bytes "Knight "
        ++ knight.name
        ++ bytes " references unknown template: "
        ++ knight.template_ref)
    else if knight.ephemeral
        && same_bool (is_some knight.ephemeral_spec) (not (is_empty knight.template_ref))
    then some (
        bytes "Ephemeral knight "
        ++ knight.name
        ++ bytes " must have exactly one of ephemeralSpec or templateRef")
    else none

unfoldable pub knight_fault :
    (templates : List Str) (round_table_ref : Str) (seen : List Str)
    → List MissionKnight
    → Option Str
unfolding reference_fault
knight_fault templates round_table_ref seen [] = none
knight_fault templates round_table_ref seen (knight ∷ knights) =
    let rest = knight_fault templates round_table_ref (knight.name ∷ seen) knights in
    if contains_string seen knight.name
    then some (bytes "Duplicate knight name: " ++ knight.name)
    else elim (reference_fault templates round_table_ref knight) [
      | some fault ↦ some fault
      | none ↦ rest
    ]

module _ {C : Type 0} (w : MissionWorld C) where
  -- A chain that is not there is a fault of the spec; another error ends the pass.
  unfoldable pub chain_fault : (namespace : Str) → List MissionChainRef → Option (Str ⊎ ApiError)
  chain_fault namespace [] = none
  chain_fault namespace (ref ∷ refs) =
      let rest = chain_fault namespace refs in
      elim (w.get_chain validation namespace ref.name) [
        | found chain ↦ rest
        | call_failed not_found ↦ some (inl (bytes "Referenced chain not found: " ++ ref.name))
        | call_failed e ↦ some (inr e)
      ]

  unfoldable pub reject_templates : (fault : Str) → Mission C → MissionRun C
  reject_templates fault mission =
      let mission' : Mission C = record mission {
        status = record (mission.status) {
          phase = failed;
          result = fault;
          observed_generation = mission.generation;
        };
      } in
      save w mission' (outcome_of 0) []

  unfoldable pub reject_spec : (fault : Str) → Mission C → MissionRun C
  reject_spec fault mission = save w (set_failed w.base.now fault mission) (outcome_of 0) []

  -- What the checks of the names found, and of the chains.
  unfoldable pub settle_pending :
      (templates knights : Option Str) (chains : Option (Str ⊎ ApiError)) → Mission C → MissionRun C
  unfolding reject_templates reject_spec
  settle_pending (some fault) knights chains mission = reject_templates fault mission
  settle_pending none (some fault) chains mission = reject_spec fault mission
  settle_pending none none (some (inl fault)) mission = reject_spec fault mission
  settle_pending none none (some (inr e)) mission = mission_ends (fails_with (api e)) mission
  settle_pending none none none mission =
      save w (set_phase provisioning mission) (retried_outcome requeue_fast)
        (mission_event (phase_transition provisioning) ∷ [])

  unfoldable pub reconcile_pending : Mission C → MissionRun C
  unfolding template_fault knight_fault chain_fault settle_pending
  reconcile_pending mission =
      let spec = mission.spec in
      settle_pending (template_fault [] spec.knight_templates)
        (knight_fault (map (λ (t : MissionKnightTemplate). t.name) spec.knight_templates)
          spec.round_table_ref [] spec.knights)
        (chain_fault mission.namespace spec.chains) mission
