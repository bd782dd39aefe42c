-- ===== src/Chain/Validate.antt =====
-- The validation of a chain's spec, and when a missing knight is no error.
use roundtable.Prelude.{
  Bool, true, false, List, [], ◌∷◌, map, Option, none, some, Str, bytes, is_empty, if◌then◌else◌,
}
use roundtable.Util.Dag.{DagNode, DagError, validate_dag}
use roundtable.Api.Meta.{
  not_found, found, failed as call_failed, Error, knight_not_found, dag, Reason, invalid_knight_ref,
  cyclic_dependency,
}
use roundtable.Api.Chain.{ChainStep, Chain}
use roundtable.Api.Phase.{MissionPhase, succeeded, failed, expired, cleaning_up}
use roundtable.Chain.World.{World}
use roundtable.Chain.Lookup.{label}
use roundtable.Chain.Template.{validate_templates}

abbrev pub mission_label : Str
mission_label = bytes "ai.roundtable.io/mission"

-- apierrors.IsNotFound, which looks through `%w`.
unfoldable pub is_not_found : Error → Bool
is_not_found (knight_not_found step knight not_found) = true
is_not_found _ = false

unfoldable pub dag_nodes : List ChainStep → List DagNode
dag_nodes steps = map (λ (s : ChainStep). record { name = s.name; depends_on = s.depends_on }) steps

unfoldable pub is_over : MissionPhase → Bool
is_over cleaning_up = true
is_over succeeded = true
is_over failed = true
is_over expired = true
is_over _ = false

module _ {C : Type 0} (w : World C) where
  unfoldable pub validate_knight_refs : (namespace : Str) → List ChainStep → Option Error
  validate_knight_refs namespace [] = none
  validate_knight_refs namespace (step ∷ steps) =
      let rest = validate_knight_refs namespace steps in
      elim (w.get_knight namespace step.knight_ref) [
        | call_failed e ↦ some (knight_not_found step.name step.knight_ref e)
        | found _ ↦ rest
      ]

  unfoldable pub validate_chain_dag : List ChainStep → Option DagError
  unfolding dag_nodes
  validate_chain_dag steps =
      validate_dag (w.map_keys (map (λ (s : ChainStep). s.name) steps)) (dag_nodes steps)

  unfoldable pub owning_mission_inactive : Chain C → Bool
  unfolding is_over
  owning_mission_inactive chain =
      let mission_name = label chain.labels mission_label in
      if is_empty mission_name then false else elim (w.get_mission chain.namespace mission_name) [
        | call_failed not_found ↦ true
        | call_failed _ ↦ false
        | found mission ↦ if mission.deleting then true else is_over mission.phase
      ]

  -- The first check that the steps do not pass.
  unfoldable pub validate_steps : Chain C → Option (Reason × Error)
  validate_steps chain = elim (validate_knight_refs chain.namespace chain.spec.steps) [
    | some e ↦ some (invalid_knight_ref, e)
    | none ↦ elim (validate_chain_dag chain.spec.steps) [
      | some e ↦ some (cyclic_dependency, dag e)
      | none ↦ elim (validate_templates w chain.spec.steps) [
        | some e ↦ some (Reason.invalid_template, e)
        | none ↦ none
      ]
    ]
  ]
