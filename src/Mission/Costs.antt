-- ===== src/Mission/Costs.antt =====
-- `aggregateMissionCost`, and the check of the budget.
use roundtable.Prelude.{
  Bool, true, false, ◌||◌, List, [], ◌∷◌, Option, none, some, Str, bytes, ◌⊎◌, inl, inr, is_empty,
  str_eq, if◌then◌else◌,
}
use roundtable.Api.Meta.{ApiError, not_found, found, failed as call_failed}
use roundtable.Api.Mission.{MissionKnight, MissionKnightCost, Mission}
use roundtable.Mission.World.{costs, MissionWorld, Money}

abbrev pub no_cost : Str
no_cost = bytes "0.0000"

module _ (money : Money) {C : Type 0} (w : MissionWorld C) where
  -- The cost to add, if there is one, and its text.
  unfoldable pub cost_of : (total_cost : Str) → Option money.Cost × Str
  cost_of total_cost = elim (money.parse_cost total_cost) [
    | none ↦ (none, no_cost)
    | some cost ↦ if is_empty total_cost then (none, no_cost) else (some cost, total_cost)
  ]

  unfoldable pub knight_cost : (namespace name : Str) → ApiError ⊎ (Option money.Cost × Str)
  unfolding cost_of
  knight_cost namespace name = elim (w.get_knight costs namespace name) [
    | call_failed not_found ↦ inr (none, no_cost)
    | call_failed e ↦ inl e
    | found knight ↦ inr (cost_of knight.status.total_cost)
  ]

  abbrev pub plus_cost : money.Cost → Option money.Cost → money.Cost
  plus_cost total none = total
  plus_cost total (some cost) = money.add_cost total cost

  unfoldable pub add_costs :
      (namespace : Str) (total : money.Cost)
      → List MissionKnight
      → ApiError ⊎ (money.Cost × List MissionKnightCost)
  unfolding knight_cost
  add_costs namespace total [] = inr (total, [])
  add_costs namespace total (mk ∷ knights) = elim (knight_cost namespace mk.name) [
    | inl e ↦ inl e
    | inr (cost, text) ↦ elim (add_costs namespace (plus_cost total cost) knights) [
      | inl e ↦ inl e
      | inr (sum, rest) ↦
          inr (sum, record { name = mk.name; cost_usd = text; ephemeral = mk.ephemeral } ∷ rest)
    ]
  ]

  -- The total, and the mission with its breakdown; nothing, where a knight could not be read.
  unfoldable pub aggregate_mission_cost : Mission C → Option (money.Cost × Mission C)
  unfolding add_costs
  aggregate_mission_cost mission =
      elim (add_costs mission.namespace money.zero_cost mission.spec.knights) [
        | inl e ↦ none
        | inr (total, breakdown) ↦ some (
          total,
          record mission { status = record (mission.status) { cost_breakdown = breakdown } },
        )
      ]

  unfoldable pub has_budget : (budget : Str) → Bool
  has_budget budget = if is_empty budget || str_eq budget (bytes "0") then false else true

  -- What the budget says: the mission with its costs, and, where it is over, the total and budget.
  unfoldable pub check_budget : Mission C → Mission C × Option (money.Cost × money.Cost)
  unfolding has_budget aggregate_mission_cost
  check_budget mission =
      let text = mission.spec.cost_budget_usd in
      if has_budget text
      then elim (aggregate_mission_cost mission) [
        | none ↦ (mission, none)
        | some (total, mission') ↦ (
          record mission' {
            status = record (mission'.status) { total_cost = money.four_decimals total };
          },
          elim (money.parse_cost text) [
            | none ↦ none
            | some budget ↦ if money.exceeds total budget then some (total, budget) else none
          ],
        )
      ]
      else (mission, none)
