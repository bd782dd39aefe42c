-- ===== src/Mission/Chains/Laws.antt =====
-- What a sweep over the mission's chains says of them.
use roundtable.Prelude.{
  ◌≡◌, refl, ◌⊎◌, inl, inr, true, false, List, [], ◌∷◌, none, Str, Bool-cases, All, arith,
}
use roundtable.Api.Meta.{ApiError, Answer, found, failed as call_failed, StatusConditions}
use roundtable.Api.Chain.{Chain}
use roundtable.Api.Mission.{MissionChainRef, Mission}
use roundtable.Mission.World.{monitored, MissionWorld}
use roundtable.Mission.Outcome.{is_succeeded_chain}
use roundtable.Mission.Chains.{
  mission_chain_name, is_active_ref, Sweep, trigger_mission_chain, triggered, watched,
  monitor_mission_chain, sweep_chain, join_sweeps, sweep_chains,
}

module _ (m : StatusConditions) (w : MissionWorld m.Conditions) (namespace name : Str) where
  -- The mission's copy of the chain was seen, and had succeeded.
  pub record HasSucceeded (ref : MissionChainRef) : Type 0 where
    pub chain : Chain m.Conditions
    pub seen : w.get_chain monitored namespace (mission_chain_name name ref.name) ≡ found chain
    pub succeeded : is_succeeded_chain chain.status.phase ≡ true

  -- This is the mission.
  abbrev pub IsNamed : Mission m.Conditions → Type 0
  IsNamed mission = (mission.namespace ≡ namespace) × (mission.name ≡ name)

  -- A sweep that says that all is well.
  abbrev pub IsClean : Sweep m w → Type 0
  IsClean s = (s.error ≡ none) × (s.all_complete ≡ true) × (s.any_failed ≡ false)

  answers :
      (a : Answer (Chain m.Conditions))
      → ((e : ApiError) × (a ≡ call_failed e)) ⊎ ((c : Chain m.Conditions) × (a ≡ found c))
  answers (call_failed e) = inl (e, refl)
  answers (found c) = inr (c, refl)

  monitor_mission_chain-IsNamed :
      (ref : MissionChainRef) (mission : Mission m.Conditions)
      → IsNamed mission
      → IsNamed (monitor_mission_chain m w ref mission).mission
  unfolding monitor_mission_chain watched trigger_mission_chain triggered
  monitor_mission_chain-IsNamed ref mission h = ground arith

  monitor_mission_chain-HasSucceeded :
      (ref : MissionChainRef) (mission : Mission m.Conditions)
      → IsNamed mission
      → IsClean (monitor_mission_chain m w ref mission)
      → HasSucceeded ref
  unfolding monitor_mission_chain watched trigger_mission_chain triggered
  monitor_mission_chain-HasSucceeded ref mission h c =
      elim (answers (w.get_chain monitored namespace (mission_chain_name name ref.name))) [
        | inl (e, a) ↦ absurd (ground (arith, h, c, a))
        | inr (chain, a) ↦ record { chain = chain; seen = a; succeeded = ground (arith, h, c, a) }
      ]

  sweep_chain-IsNamed :
      (ref : MissionChainRef) (mission : Mission m.Conditions)
      → IsNamed mission
      → IsNamed (sweep_chain m w ref mission).mission
  unfolding sweep_chain
  sweep_chain-IsNamed ref mission h = ground (arith, monitor_mission_chain-IsNamed ref mission h)

  sweep_chain-HasSucceeded :
      (ref : MissionChainRef) (mission : Mission m.Conditions)
      → IsNamed mission
      → IsClean (sweep_chain m w ref mission)
      → HasSucceeded ref
  unfolding sweep_chain
  sweep_chain-HasSucceeded ref mission h c =
      monitor_mission_chain-HasSucceeded ref mission h (ground (arith, c))

  join_sweeps-IsClean :
      (one rest : Sweep m w) → IsClean (join_sweeps m w one rest) → IsClean one × IsClean rest
  unfolding join_sweeps
  join_sweeps-IsClean one rest c = ground (arith, c)

  pub sweep_chains-HasSucceeded :
      (refs : List MissionChainRef) (mission : Mission m.Conditions)
      → IsNamed mission
      → IsClean (sweep_chains m w refs mission)
      → All (λ ref. is_active_ref ref.phase ≡ true → HasSucceeded ref) refs
  unfolding sweep_chains
  sweep_chains-HasSucceeded [] mission h c = tt
  sweep_chains-HasSucceeded (ref ∷ refs) mission h c =
      let one = sweep_chain m w ref mission in
      elim (Bool-cases (is_active_ref ref.phase)) [
        | inl e ↦
            let (first, later) =
              join_sweeps-IsClean one (sweep_chains m w refs one.mission) (ground (arith, e, c)) in
            (
              λ _. sweep_chain-HasSucceeded ref mission h first,
              sweep_chains-HasSucceeded refs one.mission (sweep_chain-IsNamed ref mission h) later,
            )
        | inr e ↦ (
          λ t. absurd (ground (arith, e, t)),
          sweep_chains-HasSucceeded refs mission h (ground (arith, e, c)),
        )
      ]
