-- ===== src/Mission/Assembler/Warm.antt =====
-- `claimWarmKnight`: a ready knight of the round table's pool is given up for one of the mission.
use roundtable.Prelude.{
  Bool, true, false, ◌&&◌, not, List, [], ◌∷◌, Option, none, some, Str, bytes, ◌⊎◌, inl, inr,
  str_eq, ◌==◌, if◌then◌else◌,
}
use roundtable.Util.Strings.{contains_string}
use roundtable.Api.Meta.{ApiError, conflict, already_exists, found, failed as call_failed, Error}
use roundtable.Api.Knight.{
  KnightPhase, ready, KnightStatus, Knight, label_mission, label_warm_pool_claimed,
}
use roundtable.Api.RoundTable.{WarmPoolConfig, RoundTable}
use roundtable.Api.Mission.{MissionKnight, Mission}
use roundtable.Mission.World.{
  MissionEffect, created_knight, updated_knight, deleted_knight, MissionWorld,
}
use roundtable.Mission.Assembler.Knights.{build_ephemeral_knight}

abbrev pub is_ready_phase : KnightPhase → Bool
is_ready_phase ready = true
is_ready_phase _ = false

abbrev pub is_ready_knight : KnightStatus → Bool
is_ready_knight st = is_ready_phase st.phase && st.ready

-- A write to a map.
unfoldable pub put_label : (key value : Str) → List (Str × Str) → List (Str × Str)
put_label key value [] = (key, value) ∷ []
put_label key value ((k, v) ∷ labels) =
    let rest = put_label key value labels in
    if str_eq k key then (k, value) ∷ labels else (k, v) ∷ rest

has_pool : Option WarmPoolConfig → Bool
has_pool none = false
has_pool (some pool) = not (pool.size == 0)

unfoldable pub warm_candidates : (claimed : List Str) → List Knight → List Knight
warm_candidates claimed [] = []
warm_candidates claimed (k ∷ knights) =
    let rest = warm_candidates claimed knights in
    if is_ready_knight k.status && not (contains_string claimed k.name) then k ∷ rest else rest

-- The warm knight with the labels of the claim.
unfoldable pub reserve : (mission : Str) → Knight → Knight
unfolding put_label
reserve mission k = record k {
  labels =
      put_label label_mission mission (put_label label_warm_pool_claimed (bytes "true") k.labels);
}

-- `err != nil && !apierrors.IsAlreadyExists(err)`
abbrev pub creation_failed : Option ApiError → Bool
creation_failed none = false
creation_failed (some already_exists) = false
creation_failed (some e) = true

module _ {C : Type 0} (w : MissionWorld C) where
  -- Whether a knight was claimed, the warm knights claimed in this pass, and the effects.
  pub record Claim : Type 0 where
    pub claimed : Bool
    pub taken : List Str
    pub effects : List (MissionEffect C)

  -- The warm knight is reserved; it is replaced by the mission's.
  unfoldable pub replace_warm : Mission C → Error ⊎ Knight → Knight → (taken : List Str) → Claim
  replace_warm mission (inl e) warm taken = record { claimed = false; taken = taken; effects = [] }
  replace_warm mission (inr knight) warm taken =
      if creation_failed (w.create_knight knight)
      then record { claimed = false; taken = taken; effects = created_knight knight ∷ [] }
      else record {
        claimed = true;
        taken = taken;
        effects = created_knight knight ∷ deleted_knight warm.name ∷ [];
      }

  -- The candidates in order, until one is reserved.
  unfoldable pub claim_from : Mission C → Error ⊎ Knight → List Knight → (taken : List Str) → Claim
  unfolding reserve replace_warm
  claim_from mission built [] taken = record { claimed = false; taken = taken; effects = [] }
  claim_from mission built (k ∷ candidates) taken =
      let reserved = reserve mission.name k in
      let later = claim_from mission built candidates taken in
      let replaced = replace_warm mission built k (k.name ∷ taken) in
      elim (w.update_knight reserved) [
        | some conflict ↦ record later { effects = updated_knight reserved ∷ later.effects }
        | some e ↦ record { claimed = false; taken = taken; effects = updated_knight reserved ∷ [] }
        | none ↦ record replaced { effects = updated_knight reserved ∷ replaced.effects }
      ]

  unfoldable pub claim_warm_knight :
      Mission C → MissionKnight → RoundTable → (taken : List Str) → Claim
  unfolding has_pool warm_candidates claim_from build_ephemeral_knight
  claim_warm_knight mission mk table taken =
      let nothing : Claim = record { claimed = false; taken = taken; effects = [] } in
      let claim : Claim = elim (w.list_warm_knights mission.namespace table.name) [
        | call_failed e ↦ nothing
        | found knights ↦
            claim_from mission (build_ephemeral_knight mission mk table)
              (warm_candidates taken knights) taken
      ] in
      if has_pool table.spec.warm_pool then claim else nothing
