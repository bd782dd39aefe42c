-- ===== src/Mission/Assembler/Assembling.antt =====
-- `KnightAssembler.ReconcileAssembling`.
pub mod Laws
use roundtable.Prelude.{
  ℕ, ◌-◌, ◌*◌, ◌/◌, Bool, true, false, List, [], ◌∷◌, ◌++◌, map, Option, none, some, Str, bytes,
  ◌⊎◌, inl, inr, is_empty, length, ltb, str_eq, if◌then◌else◌,
}
use roundtable.Api.Meta.{
  not_found, found, failed as call_failed, Error, api, plain, wrapped, condition_true,
  condition_false, knights_ready, knight_not_found_reason, assembly_timeout, all_knights_ready,
  plain_message, knights_not_ready_within, StatusConditions, Answer,
}
use roundtable.Api.Phase.{briefing}
use roundtable.Api.Knight.{Knight}
use roundtable.Api.RoundTable.{RoundTable}
use roundtable.Api.Mission.{MissionKnight, MissionKnightStatus, Mission}
use roundtable.Nats.Subjects.{decimal}
use roundtable.Chain.World.{second}
use roundtable.Chain.Run.{requeue_fast}
use roundtable.Mission.World.{
  Read, recruited, assembled, MissionEffect, created_knight, MissionWorld,
}
use roundtable.Mission.Run.{
  MissionRun, requeue_in, finished, fails_with, mission_ends, mission_after, set_phase, set_failed,
  set_condition, observe, save,
}
use roundtable.Mission.Assembler.Setup.{ensure_mission_service_account}
use roundtable.Mission.Assembler.Knights.{quoted, knight_name, build_ephemeral_knight}
use roundtable.Mission.Assembler.Warm.{is_ready_knight, claim_warm_knight}
use roundtable.Mission.Provisioning.{any_ephemeral, wrapped_outcome}

-- The map `knightStatuses` is the list of its entries.
unfoldable pub put_status :
    MissionKnightStatus → List MissionKnightStatus → List MissionKnightStatus
put_status ks [] = ks ∷ []
put_status ks (old ∷ statuses) =
    let rest = put_status ks statuses in
    if str_eq old.name ks.name then ks ∷ statuses else old ∷ rest

unfoldable pub put_statuses :
    List MissionKnightStatus → List MissionKnightStatus → List MissionKnightStatus
unfolding put_status
put_statuses [] entries = entries
put_statuses (ks ∷ statuses) entries = put_statuses statuses (put_status ks entries)

-- The entries of these names.
unfoldable pub pick_statuses :
    (names : List Str) → List MissionKnightStatus → List MissionKnightStatus
pick_statuses [] entries = []
pick_statuses (name ∷ names) entries = with_name entries ++ pick_statuses names entries
  where
    with_name : List MissionKnightStatus → List MissionKnightStatus
    with_name [] = []
    with_name (ks ∷ entries) =
        let rest = with_name entries in if str_eq ks.name name then ks ∷ [] else rest

-- `%v` of a list of strings.
joined : List Str → Str
joined [] = []
joined (s ∷ []) = s
joined (s ∷ t ∷ names) = s ++ bytes " " ++ joined (t ∷ names)

-- A third of the mission's timeout, and at least three minutes.
unfoldable pub assembly_window : (timeout : ℕ) → ℕ
assembly_window timeout =
    if ltb (timeout / 3 * second) (180 * second) then 180 * second else timeout / 3 * second

unfoldable pub assembly_timed_out : (now : ℕ) → (started_at : Option ℕ) → (timeout : ℕ) → Bool
unfolding assembly_window
assembly_timed_out now none timeout = false
assembly_timed_out now (some started) timeout = ltb (assembly_window timeout) (now - started)

module _ {C : Type 0} (w : MissionWorld C) where
  -- The state of the loop over the knights.
  pub record Assembly : Type 0 where
    pub statuses : List MissionKnightStatus
    pub not_ready : List Str
    -- the round table, once it was read
    pub table : Option RoundTable
    pub claimed : List Str
    pub effects : List (MissionEffect C)

  -- `lacks`: a recruited knight is not there.
  pub data Assembled : Type 0 where
    goes : Assembly → Assembled
    lacks : (name : Str) → List (MissionEffect C) → Assembled
    errs : Error → List (MissionEffect C) → Assembled

  -- The status of a knight, and its name where it is not ready.
  abbrev pub note_knight : (name : Str) (ephemeral reported ready : Bool) → Assembly → Assembly
  note_knight name ephemeral reported ready a = record a {
    statuses =
        put_status
          (record { name = name; ready = reported; tasks_completed = 0; ephemeral = ephemeral })
          a.statuses;
    not_ready = if ready then a.not_ready else a.not_ready ++ name ∷ [];
  }

  -- What the read of a recruited knight answered.
  unfoldable pub recruit : Answer Knight → MissionKnight → Assembly → Assembled
  unfolding put_status
  recruit (call_failed not_found) mk a = lacks mk.name a.effects
  recruit (call_failed e) mk a =
      errs (wrapped (bytes "failed to get recruited knight " ++ quoted mk.name) (api e)) a.effects
  recruit (found k) mk a =
      goes (note_knight mk.name false k.status.ready (is_ready_knight k.status) a)

  unfoldable pub table_name : Mission C → Str
  table_name mission =
      if is_empty mission.status.round_table_name
      then mission.spec.round_table_ref
      else mission.status.round_table_name

  -- The closure `getRoundTable`.
  unfoldable pub get_table : Mission C → (cached : Option RoundTable) → Error ⊎ RoundTable
  unfolding table_name
  get_table mission (some table) = inr table
  get_table mission none =
      let name = table_name mission in
      if is_empty name
      then inl (
          plain (
            bytes
              "cannot create ephemeral knight: no RoundTable (neither status.roundTableName nor spec.roundTableRef is set)"))
      else elim (w.get_round_table Read.assembled mission.namespace name) [
        | call_failed e ↦ inl (wrapped (bytes "failed to get RoundTable " ++ quoted name) (api e))
        | found table ↦ inr table
      ]

  -- A knight that no warm knight was claimed for.
  unfoldable pub cold_start : MissionKnight → Error ⊎ Knight → Assembly → Assembled
  unfolding put_status
  cold_start mk (inl e) a =
      errs (wrapped (bytes "failed to build ephemeral knight " ++ quoted mk.name) e) a.effects
  cold_start mk (inr knight) a =
      let effects = a.effects ++ created_knight knight ∷ [] in
      elim (w.create_knight knight) [
        | some e ↦ errs (wrapped (bytes "failed to create ephemeral knight") (api e)) effects
        | none ↦ goes (record (note_knight mk.name true false false a) { effects = effects })
      ]

  unfoldable pub start_knight : Mission C → MissionKnight → RoundTable → Assembly → Assembled
  unfolding cold_start put_status claim_warm_knight build_ephemeral_knight
  start_knight mission mk table a =
      let claim = claim_warm_knight w mission mk table a.claimed in
      let a' : Assembly = record a {
        table = some table;
        claimed = claim.taken;
        effects = a.effects ++ claim.effects;
      } in
      if claim.claimed
      then goes (note_knight mk.name true false false a')
      else cold_start mk (build_ephemeral_knight mission mk table) a'

  unfoldable pub start_with : Error ⊎ RoundTable → Mission C → MissionKnight → Assembly → Assembled
  unfolding start_knight
  start_with (inl e) mission mk a = errs e a.effects
  start_with (inr table) mission mk a = start_knight mission mk table a

  -- What the read of an ephemeral knight answered.
  unfoldable pub make_knight : Answer Knight → Mission C → MissionKnight → Assembly → Assembled
  unfolding get_table start_with put_status knight_name
  make_knight (call_failed not_found) mission mk a =
      start_with (get_table mission a.table) mission mk a
  make_knight (call_failed e) mission mk a =
      errs
        (wrapped (bytes "failed to get knight " ++ quoted (knight_name mission.name mk.name))
          (api e))
        a.effects
  make_knight (found k) mission mk a =
      goes (note_knight mk.name true k.status.ready (is_ready_knight k.status) a)

  -- One round of the loop.
  unfoldable pub assemble_knight : Mission C → MissionKnight → Assembly → Assembled
  unfolding recruit make_knight knight_name
  assemble_knight mission mk a =
      let namespace = mission.namespace in
      let own = w.get_knight assembled namespace (knight_name mission.name mk.name) in
      let made = make_knight own mission mk a in
      let met = recruit (w.get_knight recruited namespace mk.name) mk a in
      if mk.ephemeral then made else met

  unfoldable pub assemble_knights : Mission C → List MissionKnight → Assembly → Assembled
  unfolding assemble_knight
  assemble_knights mission [] a = goes a
  assemble_knights mission (mk ∷ knights) a = elim (assemble_knight mission mk a) [
    | goes a' ↦ assemble_knights mission knights a'
    | lacks name effects ↦ lacks name effects
    | errs e effects ↦ errs e effects
  ]

  -- The loop begins with the statuses that the mission has.
  unfoldable pub assembly_start : Mission C → Assembly
  unfolding put_statuses
  assembly_start mission = record {
    statuses = put_statuses mission.status.knight_statuses [];
    not_ready = [];
    table = none;
    claimed = [];
    effects = [];
  }

module _ (m : StatusConditions) (w : MissionWorld m.Conditions) where
  -- The entries of the map, in the order in which it is ranged over.
  unfoldable pub with_assembly :
      List MissionKnightStatus → Mission m.Conditions → Mission m.Conditions
  unfolding pick_statuses
  with_assembly entries mission =
      let names = w.base.map_keys (map (λ (ks : MissionKnightStatus). ks.name) entries) in
      record mission {
        status = record (mission.status) { knight_statuses = pick_statuses names entries };
      }

  unfoldable pub time_out_assembly :
      (not_ready : List Str) → Mission m.Conditions → MissionRun m.Conditions
  unfolding joined
  time_out_assembly not_ready mission =
      save w
        (set_condition m w.base.now knights_ready assembly_timeout
          (knights_not_ready_within (assembly_window mission.spec.timeout) not_ready)
          condition_false
          (set_failed w.base.now
            (bytes "Assembly timeout: knights not ready: [" ++ joined not_ready ++ bytes "]")
            mission))
        (wrapped_outcome (bytes "failed to update mission status") finished) []

  unfoldable pub all_assembled : (total : ℕ) → Mission m.Conditions → MissionRun m.Conditions
  unfolding decimal
  all_assembled total mission = mission_ends (requeue_in requeue_fast) (
      set_phase briefing (
        set_condition m w.base.now knights_ready all_knights_ready
          (plain_message (bytes "All " ++ decimal total ++ bytes " knights are ready"))
          condition_true mission))

  -- What the loop over the knights came to.
  unfoldable pub settle_assembly :
      (total : ℕ) → Mission m.Conditions → Assembled w → MissionRun m.Conditions
  unfolding with_assembly time_out_assembly all_assembled assembly_timed_out
  settle_assembly total mission (errs e effects) =
      mission_after effects (mission_ends (fails_with e) mission)
  settle_assembly total mission (lacks name effects) = mission_after effects (
      mission_ends (requeue_in (10 * second)) (
        observe (
          set_condition m w.base.now knights_ready knight_not_found_reason
            (plain_message (bytes "Recruited knight " ++ quoted name ++ bytes " not found"))
            condition_false mission)))
  settle_assembly total mission (goes a) =
      let mission' = with_assembly a.statuses mission in
      mission_after a.effects (
        if assembly_timed_out w.base.now mission.status.started_at mission.spec.timeout
        then time_out_assembly a.not_ready mission'
        else elim a.not_ready [
          | [] ↦ all_assembled total mission'
          | name ∷ names ↦ mission_ends (requeue_in (3 * second)) mission'
        ])

  -- The loop over these knights.
  unfoldable pub run_assembly : List MissionKnight → Mission m.Conditions → MissionRun m.Conditions
  unfolding assembly_start assemble_knights settle_assembly
  run_assembly knights mission =
      settle_assembly (length knights) mission
        (assemble_knights w mission knights (assembly_start w mission))

  -- What follows the account.
  unfoldable pub with_account :
      Option Error → Mission m.Conditions → MissionRun m.Conditions → MissionRun m.Conditions
  with_account (some e) mission run =
      mission_ends (fails_with (wrapped (bytes "failed to ensure ServiceAccount") e)) mission
  with_account none mission run = run

  unfoldable pub assemble : Mission m.Conditions → MissionRun m.Conditions
  unfolding any_ephemeral run_assembly with_account
  assemble mission =
      let knights = mission.spec.knights ++ mission.spec.generated_knights in
      let account = ensure_mission_service_account w mission (bytes "mission-" ++ mission.name) in
      let run = run_assembly knights mission in
      if any_ephemeral knights
      then mission_after account.effects (with_account account.error mission run)
      else run
