-- ===== src/Mission/Assembler/Assembling/Laws.antt =====
-- When a mission goes on from Assembling.
use roundtable.Prelude.{
  ℕ, ◌≡◌, ◌≢◌, refl, ◌⊎◌, inl, inr, Bool, true, false, List, [], ◌∷◌, ◌++◌, Str, if◌then◌else◌,
  length, Option-cases, All, arith, both_branches,
}
use roundtable.Api.Meta.{
  not_found, conflict, already_exists, other, Answer, found, failed as call_failed, Error,
  StatusConditions,
}
use roundtable.Api.Phase.{briefing, assembling}
use roundtable.Api.Knight.{Knight}
use roundtable.Api.RoundTable.{RoundTable}
use roundtable.Api.Mission.{MissionKnight, Mission}
use roundtable.Mission.World.{assembled, recruited, MissionWorld}
use roundtable.Mission.Run.{save, set_failed, set_complete, set_phase, set_condition}
use roundtable.Mission.Assembler.Knights.{knight_name, build_ephemeral_knight}
use roundtable.Mission.Assembler.Warm.{is_ready_knight, claim_warm_knight}
use roundtable.Mission.Assembler.Assembling.{
  Assembly, Assembled, goes, lacks, errs, recruit, cold_start, start_knight, make_knight, get_table,
  assemble_knights, assembly_start, time_out_assembly, with_assembly, settle_assembly, run_assembly,
  with_account, assemble, put_status, start_with, assemble_knight, note_knight,
}

append-not_nil : {A : Type 0} (xs : List A) (x : A) → xs ++ x ∷ [] ≢ []
append-not_nil [] x = λ q. cc
append-not_nil (y ∷ xs) x = λ q. cc

module _ {C : Type 0} (w : MissionWorld C) where
  -- Whether a knight was read and is ready.
  abbrev pub seen_ready : Answer Knight → Bool
  seen_ready (call_failed e) = false
  seen_ready (found k) = is_ready_knight k.status

  -- The knight of this entry of the spec is there and ready: for an ephemeral one, the mission's own.
  abbrev pub is_ready_for : Mission C → MissionKnight → Bool
  is_ready_for mission mk =
      if mk.ephemeral
      then seen_ready (w.get_knight assembled mission.namespace (knight_name mission.name mk.name))
      else seen_ready (w.get_knight recruited mission.namespace mk.name)

  -- What holds if the loop went on and no knight is missing.
  abbrev Then : Type 0 → Assembled w → Type 0
  Then X (goes a) = a.not_ready ≡ [] → X
  Then X (lacks name effects) = Unit
  Then X (errs e effects) = Unit

  Then-imp : (X Y : Type 0) (s : Assembled w) → (X → Y) → Then X s → Then Y s
  Then-imp X Y (goes a) f h = λ e. f (h e)
  Then-imp X Y (lacks name effects) f h = tt
  Then-imp X Y (errs e effects) f h = tt

  note_knight-Then :
      (name : Str) (ephemeral reported ready : Bool) (a : Assembly w) (X : Type 0)
      → (ready ≡ true → X)
      → Then (X × (a.not_ready ≡ [])) (goes (note_knight w name ephemeral reported ready a))
  unfolding put_status
  note_knight-Then name ephemeral reported true a X f = λ e. (f refl, e)
  note_knight-Then name ephemeral reported false a X f =
      λ e. absurd (append-not_nil a.not_ready name e)

  recruit-Then :
      (answer : Answer Knight) (mk : MissionKnight) (a : Assembly w)
      → Then ((seen_ready answer ≡ true) × (a.not_ready ≡ [])) (recruit w answer mk a)
  unfolding recruit
  recruit-Then (call_failed not_found) mk a = tt
  recruit-Then (call_failed conflict) mk a = tt
  recruit-Then (call_failed already_exists) mk a = tt
  recruit-Then (call_failed (other e)) mk a = tt
  recruit-Then (found k) mk a =
      note_knight-Then mk.name false k.status.ready (is_ready_knight k.status) a _ (λ e. e)

  cold_start-Then :
      (mk : MissionKnight) (built : Error ⊎ Knight) (a : Assembly w) (X : Type 0)
      → Then X (cold_start w mk built a)
  unfolding cold_start put_status
  cold_start-Then mk (inl e) a X = tt
  cold_start-Then mk (inr knight) a X = elim (Option-cases (w.create_knight knight)) [
    | inl e ↦ rw (e, Then, cold_start) (λ n. absurd (append-not_nil a.not_ready mk.name n))
    | inr (x, e) ↦ rw (e, Then, cold_start) tt
  ]

  start_with-Then :
      (table : Error ⊎ RoundTable) (mission : Mission C) (mk : MissionKnight) (a : Assembly w)
      (X : Type 0)
      → Then X (start_with w table mission mk a)
  unfolding start_with start_knight put_status
  start_with-Then (inl e) mission mk a X = tt
  start_with-Then (inr table) mission mk a X =
      both_branches (Then X) (claim_warm_knight w mission mk table a.claimed).claimed _ _
        (λ n. absurd (append-not_nil a.not_ready mk.name n))
        (cold_start-Then mk (build_ephemeral_knight mission mk table) _ X)

  make_knight-Then :
      (answer : Answer Knight) (mission : Mission C) (mk : MissionKnight) (a : Assembly w)
      → Then ((seen_ready answer ≡ true) × (a.not_ready ≡ [])) (make_knight w answer mission mk a)
  unfolding make_knight
  make_knight-Then (call_failed not_found) mission mk a =
      start_with-Then (get_table w mission a.table) mission mk a _
  make_knight-Then (call_failed conflict) mission mk a = tt
  make_knight-Then (call_failed already_exists) mission mk a = tt
  make_knight-Then (call_failed (other e)) mission mk a = tt
  make_knight-Then (found k) mission mk a =
      note_knight-Then mk.name true k.status.ready (is_ready_knight k.status) a _ (λ e. e)

  if-Then :
      (b x y : Bool) (s t : Assembled w) (Y : Type 0)
      → Then ((x ≡ true) × Y) s
      → Then ((y ≡ true) × Y) t
      → Then (((if b then x else y) ≡ true) × Y) (if b then s else t)
  if-Then true x y s t Y h h' = h
  if-Then false x y s t Y h h' = h'

  assemble_knight-Then :
      (mission : Mission C) (mk : MissionKnight) (a : Assembly w)
      → Then
          ((is_ready_for mission mk ≡ true) × (a.not_ready ≡ []))
          (assemble_knight w mission mk a)
  unfolding assemble_knight
  assemble_knight-Then mission mk a =
      if-Then mk.ephemeral _ _ _ _ (a.not_ready ≡ [])
        (make_knight-Then
          (w.get_knight assembled mission.namespace (knight_name mission.name mk.name)) mission mk
          a)
        (recruit-Then (w.get_knight recruited mission.namespace mk.name) mk a)

  elim-Then :
      (mission : Mission C) (mk : MissionKnight) (knights : List MissionKnight) (a : Assembly w)
      (s : Assembled w)
      → Then ((is_ready_for mission mk ≡ true) × (a.not_ready ≡ [])) s
      → ((b : Assembly w)
          → Then
              (All (λ mk. is_ready_for mission mk ≡ true) knights × (b.not_ready ≡ []))
              (assemble_knights w mission knights b))
      → Then
          (All (λ mk. is_ready_for mission mk ≡ true) (mk ∷ knights) × (a.not_ready ≡ []))
          (elim s [
            | goes b ↦ assemble_knights w mission knights b
            | lacks name effects ↦ lacks name effects
            | errs e effects ↦ errs e effects
          ])
  elim-Then mission mk knights a (goes b) h later =
      Then-imp _ _ (assemble_knights w mission knights b)
        (λ all. let (ready, none_before) = h all.1 in ((ready, all.0), none_before)) (later b)
  elim-Then mission mk knights a (lacks name effects) h later = tt
  elim-Then mission mk knights a (errs e effects) h later = tt

  assemble_knights-Then :
      (mission : Mission C) (knights : List MissionKnight) (a : Assembly w)
      → Then
          (All (λ mk. is_ready_for mission mk ≡ true) knights × (a.not_ready ≡ []))
          (assemble_knights w mission knights a)
  unfolding assemble_knights
  assemble_knights-Then mission [] a = λ e. (tt, e)
  assemble_knights-Then mission (mk ∷ knights) a =
      elim-Then mission mk knights a (assemble_knight w mission mk a)
        (assemble_knight-Then mission mk a) (λ b. assemble_knights-Then mission knights b)

module _ (m : StatusConditions) (w : MissionWorld m.Conditions) where
  settle_assembly-Then :
      (total : ℕ) (mission : Mission m.Conditions) (X : Type 0) (s : Assembled w)
      → Then w X s
      → mission.status.phase ≡ assembling
      → (settle_assembly m w total mission s).mission.status.phase ≡ briefing
      → X
  unfolding settle_assembly time_out_assembly with_assembly save set_failed set_complete set_phase
      set_condition
  settle_assembly-Then total mission X (errs e effects) h here b = absurd (ground (arith, here, b))
  settle_assembly-Then total mission X (lacks name effects) h here b =
      absurd (ground (arith, here, b))
  settle_assembly-Then total mission X (goes a) h here b = h (ground (arith, here, b))

  -- A mission goes on from Assembling to Briefing only if every knight that it names, generated ones
  -- included, was read in that pass and is ready: the mission's own for an ephemeral one.
  pub assemble-ready :
      (mission : Mission m.Conditions)
      → mission.status.phase ≡ assembling
      → (assemble m w mission).mission.status.phase ≡ briefing
      → All
          (λ mk. is_ready_for w mission mk ≡ true)
          (mission.spec.knights ++ mission.spec.generated_knights)
  unfolding assemble with_account run_assembly
  assemble-ready mission here b =
      let knights = mission.spec.knights ++ mission.spec.generated_knights in
      let s = assemble_knights w mission knights (assembly_start w mission) in
      let run : (run_assembly m w knights mission).mission.status.phase ≡ briefing =
        ground (arith, here, b) in
      (settle_assembly-Then (length knights) mission _ s
        (assemble_knights-Then w mission knights (assembly_start w mission)) here run).0
