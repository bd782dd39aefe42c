-- ===== src/Mission/Cleanup/Gone.antt =====
-- What is gone when a cleanup is marked as complete.
use roundtable.Prelude.{
  ◌≡◌, ◌⊎◌, inl, inr, Bool, true, false, List, [], ◌∷◌, ◌++◌, Option, none, some, Str, bytes,
  is_empty, Bool-cases, Option-cases, All, arith, if◌then◌else◌,
}
use roundtable.Api.Meta.{
  ApiError, not_found, Answer, found, failed as call_failed, cleanup_complete, StatusConditions,
}
use roundtable.Api.Mission.{MissionKnightStatus, Mission}
use roundtable.Mission.World.{removal, MissionWorld}
use roundtable.Mission.Outcome.{is_true, should_delete_resources}
use roundtable.Mission.Cleanup.{
  delete_knight_of, delete_ephemeral_knights, delete_stream_of, delete_nats_streams,
  delete_ephemeral_round_table, delete_resources, clean_up, settle_deletion,
}

-- What was read is not there, or its deletion was answered without an error.
abbrev is_gone : {A : Type 0} → Answer A → (deleted : Option ApiError) → Bool
is_gone (call_failed not_found) deleted = true
is_gone (call_failed e) deleted = false
is_gone (found a) none = true
is_gone (found a) (some e) = false

module _ {C : Type 0} (w : MissionWorld C) where
  abbrev pub is_gone_knight : (namespace mission : Str) → MissionKnightStatus → Bool
  is_gone_knight namespace mission ks =
      let name = mission ++ bytes "-" ++ ks.name in
      is_gone (w.get_knight removal namespace name) (w.delete_knight namespace name)

  abbrev pub has_client : Bool
  has_client = elim w.nats_client [ inl e ↦ false | inr client ↦ true ]

  -- The mission has no such stream, or its deletion was answered without an error.
  abbrev pub is_gone_stream : (stream : Str) → Bool
  is_gone_stream stream = if is_empty stream then true else elim w.nats_client [
    | inl e ↦ false
    | inr client ↦ elim (client.delete_stream stream) [ none ↦ true | some e ↦ false ]
  ]

  -- Without a NATS client the streams are left alone.
  abbrev pub AreStreamsGone : Mission C → Type 0
  AreStreamsGone mission =
      (has_client ≡ false)
      ⊎ (is_gone_stream mission.status.nats_tasks_stream ≡ true)
        × (is_gone_stream mission.status.nats_results_stream ≡ true)

  abbrev pub is_gone_table : (namespace name : Str) → Bool
  is_gone_table namespace name =
      if is_empty name
      then true
      else is_gone (w.get_round_table removal namespace name) (w.delete_round_table namespace name)

  delete_ephemeral_knights-gone :
      (namespace mission : Str) (statuses : List MissionKnightStatus)
      → (delete_ephemeral_knights w namespace mission statuses).failed ≡ false
      → All (λ ks. ks.ephemeral ≡ true → is_gone_knight namespace mission ks ≡ true) statuses
  unfolding delete_ephemeral_knights delete_knight_of
  delete_ephemeral_knights-gone namespace mission [] h = tt
  delete_ephemeral_knights-gone namespace mission (ks ∷ statuses) h = (
    λ own. ground (arith, own, h),
    delete_ephemeral_knights-gone namespace mission statuses (ground (arith, h)),
  )

  -- No deletion has to be tried again: every ephemeral knight of the mission and its round table were
  -- deleted or are not there, and so were its two streams, unless there is no NATS client.
  delete_resources-gone :
      (mission : Mission C)
      → (delete_resources w mission).0 ≡ none
      → All
          (λ ks. ks.ephemeral ≡ true → is_gone_knight mission.namespace mission.name ks ≡ true)
          mission.status.knight_statuses
        × AreStreamsGone mission
        × (is_gone_table mission.namespace mission.status.round_table_name ≡ true)
  unfolding delete_resources delete_nats_streams delete_stream_of delete_ephemeral_round_table
  delete_resources-gone mission h = (
    delete_ephemeral_knights-gone mission.namespace mission.name mission.status.knight_statuses
        (ground (arith, h)),
    elim (Bool-cases has_client) [
      | inr e ↦ inl e
      | inl e ↦ inr (ground (arith, h, e), ground (arith, h, e))
    ],
    ground (arith, h),
  )

module _ (m : StatusConditions) (w : MissionWorld m.Conditions) where
  -- A cleanup that deletes marks itself as complete only if every ephemeral knight of the mission and
  -- its round table were deleted or are not there, and its two streams were deleted, unless they have
  -- no name or there is no NATS client to delete them with.
  pub clean_up-gone :
      (mission : Mission m.Conditions)
      → should_delete_resources m mission ≡ true
      → is_true m mission.status.conditions cleanup_complete ≡ false
      → is_true m (clean_up m w mission).mission.status.conditions cleanup_complete ≡ true
      → All
          (λ ks. ks.ephemeral ≡ true → is_gone_knight w mission.namespace mission.name ks ≡ true)
          mission.status.knight_statuses
        × AreStreamsGone w mission
        × (is_gone_table w mission.namespace mission.status.round_table_name ≡ true)
  unfolding clean_up settle_deletion
  clean_up-gone mission s u c = elim (Option-cases (delete_resources w mission).0) [
    | inl e ↦ delete_resources-gone w mission e
    | inr (d, e) ↦ absurd (ground (arith, s, u, c, e))
  ]
