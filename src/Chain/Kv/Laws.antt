-- ===== src/Chain/Kv/Laws.antt =====
-- What a restore from the bucket can do to a step.
use roundtable.Prelude.{
  ℕ, ◌≡◌, refl, ap, ◌⊎◌, inl, inr, true, false, not, ◌&&◌, ◌||◌, List, [], ◌∷◌, some, Str, bytes,
  is_empty, is_some, str_eq, str_eq_iff, Bool-cases, Option-cases, All, arith,
}
use roundtable.Api.Chain.{ChainSpec, ChainStepStatus, succeeded, failed, Chain}
use roundtable.Chain.World.{World, NatsClient, JsonValue}
use roundtable.Chain.Kv.{
  outputs_bucket, output_key, as_string, is_pending, restore_from, restore_step, restore_steps,
  restore_step_outputs,
}
use roundtable.Chain.Output.{is_empty_step_output, status_output}
use roundtable.Chain.Invariant.{retry_limit, IsSound}

-- What a restore makes of a step: nothing, or the end that the same run stored for it.
pub data Restored (run_id : Str) (stored_run_id : Str) (ss : ChainStepStatus)
    : ChainStepStatus → Type 0 where
  kept : Restored run_id stored_run_id ss ss
  ended :
      (t : ChainStepStatus)
      → (run_id ≡ stored_run_id)
      → (is_empty run_id ≡ false)
      → (t.name ≡ ss.name)
      → (t.retries ≡ ss.retries)
      → (is_some t.completed_at ≡ true)
      → ((t.phase ≡ succeeded) × (t.error ≡ ss.error))
        ⊎ ((t.phase ≡ failed) × (is_empty t.error ≡ false))
      → Restored run_id stored_run_id ss t

ended_by_error :
    (run_id stored_run_id : Str) (ss : ChainStepStatus) (now : ℕ) (error : Str)
    → (is_empty stored_run_id || not (str_eq stored_run_id run_id)) ≡ false
    → is_empty error ≡ false
    → Restored run_id stored_run_id ss
        (record ss { phase = failed; error = error; completed_at = some now })
ended_by_error run_id stored_run_id ss now error own some_error =
    let same : run_id ≡ stored_run_id = ground (arith, own, str_eq_iff stored_run_id run_id) in
    ended _ same (ground (arith, own, same)) refl refl refl (inr (refl, some_error))

ended_by_output :
    (run_id stored_run_id : Str) (ss : ChainStepStatus) (now : ℕ) (output : Str)
    → (is_empty stored_run_id || not (str_eq stored_run_id run_id)) ≡ false
    → Restored run_id stored_run_id ss
        (record ss { phase = succeeded; output = output; completed_at = some now })
ended_by_output run_id stored_run_id ss now output own =
    let same : run_id ≡ stored_run_id = ground (arith, own, str_eq_iff stored_run_id run_id) in
    ended _ same (ground (arith, own, same)) refl refl refl (inl (refl, refl))

module _ {C : Type 0} (w : World C) where
  restore_from-Restored :
      (chain run_id : Str) (ss : ChainStepStatus) (value : Str → JsonValue)
      → Restored run_id
          (as_string (value (bytes "runId")))
          ss
          (restore_from w chain run_id ss value).0
  unfolding restore_from
  restore_from-Restored chain run_id ss value =
      let output = as_string (value (bytes "output")) in
      let error = as_string (value (bytes "error")) in
      let stored = as_string (value (bytes "runId")) in
      elim (Bool-cases (is_empty error && is_empty_step_output output)) [
        | inl e ↦ rw e kept
        | inr e ↦ elim (Bool-cases (is_empty stored || not (str_eq stored run_id))) [
          | inl other ↦ rw (e, other) kept
          | inr own ↦ elim (Bool-cases (is_empty error)) [
            | inr some_error ↦
                rw (e, own, some_error) (ended_by_error run_id stored ss w.now error own some_error)
            | inl no_error ↦
                rw (e, own, no_error)
                  (ended_by_output run_id stored ss w.now (status_output chain ss.name output) own)
          ]
        ]
      ]

  -- A restore leaves a step as it is, or the step was Pending and the bucket has an object under its
  -- key that this very run stored; then the step keeps its name and its retries and ends with a
  -- completion time, as Succeeded or as Failed with an error.
  pub restore_step-Restored :
      (client : NatsClient) (chain run_id : Str) (ss : ChainStepStatus)
      → ((restore_step w client chain run_id ss).0 ≡ ss)
        ⊎ ((content : Str) × (value : Str → JsonValue) × (is_pending ss.phase ≡ true)
            × (client.kv_get outputs_bucket (output_key chain ss.name) ≡ some content)
            × (w.unmarshal_object content ≡ some value)
            × Restored run_id
                (as_string (value (bytes "runId")))
                ss
                (restore_step w client chain run_id ss).0)
  unfolding restore_step
  restore_step-Restored client chain run_id ss = elim (Bool-cases (is_pending ss.phase)) [
    | inr e ↦ inl (rw (e, restore_step) refl)
    | inl e ↦ elim (Option-cases (client.kv_get outputs_bucket (output_key chain ss.name))) [
      | inl got ↦ inl (rw (e, got, restore_step) refl)
      | inr (content, got) ↦ elim (Option-cases (w.unmarshal_object content)) [
        | inl parsed ↦ inl (rw (e, got, parsed, restore_step) refl)
        | inr (value, parsed) ↦ inr (
          content,
          value,
          e,
          got,
          parsed,
          rw (e, got, parsed, restore_step) (restore_from-Restored chain run_id ss value),
        )
      ]
    ]
  ]

  Restored-IsSound :
      (spec : ChainSpec) (run_id stored : Str) (ss t : ChainStepStatus)
      → Restored run_id stored ss t
      → is_pending ss.phase ≡ true
      → IsSound spec ss
      → IsSound spec t
  Restored-IsSound spec run_id stored ss t kept waits h = h
  Restored-IsSound spec run_id stored ss t (ended _ _ _ n r c e) waits h = record {
    fresh = ground (arith, e);
    error_of_failure = ground (arith, e, h.error_of_failure, waits);
    tracked = ground (arith, e);
    ended = λ _. c;
    bounded = ground (arith, r, ap (retry_limit spec) n, h.bounded);
  }

  restore_step-IsSound :
      (spec : ChainSpec) (client : NatsClient) (chain run_id : Str) (ss : ChainStepStatus)
      → IsSound spec ss
      → IsSound spec (restore_step w client chain run_id ss).0
  restore_step-IsSound spec client chain run_id ss h =
      elim (restore_step-Restored client chain run_id ss) [
        | inl e ↦ rw e h
        | inr (content, value, waits, _, _, r) ↦
            Restored-IsSound spec run_id (as_string (value (bytes "runId"))) ss _ r waits h
      ]

  restore_steps-IsSound :
      (spec : ChainSpec) (client : NatsClient) (chain run_id : Str) (s : List ChainStepStatus)
      → All (IsSound spec) s
      → All (IsSound spec) (restore_steps w client chain run_id s).0
  unfolding restore_steps
  restore_steps-IsSound spec client chain run_id [] all = tt
  restore_steps-IsSound spec client chain run_id (ss ∷ s) all = (
    restore_step-IsSound spec client chain run_id ss all.0,
    restore_steps-IsSound spec client chain run_id s all.1,
  )

  pub restore_step_outputs-IsSound :
      (chain : Chain C)
      → All (IsSound chain.spec) chain.status.step_statuses
      → let restored = (restore_step_outputs w chain).0 in
        All (IsSound restored.spec) restored.status.step_statuses
  unfolding restore_step_outputs
  restore_step_outputs-IsSound chain all = elim (Option-cases w.nats) [
    | inl e ↦ rw (e, restore_step_outputs) all
    | inr (client, e) ↦
        rw (e, restore_step_outputs)
          (restore_steps-IsSound chain.spec client chain.name chain.status.run_id
            chain.status.step_statuses all)
  ]
