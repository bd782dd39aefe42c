-- ===== src/Chain/Kv.antt =====
-- Step outputs in the NATS bucket "chain-outputs": stored when a step succeeds, and restored when a
-- run begins.
pub mod Laws
pub mod RoundTrip
use roundtable.Prelude.{
  ℕ, suc, ◌-◌, Bool, true, false, ◌&&◌, ◌||◌, not, List, [], ◌∷◌, ◌++◌, Option, none, some, Str,
  bytes, is_empty, str_eq, if◌then◌else◌,
}
use roundtable.Api.Chain.{ChainStepStatus, ChainStepPhase, pending, succeeded, failed, Chain}
use roundtable.Chain.World.{
  World, NatsClient, Effect, kv_put, kv_deleted, StoredOutput, JsonValue, string, not_string,
}
use roundtable.Chain.Output.{is_empty_step_output, status_output}

abbrev pub outputs_bucket : Str
outputs_bucket = bytes "chain-outputs"

unfoldable pub output_key : (chain step : Str) → Str
output_key chain step = chain ++ bytes "." ++ step

unfoldable pub elapsed : (started completed : Option ℕ) → Option ℕ
elapsed none completed = none
elapsed (some s) none = none
elapsed (some s) (some c) = some (c - s)

-- A value of the wrong type reads as the empty string.
abbrev pub as_string : JsonValue → Str
as_string (string s) = s
as_string not_string = []

abbrev pub is_pending : ChainStepPhase → Bool
is_pending pending = true
is_pending _ = false

module _ {C : Type 0} (w : World C) where
  -- Best-effort: a failure to store changes nothing here.
  unfoldable pub store_step_output :
      (chain run_id step output error knight : Str) (started completed : Option ℕ) → List (Effect C)
  unfolding elapsed output_key
  store_step_output chain run_id step output error knight started completed =
      if is_empty error && is_empty_step_output output then [] else elim w.nats [
        | none ↦ []
        | some client ↦
            kv_put outputs_bucket (output_key chain step) (record {
              output = output;
              error = error;
              knight = knight;
              run_id = run_id;
              elapsed = elapsed started completed;
              stored_at = w.now;
            })
            ∷ []
      ]

  -- What an entry that was read says of a pending step.
  unfoldable pub restore_from :
      (chain run_id : Str) → ChainStepStatus → (Str → JsonValue) → ChainStepStatus × List (Effect C)
  unfolding output_key
  restore_from chain run_id ss value =
      let output = as_string (value (bytes "output")) in
      let error = as_string (value (bytes "error")) in
      let stored_run_id = as_string (value (bytes "runId")) in
      if is_empty error && is_empty_step_output output
      then (ss, kv_deleted outputs_bucket (output_key chain ss.name) ∷ [])
      else if is_empty stored_run_id || not (str_eq stored_run_id run_id)
      then (ss, [])
      else if not (is_empty error)
      then (record ss { phase = failed; error = error; completed_at = some w.now }, [])
      else (
        record ss {
          phase = succeeded;
          output = status_output chain ss.name output;
          completed_at = some w.now;
        },
        [],
      )

  unfoldable pub restore_step :
      NatsClient → (chain run_id : Str) → ChainStepStatus → ChainStepStatus × List (Effect C)
  restore_step client chain run_id ss =
      if not (is_pending ss.phase)
      then (ss, [])
      else elim (client.kv_get outputs_bucket (output_key chain ss.name)) [
        | none ↦ (ss, [])
        | some content ↦ elim (w.unmarshal_object content) [
          | none ↦ (ss, [])
          | some value ↦ restore_from chain run_id ss value
        ]
      ]

  unfoldable pub restore_steps :
      NatsClient
      → (chain run_id : Str) → List ChainStepStatus
      → List ChainStepStatus × List (Effect C)
  restore_steps client chain run_id [] = ([], [])
  restore_steps client chain run_id (ss ∷ statuses) =
      let (ss', done) = restore_step client chain run_id ss in
      let (rest, more) = restore_steps client chain run_id statuses in (ss' ∷ rest, done ++ more)

  -- `restoreStepOutputsFromKV`. The number that it returns is only logged.
  unfoldable pub restore_step_outputs : Chain C → Chain C × List (Effect C)
  restore_step_outputs chain = elim w.nats [
    | none ↦ (chain, [])
    | some client ↦
        let (statuses, effects) =
          restore_steps client chain.name chain.status.run_id chain.status.step_statuses in
        (record chain { status = record (chain.status) { step_statuses = statuses } }, effects)
  ]
