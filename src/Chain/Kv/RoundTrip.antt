-- ===== src/Chain/Kv/RoundTrip.antt =====
-- storeStepOutputToKV and restoreStepOutputsFromKV, within one run.
use roundtable.Prelude.{
  ℕ, ◌≡◌, refl, ap, subst, sym, ◌∙◌, inl, inr, false, [], ◌∷◌, Option, some, Str, bytes, is_empty,
  str_eq_refl, Bool-cases, Option-cases, arith,
}
use roundtable.Api.Chain.{ChainStepStatus, pending, succeeded, Chain}
use roundtable.Chain.World.{World, NatsConfig, NatsClient, kv_put, StoredOutput, JsonValue, string}
use roundtable.Chain.Output.{is_empty_step_output, status_output}
use roundtable.Chain.Poll.{succeed_step}
use roundtable.Chain.Kv.{
  outputs_bucket, output_key, as_string, store_step_output, restore_from, restore_step,
}

-- The object has the fields of the record that was stored.
pub record Encodes (stored : StoredOutput) (value : Str → JsonValue) : Type 0 where
  pub of_output : value (bytes "output") ≡ string stored.output
  pub of_error : value (bytes "error") ≡ string stored.error
  pub of_run_id : value (bytes "runId") ≡ string stored.run_id

-- What is stored stands under the step's key, has the output and the run's ID, and no error; an
-- empty output is not stored.
record IsStored (chain run_id step output bucket key : Str) (stored : StoredOutput) : Type 0 where
  some_output : is_empty_step_output output ≡ false
  in_bucket : bucket ≡ outputs_bucket
  under_key : key ≡ output_key chain step
  same_output : stored.output ≡ output
  no_error : stored.error ≡ []
  own_run : stored.run_id ≡ run_id

module _ {C : Type 0} (w : World C) where
  store_step_output-IsStored :
      (chain run_id step output knight : Str) (started completed : Option ℕ) (bucket key : Str)
      (stored : StoredOutput)
      → store_step_output w chain run_id step output [] knight started completed
        ≡ kv_put bucket key stored ∷ []
      → IsStored chain run_id step output bucket key stored
  unfolding store_step_output
  store_step_output-IsStored chain run_id step output knight started completed bucket key stored h =
      elim (Bool-cases (is_empty_step_output output)) [
        | inl e ↦ ground (arith, e, h)
        | inr e ↦ elim (Option-cases w.nats) [
          | inl e' ↦ ground (arith, e, e', h)
          | inr (client, e') ↦ record {
            some_output = e;
            in_bucket = ground (arith, e, e', h);
            under_key = ground (arith, e, e', h);
            same_output = ground (arith, e, e', h);
            no_error = ground (arith, e, e', h);
            own_run = ground (arith, e, e', h);
          }
        ]
      ]

  restored :
      (chain run_id : Str) (ss : ChainStepStatus) (value : Str → JsonValue) (stored : StoredOutput)
      (output bucket key : Str)
      → IsStored chain run_id ss.name output bucket key stored
      → Encodes stored value
      → is_empty run_id ≡ false
      → (restore_from w chain run_id ss value).0 ≡ record ss {
        phase = succeeded;
        output = status_output chain ss.name output;
        completed_at = some w.now;
      }
  unfolding restore_from
  restored chain run_id ss value stored output bucket key s enc some_run =
      let o : as_string (value (bytes "output")) ≡ output =
        ap as_string enc.of_output ∙ s.same_output in
      let e : as_string (value (bytes "error")) ≡ [] = ap as_string enc.of_error ∙ s.no_error in
      let r : as_string (value (bytes "runId")) ≡ run_id = ap as_string enc.of_run_id ∙ s.own_run in
      rw (o, e, r, s.some_output, some_run, str_eq_refl run_id) refl

  -- What was stored when a step succeeded, and that NATS and encoding/json give back, the same run
  -- restores to a Pending step of that name: it is Succeeded, with the very output that the status
  -- had after the success.
  pub restore_step-store_step_output :
      (nc : NatsConfig) (chain : Chain C) (done ss : ChainStepStatus) (output knight : Str)
      (started completed : Option ℕ) (bucket key : Str) (stored : StoredOutput)
      (client : NatsClient) (content : Str) (value : Str → JsonValue)
      → store_step_output w chain.name chain.status.run_id done.name output [] knight started
          completed
        ≡ kv_put bucket key stored ∷ []
      → client.kv_get bucket key ≡ some content
      → w.unmarshal_object content ≡ some value
      → Encodes stored value
      → is_empty chain.status.run_id ≡ false
      → ss.phase ≡ pending
      → ss.name ≡ done.name
      → (restore_step w client chain.name chain.status.run_id ss).0 ≡ record ss {
        phase = succeeded;
        output = (succeed_step w nc chain done output).output;
        completed_at = some w.now;
      }
  unfolding restore_step succeed_step
  restore_step-store_step_output nc chain done ss output knight started completed bucket key stored
        client content value h got parsed enc some_run waits same =
      let run_id = chain.status.run_id in
      let s =
        store_step_output-IsStored chain.name run_id done.name output knight started completed
          bucket key stored h in
      let own = subst (λ n. IsStored chain.name run_id n output bucket key stored) (sym same) s in
      let there : client.kv_get outputs_bucket (output_key chain.name ss.name) ≡ some content =
        rw (sym own.in_bucket, sym own.under_key) got in
      ground (
        arith,
        waits,
        there,
        parsed,
        restored chain.name run_id ss value stored output bucket key own enc some_run,
        ap (λ n. status_output chain.name n output) same,
      )
