-- ===== src/Chain/Tests/Storing.antt =====
-- The output of the scan, stored and restored within one run.
use roundtable.Prelude.{◌≡◌, refl, [], ◌∷◌, some, Str, bytes, str_eq, if◌then◌else◌}
use roundtable.Api.Chain.{ChainStepPhase, ChainPhase}
use roundtable.Chain.World.{World, kv_put, StoredOutput, JsonValue}
use roundtable.Chain.Output.{trim_space, is_empty_step_output}
use roundtable.Chain.Poll.{succeed_step}
use roundtable.Chain.Kv.{outputs_bucket, output_key, elapsed, store_step_output, restore_step}
use roundtable.Chain.Kv.RoundTrip.{Encodes, restore_step-store_step_output}
use roundtable.Chain.Tests.Outside.{store, fresh, scanning, audit, camelot, client, calm}

abbrev stored : StoredOutput
stored = record {
  output = bytes "clean";
  error = [];
  knight = bytes "galahad";
  run_id = bytes "r1";
  elapsed = some 2;
  stored_at = 1000;
}

abbrev fields : Str → JsonValue
fields key =
    if str_eq key (bytes "output")
    then JsonValue.string (bytes "clean")
    else if str_eq key (bytes "error")
    then JsonValue.string []
    else JsonValue.string (bytes "r1")

abbrev keeping : World store.Conditions
keeping = record calm { unmarshal_object = λ content. some fields }

fields-Encodes : Encodes stored fields
unfolding str_eq
fields-Encodes = record { of_output = refl; of_error = refl; of_run_id = refl }

clean_stored :
    store_step_output keeping
      (bytes "audit")
      (bytes "r1")
      (bytes "scan")
      (bytes "clean")
      []
      (bytes "galahad")
      (some 5)
      (some 7)
    ≡ kv_put outputs_bucket (output_key (bytes "audit") (bytes "scan")) stored ∷ []
unfolding store_step_output elapsed output_key is_empty_step_output trim_space str_eq
clean_stored = refl

restore_step-store_step_output_example :
    (restore_step keeping client (bytes "audit") (bytes "r1") (fresh (bytes "scan"))).0
    ≡ record (fresh (bytes "scan")) {
      phase = ChainStepPhase.succeeded;
      output =
          (succeed_step keeping camelot
            (audit ChainPhase.running scanning)
            (fresh (bytes "scan"))
            (bytes "clean")).output;
      completed_at = some 1000;
    }
restore_step-store_step_output_example =
    restore_step-store_step_output keeping camelot (audit ChainPhase.running scanning)
      (fresh (bytes "scan")) (fresh (bytes "scan")) (bytes "clean") (bytes "galahad") (some 5)
      (some 7) outputs_bucket (output_key (bytes "audit") (bytes "scan")) stored client
      (bytes "stored") fields clean_stored refl refl fields-Encodes refl refl refl
