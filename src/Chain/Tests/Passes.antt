-- ===== src/Chain/Tests/Passes.antt =====
-- Whole passes over the chain of two steps, and its schedule.
use roundtable.Prelude.{
  ℕ, suc, ◌≡◌, ◌↔◌, refl, ◌⊎◌, true, false, not, ◌||◌, List, [], ◌∷◌, none, some, Str, bytes,
  str_eq, is_empty, is_some, if◌then◌else◌, arith,
}
use roundtable.Util.Strings.{contains_string}
use roundtable.Api.Meta.{Condition, condition_true, complete}
use roundtable.Api.Chain.{ChainStepStatus, ChainStepPhase, ChainPhase, Chain}
use roundtable.Chain.World.{JsonValue}
use roundtable.Chain.Lookup.{spec_of}
use roundtable.Chain.Kv.{outputs_bucket, output_key, as_string, is_pending, restore_step}
use roundtable.Chain.Kv.Laws.{Restored, restore_step-Restored}
use roundtable.Chain.Run.{panicked}
use roundtable.Chain.Completion.{
  all_terminal, any_failed, hard_failed, continues, still_running, skip_pending, run_is_over,
  verdict, complete_run,
}
use roundtable.Chain.Completion.Laws.{
  is_concluded, verdict-failed_iff, run_is_over-all_terminal, complete_run_lem,
}
use roundtable.Chain.Dispatch.Panic.{covers}
use roundtable.Chain.Running.{reconcile_running, resolve_nats_config, ensure_started}
use roundtable.Chain.Poll.{timed_out}
use roundtable.Chain.Running.Laws.{AllSound}
use roundtable.Chain.Running.Panic.{IsMissingStatus, reconcile_running-panicked_iff}
use roundtable.Chain.Completion.Laws.{is_concluded}
use roundtable.Chain.Schedule.{Registry, entry, registry_key, missed_schedule, reconcile_schedule}
use roundtable.Chain.Schedule.Laws.{IsMissed, entry-reconcile_schedule, missed_schedule_iff}
use roundtable.Chain.Reconcile.{reconcile_valid}
use roundtable.Chain.Reconcile.Laws.{IsAtRest, reconcile_valid-AllSound, reconcile_valid-rest}
use roundtable.Chain.Tests.Outside.{
  store, audit_spec, fresh, waiting, scanned, audit, camelot, client, calm,
}
use roundtable.Chain.Tests.Dispatching.{fresh-IsSound}

abbrev going : Chain store.Conditions
going = audit ChainPhase.running waiting

going-AllSound : AllSound going
going-AllSound = (fresh-IsSound (bytes "scan"), (fresh-IsSound (bytes "report"), tt))

reconcile_valid-AllSound_example : AllSound (reconcile_valid store calm going).chain
reconcile_valid-AllSound_example = reconcile_valid-AllSound store calm going going-AllSound

-- A step was added to the spec while the scan runs.
abbrev grown : Chain store.Conditions
grown = audit ChainPhase.running (fresh (bytes "scan") ∷ [])

reconcile_running-panicked_iff_example :
    ((reconcile_running store calm grown).outcome ≡ panicked) ↔ IsMissingStatus store calm grown
reconcile_running-panicked_iff_example = reconcile_running-panicked_iff store calm grown

-- So the pass dereferences a nil pointer.
grown-panicked : (reconcile_running store calm grown).outcome ≡ panicked
unfolding covers contains_string str_eq resolve_nats_config ensure_started timed_out
grown-panicked =
    reconcile_running-panicked_iff_example.1 (record {
      config = camelot;
      resolves = refl;
      filled = λ e. cc;
      timely = refl;
      missing = refl;
    })

-- The scan failed, and the report never ran.
abbrev broken : List ChainStepStatus
broken =
    record (fresh (bytes "scan")) {
      phase = ChainStepPhase.failed;
      error = bytes "no route";
      completed_at = some 7;
    }
    ∷ fresh (bytes "report")
    ∷ []

broken-over : run_is_over audit_spec.steps broken ≡ true
unfolding run_is_over skip_pending any_failed hard_failed continues spec_of still_running str_eq
broken-over = refl

run_is_over-all_terminal_example : all_terminal (skip_pending audit_spec.steps broken) ≡ true
run_is_over-all_terminal_example =
    run_is_over-all_terminal audit_spec.steps broken ((λ e. cc), ((λ e. cc), tt)) broken-over

verdict-failed_iff_example :
    ((verdict audit_spec.steps broken).phase ≡ ChainPhase.failed)
    ↔ (any_failed audit_spec.steps broken ≡ true)
verdict-failed_iff_example = verdict-failed_iff audit_spec.steps broken

abbrev ending : Chain store.Conditions
ending = audit ChainPhase.running broken

complete_run_lem_example :
    let st = ending.status in
    let st' = (complete_run store calm ending).status in
    let bad = any_failed ending.spec.steps st.step_statuses in
    (is_concluded st'.phase ≡ true)
    × (st'.completed_at ≡ some calm.now)
    × (st'.runs_failed ≡ (if bad then suc st.runs_failed else st.runs_failed))
    × (st'.runs_completed ≡ (if bad then st.runs_completed else suc st.runs_completed))
    × (c : Condition) × (at : ℕ) × (store.find st'.conditions complete ≡ some (c, at))
    × (c.status ≡ condition_true)
complete_run_lem_example = complete_run_lem store calm ending

restore_step-Restored_example :
    let t = (restore_step calm client (bytes "audit") (bytes "r1") (fresh (bytes "scan"))).0 in
    (t ≡ fresh (bytes "scan"))
    ⊎ ((content : Str) × (value : Str → JsonValue) × (is_pending ChainStepPhase.pending ≡ true)
        × (client.kv_get outputs_bucket (output_key (bytes "audit") (bytes "scan")) ≡ some content)
        × (calm.unmarshal_object content ≡ some value)
        × Restored (bytes "r1") (as_string (value (bytes "runId"))) (fresh (bytes "scan")) t)
restore_step-Restored_example =
    restore_step-Restored calm client (bytes "audit") (bytes "r1") (fresh (bytes "scan"))

abbrev resting : Chain store.Conditions
resting = audit ChainPhase.idle waiting

missed_schedule_iff_example :
    (missed_schedule calm resting ≡ true)
    ↔ ((last : ℕ) × (resting.status.last_scheduled_at ≡ some last) × IsMissed calm resting last)
missed_schedule_iff_example = missed_schedule_iff calm resting (λ seconds e. cc)

-- The fire at 103 was missed by 1000.
resting-missed : missed_schedule calm resting ≡ true
resting-missed =
    missed_schedule_iff_example.1 (3, refl, ((λ e. cc), refl, omega arith, λ seconds e. cc))

-- The chain is registered under the schedule that it had before.
abbrev registered : Registry
registered = (bytes "prod/audit", bytes "@daily") ∷ []

entry-reconcile_schedule_example :
    let own = registry_key (bytes "prod") (bytes "audit") in
    let had = entry registered own in
    entry (reconcile_schedule calm registered resting).0 (bytes "prod/audit") ≡ (
      if not (str_eq own (bytes "prod/audit"))
      then entry registered (bytes "prod/audit")
      else if is_empty (bytes "@hourly") || false
      then none
      else if is_some had
      then had
      else if true
      then some (bytes "@hourly")
      else none)
entry-reconcile_schedule_example =
    entry-reconcile_schedule calm registered resting (bytes "prod/audit")

-- The old schedule stays.
registered-stays :
    entry (reconcile_schedule calm registered resting).0 (bytes "prod/audit")
    ≡ some (bytes "@daily")
unfolding entry registry_key str_eq
registered-stays = entry-reconcile_schedule_example

abbrev finished : Chain store.Conditions
finished = audit ChainPhase.succeeded scanned

finished-IsAtRest : IsAtRest store calm finished
unfolding is_concluded
finished-IsAtRest = record { unsuspended = refl; over = refl; seen = refl }

reconcile_valid-rest_example :
    let st = finished.status in
    let t = (reconcile_valid store calm finished).chain in
    (t.status.phase ≡ st.phase)
    × (t.status.step_statuses ≡ st.step_statuses)
    × (t.status.run_id ≡ st.run_id)
    × (t.status.completed_at ≡ st.completed_at)
    × (t.status.runs_completed ≡ st.runs_completed)
    × (t.status.runs_failed ≡ st.runs_failed)
    × IsAtRest store calm t
reconcile_valid-rest_example = reconcile_valid-rest store calm finished finished-IsAtRest
