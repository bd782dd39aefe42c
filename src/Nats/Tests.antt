-- ===== src/Nats/Tests.antt =====
-- The error of a result of pi-knight.
use roundtable.Prelude.{◌≡◌, ◌≢◌, ◌↔◌, false, [], some, bytes}
use roundtable.Nats.Payload.{TaskResult, get_error, get_error-nil_iff}

abbrev reported : TaskResult
reported = record {
  task_id = [];
  task_id2 = bytes "t1";
  output = [];
  result = bytes "clean";
  error = [];
  success = some false;
}

get_error-nil_iff_example :
    (get_error reported ≡ []) ↔ ((reported.error ≡ []) × (reported.success ≢ some false))
get_error-nil_iff_example = get_error-nil_iff reported
