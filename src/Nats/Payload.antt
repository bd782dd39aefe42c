-- ===== src/Nats/Payload.antt =====
-- pkg/nats/payload.go
use roundtable.Prelude.{
  ◌≡◌, ◌↔◌, ◌≢◌, Bool, true, false, [], ◌∷◌, Option, none, some, Str, bytes, arith,
}

pub record TaskPayload : Type 0 where
  pub task_id : Str
  pub chain_name : Str
  pub step_name : Str
  pub run_id : Str
  pub task : Str

-- Two formats in one: the controller's fields, and those of pi-knight.
pub record TaskResult : Type 0 where
  pub task_id : Str
  pub task_id2 : Str
  pub output : Str
  pub result : Str
  pub error : Str
  pub success : Option Bool

-- `first`, if it is not empty, and else `second`.
unfoldable pub first_non_empty : Str → Str → Str
first_non_empty [] second = second
first_non_empty (c ∷ s) second = c ∷ s

unfoldable pub get_task_id : TaskResult → Str
unfolding first_non_empty
get_task_id r = first_non_empty r.task_id r.task_id2

unfoldable pub get_output : TaskResult → Str
unfolding first_non_empty
get_output r = first_non_empty r.output r.result

failure_text : Option Bool → Str
failure_text none = []
failure_text (some true) = []
failure_text (some false) = bytes "task reported failure"

unfoldable pub get_error : TaskResult → Str
unfolding first_non_empty failure_text
get_error r = first_non_empty r.error (failure_text r.success)

-- A result carries no error exactly when its error text is empty and it does not report
-- `success: false`.
pub get_error-nil_iff :
    (r : TaskResult) → (get_error r ≡ []) ↔ ((r.error ≡ []) × (r.success ≢ some false))
unfolding get_error
get_error-nil_iff r = (λ h. (ground arith, λ e. ground arith), λ h. ground arith)
