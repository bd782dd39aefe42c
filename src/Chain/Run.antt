-- ===== src/Chain/Run.antt =====
-- How a pass of the controller ends, and the writes of the status that it ends with.
use roundtable.Prelude.{ℕ, ◌*◌, Bool, true, false, List, [], ◌∷◌, ◌++◌, Option, none, some}
use roundtable.Api.Meta.{ApiError, conflict, Error, api}
use roundtable.Api.Chain.{Chain}
use roundtable.Chain.World.{second, World, Effect, updated_status}

-- `ctrl.Result`; 0 for no delay.
pub record ReconcileResult : Type 0 where
  pub requeue : Bool
  pub requeue_after : ℕ

pub data Outcome : Type 0 where
  returned : ReconcileResult → Option Error → Outcome
  panicked : Outcome

-- The chain is the object in memory at the end; what was persisted is in the effects.
pub record Run (C : Type 0) : Type 0 where
  pub outcome : Outcome
  pub chain : Chain C
  pub effects : List (Effect C)

abbrev pub requeue_fast : ℕ
requeue_fast = 1 * second

abbrev pub requeue_default : ℕ
requeue_default = 5 * second

abbrev pub no_requeue : ReconcileResult
no_requeue = record { requeue = false; requeue_after = 0 }

abbrev pub requeue_now : ReconcileResult
requeue_now = record { requeue = true; requeue_after = 0 }

-- A conflicting write is tried again by a requeue, and is no error.
abbrev pub status_outcome : (requeue_after : ℕ) → Option ApiError → Outcome
status_outcome requeue_after none =
    returned (record { requeue = false; requeue_after = requeue_after }) none
status_outcome requeue_after (some conflict) = returned requeue_now none
status_outcome requeue_after (some e) = returned no_requeue (some (api e))

abbrev pub plain_outcome : Option ApiError → Outcome
plain_outcome none = returned no_requeue none
plain_outcome (some e) = returned no_requeue (some (api e))

module _ {C : Type 0} where
  abbrev pub ends : Outcome → Chain C → Run C
  ends outcome chain = record { outcome = outcome; chain = chain; effects = [] }

  -- Effects that a run has behind it.
  abbrev pub after : List (Effect C) → Run C → Run C
  after effects run = record run { effects = effects ++ run.effects }

  unfoldable pub update_status : World C → Chain C → (requeue_after : ℕ) → Run C
  update_status w chain requeue_after = record {
    outcome = status_outcome requeue_after (w.update_status chain);
    chain = chain;
    effects = updated_status chain ∷ [];
  }
