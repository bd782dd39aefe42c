-- ===== src/Chain/Tests/Dispatching.antt =====
-- The publishing loop over a chain of two steps: a scan, and a report on it.
use roundtable.Prelude.{
  ◌≡◌, refl, inl, inr, true, false, List, [], ◌∷◌, some, Str, bytes, str_eq, str_eq_iff, length,
  ◌<◌, Bool-cases, All, arith,
}
use mathlib.Core.List.{Memᴰ}
use roundtable.Util.Strings.{contains_string}
use roundtable.Util.Dag.Spec.{depends, IsDag}
use roundtable.Api.Chain.{ChainStep, ChainStepStatus, ChainStepPhase, ChainPhase}
use roundtable.Chain.Lookup.{status_of}
use roundtable.Chain.Template.{has_action, render_with, render_template}
use roundtable.Chain.Completion.{still_running, any_failed, hard_failed}
use roundtable.Chain.Validate.{dag_nodes}
use roundtable.Chain.Dispatch.{dispatch_steps}
use roundtable.Chain.Dispatch.Moves.{IsReady}
use roundtable.Chain.Dispatch.Order.{
  IsJustified, dispatch_steps-IsJustified, dispatch_steps-settled,
}
use roundtable.Chain.Dispatch.Starts.{IsWorking}
use roundtable.Chain.Invariant.{IsSound}
use roundtable.Chain.Progress.{IsWaiting, pending_IsReady, dispatch_steps-progress}
use roundtable.Chain.World.{text}
use roundtable.Chain.Tests.Outside.{
  audit_spec, fresh, waiting, scanned, audit, camelot, client, calm,
}

pub fresh-IsSound : (name : Str) → IsSound audit_spec (fresh name)
fresh-IsSound name = ground arith

-- A step with no dependencies, and one that waits for it.
two-IsDag :
    (a b : Str)
    → str_eq b a ≡ false
    → length a < length b
    → IsDag (record { name = a; depends_on = [] } ∷ record { name = b; depends_on = a ∷ [] } ∷ [])
unfolding depends contains_string
two-IsDag a b apart shorter = record {
  distinct = (ground (arith, apart), (refl, tt));
  known = λ n d h. ground (arith, h, str_eq_iff b n, str_eq_iff a d);
  rank = length;
  ranked = λ n d h. ground (arith, h, shorter, str_eq_iff b n, str_eq_iff a d);
}

audit-IsDag : IsDag (dag_nodes audit_spec.steps)
unfolding dag_nodes str_eq
audit-IsDag = two-IsDag (bytes "scan") (bytes "report") refl (omega arith)

waiting-IsWaiting : IsWaiting audit_spec waiting
unfolding still_running any_failed hard_failed
waiting-IsWaiting = record {
  dag = audit-IsDag;
  covered = refl;
  sound = (fresh-IsSound (bytes "scan"), (fresh-IsSound (bytes "report"), tt));
  none_running = refl;
  none_failed = refl;
  phases = ((λ e. cc, λ e. cc), ((λ e. cc, λ e. cc), tt));
}

renders_itself :
    (s : List ChainStepStatus) (input source : Str)
    → render_template calm s input source ≡ text source
unfolding render_template render_with
renders_itself s input source = elim (Bool-cases (has_action source)) [
  | inl e ↦ rw (e, render_template) refl
  | inr e ↦ rw (e, render_template) refl
]

calm-IsWorking : IsWorking calm camelot (audit ChainPhase.running waiting) waiting
calm-IsWorking step listed ready = record {
  task = step.task;
  renders = renders_itself waiting [] step.task;
  knight = record { domain = bytes "security" };
  knows = refl;
  client = client;
  connected = refl;
  accepts = refl;
}

scan-has : status_of waiting (bytes "scan") ≡ some (fresh (bytes "scan"))
unfolding status_of str_eq
scan-has = refl

dispatch_steps-progress_example :
    still_running
      (dispatch_steps calm camelot
        (audit ChainPhase.running waiting)
        audit_spec.steps
        waiting).statuses
    ≡ true
dispatch_steps-progress_example =
    dispatch_steps-progress calm camelot (audit ChainPhase.running waiting) waiting (bytes "scan")
      (fresh (bytes "scan")) waiting-IsWaiting calm-IsWorking scan-has refl

pending_IsReady_example :
    (step : ChainStep) × Memᴰ step audit_spec.steps
    × IsReady calm camelot (audit ChainPhase.running waiting) step waiting
pending_IsReady_example =
    pending_IsReady calm camelot (audit ChainPhase.running waiting) waiting (bytes "scan")
      (fresh (bytes "scan")) waiting-IsWaiting scan-has refl

dispatch_steps-IsJustified_example :
    let d =
      dispatch_steps calm camelot (audit ChainPhase.running scanned) audit_spec.steps scanned in
    All
      (IsJustified calm camelot (audit ChainPhase.running scanned) audit_spec.steps d.statuses)
      d.effects
dispatch_steps-IsJustified_example =
    dispatch_steps-IsJustified calm camelot (audit ChainPhase.running scanned) audit_spec.steps
      scanned

abbrev scan_done : ChainStepStatus
scan_done = record (fresh (bytes "scan")) {
  phase = ChainStepPhase.succeeded;
  output = bytes "clean";
  completed_at = some 7;
}

scan_done-has : status_of scanned (bytes "scan") ≡ some scan_done
unfolding status_of str_eq
scan_done-has = refl

dispatch_steps-settled_example :
    status_of
      (dispatch_steps calm camelot
        (audit ChainPhase.running scanned)
        audit_spec.steps
        scanned).statuses
      (bytes "scan")
    ≡ some scan_done
dispatch_steps-settled_example =
    dispatch_steps-settled calm camelot (audit ChainPhase.running scanned) audit_spec.steps scanned
      (bytes "scan") scan_done scan_done-has refl
