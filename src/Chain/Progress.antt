-- ===== src/Chain/Progress.antt =====
-- internal/controller/chain_controller.go: the steps of a run that can start, in a run that waits.
use roundtable.Prelude.{
  ℕ, zero, suc, ◌<◌, ◌≡◌, ◌≢◌, refl, ap, subst, inl, inr, true, false, not, ◌&&◌, List, [], ◌∷◌,
  Option, some, Str, str_eq_refl, Bool-cases, Option-cases, All, arith,
}
use mathlib.Core.List.{Memᴰ}
use roundtable.Util.Strings.{contains_string}
use roundtable.Util.Dag.{names}
use roundtable.Util.Dag.Spec.{depends, IsDag}
use roundtable.Api.Chain.{
  ChainSpec, ChainStep, ChainStepStatus, ChainStepPhase, Chain, unset, skipped,
}
use roundtable.Chain.World.{World, NatsConfig}
use roundtable.Chain.Lookup.{status_of, spec_of}
use roundtable.Chain.Lookup.Laws.{
  status_names, step_names, is_some-status_of, is_some-spec_of, name-status_of, name-spec_of,
  All-status_of,
}
use roundtable.Chain.Kv.{is_pending}
use roundtable.Chain.Poll.{is_running}
use roundtable.Chain.Validate.{dag_nodes}
use roundtable.Chain.Completion.{is_failed, continues, hard_failed, any_failed, still_running}
use roundtable.Chain.Dispatch.{
  dep_satisfied, dep_ready, deps_ready, backing_off, is_ready, dispatch_steps,
}
use roundtable.Chain.Invariant.{IsSound}
use roundtable.Chain.Dispatch.Moves.{IsReady}
use roundtable.Chain.Dispatch.Panic.{covers-step_names}
use roundtable.Chain.Dispatch.Starts.{IsWorking, dispatch_steps-starts}

-- A dependency that is not ready, if not all are.
unready_dep :
    (steps : List ChainStep) (s : List ChainStepStatus) (deps : List Str)
    → deps_ready steps s deps ≡ false
    → (d : Str) × (contains_string deps d ≡ true) × (dep_ready steps s d ≡ false)
unfolding deps_ready contains_string
unready_dep steps s [] h = cc
unready_dep steps s (dep ∷ deps) h = elim (Bool-cases (dep_ready steps s dep)) [
  | inr e ↦ (dep, ground (arith, str_eq_refl dep), e)
  | inl e ↦
      let (d, listed, waits) = unready_dep steps s deps (ground (arith, e)) in
      (d, ground (arith, listed), waits)
]

depends-dag_nodes :
    (steps : List ChainStep) (n d : Str) (step : ChainStep)
    → spec_of steps n ≡ some step
    → contains_string step.depends_on d ≡ true
    → depends (dag_nodes steps) n d ≡ true
unfolding spec_of dag_nodes depends
depends-dag_nodes [] n d step h m = cc
depends-dag_nodes (s ∷ steps) n d step h m = elim (Option-cases (spec_of steps n)) [
  | inl e ↦ ground (arith, e, m)
  | inr (later, e) ↦ ground (arith, e, depends-dag_nodes steps n d step (ground (arith, e)) m)
]

names-dag_nodes : (steps : List ChainStep) → names (dag_nodes steps) ≡ step_names steps
unfolding dag_nodes
names-dag_nodes [] = refl
names-dag_nodes (s ∷ steps) = ap (λ l. s.name ∷ l) (names-dag_nodes steps)

none-is_running :
    (s : List ChainStepStatus) → still_running s ≡ false → All (λ x. is_running x.phase ≡ false) s
unfolding still_running
none-is_running [] h = tt
none-is_running (x ∷ s) h = (ground (arith, h), none-is_running s (ground (arith, h)))

none-hard_failed :
    (steps : List ChainStep) (s : List ChainStepStatus)
    → any_failed steps s ≡ false
    → All (λ x. hard_failed steps x ≡ false) s
unfolding any_failed
none-hard_failed steps [] h = tt
none-hard_failed steps (x ∷ s) h = (ground (arith, h), none-hard_failed steps s (ground (arith, h)))

mem-spec_of :
    (steps : List ChainStep) (n : Str) (step : ChainStep)
    → spec_of steps n ≡ some step
    → Memᴰ step steps
unfolding spec_of
mem-spec_of [] n step h = cc
mem-spec_of (s ∷ steps) n step h = elim (Option-cases (spec_of steps n)) [
  | inr (later, e) ↦ Memᴰ.tail (mem-spec_of steps n step (ground (arith, e)))
  | inl e ↦ Memᴰ.head (ground (arith, e))
]

-- A dependency that is not satisfied and is in none of the other phases is Pending.
pending_of_waiting :
    (p : ChainStepPhase) (step : Option ChainStep)
    → dep_satisfied p step ≡ false
    → is_running p ≡ false
    → p ≢ unset
    → p ≢ skipped
    → (is_failed p && not (continues step)) ≡ false
    → is_pending p ≡ true
unfolding dep_satisfied continues
pending_of_waiting p step h1 h2 h3 h4 h5 = ground (arith, h3, h4)

-- A Pending step whose status is sound is never held back by the backoff between retries, however
-- often it was retried.
pub backing_off-pending :
    (spec : ChainSpec) (now : ℕ) (step : Option ChainStep) (ss : ChainStepStatus)
    → IsSound spec ss
    → is_pending ss.phase ≡ true
    → backing_off now spec step ss ≡ false
unfolding backing_off
backing_off-pending spec now step ss sound waits = ground arith

module _ (spec : ChainSpec) (s : List ChainStepStatus) where
  -- The steps form a valid graph and each has a sound status; nothing runs, nothing has failed for
  -- good, and no step was skipped or left without a phase.
  pub record IsWaiting : Type 0 where
    pub dag : IsDag (dag_nodes spec.steps)
    pub covered : status_names s ≡ step_names spec.steps
    pub sound : All (IsSound spec) s
    pub none_running : still_running s ≡ false
    pub none_failed : any_failed spec.steps s ≡ false
    pub phases : All (λ ss. (ss.phase ≢ unset) × (ss.phase ≢ skipped)) s

module _ {C : Type 0} (w : World C) (nc : NatsConfig) (chain : Chain C) (s : List ChainStepStatus)
    (waiting : IsWaiting chain.spec s) where
  -- A dependency that is not ready has a Pending status.
  pending_dep :
      (d : Str)
      → dep_ready chain.spec.steps s d ≡ false
      → contains_string (step_names chain.spec.steps) d ≡ true
      → (sd : ChainStepStatus) × (status_of s d ≡ some sd) × (is_pending sd.phase ≡ true)
  unfolding dep_ready hard_failed
  pending_dep d waits known = elim (Option-cases (status_of s d)) [
    | inl e ↦ ground (arith, e, is_some-status_of s d, waiting.covered, known)
    | inr (sd, e) ↦
        let named : sd.name ≡ d = name-status_of s d sd e in
        let none_run =
          All-status_of (λ x. is_running x.phase ≡ false) s d sd
            (none-is_running s waiting.none_running) e in
        let none_fail =
          All-status_of (λ x. hard_failed chain.spec.steps x ≡ false) s d sd
            (none-hard_failed chain.spec.steps s waiting.none_failed) e in
        let ok =
          All-status_of (λ x. (x.phase ≢ unset) × (x.phase ≢ skipped)) s d sd waiting.phases e in
        (
          sd,
          e,
          pending_of_waiting sd.phase (spec_of chain.spec.steps d) (ground (arith, e, waits))
              none_run ok.0 ok.1
              (subst
                (λ k. (is_failed sd.phase && not (continues (spec_of chain.spec.steps k))) ≡ false)
                named none_fail),
        )
  ]

  -- A Pending step is ready, or waits for a Pending step of smaller rank.
  pub pending-IsReady :
      (k : ℕ) (n : Str) (ss : ChainStepStatus)
      → waiting.dag.rank n < k
      → status_of s n ≡ some ss
      → is_pending ss.phase ≡ true
      → (step : ChainStep) × Memᴰ step chain.spec.steps × IsReady w nc chain step s
  unfolding is_ready
  pending-IsReady zero n ss below has waits = ground arith
  pending-IsReady (suc k) n ss below has waits = elim (Option-cases (spec_of chain.spec.steps n)) [
    | inl e ↦
        ground (
          arith,
          e,
          has,
          is_some-spec_of chain.spec.steps n,
          is_some-status_of s n,
          waiting.covered,
        )
    | inr (step, e) ↦
        let named : step.name ≡ n = name-spec_of chain.spec.steps n step e in
        elim (Bool-cases (deps_ready chain.spec.steps s step.depends_on)) [
          | inl deps ↦
              let sound = All-status_of (IsSound chain.spec) s n ss waiting.sound has in
              (
                step,
                mem-spec_of chain.spec.steps n step e,
                record {
                  own = ss;
                  has = rw named has;
                  ready = ground (
                    arith,
                    waits,
                    deps,
                    backing_off-pending chain.spec w.now (spec_of chain.spec.steps step.name) ss
                        sound waits,
                  );
                },
              )
          | inr blocked ↦
              let (d, listed, unready) = unready_dep chain.spec.steps s step.depends_on blocked in
              let edge = depends-dag_nodes chain.spec.steps n d step e listed in
              let (sd, has', waits') = pending_dep d unready (
                subst (λ l. contains_string l d ≡ true) (names-dag_nodes chain.spec.steps)
                  (waiting.dag.known n d edge)) in
              let lower = waiting.dag.ranked n d edge in
              pending-IsReady k d sd (ground (arith, below, lower)) has' waits'
        ]
  ]

-- A run cannot be blocked by its dependencies: when the steps form a valid graph and their statuses
-- are sound, nothing runs, nothing has failed for good and none is Skipped or without a phase, a
-- Pending step means that some step of the spec is ready.
pub pending_IsReady :
    {C : Type 0} (w : World C) (nc : NatsConfig) (chain : Chain C) (s : List ChainStepStatus)
    (n : Str) (ss : ChainStepStatus)
    → IsWaiting chain.spec s
    → status_of s n ≡ some ss
    → is_pending ss.phase ≡ true
    → (step : ChainStep) × Memᴰ step chain.spec.steps × IsReady w nc chain step s
pending_IsReady w nc chain s n ss waiting has waits =
    pending-IsReady w nc chain s waiting (suc (waiting.dag.rank n)) n ss (omega arith) has waits

-- A run makes progress: when the steps form a valid graph and their statuses are sound, nothing
-- runs, nothing has failed for good and none is Skipped or without a phase, and when the task of each
-- ready step renders, its knight is found and its publish is accepted, then a Pending step means that
-- some step is Running after the publishing loop.
pub dispatch_steps-progress :
    {C : Type 0} (w : World C) (nc : NatsConfig) (chain : Chain C) (s : List ChainStepStatus)
    (n : Str) (ss : ChainStepStatus)
    → IsWaiting chain.spec s
    → IsWorking w nc chain s
    → status_of s n ≡ some ss
    → is_pending ss.phase ≡ true
    → still_running (dispatch_steps w nc chain chain.spec.steps s).statuses ≡ true
dispatch_steps-progress w nc chain s n ss waiting works has waits =
    let (step, listed, ready) = pending_IsReady w nc chain s n ss waiting has waits in
    dispatch_steps-starts w nc chain s works chain.spec.steps step (λ x listed. listed) listed ready
      (rw waiting.covered (covers-step_names chain.spec.steps))
