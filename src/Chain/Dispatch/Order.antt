-- ===== src/Chain/Dispatch/Order.antt =====
-- The publishing loop of chain_controller.go: the order of its publishes, and the statuses it leaves.
use roundtable.Prelude.{
  ◌≡◌, refl, inl, inr, true, false, List, [], ◌∷◌, Option, some, Str, Bool-cases, Option-cases, All,
  All-append, All-imp, arith,
}
use mathlib.Core.List.{Memᴰ}
use roundtable.Api.Chain.{ChainStep, ChainStepStatus, ChainStepPhase, Chain}
use roundtable.Chain.World.{World, NatsConfig, Effect, published}
use roundtable.Chain.Lookup.{status_of, spec_of}
use roundtable.Chain.Kv.{is_pending}
use roundtable.Chain.Dispatch.{
  dep_satisfied, dep_ready, deps_ready, payload_of, dispatch_step, dispatch_steps,
}
use roundtable.Chain.Invariant.{IsSound}
use roundtable.Chain.Dispatch.Moves.{
  IsReady, IsReady-pending, Start, nothing, refused, unrendered, started, Move, idle, starts,
  dispatch_step-Move, Move-IsSound, Move-settled,
}

dep_satisfied-pending :
    (p : ChainStepPhase) (step : Option ChainStep)
    → dep_satisfied p step ≡ true
    → is_pending p ≡ false
unfolding dep_satisfied
dep_satisfied-pending p step h = ground arith

module _ {C : Type 0} (w : World C) (nc : NatsConfig) (chain : Chain C) where
  -- The publishing loop keeps the step statuses sound.
  pub dispatch_steps-IsSound :
      (steps : List ChainStep) (s : List ChainStepStatus)
      → All (IsSound chain.spec) s
      → All (IsSound chain.spec) (dispatch_steps w nc chain steps s).statuses
  unfolding dispatch_steps
  dispatch_steps-IsSound [] s all = all
  dispatch_steps-IsSound (step ∷ steps) s all =
      let d = dispatch_step w nc chain step s in
      let now =
        Move-IsSound w nc chain step s d.statuses d.effects (dispatch_step-Move w nc chain step s)
          all in
      elim (Bool-cases d.panicked) [
        | inl e ↦ rw e now
        | inr e ↦ rw e (dispatch_steps-IsSound steps d.statuses now)
      ]

  -- The publishing loop does not touch a status that is not Pending.
  pub dispatch_steps-settled :
      (steps : List ChainStep) (s : List ChainStepStatus) (n : Str) (ss : ChainStepStatus)
      → status_of s n ≡ some ss
      → is_pending ss.phase ≡ false
      → status_of (dispatch_steps w nc chain steps s).statuses n ≡ some ss
  unfolding dispatch_steps
  dispatch_steps-settled [] s n ss has done = has
  dispatch_steps-settled (step ∷ steps) s n ss has done =
      let d = dispatch_step w nc chain step s in
      let now =
        Move-settled w nc chain step s d.statuses d.effects n ss
          (dispatch_step-Move w nc chain step s) has done in
      elim (Bool-cases d.panicked) [
        | inl e ↦ rw e now
        | inr e ↦ rw e (dispatch_steps-settled steps d.statuses n ss now done)
      ]

-- Statuses that are not Pending in `s` are the same in `t`.
abbrev pub Settles : List ChainStepStatus → List ChainStepStatus → Type 0
Settles s t =
    (n : Str) (ss : ChainStepStatus)
    → status_of s n ≡ some ss
    → is_pending ss.phase ≡ false
    → status_of t n ≡ some ss

dep_ready-Settles :
    (steps : List ChainStep) (s t : List ChainStepStatus) (dep : Str)
    → Settles s t
    → dep_ready steps s dep ≡ true
    → dep_ready steps t dep ≡ true
unfolding dep_ready
dep_ready-Settles steps s t dep h ready = elim (Option-cases (status_of s dep)) [
  | inl e ↦ ground (arith, e)
  | inr (ss, e) ↦
      let ok : dep_satisfied ss.phase (spec_of steps dep) ≡ true = ground (arith, e) in
      ground (arith, h dep ss e (dep_satisfied-pending ss.phase (spec_of steps dep) ok), ok)
]

pub deps_ready-Settles :
    (steps : List ChainStep) (s t : List ChainStepStatus) (deps : List Str)
    → Settles s t
    → deps_ready steps s deps ≡ true
    → deps_ready steps t deps ≡ true
unfolding deps_ready
deps_ready-Settles steps s t [] h ready = refl
deps_ready-Settles steps s t (dep ∷ deps) h ready =
    ground (arith, dep_ready-Settles steps s t dep h, deps_ready-Settles steps s t deps h)

module _ {C : Type 0} (w : World C) (nc : NatsConfig) (chain : Chain C) where
  -- The effect publishes the task of one of the steps, and that step's dependencies are satisfied.
  pub record IsJustified (steps : List ChainStep) (final : List ChainStepStatus) (e : Effect C)
      : Type 0 where
    pub step : ChainStep
    pub listed : Memᴰ step steps
    pub subject : Str
    pub task : Str
    pub publishes : e ≡ published subject (payload_of w nc chain step task)
    pub after_deps : deps_ready chain.spec.steps final step.depends_on ≡ true

  IsJustified-weaken :
      (steps steps' : List ChainStep) (s t : List ChainStepStatus)
      → ((step : ChainStep) → Memᴰ step steps → Memᴰ step steps')
      → Settles s t
      → (e : Effect C) → IsJustified steps s e
      → IsJustified steps' t e
  IsJustified-weaken steps steps' s t sub h e j = record {
    step = j.step;
    listed = sub j.step j.listed;
    subject = j.subject;
    task = j.task;
    publishes = j.publishes;
    after_deps = deps_ready-Settles chain.spec.steps s t j.step.depends_on h j.after_deps;
  }

  publish_IsJustified :
      (step : ChainStep) (steps : List ChainStep) (s : List ChainStepStatus) (subject task : Str)
      → IsReady w nc chain step s
      → IsJustified (step ∷ steps) s (published subject (payload_of w nc chain step task))
  publish_IsJustified step steps s subject task r = record {
    step = step;
    listed = Memᴰ.head refl;
    subject = subject;
    task = task;
    publishes = refl;
    after_deps = (IsReady-pending w nc chain step s r).1;
  }

  Start-IsJustified :
      (step : ChainStep) (steps : List ChainStep) (s t : List ChainStepStatus)
      (effects : List (Effect C))
      → IsReady w nc chain step s
      → Start w nc chain step s t effects
      → All (IsJustified (step ∷ steps) s) effects
  Start-IsJustified step steps s t effects r (nothing _ e) = rw e tt
  Start-IsJustified step steps s t effects r (unrendered reason _ e) = rw e tt
  Start-IsJustified step steps s t effects r (refused subject task _ e) =
      rw e (publish_IsJustified step steps s subject task r, tt)
  Start-IsJustified step steps s t effects r (started subject task _ e) =
      rw e (publish_IsJustified step steps s subject task r, tt)

  Move-IsJustified :
      (step : ChainStep) (steps : List ChainStep) (s t : List ChainStepStatus)
      (effects : List (Effect C))
      → Move w nc chain step s t effects
      → All (IsJustified (step ∷ steps) s) effects
  Move-IsJustified step steps s t effects (idle _ e) = rw e tt
  Move-IsJustified step steps s t effects (starts r st) =
      Start-IsJustified step steps s t effects r st

  -- The effects of the publishing loop are publishes only, each of the task of a step of the loop
  -- whose dependencies have all succeeded, or failed with continueOnFailure, in the statuses at the
  -- end of the loop.
  pub dispatch_steps-IsJustified :
      (steps : List ChainStep) (s : List ChainStepStatus)
      → let d = dispatch_steps w nc chain steps s in All (IsJustified steps d.statuses) d.effects
  unfolding dispatch_steps
  dispatch_steps-IsJustified [] s = tt
  dispatch_steps-IsJustified (step ∷ steps) s =
      let d = dispatch_step w nc chain step s in
      let rest = dispatch_steps w nc chain steps d.statuses in
      let move = dispatch_step-Move w nc chain step s in
      let own = Move-IsJustified step steps s d.statuses d.effects move in
      let settles : Settles s d.statuses =
        λ n ss has done. Move-settled w nc chain step s d.statuses d.effects n ss move has done in
      let settles' : Settles s rest.statuses = λ n ss has done.
        dispatch_steps-settled w nc chain steps d.statuses n ss (settles n ss has done) done in
      elim (Bool-cases d.panicked) [
        | inl e ↦ rw e (
            All-imp (IsJustified (step ∷ steps) s) (IsJustified (step ∷ steps) d.statuses) d.effects
              (IsJustified-weaken (step ∷ steps) (step ∷ steps) s d.statuses (λ x m. m) settles)
              own)
        | inr e ↦ rw e (
            All-append (IsJustified (step ∷ steps) rest.statuses) d.effects rest.effects
              (All-imp (IsJustified (step ∷ steps) s) (IsJustified (step ∷ steps) rest.statuses)
                d.effects
                (IsJustified-weaken (step ∷ steps) (step ∷ steps) s rest.statuses (λ x m. m)
                  settles')
                own)
              (All-imp (IsJustified steps rest.statuses) (IsJustified (step ∷ steps) rest.statuses)
                rest.effects
                (IsJustified-weaken steps (step ∷ steps) rest.statuses rest.statuses
                  (λ x m. Memᴰ.tail m) (λ n ss has done. has))
                (dispatch_steps-IsJustified steps d.statuses)))
      ]
