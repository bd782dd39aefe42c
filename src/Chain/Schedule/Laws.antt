-- ===== src/Chain/Schedule/Laws.antt =====
-- The cron registry after a pass, and when a fire counts as missed.
use roundtable.Prelude.{
  ℕ, ◌+◌, ◌*◌, ◌≤◌, ◌<◌, ◌≡◌, ◌≢◌, ◌↔◌, refl, inl, inr, true, false, not, ◌||◌, [], ◌∷◌, Option,
  none, some, Str, is_empty, is_some, str_eq, str_eq_iff, if◌then◌else◌, Option-cases, arith,
}
use roundtable.Api.Chain.{ChainPhase, running, Chain}
use roundtable.Chain.World.{second, World}
use roundtable.Chain.Schedule.{
  Registry, entry, remove_entry, registry_key, duration_bound, past_deadline, missed_since,
  missed_schedule, reconcile_schedule, is_running_phase,
}

pub entry-remove_entry :
    (r : Registry) (key k : Str)
    → entry (remove_entry r key) k ≡ (if str_eq key k then none else entry r k)
unfolding entry remove_entry
entry-remove_entry [] key k = ground arith
entry-remove_entry ((l, schedule) ∷ r) key k =
    ground (arith, entry-remove_entry r key k, str_eq_iff l key, str_eq_iff l k, str_eq_iff key k)

entry-cons :
    (key schedule : Str) (r : Registry) (k : Str)
    → entry ((key, schedule) ∷ r) k ≡ (if str_eq key k then some schedule else entry r k)
unfolding entry
entry-cons key schedule r k = refl

not_running_iff : (p : ChainPhase) → (is_running_phase p ≡ false) ↔ (p ≢ running)
not_running_iff p = (λ h e. ground (arith, h, e), λ h. ground (arith, h))

-- The starting deadline fits into a `time.Duration`.
abbrev pub IsShort : Option ℕ → Type 0
IsShort deadline = (seconds : ℕ) → deadline ≡ some seconds → seconds * second < duration_bound

past_deadline_iff :
    (now expected : ℕ) (deadline : Option ℕ)
    → IsShort deadline
    → (past_deadline now expected deadline ≡ false)
      ↔ ((seconds : ℕ) → deadline ≡ some seconds → now ≤ expected + seconds * second)
unfolding past_deadline
past_deadline_iff now expected none short = (λ h seconds e. cc, λ h. refl)
past_deadline_iff now expected (some s) short =
    (λ h seconds e. ground (arith, h, e, short s refl), λ h. ground (arith, h s refl, short s refl))

module _ {C : Type 0} (w : World C) where
  -- After the schedule was looked at, the chain has no cron entry if it has no schedule or is
  -- suspended; otherwise it keeps the entry it had, whatever its schedule is now, and gets one only
  -- if it had none and the schedule parses. The entries of other chains stay.
  pub entry-reconcile_schedule :
      (r : Registry) (chain : Chain C) (k : Str)
      → let own = registry_key chain.namespace chain.name in
        let had = entry r own in
        let parsed = w.schedule_parses chain.spec.schedule in
        entry (reconcile_schedule w r chain).0 k ≡ (
          if not (str_eq own k)
          then entry r k
          else if is_empty chain.spec.schedule || chain.spec.suspended
          then none
          else if is_some had
          then had
          else if parsed
          then some chain.spec.schedule
          else none)
  unfolding reconcile_schedule
  entry-reconcile_schedule r chain k =
      let own = registry_key chain.namespace chain.name in
      ground (
        arith,
        entry-remove_entry r own k,
        entry-cons own chain.spec.schedule r k,
        str_eq_iff own k,
      )

  -- What it means that a fire was missed since the last one.
  abbrev pub IsMissed : Chain C → ℕ → Type 0
  IsMissed chain last =
      (chain.status.phase ≢ running)
      × (w.schedule_parses chain.spec.schedule ≡ true)
      × (w.next_fire chain.spec.schedule last < w.now)
      × ((seconds : ℕ)
          → chain.spec.starting_deadline_seconds ≡ some seconds
          → w.now ≤ w.next_fire chain.spec.schedule last + seconds * second)

  missed_since_sound :
      (chain : Chain C) (last : ℕ)
      → IsShort chain.spec.starting_deadline_seconds
      → missed_since w chain last ≡ true
      → IsMissed chain last
  unfolding missed_since
  missed_since_sound chain last short h =
      let expected = w.next_fire chain.spec.schedule last in
      (
        (not_running_iff chain.status.phase).0 (ground (arith, h)),
        ground (arith, h),
        ground (arith, h),
        (past_deadline_iff w.now expected chain.spec.starting_deadline_seconds short).0
            (ground (arith, h)),
      )

  missed_since_complete :
      (chain : Chain C) (last : ℕ)
      → IsShort chain.spec.starting_deadline_seconds
      → IsMissed chain last
      → missed_since w chain last ≡ true
  unfolding missed_since
  missed_since_complete chain last short (idle, parses, passed, within) =
      let expected = w.next_fire chain.spec.schedule last in
      ground (
        arith,
        parses,
        passed,
        (not_running_iff chain.status.phase).1 idle,
        (past_deadline_iff w.now expected chain.spec.starting_deadline_seconds short).1 within,
      )

  -- A fire counts as missed exactly when a run was scheduled before, none is going on, the schedule
  -- parses, the next fire after the last has passed, and no starting deadline after it has: at most
  -- that many seconds lie between. The deadline is one that fits into a duration of 63 bits.
  pub missed_schedule_iff :
      (chain : Chain C)
      → IsShort chain.spec.starting_deadline_seconds
      → (missed_schedule w chain ≡ true)
        ↔ ((last : ℕ) × (chain.status.last_scheduled_at ≡ some last) × IsMissed chain last)
  missed_schedule_iff chain short = (
    λ h. elim (Option-cases chain.status.last_scheduled_at) [
      | inl e ↦ unfold missed_schedule in ground (arith, e, h)
      | inr (last, e) ↦ (
        last,
        e,
        missed_since_sound chain last short (unfold missed_schedule in ground (arith, e, h)),
      )
    ],
    λ (last, e, missed).
        unfold missed_schedule in ground (arith, e, missed_since_complete chain last short missed),
  )
