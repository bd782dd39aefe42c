-- ===== src/Chain/Lookup/Laws.antt =====
-- Reads and writes through the maps by name.
use roundtable.Prelude.{
  ◌≡◌, refl, subst, ◌⊎◌, inl, inr, true, List, [], ◌∷◌, map, none, some, is_some, Str, str_eq,
  str_eq_iff, if◌then◌else◌, Bool-cases, Option-cases, All, arith,
}
use roundtable.Util.Strings.{contains_string}
use roundtable.Api.Chain.{ChainStep, ChainStepStatus}
use roundtable.Chain.Lookup.{status_of, spec_of, write_status}

abbrev pub status_names : List ChainStepStatus → List Str
status_names statuses = map (λ (ss : ChainStepStatus). ss.name) statuses

abbrev pub step_names : List ChainStep → List Str
step_names steps = map (λ (s : ChainStep). s.name) steps

-- A status is found exactly for the names that have one.
pub is_some-status_of :
    (statuses : List ChainStepStatus) (name : Str)
    → is_some (status_of statuses name) ≡ contains_string (status_names statuses) name
unfolding status_of contains_string
is_some-status_of [] name = refl
is_some-status_of (ss ∷ statuses) name = ground (arith, is_some-status_of statuses name)

pub is_some-spec_of :
    (steps : List ChainStep) (name : Str)
    → is_some (spec_of steps name) ≡ contains_string (step_names steps) name
unfolding spec_of contains_string
is_some-spec_of [] name = refl
is_some-spec_of (step ∷ steps) name = ground (arith, is_some-spec_of steps name)

-- What is found stands further down, or is the first entry, of that name.
status_of-cons :
    (ss : ChainStepStatus) (statuses : List ChainStepStatus) (name : Str) (ss' : ChainStepStatus)
    → status_of (ss ∷ statuses) name ≡ some ss'
    → (status_of statuses name ≡ some ss') ⊎ ((ss ≡ ss') × (str_eq ss.name name ≡ true))
unfolding status_of
status_of-cons ss statuses name ss' h = ground arith

spec_of-cons :
    (step : ChainStep) (steps : List ChainStep) (name : Str) (step' : ChainStep)
    → spec_of (step ∷ steps) name ≡ some step'
    → (spec_of steps name ≡ some step') ⊎ ((step ≡ step') × (str_eq step.name name ≡ true))
unfolding spec_of
spec_of-cons step steps name step' h = ground arith

pub name-status_of :
    (statuses : List ChainStepStatus) (name : Str) (ss : ChainStepStatus)
    → status_of statuses name ≡ some ss
    → ss.name ≡ name
unfolding status_of
name-status_of [] name ss h = cc
name-status_of (s ∷ statuses) name ss h = elim (status_of-cons s statuses name ss h) [
  | inl later ↦ name-status_of statuses name ss later
  | inr (e, named) ↦ rw (← e) ((str_eq_iff s.name name).0 named)
]

pub name-spec_of :
    (steps : List ChainStep) (name : Str) (step : ChainStep)
    → spec_of steps name ≡ some step
    → step.name ≡ name
unfolding spec_of
name-spec_of [] name step h = cc
name-spec_of (s ∷ steps) name step h = elim (spec_of-cons s steps name step h) [
  | inl later ↦ name-spec_of steps name step later
  | inr (e, named) ↦ rw (← e) ((str_eq_iff s.name name).0 named)
]

-- A property of all statuses holds of the one that is found.
pub All-status_of {ℓ} :
    (P : ChainStepStatus → Type ℓ) (statuses : List ChainStepStatus) (name : Str)
    (ss : ChainStepStatus)
    → All P statuses
    → status_of statuses name ≡ some ss
    → P ss
unfolding status_of
All-status_of P [] name ss all h = cc
All-status_of P (s ∷ statuses) name ss all h = elim (status_of-cons s statuses name ss h) [
  | inl later ↦ All-status_of P statuses name ss all.1 later
  | inr (e, named) ↦ subst P e all.0
]

pub All-write_status {ℓ} :
    (P : ChainStepStatus → Type ℓ) (f : ChainStepStatus → ChainStepStatus) (name : Str)
    (statuses : List ChainStepStatus)
    → All P statuses
    → ((ss : ChainStepStatus) → status_of statuses name ≡ some ss → P ss → P (f ss))
    → All P (write_status name f statuses)
unfolding write_status status_of
All-write_status P f name [] all h = tt
All-write_status P f name (s ∷ statuses) all h = elim (Option-cases (status_of statuses name)) [
  | inl e ↦ elim (Bool-cases (str_eq s.name name)) [
    | inl own ↦ rw (e, own, write_status) (h s (rw (e, own, status_of)) all.0, all.1)
    | inr other ↦ rw (e, other, write_status) all
  ]
  | inr (ss, e) ↦
      rw (e, write_status)
        (all.0, All-write_status P f name statuses all.1 (λ x q. h x (ground (arith, q))))
]

module _ (f : ChainStepStatus → ChainStepStatus)
    (keeps : (ss : ChainStepStatus) → (f ss).name ≡ ss.name) where
  pub status_names-write_status :
      (name : Str) (statuses : List ChainStepStatus)
      → status_names (write_status name f statuses) ≡ status_names statuses
  unfolding write_status
  status_names-write_status name [] = refl
  status_names-write_status name (ss ∷ statuses) =
      ground (arith, status_names-write_status name statuses, keeps ss)

  -- Reading after a write: the written name has the new status, every other one what it had.
  pub status_of-write_status :
      (name k : Str) (statuses : List ChainStepStatus)
      → status_of (write_status name f statuses) k ≡ (
          if str_eq name k
          then elim (status_of statuses name) [ none ↦ none | some ss ↦ some (f ss) ]
          else status_of statuses k)
  unfolding write_status status_of
  status_of-write_status name k [] = ground arith
  status_of-write_status name k (ss ∷ statuses) = ground (
    arith,
    status_of-write_status name k statuses,
    keeps ss,
    str_eq_iff name k,
    str_eq_iff ss.name k,
    str_eq_iff ss.name name,
    is_some-status_of statuses name,
    is_some-status_of (write_status name f statuses) name,
    status_names-write_status name statuses,
  )
