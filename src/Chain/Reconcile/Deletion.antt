-- ===== src/Chain/Reconcile/Deletion.antt =====
-- A pass of chain_controller.go over a chain that is being deleted, or is gone.
use roundtable.Prelude.{
  ◌≡◌, ◌≢◌, true, false, List, [], ◌∷◌, none, Str, str_eq, str_eq_refl, str_eq_iff, ◌++◌, ◌⊎◌, inl,
  inr, refl, Option-cases, if◌then◌else◌, arith,
}
use roundtable.Util.Strings.{contains_string, remove_string}
use roundtable.Util.Strings.Laws.{contains_string-remove_string}
use roundtable.Api.Meta.{
  ApiError, Answer, found, failed as call_failed, not_found, condition_true, valid, spec_is_valid,
  StatusConditions,
}
use roundtable.Api.Chain.{Chain}
use roundtable.Chain.World.{World, updated}
use roundtable.Chain.Schedule.{Registry, entry, registry_key, reconcile_schedule}
use roundtable.Chain.Schedule.Laws.{entry-remove_entry, entry-reconcile_schedule}
use roundtable.Chain.Validate.{validate_steps}
use roundtable.Chain.Reconcile.{
  chain_finalizer, with_finalizers, note_validity, reconcile_present, reconcile_live,
  reconcile_deleted, reconcile,
}

Answer-cases :
    {A : Type 0} (answer : Answer A)
    → ((e : ApiError) × (answer ≡ call_failed e)) ⊎ ((a : A) × (answer ≡ found a))
Answer-cases (call_failed e) = inl (e, refl)
Answer-cases (found a) = inr (a, refl)

-- The API server answers with the chain that it was asked for.
abbrev pub AnswersAsked : {C : Type 0} → World C → (namespace name : Str) → Type 0
AnswersAsked w namespace name =
    (chain : Chain _)
    → w.get_chain namespace name ≡ found chain
    → (chain.namespace ≡ namespace) × (chain.name ≡ name)

module _ (m : StatusConditions) (w : World m.Conditions) where
  -- A pass over a chain that is being deleted takes the chain's cron entry away and no other. Its one
  -- effect is to write the chain, unchanged but for its finalizers: the operator's own is not among
  -- them, and every other is kept.
  pub reconcile-deleting :
      (attempts : List (World m.Conditions)) (registry : Registry) (namespace name : Str)
      (chain : Chain m.Conditions)
      → w.get_chain namespace name ≡ found chain
      → chain.deleting ≡ true
      → let pass = reconcile m w attempts registry namespace name in
        let own = registry_key namespace name in
        ((k : Str) → entry pass.registry k ≡ (if str_eq own k then none else entry registry k))
        × (fs : List Str) × (pass.effects ≡ updated (with_finalizers fs chain) ∷ [])
        × (contains_string fs chain_finalizer ≡ false)
        × ((f : Str)
            → chain_finalizer ≢ f
            → contains_string fs f ≡ contains_string chain.finalizers f)
  unfolding reconcile reconcile_deleted
  reconcile-deleting attempts registry namespace name chain read deleting = (
    λ k.
        ground (arith, read, deleting, entry-remove_entry registry (registry_key namespace name) k),
    remove_string chain.finalizers chain_finalizer,
    ground (arith, read, deleting),
    (contains_string-remove_string chain.finalizers chain_finalizer chain_finalizer).0,
    λ f ne. (contains_string-remove_string chain.finalizers chain_finalizer f).1 ne,
  )

  entry-reconcile_present :
      (attempts : List (World m.Conditions)) (registry : Registry) (chain : Chain m.Conditions)
      (k : Str)
      → registry_key chain.namespace chain.name ≢ k
      → entry (reconcile_present m w attempts registry chain).registry k ≡ entry registry k
  unfolding reconcile_present
  entry-reconcile_present attempts registry chain k other =
      let good = note_validity m w condition_true valid spec_is_valid chain in
      let kept : entry (reconcile_schedule w registry good).0 k ≡ entry registry k = ground (
        arith,
        other,
        str_eq_iff (registry_key chain.namespace chain.name) k,
        entry-reconcile_schedule w registry good k,
      ) in
      elim (Option-cases (validate_steps w chain)) [
        | inl e ↦ ground (arith, e, kept)
        | inr (fault, e) ↦ ground (arith, e)
      ]

  entry-reconcile_live :
      (attempts : List (World m.Conditions)) (registry : Registry) (chain : Chain m.Conditions)
      (k : Str)
      → registry_key chain.namespace chain.name ≢ k
      → entry (reconcile_live m w attempts registry chain).registry k ≡ entry registry k
  unfolding reconcile_live
  entry-reconcile_live attempts registry chain k other =
      let finalized = with_finalizers (chain.finalizers ++ chain_finalizer ∷ []) chain in
      ground (
        arith,
        entry-reconcile_present attempts registry chain k other,
        entry-reconcile_present attempts registry finalized k other,
      )

  -- Whatever a pass over a chain comes to, and also when the chain is gone, is being deleted or is not
  -- valid, the cron entry of every other chain is as it was, if the API server answers with the chain
  -- that it is asked for.
  pub entry-reconcile_ne :
      (attempts : List (World m.Conditions)) (registry : Registry) (namespace name k : Str)
      → AnswersAsked w namespace name
      → registry_key namespace name ≢ k
      → entry (reconcile m w attempts registry namespace name).registry k ≡ entry registry k
  unfolding reconcile reconcile_deleted
  entry-reconcile_ne attempts registry namespace name k asked other =
      let own = registry_key namespace name in
      let removed = entry-remove_entry registry own k in
      let differs = str_eq_iff own k in
      elim (Answer-cases (w.get_chain namespace name)) [
        | inl (e, eq) ↦ ground (arith, eq, removed, differs, other)
        | inr (chain, eq) ↦
            let (n, n') = asked chain eq in
            ground (
              arith,
              eq,
              removed,
              differs,
              other,
              entry-reconcile_live attempts registry chain k (rw (n, n') other),
            )
      ]

  -- A pass over a chain that is gone leaves no cron entry for it and has no effect.
  reconcile-gone :
      (attempts : List (World m.Conditions)) (registry : Registry) (namespace name : Str)
      → w.get_chain namespace name ≡ call_failed not_found
      → let pass = reconcile m w attempts registry namespace name in
        (entry pass.registry (registry_key namespace name) ≡ none) × (pass.effects ≡ [])
  unfolding reconcile
  reconcile-gone attempts registry namespace name read =
      let key = registry_key namespace name in
      (
        ground (arith, read, entry-remove_entry registry key key, str_eq_refl key),
        ground (arith, read),
      )
