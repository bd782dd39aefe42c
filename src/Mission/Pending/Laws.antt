-- ===== src/Mission/Pending/Laws.antt =====
-- The specs that pass the checks.
use roundtable.Prelude.{
  ◌≡◌, ◌↔◌, refl, ◌⊎◌, inl, inr, Bool, true, false, List, [], ◌∷◌, Option, none, some, Str,
  is_empty, is_some, str_eq_comm, map, All, Bool-cases, Option-cases, arith,
}
use roundtable.Util.Strings.{contains_string}
use roundtable.Util.Strings.Distinct.{Distinct}
use roundtable.Api.Meta.{ApiError, Answer, found, failed as call_failed}
use roundtable.Api.Chain.{Chain}
use roundtable.Api.Phase.{pending, provisioning}
use roundtable.Api.Mission.{
  MissionKnight, MissionChainRef, MissionKnightTemplate, MissionSpec, Mission,
}
use roundtable.Mission.World.{validation, MissionWorld}
use roundtable.Mission.Run.{save, set_phase, set_complete, set_failed}
use roundtable.Mission.Pending.{
  template_fault, reference_fault, knight_fault, chain_fault, reject_templates, reject_spec,
  settle_pending, reconcile_pending, same_bool,
}

-- Distinct names, of which none was seen before.
abbrev IsFresh : (seen : List Str) → List Str → Type 0
IsFresh seen names = Distinct names × All (λ n. contains_string seen n ≡ false) names

unseen_cons :
    (t : Str) (seen names : List Str)
    → All (λ n. contains_string (t ∷ seen) n ≡ false) names
      ↔ ((contains_string names t ≡ false) × All (λ n. contains_string seen n ≡ false) names)
unfolding contains_string
unseen_cons t seen [] = (λ h. (refl, tt), λ h. tt)
unseen_cons t seen (n ∷ names) =
    let (there, back) = unseen_cons t seen names in
    let same = str_eq_comm t n in
    (
      λ h.
          let (one, two) = there h.1 in
          (ground (arith, h.0, one, same), (ground (arith, h.0), two)),
      λ h. (ground (arith, h.0, h.1.0, same), back (ground (arith, h.0), h.1.1)),
    )

abbrev template_name : MissionKnightTemplate → Str
template_name t = t.name

abbrev knight_name : MissionKnight → Str
knight_name k = k.name

template_fault_iff :
    (seen : List Str) (templates : List MissionKnightTemplate)
    → (template_fault seen templates ≡ none) ↔ IsFresh seen (map template_name templates)
unfolding template_fault
template_fault_iff seen [] = (λ h. (tt, tt), λ h. refl)
template_fault_iff seen (t ∷ templates) =
    let (there, back) = template_fault_iff (t.name ∷ seen) templates in
    let (split, join) = unseen_cons t.name seen (map template_name templates) in
    elim (Bool-cases (contains_string seen t.name)) [
      | inl e ↦ (λ h. absurd (ground (arith, e, h)), λ h. absurd (ground (arith, e, h.1.0)))
      | inr e ↦ (
        λ h.
            let (d, u) = there (ground (arith, e, h)) in
            let (apart, rest) = split u in ((apart, d), (e, rest)),
        λ h. rw e (back (h.0.1, join (h.0.0, h.1.1))),
      )
    ]

-- The knight's template, if it names one, is one of the mission's or may be one of the round table's,
-- and an ephemeral knight has either a spec or a template.
pub record IsValidReference (templates : List Str) (round_table_ref : Str) (k : MissionKnight)
    : Type 0 where
  pub known :
      (is_empty k.template_ref ≡ true)
      ⊎ (contains_string templates k.template_ref ≡ true)
      ⊎ (is_empty round_table_ref ≡ false)
  pub one_source : k.ephemeral ≡ true → is_some k.ephemeral_spec ≡ is_empty k.template_ref

reference_fault_iff :
    (templates : List Str) (round_table_ref : Str) (k : MissionKnight)
    → (reference_fault templates round_table_ref k ≡ none)
      ↔ IsValidReference templates round_table_ref k
unfolding reference_fault same_bool
reference_fault_iff templates round_table_ref k = ground arith

module _ (templates : List Str) (round_table_ref : Str) where
  AreValid : List MissionKnight → Type 0
  AreValid = All (IsValidReference templates round_table_ref)

  -- The first knight's reference, and then the rest.
  first_fault_iff :
      (k : MissionKnight) (rest : Option Str)
      → ((elim (reference_fault templates round_table_ref k) [
        | some fault ↦ some fault
        | none ↦ rest
      ])
          ≡ none)
        ↔ (IsValidReference templates round_table_ref k × (rest ≡ none))
  first_fault_iff k rest =
      let (there, back) = reference_fault_iff templates round_table_ref k in
      elim (Option-cases (reference_fault templates round_table_ref k)) [
        | inl e ↦ rw e (λ h. (there e, h), λ h. h.1)
        | inr (fault, e) ↦
            (λ h. absurd (ground (arith, e, h)), λ h. absurd (ground (arith, e, back h.0)))
      ]

  knight_fault_iff :
      (seen : List Str) (knights : List MissionKnight)
      → (knight_fault templates round_table_ref seen knights ≡ none)
        ↔ (IsFresh seen (map knight_name knights) × AreValid knights)
  unfolding knight_fault AreValid
  knight_fault_iff seen [] = (λ h. ((tt, tt), tt), λ h. refl)
  knight_fault_iff seen (k ∷ knights) =
      let (there, back) = knight_fault_iff (k.name ∷ seen) knights in
      let (split, join) = unseen_cons k.name seen (map knight_name knights) in
      let (first, both) =
        first_fault_iff k (knight_fault templates round_table_ref (k.name ∷ seen) knights) in
      elim (Bool-cases (contains_string seen k.name)) [
        | inl e ↦ (λ h. absurd (ground (arith, e, h)), λ h. absurd (ground (arith, e, h.0.1.0)))
        | inr e ↦ rw e (
          λ h.
              let (ok, later) = first h in
              let ((d, u), valid) = there later in
              let (apart, unseen) = split u in (((apart, d), (refl, unseen)), (ok, valid)),
          λ h. both (h.1.0, back ((h.0.0.1, join (h.0.0.0, h.0.1.1)), h.1.1)),
        )
      ]

module _ {C : Type 0} (w : MissionWorld C) where
  abbrev is_there : Answer (Chain C) → Bool
  is_there (found chain) = true
  is_there (call_failed e) = false

  -- The chain of this reference is there.
  abbrev pub is_known_chain : (namespace : Str) → MissionChainRef → Bool
  is_known_chain namespace ref = is_there (w.get_chain validation namespace ref.name)

  chain_fault_iff :
      (namespace : Str) (refs : List MissionChainRef)
      → (chain_fault w namespace refs ≡ none)
        ↔ All (λ ref. is_known_chain namespace ref ≡ true) refs
  unfolding chain_fault
  chain_fault_iff namespace [] = (λ h. tt, λ h. refl)
  chain_fault_iff namespace (ref ∷ refs) =
      let (there, back) = chain_fault_iff namespace refs in
      (λ h. (ground (arith, h), there (ground (arith, h))), λ h. ground (arith, h.0, back h.1))

  -- What a spec must be.
  pub record IsValidSpec (namespace : Str) (spec : MissionSpec) : Type 0 where
    pub templates : Distinct (map template_name spec.knight_templates)
    pub knights : Distinct (map knight_name spec.knights)
    pub references :
        All
          (IsValidReference (map template_name spec.knight_templates) spec.round_table_ref)
          spec.knights
    pub chains : All (λ ref. is_known_chain namespace ref ≡ true) spec.chains

  settle_pending_iff :
      (templates knights : Option Str) (chains : Option (Str ⊎ ApiError)) (mission : Mission C)
      → mission.status.phase ≡ pending
      → ((settle_pending w templates knights chains mission).mission.status.phase ≡ provisioning)
        ↔ ((templates ≡ none) × (knights ≡ none) × (chains ≡ none))
  unfolding settle_pending reject_templates reject_spec save set_failed set_complete set_phase
  settle_pending_iff templates knights chains mission h = ground (arith, h)

  unseen_nil : (names : List Str) → All (λ n. contains_string [] n ≡ false) names
  unfolding contains_string
  unseen_nil [] = tt
  unseen_nil (n ∷ names) = (refl, unseen_nil names)

  -- A pending mission goes on to Provisioning exactly if its spec is valid: its templates have
  -- distinct names, and so have its knights; a template that a knight names is one of the mission's,
  -- unless the mission has a round table; an ephemeral knight has a spec or a template and not both;
  -- and every chain is there.
  pub reconcile_pending_iff :
      (mission : Mission C)
      → mission.status.phase ≡ pending
      → ((reconcile_pending w mission).mission.status.phase ≡ provisioning)
        ↔ IsValidSpec mission.namespace mission.spec
  unfolding reconcile_pending AreValid
  reconcile_pending_iff mission h =
      let spec = mission.spec in
      let names = map template_name spec.knight_templates in
      let (split, join) =
        settle_pending_iff (template_fault [] spec.knight_templates)
          (knight_fault names spec.round_table_ref [] spec.knights)
          (chain_fault w mission.namespace spec.chains) mission h in
      let (t, t') = template_fault_iff [] spec.knight_templates in
      let (k, k') = knight_fault_iff names spec.round_table_ref [] spec.knights in
      let (c, c') = chain_fault_iff mission.namespace spec.chains in
      (
        λ e.
            let (et, ek, ec) = split e in
            record {
              templates = (t et).0;
              knights = (k ek).0.0;
              references = (k ek).1;
              chains = c ec;
            },
        λ v. join (
          t' (v.templates, unseen_nil names),
          k' ((v.knights, unseen_nil (map knight_name spec.knights)), v.references),
          c' v.chains,
        ),
      )
