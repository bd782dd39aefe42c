-- ===== src/Util/Dag/Deps.antt =====
-- The check that every dependency is the name of a step.
use roundtable.Prelude.{
  ◌≡◌, ◌↔◌, refl, List, [], ◌∷◌, true, false, Str, str_eq_iff, str_eq_refl, Option-cases, inl, inr,
  arith, none, some,
}
use roundtable.Util.Strings.{contains_string}
use roundtable.Util.Dag.{DagNode, DagError, unknown_step, unknown_dep, check_deps}
use roundtable.Util.Dag.Spec.{depends}

unknown_dep_lem :
    (known deps : List Str) (d : Str)
    → unknown_dep known deps ≡ none
    → contains_string deps d ≡ true
    → contains_string known d ≡ true
unfolding unknown_dep contains_string
unknown_dep_lem known [] d h m = cc
unknown_dep_lem known (dep ∷ deps) d h m =
    ground (arith, unknown_dep_lem known deps d, str_eq_iff dep d)

unknown_dep-eq-some :
    (known deps : List Str) (d : Str)
    → unknown_dep known deps ≡ some d
    → (contains_string deps d ≡ true) × (contains_string known d ≡ false)
unfolding unknown_dep contains_string
unknown_dep-eq-some known [] d h = cc
unknown_dep-eq-some known (dep ∷ deps) d h =
    ground (arith, unknown_dep-eq-some known deps d, str_eq_refl d)

unknown_dep-eq-none :
    (known deps : List Str)
    → ((d : Str) → contains_string deps d ≡ true → contains_string known d ≡ true)
    → unknown_dep known deps ≡ none
unfolding unknown_dep contains_string
unknown_dep-eq-none known [] h = refl
unknown_dep-eq-none known (dep ∷ deps) h =
    ground (
      arith,
      h dep,
      str_eq_refl dep,
      unknown_dep-eq-none known deps (λ d m. h d (ground (arith, m))),
    )

known_of_check_deps :
    (known : List Str) (nodes : List DagNode) (n d : Str)
    → check_deps known nodes ≡ none
    → depends nodes n d ≡ true
    → contains_string known d ≡ true
unfolding check_deps depends
known_of_check_deps known [] n d h m = cc
known_of_check_deps known (node ∷ nodes) n d h m =
    ground (arith, known_of_check_deps known nodes n d, unknown_dep_lem known node.depends_on d)

check_deps_of_known :
    (known : List Str) (nodes : List DagNode)
    → ((n d : Str) → depends nodes n d ≡ true → contains_string known d ≡ true)
    → check_deps known nodes ≡ none
unfolding check_deps depends
check_deps_of_known known [] h = refl
check_deps_of_known known (node ∷ nodes) h = ground (
  arith,
  unknown_dep-eq-none known node.depends_on
      (λ d m. h node.name d (ground (arith, m, str_eq_refl node.name))),
  check_deps_of_known known nodes (λ n d m. h n d (ground (arith, m))),
)

pub check_deps-eq-none :
    (known : List Str) (nodes : List DagNode)
    → (check_deps known nodes ≡ none)
      ↔ ((n d : Str) → depends nodes n d ≡ true → contains_string known d ≡ true)
check_deps-eq-none known nodes =
    (λ h n d. known_of_check_deps known nodes n d h, check_deps_of_known known nodes)

-- A refusal names a node, a dependency of it, and the dependency is unknown.
pub check_deps-eq-some :
    (known : List Str) (nodes : List DagNode) (e : DagError)
    → check_deps known nodes ≡ some e
    → (n : Str) × (d : Str) × (e ≡ unknown_step n d)
      × (depends nodes n d ≡ true)
      × (contains_string known d ≡ false)
unfolding check_deps depends
check_deps-eq-some known [] e h = cc
check_deps-eq-some known (node ∷ nodes) e h =
    elim (Option-cases (unknown_dep known node.depends_on)) [
      | inl fine ↦
          let (n, d, eq, dep, new) =
            check_deps-eq-some known nodes e (rw (fine, check_deps) at h) in
          (n, d, eq, ground (arith, dep), new)
      | inr (d, bad) ↦ (
        node.name,
        d,
        ground (arith, h, bad),
        ground (arith, unknown_dep-eq-some known node.depends_on d bad, str_eq_refl node.name),
        ground (arith, unknown_dep-eq-some known node.depends_on d bad),
      )
    ]
