-- ===== src/Util/Dag/Correct.antt =====
-- `ValidateDAG` accepts exactly the acyclic graphs over distinct, known names.
use roundtable.Prelude.{
  ℕ, zero, suc, ◌<◌, ◌≡◌, ◌↔◌, ◌⊎◌, refl, List, [], ◌∷◌, true, false, Str, ◌==◌, if◌then◌else◌,
  Option-cases, inl, inr, arith, none, some, length, length-map,
}
use roundtable.Util.Strings.{contains_string}
use roundtable.Util.Strings.Distinct.{Subset, Distinct-of_Subset, length-le_of_Subset}
use roundtable.Util.Dag.{
  DagNode, DagError, unknown_step, cycle, names, check_deps, drain, start, conclude, validate_dag,
}
use roundtable.Util.Dag.Spec.{depends, IsDag}
use roundtable.Util.Dag.Degrees.{pending_of_done, name_of_depends}
use roundtable.Util.Dag.Loop.{IsKeys, Ended, drain_ends, start-Inv}
use roundtable.Util.Dag.Deps.{check_deps-eq-none, check_deps-eq-some}
use roundtable.Util.Dag.Order.{position, position-lt}

module _ {keys : List Str} {nodes : List DagNode} (isKeys : IsKeys keys nodes) where
  Subset-done-names : (done : List Str) → Ended isKeys done → Subset done (names nodes)
  Subset-done-names done ended n m = ground (arith, ended.members n, isKeys.members n)

  -- With all names visited, the graph is valid.
  IsDag-of_length :
      (done : List Str)
      → Ended isKeys done
      → check_deps (names nodes) nodes ≡ none
      → length done ≡ length nodes
      → IsDag nodes
  IsDag-of_length done ended known all =
      let sub = Subset-done-names done ended in
      let (distinct, visited) =
        Distinct-of_Subset done (names nodes) ended.distinct sub
          (omega (arith, length-map (λ (n : DagNode). n.name) nodes)) in
      record {
        distinct = distinct;
        known = (check_deps-eq-none (names nodes) nodes).0 known;
        rank = position done;
        ranked = λ n d m.
            position-lt nodes done n d ended.distinct ended.ordered
              (visited n (name_of_depends nodes n d m)) m;
      }

  -- In a valid graph every name below a rank is visited.
  visited_below :
      (done : List Str) (dag : IsDag nodes) (k : ℕ) (n : Str)
      → Ended isKeys done
      → dag.rank n < k
      → contains_string (names nodes) n ≡ true
      → contains_string done n ≡ true
  visited_below done dag zero n ended h m = absurd (omega arith)
  visited_below done dag (suc k) n ended h m =
      let deps = pending_of_done done nodes n (λ d dep.
        visited_below done dag k d ended (omega (arith, dag.ranked n d dep)) (dag.known n d dep)) in
      ground (arith, ended.members n, isKeys.members n, deps)

  length_of_IsDag : (done : List Str) → Ended isKeys done → IsDag nodes → length done ≡ length nodes
  length_of_IsDag done ended dag = omega (
    arith,
    length-map (λ (n : DagNode). n.name) nodes,
    length-le_of_Subset done (names nodes) ended.distinct (Subset-done-names done ended),
    length-le_of_Subset (names nodes) done dag.distinct
        (λ n m. visited_below done dag (suc (dag.rank n)) n ended (omega arith) m),
  )

  kahn :
      (done : List Str) × Ended isKeys done
      × (conclude nodes (drain nodes (length keys) (start keys nodes))
          ≡ (if length done == length nodes then none else some cycle))
  unfolding conclude
  kahn =
      let (done, ended, eq) =
        drain_ends isKeys (length keys) [] (start keys nodes) (omega arith) (start-Inv isKeys) in
      (done, ended, ground (arith, eq))

no_nodes : IsDag []
unfolding depends
no_nodes = record { distinct = tt; known = λ n d h. cc; rank = λ n. 0; ranked = λ n d h. cc }

-- `ValidateDAG` returns no error exactly when the step names are distinct, every dependency names
-- a step, and the graph has no cycle: whatever the order in which Go's `range` yields the map's
-- keys. So it rejects repeated step names too.
pub validate_dag_iff :
    (keys : List Str) (nodes : List DagNode)
    → IsKeys keys nodes
    → (validate_dag keys nodes ≡ none) ↔ IsDag nodes
unfolding validate_dag
validate_dag_iff keys [] isKeys = (λ _. no_nodes, λ _. refl)
validate_dag_iff keys (node ∷ nodes) isKeys =
    let all = node ∷ nodes in
    let (done, ended, eq) = kahn isKeys in
    (
      λ h. IsDag-of_length isKeys done ended (ground (arith, h)) (ground (arith, h, eq)),
      λ dag. ground (
        arith,
        eq,
        length_of_IsDag isKeys done ended dag,
        (check_deps-eq-none (names all) all).1 dag.known,
      ),
    )

-- A refusal is never for lack of fuel: the loop visits each key at most once. It is either for an
-- unknown dependency, and then names a step, a dependency of it, and the dependency names no step;
-- or for a cycle, and then all dependencies are known and the graph is not valid.
pub validate_dag_refusal :
    (keys : List Str) (nodes : List DagNode) (e : DagError)
    → IsKeys keys nodes
    → validate_dag keys nodes ≡ some e
    → ((n : Str) × (d : Str) × (e ≡ unknown_step n d)
        × (depends nodes n d ≡ true)
        × (contains_string (names nodes) d ≡ false))
      ⊎ ((e ≡ cycle) × (check_deps (names nodes) nodes ≡ none) × ¬ IsDag nodes)
unfolding validate_dag
validate_dag_refusal keys [] e isKeys h = cc
validate_dag_refusal keys (node ∷ nodes) e isKeys h =
    let all = node ∷ nodes in
    let (done, ended, eq) = kahn isKeys in
    elim (Option-cases (check_deps (names all) all)) [
      | inl fine ↦ inr (
        ground (arith, h, fine, eq),
        fine,
        λ dag. ground (arith, h, fine, eq, length_of_IsDag isKeys done ended dag),
      )
      | inr (e', bad) ↦ inl (check_deps-eq-some (names all) all e (ground (arith, h, bad)))
    ]
