-- ===== src/Util/Dag/Tests.antt =====
-- Runs of `ValidateDAG`, and its theorems at a small graph.
use roundtable.Prelude.{
  ◌≡◌, refl, ◌↔◌, ◌⊎◌, true, false, List, [], ◌∷◌, Option, none, some, Str, bytes, str_eq,
}
use roundtable.Util.Strings.{contains_string}
use roundtable.Util.Dag.{
  DagNode, DagError, unknown_step, cycle, names, unknown_dep, check_deps, count_deps, in_degrees,
  zero_degree, relax, relax_deps, relax_nodes, visit, drain, start, conclude, validate_dag,
}
use roundtable.Util.Dag.Spec.{depends, IsDag}
use roundtable.Util.Dag.Loop.{IsKeys}
use roundtable.Util.Dag.Correct.{validate_dag_iff, validate_dag_refusal}

abbrev scan : DagNode
scan = record { name = bytes "scan"; depends_on = [] }

abbrev verify : DagNode
verify = record { name = bytes "verify"; depends_on = bytes "scan" ∷ [] }

abbrev report : DagNode
report = record { name = bytes "report"; depends_on = bytes "scan" ∷ bytes "verify" ∷ [] }

abbrev pipeline : List DagNode
pipeline = report ∷ scan ∷ verify ∷ []

-- Two steps that wait for each other.
abbrev looped : List DagNode
looped = record scan { depends_on = bytes "verify" ∷ [] } ∷ verify ∷ []

run : List Str → List DagNode → Option DagError
unfolding relax relax_deps relax_nodes visit drain start conclude unknown_dep check_deps count_deps
    in_degrees zero_degree contains_string str_eq validate_dag
run keys nodes = validate_dag keys nodes

pipeline_valid : run (names pipeline) pipeline ≡ none
unfolding run
pipeline_valid = refl

looped_cycle : run (names looped) looped ≡ some cycle
unfolding run
looped_cycle = refl

-- A repeated name is reported as a cycle.
repeated_cycle : run (names (scan ∷ [])) (scan ∷ scan ∷ []) ≡ some cycle
unfolding run
repeated_cycle = refl

unknown_dependency :
    run (names (verify ∷ [])) (verify ∷ []) ≡ some (unknown_step (bytes "verify") (bytes "scan"))
unfolding run
unknown_dependency = refl

pipeline-IsKeys : IsKeys (names pipeline) pipeline
unfolding contains_string str_eq
pipeline-IsKeys = record { distinct = (refl, (refl, (refl, tt))); members = λ n. refl }

looped-IsKeys : IsKeys (names looped) looped
unfolding contains_string str_eq
looped-IsKeys = record { distinct = (refl, (refl, tt)); members = λ n. refl }

validate_dag_iff_example : (validate_dag (names pipeline) pipeline ≡ none) ↔ IsDag pipeline
validate_dag_iff_example = validate_dag_iff (names pipeline) pipeline pipeline-IsKeys

validate_dag_refusal_example :
    ((n : Str) × (d : Str) × (cycle ≡ unknown_step n d)
      × (depends looped n d ≡ true)
      × (contains_string (names looped) d ≡ false))
    ⊎ ((cycle ≡ cycle) × (check_deps (names looped) looped ≡ none) × ¬ IsDag looped)
unfolding run
validate_dag_refusal_example =
    validate_dag_refusal (names looped) looped cycle looped-IsKeys looped_cycle
