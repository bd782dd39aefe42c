-- ===== src/Util/Dag.antt =====
-- internal/util/dag.go: Kahn's algorithm over the steps of a chain.
pub mod Spec
mod Degrees
mod Relax
mod Deps
mod Order
mod Tests
mod Loop
pub mod Correct
use roundtable.Prelude.{
  ℕ, zero, suc, List, [], ◌∷◌, ◌++◌, map, Bool, true, false, not, Option, none, some, Str, str_eq,
  length, ◌==◌, if◌then◌else◌,
}
use roundtable.Prelude.Int.{ℤ, pos, increment, decrement, is_zero}
use roundtable.Util.Strings.{contains_string}

pub record DagNode : Type 0 where
  pub name : Str
  pub depends_on : List Str

pub data DagError : Type 0 where
  unknown_step : (step dep : Str) → DagError
  cycle : DagError
  -- The loop did not end within its fuel: no outcome of the code.
  out_of_fuel : DagError

abbrev pub names : List DagNode → List Str
names nodes = map (λ (n : DagNode). n.name) nodes

-- The first dependency of a step that is no step's name.
unfoldable pub unknown_dep : List Str → List Str → Option Str
unknown_dep known [] = none
unknown_dep known (dep ∷ deps) =
    let rest = unknown_dep known deps in if contains_string known dep then rest else some dep

unfoldable pub check_deps : List Str → List DagNode → Option DagError
check_deps known [] = none
check_deps known (node ∷ nodes) =
    let rest = check_deps known nodes in
    elim (unknown_dep known node.depends_on) [
      | some dep ↦ some (unknown_step node.name dep)
      | none ↦ rest
    ]

-- `map[string]int` by its reads; a missing key reads as 0.
abbrev pub Degrees : Type 0
Degrees = Str → ℤ

abbrev pub update : Degrees → Str → (ℤ → ℤ) → Degrees
update degree n f = λ m. if str_eq m n then f (degree m) else degree m

unfoldable pub count_deps : Str → List Str → Degrees → Degrees
count_deps n [] degree = degree
count_deps n (dep ∷ deps) degree = count_deps n deps (update degree n increment)

unfoldable pub in_degrees : List DagNode → Degrees → Degrees
in_degrees [] degree = degree
in_degrees (node ∷ nodes) degree = in_degrees nodes (count_deps node.name node.depends_on degree)

-- The queue begins with the keys of degree 0, in the order in which `range` yields the keys.
unfoldable pub zero_degree : Degrees → List Str → List Str
zero_degree degree [] = []
zero_degree degree (n ∷ keys) =
    let rest = zero_degree degree keys in if is_zero (degree n) then n ∷ rest else rest

pub record Search : Type 0 where
  pub queue : List Str
  pub visited : ℕ
  pub degree : Degrees

-- One edge from `node` to its dependency `dep`, when `current` leaves the queue.
pub relax : Str → Str → Str → Search → Search
relax current n dep s =
    let degree' = update s.degree n decrement in
    if str_eq dep current
    then record s {
      degree = degree';
      queue = if is_zero (degree' n) then s.queue ++ n ∷ [] else s.queue;
    }
    else s

pub relax_deps : Str → Str → List Str → Search → Search
relax_deps current n [] s = s
relax_deps current n (dep ∷ deps) s = relax_deps current n deps (relax current n dep s)

pub relax_nodes : Str → List DagNode → Search → Search
relax_nodes current [] s = s
relax_nodes current (node ∷ nodes) s =
    relax_nodes current nodes (relax_deps current node.name node.depends_on s)

-- One round of the `for len(queue) > 0` loop, after `current` left the queue.
pub visit : List DagNode → Str → List Str → Search → Search
visit nodes current rest s =
    relax_nodes current nodes (record s { queue = rest; visited = suc s.visited })

-- `none`: the fuel ran out.
pub drain : List DagNode → ℕ → Search → Option ℕ
drain nodes zero s = elim s.queue [ [] ↦ some s.visited | _ ∷ _ ↦ none ]
drain nodes (suc fuel) s = elim s.queue [
  | [] ↦ some s.visited
  | current ∷ rest ↦ drain nodes fuel (visit nodes current rest s)
]

pub start : List Str → List DagNode → Search
start keys nodes =
    let degree = in_degrees nodes (λ _. pos 0) in
    record { queue = zero_degree degree keys; visited = 0; degree = degree }

pub conclude : List DagNode → Option ℕ → Option DagError
conclude nodes none = some out_of_fuel
conclude nodes (some visited) = if visited == length nodes then none else some cycle

-- `keys` are the keys of the `inDegree` map in the order in which `range` yields them. Each name
-- is visited once, so the loop makes at most as many rounds as there are keys.
unfoldable pub validate_dag : List Str → List DagNode → Option DagError
validate_dag keys [] = none
validate_dag keys (node ∷ nodes) =
    let all = node ∷ nodes in
    elim (check_deps (names all) all) [
      | some e ↦ some e
      | none ↦ conclude all (drain all (length keys) (start keys all))
    ]
