-- ===== src/Util/Dag/Spec.antt =====
-- What a valid dependency graph is, independently of how the code looks for one.
use roundtable.Prelude.{ℕ, ◌<◌, ◌≡◌, List, [], ◌∷◌, Bool, true, false, ◌&&◌, ◌||◌, Str, str_eq}
use roundtable.Util.Strings.{contains_string}
use roundtable.Util.Strings.Distinct.{Distinct}
use roundtable.Util.Dag.{DagNode, names}

-- Some node named `n` lists `d` as a dependency.
unfoldable pub depends : List DagNode → Str → Str → Bool
depends [] n d = false
depends (node ∷ nodes) n d =
    (str_eq node.name n && contains_string node.depends_on d) || depends nodes n d

-- The names are distinct, every dependency is a name, and a rank puts each dependency below the
-- node that lists it: there is no cycle.
pub record IsDag (nodes : List DagNode) : Type 0 where
  pub distinct : Distinct (names nodes)
  pub known : (n d : Str) → depends nodes n d ≡ true → contains_string (names nodes) d ≡ true
  pub rank : Str → ℕ
  pub ranked : (n d : Str) → depends nodes n d ≡ true → rank d < rank n
