-- ===== src/Util/Dag/Order.antt =====
-- The order in which the loop visits the names ranks each dependency below its node.
use roundtable.Prelude.{
  ℕ, suc, ◌≤◌, ◌<◌, ◌≡◌, refl, List, [], ◌∷◌, true, false, Str, str_eq, str_eq_iff, if◌then◌else◌,
  Bool-cases, inl, inr, arith, length,
}
use roundtable.Util.Strings.{contains_string}
use roundtable.Util.Strings.Distinct.{Distinct}
use roundtable.Util.Dag.{DagNode}
use roundtable.Util.Dag.Spec.{depends}
use roundtable.Util.Dag.Loop.{IsOrdered}

-- The position from the end at which a name was visited: 0 for a name that was not.
pub position : List Str → Str → ℕ
position [] n = 0
position (c ∷ done) n = let rest = position done n in if str_eq c n then suc (length done) else rest

position-le : (done : List Str) (n : Str) → position done n ≤ length done
unfolding position
position-le [] n = omega arith
position-le (c ∷ done) n = ground (arith, position-le done n)

position-pos : (done : List Str) (n : Str) → contains_string done n ≡ true → 0 < position done n
unfolding position contains_string
position-pos [] n h = cc
position-pos (c ∷ done) n h = ground (arith, position-pos done n)

position-absent : (done : List Str) (n : Str) → contains_string done n ≡ false → position done n ≡ 0
unfolding position contains_string
position-absent [] n h = refl
position-absent (c ∷ done) n h = ground (arith, position-absent done n)

closed :
    (nodes : List DagNode) (done : List Str) (n d : Str)
    → IsOrdered nodes done
    → contains_string done n ≡ true
    → depends nodes n d ≡ true
    → contains_string done d ≡ true
unfolding contains_string
closed nodes [] n d ord m dep = cc
closed nodes (c ∷ done) n d ord m dep = elim (Bool-cases (str_eq c n)) [
  | inl e ↦ ground (arith, ord.0 d (rw ((str_eq_iff c n).0 e) dep))
  | inr e ↦ ground (arith, closed nodes done n d ord.1 (rw (e, contains_string) at m) dep)
]

pub position-lt :
    (nodes : List DagNode) (done : List Str) (n d : Str)
    → Distinct done
    → IsOrdered nodes done
    → contains_string done n ≡ true
    → depends nodes n d ≡ true
    → position done d < position done n
unfolding position contains_string
position-lt nodes [] n d dist ord m dep = cc
position-lt nodes (c ∷ done) n d dist ord m dep = elim (Bool-cases (str_eq c n)) [
  | inl e ↦
      let below = ord.0 d (rw ((str_eq_iff c n).0 e) dep) in
      ground (arith, below, str_eq_iff c d, position-le done d, dist.0)
  | inr e ↦
      let m' : contains_string done n ≡ true = ground (arith, m) in
      let below = closed nodes done n d ord.1 m' dep in
      ground (arith, below, str_eq_iff c d, position-lt nodes done n d dist.1 ord.1 m' dep, dist.0)
]
