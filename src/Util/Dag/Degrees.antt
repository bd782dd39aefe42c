-- ===== src/Util/Dag/Degrees.antt =====
-- In-degrees count the dependencies that have not left the queue.
use roundtable.Prelude.{
  ℕ, suc, ◌+◌, ◌≡◌, refl, List, [], ◌∷◌, true, false, Str, str_eq, str_eq_iff, str_eq_refl, ap,
  if◌then◌else◌, Bool-cases, inl, inr, arith,
}
use roundtable.Prelude.Int.{pos, increment}
use roundtable.Util.Strings.{contains_string}
use roundtable.Util.Dag.{DagNode, names, Degrees, update, count_deps, in_degrees}
use roundtable.Util.Dag.Spec.{depends}

-- The dependencies of nodes named `n` that are not in `done`, with multiplicity.
pending_deps : List Str → List Str → ℕ
pending_deps done [] = 0
pending_deps done (dep ∷ deps) =
    let rest = pending_deps done deps in if contains_string done dep then rest else suc rest

pub pending : List Str → List DagNode → Str → ℕ
unfolding pending_deps
pending done [] n = 0
pending done (node ∷ nodes) n =
    let rest = pending done nodes n in
    if str_eq node.name n then pending_deps done node.depends_on + rest else rest

-- The dependencies of nodes named `n` that are `c`.
unfoldable pub hits_deps : Str → List Str → ℕ
hits_deps c [] = 0
hits_deps c (dep ∷ deps) = let rest = hits_deps c deps in if str_eq dep c then suc rest else rest

unfoldable pub hits : Str → List DagNode → Str → ℕ
unfolding hits_deps
hits c [] n = 0
hits c (node ∷ nodes) n =
    let rest = hits c nodes n in
    if str_eq node.name n then hits_deps c node.depends_on + rest else rest

contains_string_congr :
    (done : List Str) (c d : Str)
    → str_eq c d ≡ true
    → contains_string done c ≡ contains_string done d
contains_string_congr done c d e = ap (contains_string done) ((str_eq_iff c d).0 e)

pending_deps-cons :
    (c : Str) (done deps : List Str)
    → contains_string done c ≡ false
    → pending_deps done deps ≡ pending_deps (c ∷ done) deps + hits_deps c deps
unfolding pending_deps hits_deps contains_string
pending_deps-cons c done [] new = omega arith
pending_deps-cons c done (dep ∷ deps) new = ground (
  arith,
  pending_deps-cons c done deps new,
  str_eq_iff c dep,
  str_eq_iff dep c,
  contains_string_congr done c dep,
)

pub pending-cons :
    (c : Str) (done : List Str) (nodes : List DagNode) (n : Str)
    → contains_string done c ≡ false
    → pending done nodes n ≡ pending (c ∷ done) nodes n + hits c nodes n
unfolding pending hits
pending-cons c done [] n new = omega arith
pending-cons c done (node ∷ nodes) n new =
    ground (arith, pending_deps-cons c done node.depends_on new, pending-cons c done nodes n new)

depends_of_pending_deps :
    (done deps : List Str) (d : Str)
    → pending_deps done deps ≡ 0
    → contains_string deps d ≡ true
    → contains_string done d ≡ true
unfolding pending_deps contains_string
depends_of_pending_deps done [] d h m = cc
depends_of_pending_deps done (dep ∷ deps) d h m =
    ground (arith, depends_of_pending_deps done deps d, str_eq_iff dep d)

-- With no pending dependency left, all dependencies are done.
pub done_of_pending :
    (done : List Str) (nodes : List DagNode) (n d : Str)
    → pending done nodes n ≡ 0
    → depends nodes n d ≡ true
    → contains_string done d ≡ true
unfolding pending depends
done_of_pending done [] n d h m = cc
done_of_pending done (node ∷ nodes) n d h m =
    ground (arith, depends_of_pending_deps done node.depends_on d, done_of_pending done nodes n d)

pub names_of_hits :
    (c : Str) (nodes : List DagNode) (n : Str)
    → contains_string (names nodes) n ≡ false
    → hits c nodes n ≡ 0
unfolding hits contains_string
names_of_hits c [] n h = refl
names_of_hits c (node ∷ nodes) n h = ground (arith, names_of_hits c nodes n)

count_deps_lem :
    (n : Str) (deps : List Str) (degree : Degrees) (a : Str → ℕ) (m : Str)
    → ((k : Str) → degree k ≡ pos (a k))
    → count_deps n deps degree m ≡ pos (a m + (if str_eq n m then pending_deps [] deps else 0))
unfolding count_deps pending_deps contains_string
count_deps_lem n [] degree a m h = ground (arith, h m)
count_deps_lem n (dep ∷ deps) degree a m h = ground (
  arith,
  str_eq_iff n m,
  str_eq_iff m n,
  count_deps_lem n deps (update degree n increment) (λ k. if str_eq k n then suc (a k) else a k) m
      (λ k. ground (arith, h k)),
)

pub in_degrees_lem :
    (nodes : List DagNode) (degree : Degrees) (a : Str → ℕ) (m : Str)
    → ((k : Str) → degree k ≡ pos (a k))
    → in_degrees nodes degree m ≡ pos (a m + pending [] nodes m)
unfolding in_degrees pending
in_degrees_lem [] degree a m h = ground (arith, h m)
in_degrees_lem (node ∷ nodes) degree a m h = ground (
  arith,
  in_degrees_lem nodes (count_deps node.name node.depends_on degree)
      (λ k. a k + (if str_eq node.name k then pending_deps [] node.depends_on else 0)) m
      (λ k. count_deps_lem node.name node.depends_on degree a k h),
)

pending_deps_of_done :
    (done deps : List Str)
    → ((d : Str) → contains_string deps d ≡ true → contains_string done d ≡ true)
    → pending_deps done deps ≡ 0
unfolding pending_deps contains_string
pending_deps_of_done done [] h = refl
pending_deps_of_done done (dep ∷ deps) h =
    ground (
      arith,
      h dep,
      str_eq_refl dep,
      pending_deps_of_done done deps (λ d m. h d (ground (arith, m))),
    )

pub pending_of_done :
    (done : List Str) (nodes : List DagNode) (n : Str)
    → ((d : Str) → depends nodes n d ≡ true → contains_string done d ≡ true)
    → pending done nodes n ≡ 0
unfolding pending depends
pending_of_done done [] n h = refl
pending_of_done done (node ∷ nodes) n h =
    let rest = pending_of_done done nodes n (λ d m. h d (ground (arith, m))) in
    elim (Bool-cases (str_eq node.name n)) [
      | inl e ↦
          let here =
            pending_deps_of_done done node.depends_on (λ d m. h d (ground (arith, m, e))) in
          ground (arith, e, here, rest)
      | inr e ↦ ground (arith, e, rest)
    ]

pub name_of_depends :
    (nodes : List DagNode) (n d : Str)
    → depends nodes n d ≡ true
    → contains_string (names nodes) n ≡ true
unfolding depends contains_string
name_of_depends [] n d h = cc
name_of_depends (node ∷ nodes) n d h = ground (arith, name_of_depends nodes n d)
