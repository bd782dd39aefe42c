-- ===== src/Util/Dag/Relax.antt =====
-- One round of the loop: what relaxing every edge does to the degrees and the queue.
use roundtable.Prelude.{
  ℕ, ◌+◌, ◌≡◌, refl, List, [], ◌∷◌, ◌++◌, ◌&&◌, Str, str_eq, str_eq_iff, str_eq_refl, str_eq_comm,
  append_assoc, append-nil, ap, sym, ◌∙◌, leb, ◌==◌, if◌then◌else◌, Bool-cases, inl, inr, arith,
}
use roundtable.Prelude.Int.{pos}
use roundtable.Util.Strings.{contains_string}
use roundtable.Util.Strings.Distinct.{Distinct, Distinct-append, contains_string-append}
use roundtable.Util.Dag.{DagNode, Search, relax, relax_deps, relax_nodes}
use roundtable.Util.Dag.Degrees.{hits_deps, hits}

-- What relaxing some edges does: `h` counts the edges relaxed into each name, `r` what is left.
pub record Relaxed (s t : Search) (h r : Str → ℕ) : Type 0 where
  pub degrees : (m : Str) → t.degree m ≡ pos (r m)
  pub visited : t.visited ≡ s.visited
  pub fresh : List Str
  pub queue : t.queue ≡ s.queue ++ fresh
  pub distinct : Distinct fresh
  pub members : (m : Str) → contains_string fresh m ≡ (leb 1 (h m) && r m == 0)

Relaxed-trans :
    {s t u : Search} {h r k q : Str → ℕ}
    → Relaxed s t h r
    → Relaxed t u k q
    → ((m : Str) → r m ≡ q m + k m)
    → Relaxed s u (λ m. h m + k m) q
Relaxed-trans {s = s} a b eq = record {
  degrees = b.degrees;
  visited = b.visited ∙ a.visited;
  fresh = a.fresh ++ b.fresh;
  queue = b.queue ∙ ap (λ l. l ++ b.fresh) a.queue ∙ append_assoc s.queue a.fresh b.fresh;
  distinct =
      Distinct-append a.fresh b.fresh a.distinct b.distinct
        (λ n m. ground (arith, a.members n, b.members n, eq n));
  members =
      λ m. ground (arith, contains_string-append a.fresh b.fresh m, a.members m, b.members m, eq m);
}

hit : Str → Str → Str → Str → ℕ
hit c n dep m = if str_eq dep c then (if str_eq m n then 1 else 0) else 0

relax_lem :
    (c n dep : Str) (s : Search) (r : Str → ℕ)
    → ((m : Str) → s.degree m ≡ pos (r m + hit c n dep m))
    → Relaxed s (relax c n dep s) (hit c n dep) r
unfolding relax hit contains_string
relax_lem c n dep s r h = elim (Bool-cases (str_eq dep c)) [
  | inl e ↦ record {
    degrees = λ m. ground (arith, e, h m);
    visited = rw e;
    fresh = if r n == 0 then n ∷ [] else [];
    queue = ground (arith, e, h n, str_eq_refl n, append-nil s.queue);
    distinct = ground arith;
    members = λ m. ground (arith, e, str_eq_iff n m, str_eq_iff m n, str_eq_refl n);
  }
  | inr e ↦ record {
    degrees = λ m. ground (arith, e, h m);
    visited = rw e;
    fresh = [];
    queue = ground (arith, e, append-nil s.queue);
    distinct = tt;
    members = λ m. ground (arith, e);
  }
]

Relaxed-cast :
    {s t : Search} {h k r : Str → ℕ} → Relaxed s t h r → ((m : Str) → h m ≡ k m) → Relaxed s t k r
Relaxed-cast a eq = record {
  degrees = a.degrees;
  visited = a.visited;
  fresh = a.fresh;
  queue = a.queue;
  distinct = a.distinct;
  members = λ m. ground (arith, a.members m, eq m);
}

Relaxed-refl :
    (s : Search) (h r : Str → ℕ)
    → ((m : Str) → s.degree m ≡ pos (r m + h m))
    → ((m : Str) → h m ≡ 0)
    → Relaxed s s h r
unfolding contains_string
Relaxed-refl s h r pre none_left = record {
  degrees = λ m. ground (arith, pre m, none_left m);
  visited = refl;
  fresh = [];
  queue = sym (append-nil s.queue);
  distinct = tt;
  members = λ m. ground (arith, none_left m);
}

-- The edges of one node.
abbrev hits_node : Str → Str → List Str → Str → ℕ
hits_node c n deps m = if str_eq n m then hits_deps c deps else 0

relax_deps_lem :
    (c n : Str) (deps : List Str) (s : Search) (r : Str → ℕ)
    → ((m : Str) → s.degree m ≡ pos (r m + hits_node c n deps m))
    → Relaxed s (relax_deps c n deps s) (hits_node c n deps) r
unfolding relax_deps hits_deps hit
relax_deps_lem c n [] s r h = Relaxed-refl s _ r h (λ m. ground arith)
relax_deps_lem c n (dep ∷ deps) s r h =
    let q : Str → ℕ = λ m. r m + hits_node c n deps m in
    let one = relax_lem c n dep s q (λ m. ground (arith, h m, str_eq_comm n m)) in
    let more = relax_deps_lem c n deps (relax c n dep s) r one.degrees in
    Relaxed-cast (Relaxed-trans one more (λ m. refl)) (λ m. ground (arith, str_eq_comm n m))

pub relax_nodes_lem :
    (c : Str) (nodes : List DagNode) (s : Search) (r : Str → ℕ)
    → ((m : Str) → s.degree m ≡ pos (r m + hits c nodes m))
    → Relaxed s (relax_nodes c nodes s) (hits c nodes) r
unfolding relax_nodes hits
relax_nodes_lem c [] s r h = Relaxed-refl s _ r h (λ m. refl)
relax_nodes_lem c (node ∷ nodes) s r h =
    let q : Str → ℕ = λ m. r m + hits c nodes m in
    let one = relax_deps_lem c node.name node.depends_on s q (λ m. ground (arith, h m)) in
    let more = relax_nodes_lem c nodes (relax_deps c node.name node.depends_on s) r one.degrees in
    Relaxed-cast (Relaxed-trans one more (λ m. refl)) (λ m. ground arith)
