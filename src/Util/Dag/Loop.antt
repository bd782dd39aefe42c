-- ===== src/Util/Dag/Loop.antt =====
-- The loop of Kahn's algorithm: its invariant, and that it ends within its fuel.
use roundtable.Prelude.{
  ℕ, zero, suc, ◌+◌, ◌≤◌, ◌≡◌, refl, List, [], ◌∷◌, ◌++◌, true, false, ◌&&◌, ◌||◌, Str, str_eq_iff,
  ap, sym, subst, ◌∙◌, ◌==◌, List-cases, inl, inr, arith, some, length, length-append,
}
use roundtable.Prelude.Int.{ℤ, pos, is_zero}
use roundtable.Util.Strings.{contains_string}
use roundtable.Util.Strings.Distinct.{
  Distinct, Distinct-append, contains_string-append, length-le_of_Subset, contains_string-cons_self,
}
use roundtable.Util.Dag.{DagNode, names, Search, zero_degree, in_degrees, visit, drain, start}
use roundtable.Util.Dag.Spec.{depends}
use roundtable.Util.Dag.Degrees.{
  pending, pending-cons, done_of_pending, names_of_hits, in_degrees_lem,
}
use roundtable.Util.Dag.Relax.{relax_nodes_lem}

-- Each visited name, the newest first, has all of its dependencies among those visited before it.
abbrev pub IsOrdered : List DagNode → List Str → Type 0
IsOrdered nodes [] = Unit
IsOrdered nodes (c ∷ done) =
    ((d : Str) → depends nodes c d ≡ true → contains_string done d ≡ true) × IsOrdered nodes done

-- What the documented behaviour of `range` over a map gives: each key once, in some order.
pub record IsKeys (keys : List Str) (nodes : List DagNode) : Type 0 where
  pub distinct : Distinct keys
  pub members : (n : Str) → contains_string keys n ≡ contains_string (names nodes) n

pub record Inv (keys : List Str) (nodes : List DagNode) (done : List Str) (s : Search)
    : Type 0 where
  pub degrees : (n : Str) → s.degree n ≡ pos (pending done nodes n)
  pub visited : s.visited ≡ length done
  pub done_distinct : Distinct done
  pub queue_distinct : Distinct s.queue
  pub apart : (n : Str) → (contains_string done n && contains_string s.queue n) ≡ false
  pub members :
      (n : Str)
      → (contains_string done n || contains_string s.queue n)
        ≡ (contains_string keys n && pending done nodes n == 0)
  pub ordered : IsOrdered nodes done

module _ {keys : List Str} {nodes : List DagNode} (isKeys : IsKeys keys nodes) where
  -- The queue holds the names that are ready.
  ready :
      {done : List Str} (c : Str) (rest : List Str) (s : Search)
      → s.queue ≡ c ∷ rest
      → Inv keys nodes done s
      → (pending done nodes c ≡ 0) × (contains_string done c ≡ false)
  ready {done} c rest s e inv =
      let here : contains_string s.queue c ≡ true = rw e (contains_string-cons_self c rest) in
      (ground (arith, inv.members c), ground (arith, inv.apart c))

  pub visit-Inv :
      {done : List Str} (c : Str) (rest : List Str) (s : Search)
      → s.queue ≡ c ∷ rest
      → Inv keys nodes done s
      → Inv keys nodes (c ∷ done) (visit nodes c rest s)
  unfolding visit contains_string
  visit-Inv {done} c rest s e inv =
      let (zero_left, new) = ready c rest s e inv in
      let split = λ (n : Str). pending-cons c done nodes n new in
      let s' : Search = record s { queue = rest; visited = suc s.visited } in
      let relaxed =
        relax_nodes_lem c nodes s' (pending (c ∷ done) nodes)
          (λ m. ground (arith, inv.degrees m, split m)) in
      let inside = λ (n : Str). ap (λ l. contains_string l n) e in
      let joined = λ (n : Str).
        ap (λ l. contains_string l n) relaxed.queue ∙ contains_string-append rest relaxed.fresh n in
      let head = subst Distinct e inv.queue_distinct in
      record {
        degrees = relaxed.degrees;
        visited = ground (arith, relaxed.visited, inv.visited);
        done_distinct = (new, inv.done_distinct);
        queue_distinct = subst Distinct (sym relaxed.queue) (
            Distinct-append rest relaxed.fresh head.1 relaxed.distinct
              (λ n m. ground (arith, relaxed.members n, inv.members n, split n, inside n)));
        apart = λ n. ground (
          arith,
          joined n,
          relaxed.members n,
          inv.members n,
          inv.apart n,
          split n,
          inside n,
          head.0,
          str_eq_iff c n,
          split c,
          zero_left,
        );
        members = λ n. ground (
          arith,
          joined n,
          relaxed.members n,
          inv.members n,
          split n,
          inside n,
          isKeys.members n,
          names_of_hits c nodes n,
        );
        ordered = (λ d m. done_of_pending done nodes c d zero_left m, inv.ordered);
      }

  length-done-le :
      (done : List Str) (s : Search)
      → Inv keys nodes done s
      → length done + length s.queue ≤ length keys
  length-done-le done s inv = omega (
    arith,
    length-append done s.queue,
    length-le_of_Subset (done ++ s.queue) keys
        (Distinct-append done s.queue inv.done_distinct inv.queue_distinct
          (λ n m. ground (arith, inv.apart n)))
        (λ n m. ground (arith, contains_string-append done s.queue n, inv.members n)),
  )

  -- What the loop has reached when the queue is empty.
  pub record Ended (done : List Str) : Type 0 where
    pub distinct : Distinct done
    pub members :
        (n : Str) → contains_string done n ≡ (contains_string keys n && pending done nodes n == 0)
    pub ordered : IsOrdered nodes done

  Ended-of_Inv : (done : List Str) (s : Search) → s.queue ≡ [] → Inv keys nodes done s → Ended done
  unfolding contains_string
  Ended-of_Inv done s e inv = record {
    distinct = inv.done_distinct;
    members = λ n. ground (arith, inv.members n, ap (λ l. contains_string l n) e);
    ordered = inv.ordered;
  }

  pub drain_ends :
      (fuel : ℕ) (done : List Str) (s : Search)
      → length keys ≤ fuel + length done
      → Inv keys nodes done s
      → (done' : List Str) × Ended done' × (drain nodes fuel s ≡ some (length done'))
  unfolding drain
  drain_ends zero done s h inv = elim (List-cases s.queue) [
    | inl e ↦ (done, Ended-of_Inv done s e inv, ground (arith, e, inv.visited))
    | inr (c, rest, e) ↦ absurd (omega (arith, length-done-le done s inv, ap length e))
  ]
  drain_ends (suc fuel) done s h inv = elim (List-cases s.queue) [
    | inl e ↦ (done, Ended-of_Inv done s e inv, ground (arith, e, inv.visited))
    | inr (c, rest, e) ↦
        let (done', ended, eq) =
          drain_ends fuel (c ∷ done) (visit nodes c rest s) (omega arith)
            (visit-Inv c rest s e inv) in
        (done', ended, ground (arith, e, eq))
  ]

  contains_string-zero_degree :
      (degree : Str → ℤ) (ks : List Str) (n : Str)
      → contains_string (zero_degree degree ks) n ≡ (contains_string ks n && is_zero (degree n))
  unfolding contains_string zero_degree
  contains_string-zero_degree degree [] n = refl
  contains_string-zero_degree degree (k ∷ ks) n =
      ground (arith, contains_string-zero_degree degree ks n, str_eq_iff k n)

  Distinct-zero_degree :
      (degree : Str → ℤ) (ks : List Str) → Distinct ks → Distinct (zero_degree degree ks)
  unfolding zero_degree
  Distinct-zero_degree degree [] d = tt
  Distinct-zero_degree degree (k ∷ ks) d =
      ground
        (arith, contains_string-zero_degree degree ks k, Distinct-zero_degree degree ks d.1, d.0)

  pub start-Inv : Inv keys nodes [] (start keys nodes)
  unfolding start contains_string
  start-Inv =
      let degree = in_degrees nodes (λ _. pos 0) in
      let counted = λ (n : Str). in_degrees_lem nodes (λ _. pos 0) (λ _. 0) n (λ k. refl) in
      record {
        degrees = λ n. ground (arith, counted n);
        visited = refl;
        done_distinct = tt;
        queue_distinct = Distinct-zero_degree degree keys isKeys.distinct;
        apart = λ n. refl;
        members = λ n. ground (arith, contains_string-zero_degree degree keys n, counted n);
        ordered = tt;
      }
