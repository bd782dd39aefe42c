-- ===== src/Util/Strings/Distinct.antt =====
-- Lists of distinct names, and the counting that Kahn's algorithm rests on.
use roundtable.Prelude.{
  suc, ◌≤◌, ◌<◌, ◌≡◌, ◌≢◌, ap, subst, ◌∙◌, inl, inr, List, [], ◌∷◌, ◌++◌, true, false, ◌||◌, Str,
  str_eq, str_eq_iff, str_eq_refl, length, Bool-cases, arith,
}
use roundtable.Util.Strings.{contains_string, remove_string}
use roundtable.Util.Strings.Laws.{contains_string-remove_string}

abbrev pub Distinct : List Str → Type 0
Distinct [] = Unit
Distinct (x ∷ xs) = (contains_string xs x ≡ false) × Distinct xs

abbrev pub Subset : List Str → List Str → Type 0
Subset xs ys = (n : Str) → contains_string xs n ≡ true → contains_string ys n ≡ true

pub contains_string-append :
    (xs ys : List Str) (n : Str)
    → contains_string (xs ++ ys) n ≡ (contains_string xs n || contains_string ys n)
unfolding contains_string
contains_string-append [] ys n = ground arith
contains_string-append (x ∷ xs) ys n = ground (arith, contains_string-append xs ys n)

pub Distinct-append :
    (xs ys : List Str)
    → Distinct xs
    → Distinct ys
    → ((n : Str) → contains_string xs n ≡ true → contains_string ys n ≡ false)
    → Distinct (xs ++ ys)
unfolding contains_string
Distinct-append [] ys hx hy apart = hy
Distinct-append (x ∷ xs) ys hx hy apart = (
  ground (arith, contains_string-append xs ys x, apart x, str_eq_refl x),
  Distinct-append xs ys hx.1 hy (λ n m. ground (arith, apart n)),
)

pub contains_string-cons_self : (x : Str) (xs : List Str) → contains_string (x ∷ xs) x ≡ true
unfolding contains_string
contains_string-cons_self x xs = ground (arith, str_eq_refl x)

length-remove_string-le : (ys : List Str) (x : Str) → length (remove_string ys x) ≤ length ys
unfolding remove_string
length-remove_string-le [] x = omega arith
length-remove_string-le (y ∷ ys) x = ground (arith, length-remove_string-le ys x)

length-remove_string-lt :
    (ys : List Str) (x : Str)
    → contains_string ys x ≡ true
    → length (remove_string ys x) < length ys
unfolding remove_string contains_string
length-remove_string-lt [] x h = cc
length-remove_string-lt (y ∷ ys) x h =
    ground (arith, length-remove_string-lt ys x, length-remove_string-le ys x)

-- What of `x ∷ xs` is not `x` stays when `x` is removed from a list that holds it all.
Subset-remove_string :
    (x : Str) (xs ys : List Str)
    → contains_string xs x ≡ false
    → Subset (x ∷ xs) ys
    → Subset xs (remove_string ys x)
unfolding contains_string
Subset-remove_string x xs ys new sub n m =
    let other : x ≢ n = λ e. ground (arith, ap (contains_string xs) e) in
    ground (arith, (contains_string-remove_string ys x n).1 other, sub n)

pub length-le_of_Subset : (xs ys : List Str) → Distinct xs → Subset xs ys → length xs ≤ length ys
length-le_of_Subset [] ys d sub = omega arith
length-le_of_Subset (x ∷ xs) ys d sub =
    let here = length-remove_string-lt ys x (sub x (contains_string-cons_self x xs)) in
    let rest =
      length-le_of_Subset xs (remove_string ys x) d.1 (Subset-remove_string x xs ys d.0 sub) in
    omega arith

absent_of_length :
    (ys : List Str) (x : Str)
    → length ys ≤ length (remove_string ys x)
    → contains_string ys x ≡ false
absent_of_length ys x h = elim (Bool-cases (contains_string ys x)) [
  | inl e ↦ absurd (omega (arith, length-remove_string-lt ys x e))
  | inr e ↦ e
]

remove_string_absent :
    (ys : List Str) (x : Str) → contains_string ys x ≡ false → remove_string ys x ≡ ys
unfolding remove_string contains_string
remove_string_absent [] x h = cc
remove_string_absent (y ∷ ys) x h = ground (arith, remove_string_absent ys x)

remove_string-cons_eq :
    (y : Str) (ys : List Str) (x : Str)
    → str_eq y x ≡ true
    → remove_string (y ∷ ys) x ≡ remove_string ys x
unfolding remove_string
remove_string-cons_eq y ys x e = rw e

remove_string-cons_ne :
    (y : Str) (ys : List Str) (x : Str)
    → str_eq y x ≡ false
    → remove_string (y ∷ ys) x ≡ y ∷ remove_string ys x
unfolding remove_string
remove_string-cons_ne y ys x e = rw e

Distinct-of_remove_string :
    (ys : List Str) (x : Str)
    → length ys ≤ suc (length (remove_string ys x))
    → Distinct (remove_string ys x)
    → Distinct ys
Distinct-of_remove_string [] x h d = tt
Distinct-of_remove_string (y ∷ ys) x h d = elim (Bool-cases (str_eq y x)) [
  | inl e ↦
      let same = remove_string-cons_eq y ys x e in
      let absent = absent_of_length ys x (omega (arith, ap length same)) in
      (
        rw ((str_eq_iff y x).0 e) absent,
        subst Distinct (remove_string_absent ys x absent) (subst Distinct same d),
      )
  | inr e ↦
      let other = remove_string-cons_ne y ys x e in
      let kept = subst Distinct other d in
      (
        ground (
          arith,
          kept.0,
          (contains_string-remove_string ys x y).1 (λ s. cc (str_eq_refl y, e, s)),
        ),
        Distinct-of_remove_string ys x (omega (arith, ap length other)) kept.1,
      )
]

-- Putting the removed string back.
Subset-cons : (x : Str) (xs ys : List Str) → Subset (remove_string ys x) xs → Subset ys (x ∷ xs)
unfolding contains_string
Subset-cons x xs ys sub n m = elim (Bool-cases (str_eq x n)) [
  | inl e ↦ rw e
  | inr e ↦
      rw e (sub n ((contains_string-remove_string ys x n).1 (λ s. cc (str_eq_refl x, e, s)) ∙ m))
]

-- A list as long as a list of distinct names that it holds is a rearrangement of it.
pub Distinct-of_Subset :
    (xs ys : List Str)
    → Distinct xs
    → Subset xs ys
    → length ys ≤ length xs
    → Distinct ys × Subset ys xs
Distinct-of_Subset [] [] d sub h = (tt, λ n m. m)
Distinct-of_Subset [] (y ∷ ys) d sub h = absurd (omega arith)
Distinct-of_Subset (x ∷ xs) ys d sub h =
    let here = length-remove_string-lt ys x (sub x (contains_string-cons_self x xs)) in
    let rest = Subset-remove_string x xs ys d.0 sub in
    let fits = length-le_of_Subset xs (remove_string ys x) d.1 rest in
    let (distinct, sub') = Distinct-of_Subset xs (remove_string ys x) d.1 rest (omega arith) in
    (Distinct-of_remove_string ys x (omega arith) distinct, λ n m. Subset-cons x xs ys sub' n m)
