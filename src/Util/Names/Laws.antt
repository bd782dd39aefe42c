-- ===== src/Util/Names/Laws.antt =====
-- Sanitized names and valid names of internal/util/k8s.go.
use roundtable.Prelude.{
  ℕ, zero, suc, ◌+◌, ◌≤◌, ◌<◌, ◌≡◌, refl, ◌⊎◌, inl, inr, Bool, true, ◌&&◌, ◌||◌, not, [], ◌∷◌, Str,
  is_empty, length, take, length-take-le, ltb, Bool-cases, List-cases, All, arith,
}
use roundtable.Util.Names.{
  is_alnum, is_dash, lower_byte, to_lower, replace_underscores, strip, trim_left, trim_right,
  shorten, sanitize_k8s_name, valid_from, is_valid_k8s_name, skill_bytes, is_valid_skill_name,
}

-- A byte of a name.
abbrev IsName : ℕ → Type 0
IsName c = (is_alnum c || is_dash c) ≡ true

-- The first byte, and the last one, is no dash.
starts_well : Str → Bool
starts_well [] = true
starts_well (c ∷ s) = not (is_dash c)

ends_well : Str → Bool
ends_well [] = true
ends_well (c ∷ []) = not (is_dash c)
ends_well (c ∷ d ∷ s) = ends_well (d ∷ s)

strip-IsName : (s : Str) → All IsName (strip s)
unfolding strip
strip-IsName [] = tt
strip-IsName (c ∷ s) = elim (Bool-cases (is_alnum c || is_dash c)) [
  | inl e ↦ rw e (e, strip-IsName s)
  | inr e ↦ rw e (strip-IsName s)
]

trim_left-IsName : (s : Str) → All IsName s → All IsName (trim_left s)
unfolding trim_left
trim_left-IsName [] all = tt
trim_left-IsName (c ∷ s) all = elim (Bool-cases (is_dash c)) [
  | inl e ↦ rw e (trim_left-IsName s all.1)
  | inr e ↦ rw e all
]

starts_well-trim_left : (s : Str) → starts_well (trim_left s) ≡ true
unfolding trim_left starts_well
starts_well-trim_left [] = refl
starts_well-trim_left (c ∷ s) = ground (arith, starts_well-trim_left s)

trim_right-IsName : (s : Str) → All IsName s → All IsName (trim_right s)
unfolding trim_right
trim_right-IsName [] all = tt
trim_right-IsName (c ∷ s) all = elim (Bool-cases (is_empty (trim_right s) && is_dash c)) [
  | inl e ↦ rw e tt
  | inr e ↦ rw e (all.0, trim_right-IsName s all.1)
]

starts_well-trim_right : (s : Str) → starts_well s ≡ true → starts_well (trim_right s) ≡ true
unfolding trim_right starts_well
starts_well-trim_right [] h = refl
starts_well-trim_right (c ∷ s) h = ground arith

ends_well-trim_right : (s : Str) → ends_well (trim_right s) ≡ true
unfolding trim_right ends_well
ends_well-trim_right [] = refl
ends_well-trim_right (c ∷ s) = elim (List-cases (trim_right s)) [
  | inl e ↦ ground (arith, e)
  | inr (d, t, e) ↦ ground (arith, e, ends_well-trim_right s)
]

length-trim_right-le : (s : Str) → length (trim_right s) ≤ length s
unfolding trim_right
length-trim_right-le [] = ground arith
length-trim_right-le (c ∷ s) = ground (arith, length-trim_right-le s)

take-IsName : (n : ℕ) (s : Str) → All IsName s → All IsName (take n s)
take-IsName zero s all = tt
take-IsName (suc n) [] all = tt
take-IsName (suc n) (c ∷ s) all = (all.0, take-IsName n s all.1)

starts_well-take : (n : ℕ) (s : Str) → starts_well s ≡ true → starts_well (take n s) ≡ true
unfolding starts_well
starts_well-take zero s h = refl
starts_well-take (suc n) [] h = refl
starts_well-take (suc n) (c ∷ s) h = h

valid_from_lem :
    (i len : ℕ) (s : Str)
    → i + length s ≡ len
    → All IsName s
    → ends_well s ≡ true
    → (0 < i) ⊎ (starts_well s ≡ true)
    → valid_from i len s ≡ true
unfolding valid_from starts_well ends_well
valid_from_lem i len [] e all ends begins = refl
valid_from_lem i len (c ∷ []) e all ends begins = ground (arith, all.0)
valid_from_lem i len (c ∷ d ∷ s) e all ends begins = ground (
  arith,
  all.0,
  begins,
  valid_from_lem (suc i) len (d ∷ s) (omega arith) all.1 ends (inl (omega arith)),
)

-- The shape of a name of at most `max` bytes, or of none.
record IsShaped (max : ℕ) (s : Str) : Type 0 where
  bytes_ok : All IsName s
  begins : starts_well s ≡ true
  ends : ends_well s ≡ true
  short : length s ≤ max

shorten-IsShaped :
    (max : ℕ) (s : Str)
    → All IsName s
    → starts_well s ≡ true
    → ends_well s ≡ true
    → IsShaped max (shorten max s)
unfolding shorten
shorten-IsShaped max s all begins ends = elim (Bool-cases (ltb max (length s))) [
  | inl e ↦
      let cut = take max s in
      rw e (record {
        bytes_ok = trim_right-IsName cut (take-IsName max s all);
        begins = starts_well-trim_right cut (starts_well-take max s begins);
        ends = ends_well-trim_right cut;
        short = ground (arith, length-trim_right-le cut, length-take-le max s);
      })
  | inr e ↦
      rw e (record { bytes_ok = all; begins = begins; ends = ends; short = ground (arith, e) })
]

is_valid-IsShaped : (s : Str) → IsShaped 63 s → (s ≡ []) ⊎ (is_valid_k8s_name s ≡ true)
unfolding is_valid_k8s_name
is_valid-IsShaped [] shaped = inl refl
is_valid-IsShaped (c ∷ s) shaped = inr (
    ground (
      arith,
      shaped.short,
      valid_from_lem 0 (length (c ∷ s)) (c ∷ s) (omega arith) shaped.bytes_ok shaped.ends
          (inr shaped.begins),
    ))

-- A sanitized name is empty or a valid name: never one that Kubernetes would refuse for a byte, for
-- a dash at an end or for its length.
pub is_valid_k8s_name-sanitize_k8s_name :
    (name : Str)
    → (sanitize_k8s_name name ≡ []) ⊎ (is_valid_k8s_name (sanitize_k8s_name name) ≡ true)
unfolding sanitize_k8s_name
is_valid_k8s_name-sanitize_k8s_name name =
    let clean = strip (replace_underscores (to_lower name)) in
    let left = trim_left clean in
    is_valid-IsShaped (shorten 63 (trim_right left)) (
      shorten-IsShaped 63 (trim_right left)
        (trim_right-IsName left
          (trim_left-IsName clean (strip-IsName (replace_underscores (to_lower name)))))
        (starts_well-trim_right left (starts_well-trim_left clean)) (ends_well-trim_right left))

to_lower-id : (s : Str) → All IsName s → to_lower s ≡ s
unfolding to_lower lower_byte is_alnum is_dash
to_lower-id [] all = refl
to_lower-id (a ∷ []) all = ground (arith, all.0)
to_lower-id (a ∷ b ∷ []) all = ground (arith, all.0, all.1)
to_lower-id (a ∷ b ∷ c ∷ s) all = ground (arith, all.0, to_lower-id (b ∷ c ∷ s) all.1)

replace_underscores-id : (s : Str) → All IsName s → replace_underscores s ≡ s
unfolding replace_underscores is_alnum is_dash
replace_underscores-id [] all = refl
replace_underscores-id (c ∷ s) all = ground (arith, all.0, replace_underscores-id s all.1)

strip-id : (s : Str) → All IsName s → strip s ≡ s
unfolding strip
strip-id [] all = refl
strip-id (c ∷ s) all = ground (arith, all.0, strip-id s all.1)

trim_left-id : (s : Str) → starts_well s ≡ true → trim_left s ≡ s
unfolding trim_left starts_well
trim_left-id [] h = refl
trim_left-id (c ∷ s) h = ground (arith, h)

trim_right-id : (s : Str) → ends_well s ≡ true → trim_right s ≡ s
unfolding trim_right ends_well
trim_right-id [] h = refl
trim_right-id (c ∷ []) h = ground (arith, h)
trim_right-id (c ∷ d ∷ s) h = ground (arith, trim_right-id (d ∷ s) h)

shape_of_valid_from :
    (i len : ℕ) (s : Str)
    → i + length s ≡ len
    → valid_from i len s ≡ true
    → All IsName s × (ends_well s ≡ true) × ((i ≡ 0) → starts_well s ≡ true)
unfolding valid_from starts_well ends_well
shape_of_valid_from i len [] e h = (tt, refl, λ z. refl)
shape_of_valid_from i len (c ∷ []) e h =
    ((ground (arith, h), tt), ground (arith, h, e), λ z. ground (arith, h, z))
shape_of_valid_from i len (c ∷ d ∷ s) e h =
    let (all, ends, _) =
      shape_of_valid_from (suc i) len (d ∷ s) (omega arith) (ground (arith, h)) in
    ((ground (arith, h), all), ends, λ z. ground (arith, h, z))

shorten-id : (max : ℕ) (s : Str) → length s ≤ max → shorten max s ≡ s
unfolding shorten
shorten-id max s short = ground (arith, short)

short_of_valid : (name : Str) → is_valid_k8s_name name ≡ true → length name ≤ 63
unfolding is_valid_k8s_name
short_of_valid name valid = ground (arith, valid)

from_of_valid :
    (name : Str) → is_valid_k8s_name name ≡ true → valid_from 0 (length name) name ≡ true
unfolding is_valid_k8s_name
from_of_valid name valid = ground (arith, valid)

-- A valid name is left as it is.
pub sanitize_k8s_name-id :
    (name : Str) → is_valid_k8s_name name ≡ true → sanitize_k8s_name name ≡ name
unfolding sanitize_k8s_name
sanitize_k8s_name-id name valid =
    let (all, ends, begins) =
      shape_of_valid_from 0 (length name) name (omega arith) (from_of_valid name valid) in
    rw
      (
        to_lower-id name all,
        replace_underscores-id name all,
        strip-id name all,
        trim_left-id name (begins refl),
        trim_right-id name ends,
      )
      (shorten-id 63 name (short_of_valid name valid))

skill_bytes-IsName : (s : Str) → All IsName s → skill_bytes s ≡ true
unfolding skill_bytes
skill_bytes-IsName [] h = refl
skill_bytes-IsName (c ∷ s) h = ground (arith, h.0, skill_bytes-IsName s h.1)

-- The name of an object is the name of a skill too.
pub is_valid_skill_name_of_is_valid_k8s_name :
    (name : Str) → is_valid_k8s_name name ≡ true → is_valid_skill_name name ≡ true
unfolding is_valid_k8s_name is_valid_skill_name
is_valid_skill_name_of_is_valid_k8s_name name valid =
    let (all, _, _) =
      shape_of_valid_from 0 (length name) name (omega arith) (from_of_valid name valid) in
    ground (arith, valid, skill_bytes-IsName name all)
