-- ===== src/Mission/Assembler/Label/Laws.antt =====
-- The labels that come out.
use roundtable.Prelude.{
  ℕ, zero, suc, ◌≤◌, ◌≡◌, refl, inl, inr, true, ◌||◌, [], ◌∷◌, Str, length, take, ltb,
  if◌then◌else◌, length-take-le, Bool-cases, All, All-if, arith, ◌==◌,
}
use roundtable.Mission.Assembler.Label.{
  is_alphanumeric, is_mark, label_bytes, trim_start, trim_end, sanitize_label_value, keep_end,
}

-- A byte that may stand in a label.
abbrev pub IsLabelByte : ℕ → Type 0
IsLabelByte c = (is_alphanumeric c || is_mark c) ≡ true

-- The first byte, if there is one, is a letter or a digit.
abbrev StartsWell : Str → Type 0
StartsWell [] = Unit
StartsWell (c ∷ s) = is_alphanumeric c ≡ true

-- The last byte, if there is one, is a letter or a digit.
abbrev EndsWell : Str → Type 0
EndsWell [] = Unit
EndsWell (c ∷ []) = is_alphanumeric c ≡ true
EndsWell (c ∷ d ∷ s) = EndsWell (d ∷ s)

label_bytes-IsLabelByte : (s : Str) → All IsLabelByte (label_bytes s)
unfolding label_bytes is_mark is_alphanumeric
label_bytes-IsLabelByte [] = tt
label_bytes-IsLabelByte (c ∷ s) =
    let rest = label_bytes-IsLabelByte s in
    All-if IsLabelByte (is_alphanumeric c || is_mark c) _ _ (λ e. (e, rest))
      (λ e.
        All-if IsLabelByte (c == b' ') (b'-' ∷ label_bytes s) (label_bytes s) (λ _. (refl, rest))
          (λ _. rest))

take-IsLabelByte : (n : ℕ) (s : Str) → All IsLabelByte s → All IsLabelByte (take n s)
take-IsLabelByte zero s h = tt
take-IsLabelByte (suc n) [] h = tt
take-IsLabelByte (suc n) (c ∷ s) h = (h.0, take-IsLabelByte n s h.1)

trim_start-IsLabelByte : (s : Str) → All IsLabelByte s → All IsLabelByte (trim_start s)
unfolding trim_start
trim_start-IsLabelByte [] h = tt
trim_start-IsLabelByte (c ∷ s) h =
    All-if IsLabelByte (is_alphanumeric c) (c ∷ s) (trim_start s) (λ e. h)
      (λ e. trim_start-IsLabelByte s h.1)

length-trim_start-le : (s : Str) → length (trim_start s) ≤ length s
unfolding trim_start
length-trim_start-le [] = omega arith
length-trim_start-le (c ∷ s) = ground (arith, length-trim_start-le s)

trim_start-StartsWell : (s : Str) → StartsWell (trim_start s)
unfolding trim_start
trim_start-StartsWell [] = tt
trim_start-StartsWell (c ∷ s) = elim (Bool-cases (is_alphanumeric c)) [
  | inl e ↦ rw e e
  | inr e ↦ rw e (trim_start-StartsWell s)
]

keep_end-EndsWell : (c : ℕ) (t : Str) → EndsWell t → EndsWell (keep_end c t)
unfolding keep_end
keep_end-EndsWell c [] h = elim (Bool-cases (is_alphanumeric c)) [
  | inl e ↦ rw e e
  | inr e ↦ rw e tt
]
keep_end-EndsWell c (d ∷ t) h = h

trim_end-EndsWell : (s : Str) → EndsWell (trim_end s)
unfolding trim_end
trim_end-EndsWell [] = tt
trim_end-EndsWell (c ∷ s) = keep_end-EndsWell c (trim_end s) (trim_end-EndsWell s)

keep_end-StartsWell : (c : ℕ) (t : Str) → is_alphanumeric c ≡ true → StartsWell (keep_end c t)
unfolding keep_end
keep_end-StartsWell c [] h = rw h h
keep_end-StartsWell c (d ∷ t) h = h

trim_end-StartsWell : (s : Str) → StartsWell s → StartsWell (trim_end s)
unfolding trim_end
trim_end-StartsWell [] h = tt
trim_end-StartsWell (c ∷ s) h = keep_end-StartsWell c (trim_end s) h

keep_end-IsLabelByte :
    (c : ℕ) (t : Str) → IsLabelByte c → All IsLabelByte t → All IsLabelByte (keep_end c t)
unfolding keep_end
keep_end-IsLabelByte c [] h k =
    All-if IsLabelByte (is_alphanumeric c) (c ∷ []) [] (λ _. (h, tt)) (λ _. tt)
keep_end-IsLabelByte c (d ∷ t) h k = (h, k)

trim_end-IsLabelByte : (s : Str) → All IsLabelByte s → All IsLabelByte (trim_end s)
unfolding trim_end
trim_end-IsLabelByte [] h = tt
trim_end-IsLabelByte (c ∷ s) h =
    keep_end-IsLabelByte c (trim_end s) h.0 (trim_end-IsLabelByte s h.1)

length-keep_end-le : (c : ℕ) (t : Str) → length (keep_end c t) ≤ suc (length t)
unfolding keep_end
length-keep_end-le c [] = ground arith
length-keep_end-le c (d ∷ t) = omega arith

length-trim_end-le : (s : Str) → length (trim_end s) ≤ length s
unfolding trim_end
length-trim_end-le [] = omega arith
length-trim_end-le (c ∷ s) = omega (arith, length-keep_end-le c (trim_end s), length-trim_end-le s)

-- At most `n` bytes are left.
abbrev cut : ℕ → Str → Str
cut n s = if ltb n (length s) then take n s else s

length-cut-le : (n : ℕ) (s : Str) → length (cut n s) ≤ n
length-cut-le n s = ground (arith, length-take-le n s)

cut-IsLabelByte : (n : ℕ) (s : Str) → All IsLabelByte s → All IsLabelByte (cut n s)
cut-IsLabelByte n s h =
    All-if IsLabelByte (ltb n (length s)) (take n s) s (λ _. take-IsLabelByte n s h) (λ _. h)

-- A valid label value of Kubernetes.
pub record IsLabelValue (s : Str) : Type 0 where
  pub short : length s ≤ 63
  pub allowed : All IsLabelByte s
  pub start : StartsWell s
  pub end : EndsWell s

-- Whatever a role says, the label made of it is a valid label value: at most 63 bytes, all of them
-- letters, digits, dashes, underscores or dots, the first and the last a letter or a digit.
pub sanitize_label_value-IsLabelValue : (s : Str) → IsLabelValue (sanitize_label_value s)
unfolding sanitize_label_value
sanitize_label_value-IsLabelValue s =
    let t = cut 63 (label_bytes s) in
    let u = trim_start t in
    let short = length-cut-le 63 (label_bytes s) in
    let bytes_ok = cut-IsLabelByte 63 (label_bytes s) (label_bytes-IsLabelByte s) in
    record {
      short = omega (arith, short, length-trim_start-le t, length-trim_end-le u);
      allowed = trim_end-IsLabelByte u (trim_start-IsLabelByte t bytes_ok);
      start = trim_end-StartsWell u (trim_start-StartsWell t);
      end = trim_end-EndsWell u;
    }
