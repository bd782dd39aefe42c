-- ===== src/Mission/Assembler/Label.antt =====
-- `sanitizeLabelValue`.
use roundtable.Prelude.{
  ℕ, Bool, true, false, ◌&&◌, ◌||◌, List, [], ◌∷◌, Str, length, take, leb, ltb, ◌==◌, if◌then◌else◌,
}
pub mod Laws

unfoldable pub is_alphanumeric : ℕ → Bool
is_alphanumeric c = leb b'a' c && leb c b'z' || leb b'A' c && leb c b'Z' || leb b'0' c && leb c b'9'

-- A dash, an underscore or a dot.
unfoldable pub is_mark : ℕ → Bool
is_mark c = c == b'-' || c == b'_' || c == b'.'

-- The bytes that may stand, with a dash for a space.
unfoldable pub label_bytes : Str → Str
unfolding is_alphanumeric is_mark
label_bytes [] = []
label_bytes (c ∷ s) =
    let rest = label_bytes s in
    if is_alphanumeric c || is_mark c then c ∷ rest else if c == b' ' then b'-' ∷ rest else rest

unfoldable pub trim_start : Str → Str
unfolding is_alphanumeric
trim_start [] = []
trim_start (c ∷ s) = let rest = trim_start s in if is_alphanumeric c then c ∷ s else rest

-- A byte before what is left of the rest.
unfoldable pub keep_end : ℕ → Str → Str
unfolding is_alphanumeric
keep_end c [] = if is_alphanumeric c then c ∷ [] else []
keep_end c (d ∷ s) = c ∷ d ∷ s

-- The loop drops the last byte while it is no letter or digit.
unfoldable pub trim_end : Str → Str
unfolding keep_end
trim_end [] = []
trim_end (c ∷ s) = keep_end c (trim_end s)

unfoldable pub sanitize_label_value : Str → Str
unfolding label_bytes trim_start trim_end
sanitize_label_value s =
    let result = label_bytes s in
    trim_end (trim_start (if ltb 63 (length result) then take 63 result else result))
