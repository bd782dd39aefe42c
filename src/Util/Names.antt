-- ===== src/Util/Names.antt =====
-- internal/util/k8s.go: names of Kubernetes objects and of skills.
-- A Go string is taken byte by byte. A byte from 128 on belongs to a character that is not ASCII; of
-- these `strings.ToLower` turns two into ASCII, U+0130 and U+212A, which are written out by their
-- UTF-8, and no other one passes any of the tests below, in either case.
pub mod Laws
mod Tests
use roundtable.Prelude.{
  ℕ, zero, suc, ◌+◌, ◌-◌, Bool, true, false, ◌&&◌, ◌||◌, not, List, [], ◌∷◌, Str, is_empty, length,
  take, ltb, leb, ◌==◌, if◌then◌else◌,
}

is_alnum : ℕ → Bool
is_alnum c = (leb b'a' c && leb c b'z') || (leb b'0' c && leb c b'9')

is_dash : ℕ → Bool
is_dash c = c == b'-'

lower_byte : ℕ → ℕ
lower_byte c = if leb b'A' c && leb c b'Z' then c + 32 else c

to_lower : Str → Str
to_lower [] = []
to_lower (a ∷ []) = lower_byte a ∷ []
to_lower (a ∷ b ∷ []) =
    if a == 0xC4 && b == 0xB0 then b'i' ∷ [] else lower_byte a ∷ lower_byte b ∷ []
to_lower (a ∷ b ∷ c ∷ s) =
    let rest = to_lower (b ∷ c ∷ s) in
    let after_two = to_lower (c ∷ s) in
    let after_three = to_lower s in
    if a == 0xC4 && b == 0xB0
    then b'i' ∷ after_two
    else if a == 0xE2 && (b == 0x84 && c == 0xAA)
    then b'k' ∷ after_three
    else lower_byte a ∷ rest

replace_underscores : Str → Str
replace_underscores [] = []
replace_underscores (c ∷ s) =
    let rest = replace_underscores s in (if c == b'_' then b'-' else c) ∷ rest

strip : Str → Str
unfolding is_alnum is_dash
strip [] = []
strip (c ∷ s) = let rest = strip s in if is_alnum c || is_dash c then c ∷ rest else rest

trim_left : Str → Str
unfolding is_dash
trim_left [] = []
trim_left (c ∷ s) = let rest = trim_left s in if is_dash c then rest else c ∷ s

trim_right : Str → Str
unfolding is_dash
trim_right [] = []
trim_right (c ∷ s) = let rest = trim_right s in if is_empty rest && is_dash c then [] else c ∷ rest

-- The cut to `max` bytes, and the dashes that it lays bare.
shorten : ℕ → Str → Str
unfolding trim_right
shorten max s = if ltb max (length s) then trim_right (take max s) else s

unfoldable pub sanitize_k8s_name : Str → Str
unfolding lower_byte to_lower replace_underscores strip trim_left trim_right shorten
sanitize_k8s_name name =
    shorten 63 (trim_right (trim_left (strip (replace_underscores (to_lower name)))))

-- The loop of `IsValidK8sName` from index `i` on, over the rest of a name of `len` bytes.
valid_from : (i len : ℕ) → Str → Bool
unfolding is_alnum is_dash
valid_from i len [] = true
valid_from i len (c ∷ s) =
    let rest = valid_from (suc i) len s in
    if is_alnum c then rest else if is_dash c && (ltb 0 i && ltb i (len - 1)) then rest else false

unfoldable pub is_valid_k8s_name : Str → Bool
unfolding valid_from
is_valid_k8s_name name =
    if length name == 0 || ltb 63 (length name) then false else valid_from 0 (length name) name

skill_bytes : Str → Bool
unfolding is_alnum is_dash
skill_bytes [] = true
skill_bytes (c ∷ s) = let rest = skill_bytes s in if is_alnum c || is_dash c then rest else false

unfoldable pub is_valid_skill_name : Str → Bool
unfolding skill_bytes
is_valid_skill_name name =
    if length name == 0 || ltb 63 (length name) then false else skill_bytes name
