-- ===== src/Util/Strings.antt =====
-- internal/util/strings.go
pub mod Laws
mod Tests
pub mod Distinct
use roundtable.Prelude.{
  ℕ, ◌-◌, List, [], ◌∷◌, ◌++◌, Bool, true, false, ◌&&◌, ◌||◌, Str, bytes, is_empty, str_eq, length,
  take, leb, if◌then◌else◌,
}

-- The early `return true` of the loop.
unfoldable pub contains_string : List Str → Str → Bool
contains_string [] s = false
contains_string (item ∷ slice) s = str_eq item s || contains_string slice s

unfoldable pub remove_string : List Str → Str → List Str
remove_string [] s = []
remove_string (item ∷ slice) s =
    let rest = remove_string slice s in if str_eq item s then rest else item ∷ rest

-- `strings.ToUpper` of a one-byte string: a byte from 128 on is no character by itself, and is
-- replaced by the three bytes of U+FFFD.
to_upper_byte : ℕ → Str
to_upper_byte c =
    if leb b'a' c && leb c b'z'
    then (c - 32) ∷ []
    else if leb 128 c
    then 239 ∷ 191 ∷ 189 ∷ []
    else c ∷ []

unfoldable pub capitalize : Str → Str
unfolding to_upper_byte
capitalize [] = []
capitalize (c ∷ s) = to_upper_byte c ++ s

-- `s[:maxLen]` panics for a negative length only, which a number is not.
unfoldable pub truncate : Str → ℕ → Str
truncate s max_len = if leb (length s) max_len then s else take max_len s ++ bytes "... (truncated)"
