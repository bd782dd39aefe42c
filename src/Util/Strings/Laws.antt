-- ===== src/Util/Strings/Laws.antt =====
-- Membership, removal and truncation.
use roundtable.Prelude.{
  ℕ, ◌+◌, ◌≤◌, ◌≡◌, ◌≢◌, refl, List, [], ◌∷◌, false, Str, str_eq_iff, length, take, bytes,
  length-append, length-take-le, arith,
}
use roundtable.Util.Strings.{contains_string, remove_string, truncate}

-- Removing a string takes away all of its occurrences and keeps the membership of every other
-- string.
pub contains_string-remove_string :
    (slice : List Str) (s t : Str)
    → (contains_string (remove_string slice s) s ≡ false)
      × (s ≢ t → contains_string (remove_string slice s) t ≡ contains_string slice t)
unfolding contains_string remove_string
contains_string-remove_string [] s t = (refl, λ _. refl)
contains_string-remove_string (item ∷ slice) s t =
    let (gone, kept) = contains_string-remove_string slice s t in
    (
      ground (arith, gone, str_eq_iff item s),
      λ h. ground (arith, kept h, str_eq_iff item s, str_eq_iff item t),
    )

-- A truncated string has at most `max_len` bytes and the 15 of the marker.
pub length-truncate-le : (s : Str) (max_len : ℕ) → length (truncate s max_len) ≤ max_len + 15
unfolding truncate
length-truncate-le s max_len =
    ground
      (arith, length-take-le max_len s, length-append (take max_len s) (bytes "... (truncated)"))
