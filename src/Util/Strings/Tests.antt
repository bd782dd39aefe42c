-- ===== src/Util/Strings/Tests.antt =====
-- Removal and truncation at concrete strings.
use roundtable.Prelude.{◌≡◌, ◌≢◌, List, [], ◌∷◌, false, Str, bytes}
use roundtable.Util.Strings.{contains_string, remove_string}
use roundtable.Util.Strings.Laws.{contains_string-remove_string}

abbrev finalizers : List Str
finalizers = bytes "a" ∷ bytes "b" ∷ bytes "a" ∷ []

contains_string-remove_string_example :
    (contains_string (remove_string finalizers (bytes "a")) (bytes "a") ≡ false)
    × (bytes "a" ≢ bytes "b"
        → contains_string (remove_string finalizers (bytes "a")) (bytes "b")
          ≡ contains_string finalizers (bytes "b"))
contains_string-remove_string_example =
    contains_string-remove_string finalizers (bytes "a") (bytes "b")
