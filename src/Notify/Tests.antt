-- ===== src/Notify/Tests.antt =====
-- The allowlist and the delay of a notification at concrete inputs.
use roundtable.Prelude.{◌+◌, ◌*◌, ◌≤◌, ◌≡◌, ◌↔◌, true, [], ◌∷◌, bytes}
use roundtable.Notify.{second, Notifier, url_allowed, backoff}
use roundtable.Notify.Laws.{backoff_bounds, IsAllowed, url_allowed_iff}

abbrev notifier : Notifier
notifier = record { allowed_url_prefixes = [] ∷ bytes "https://hooks/" ∷ []; give_up_after = 0 }

url_allowed_iff_example :
    (url_allowed notifier (bytes "https://evil/") ≡ true)
    ↔ IsAllowed notifier.allowed_url_prefixes (bytes "https://evil/")
url_allowed_iff_example = url_allowed_iff notifier (bytes "https://evil/")

backoff_bounds_example :
    (10 * second ≤ backoff (60 * second) (2 * second))
    × (backoff (60 * second) (2 * second) ≤ 300 * second)
    × (10 * second + 2 * second ≤ 60 * second
        → 60 * second ≤ 300 * second + 2 * second
        → backoff (60 * second) (2 * second) + 2 * second ≡ 60 * second)
backoff_bounds_example = backoff_bounds (60 * second) (2 * second)
