-- ===== src/Notify/Laws.antt =====
-- The allowlist and the retry delay.
use roundtable.Prelude.{
  ℕ, ◌+◌, ◌*◌, ◌≤◌, ◌<◌, ◌≡◌, ◌≢◌, refl, ◌↔◌, inl, inr, Bool-cases, true, false, List, [], ◌∷◌,
  ◌++◌, Str, length, take, is_empty, arith,
}
use mathlib.Core.List.{Memᴰ}
use roundtable.Notify.{
  second, output_cap, Notifier, has_prefix, matches_any, url_allowed, backoff, truncate,
  truncate_at,
}

-- The delay before a retry lies between ten seconds and five minutes, and is the time since
-- completion where that lies between them.
pub backoff_bounds :
    (now completed_at : ℕ)
    → (10 * second ≤ backoff now completed_at)
      × (backoff now completed_at ≤ 300 * second)
      × (10 * second + completed_at ≤ now
          → now ≤ 300 * second + completed_at
          → backoff now completed_at + completed_at ≡ now)
unfolding backoff
backoff_bounds now completed_at = (ground arith, ground arith, λ h k. ground arith)

has_prefix_sound :
    (s prefix : Str) → has_prefix s prefix ≡ true → (rest : Str) × (s ≡ prefix ++ rest)
unfolding has_prefix
has_prefix_sound s [] h = (s, refl)
has_prefix_sound [] (d ∷ prefix) h = cc
has_prefix_sound (c ∷ s) (d ∷ prefix) h =
    let (rest, e) = has_prefix_sound s prefix (ground arith) in (rest, ground (arith, e))

is_empty-eq : (s : Str) → is_empty s ≡ true → s ≡ []
is_empty-eq [] h = refl
is_empty-eq (c ∷ s) h = cc

has_prefix-append : (prefix rest : Str) → has_prefix (prefix ++ rest) prefix ≡ true
unfolding has_prefix
has_prefix-append [] rest = refl
has_prefix-append (d ∷ prefix) rest = ground (arith, has_prefix-append prefix rest)

-- The URL extends a prefix of the list that is not empty.
pub record IsAllowed (prefixes : List Str) (url : Str) : Type 0 where
  pub prefix : Str
  pub rest : Str
  pub listed : Memᴰ prefix prefixes
  pub not_empty : prefix ≢ []
  pub extends : url ≡ prefix ++ rest

matches_any_sound :
    (prefixes : List Str) (url : Str) → matches_any prefixes url ≡ true → IsAllowed prefixes url
unfolding matches_any
matches_any_sound [] url h = cc
matches_any_sound ([] ∷ prefixes) url h =
    let found = matches_any_sound prefixes url (ground arith) in
    record {
      prefix = found.prefix;
      rest = found.rest;
      listed = Memᴰ.tail found.listed;
      not_empty = found.not_empty;
      extends = found.extends;
    }
matches_any_sound ((d ∷ ds) ∷ prefixes) url h = elim (Bool-cases (has_prefix url (d ∷ ds))) [
  | inl e ↦
      let (rest, eq) = has_prefix_sound url (d ∷ ds) e in
      record {
        prefix = d ∷ ds;
        rest = rest;
        listed = Memᴰ.head refl;
        not_empty = λ no_bytes. cc;
        extends = eq;
      }
  | inr e ↦
      let found = matches_any_sound prefixes url (ground (arith, e)) in
      record {
        prefix = found.prefix;
        rest = found.rest;
        listed = Memᴰ.tail found.listed;
        not_empty = found.not_empty;
        extends = found.extends;
      }
]

matches_any_complete :
    (prefixes : List Str) (prefix rest : Str)
    → Memᴰ prefix prefixes
    → prefix ≢ []
    → matches_any prefixes (prefix ++ rest) ≡ true
unfolding matches_any
matches_any_complete [] prefix rest m some_byte = elim m [ ]
matches_any_complete (p ∷ prefixes) prefix rest (Memᴰ.head e) some_byte =
    ground (arith, e, has_prefix-append prefix rest, is_empty-eq prefix)
matches_any_complete (p ∷ prefixes) prefix rest (Memᴰ.tail m) some_byte =
    ground (arith, matches_any_complete prefixes prefix rest m some_byte)

-- A webhook URL is allowed exactly when it extends a listed prefix that is not empty: an empty
-- prefix allows nothing, and with no prefix every URL is refused.
pub url_allowed_iff :
    (n : Notifier) (url : Str) → (url_allowed n url ≡ true) ↔ IsAllowed n.allowed_url_prefixes url
unfolding url_allowed
url_allowed_iff n url = (
  matches_any_sound n.allowed_url_prefixes url,
  λ a.
      rw a.extends
        (matches_any_complete n.allowed_url_prefixes a.prefix a.rest a.listed a.not_empty),
)

truncate_at_lem :
    (cap : ℕ) (s : Str)
    → (length s ≤ cap → truncate_at cap s ≡ (s, false))
      × (cap < length s → ((truncate_at cap s).1 ≡ true) × ((truncate_at cap s).0 ≡ take cap s))
unfolding truncate_at
truncate_at_lem cap s = (λ h. ground arith, λ h. (ground arith, ground arith))

-- An output within the cap is kept whole and not marked; a longer one is cut to its first
-- `output_cap` bytes, and marked.
pub truncate_lem :
    (s : Str)
    → (length s ≤ output_cap → truncate s ≡ (s, false))
      × (output_cap < length s → ((truncate s).1 ≡ true) × ((truncate s).0 ≡ take output_cap s))
unfolding truncate
truncate_lem s = truncate_at_lem output_cap s
