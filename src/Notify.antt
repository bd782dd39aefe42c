-- ===== src/Notify.antt =====
-- internal/notify/notify.go: the payload of a completion webhook, the allowlist of its URL, and the
-- retry window. Times are in nanoseconds.
use roundtable.Prelude.{
  ℕ, zero, suc, ◌+◌, ◌-◌, ◌*◌, Bool, true, false, ◌&&◌, ◌||◌, not, List, [], ◌∷◌, ◌++◌, Option,
  none, some, Str, bytes, is_empty, length, take, ltb, leb, ◌==◌, if◌then◌else◌,
}
pub mod Laws
mod Tests

abbrev pub second : ℕ
second = 1000000000

abbrev pub schema_v1 : Str
schema_v1 = bytes "roundtable.notify/v1"

abbrev pub output_cap : ℕ
output_cap = 8 * 1024

abbrev pub default_give_up_after : ℕ
default_give_up_after = 900 * second

pub record StepSummary : Type 0 where
  pub name : Str
  pub knight : Str
  pub phase : Str

pub record NatsKvRef : Type 0 where
  pub bucket : Str
  pub key : Str

pub record OutputRef : Type 0 where
  pub nats_kv : Option NatsKvRef

pub record Payload : Type 0 where
  pub schema : Str
  pub kind : Str
  pub name : Str
  pub namespace : Str
  pub uid : Str
  pub phase : Str
  pub round_table_ref : Str
  pub started_at : Option ℕ
  pub finished_at : Option ℕ
  pub steps : List StepSummary
  pub output : Str
  pub truncated : Bool
  pub output_ref : Option OutputRef
  pub context : List (Str × Str)
  pub idempotency_key : Str

pub record Notifier : Type 0 where
  pub allowed_url_prefixes : List Str
  pub give_up_after : ℕ

unfoldable pub new_notifier : List Str → Notifier
new_notifier prefixes = record {
  allowed_url_prefixes = prefixes;
  give_up_after = default_give_up_after;
}

-- strings.HasPrefix
unfoldable pub has_prefix : (s prefix : Str) → Bool
has_prefix s [] = true
has_prefix [] (d ∷ prefix) = false
has_prefix (c ∷ s) (d ∷ prefix) = c == d && has_prefix s prefix

matches_any : List Str → (url : Str) → Bool
matches_any [] url = false
matches_any (prefix ∷ prefixes) url =
    (not (is_empty prefix) && has_prefix url prefix) || matches_any prefixes url

unfoldable pub url_allowed : Notifier → (url : Str) → Bool
unfolding matches_any
url_allowed n url = matches_any n.allowed_url_prefixes url

-- `GiveUpAfter`, where 0 stands for the default.
unfoldable pub give_up : Notifier → ℕ
give_up n = if n.give_up_after == 0 then default_give_up_after else n.give_up_after

unfoldable pub expired : (now : ℕ) → Notifier → (completed_at : ℕ) → Bool
unfolding give_up
expired now n completed_at = ltb (completed_at + give_up n) now

-- `time.Since` of a time to come is negative, so below the floor, as 0 is.
unfoldable pub backoff : (now completed_at : ℕ) → ℕ
backoff now completed_at =
    let elapsed = now - completed_at in
    if ltb elapsed (10 * second)
    then 10 * second
    else if ltb (300 * second) elapsed
    then 300 * second
    else elapsed

unfoldable pub truncate_at : ℕ → Str → Str × Bool
truncate_at cap s = if leb (length s) cap then (s, false) else (take cap s, true)

unfoldable pub truncate : Str → Str × Bool
truncate s = truncate_at output_cap s

-- What the HTTP client answers: an error of any stage up to the response, or a status code and line.
pub data HttpAnswer : Type 0 where
  request_failed : Str → HttpAnswer
  response : (code : ℕ) (status : Str) → HttpAnswer

-- `Deliver`: any code outside 200 to 299 is an error.
unfoldable pub delivery_error : HttpAnswer → Option Str
delivery_error (request_failed e) = some e
delivery_error (response code status) =
    if ltb code 200 || leb 300 code
    then some (bytes "notification endpoint returned " ++ status)
    else none
