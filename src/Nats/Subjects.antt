-- ===== src/Nats/Subjects.antt =====
-- pkg/nats/helpers.go, and the decimal form of a number in Go's `%d`.
use roundtable.Prelude.{ℕ, zero, suc, ◌+◌, ◌/◌, ◌%◌, ltb, if◌then◌else◌, [], ◌∷◌, ◌++◌, Str, bytes}

-- A number has at most as many digits as it has units, so `n + 1` rounds are enough.
decimal_from : ℕ → ℕ → Str → Str
decimal_from zero n rest = rest
decimal_from (suc fuel) n rest =
    let digits = (48 + n % 10) ∷ rest in
    let more = decimal_from fuel (n / 10) digits in if ltb n 10 then digits else more

unfoldable pub decimal : ℕ → Str
unfolding decimal_from
decimal n = decimal_from (suc n) n []

unfoldable pub task_subject : (prefix domain knight : Str) → Str
task_subject prefix domain knight = prefix ++ bytes ".tasks." ++ domain ++ bytes "." ++ knight

unfoldable pub result_subject : (prefix task_id : Str) → Str
result_subject prefix task_id = prefix ++ bytes ".results." ++ task_id

unfoldable pub result_subject_wildcard : (prefix task_prefix : Str) → Str
result_subject_wildcard prefix task_prefix =
    prefix ++ bytes ".results." ++ task_prefix ++ bytes ".*"

unfoldable pub stream_subject : (prefix stream_type : Str) → Str
stream_subject prefix stream_type = prefix ++ bytes "." ++ stream_type ++ bytes ".>"

unfoldable pub chain_consumer_name : (chain_name step_name : Str) → Str
chain_consumer_name chain_name step_name =
    bytes "chain-poll-" ++ chain_name ++ bytes "-" ++ step_name

unfoldable pub knight_consumer_name : (knight_name : Str) → Str
knight_consumer_name knight_name = bytes "knight-" ++ knight_name
