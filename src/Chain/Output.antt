-- ===== src/Chain/Output.antt =====
-- Step outputs: which carry no content, and how they are cut for the status.
use roundtable.Prelude.{
  ℕ, zero, suc, Bool, true, false, ◌&&◌, ◌||◌, List, [], ◌∷◌, ◌++◌, Option, none, some, Str, bytes,
  is_empty, str_eq, length, take, ltb, leb, ◌==◌, if◌then◌else◌,
}
use mathlib.Core.List.{reverse}

-- unicode.IsSpace on the UTF-8 of one character: of one byte, two bytes or three.
is_space : ℕ → Bool
is_space a = (leb 9 a && leb a 13) || a == 32

is_space2 : ℕ → ℕ → Bool
is_space2 a b = a == 0xC2 && (b == 0x85 || b == 0xA0)

is_space3 : ℕ → ℕ → ℕ → Bool
is_space3 a b c =
    (a == 0xE1 && b == 0x9A && c == 0x80)
    || (a == 0xE2 && b == 0x80 && (leb 0x80 c && leb c 0x8A || c == 0xA8 || c == 0xA9 || c == 0xAF))
    || (a == 0xE2 && b == 0x81 && c == 0x9F)
    || (a == 0xE3 && b == 0x80 && c == 0x80)

-- What follows a leading space, if there is one.
drop_space : Str → Option Str
unfolding is_space is_space2 is_space3
drop_space [] = none
drop_space (a ∷ []) = if is_space a then some [] else none
drop_space (a ∷ b ∷ []) =
    if is_space a then some (b ∷ []) else if is_space2 a b then some [] else none
drop_space (a ∷ b ∷ c ∷ s) =
    if is_space a
    then some (b ∷ c ∷ s)
    else if is_space2 a b
    then some (c ∷ s)
    else if is_space3 a b c
    then some s
    else none

-- The same from the end, on the reversed bytes.
drop_last_space : Str → Option Str
unfolding is_space is_space2 is_space3
drop_last_space [] = none
drop_last_space (a ∷ []) = if is_space a then some [] else none
drop_last_space (b ∷ a ∷ []) =
    if is_space b then some (a ∷ []) else if is_space2 a b then some [] else none
drop_last_space (c ∷ b ∷ a ∷ s) =
    if is_space c
    then some (b ∷ a ∷ s)
    else if is_space2 b c
    then some (a ∷ s)
    else if is_space3 a b c
    then some s
    else none

-- Each round drops a byte at least, so the length is fuel enough.
drop_all : (Str → Option Str) → ℕ → Str → Str
drop_all drop zero s = s
drop_all drop (suc fuel) s = elim (drop s) [ none ↦ s | some rest ↦ drop_all drop fuel rest ]

unfoldable pub trim_space : Str → Str
unfolding drop_all drop_space drop_last_space
trim_space s =
    let left = drop_all drop_space (length s) s in
    reverse (drop_all drop_last_space (length left) (reverse left))

abbrev pub empty_output_sentinels : List Str
empty_output_sentinels = bytes "[No output from agent]" ∷ []

is_sentinel : Str → List Str → Bool
is_sentinel trimmed [] = false
is_sentinel trimmed (sentinel ∷ sentinels) =
    let rest = is_sentinel trimmed sentinels in if str_eq trimmed sentinel then true else rest

unfoldable pub is_empty_step_output : Str → Bool
unfolding trim_space is_sentinel
is_empty_step_output output =
    let trimmed = trim_space output in
    if is_empty trimmed then true else is_sentinel trimmed empty_output_sentinels

abbrev pub max_status_output : ℕ
max_status_output = 4000

pub truncation_note : (chain step : Str) → Str
truncation_note chain step =
    bytes "\n\n... [truncated — full output in NATS KV bucket 'chain-outputs', key '"
    ++ chain
    ++ bytes "."
    ++ step
    ++ bytes "']"

unfoldable pub cut_output : (cap : ℕ) → (chain step output : Str) → Str
cut_output cap chain step output =
    if ltb cap (length output) then take cap output ++ truncation_note chain step else output

-- The cut of an output for the status, at a byte.
unfoldable pub status_output : (chain step output : Str) → Str
unfolding cut_output truncation_note
status_output chain step output = cut_output max_status_output chain step output
