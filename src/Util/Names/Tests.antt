-- ===== src/Util/Names/Tests.antt =====
-- Sanitized names.
use roundtable.Prelude.{◌≡◌, refl, ◌⊎◌, true, [], Str, bytes}
use roundtable.Util.Names.{
  is_alnum, is_dash, lower_byte, to_lower, replace_underscores, strip, trim_left, trim_right,
  shorten, sanitize_k8s_name, is_valid_k8s_name,
}
use roundtable.Util.Names.Laws.{is_valid_k8s_name-sanitize_k8s_name}

abbrev raw : Str
raw = bytes "_Sir_Galahad!_"

raw_sanitized : sanitize_k8s_name raw ≡ bytes "sir-galahad"
unfolding sanitize_k8s_name lower_byte to_lower replace_underscores strip is_alnum is_dash trim_left
    trim_right shorten
raw_sanitized = refl

-- The Kelvin sign becomes a letter.
kelvin_sanitized : sanitize_k8s_name (bytes "Kay") ≡ bytes "kay"
unfolding sanitize_k8s_name lower_byte to_lower replace_underscores strip is_alnum is_dash trim_left
    trim_right shorten
kelvin_sanitized = refl

is_valid_k8s_name-sanitize_k8s_name_example :
    (sanitize_k8s_name raw ≡ []) ⊎ (is_valid_k8s_name (sanitize_k8s_name raw) ≡ true)
is_valid_k8s_name-sanitize_k8s_name_example = is_valid_k8s_name-sanitize_k8s_name raw
