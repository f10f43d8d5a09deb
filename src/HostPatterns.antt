-- ===== src/HostPatterns.antt =====
-- Exact hosts and Host Patterns with a single leading wildcard label
-- (crates/seter-cli/src/host_patterns.rs). The Public Suffix List, a data file that the build
-- includes, is the parameter `public_suffix_list`; its parsing into rules is modelled.
pub mod Labels
pub mod Overlap
use seter.Prelude.{
  ℕ, ◌+◌, ◌≡◌, Bool, true, false, not, ◌&&◌, ◌||◌, Option, none, some, List, [], ◌∷◌, ◌++◌, all,
  any, contains, is_empty, length, leb, ltb, eqb, if◌then◌else◌, Result, ok, err, ensure, context,
  is_ok, for_each, ◌>>=◌, ◌>>◌, retain, map,
}
use seter.Prelude.Eq.{◌==◌, nat_eq, list_eq}
use seter.Prelude.Text.{
  Text, text, byte_len, strip_prefix, starts_with, ends_with, contains_char, trim,
}
use seter.Prelude.Text.Ascii.{
  is_ascii_digit, is_ascii_alphanumeric, to_ascii_lowercase, eq_ignore_ascii_case,
}
use seter.Prelude.Text.Split.{split, split_once, lines}
use seter.Prelude.Ipv4.{parse_ipv4}

pub data HostError : Type 0 where
  pattern_too_long wildcard_address public_suffix stray_wildcard : HostError
  not_canonical_ipv4 not_dns_name single_label invalid_label : HostError

abbrev pub is_some {ℓ} : {A : Type ℓ} → Option A → Bool
is_some none = false
is_some (some a) = true

abbrev pub digit_or_dot : ℕ → Bool
digit_or_dot b = is_ascii_digit b || eqb b b'.'

abbrev pub label_char : ℕ → Bool
label_char b = is_ascii_alphanumeric b || eqb b b'-'

abbrev pub first_is : (ℕ → Bool) → Text → Bool
first_is p [] = false
first_is p (c ∷ s) = p c

abbrev pub last_is : (ℕ → Bool) → Text → Bool
last_is p [] = false
last_is p (c ∷ []) = p c
last_is p (c ∷ d ∷ s) = last_is p (d ∷ s)

-- The condition on a label in `validate_exact_host`.
unfoldable pub valid_label : Text → Bool
valid_label label =
    not (is_empty label)
    && leb (byte_len label) 63
    && first_is is_ascii_alphanumeric label
    && last_is is_ascii_alphanumeric label
    && all label_char label

unfoldable pub validate_exact_host : Text → Result HostError (Unit {0})
validate_exact_host host =
    if all digit_or_dot host
    then (do address ← context not_canonical_ipv4 (parse_ipv4 host); ok tt)
    else do
      ensure (not (is_empty host) && leb (byte_len host) 253 && not (ends_with (text ".") host))
          not_dns_name
      ensure (contains_char b'.' host) single_label
      for_each (split b'.' host) (λ label. ensure (valid_label label) invalid_label)

-- `PUBLIC_SUFFIX_LIST.lines().map(str::trim).filter(…).collect()`
abbrev pub is_rule : Text → Bool
is_rule line = not (is_empty line) && not (starts_with (text "//") line)

unfoldable pub rules_of : Text → List Text
rules_of list = retain is_rule (map trim (lines list))

abbrev pub parent_rule : List Text → Option (Text × Text) → Bool
parent_rule rules none = false
parent_rule rules (some (first, parent)) = contains rules (text "*." ++ parent)

unfoldable pub wildcard_suffix_forbidden : List Text → Text → Bool
wildcard_suffix_forbidden rules suffix =
    let labels = split b'.' suffix in
    if ltb (length labels) 2 || any (starts_with (text "xn--")) labels
    then true
    else if contains rules (text "!" ++ suffix)
    then false
    else contains rules suffix
      || contains rules (text "*." ++ suffix)
      || parent_rule rules (split_once b'.' suffix)

-- The two ways through `validate_host_pattern`, by the text behind a leading "*.".
abbrev pub validate_wildcard : List Text → Text → Result HostError (Unit {0})
validate_wildcard rules suffix = do
  validate_exact_host suffix
  ensure (not (is_some (parse_ipv4 suffix))) wildcard_address
  ensure (not (wildcard_suffix_forbidden rules suffix)) public_suffix
  ok tt

abbrev pub validate_plain : Text → Result HostError (Unit {0})
validate_plain pattern = do
  ensure (not (contains_char b'*' pattern)) stray_wildcard
  validate_exact_host pattern

abbrev pub validate_by_prefix : List Text → Text → Option Text → Result HostError (Unit {0})
validate_by_prefix rules pattern none = validate_plain pattern
validate_by_prefix rules pattern (some suffix) = validate_wildcard rules suffix

unfoldable pub validate_host_pattern : List Text → Text → Result HostError (Unit {0})
validate_host_pattern rules pattern = do
  let normalized = to_ascii_lowercase pattern
  ensure (leb (byte_len normalized) 253) pattern_too_long
  validate_by_prefix rules normalized (strip_prefix (text "*.") normalized)

abbrev pub rest_is : Text → Option (Text × Text) → Bool
rest_is suffix none = false
rest_is suffix (some (first, remainder)) = not (is_empty first) && remainder == suffix

abbrev pub wildcard_covers : Option Text → Text → Bool
wildcard_covers none host = false
wildcard_covers (some suffix) host = rest_is suffix (split_once b'.' host)

-- `pattern_matches` on a valid host.
abbrev pub covers : Text → Text → Bool
covers pattern host = pattern == host || wildcard_covers (strip_prefix (text "*.") pattern) host

unfoldable pub pattern_matches : Text → Text → Bool
pattern_matches pattern host =
    if not (is_ok (validate_exact_host host))
    then false
    else covers (to_ascii_lowercase pattern) (to_ascii_lowercase host)

unfoldable pub patterns_overlap : Text → Text → Bool
patterns_overlap left right =
    eq_ignore_ascii_case left right || pattern_matches left right || pattern_matches right left
