-- ===== src/Registry/Url.antt =====
-- `validate_repository_url`, `Repository::host` and `valid_component_name`.
pub mod Hosts
use seter.Prelude.{
  ℕ, ◌≡◌, Bool, true, false, not, ◌&&◌, ◌||◌, Option, none, some, List, [], ◌∷◌, all, any, is_empty,
  eqb, Result, ok, err, ensure, context, with_context, ◌>>=◌, ◌>>◌, length,
}
use mathlib.Core.Option
use seter.Prelude.Eq.{◌==◌, nat_eq, list_eq}
use seter.Prelude.Text.{
  Text, text, strip_prefix, strip_suffix, ends_with, contains_char, contains_text, is_whitespace,
}
use seter.Prelude.Text.Ascii.{to_ascii_lowercase, is_ascii_alphanumeric}
use seter.Prelude.Text.Split.{split, split_once}
use seter.HostPatterns.{validate_exact_host, first_is}
use seter.Registry.{Repository}
use seter.Registry.Errors.{
  UrlError, not_https, no_path, ambiguous_path, encoded_path, bad_port, bad_host,
}

abbrev pub unwrap_or {ℓ} : {A : Type ℓ} → A → Option A → A
unwrap_or a none = a
unwrap_or a (some b) = b

abbrev pub component_char : ℕ → Bool
component_char c = is_ascii_alphanumeric c || (eqb c b'_' || eqb c b'.' || eqb c b'-')

unfoldable pub valid_component_name : Text → Bool
valid_component_name name = first_is is_ascii_alphanumeric name && all component_char name

abbrev pub host_of_authority : Text → Text
host_of_authority authority = unwrap_or authority (strip_suffix (text ":443") authority)

abbrev pub plain_component : Text → Bool
plain_component component =
    not (is_empty component) && not (component == text ".") && not (component == text "..")

unfoldable pub validate_parts : Text → Text → Result UrlError (Unit {0})
validate_parts authority path = do
  with_context bad_host (validate_exact_host (host_of_authority authority))
  ensure
      (not (is_empty path)
        && not (contains_char b'?' path || contains_char b'#' path)
        && not (any is_whitespace path))
      ambiguous_path
  let lower_path = to_ascii_lowercase path
  ensure
      (all plain_component (split b'/' path)
        && not (contains_text (text "%2e") lower_path)
        && not (contains_text (text "%2f") lower_path)
        && not (contains_text (text "%5c") lower_path))
      encoded_path
  ensure (not (contains_char b':' authority) || ends_with (text ":443") authority) bad_port
  ok tt

unfoldable pub validate_repository_url : Text → Result UrlError (Unit {0})
validate_repository_url url = do
  remainder ← context not_https (strip_prefix (text "https://") url)
  parts ← context no_path (split_once b'/' remainder)
  validate_parts parts.0 parts.1

abbrev pub first_part : List Text → Option Text
first_part [] = none
first_part (part ∷ parts) = some part

-- The chain of `?` in `Repository::host`.
abbrev pub host_of_remainder : Option Text → Option Text
host_of_remainder none = none
host_of_remainder (some remainder) =
    Option.map (λ authority. to_ascii_lowercase (host_of_authority authority))
      (first_part (split b'/' remainder))

abbrev pub host_of_url : Option Text → Option Text
host_of_url none = none
host_of_url (some url) = host_of_remainder (strip_prefix (text "https://") url)

unfoldable pub host : Repository → Option Text
host repository = host_of_url repository.url
