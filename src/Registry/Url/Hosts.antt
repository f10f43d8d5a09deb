-- ===== src/Registry/Url/Hosts.antt =====
-- The host that `Repository::host` reads from a validated URL.
use seter.Prelude.{
  ◌≡◌, refl, ap, ◌∙◌, true, false, some, ◌∷◌, ◌++◌, all, ok, with_context-eq-ok, context-eq-ok,
  bind-eq-ok, seq-eq-ok, ensure-eq-ok, arith, is_empty,
}
use seter.Prelude.Text.{Text, text, contains_char}
use seter.Prelude.Text.Ascii.{to_ascii_lowercase}
use seter.Prelude.Text.Split.{split}
use seter.Prelude.Text.Split.Laws.{strip_prefix-append, split_once-append, split-split_once}
use seter.HostPatterns.{validate_exact_host}
use seter.HostPatterns.Labels.{validate_exact_host-lower}
use seter.Registry.{Repository}
use seter.Registry.Url.{
  host, host_of_authority, validate_repository_url, validate_parts, plain_component,
}

-- A URL over HTTPS with an exact host and an exact path.
pub record IsExactUrl (url : Text) (host : Text) : Type 0 where
  pub authority : Text
  pub path : Text
  pub parts : url ≡ text "https://" ++ (authority ++ b'/' ∷ path)
  pub host_is : host ≡ to_ascii_lowercase (host_of_authority authority)
  pub host_valid : validate_exact_host host ≡ ok tt
  pub path_nonempty : is_empty path ≡ false
  pub no_query : contains_char b'?' path ≡ false
  pub no_fragment : contains_char b'#' path ≡ false
  pub components : all plain_component (split b'/' path) ≡ true

-- If `validate_repository_url` accepts the URL of a repository, `Repository::host` gives its host
-- in lower case, which is a valid exact host, and the URL is "https://", an authority with that
-- host, a slash and a path with no query, no fragment and no empty, "." or ".." component.
pub validate_repository_url-host :
    (r : Repository) (url : Text)
    → r.url ≡ some url
    → validate_repository_url url ≡ ok tt
    → (h : Text) × (host r ≡ some h) × IsExactUrl url h
unfolding validate_repository_url validate_parts host
validate_repository_url-host r url e v =
    let (remainder, stripped, v₁) = bind-eq-ok _ _ v in
    let ((authority, path), parts, v₂) = bind-eq-ok _ _ v₁ in
    let (valid, v₃) = seq-eq-ok _ _ v₂ in
    let (shape, v₄) = seq-eq-ok _ _ v₃ in
    let (plain, v₅) = seq-eq-ok _ _ v₄ in
    let stripped' = context-eq-ok _ _ stripped in
    let parts' = context-eq-ok _ _ parts in
    let shape' = ensure-eq-ok _ _ shape in
    let plain' = ensure-eq-ok _ _ plain in
    let cut = split_once-append b'/' remainder authority path parts' in
    (
      to_ascii_lowercase (host_of_authority authority),
      rw (e, stripped', split-split_once b'/' remainder authority path parts'),
      record {
        authority = authority;
        path = path;
        parts =
            strip_prefix-append (text "https://") url remainder stripped'
            ∙ ap (λ t. text "https://" ++ t) cut;
        host_is = refl;
        host_valid =
            rw (validate_exact_host-lower (host_of_authority authority))
              (with_context-eq-ok _ _ valid);
        path_nonempty = ground (arith, shape');
        no_query = ground (arith, shape');
        no_fragment = ground (arith, shape');
        components = ground (arith, plain');
      },
    )
