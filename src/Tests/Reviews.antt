-- ===== src/Tests/Reviews.antt =====
-- A review of two denied observations.
use seter.Prelude.{
  ◌≡◌, refl, Option, none, some, List, [], ◌∷◌, ok, ensure, context, with_context, for_each,
  try_fold, ◌>>=◌,
}
use seter.Prelude.Text.{Text, text}
use seter.Prelude.Text.Ascii.{lower}
use seter.Prelude.Text.Decimal.{decimal, parse_unsigned, parse_digits, value_from}
use seter.Prelude.Ipv4.{parse_ipv4, to_string, to_u32}
use seter.Prelude.Map.{get, insert, contains_key}
use seter.HostPatterns.{
  validate_exact_host, validate_host_pattern, valid_label, wildcard_suffix_forbidden,
  pattern_matches, patterns_overlap,
}
use seter.Registry.Select.{workspace}
use seter.Registry.Url.{host}
use seter.Registry.Validate.{insert_unique}
use seter.Policy.{EgressPolicy, PolicyFile}
use seter.Policy.Address.{address_in_network, private_upstream_address, prefix_mask}
use seter.Policy.Normalize.{normalize, normalize_egress}
use seter.Policy.Validate.{
  validate, validate_entry, validate_against_host, validate_egress, validate_patterns,
  validate_pattern, validate_tcp, validate_private,
}
use seter.Policy.Grants.{grants, remove_grant, tcp_text, private_text, grant_texts}
use seter.Policy.Review.{
  prompt, http_hosts_of, dns_hosts_of, tcp_of, push_http, push_passthrough, push_tcp, ask_port,
  classify, ask_http, review_http, ask_dns, review_dns, ask_tcp, review_tcp, review_existing,
  review_egress, review,
}
use seter.Policy.Review.Consent.{review_egress-refused}
use seter.Audit.{AuditGroup}
use seter.Tests.Registries.{registry}

abbrev observation : Text → Option Text → AuditGroup
observation boundary method = record {
  boundary = boundary;
  decision = text "deny";
  destination = some (text "api.example.com");
  port = some 443;
  protocol = none;
  method = method;
  reason = text "not granted";
  path = none;
  count = 1;
  last_timestamp_micros = 5;
}

abbrev observations : List AuditGroup
observations = observation (text "http") (some (text "GET")) ∷ observation (text "dns") none ∷ []

abbrev granted : EgressPolicy
granted = record {
  http_hosts = text "git.example.org" ∷ [];
  passthrough_hosts = [];
  tcp = [];
  private_http = [];
}

abbrev file : PolicyFile
file = record { version = 1; workspaces = (text "minimal", record { egress = granted }) ∷ [] }

-- The observed host is added, and the grant that was there is revoked.
abbrev proposed : PolicyFile
proposed = record {
  version = 1;
  workspaces =
      (
        text "minimal",
        record {
          egress = record {
            http_hosts = text "api.example.com" ∷ [];
            passthrough_hosts = [];
            tcp = [];
            private_http = [];
          };
        },
      )
      ∷ [];
}

run_review : Unit {0}
unfolding ensure context with_context for_each try_fold ◌>>=◌ lower decimal parse_unsigned
    parse_digits value_from parse_ipv4 to_string to_u32 get insert contains_key validate_exact_host
    validate_host_pattern valid_label wildcard_suffix_forbidden pattern_matches patterns_overlap
    workspace host insert_unique address_in_network private_upstream_address prefix_mask normalize
    normalize_egress validate validate_entry validate_against_host validate_egress validate_patterns
    validate_pattern validate_tcp validate_private grants remove_grant tcp_text private_text
    grant_texts prompt http_hosts_of dns_hosts_of tcp_of push_http push_passthrough push_tcp
    ask_port classify ask_http review_http ask_dns review_dns ask_tcp review_tcp review_existing
    review_egress review
run_review = tt

reviewed :
    review [] registry
      (text "minimal")
      file
      observations
      (some (text " Y\n") ∷ some (text "y\n") ∷ [])
    ≡ ok (proposed, [])
unfolding run_review
reviewed = refl

review_egress-refused_example :
    (rest : List (Option Text)) × (review_egress observations (granted, some (text "No\n") ∷ [])
      ≡ ok (granted, rest))
unfolding lower
review_egress-refused_example =
    review_egress-refused granted observations (some (text "No\n") ∷ [])
      ((refl, refl, refl, refl), tt)

abbrev chosen : EgressPolicy
chosen = record {
  http_hosts = text "api.example.com" ∷ [];
  passthrough_hosts = [];
  tcp = [];
  private_http = [];
}

abbrev consenting : List (Option Text)
consenting = some (text " Y\n") ∷ some (text "y\n") ∷ []

chosen_egress : review_egress observations (granted, consenting) ≡ ok (chosen, [])
unfolding run_review
chosen_egress = refl
