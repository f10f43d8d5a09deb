-- ===== src/Tests/Policies.antt =====
-- Host Patterns and Policy Files.
use seter.Prelude.{
  ◌≡◌, ◌≢◌, ◌↔◌, refl, true, false, List, [], ◌∷◌, In, inl, ok, err, ensure, context, with_context,
  for_each, try_fold, ◌>>=◌,
}
use seter.Prelude.Text.{Text, text}
use seter.Prelude.Ipv4.{Ipv4Addr, parse_ipv4, to_string, to_u32}
use seter.HostPatterns.{
  not_canonical_ipv4, public_suffix, single_label, validate_exact_host, validate_host_pattern,
  valid_label, rules_of, wildcard_suffix_forbidden, pattern_matches, patterns_overlap,
}
use seter.HostPatterns.Overlap.{patterns_overlap_iff}
use seter.Registry.Validate.{insert_unique}
use seter.Policy.{TcpGrant, PrivateHttpGrant, EgressPolicy}
use seter.Policy.Address.{address_in_network, private_upstream_address, prefix_mask}
use seter.Policy.Validate.{
  validate_egress, validate_patterns, validate_pattern, validate_tcp, validate_private,
}
use seter.Policy.Validate.Entries.{IsValidEgress, validate_egress-IsValid}
use seter.Policy.Validate.Disjoint.{no_shared_host, private_host_reserved}
use seter.Prelude.Text.Ascii.{lower}
use seter.Prelude.Text.Split.{lines}
use seter.Prelude.Text.Decimal.{decimal}

abbrev suffix_list : Text
suffix_list = text "// comment\ncom\n\n*.ck\n!www.ck\r\n"

abbrev rules : List Text
rules = text "com" ∷ text "*.ck" ∷ text "!www.ck" ∷ []

rules_of_test : rules_of suffix_list ≡ rules
unfolding rules_of lines
rules_of_test = refl

run : Unit {0}
unfolding validate_exact_host validate_host_pattern valid_label wildcard_suffix_forbidden
    pattern_matches patterns_overlap parse_ipv4 ensure context with_context for_each try_fold ◌>>=◌
    lower insert_unique
run = tt

host_tests :
    (validate_exact_host (text "git.example") ≡ ok tt)
    × (validate_exact_host (text "10.0.0.2") ≡ ok tt)
    × (validate_exact_host (text "10.0.0.02") ≡ err not_canonical_ipv4)
    × (validate_exact_host (text "single") ≡ err single_label)
    × (validate_host_pattern rules (text "*.example.com") ≡ ok tt)
    × (validate_host_pattern rules (text "*.com") ≡ err single_label)
    × (validate_host_pattern rules (text "*.foo.ck") ≡ err public_suffix)
    × (validate_host_pattern rules (text "*.www.ck") ≡ ok tt)
unfolding run
host_tests = (refl, refl, refl, refl, refl, refl, refl, refl)

overlap_tests :
    (patterns_overlap (text "*.example.com") (text "API.example.com") ≡ true)
    × (patterns_overlap (text "*.example.com") (text "a.b.example.com") ≡ false)
    × (patterns_overlap (text "*.example.com") (text "*.EXAMPLE.com") ≡ true)
unfolding run
overlap_tests = (refl, refl, refl)

api_valid : validate_host_pattern rules (text "api.example.com") ≡ ok tt
unfolding run
api_valid = refl

patterns_overlap_iff_example :
    (patterns_overlap (text "*.example.com") (text "api.example.com") ≡ true) ↔ (
      (host : Text) × (pattern_matches (text "*.example.com") host ≡ true)
      × (pattern_matches (text "api.example.com") host ≡ true))
patterns_overlap_iff_example =
    patterns_overlap_iff rules (text "*.example.com") (text "api.example.com") host_tests.4
      api_valid

abbrev lan_grant : PrivateHttpGrant
lan_grant = record { host = text "service.lan.example"; address = text "192.168.20.5" }

abbrev deploy_grant : TcpGrant
deploy_grant = record { host = text "deploy.example.com"; port = 2222 }

abbrev policy : EgressPolicy
policy = record {
  http_hosts = text "*.example.com" ∷ text "api.example.org" ∷ [];
  passthrough_hosts = text "tls.example.net" ∷ [];
  tcp = deploy_grant ∷ [];
  private_http = lan_grant ∷ [];
}

run_policy : Unit {0}
unfolding run validate_egress validate_patterns validate_pattern validate_tcp validate_private
    private_upstream_address address_in_network prefix_mask decimal to_string to_u32
run_policy = tt

policy_valid : validate_egress rules (text "example") policy ≡ ok tt
unfolding run_policy
policy_valid = refl

validate_egress-IsValid_example : IsValidEgress rules policy
validate_egress-IsValid_example = validate_egress-IsValid rules (text "example") policy policy_valid

no_shared_host_example : ¬ (
    (pattern_matches (text "*.example.com") (text "api.example.com") ≡ true)
    × (pattern_matches (text "tls.example.net") (text "api.example.com") ≡ true))
no_shared_host_example =
    no_shared_host rules (text "example") policy policy_valid (text "*.example.com")
      (text "tls.example.net") (text "api.example.com") (inl refl) (inl refl)

private_host_reserved_example :
    ((pattern : Text)
      → In pattern (text "*.example.com" ∷ text "api.example.org" ∷ text "tls.example.net" ∷ [])
      → pattern_matches pattern (text "service.lan.example") ≡ false)
    × ((t : TcpGrant) → In t (deploy_grant ∷ []) → t.host ≢ text "service.lan.example")
private_host_reserved_example =
    private_host_reserved rules (text "example") policy policy_valid lan_grant (inl refl)

abbrev subnet : Ipv4Addr
subnet = record { a = 10; b = 100; c = 0; d = 1 }

abbrev guest : Ipv4Addr
guest = record { a = 10; b = 100; c = 0; d = 20 }
