-- ===== src/Tests/Grants.antt =====
-- Grants, the comparison of two policies and normal forms.
use seter.Prelude.{◌≡◌, ◌≢◌, ◌↔◌, refl, [], ◌∷◌, In}
use seter.Prelude.Text.{Text, text}
use seter.Policy.{EgressPolicy, PolicyFile}
use seter.Policy.Grants.{grants, remove_grant, compare_egress, tcp_text, private_text, grant_texts}
use seter.Policy.Grants.Removal.{grants-remove_grant}
use seter.Policy.Grants.Status.{compare_egress_lem}
use seter.Policy.Normalize.{normalize, normalize_egress}
use seter.Prelude.Text.Decimal.{decimal}
use seter.Prelude.Text.Ascii.{lower}

abbrev desired : EgressPolicy
desired = record {
  http_hosts = text "api.example.com" ∷ text "Git.example.com" ∷ [];
  passthrough_hosts = [];
  tcp = record { host = text "deploy.example.com"; port = 22 } ∷ [];
  private_http = [];
}

abbrev active : EgressPolicy
active = record {
  http_hosts = text "api.example.com" ∷ [];
  passthrough_hosts = text "tls.example.net" ∷ [];
  tcp = [];
  private_http = [];
}

run_grants : Unit {0}
unfolding grants remove_grant compare_egress tcp_text private_text grant_texts normalize
    normalize_egress decimal lower
run_grants = tt

grants_test :
    (grants (remove_grant desired (text "tcp deploy.example.com:22"))
      ≡ text "http Git.example.com" ∷ text "http api.example.com" ∷ [])
    × ((compare_egress desired active).revocations ≡ text "passthrough tls.example.net" ∷ [])
    × ((normalize_egress desired).http_hosts ≡ text "api.example.com" ∷ text "git.example.com" ∷ [])
unfolding run_grants
grants_test = (refl, refl, refl)

grants-remove_grant_example :
    In
      (text "http api.example.com")
      (grants (remove_grant desired (text "tcp deploy.example.com:22")))
    ↔ (In (text "http api.example.com") (grants desired)
        × (text "http api.example.com" ≢ text "tcp deploy.example.com:22"))
grants-remove_grant_example =
    grants-remove_grant desired (text "tcp deploy.example.com:22") (text "http api.example.com")

compare_egress_example :
    ((a : Text)
      → In a (compare_egress desired active).additions
        ↔ (In a (grants desired) × (¬ In a (grants active))))
    × ((a : Text)
        → In a (compare_egress desired active).revocations
          ↔ (In a (grants active) × (¬ In a (grants desired))))
    × (((compare_egress desired active).code ≡ 0)
        ↔ ((a : Text) → In a (grants desired) ↔ In a (grants active)))
compare_egress_example = compare_egress_lem desired active

abbrev file : PolicyFile
file = record { version = 1; workspaces = (text "example", record { egress = desired }) ∷ [] }
