-- ===== src/Policy/Grants.antt =====
-- `grants`, `remove_grant` and the comparison that `policy::status` prints.
pub mod Removal
pub mod Status
use seter.Prelude.{
  ℕ, Bool, true, false, not, ◌&&◌, Option, none, some, List, [], ◌∷◌, ◌++◌, retain, is_empty, map,
  Result, ok, err, with_context, ◌>>=◌, ◌>>◌, if◌then◌else◌,
}
use seter.Prelude.Eq.{◌==◌, nat_eq, list_eq}
use seter.Prelude.Text.{Text, text, strip_prefix}
use seter.Prelude.Text.Decimal.{decimal}
use seter.Prelude.Map.{Map, get}
use seter.Prelude.Order.{collect, difference}
use seter.Registry.{Registry}
use seter.Registry.Errors.{RegistryError}
use seter.Registry.Select.{workspace}
use seter.Policy.{TcpGrant, PrivateHttpGrant, EgressPolicy, WorkspacePolicy, PolicyFile, no_egress}
use seter.Policy.Normalize.{normalize}
use seter.Policy.Validate.{PolicyError, validate, load}

-- `format!("{}:{}", …)` and `format!("{}={}", …)`
unfoldable pub tcp_text : TcpGrant → Text
tcp_text g = g.host ++ (b':' ∷ decimal g.port)

unfoldable pub private_text : PrivateHttpGrant → Text
private_text g = g.host ++ (b'=' ∷ g.address)

-- The iterator that `grants` collects.
unfoldable pub grant_texts : EgressPolicy → List Text
grant_texts p =
    map (λ host. text "http " ++ host) p.http_hosts
    ++ (map (λ host. text "passthrough " ++ host) p.passthrough_hosts
        ++ (map (λ g. text "tcp " ++ tcp_text g) p.tcp
            ++ map (λ g. text "private-http " ++ private_text g) p.private_http))

unfoldable pub grants : EgressPolicy → List Text
grants p = collect (grant_texts p)

-- The ladder of `strip_prefix` in `remove_grant`.
abbrev pub remove_private : EgressPolicy → Option Text → EgressPolicy
remove_private p none = p
remove_private p (some destination) = record p {
  private_http = retain (λ g. not (private_text g == destination)) p.private_http;
}

abbrev pub remove_tcp : EgressPolicy → Option Text → EgressPolicy → EgressPolicy
remove_tcp p none other = other
remove_tcp p (some destination) other = record p {
  tcp = retain (λ g. not (tcp_text g == destination)) p.tcp;
}

abbrev pub remove_passthrough : EgressPolicy → Option Text → EgressPolicy → EgressPolicy
remove_passthrough p none other = other
remove_passthrough p (some host) other = record p {
  passthrough_hosts = retain (λ item. not (item == host)) p.passthrough_hosts;
}

abbrev pub remove_http : EgressPolicy → Option Text → EgressPolicy → EgressPolicy
remove_http p none other = other
remove_http p (some host) other = record p {
  http_hosts = retain (λ item. not (item == host)) p.http_hosts;
}

unfoldable pub remove_grant : EgressPolicy → Text → EgressPolicy
remove_grant p grant = remove_http p (strip_prefix (text "http ") grant) (
    remove_passthrough p (strip_prefix (text "passthrough ") grant) (
      remove_tcp p (strip_prefix (text "tcp ") grant)
        (remove_private p (strip_prefix (text "private-http ") grant))))

-- `workspaces.get(workspace).cloned().unwrap_or_default().egress`
abbrev pub egress_or_default : Option WorkspacePolicy → EgressPolicy
egress_or_default none = no_egress
egress_or_default (some w) = w.egress

abbrev pub egress_of : PolicyFile → Text → EgressPolicy
egress_of policy name = egress_or_default (get name policy.workspaces)

pub record Comparison : Type 0 where
  pub additions : List Text
  pub revocations : List Text
  pub code : ℕ

unfoldable pub compare_egress : EgressPolicy → EgressPolicy → Comparison
compare_egress desired active =
    let additions = difference (grants desired) (grants active) in
    let revocations = difference (grants active) (grants desired) in
    record {
      additions = additions;
      revocations = revocations;
      code = if is_empty additions && is_empty revocations then 0 else 2;
    }

pub data StatusError : Type 0 where
  unconfigured : RegistryError → StatusError
  invalid_desired invalid_active : PolicyError → StatusError

-- `policy::status` behind the reading and parsing of the two files.
unfoldable pub status :
    List Text → Registry → Text → PolicyFile → PolicyFile → Result StatusError Comparison
status rules registry name desired_file active_file = do
  configured ← with_context unconfigured (workspace registry name)
  desired ← with_context invalid_desired (load rules registry desired_file)
  let active = normalize active_file
  with_context invalid_active (validate rules registry active)
  ok (compare_egress (egress_of desired name) (egress_of active name))
