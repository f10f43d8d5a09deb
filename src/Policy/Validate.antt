-- ===== src/Policy/Validate.antt =====
-- `validate_patterns`, `validate_egress` and `PolicyFile::validate`. The rules of the Public Suffix
-- List are the section's parameter.
pub mod Entries
pub mod Disjoint
use seter.Prelude.{
  ℕ, Bool, true, false, not, ◌&&◌, ◌||◌, Option, none, some, List, [], ◌∷◌, ◌++◌, any, contains,
  eqb, Result, ok, err, ensure, with_context, try_fold, for_each, ◌>>=◌, ◌>>◌, map, if◌then◌else◌,
}
use seter.Prelude.Eq.{◌==◌, nat_eq, list_eq}
use seter.Prelude.Text.{Text, text}
use seter.Prelude.Text.Ascii.{to_ascii_lowercase}
use seter.Prelude.Ipv4.{parse_ipv4}
use seter.Prelude.Map.{Map, values}
use seter.HostPatterns.{
  HostError, is_some, validate_exact_host, validate_host_pattern, patterns_overlap,
}
use seter.Registry.{Registry, Repository, RunnerNetworkIdentity}
use seter.Registry.Errors.{RegistryError}
use seter.Registry.Url.{host}
use seter.Registry.Select.{workspace}
use seter.Registry.Validate.{insert_unique}
use seter.Policy.{TcpGrant, tcp_eq, PrivateHttpGrant, EgressPolicy, WorkspacePolicy, PolicyFile}
use seter.Policy.Address.{address_in_network, private_upstream_address}
use seter.Policy.Normalize.{normalize}

pub data Field : Type 0 where
  http_hosts_field passthrough_hosts_field : Field

pub data PolicyError : Type 0 where
  unsupported_version : ℕ → PolicyError
  unknown_workspace : Text → RegistryError → PolicyError
  invalid_pattern : Text → Field → Text → HostError → PolicyError
  duplicate_pattern : Text → Field → Text → PolicyError
  overlapping_patterns : Text → Text → Text → PolicyError
  invalid_tcp_host : Text → TcpGrant → HostError → PolicyError
  intercepted_port duplicate_tcp : Text → TcpGrant → PolicyError
  invalid_private_host : Text → PrivateHttpGrant → HostError → PolicyError
  literal_private_host not_private duplicate_private private_conflict :
      Text → PrivateHttpGrant → PolicyError
  repository_host workspace_subnet : Text → PrivateHttpGrant → PolicyError

abbrev pub policy_version : ℕ
policy_version = 1

module _ (rules : List Text) where
  unfoldable pub validate_pattern : Text → Field → List Text → Text → Result PolicyError (List Text)
  validate_pattern name field normalized pattern = do
    with_context (invalid_pattern name field pattern) (validate_host_pattern rules pattern)
    insert_unique normalized (to_ascii_lowercase pattern) (duplicate_pattern name field pattern)

  unfoldable pub validate_patterns : Text → Field → List Text → Result PolicyError (Unit {0})
  validate_patterns name field patterns = do
    normalized ← try_fold (validate_pattern name field) [] patterns
    ok tt

-- One round of the loop over direct-TCP grants; the state is the set `tcp`.
unfoldable pub validate_tcp : Text → List TcpGrant → TcpGrant → Result PolicyError (List TcpGrant)
validate_tcp name seen grant = do
  with_context (invalid_tcp_host name grant) (validate_exact_host grant.host)
  ensure (not (eqb grant.port 80) && not (eqb grant.port 443)) (intercepted_port name grant)
  insert_unique seen grant (duplicate_tcp name grant)

abbrev pub is_public_destination : EgressPolicy → Text → Bool
is_public_destination egress host =
    any (λ pattern. patterns_overlap pattern host) (egress.http_hosts ++ egress.passthrough_hosts)
    || any (λ (tcp : TcpGrant). tcp.host == host) egress.tcp

-- One round of the loop over private-http grants; the state is the set `private_hosts`.
unfoldable pub validate_private :
    Text → EgressPolicy → List Text → PrivateHttpGrant → Result PolicyError (List Text)
validate_private name egress seen grant = do
  with_context (invalid_private_host name grant) (validate_exact_host grant.host)
  ensure (not (is_some (parse_ipv4 grant.host))) (literal_private_host name grant)
  ensure (private_upstream_address grant.address) (not_private name grant)
  hosts ← insert_unique seen grant.host (duplicate_private name grant)
  ensure (not (is_public_destination egress grant.host)) (private_conflict name grant)
  ok hosts

abbrev pub check_overlaps : Text → EgressPolicy → Result PolicyError (Unit {0})
check_overlaps name egress = for_each egress.http_hosts λ http.
    for_each egress.passthrough_hosts λ passthrough.
      ensure (not (patterns_overlap http passthrough)) (overlapping_patterns name http passthrough)

unfoldable pub validate_egress : List Text → Text → EgressPolicy → Result PolicyError (Unit {0})
validate_egress rules name egress = do
  validate_patterns rules name http_hosts_field egress.http_hosts
  validate_patterns rules name passthrough_hosts_field egress.passthrough_hosts
  check_overlaps name egress
  tcp ← try_fold (validate_tcp name) [] egress.tcp
  private_hosts ← try_fold (validate_private name egress) [] egress.private_http
  ok tt

abbrev pub present : Option Text → List Text → List Text
present none hosts = hosts
present (some h) hosts = h ∷ hosts

-- `repositories.values().filter_map(host).collect()`
abbrev pub repository_hosts : List Repository → List Text
repository_hosts [] = []
repository_hosts (r ∷ rs) = present (host r) (repository_hosts rs)

-- One round of the last loop of `PolicyFile::validate`.
unfoldable pub validate_against_host :
    Text → List Text → RunnerNetworkIdentity → PrivateHttpGrant → Result PolicyError (Unit {0})
validate_against_host name hosts network grant = do
  ensure (not (contains hosts grant.host)) (repository_host name grant)
  ensure (not (address_in_network grant.address network.address network.prefix_length))
      (workspace_subnet name grant)

unfoldable pub validate_entry :
    List Text → Registry → Text × WorkspacePolicy → Result PolicyError (Unit {0})
validate_entry rules registry (name, policy) = do
  registered ← with_context (unknown_workspace name) (workspace registry name)
  validate_egress rules name policy.egress
  for_each policy.egress.private_http (
      validate_against_host name (repository_hosts (values registered.repositories))
        registered.runner.identity.network)

unfoldable pub validate : List Text → Registry → PolicyFile → Result PolicyError (Unit {0})
validate rules registry policy = do
  ensure (eqb policy.version policy_version) (unsupported_version policy.version)
  for_each policy.workspaces (validate_entry rules registry)

-- `PolicyFile::load` behind the reading and parsing of the file.
unfoldable pub load : List Text → Registry → PolicyFile → Result PolicyError PolicyFile
load rules registry parsed = do
  let policy = normalize parsed
  validate rules registry policy
  ok policy
