-- ===== src/Client/Probe/Endpoints.antt =====
-- `browser`, `docker`, `websocket_path` and `validate_path` of client/probe.rs, and the choice of
-- client.rs between the first two. A connection is what its reads give, if it opens.
pub mod Loopback
use seter.Prelude.{
  ℕ, ◌+◌, ◌-◌, Bool, true, false, not, ◌&&◌, ◌||◌, Option, none, some, List, [], ◌∷◌, ◌++◌, all,
  is_empty, length, drop, Result, ok, err, ensure, context, ◌>>=◌, ◌>>◌, leb, ltb, eqb,
  if◌then◌else◌,
}
use seter.Prelude.Eq.{◌==◌, nat_eq, list_eq}
use seter.Prelude.Text.{Text, text, byte_len, strip_prefix}
use seter.Prelude.Text.Ascii.{is_ascii_alphanumeric}
use seter.Prelude.Text.Split.{split_once, rsplit_once}
use seter.Prelude.Text.Decimal.{parse_unsigned}
use seter.Client.Probe.{
  Bytes, ProbeError, zero_port, unreachable, invalid_json, no_url, not_websocket, invalid_url,
  no_port, not_loopback, invalid_port, invalid_path, invalid_identity, endpoint_changed, not_docker,
  one_endpoint,
}
use seter.Client.Probe.Request.{request}

abbrev pub is_loopback : Text → Bool
is_loopback host = host == text "127.0.0.1" || host == text "localhost" || host == text "[::1]"

abbrev pub identity_char : ℕ → Bool
identity_char c = is_ascii_alphanumeric c || eqb c b'-' || eqb c b'_'

unfoldable pub validate_path : Text → Result ProbeError (Unit {0})
validate_path path = do
  identity ← context invalid_path (strip_prefix (text "/devtools/browser/") path)
  ensure (not (is_empty identity) && leb (byte_len identity) 200 && all identity_char identity)
      invalid_identity

abbrev pub is_port : Option ℕ → Bool
is_port none = false
is_port (some port) = ltb 0 port

abbrev pub check_authority : Text × Text → Result ProbeError (Unit {0})
check_authority (host, port) = do
  ensure (is_loopback host) not_loopback
  ensure (is_port (parse_unsigned 65536 port)) invalid_port

-- The slice that is returned counts characters; what it leaves out and takes in is the same in bytes.
abbrev pub path_in : Text → Text × Text → Result ProbeError Text
path_in url (authority, path) = do
  parts ← context no_port (rsplit_once b':' authority)
  check_authority parts
  validate_path (b'/' ∷ path)
  ok (drop (length url - length path - 1) url)

unfoldable pub websocket_path : Text → Result ProbeError Text
websocket_path url = do
  remainder ← context not_websocket (strip_prefix (text "ws://") url)
  parts ← context invalid_url (split_once b'/' remainder)
  path_in url parts

-- The system: what a connection to a port or a socket reads, UTF-8, and the URL in a JSON body, where
-- a body that is no JSON has none.
pub record Network : Type 0 where
  pub from_utf8 : Bytes → Option Text
  pub tcp : ℕ → Option (List (Result Text Bytes))
  pub unix : Text → Option (List (Result Text Bytes))
  pub debugger_url : Bytes → Option (Option Text)

abbrev check_expected : Option Text → Text → Result ProbeError (Unit {0})
check_expected none path = ok tt
check_expected (some expected) path = ensure (path == expected) endpoint_changed

module _ (network : Network) where
  unfoldable pub browser : ℕ → Option Text → Result ProbeError Text
  browser port expected = do
    ensure (not (eqb port 0)) zero_port
    reads ← context unreachable (network.tcp port)
    body ← request network.from_utf8 reads
    response ← context invalid_json (network.debugger_url body)
    url ← context no_url response
    path ← websocket_path url
    check_expected expected path
    ok path

  unfoldable pub docker : Text → Result ProbeError (Unit {0})
  docker socket = do
    reads ← context unreachable (network.unix socket)
    body ← request network.from_utf8 reads
    ensure (body == text "OK") not_docker

  unfoldable pub probe_endpoint :
      Option ℕ → Option Text → Option Text → Result ProbeError (Unit {0})
  probe_endpoint (some port) none expected = browser port expected >>= λ path. ok tt
  probe_endpoint none (some socket) expected = docker socket
  probe_endpoint _ _ expected = err one_endpoint
