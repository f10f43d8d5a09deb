-- ===== src/Policy/Review.antt =====
-- `policy::review`: the candidates that the observations give, the questions about them, and the
-- revocations. The answers are the lines that `prompt` reads, in order; `none` is a read that fails.
pub mod Writing
pub mod Consent
pub mod Evidence
pub mod Additions
pub mod Observed
pub mod Agreed
pub mod Safe
use seter.Prelude.{
  ℕ, Bool, true, false, not, ◌&&◌, ◌||◌, Option, none, some, List, [], ◌∷◌, ◌++◌, map, contains,
  Result, ok, err, ensure, context, with_context, ◌>>=◌, ◌>>◌, try_fold, if◌then◌else◌, any,
}
use seter.Prelude.Eq.{Eq, ◌==◌, nat_eq, list_eq}
use seter.Prelude.Text.{Text, text, trim}
use seter.Prelude.Text.Ascii.{to_ascii_lowercase}
use seter.Prelude.Text.Decimal.{parse_unsigned}
use seter.Prelude.Map.{Map, insert}
use seter.Prelude.Order.{collect, insert_sorted}
use seter.HostPatterns.{HostError, validate_exact_host}
use seter.Registry.{Registry}
use seter.Policy.{TcpGrant, tcp_eq, PrivateHttpGrant, EgressPolicy, WorkspacePolicy, PolicyFile}
use seter.Policy.Normalize.{normalize, tcp_cmp}
use seter.Policy.Validate.{PolicyError, validate}
use seter.Policy.Grants.{grants, remove_grant, egress_of}
use seter.Audit.{AuditGroup}

pub data ReviewError : Type 0 where
  no_response : ReviewError
  invalid_host : HostError → ReviewError
  invalid_port : ReviewError
  invalid_policy : PolicyError → ReviewError

-- `prompt`: the answer, trimmed and in lower case, and the answers that are left.
unfoldable pub prompt : List (Option Text) → Result ReviewError (Text × List (Option Text))
prompt [] = ok ([], [])
prompt (none ∷ rest) = err no_response
prompt (some line ∷ rest) = ok (to_ascii_lowercase (trim line), rest)

abbrev pub is_denied : AuditGroup → Bool
is_denied g = g.decision == text "deny"

abbrev pub has_method : Option Text → Bool
has_method none = false
has_method (some m) = true

abbrev pub names_host : AuditGroup → Bool
names_host g = g.boundary == text "dns" || g.boundary == text "tls"

abbrev pub add_host : Bool → Option Text → List Text → List Text
add_host true (some host) hosts = host ∷ hosts
add_host true none hosts = hosts
add_host false host hosts = hosts

-- The loop over the observations, for each of the first two sets.
unfoldable pub http_hosts_of : List AuditGroup → List Text
http_hosts_of [] = []
http_hosts_of (g ∷ gs) =
    add_host (is_denied g && has_method g.method) g.destination (http_hosts_of gs)

unfoldable pub dns_hosts_of : List AuditGroup → List Text
dns_hosts_of [] = []
dns_hosts_of (g ∷ gs) =
    add_host (is_denied g && (not (has_method g.method) && names_host g)) g.destination
      (dns_hosts_of gs)

abbrev pub add_tcp : Bool → Option Text → Option ℕ → List TcpGrant → List TcpGrant
add_tcp true (some host) (some port) tcp = record { host = host; port = port } ∷ tcp
add_tcp true (some host) none tcp = tcp
add_tcp true none port tcp = tcp
add_tcp false host port tcp = tcp

unfoldable pub tcp_of : List AuditGroup → List TcpGrant
tcp_of [] = []
tcp_of (g ∷ gs) =
    add_tcp
      (is_denied g
        && (not (has_method g.method) && (not (names_host g) && g.boundary == text "direct-tcp")))
      g.destination g.port (tcp_of gs)

-- The policy under review and the answers that are left.
abbrev pub Session : Type 0
Session = EgressPolicy × List (Option Text)

abbrev pub private_hosts : EgressPolicy → List Text
private_hosts p = map (λ (g : PrivateHttpGrant). g.host) p.private_http

abbrev pub validated : Text → Result ReviewError (Unit {0})
validated host = with_context invalid_host (validate_exact_host host)

-- The three kinds of additions, behind the validation of the host.
unfoldable pub push_http : Text → Session → Result ReviewError Session
push_http host (p, answers) = do
  validated host
  ok (record p { http_hosts = p.http_hosts ++ host ∷ [] }, answers)

unfoldable pub push_passthrough : Text → Session → Result ReviewError Session
push_passthrough host (p, answers) = do
  validated host
  ok (record p { passthrough_hosts = p.passthrough_hosts ++ host ∷ [] }, answers)

unfoldable pub push_tcp : TcpGrant → Session → Result ReviewError Session
push_tcp grant (p, answers) = do
  validated grant.host
  ok (record p { tcp = p.tcp ++ grant ∷ [] }, answers)

-- One round of the loop over `http_candidates`; `reserved` are the hosts of private-http grants.
unfoldable pub ask_http : Text → Session → Result ReviewError Session
ask_http host (p, answers) = do
  (answer, rest) ← prompt answers
  if answer == text "y" then push_http host (p, rest) else ok (p, rest)

unfoldable pub review_http : List Text → Session → Text → Result ReviewError Session
review_http reserved (p, answers) host =
    if contains p.http_hosts host || contains reserved host
    then ok (p, answers)
    else ask_http host (p, answers)

unfoldable pub ask_port : Text → Session → Result ReviewError Session
ask_port host (p, answers) = do
  validated host
  (answer, rest) ← prompt answers
  port ← context invalid_port (parse_unsigned 65536 answer)
  ok (record p { tcp = p.tcp ++ record { host = host; port = port } ∷ [] }, rest)

-- One round of the loop over `dns_candidates`.
unfoldable pub classify : Text → Session → Text → Result ReviewError Session
classify host session answer =
    if answer == text "h"
    then push_http host session
    else if answer == text "p"
    then push_passthrough host session
    else if answer == text "t"
    then ask_port host session
    else ok session

unfoldable pub ask_dns : Text → Session → Result ReviewError Session
ask_dns host (p, answers) = do (answer, rest) ← prompt answers; classify host (p, rest) answer

unfoldable pub review_dns : List Text → Session → Text → Result ReviewError Session
review_dns reserved (p, answers) host =
    if contains p.http_hosts host || (contains p.passthrough_hosts host || contains reserved host)
    then ok (p, answers)
    else ask_dns host (p, answers)

-- One round of the loop over `tcp_candidates`.
unfoldable pub ask_tcp : TcpGrant → Session → Result ReviewError Session
ask_tcp grant (p, answers) = do
  (answer, rest) ← prompt answers
  if answer == text "y" then push_tcp grant (p, rest) else ok (p, rest)

unfoldable pub review_tcp : Session → TcpGrant → Result ReviewError Session
review_tcp (p, answers) grant =
    if any (λ g. g == grant) p.tcp then ok (p, answers) else ask_tcp grant (p, answers)

-- One round of the loop over the grants that were there at the start.
unfoldable pub review_existing : Session → Text → Result ReviewError Session
review_existing (p, answers) grant = do
  (answer, rest) ← prompt answers
  ok ((if answer == text "y" then remove_grant p grant else p), rest)

-- A `BTreeSet` of exact destinations.
abbrev pub collect_tcp : List TcpGrant → List TcpGrant
collect_tcp [] = []
collect_tcp (g ∷ gs) =
    let set = collect_tcp gs in if any (λ h. h == g) set then set else insert_sorted tcp_cmp g set

-- The questions of `review`, in its order.
unfoldable pub review_egress : List AuditGroup → Session → Result ReviewError Session
review_egress observations (p, answers) = do
  http ←
      try_fold (review_http (private_hosts p)) (p, answers) (collect (http_hosts_of observations))
  dns ← try_fold (review_dns (private_hosts p)) http (collect (dns_hosts_of observations))
  tcp ← try_fold review_tcp dns (collect_tcp (tcp_of observations))
  try_fold review_existing tcp (grants p)

-- `review` up to the rendering: the policy that it proposes, normalised and validated, and the answers that are
-- left.
unfoldable pub review :
    List Text
    → Registry
    → Text
    → PolicyFile
    → List AuditGroup
    → List (Option Text)
    → Result ReviewError (PolicyFile × List (Option Text))
review rules registry name file observations answers = do
  (egress, rest) ← review_egress observations (egress_of file name, answers)
  let proposed =
      normalize
        (record file { workspaces = insert name (record { egress = egress }) file.workspaces })
  with_context invalid_policy (validate rules registry proposed)
  ok (proposed, rest)
