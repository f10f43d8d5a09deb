-- ===== src/Policy/Normalize.antt =====
-- `PolicyFile::normalize`: host names in lower case, every list sorted.
pub mod Idempotent
use Prim.Native.Nat.{compare, Ordering}
use seter.Prelude.{List, map}
use seter.Prelude.Text.{Text}
use seter.Prelude.Text.Ascii.{to_ascii_lowercase}
use seter.Prelude.Map.{Map, text_cmp}
use seter.Prelude.Order.{then_with, sort}
use seter.Policy.{TcpGrant, PrivateHttpGrant, EgressPolicy, WorkspacePolicy, PolicyFile}

-- `derive(Ord)`
abbrev pub tcp_cmp : TcpGrant → TcpGrant → Ordering
tcp_cmp g h = then_with (text_cmp g.host h.host) (compare g.port h.port)

abbrev pub private_cmp : PrivateHttpGrant → PrivateHttpGrant → Ordering
private_cmp g h = then_with (text_cmp g.host h.host) (text_cmp g.address h.address)

abbrev pub lower_tcp : TcpGrant → TcpGrant
lower_tcp g = record g { host = to_ascii_lowercase g.host }

abbrev pub lower_private : PrivateHttpGrant → PrivateHttpGrant
lower_private g = record g { host = to_ascii_lowercase g.host }

unfoldable pub normalize_egress : EgressPolicy → EgressPolicy
normalize_egress p = record {
  http_hosts = sort text_cmp (map to_ascii_lowercase p.http_hosts);
  passthrough_hosts = sort text_cmp (map to_ascii_lowercase p.passthrough_hosts);
  tcp = sort tcp_cmp (map lower_tcp p.tcp);
  private_http = sort private_cmp (map lower_private p.private_http);
}

abbrev pub normalize_workspace : Text × WorkspacePolicy → Text × WorkspacePolicy
normalize_workspace e = (e.0, record { egress = normalize_egress e.1.egress })

unfoldable pub normalize : PolicyFile → PolicyFile
normalize p = record p { workspaces = map normalize_workspace p.workspaces }
