-- ===== src/Policy.antt =====
-- The declarative Policy File (crates/seter-cli/src/policy.rs): its records. Reading TOML and JSON
-- is the work of toml and serde and enters as the value.
pub mod Address
pub mod Normalize
pub mod Validate
pub mod Grants
pub mod Review
pub mod Render
pub mod Replace
use seter.Prelude.{ℕ, ◌≡◌, ◌↔◌, Bool, true, ◌&&◌, List, [], eqb, arith}
use seter.Prelude.Eq.{Eq, ◌==◌, nat_eq, list_eq, list_beq_iff}
use seter.Prelude.Text.{Text}
use seter.Prelude.Map.{Map}

pub record TcpGrant : Type 0 where
  pub host : Text
  pub port : ℕ

pub record PrivateHttpGrant : Type 0 where
  pub host : Text
  pub address : Text

pub record EgressPolicy : Type 0 where
  pub http_hosts : List Text
  pub passthrough_hosts : List Text
  pub tcp : List TcpGrant
  pub private_http : List PrivateHttpGrant

pub record WorkspacePolicy : Type 0 where
  pub egress : EgressPolicy

pub record PolicyFile : Type 0 where
  pub version : ℕ
  pub workspaces : Map WorkspacePolicy

-- `derive(Default)`
abbrev pub no_egress : EgressPolicy
no_egress = record { http_hosts = []; passthrough_hosts = []; tcp = []; private_http = [] }

-- `derive(PartialEq)`
abbrev pub tcp_beq : TcpGrant → TcpGrant → Bool
tcp_beq g h = g.host == h.host && eqb g.port h.port

pub tcp_beq_iff : (g h : TcpGrant) → (tcp_beq g h ≡ true) ↔ (g ≡ h)
tcp_beq_iff g h = ground (arith, list_beq_iff g.host h.host)

instance abbrev pub tcp_eq : Eq TcpGrant
tcp_eq = record { beq = tcp_beq; beq_iff = tcp_beq_iff }

abbrev pub private_beq : PrivateHttpGrant → PrivateHttpGrant → Bool
private_beq g h = g.host == h.host && g.address == h.address

pub private_beq_iff : (g h : PrivateHttpGrant) → (private_beq g h ≡ true) ↔ (g ≡ h)
private_beq_iff g h = ground (arith, list_beq_iff g.host h.host, list_beq_iff g.address h.address)

instance abbrev pub private_eq : Eq PrivateHttpGrant
private_eq = record { beq = private_beq; beq_iff = private_beq_iff }

abbrev pub egress_beq : EgressPolicy → EgressPolicy → Bool
egress_beq p q =
    p.http_hosts == q.http_hosts
    && p.passthrough_hosts == q.passthrough_hosts
    && p.tcp == q.tcp
    && p.private_http == q.private_http

pub egress_beq_iff : (p q : EgressPolicy) → (egress_beq p q ≡ true) ↔ (p ≡ q)
egress_beq_iff p q = ground (
  arith,
  list_beq_iff p.http_hosts q.http_hosts,
  list_beq_iff p.passthrough_hosts q.passthrough_hosts,
  list_beq_iff p.tcp q.tcp,
  list_beq_iff p.private_http q.private_http,
)

instance abbrev pub egress_eq : Eq EgressPolicy
egress_eq = record { beq = egress_beq; beq_iff = egress_beq_iff }
