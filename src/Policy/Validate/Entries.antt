-- ===== src/Policy/Validate/Entries.antt =====
-- What the loops of `validate_egress` have established when they end without an error.
use seter.Prelude.{
  ◌≡◌, Bool, true, false, not, List, [], ◌∷◌, In, All, ok, with_context-eq-ok, bind-eq-ok,
  seq-eq-ok, ensure-eq-ok, eqb, arith,
}
use seter.Prelude.Eq.{list_eq, nat_eq}
use seter.Prelude.Loops.{Distinct, try_fold-Distinct, try_fold-All, for_each-All}
use seter.Prelude.Text.{Text}
use seter.Prelude.Text.Ascii.{to_ascii_lowercase}
use seter.Prelude.Ipv4.{parse_ipv4}
use seter.HostPatterns.{is_some, validate_exact_host, validate_host_pattern, patterns_overlap}
use seter.Registry.Validate.Unique.{insert_unique-ok}
use seter.Policy.{TcpGrant, tcp_eq, PrivateHttpGrant, EgressPolicy}
use seter.Policy.Address.{private_upstream_address}
use seter.Policy.Validate.{
  Field, validate_pattern, validate_patterns, validate_tcp, validate_private, is_public_destination,
  check_overlaps, validate_egress,
}

-- The egress rules of a workspace, stated without the loops.
pub record IsValidEgress (rules : List Text) (p : EgressPolicy) : Type 0 where
  pub http_valid : All (λ h. validate_host_pattern rules h ≡ ok tt) p.http_hosts
  pub http_distinct : Distinct to_ascii_lowercase p.http_hosts
  pub passthrough_valid : All (λ h. validate_host_pattern rules h ≡ ok tt) p.passthrough_hosts
  pub passthrough_distinct : Distinct to_ascii_lowercase p.passthrough_hosts
  pub apart : All (λ h. All (λ q. patterns_overlap h q ≡ false) p.passthrough_hosts) p.http_hosts
  pub tcp_valid :
      All
        (λ (g : TcpGrant).
          (validate_exact_host g.host ≡ ok tt)
          × ((eqb g.port 80 ≡ false) × (eqb g.port 443 ≡ false)))
        p.tcp
  pub tcp_distinct : Distinct (λ (g : TcpGrant). g) p.tcp
  pub private_valid :
      All
        (λ (g : PrivateHttpGrant).
          (validate_exact_host g.host ≡ ok tt)
          × ((is_some (parse_ipv4 g.host) ≡ false)
              × ((private_upstream_address g.address ≡ true)
                  × (is_public_destination p g.host ≡ false))))
        p.private_http
  pub private_distinct : Distinct (λ (g : PrivateHttpGrant). g.host) p.private_http

not-true : (b : Bool) → not b ≡ true → b ≡ false
not-true b h = ground arith

module _ (rules : List Text) (name : Text) (field : Field) where
  validate_pattern-ok :
      (seen : List Text) (p : Text) (seen' : List Text)
      → validate_pattern rules name field seen p ≡ ok seen'
      → (validate_host_pattern rules p ≡ ok tt)
        × ((¬ In (to_ascii_lowercase p) seen) × (seen' ≡ to_ascii_lowercase p ∷ seen))
  unfolding validate_pattern
  validate_pattern-ok seen p seen' h =
      let (valid, inserted) = seq-eq-ok _ _ h in
      (with_context-eq-ok _ _ valid, insert_unique-ok _ _ _ inserted)

  validate_patterns-ok :
      (ps : List Text)
      → validate_patterns rules name field ps ≡ ok tt
      → All (λ p. validate_host_pattern rules p ≡ ok tt) ps × Distinct to_ascii_lowercase ps
  unfolding validate_patterns
  validate_patterns-ok ps h =
      let (seen, folded, _) = bind-eq-ok _ _ h in
      (
        try_fold-All _ _ (λ s p s' k. (validate_pattern-ok s p s' k).0) [] ps folded,
        try_fold-Distinct _ (λ s. s) to_ascii_lowercase
            (λ s p s' k. (validate_pattern-ok s p s' k).1) [] ps folded,
      )

validate_tcp-ok :
    (name : Text) (seen : List TcpGrant) (g : TcpGrant) (seen' : List TcpGrant)
    → validate_tcp name seen g ≡ ok seen'
    → ((validate_exact_host g.host ≡ ok tt) × ((eqb g.port 80 ≡ false) × (eqb g.port 443 ≡ false)))
      × ((¬ In g seen) × (seen' ≡ g ∷ seen))
unfolding validate_tcp
validate_tcp-ok name seen g seen' h =
    let (valid, h₁) = seq-eq-ok _ _ h in
    let (ports, inserted) = seq-eq-ok _ _ h₁ in
    let ports' = ensure-eq-ok _ _ ports in
    (
      (with_context-eq-ok _ _ valid, (ground (arith, ports'), ground (arith, ports'))),
      insert_unique-ok _ _ _ inserted,
    )

validate_private-ok :
    (name : Text) (p : EgressPolicy) (seen : List Text) (g : PrivateHttpGrant) (seen' : List Text)
    → validate_private name p seen g ≡ ok seen'
    → ((validate_exact_host g.host ≡ ok tt)
        × ((is_some (parse_ipv4 g.host) ≡ false)
            × ((private_upstream_address g.address ≡ true)
                × (is_public_destination p g.host ≡ false))))
      × ((¬ In g.host seen) × (seen' ≡ g.host ∷ seen))
unfolding validate_private
validate_private-ok name p seen g seen' h =
    let (valid, h₁) = seq-eq-ok _ _ h in
    let (literal, h₂) = seq-eq-ok _ _ h₁ in
    let (private, h₃) = seq-eq-ok _ _ h₂ in
    let (hosts, inserted, h₄) = bind-eq-ok _ _ h₃ in
    let (conflict, same) = seq-eq-ok _ _ h₄ in
    let (new, grown) = insert_unique-ok _ _ _ inserted in
    (
      (
        with_context-eq-ok _ _ valid,
        (
          not-true _ (ensure-eq-ok _ _ literal),
          (ensure-eq-ok _ _ private, not-true _ (ensure-eq-ok _ _ conflict)),
        ),
      ),
      (new, cc),
    )

check_overlaps-ok :
    (name : Text) (p : EgressPolicy)
    → check_overlaps name p ≡ ok tt
    → All (λ h. All (λ q. patterns_overlap h q ≡ false) p.passthrough_hosts) p.http_hosts
check_overlaps-ok name p h =
    for_each-All _ _
      (λ http inner.
        for_each-All _ _ (λ q k. not-true _ (ensure-eq-ok _ _ k)) p.passthrough_hosts inner)
      p.http_hosts h

-- An egress policy that `validate_egress` accepts has valid Host Patterns without repetitions in
-- each list, no overlap between the two lists, direct-TCP grants to exact hosts without repetitions
-- and not to port 80 or 443, and private-http grants to distinct exact DNS names that are no public
-- destination, with private addresses.
pub validate_egress-IsValid :
    (rules : List Text) (name : Text) (p : EgressPolicy)
    → validate_egress rules name p ≡ ok tt
    → IsValidEgress rules p
unfolding validate_egress
validate_egress-IsValid rules name p h =
    let (http, h₁) = seq-eq-ok _ _ h in
    let (passthrough, h₂) = seq-eq-ok _ _ h₁ in
    let (overlaps, h₃) = seq-eq-ok _ _ h₂ in
    let (tcp, tcp_folded, h₄) = bind-eq-ok _ _ h₃ in
    let (hosts, private_folded, _) = bind-eq-ok _ _ h₄ in
    let http' = validate_patterns-ok rules name _ p.http_hosts http in
    let passthrough' = validate_patterns-ok rules name _ p.passthrough_hosts passthrough in
    record {
      http_valid = http'.0;
      http_distinct = http'.1;
      passthrough_valid = passthrough'.0;
      passthrough_distinct = passthrough'.1;
      apart = check_overlaps-ok name p overlaps;
      tcp_valid =
          try_fold-All _ _ (λ s g s' k. (validate_tcp-ok name s g s' k).0) [] p.tcp tcp_folded;
      tcp_distinct =
          try_fold-Distinct _ (λ s. s) (λ (g : TcpGrant). g)
            (λ s g s' k. (validate_tcp-ok name s g s' k).1) [] p.tcp tcp_folded;
      private_valid =
          try_fold-All _ _ (λ s g s' k. (validate_private-ok name p s g s' k).0) [] p.private_http
            private_folded;
      private_distinct =
          try_fold-Distinct _ (λ s. s) (λ (g : PrivateHttpGrant). g.host)
            (λ s g s' k. (validate_private-ok name p s g s' k).1) [] p.private_http private_folded;
    }
