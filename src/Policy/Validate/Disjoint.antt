-- ===== src/Policy/Validate/Disjoint.antt =====
-- The destinations of an accepted egress policy do not compete for a host.
use mathlib.Core.Bool.{false≢true}
use seter.Prelude.{
  ◌≡◌, ◌≢◌, sym, ◌∙◌, Bool, true, false, List, [], ◌∷◌, ◌++◌, In, All-In, any, any-In, ok, or_right,
  or_left, inl, inr, Bool-cases,
}
use seter.Prelude.Eq.{nat_eq, list_eq, list_beq_iff}
use seter.Prelude.Text.{Text}
use seter.HostPatterns.{pattern_matches}
use seter.HostPatterns.Overlap.{patterns_overlap_iff, overlap_of_match}
use seter.Policy.{TcpGrant, PrivateHttpGrant, EgressPolicy}
use seter.Policy.Validate.{validate_egress}
use seter.Policy.Validate.Entries.{validate_egress-IsValid}

-- In an accepted egress policy no host is matched by both an intercepted-HTTP pattern and a
-- passthrough pattern: how a connection is treated never depends on which list is read first.
pub no_shared_host :
    (rules : List Text) (name : Text) (p : EgressPolicy)
    → validate_egress rules name p ≡ ok tt
    → (http passthrough host : Text) → In http p.http_hosts
    → In passthrough p.passthrough_hosts
    → ¬ ((pattern_matches http host ≡ true) × (pattern_matches passthrough host ≡ true))
no_shared_host rules name p h http passthrough host m n (a, b) =
    let v = validate_egress-IsValid rules name p h in
    let apart = All-In _ _ passthrough (All-In _ _ http v.apart m) n in
    let vh = All-In _ _ http v.http_valid m in
    let vp = All-In _ _ passthrough v.passthrough_valid n in
    let overlap = (patterns_overlap_iff rules http passthrough vh vp).1 (host, a, b) in
    false≢true (sym apart ∙ overlap)

any-append_right {ℓ} :
    {A : Type ℓ} (f : A → Bool) (xs ys : List A) → any f ys ≡ true → any f (xs ++ ys) ≡ true
any-append_right f [] ys h = h
any-append_right f (x ∷ xs) ys h = or_right _ _ (any-append_right f xs ys h)

-- In an accepted egress policy the host of a private-http grant is matched by no pattern of the
-- intercepted-HTTP and passthrough lists, and is the host of no direct-TCP grant.
pub private_host_reserved :
    (rules : List Text) (name : Text) (p : EgressPolicy)
    → validate_egress rules name p ≡ ok tt
    → (g : PrivateHttpGrant) → In g p.private_http
    → ((pattern : Text)
        → In pattern (p.http_hosts ++ p.passthrough_hosts)
        → pattern_matches pattern g.host ≡ false)
      × ((t : TcpGrant) → In t p.tcp → t.host ≢ g.host)
private_host_reserved rules name p h g m =
    let v = validate_egress-IsValid rules name p h in
    let reserved = (All-In _ _ g v.private_valid m).1.1.1 in
    (
      λ pattern n. elim (Bool-cases (pattern_matches pattern g.host)) [
        | inl hit ↦ absurd (
            false≢true (
              sym reserved
              ∙ or_left _ _ (any-In _ _ pattern n (overlap_of_match pattern g.host hit))))
        | inr miss ↦ miss
      ],
      λ t n e.
          false≢true
            (sym reserved ∙ or_right _ _ (any-In _ _ t n ((list_beq_iff t.host g.host).1 e))),
    )
