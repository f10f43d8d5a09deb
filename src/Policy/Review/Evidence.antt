-- ===== src/Policy/Review/Evidence.antt =====
-- What must back a grant that a review adds, and what the loop over the observations and `prompt` give of it.
use seter.Prelude.{
  ℕ, any, arith, ◌≡◌, ◌≢◌, refl, sym, ap, ◌∙◌, ◌⊎◌, inl, inr, Bool, true, false, Option, none, some,
  List, [], ◌∷◌, All, In, not, ok, try_fold, ok_inj, Bool-cases, and_true, pair-eq,
}
use seter.Prelude.Eq.{◌==◌, nat_eq, list_eq, list_beq_iff}
use seter.Prelude.Text.{Text, text, trim}
use seter.Prelude.Text.Ascii.{to_ascii_lowercase}
use seter.Prelude.Order.Sorting.{insert_sorted-In}
use seter.HostPatterns.{validate_exact_host}
use seter.Policy.{TcpGrant, tcp_eq, EgressPolicy}
use seter.Policy.Normalize.{tcp_cmp}
use seter.Audit.{AuditGroup}
use seter.Policy.Review.{
  Session, prompt, http_hosts_of, dns_hosts_of, tcp_of, collect_tcp, has_method, names_host,
  add_host, add_tcp, private_hosts, review_http, review_dns, review_tcp,
}
use seter.Prelude.Loops.{Reaches}
use seter.Prelude.Order.{collect}
use seter.Prelude.Text.Decimal.{parse_unsigned}

not-true : (b : Bool) → not b ≡ true → b ≡ false
not-true b h = ground arith

add_host-In :
    (b : Bool) (destination : Option Text) (hosts : List Text) (host : Text)
    → In host (add_host b destination hosts)
    → (b ≡ true) × (destination ≡ some host) ⊎ In host hosts
add_host-In true (some h) hosts host (inl same) = inl (refl, ap some (sym same))
add_host-In true (some h) hosts host (inr m) = inr m
add_host-In true none hosts host m = inr m
add_host-In false destination hosts host m = inr m

add_tcp-In :
    (b : Bool) (destination : Option Text) (port : Option ℕ) (tcp : List TcpGrant)
    (grant : TcpGrant)
    → In grant (add_tcp b destination port tcp)
    → (b ≡ true) × (destination ≡ some grant.host) × (port ≡ some grant.port) ⊎ In grant tcp
add_tcp-In true (some h) (some n) tcp grant (inl same) = inl (
  refl,
  ap (λ (g : TcpGrant). some g.host) (sym same),
  ap (λ (g : TcpGrant). some g.port) (sym same),
)
add_tcp-In true (some h) (some n) tcp grant (inr m) = inr m
add_tcp-In true (some h) none tcp grant m = inr m
add_tcp-In true none port tcp grant m = inr m
add_tcp-In false destination port tcp grant m = inr m

pub collect_tcp-In :
    (gs : List TcpGrant) (grant : TcpGrant) → In grant (collect_tcp gs) → In grant gs
collect_tcp-In [] grant m = m
collect_tcp-In (g ∷ gs) grant m = elim (Bool-cases (any (λ h. h == g) (collect_tcp gs))) [
  | inl known ↦ inr (collect_tcp-In gs grant (rw known at m))
  | inr new ↦ elim ((insert_sorted-In tcp_cmp g (collect_tcp gs) grant).0 (rw new at m)) [
    | inl same ↦ inl same
    | inr n ↦ inr (collect_tcp-In gs grant n)
  ]
]

-- What an observation of each kind shows.
abbrev pub HasMethod : Text → AuditGroup → Type 0
HasMethod host g = (g.destination ≡ some host) × (has_method g.method ≡ true)

abbrev pub NamesHost : Text → AuditGroup → Type 0
NamesHost host g =
    (g.destination ≡ some host) × (has_method g.method ≡ false) × (names_host g ≡ true)

abbrev pub IsDirect : TcpGrant → AuditGroup → Type 0
IsDirect grant g =
    (g.destination ≡ some grant.host)
    × (g.port ≡ some grant.port)
    × ((g.boundary == text "direct-tcp") ≡ true)

module _ (observations : List AuditGroup) (answers : List (Option Text)) where
  -- Some observation is a denial of this kind.
  abbrev pub Denied : (AuditGroup → Type 0) → Type 0
  Denied Kind = (g : AuditGroup) × In g observations × ((g.decision == text "deny") ≡ true) × Kind g

  -- The next line of the answers is this word, once it is trimmed and in lower case.
  abbrev pub Says : Text → List (Option Text) → Type 0
  Says word rest =
      (line : Text) × (later : List (Option Text)) × (rest ≡ some line ∷ later)
      × (to_ascii_lowercase (trim line) ≡ word)

  module _ (p : EgressPolicy) where
    -- The states behind the questions about HTTP hosts, and behind those about names.
    abbrev pub IsBehindHttp : Session → Type 0
    IsBehindHttp s =
        try_fold (review_http (private_hosts p)) (p, answers) (collect (http_hosts_of observations))
        ≡ ok s

    abbrev pub IsBehindNames : Session → Type 0
    IsBehindNames s =
        (first : Session) × IsBehindHttp first
        × (try_fold (review_dns (private_hosts p)) first (collect (dns_hosts_of observations))
            ≡ ok s)

    -- The state in which the review comes to a candidate of each kind.
    abbrev pub ComesToHttp : Text → Session → Type 0
    ComesToHttp host s =
        Reaches (review_http (private_hosts p)) (p, answers) (collect (http_hosts_of observations))
          host s

    abbrev pub ComesToName : Text → Session → Type 0
    ComesToName host s =
        (first : Session) × IsBehindHttp first
        × Reaches (review_dns (private_hosts p)) first (collect (dns_hosts_of observations)) host s

    abbrev pub ComesToTcp : TcpGrant → Session → Type 0
    ComesToTcp grant s =
        (first : Session) × IsBehindNames first
        × Reaches review_tcp first (collect_tcp (tcp_of observations)) grant s

    -- A denial showed the host, and the line of the answers that is next when the review comes to it is the word.
    abbrev pub IsHttpGranted : Text → Type 0
    IsHttpGranted host =
        (validate_exact_host host ≡ ok tt)
        × (((s : Session) × ComesToHttp host s × (Denied (HasMethod host)) × Says (text "y") s.1)
            ⊎ (s : Session) × ComesToName host s × (Denied (NamesHost host)) × Says (text "h") s.1)

    abbrev pub IsPassthroughGranted : Text → Type 0
    IsPassthroughGranted host =
        (validate_exact_host host ≡ ok tt)
        × (s : Session) × ComesToName host s
        × (Denied (NamesHost host))
        × Says (text "p") s.1

    abbrev pub IsTcpGranted : TcpGrant → Type 0
    IsTcpGranted grant =
        (validate_exact_host grant.host ≡ ok tt)
        × (((s : Session) × ComesToTcp grant s × (Denied (IsDirect grant)) × Says (text "y") s.1)
            ⊎ (s : Session) × ComesToName grant.host s
              × (Denied (NamesHost grant.host))
              × Says (text "t") s.1
              × (port : Text) × (rest later : List (Option Text)) × (prompt s.1
                  ≡ ok (text "t", rest))
              × (prompt rest ≡ ok (port, later))
              × (parse_unsigned 65536 port ≡ some grant.port))

    -- Each grant of `q` is one of `p`, or was denied, validated and consented to.
    abbrev pub IsReviewOf : EgressPolicy → Type 0
    IsReviewOf q =
        All (λ host. In host p.http_hosts ⊎ IsHttpGranted host) q.http_hosts
        × All (λ host. In host p.passthrough_hosts ⊎ IsPassthroughGranted host) q.passthrough_hosts
        × All (λ grant. In grant p.tcp ⊎ IsTcpGranted grant) q.tcp
        × All (λ grant. In grant p.private_http) q.private_http

  abbrev pub Among : List AuditGroup → Type 0
  Among gs = (g : AuditGroup) → In g gs → In g observations

  -- What the observations of the three sets show.
  pub http_hosts_of-Denied :
      (gs : List AuditGroup)
      → Among gs
      → (host : Text) → In host (http_hosts_of gs)
      → Denied (HasMethod host)
  unfolding http_hosts_of
  http_hosts_of-Denied [] among host m = absurd m
  http_hosts_of-Denied (g ∷ gs) among host m =
      elim (add_host-In _ g.destination (http_hosts_of gs) host m) [
        | inl (test, named) ↦
            let (denied, method) = and_true _ _ test in
            (g, among g (inl refl), denied, (named, method))
        | inr n ↦ http_hosts_of-Denied gs (λ x k. among x (inr k)) host n
      ]

  pub dns_hosts_of-Denied :
      (gs : List AuditGroup)
      → Among gs
      → (host : Text) → In host (dns_hosts_of gs)
      → Denied (NamesHost host)
  unfolding dns_hosts_of
  dns_hosts_of-Denied [] among host m = absurd m
  dns_hosts_of-Denied (g ∷ gs) among host m =
      elim (add_host-In _ g.destination (dns_hosts_of gs) host m) [
        | inl (test, named) ↦
            let (denied, others) = and_true _ _ test in
            let (methodless, names) = and_true _ _ others in
            (g, among g (inl refl), denied, (named, not-true _ methodless, names))
        | inr n ↦ dns_hosts_of-Denied gs (λ x k. among x (inr k)) host n
      ]

  pub tcp_of-Denied :
      (gs : List AuditGroup)
      → Among gs
      → (grant : TcpGrant) → In grant (tcp_of gs)
      → Denied (IsDirect grant)
  unfolding tcp_of
  tcp_of-Denied [] among grant m = absurd m
  tcp_of-Denied (g ∷ gs) among grant m =
      elim (add_tcp-In _ g.destination g.port (tcp_of gs) grant m) [
        | inl (test, named, numbered) ↦
            let (denied, others) = and_true _ _ test in
            let (methodless, others') = and_true _ _ others in
            let (nameless, direct) = and_true _ _ others' in
            (g, among g (inl refl), denied, (named, numbered, direct))
        | inr n ↦ tcp_of-Denied gs (λ x k. among x (inr k)) grant n
      ]

  -- An answer that is a word is the next line.
  pub prompt-Says :
      (rest : List (Option Text)) (answer : Text) (rest' : List (Option Text))
      → prompt rest ≡ ok (answer, rest')
      → (word : Text) → word ≢ []
      → (answer == word) ≡ true
      → Says word rest
  unfolding prompt
  prompt-Says [] answer rest' h word full same =
      absurd (full (sym ((list_beq_iff answer word).0 same) ∙ sym (pair-eq (ok_inj h)).0))
  prompt-Says (none ∷ rest) answer rest' h word full same = cc
  prompt-Says (some line ∷ rest) answer rest' h word full same =
      (line, rest, refl, (pair-eq (ok_inj h)).0 ∙ (list_beq_iff answer word).0 same)
