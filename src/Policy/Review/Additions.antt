-- ===== src/Policy/Review/Additions.antt =====
-- Each round of the three loops over candidates adds only what is backed.
use seter.Prelude.{
  any, contains, ◌||◌, ◌≡◌, ap, ◌∙◌, ◌⊎◌, inl, inr, Option, List, [], ◌∷◌, All-append, ok,
  bind-eq-ok, seq-eq-ok, with_context-eq-ok, context-eq-ok, ok_inj, Bool-cases,
}
use seter.Prelude.Eq.{◌==◌, nat_eq, list_eq, list_beq_iff}
use seter.Prelude.Text.{Text, text}
use seter.Policy.{TcpGrant, tcp_eq, EgressPolicy}
use seter.Audit.{AuditGroup}
use seter.Policy.Review.{
  Session, prompt, push_http, push_passthrough, push_tcp, ask_port, ask_http, review_http, classify,
  ask_dns, review_dns, ask_tcp, review_tcp,
}
use seter.Policy.Review.Evidence.{
  Denied, Says, HasMethod, NamesHost, IsDirect, ComesToHttp, ComesToName, ComesToTcp, IsHttpGranted,
  IsPassthroughGranted, IsTcpGranted, IsReviewOf, prompt-Says,
}

module _ (observations : List AuditGroup) (answers : List (Option Text)) (p : EgressPolicy) where
  -- What a session keeps: its policy is a review of the one at the start.
  abbrev pub Holds : Session → Type 0
  Holds s = IsReviewOf observations answers p s.0

  push_http-Holds :
      (host : Text) (s s' : Session)
      → (((t : Session) × ComesToHttp observations answers p host t
            × Denied observations answers (HasMethod host)
            × Says observations answers (text "y") t.1)
          ⊎ (t : Session) × ComesToName observations answers p host t
            × Denied observations answers (NamesHost host)
            × Says observations answers (text "h") t.1)
      → Holds s
      → push_http host s ≡ ok s'
      → Holds s'
  unfolding push_http
  push_http-Holds host (q, rest) s' ground_of (https, passes, tcps, privates) h =
      let (valid, e) = seq-eq-ok _ _ h in
      let new : IsHttpGranted observations answers p host =
        (with_context-eq-ok _ _ valid, ground_of) in
      rw (← ok_inj e)
        (All-append _ q.http_hosts (host ∷ []) https (inr new, tt), passes, tcps, privates)

  push_passthrough-Holds :
      (host : Text) (s s' t : Session)
      → ComesToName observations answers p host t
      → Denied observations answers (NamesHost host)
      → Says observations answers (text "p") t.1
      → Holds s
      → push_passthrough host s ≡ ok s'
      → Holds s'
  unfolding push_passthrough
  push_passthrough-Holds host (q, rest) s' t comes denied said (https, passes, tcps, privates) h =
      let (valid, e) = seq-eq-ok _ _ h in
      let new : IsPassthroughGranted observations answers p host =
        (with_context-eq-ok _ _ valid, t, comes, denied, said) in
      rw (← ok_inj e)
        (https, All-append _ q.passthrough_hosts (host ∷ []) passes (inr new, tt), tcps, privates)

  push_tcp-Holds :
      (grant : TcpGrant) (s s' t : Session)
      → ComesToTcp observations answers p grant t
      → Denied observations answers (IsDirect grant)
      → Says observations answers (text "y") t.1
      → Holds s
      → push_tcp grant s ≡ ok s'
      → Holds s'
  unfolding push_tcp
  push_tcp-Holds grant (q, rest) s' t comes denied said (https, passes, tcps, privates) h =
      let (valid, e) = seq-eq-ok _ _ h in
      let new : IsTcpGranted observations answers p grant =
        (with_context-eq-ok _ _ valid, inl (t, comes, denied, said)) in
      rw (← ok_inj e) (https, passes, All-append _ q.tcp (grant ∷ []) tcps (inr new, tt), privates)

  ask_http-Holds :
      (host : Text) (s s' : Session)
      → ComesToHttp observations answers p host s
      → Denied observations answers (HasMethod host)
      → Holds s
      → ask_http host s ≡ ok s'
      → Holds s'
  unfolding ask_http
  ask_http-Holds host (q, rest) s' comes denied kept h =
      let ((answer, rest'), asked, h₁) = bind-eq-ok _ _ h in
      elim (Bool-cases (answer == text "y")) [
        | inl yes_said ↦
            let said =
              prompt-Says observations answers rest answer rest' asked (text "y") (cc) yes_said in
            push_http-Holds host (q, rest') s' (inl ((q, rest), comes, denied, said)) kept
              (rw yes_said at h₁)
        | inr no_said ↦ rw (← ok_inj (rw no_said at h₁)) kept
      ]

  pub review_http-Holds :
      (s : Session) (host : Text) (s' : Session) (reserved : List Text)
      → Denied observations answers (HasMethod host)
      → ComesToHttp observations answers p host s
      → Holds s
      → review_http reserved s host ≡ ok s'
      → Holds s'
  unfolding review_http
  review_http-Holds (q, rest) host s' reserved denied comes now h =
      elim (Bool-cases (contains q.http_hosts host || contains reserved host)) [
        | inl known ↦ rw (← ok_inj (rw known at h)) now
        | inr new ↦ ask_http-Holds host (q, rest) s' comes denied now (rw new at h)
      ]

  -- `t` is the state in which the question was asked, `s` the one behind its answer.
  ask_port-Holds :
      (host : Text) (s s' t : Session)
      → ComesToName observations answers p host t
      → Denied observations answers (NamesHost host)
      → Says observations answers (text "t") t.1
      → prompt t.1 ≡ ok (text "t", s.1)
      → Holds s
      → ask_port host s ≡ ok s'
      → Holds s'
  unfolding ask_port
  ask_port-Holds host (q, rest) s' t comes denied said first (https, passes, tcps, privates) h =
      let (valid, h₁) = seq-eq-ok _ _ h in
      let ((answer, rest'), asked, h₂) = bind-eq-ok _ _ h₁ in
      let (port, read, e) = bind-eq-ok _ _ h₂ in
      let grant : TcpGrant = record { host = host; port = port } in
      let new : IsTcpGranted observations answers p grant = (
        with_context-eq-ok _ _ valid,
        inr (t, comes, denied, said, answer, rest, rest', first, asked, context-eq-ok _ _ read),
      ) in
      rw (← ok_inj e) (https, passes, All-append _ q.tcp (grant ∷ []) tcps (inr new, tt), privates)

  classify-Holds :
      (host : Text) (s : Session) (answer : Text) (s' t : Session)
      → ComesToName observations answers p host t
      → Denied observations answers (NamesHost host)
      → prompt t.1 ≡ ok (answer, s.1)
      → Holds s
      → classify host s answer ≡ ok s'
      → Holds s'
  unfolding classify
  classify-Holds host (q, rest) answer s' t comes denied asked now h =
      let said = prompt-Says observations answers t.1 answer rest asked in
      elim (Bool-cases (answer == text "h")) [
        | inl as_http ↦
            push_http-Holds host (q, rest) s' (inr (t, comes, denied, said (text "h") (cc) as_http))
              now (rw as_http at h)
        | inr no_h ↦ elim (Bool-cases (answer == text "p")) [
          | inl as_passthrough ↦
              push_passthrough-Holds host (q, rest) s' t comes denied
                (said (text "p") (cc) as_passthrough) now (rw (no_h, as_passthrough) at h)
          | inr no_p ↦ elim (Bool-cases (answer == text "t")) [
            | inl as_tcp ↦
                ask_port-Holds host (q, rest) s' t comes denied (said (text "t") (cc) as_tcp)
                  (asked ∙ ap (λ a. ok (a, rest)) ((list_beq_iff answer (text "t")).0 as_tcp)) now
                  (rw (no_h, no_p, as_tcp) at h)
            | inr no_t ↦ rw (← ok_inj (rw (no_h, no_p, no_t) at h)) now
          ]
        ]
      ]

  pub review_dns-Holds :
      (s : Session) (host : Text) (s' : Session) (reserved : List Text)
      → Denied observations answers (NamesHost host)
      → ComesToName observations answers p host s
      → Holds s
      → review_dns reserved s host ≡ ok s'
      → Holds s'
  unfolding review_dns ask_dns
  review_dns-Holds (q, rest) host s' reserved denied comes now h =
      elim (Bool-cases (
        contains q.http_hosts host
        || (contains q.passthrough_hosts host || contains reserved host))) [
          | inl known ↦ rw (← ok_inj (rw known at h)) now
          | inr new ↦
              let asks : ask_dns host (q, rest) ≡ ok s' = rw new at h in
              let ((answer, rest'), asked, h₁) = bind-eq-ok _ _ asks in
              classify-Holds host (q, rest') answer s' (q, rest) comes denied asked now h₁
        ]

  pub review_tcp-Holds :
      (s : Session) (grant : TcpGrant) (s' : Session)
      → Denied observations answers (IsDirect grant)
      → ComesToTcp observations answers p grant s
      → Holds s
      → review_tcp s grant ≡ ok s'
      → Holds s'
  unfolding review_tcp ask_tcp
  review_tcp-Holds (q, rest) grant s' denied comes now h =
      elim (Bool-cases (any (λ g. g == grant) q.tcp)) [
        | inl known ↦ rw (← ok_inj (rw known at h)) now
        | inr new ↦
            let asks : ask_tcp grant (q, rest) ≡ ok s' = rw new at h in
            let ((answer, rest'), asked, h₁) = bind-eq-ok _ _ asks in
            elim (Bool-cases (answer == text "y")) [
              | inl yes_said ↦
                  push_tcp-Holds grant (q, rest') s' (q, rest) comes denied
                    (prompt-Says observations answers rest answer rest' asked (text "y") (cc)
                      yes_said)
                    now (rw yes_said at h₁)
              | inr no_said ↦ rw (← ok_inj (rw no_said at h₁)) now
            ]
      ]
