-- ===== src/Policy/Review/Observed.antt =====
-- Where the grants of a reviewed policy come from.
use seter.Prelude.{
  ◌≡◌, inl, inr, Option, none, some, List, All-of, All-retain, ok, bind-eq-ok, ok_inj, Bool-cases,
}
use seter.Prelude.Loops.{try_fold-kept, try_fold-reached}
use seter.Prelude.Eq.{◌==◌, nat_eq, list_eq}
use seter.Prelude.Text.{Text, text, strip_prefix}
use seter.Prelude.Order.{collect}
use seter.Prelude.Order.Sorting.{collect-In}
use seter.Policy.{tcp_eq, EgressPolicy}
use seter.Policy.Grants.{
  grants, remove_grant, remove_private, remove_tcp, remove_passthrough, remove_http,
}
use seter.Audit.{AuditGroup}
use seter.Policy.Review.{
  Session, private_hosts, http_hosts_of, dns_hosts_of, tcp_of, collect_tcp, review_existing,
  review_egress,
}
use seter.Policy.Review.Evidence.{
  IsReviewOf, collect_tcp-In, http_hosts_of-Denied, dns_hosts_of-Denied, tcp_of-Denied,
}
use seter.Policy.Review.Additions.{Holds, review_http-Holds, review_dns-Holds, review_tcp-Holds}

module _ (observations : List AuditGroup) (answers : List (Option Text)) where
  module _ (p : EgressPolicy) where
    remove_private-IsReviewOf :
        (q : EgressPolicy) (d : Option Text)
        → IsReviewOf observations answers p q
        → IsReviewOf observations answers p (remove_private q d)
    remove_private-IsReviewOf q none kept = kept
    remove_private-IsReviewOf q (some d) (https, passes, tcps, privates) =
        (https, passes, tcps, All-retain _ _ q.private_http privates)

    remove_tcp-IsReviewOf :
        (q : EgressPolicy) (d : Option Text) (other : EgressPolicy)
        → IsReviewOf observations answers p q
        → IsReviewOf observations answers p other
        → IsReviewOf observations answers p (remove_tcp q d other)
    remove_tcp-IsReviewOf q none other kept kept' = kept'
    remove_tcp-IsReviewOf q (some d) other (https, passes, tcps, privates) kept' =
        (https, passes, All-retain _ _ q.tcp tcps, privates)

    remove_passthrough-IsReviewOf :
        (q : EgressPolicy) (d : Option Text) (other : EgressPolicy)
        → IsReviewOf observations answers p q
        → IsReviewOf observations answers p other
        → IsReviewOf observations answers p (remove_passthrough q d other)
    remove_passthrough-IsReviewOf q none other kept kept' = kept'
    remove_passthrough-IsReviewOf q (some d) other (https, passes, tcps, privates) kept' =
        (https, All-retain _ _ q.passthrough_hosts passes, tcps, privates)

    remove_http-IsReviewOf :
        (q : EgressPolicy) (d : Option Text) (other : EgressPolicy)
        → IsReviewOf observations answers p q
        → IsReviewOf observations answers p other
        → IsReviewOf observations answers p (remove_http q d other)
    remove_http-IsReviewOf q none other kept kept' = kept'
    remove_http-IsReviewOf q (some d) other (https, passes, tcps, privates) kept' =
        (All-retain _ _ q.http_hosts https, passes, tcps, privates)

    remove_grant-IsReviewOf :
        (q : EgressPolicy) (grant : Text)
        → IsReviewOf observations answers p q
        → IsReviewOf observations answers p (remove_grant q grant)
    unfolding remove_grant
    remove_grant-IsReviewOf q grant kept =
        let private = strip_prefix (text "private-http ") grant in
        let tcp = strip_prefix (text "tcp ") grant in
        let passthrough = strip_prefix (text "passthrough ") grant in
        let kept₁ = remove_private-IsReviewOf q private kept in
        let kept₂ = remove_tcp-IsReviewOf q tcp (remove_private q private) kept kept₁ in
        let kept₃ =
          remove_passthrough-IsReviewOf q passthrough (remove_tcp q tcp (remove_private q private))
            kept kept₂ in
        remove_http-IsReviewOf q (strip_prefix (text "http ") grant)
          (remove_passthrough q passthrough (remove_tcp q tcp (remove_private q private))) kept
          kept₃

    review_existing-Holds :
        (s : Session) (grant : Text) (s' : Session)
        → Unit {0}
        → Holds observations answers p s
        → review_existing s grant ≡ ok s'
        → Holds observations answers p s'
    unfolding review_existing
    review_existing-Holds (q, rest) grant s' known kept h =
        let ((answer, rest'), asked, h₁) = bind-eq-ok _ _ h in
        rw (← ok_inj h₁) (elim (Bool-cases (answer == text "y")) [
          | inl revoked ↦ rw revoked (remove_grant-IsReviewOf q grant kept)
          | inr keeps ↦ rw keeps kept
        ])

-- What a review keeps from question to question holds at its end: each HTTP host, passthrough host and direct-TCP
-- grant that is new has an exact host that passes validation, a denied observation that names it, and the answer that
-- consents to it as the next line when the review comes to it.
pub review_egress-IsReviewOf :
    (observations : List AuditGroup) (answers : List (Option Text)) (p q : EgressPolicy)
    (rest : List (Option Text))
    → review_egress observations (p, answers) ≡ ok (q, rest)
    → IsReviewOf observations answers p q
unfolding review_egress
review_egress-IsReviewOf observations answers p q rest h =
    let (s₁, https, h₁) = bind-eq-ok _ _ h in
    let (s₂, names, h₂) = bind-eq-ok _ _ h₁ in
    let (s₃, direct, revoked) = bind-eq-ok _ _ h₂ in
    let holds : Session → Type 0 = Holds observations answers p in
    let begun : holds (p, answers) = (
      All-of _ p.http_hosts (λ x m. inl m),
      All-of _ p.passthrough_hosts (λ x m. inl m),
      All-of _ p.tcp (λ x m. inl m),
      All-of _ p.private_http (λ x m. m),
    ) in
    let after_http : holds s₁ =
      try_fold-reached _ (p, answers) (collect (http_hosts_of observations)) holds _
        (λ s x s' denied comes now e.
          review_http-Holds observations answers p s x s' (private_hosts p) denied comes now e)
        (All-of _ _ (λ x m.
          http_hosts_of-Denied observations answers observations (λ g n. n) x
            ((collect-In (http_hosts_of observations) x).0 m)))
        begun https in
    let after_dns : holds s₂ =
      try_fold-reached _ s₁ (collect (dns_hosts_of observations)) holds _
        (λ s x s' denied comes now e.
          review_dns-Holds observations answers p s x s' (private_hosts p) denied (s₁, https, comes)
            now e)
        (All-of _ _ (λ x m.
          dns_hosts_of-Denied observations answers observations (λ g n. n) x
            ((collect-In (dns_hosts_of observations) x).0 m)))
        after_http names in
    let after_tcp : holds s₃ =
      try_fold-reached _ s₂ (collect_tcp (tcp_of observations)) holds _
        (λ s x s' denied comes now e.
          review_tcp-Holds observations answers p s x s' denied (s₂, (s₁, https, names), comes) now
            e)
        (All-of _ _ (λ x m.
          tcp_of-Denied observations answers observations (λ g n. n) x
            (collect_tcp-In (tcp_of observations) x m)))
        after_dns direct in
    try_fold-kept _ holds (λ g. Unit {0}) (review_existing-Holds observations answers p) s₃
      (grants p) (All-of _ (grants p) (λ x m. tt)) after_tcp revoked
