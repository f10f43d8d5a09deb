-- ===== src/Policy/Review/Consent.antt =====
-- What `review` proposes: a valid policy in normal form, and no change without consent.
use seter.Prelude.{
  ◌≡◌, refl, Bool, true, false, Option, none, some, List, [], ◌∷◌, All, Result, ok, bind-eq-ok,
  seq-eq-ok, with_context-eq-ok, ok_inj, pair-eq, try_fold, ◌>>=◌, if◌then◌else◌,
}
use seter.Prelude.Eq.{◌==◌, nat_eq, list_eq}
use seter.Prelude.Text.{Text, text, trim}
use seter.Prelude.Text.Ascii.{to_ascii_lowercase}
use seter.Prelude.Map.{insert}
use seter.Prelude.Order.{collect}
use seter.Registry.{Registry}
use seter.Policy.{TcpGrant, tcp_eq, EgressPolicy, PolicyFile}
use seter.Policy.Normalize.{normalize}
use seter.Policy.Normalize.Idempotent.{normalize_idem}
use seter.Policy.Validate.{validate}
use seter.Policy.Grants.{grants}
use seter.Audit.{AuditGroup}
use seter.Policy.Review.{
  ReviewError, Session, prompt, private_hosts, http_hosts_of, dns_hosts_of, tcp_of, collect_tcp,
  ask_http, review_http, classify, ask_dns, review_dns, ask_tcp, review_tcp, review_existing,
  review_egress, review,
}

-- The policy that `review` proposes is valid for the registry and in normal form.
pub review-IsValid :
    (rules : List Text) (r : Registry) (name : Text) (file : PolicyFile)
    (observations : List AuditGroup) (answers : List (Option Text)) (proposed : PolicyFile)
    (rest : List (Option Text))
    → review rules r name file observations answers ≡ ok (proposed, rest)
    → (validate rules r proposed ≡ ok tt) × (normalize proposed ≡ proposed)
unfolding review
review-IsValid rules r name file observations answers proposed rest h =
    let ((egress, left), reviewed, h₁) = bind-eq-ok _ _ h in
    let (valid, h₂) = seq-eq-ok _ _ h₁ in
    let drafted = record file {
      workspaces = insert name (record { egress = egress }) file.workspaces;
    } in
    let same : normalize drafted ≡ proposed = (pair-eq (ok_inj h₂)).0 in
    (rw (← same) (with_context-eq-ok _ _ valid), rw (← same) (normalize_idem drafted))

-- An answer that consents to nothing.
abbrev pub IsRefusal : Text → Type 0
IsRefusal answer =
    ((answer == text "y") ≡ false)
    × ((answer == text "h") ≡ false)
    × ((answer == text "p") ≡ false)
    × ((answer == text "t") ≡ false)

abbrev pub IsRefused : Option Text → Type 0
IsRefused none = ⊥
IsRefused (some line) = IsRefusal (to_ascii_lowercase (trim line))

prompt-IsRefusal :
    (answers : List (Option Text))
    → All IsRefused answers
    → (answer : Text) × (rest : List (Option Text)) × (prompt answers ≡ ok (answer, rest))
      × IsRefusal answer
      × All IsRefused rest
unfolding prompt
prompt-IsRefusal [] refused = ([], [], refl, (refl, refl, refl, refl), tt)
prompt-IsRefusal (none ∷ rest) (never, refused) = absurd never
prompt-IsRefusal (some line ∷ rest) (declined, refused) = (_, rest, refl, declined, refused)

module _ (p : EgressPolicy) where
  -- The step leaves the policy as it is.
  abbrev IsKept : Result ReviewError Session → Type 0
  IsKept result = (rest : List (Option Text)) × (result ≡ ok (p, rest)) × All IsRefused rest

  IsKept-loop :
      {A : Type 0} (body : Session → A → Result ReviewError Session)
      → ((answers : List (Option Text)) (x : A)
          → All IsRefused answers
          → IsKept (body (p, answers) x))
      → (xs : List A) (answers : List (Option Text)) → All IsRefused answers
      → IsKept (try_fold body (p, answers) xs)
  unfolding try_fold ◌>>=◌
  IsKept-loop body step [] answers refused = (answers, refl, refused)
  IsKept-loop body step (x ∷ xs) answers refused =
      let (rest, e, refused') = step answers x refused in
      rw e (IsKept-loop body step xs rest refused')

  IsKept-unless :
      (b : Bool) (asked : Result ReviewError Session) (answers : List (Option Text))
      → All IsRefused answers
      → IsKept asked
      → IsKept (if b then ok (p, answers) else asked)
  IsKept-unless true asked answers refused kept = (answers, refl, refused)
  IsKept-unless false asked answers refused kept = kept

  review_http-IsKept :
      (reserved : List Text) (answers : List (Option Text)) (host : Text)
      → All IsRefused answers
      → IsKept (review_http reserved (p, answers) host)
  unfolding review_http ask_http ◌>>=◌
  review_http-IsKept reserved answers host refused =
      let (answer, rest, e, (no_y, no_h, no_p, no_t), refused') =
        prompt-IsRefusal answers refused in
      let kept : IsKept (ask_http host (p, answers)) = rw (e, no_y) (rest, refl, refused') in
      IsKept-unless _ (ask_http host (p, answers)) answers refused kept

  review_dns-IsKept :
      (reserved : List Text) (answers : List (Option Text)) (host : Text)
      → All IsRefused answers
      → IsKept (review_dns reserved (p, answers) host)
  unfolding review_dns ask_dns classify ◌>>=◌
  review_dns-IsKept reserved answers host refused =
      let (answer, rest, e, (no_y, no_h, no_p, no_t), refused') =
        prompt-IsRefusal answers refused in
      let kept : IsKept (ask_dns host (p, answers)) =
        rw (e, no_h, no_p, no_t) (rest, refl, refused') in
      IsKept-unless _ (ask_dns host (p, answers)) answers refused kept

  review_tcp-IsKept :
      (answers : List (Option Text)) (grant : TcpGrant)
      → All IsRefused answers
      → IsKept (review_tcp (p, answers) grant)
  unfolding review_tcp ask_tcp ◌>>=◌
  review_tcp-IsKept answers grant refused =
      let (answer, rest, e, (no_y, no_h, no_p, no_t), refused') =
        prompt-IsRefusal answers refused in
      let kept : IsKept (ask_tcp grant (p, answers)) = rw (e, no_y) (rest, refl, refused') in
      IsKept-unless _ (ask_tcp grant (p, answers)) answers refused kept

  review_existing-IsKept :
      (answers : List (Option Text)) (grant : Text)
      → All IsRefused answers
      → IsKept (review_existing (p, answers) grant)
  unfolding review_existing ◌>>=◌
  review_existing-IsKept answers grant refused =
      let (answer, rest, e, (no_y, no_h, no_p, no_t), refused') =
        prompt-IsRefusal answers refused in
      rw (e, no_y) (rest, refl, refused')

  -- If each answer is something other than "y", "h", "p" and "t" once it is trimmed and in lower
  -- case, or the input has ended, the review ends without an error and leaves the policy as it is,
  -- whatever was observed.
  pub review_egress-refused :
      (observations : List AuditGroup) (answers : List (Option Text))
      → All IsRefused answers
      → (rest : List (Option Text)) × (review_egress observations (p, answers) ≡ ok (p, rest))
  unfolding review_egress ◌>>=◌
  review_egress-refused observations answers refused =
      let (rest₁, e₁, r₁) =
        IsKept-loop (review_http (private_hosts p)) (review_http-IsKept (private_hosts p))
          (collect (http_hosts_of observations)) answers refused in
      let (rest₂, e₂, r₂) =
        IsKept-loop (review_dns (private_hosts p)) (review_dns-IsKept (private_hosts p))
          (collect (dns_hosts_of observations)) rest₁ r₁ in
      let (rest₃, e₃, r₃) =
        IsKept-loop review_tcp review_tcp-IsKept (collect_tcp (tcp_of observations)) rest₂ r₂ in
      let (rest₄, e₄, r₄) =
        IsKept-loop review_existing review_existing-IsKept (grants p) rest₃ r₃ in
      (rest₄, rw (e₁, e₂, e₃, e₄) refl)
