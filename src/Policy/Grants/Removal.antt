-- ===== src/Policy/Grants/Removal.antt =====
-- `remove_grant` takes one grant out of the set of grants and keeps the others.
use mathlib.Core.Bool.{false≢true}
use seter.Prelude.{
  ◌≡◌, ◌≢◌, refl, sym, ap, ◌∙◌, ◌↔◌, not, none, some, List, [], ◌∷◌, ◌++◌, retain, In, map, inl,
  inr, ◌⊎◌, Bool-cases, Option-cases,
}
use seter.Prelude.Eq.{◌==◌, nat_eq, list_eq, list_beq_iff}
use seter.Prelude.Text.{Text, text, strip_prefix}
use seter.Prelude.Text.Split.Laws.{strip_prefix-append}
use seter.Prelude.Order.Sorting.{collect-In}
use seter.Policy.{EgressPolicy, TcpGrant, PrivateHttpGrant}
use seter.Policy.Grants.{grant_texts, grants, remove_grant, tcp_text, private_text}

append_inj : (p s t : Text) → p ++ s ≡ p ++ t → s ≡ t
append_inj [] s t h = h
append_inj (c ∷ p) s t h = append_inj p s t (cc)

In-append : (xs ys : List Text) (a : Text) → In a (xs ++ ys) ↔ (In a xs ⊎ In a ys)
In-append [] ys a = (λ m. inr m, elim [ inl m ↦ absurd m | inr m ↦ m ])
In-append (x ∷ xs) ys a =
    let (to, from) = In-append xs ys a in
    (
      elim [ inl e ↦ inl (inl e) | inr m ↦ elim (to m) [ inl n ↦ inl (inr n) | inr n ↦ inr n ] ],
      elim [
        | inl m ↦ elim m [ inl e ↦ inl e | inr n ↦ inr (from (inl n)) ]
        | inr n ↦ inr (from (inr n))
      ],
    )

module _ (a g : Text) where
  -- `xs'` is `xs` without `g`, as far as `a` can tell.
  abbrev IsWithout : List Text → List Text → Type 0
  IsWithout xs' xs = In a xs' ↔ (In a xs × (a ≢ g))

  IsWithout-append :
      (xs' xs ys' ys : List Text)
      → IsWithout xs' xs
      → IsWithout ys' ys
      → IsWithout (xs' ++ ys') (xs ++ ys)
  IsWithout-append xs' xs ys' ys f h = (
    λ m. elim ((In-append xs' ys' a).0 m) [
      | inl n ↦ ((In-append xs ys a).1 (inl (f.0 n).0), (f.0 n).1)
      | inr n ↦ ((In-append xs ys a).1 (inr (h.0 n).0), (h.0 n).1)
    ],
    λ (m, ne).
        (In-append xs' ys' a).1 (elim ((In-append xs ys a).0 m) [
          | inl n ↦ inl (f.1 (n, ne))
          | inr n ↦ inr (h.1 (n, ne))
        ]),
  )

  module _ {A : Type 0} (prefix : Text) (show : A → Text) where
    abbrev texts : List A → List Text
    texts xs = map (λ x. prefix ++ show x) xs

    not_among : ((s : Text) → prefix ++ s ≢ g) → (xs : List A) → In a (texts xs) → a ≢ g
    not_among h [] m e = m
    not_among h (x ∷ xs) (inl same) e = h (show x) (sym same ∙ e)
    not_among h (x ∷ xs) (inr m) e = not_among h xs m e

    -- A family of texts that `g` does not belong to is left alone.
    IsWithout-kept :
        ((s : Text) → prefix ++ s ≢ g) → (xs : List A) → IsWithout (texts xs) (texts xs)
    IsWithout-kept h xs = (λ m. (m, not_among h xs m), λ (m, ne). m)

    -- `retain` takes `g` out of its own family.
    IsWithout-retain :
        (d : Text)
        → g ≡ prefix ++ d
        → (xs : List A) → IsWithout (texts (retain (λ x. not (show x == d)) xs)) (texts xs)
    IsWithout-retain d e [] = (λ m. absurd m, λ (m, ne). absurd m)
    IsWithout-retain d e (x ∷ xs) =
        let (to, from) = IsWithout-retain d e xs in
        elim (Bool-cases (show x == d)) [
          | inl hit ↦
              let gone : prefix ++ show x ≡ g =
                ap (λ t. prefix ++ t) ((list_beq_iff (show x) d).0 hit) ∙ sym e in
              rw hit (
                λ m. (inr (to m).0, (to m).1),
                λ (m, ne). elim m [
                  | inl here ↦ absurd (ne (here ∙ gone))
                  | inr later ↦ from (later, ne)
                ],
              )
          | inr miss ↦
              let other : prefix ++ show x ≢ g = λ same. false≢true (
                sym miss ∙ (list_beq_iff (show x) d).1 (append_inj prefix (show x) d (same ∙ e))) in
              rw miss (
                elim [
                  | inl here ↦ (inl here, λ same. other (sym here ∙ same))
                  | inr later ↦ (inr (to later).0, (to later).1)
                ],
                λ (m, ne). elim m [ inl here ↦ inl here | inr later ↦ inr (from (later, ne)) ],
              )
        ]

-- A text with one prefix does not have another.
other_prefix :
    (q p g d : Text)
    → ((s : Text) → strip_prefix q (p ++ s) ≡ none)
    → strip_prefix q g ≡ some d
    → (s : Text) → p ++ s ≢ g
other_prefix q p g d none_of found s e = cc (none_of s, found, ap (strip_prefix q) e)

no_prefix :
    (p g : Text)
    → ((s : Text) → strip_prefix p (p ++ s) ≡ some s)
    → strip_prefix p g ≡ none
    → (s : Text) → p ++ s ≢ g
no_prefix p g some_of absent s e = cc (some_of s, absent, ap (strip_prefix p) e)

module _ (p : EgressPolicy) (a g : Text) where
  abbrev http_texts : List Text → List Text
  http_texts = texts a g (text "http ") (λ host. host)

  abbrev passthrough_texts : List Text → List Text
  passthrough_texts = texts a g (text "passthrough ") (λ host. host)

  abbrev tcp_texts : List TcpGrant → List Text
  tcp_texts = texts a g (text "tcp ") tcp_text

  abbrev private_texts : List PrivateHttpGrant → List Text
  private_texts = texts a g (text "private-http ") private_text

  four :
      (h' : List Text) (q' : List Text) (t' : List TcpGrant) (r' : List PrivateHttpGrant)
      → IsWithout a g (http_texts h') (http_texts p.http_hosts)
      → IsWithout a g (passthrough_texts q') (passthrough_texts p.passthrough_hosts)
      → IsWithout a g (tcp_texts t') (tcp_texts p.tcp)
      → IsWithout a g (private_texts r') (private_texts p.private_http)
      → IsWithout a g
          (grant_texts
            (record { http_hosts = h'; passthrough_hosts = q'; tcp = t'; private_http = r' }))
          (grant_texts p)
  unfolding grant_texts
  four h' q' t' r' wh wq wt wr =
      IsWithout-append a g _ _ _ _ wh
        (IsWithout-append a g _ _ _ _ wq (IsWithout-append a g _ _ _ _ wt wr))

  http_kept :
      ((s : Text) → text "http " ++ s ≢ g)
      → IsWithout a g (http_texts p.http_hosts) (http_texts p.http_hosts)
  http_kept h = IsWithout-kept a g (text "http ") (λ host. host) h p.http_hosts

  passthrough_kept :
      ((s : Text) → text "passthrough " ++ s ≢ g)
      → IsWithout a g
          (passthrough_texts p.passthrough_hosts)
          (passthrough_texts p.passthrough_hosts)
  passthrough_kept h = IsWithout-kept a g (text "passthrough ") (λ host. host) h p.passthrough_hosts

  tcp_kept : ((s : Text) → text "tcp " ++ s ≢ g) → IsWithout a g (tcp_texts p.tcp) (tcp_texts p.tcp)
  tcp_kept h = IsWithout-kept a g (text "tcp ") tcp_text h p.tcp

  private_kept :
      ((s : Text) → text "private-http " ++ s ≢ g)
      → IsWithout a g (private_texts p.private_http) (private_texts p.private_http)
  private_kept h = IsWithout-kept a g (text "private-http ") private_text h p.private_http

  last_family :
      strip_prefix (text "http ") g ≡ none
      → strip_prefix (text "passthrough ") g ≡ none
      → strip_prefix (text "tcp ") g ≡ none
      → IsWithout a g (grant_texts (remove_grant p g)) (grant_texts p)
  unfolding remove_grant
  last_family no_http no_passthrough no_tcp =
      let http = http_kept (no_prefix (text "http ") g (λ s. refl) no_http) in
      let passthrough =
        passthrough_kept (no_prefix (text "passthrough ") g (λ s. refl) no_passthrough) in
      let tcp = tcp_kept (no_prefix (text "tcp ") g (λ s. refl) no_tcp) in
      elim (Option-cases (strip_prefix (text "private-http ") g)) [
        | inr (d, f) ↦
            rw (no_http, no_passthrough, no_tcp, f)
              (four p.http_hosts p.passthrough_hosts p.tcp _ http passthrough tcp (
                IsWithout-retain a g (text "private-http ") private_text d
                  (strip_prefix-append (text "private-http ") g d f) p.private_http))
        | inl no_private ↦
            rw (no_http, no_passthrough, no_tcp, no_private)
              (four p.http_hosts p.passthrough_hosts p.tcp _ http passthrough tcp
                (private_kept (no_prefix (text "private-http ") g (λ s. refl) no_private)))
      ]

  IsWithout-grant : IsWithout a g (grant_texts (remove_grant p g)) (grant_texts p)
  unfolding remove_grant
  IsWithout-grant = elim (Option-cases (strip_prefix (text "http ") g)) [
    | inr (d, f) ↦
        let other =
          λ (q : Text) (none_of : (s : Text) → strip_prefix (text "http ") (q ++ s) ≡ none).
            other_prefix (text "http ") q g d none_of f in
        rw f (
          four _ _ _ _
            (IsWithout-retain a g (text "http ") (λ host. host) d
              (strip_prefix-append (text "http ") g d f) p.http_hosts)
            (passthrough_kept (other (text "passthrough ") (λ s. refl)))
            (tcp_kept (other (text "tcp ") (λ s. refl)))
            (private_kept (other (text "private-http ") (λ s. refl))))
    | inl no_http ↦ elim (Option-cases (strip_prefix (text "passthrough ") g)) [
      | inr (d, f) ↦
          let other =
            λ (q : Text)
                (none_of : (s : Text) → strip_prefix (text "passthrough ") (q ++ s) ≡ none).
              other_prefix (text "passthrough ") q g d none_of f in
          rw (no_http, f)
            (four _ _ _ _ (http_kept (no_prefix (text "http ") g (λ s. refl) no_http))
              (IsWithout-retain a g (text "passthrough ") (λ host. host) d
                (strip_prefix-append (text "passthrough ") g d f) p.passthrough_hosts)
              (tcp_kept (other (text "tcp ") (λ s. refl)))
              (private_kept (other (text "private-http ") (λ s. refl))))
      | inl no_passthrough ↦ elim (Option-cases (strip_prefix (text "tcp ") g)) [
        | inr (d, f) ↦
            rw (no_http, no_passthrough, f)
              (four _ _ _ _ (http_kept (no_prefix (text "http ") g (λ s. refl) no_http))
                (passthrough_kept (no_prefix (text "passthrough ") g (λ s. refl) no_passthrough))
                (IsWithout-retain a g (text "tcp ") tcp_text d
                  (strip_prefix-append (text "tcp ") g d f) p.tcp)
                (private_kept
                  (other_prefix (text "tcp ") (text "private-http ") g d (λ s. refl) f)))
        | inl no_tcp ↦ last_family no_http no_passthrough no_tcp
      ]
    ]
  ]

-- Revoking a grant by the text that `grants` shows for it takes exactly that grant out: afterwards
-- the set of grants holds the texts that it held before, and not the revoked one.
pub grants-remove_grant :
    (p : EgressPolicy) (g a : Text) → In a (grants (remove_grant p g)) ↔ (In a (grants p) × (a ≢ g))
unfolding grants
grants-remove_grant p g a =
    let (to', from') = collect-In (grant_texts (remove_grant p g)) a in
    let (to, from) = collect-In (grant_texts p) a in
    let (cut, put) = IsWithout-grant p a g in
    (λ m. (from (cut (to' m)).0, (cut (to' m)).1), λ (m, ne). from' (put (to m, ne)))
