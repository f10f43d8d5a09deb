-- ===== src/HostPatterns/Overlap.antt =====
-- `patterns_overlap` decides whether two Host Patterns name a common host.
use seter.Prelude.{
  ◌≡◌, sym, ap, ◌∙◌, ◌↔◌, true, Option, none, some, List, [], ◌∷◌, ok, is_ok, arith, Bool-cases,
  Option-cases, or_cases, or_left, or_right, inl, inr, ◌⊎◌, leb→le, is_ok_iff, seq-eq-ok,
  ensure-eq-ok,
}
use seter.Prelude.Eq.{nat_eq, list_eq, list_beq_iff, ==_refl}
use seter.Prelude.Text.{Text, text, strip_prefix}
use seter.Prelude.Text.Ascii.{to_ascii_lowercase, to_ascii_lowercase_idem, lower}
use seter.Prelude.Text.Split.{split_once}
use seter.HostPatterns.{
  validate_exact_host, validate_host_pattern, covers, rest_is, pattern_matches, patterns_overlap,
}
use seter.HostPatterns.Labels.{
  validate_exact_host-lower, validate_exact_host-cases, IsDnsName-valid, IsDnsName-prepend,
}
use mathlib.Core.Bool.{false≢true}

abbrev IsHost : Text → Type 0
IsHost host = validate_exact_host host ≡ ok tt

strip_star : (s t : Text) → strip_prefix (text "*.") s ≡ some t → s ≡ b'*' ∷ b'.' ∷ t
strip_star [] t h = cc
strip_star (a ∷ []) t h = ground arith
strip_star (a ∷ b ∷ s) t h = ground arith

pattern_matches-cases :
    (p h : Text)
    → pattern_matches p h ≡ true
    → IsHost h × (covers (to_ascii_lowercase p) (to_ascii_lowercase h) ≡ true)
unfolding pattern_matches
pattern_matches-cases p h m = elim (Bool-cases (is_ok (validate_exact_host h))) [
  | inl good ↦ (is_ok_iff _ good, rw good at m)
  | inr bad ↦ absurd (false≢true (rw bad at m))
]

pattern_matches_of :
    (p h : Text)
    → IsHost h
    → covers (to_ascii_lowercase p) (to_ascii_lowercase h) ≡ true
    → pattern_matches p h ≡ true
unfolding pattern_matches
pattern_matches_of p h v c = rw v c

-- What a pattern covers depends on the host's lower case alone.
pattern_matches-eq_of_lower :
    (p h k : Text)
    → IsHost k
    → to_ascii_lowercase h ≡ to_ascii_lowercase k
    → pattern_matches p h ≡ true
    → pattern_matches p k ≡ true
pattern_matches-eq_of_lower p h k v e m =
    pattern_matches_of p k v (rw (← e) (pattern_matches-cases p h m).1)

IsHost-of_lower : (h k : Text) → to_ascii_lowercase h ≡ to_ascii_lowercase k → IsHost k → IsHost h
IsHost-of_lower h k e v = rw (← validate_exact_host-lower h, e, validate_exact_host-lower k) v

-- A host that matches itself.
pattern_matches_self : (h : Text) → IsHost h → pattern_matches h h ≡ true
pattern_matches_self h v = pattern_matches_of h h v (or_left _ _ (==_refl (to_ascii_lowercase h)))

-- The way a pattern covers a host: as the same name, or by a wildcard.
covers-cases :
    (p h : Text)
    → covers p h ≡ true
    → (p ≡ h) ⊎ ((s : Text) × (p ≡ b'*' ∷ b'.' ∷ s) × (rest_is s (split_once b'.' h) ≡ true))
covers-cases p h c = elim (or_cases _ _ c) [
  | inl same ↦ inl ((list_beq_iff p h).0 same)
  | inr wild ↦ elim (Option-cases (strip_prefix (text "*.") p)) [
    | inl e ↦ absurd (false≢true (rw e at wild))
    | inr f ↦ inr (f.0, strip_star p f.0 f.1, rw f.1 at wild)
  ]
]

rest_is-eq :
    (s t : Text) (o : Option (Text × Text)) → rest_is s o ≡ true → rest_is t o ≡ true → s ≡ t
rest_is-eq s t none h k = cc
rest_is-eq s t (some (first, rest)) h k = ground (arith, list_beq_iff rest s, list_beq_iff rest t)

-- A valid wildcard pattern covers a host: put the label "a" in front of its suffix.
wildcard-IsHost :
    (rules : List Text) (p s : Text)
    → validate_host_pattern rules p ≡ ok tt
    → to_ascii_lowercase p ≡ b'*' ∷ b'.' ∷ s
    → IsHost (b'a' ∷ b'.' ∷ s)
unfolding validate_host_pattern
wildcard-IsHost rules p s v e =
    let (short, v') = seq-eq-ok _ _ v in
    let (host, v'') = seq-eq-ok _ _ (rw e at v') in
    let (no_address, _) = seq-eq-ok _ _ v'' in
    elim (validate_exact_host-cases s host) [
      | inl address ↦ absurd (false≢true (rw address at (ensure-eq-ok _ _ no_address)))
      | inr name ↦
          IsDnsName-valid _ (
            IsDnsName-prepend s name (omega (arith, leb→le _ _ (rw e at (ensure-eq-ok _ _ short)))))
    ]

covers-wildcard-IsHost :
    (p s : Text)
    → to_ascii_lowercase p ≡ b'*' ∷ b'.' ∷ s
    → covers (to_ascii_lowercase p) (to_ascii_lowercase (b'a' ∷ b'.' ∷ s)) ≡ true
unfolding lower
covers-wildcard-IsHost p s e =
    let twice : b'*' ∷ b'.' ∷ to_ascii_lowercase s ≡ b'*' ∷ b'.' ∷ s =
      ap to_ascii_lowercase (sym e) ∙ (to_ascii_lowercase_idem p ∙ e) in
    let once : to_ascii_lowercase s ≡ s = cc in rw (e, once) (==_refl s)

plain-IsHost :
    (rules : List Text) (p : Text)
    → validate_host_pattern rules p ≡ ok tt
    → strip_prefix (text "*.") (to_ascii_lowercase p) ≡ none
    → IsHost (to_ascii_lowercase p)
unfolding validate_host_pattern
plain-IsHost rules p v e =
    let (short, v') = seq-eq-ok _ _ v in let (no_star, host) = seq-eq-ok _ _ (rw e at v') in host

overlap-cases :
    (l r : Text)
    → patterns_overlap l r ≡ true
    → (to_ascii_lowercase l ≡ to_ascii_lowercase r)
      ⊎ ((pattern_matches l r ≡ true) ⊎ (pattern_matches r l ≡ true))
unfolding patterns_overlap
overlap-cases l r o = elim (or_cases _ _ o) [
  | inl o' ↦ elim (or_cases _ _ o') [ inl e ↦ inl ((list_beq_iff _ _).0 e) | inr m ↦ inr (inl m) ]
  | inr m ↦ inr (inr m)
]

-- A valid pattern names a host.
common_host :
    (rules : List Text) (l r : Text)
    → validate_host_pattern rules l ≡ ok tt
    → to_ascii_lowercase l ≡ to_ascii_lowercase r
    → (host : Text) × (pattern_matches l host ≡ true) × (pattern_matches r host ≡ true)
common_host rules l r v e = elim (Option-cases (strip_prefix (text "*.") (to_ascii_lowercase l))) [
  | inl plain ↦
      let h = plain-IsHost rules l v plain in
      let same = or_left _ _ ((list_beq_iff _ _).1 (sym (to_ascii_lowercase_idem l))) in
      (
        to_ascii_lowercase l,
        pattern_matches_of l _ h same,
        pattern_matches_of r _ h (rw (← e) same),
      )
  | inr (s, wild) ↦
      let e' = strip_star (to_ascii_lowercase l) s wild in
      let h = wildcard-IsHost rules l s v e' in
      (
        b'a' ∷ b'.' ∷ s,
        pattern_matches_of l _ h (covers-wildcard-IsHost l s e'),
        pattern_matches_of r _ h (covers-wildcard-IsHost r s (sym e ∙ e')),
      )
]

overlap_of_common :
    (l r h : Text)
    → pattern_matches l h ≡ true
    → pattern_matches r h ≡ true
    → patterns_overlap l r ≡ true
unfolding patterns_overlap
overlap_of_common l r h ml mr =
    let (v, cl) = pattern_matches-cases l h ml in
    let (_, cr) = pattern_matches-cases r h mr in
    elim (covers-cases _ _ cl) [
      | inl el ↦
          (or_right _ _ (pattern_matches-eq_of_lower r h l (IsHost-of_lower l h el v) (sym el) mr))
      | inr (s, el, rl) ↦ elim (covers-cases _ _ cr) [
        | inl er ↦ or_left _ _ (
            or_right _ _ (pattern_matches-eq_of_lower l h r (IsHost-of_lower r h er v) (sym er) ml))
        | inr (t, er, rr) ↦
            or_left _ _
              (or_left _ _ ((list_beq_iff _ _).1 (el ∙ (rw (rest_is-eq s t _ rl rr) (sym er)))))
      ]
    ]

-- Two valid Host Patterns overlap, as `patterns_overlap` decides it, exactly when there is a host
-- that both match.
pub patterns_overlap_iff :
    (rules : List Text) (l r : Text)
    → validate_host_pattern rules l ≡ ok tt
    → validate_host_pattern rules r ≡ ok tt
    → (patterns_overlap l r ≡ true)
      ↔ ((host : Text) × (pattern_matches l host ≡ true) × (pattern_matches r host ≡ true))
patterns_overlap_iff rules l r vl vr = (
  λ o. elim (overlap-cases l r o) [
    | inl e ↦ common_host rules l r vl e
    | inr (inl m) ↦ (r, m, pattern_matches_self r (pattern_matches-cases l r m).0)
    | inr (inr m) ↦ (l, pattern_matches_self l (pattern_matches-cases r l m).0, m)
  ],
  λ (h, ml, mr). overlap_of_common l r h ml mr,
)

pub overlap_of_match : (l r : Text) → pattern_matches l r ≡ true → patterns_overlap l r ≡ true
unfolding patterns_overlap
overlap_of_match l r m = or_left _ _ (or_right _ _ m)
