-- ===== src/Client/Probe/Rounds.antt =====
-- What a round of `decode_chunks` does to the body and the input, and which errors it gives.
use seter.Prelude.{
  ℕ, ◌+◌, ◌-◌, ◌≤◌, ◌<◌, ◌≡◌, refl, sym, ap, ◌∙◌, ◌⊎◌, inl, inr, Bool, true, false, Option, some,
  none, [], ◌∷◌, length, length-append, length-take, length-drop, take, Result, ok, err, ensure,
  context, ◌>>=◌, ltb, eqb, leb→le, ok_inj, Bool-cases, Option-cases, arith, bind-eq-ok, seq-eq-ok,
  ensure-eq-ok,
}
use seter.Prelude.Text.{Text, strip_prefix, starts_with}
use seter.Client.Probe.{
  Bytes, ProbeError, out_of_fuel, invalid_terminator, not_utf8, invalid_chunk, too_large, Round,
  returns, continues, limit, crlf, find_window, here_or_later, cons_before, take_chunk, sized,
  decode_round,
}
use seter.Client.Probe.Windows.{window_parts}

length-strip_prefix : (p s r : Bytes) → strip_prefix p s ≡ some r → length r ≤ length s
length-strip_prefix [] s r h = let e : s ≡ r = cc in rw (← e) (omega arith)
length-strip_prefix (c ∷ p) [] r h = cc
length-strip_prefix (c ∷ p) (d ∷ s) r h = elim (Bool-cases (eqb c d)) [
  | inl same ↦ let h' = rw same at h in omega (arith, length-strip_prefix p s r h')
  | inr other ↦ let h' : none ≡ some r = rw other at h in cc
]

continues_inj : {a b c d : Bytes} → continues a b ≡ continues c d → (a ≡ c) × (b ≡ d)
continues_inj h = (cc, cc)

returns-continues :
    {o : Option Bytes} {a b : Bytes}
    → ◌≡◌ {A = Result ProbeError Round} (ok (returns o)) (ok (continues a b))
    → ⊥
returns-continues h = cc

returned :
    {a b : Bytes}
    → ◌≡◌ {A = Result ProbeError Round} (ok (returns (some a))) (ok (returns (some b)))
    → a ≡ b
returned h = cc

not_returned :
    {b : Bytes} → ◌≡◌ {A = Result ProbeError Round} (ok (returns none)) (ok (returns (some b))) → ⊥
not_returned h = cc

pub Round-cases :
    (r : Round)
    → ((o : Option Bytes) × (r ≡ returns o)) ⊎ ((b : Bytes) × (i : Bytes) × (r ≡ continues b i))
Round-cases (returns o) = inl (o, refl)
Round-cases (continues b i) = inr (b, i, refl)

abbrev pub Never : {A : Type 0} → Result ProbeError A → Type 0
Never m = ¬ (m ≡ err out_of_fuel)

pub ok-Never : {A : Type 0} {a : A} → Never (ok a)
ok-Never h = cc

pub bind-Never :
    {A B : Type 0} (m : Result ProbeError A) (f : A → Result ProbeError B)
    → Never m
    → ((a : A) → m ≡ ok a → Never (f a))
    → Never (m >>= f)
unfolding ◌>>=◌
bind-Never (ok a) f first next = next a refl
bind-Never (err e) f first next = λ h. first cc

ensure-Never : (b : Bool) (e : ProbeError) → ¬ (e ≡ out_of_fuel) → Never (ensure b e)
unfolding ensure
ensure-Never true e other = λ h. cc
ensure-Never false e other = λ h. other cc

context-Never :
    {A : Type 0} (e : ProbeError) (o : Option A) → ¬ (e ≡ out_of_fuel) → Never (context e o)
unfolding context
context-Never e none other = λ h. other cc
context-Never e (some a) other = λ h. cc

pub length-find_window :
    (p s before behind : Bytes) → find_window p s ≡ some (before, behind) → length behind ≤ length s
unfolding find_window
length-find_window p [] before behind h = cc
length-find_window p (c ∷ s) before behind h = elim (Option-cases (strip_prefix p (c ∷ s))) [
  | inr (rest, found) ↦
      let h' = ap (λ o. here_or_later o (cons_before c (find_window p s))) (sym found) ∙ h in
      rw (← (window_parts h').1) (length-strip_prefix p (c ∷ s) rest found)
  | inl missing ↦
      let h' = ap (λ o. here_or_later o (cons_before c (find_window p s))) (sym missing) ∙ h in
      elim (Option-cases (find_window p s)) [
        | inl nowhere ↦
            let h'' : ◌≡◌ {A = Option (Bytes × Bytes)} none (some (before, behind)) =
              ap (λ o. cons_before c o) (sym nowhere) ∙ h' in
            cc
        | inr ((b, r), later) ↦
            let h'' = ap (λ o. cons_before c o) (sym later) ∙ h' in
            let e = (window_parts h'').1 in
            rw (← e) (omega (arith, length-find_window p s b r later))
      ]
]

module _ (from_utf8 : Bytes → Option Text) where
  -- What a round that goes on has done.
  abbrev pub Shrinks : Bytes → Bytes → Bytes → Type 0
  Shrinks input body' input' = (length input' < length input) × (length body' ≤ limit)

  take_chunk-Shrinks :
      (size : ℕ) (body input body' input' : Bytes)
      → size + length body ≤ limit
      → take_chunk from_utf8 size body input ≡ ok (continues body' input')
      → Shrinks input body' input'
  unfolding take_chunk
  take_chunk-Shrinks size body input body' input' fits h = elim (Bool-cases (eqb size 0)) [
    | inl last ↦ absurd (returns-continues (rw last at h))
    | inr inner ↦
        let h' = rw inner at h in
        elim (Bool-cases (ltb (length input) (size + 2))) [
          | inl short ↦ absurd (returns-continues (rw short at h'))
          | inr whole ↦
              let (ended, went) = seq-eq-ok _ _ (rw whole at h') in
              let (same_body, same_input) = continues_inj (ok_inj went) in
              rw (← same_body, ← same_input)
                (
                  ground (arith, length-drop (size + 2) input),
                  omega (arith, length-append body (take size input), length-take size input),
                )
        ]
  ]

  pub decode_round-Shrinks :
      (body input body' input' : Bytes)
      → length body ≤ limit
      → decode_round from_utf8 body input ≡ ok (continues body' input')
      → Shrinks input body' input'
  unfolding decode_round
  decode_round-Shrinks body input body' input' fits h =
      elim (Option-cases (find_window crlf input)) [
        | inl nowhere ↦ absurd (returns-continues (ap (sized from_utf8 body) (sym nowhere) ∙ h))
        | inr ((line, rest), found) ↦
            let h₁ = ap (sized from_utf8 body) (sym found) ∙ h in
            let (decoded, _, h₂) = bind-eq-ok _ _ h₁ in
            let (size, _, h₃) = bind-eq-ok _ _ h₂ in
            let (checked, h₄) = seq-eq-ok _ _ h₃ in
            let within = leb→le size (limit - length body) (ensure-eq-ok _ _ checked) in
            let (shorter, small) =
              take_chunk-Shrinks size body rest body' input' (omega arith) h₄ in
            (omega (arith, length-find_window crlf input line rest found), small)
      ]

  take_chunk-Never : (size : ℕ) (body input : Bytes) → Never (take_chunk from_utf8 size body input)
  unfolding take_chunk
  take_chunk-Never size body input = elim (Bool-cases (eqb size 0)) [
    | inl last ↦ rw last ok-Never
    | inr inner ↦ elim (Bool-cases (ltb (length input) (size + 2))) [
      | inl short ↦ rw (inner, short) ok-Never
      | inr whole ↦
          rw (inner, whole)
            (bind-Never _ _ (ensure-Never _ invalid_terminator (λ e. cc)) (λ a e. ok-Never))
    ]
  ]

  pub decode_round-Never : (body input : Bytes) → Never (decode_round from_utf8 body input)
  unfolding decode_round
  decode_round-Never body input = elim (Option-cases (find_window crlf input)) [
    | inl nowhere ↦ rw nowhere ok-Never
    | inr ((line, rest), found) ↦ rw found (
        bind-Never _ _ (context-Never not_utf8 _ (λ e. cc)) (λ decoded e₁.
          bind-Never _ _ (context-Never invalid_chunk _ (λ e. cc)) (λ size e₂.
            bind-Never _ _ (ensure-Never _ too_large (λ e. cc))
              (λ a e₃. take_chunk-Never size body rest))))
  ]

  take_chunk-returns :
      (size : ℕ) (body input b : Bytes)
      → take_chunk from_utf8 size body input ≡ ok (returns (some b))
      → body ≡ b
  unfolding take_chunk
  take_chunk-returns size body input b h = elim (Bool-cases (eqb size 0)) [
    | inl last ↦
        let h' = rw last at h in
        elim (Bool-cases (starts_with crlf input)) [
          | inl complete ↦ returned (rw complete at h')
          | inr cut ↦ absurd (not_returned (rw cut at h'))
        ]
    | inr inner ↦
        let h' = rw inner at h in
        elim (Bool-cases (ltb (length input) (size + 2))) [
          | inl short ↦ absurd (not_returned (rw short at h'))
          | inr whole ↦
              let (ended, went) = seq-eq-ok _ _ (rw whole at h') in
              absurd (returns-continues (sym went))
        ]
  ]

  pub decode_round-returns :
      (body input b : Bytes) → decode_round from_utf8 body input ≡ ok (returns (some b)) → body ≡ b
  unfolding decode_round
  decode_round-returns body input b h = elim (Option-cases (find_window crlf input)) [
    | inl nowhere ↦ absurd (not_returned (ap (sized from_utf8 body) (sym nowhere) ∙ h))
    | inr ((line, rest), found) ↦
        let (decoded, _, h₂) = bind-eq-ok _ _ (ap (sized from_utf8 body) (sym found) ∙ h) in
        let (size, _, h₃) = bind-eq-ok _ _ h₂ in
        let (checked, h₄) = seq-eq-ok _ _ h₃ in take_chunk-returns size body rest b h₄
  ]
