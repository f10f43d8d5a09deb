-- ===== src/Client/Probe/Bounded.antt =====
-- The loop over chunks ends, and its body stays within the limit.
use seter.Prelude.{
  ℕ, zero, suc, ◌≤◌, ◌<◌, ◌≡◌, refl, sym, ap, ◌∙◌, inl, inr, Option, some, [], length, ok, err,
  ◌>>=◌, err-not-ok, ok_inj, Result-cases, arith, bind-eq-ok,
}
use seter.Prelude.Text.{Text}
use seter.Client.Probe.{
  Bytes, out_of_fuel, continue_with, returns, limit, decode_round, decode_from, decode_chunks,
}
use seter.Client.Probe.Rounds.{
  Round-cases, ok-Never, bind-Never, decode_round-Shrinks, decode_round-Never, decode_round-returns,
}

module _ (from_utf8 : Bytes → Option Text) where
  decode_from-limit :
      (fuel : ℕ) (body input b : Bytes)
      → length body ≤ limit
      → decode_from from_utf8 fuel body input ≡ ok (some b)
      → length b ≤ limit
  unfolding decode_from
  decode_from-limit zero body input b fits h = absurd (err-not-ok h)
  decode_from-limit (suc fuel) body input b fits h =
      let (round, found, went) = bind-eq-ok _ _ h in
      elim (Round-cases round) [
        | inl (o, e) ↦
            let known : o ≡ some b =
              ok_inj (ap (continue_with from_utf8 (decode_from from_utf8 fuel)) (sym e) ∙ went) in
            rw
              (← decode_round-returns from_utf8 body input b (found ∙ ap ok (e ∙ ap returns known)))
              fits
        | inr (body', input', e) ↦
            let later = ap (continue_with from_utf8 (decode_from from_utf8 fuel)) (sym e) ∙ went in
            let (shorter, small) =
              decode_round-Shrinks from_utf8 body input body' input' fits (found ∙ ap ok e) in
            decode_from-limit fuel body' input' b small later
      ]

  -- Two numbers of rounds that are enough give one result.
  decode_from-agree :
      (n m : ℕ) (body input : Bytes)
      → length body ≤ limit
      → length input < n
      → length input < m
      → decode_from from_utf8 n body input ≡ decode_from from_utf8 m body input
  unfolding decode_from ◌>>=◌
  decode_from-agree zero m body input fits enough enough' = absurd (omega arith)
  decode_from-agree (suc n) zero body input fits enough enough' = absurd (omega arith)
  decode_from-agree (suc n) (suc m) body input fits enough enough' =
      elim (Result-cases (decode_round from_utf8 body input)) [
        | inr (e, failed) ↦ rw failed refl
        | inl (round, found) ↦ elim (Round-cases round) [
          | inl (o, e) ↦ rw (found, e) refl
          | inr (body', input', e) ↦
              let (shorter, small) =
                decode_round-Shrinks from_utf8 body input body' input' fits (found ∙ ap ok e) in
              rw (found, e) (decode_from-agree n m body' input' small (omega arith) (omega arith))
        ]
      ]

  decode_from-ends :
      (n : ℕ) (body input : Bytes)
      → length body ≤ limit
      → length input < n
      → ¬ (decode_from from_utf8 n body input ≡ err out_of_fuel)
  unfolding decode_from
  decode_from-ends zero body input fits enough = absurd (omega arith)
  decode_from-ends (suc n) body input fits enough =
      bind-Never _ _ (decode_round-Never from_utf8 body input) (λ round found.
        elim (Round-cases round) [
          | inl (o, e) ↦ rw e ok-Never
          | inr (body', input', e) ↦
              let (shorter, small) =
                decode_round-Shrinks from_utf8 body input body' input' fits (found ∙ ap ok e) in
              rw e (decode_from-ends n body' input' small (omega arith))
        ])

  -- `decode_chunks` has enough rounds: it does not run out of them, and any larger number gives the same.
  pub decode_chunks-ends :
      (input : Bytes) (rounds : ℕ)
      → length input < rounds
      → (decode_from from_utf8 rounds [] input ≡ decode_chunks from_utf8 input)
        × ¬ (decode_chunks from_utf8 input ≡ err out_of_fuel)
  unfolding decode_chunks
  decode_chunks-ends input rounds enough = (
    decode_from-agree rounds (suc (length input)) [] input (omega arith) enough (omega arith),
    decode_from-ends (suc (length input)) [] input (omega arith) (omega arith),
  )

  pub decode_chunks-limit :
      (input b : Bytes) → decode_chunks from_utf8 input ≡ ok (some b) → length b ≤ limit
  unfolding decode_chunks
  decode_chunks-limit input b h = decode_from-limit (suc (length input)) [] input b (omega arith) h
