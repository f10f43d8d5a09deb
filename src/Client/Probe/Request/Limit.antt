-- ===== src/Client/Probe/Request/Limit.antt =====
-- How much `request` reads and returns.
use seter.Prelude.{
  ◌≤◌, ◌≡◌, sym, ap, ◌∙◌, inl, inr, Option, none, some, List, [], ◌∷◌, ◌++◌, length, length-take,
  take, Result, ok, err, leb→le, Bool-cases, bind-eq-ok, seq-eq-ok, ensure-eq-ok, context-eq-ok,
  ok_inj, err-not-ok, arith, Option-cases,
}
use seter.Prelude.Eq.{nat_eq, list_eq, option_eq}
use seter.Prelude.Text.{Text, text}
use seter.Client.Probe.{Bytes, limit, split_response, split_found, decode_headers, find_window}
use seter.Client.Probe.Rounds.{length-find_window}
use seter.Client.Probe.Bounded.{decode_chunks-limit}
use seter.Client.Probe.Request.{
  is_chunked, stop_if, read_all, body_of_length, parse_response, request,
}

module _ (from_utf8 : Bytes → Option Text) where
  read_all-limit :
      (reads : List (Result Text Bytes)) (response final : Bytes)
      → length response ≤ limit
      → read_all from_utf8 reads response ≡ ok final
      → length final ≤ limit
  unfolding read_all
  read_all-limit [] response final fits h = let e : response ≡ final = ok_inj h in rw (← e) fits
  read_all-limit (err e ∷ reads) response final fits h = absurd (err-not-ok h)
  read_all-limit (ok [] ∷ reads) response final fits h =
      let e : response ≡ final = ok_inj h in rw (← e) fits
  read_all-limit (ok (c ∷ bytes) ∷ reads) response final fits h =
      let (small, h₁) = seq-eq-ok _ _ h in
      let (complete, _, h₂) = bind-eq-ok _ _ h₁ in
      let within = leb→le (length (response ++ c ∷ bytes)) limit (ensure-eq-ok _ _ small) in
      elim (Bool-cases complete) [
        | inl stops ↦
            let e : response ++ c ∷ bytes ≡ final = ok_inj (
              ap
                (stop_if from_utf8 (response ++ c ∷ bytes)
                  (read_all from_utf8 reads (response ++ c ∷ bytes)))
                (sym stops)
              ∙ h₂) in
            rw (← e) within
        | inr goes_on ↦ read_all-limit reads (response ++ c ∷ bytes) final within (
            ap
              (stop_if from_utf8 (response ++ c ∷ bytes)
                (read_all from_utf8 reads (response ++ c ∷ bytes)))
              (sym goes_on)
            ∙ h₂)
      ]

  split_response-length :
      (response : Bytes) (headers : Text) (body : Bytes)
      → split_response from_utf8 response ≡ some (headers, body)
      → length body ≤ length response
  unfolding split_response
  split_response-length response headers body h =
      elim (Option-cases (find_window (text "\r\n\r\n") response)) [
        | inl nowhere ↦
            let h' : ◌≡◌ {A = Option (Text × Bytes)} none (some (headers, body)) =
              ap (split_found from_utf8) (sym nowhere) ∙ h in
            cc
        | inr ((front, behind), found) ↦
            let h₁ = ap (split_found from_utf8) (sym found) ∙ h in
            elim (Option-cases (from_utf8 front)) [
              | inl garbled ↦
                  let h₂ : ◌≡◌ {A = Option (Text × Bytes)} none (some (headers, body)) =
                    ap (decode_headers from_utf8 behind) (sym garbled) ∙ h₁ in
                  cc
              | inr (decoded, read) ↦
                  let h₂ : ◌≡◌ {A = Option (Text × Bytes)} (some (decoded, behind))
                      (some (headers, body)) =
                    ap (decode_headers from_utf8 behind) (sym read) ∙ h₁ in
                  let e : ◌≡◌ {A = Text × Bytes} (decoded, behind) (headers, body) = cc in
                  let same : behind ≡ body = ap (λ p. p.1) e in
                  rw (← same) (length-find_window (text "\r\n\r\n") response front behind found)
            ]
      ]

  -- A body that `request` returns has at most 256 KiB, whatever the endpoint sends.
  pub request-limit :
      (reads : List (Result Text Bytes)) (body : Bytes)
      → request from_utf8 reads ≡ ok body
      → length body ≤ limit
  unfolding request parse_response
  request-limit reads body h =
      let (response, read, h₁) = bind-eq-ok _ _ h in
      let ((headers, rest), split, h₂) = bind-eq-ok _ _ h₁ in
      let (status, h₃) = seq-eq-ok _ _ h₂ in
      let within = read_all-limit reads [] response (omega arith) read in
      let shorter = split_response-length response headers rest (context-eq-ok _ _ split) in
      elim (Bool-cases (is_chunked headers)) [
        | inl chunked ↦
            let (decoded, found, h₄) = bind-eq-ok _ _ (rw chunked at h₃) in
            decode_chunks-limit from_utf8 rest body (found ∙ ap ok (context-eq-ok _ _ h₄))
        | inr plain ↦
            let (n, found, h₄) = bind-eq-ok _ _ (rw plain at h₃) in
            elim (Option-cases n) [
              | inl unknown ↦
                  let e : rest ≡ body =
                    ok_inj (ap (body_of_length from_utf8 rest) (sym unknown) ∙ h₄) in
                  rw (← e) (omega arith)
              | inr (k, known) ↦
                  let (enough, h₅) =
                    seq-eq-ok _ _ (ap (body_of_length from_utf8 rest) (sym known) ∙ h₄) in
                  let e : take k rest ≡ body = ok_inj h₅ in
                  let le = leb→le k (length rest) (ensure-eq-ok _ _ enough) in
                  rw (← e) (omega (arith, length-take k rest))
            ]
      ]
