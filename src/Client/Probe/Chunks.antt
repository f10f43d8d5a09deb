-- ===== src/Client/Probe/Chunks.antt =====
-- The chunks of an HTTP body, written and read back.
use mathlib.Core.List.{append_assoc, append-nil, reverse, reverse_aux, reverse-reverse}
use seter.Prelude.{
  ℕ, zero, suc, ◌+◌, ◌-◌, ◌≤◌, ◌<◌, ◌≡◌, refl, sym, ap, ◌∙◌, true, false, Option, some, List, [],
  ◌∷◌, ◌++◌, All, all, length, length-append, drop, take-append, drop-append, is_empty, ok, ensure,
  context, ◌>>=◌, ltb, eqb, le→leb, and_true, arith,
}
use seter.Prelude.Text.{Text, trim, trim_start, is_whitespace, starts_with}
use seter.Prelude.Text.Split.{split}
use seter.Prelude.Text.Hex.{is_hex_digit, hexadecimal, hexadecimal-digits, parse_hex-hexadecimal}
use seter.Client.Probe.{
  Bytes, returns, continues, limit, usize_bound, crlf, find_window, take_chunk, decode_round,
  decode_from, decode_chunks,
}

abbrev pub encode : List Bytes → Bytes → Bytes
encode [] rest = hexadecimal 0 ++ (crlf ++ (crlf ++ rest))
encode (chunk ∷ chunks) rest =
    hexadecimal (length chunk) ++ (crlf ++ (chunk ++ (crlf ++ encode chunks rest)))

abbrev pub concat : List Bytes → Bytes
concat [] = []
concat (chunk ∷ chunks) = chunk ++ concat chunks

digit-plain :
    (c : ℕ)
    → is_hex_digit c ≡ true
    → (eqb 13 c ≡ false) × (eqb c b';' ≡ false) × (is_whitespace c ≡ false)
digit-plain c h = (ground arith, ground arith, ground arith)

digits-cons :
    (c : ℕ) (s : Text)
    → all is_hex_digit (c ∷ s) ≡ true
    → (is_hex_digit c ≡ true) × (all is_hex_digit s ≡ true)
digits-cons c s h = and_true (is_hex_digit c) (all is_hex_digit s) h

-- Printed digits stand before the first line end.
find_window-digits :
    (s rest : Text)
    → all is_hex_digit s ≡ true
    → find_window crlf (s ++ (crlf ++ rest)) ≡ some (s, rest)
unfolding find_window
find_window-digits [] rest h = refl
find_window-digits (c ∷ s) rest h =
    let (digit, later) = digits-cons c s h in
    rw ((digit-plain c digit).0, find_window-digits s rest later) refl

split-digits : (s : Text) → all is_hex_digit s ≡ true → split b';' s ≡ s ∷ []
split-digits [] h = refl
split-digits (c ∷ s) h =
    let (digit, later) = digits-cons c s h in
    rw ((digit-plain c digit).1, split-digits s later) refl

trim_start-digits : (s : Text) → all is_hex_digit s ≡ true → trim_start s ≡ s
trim_start-digits [] h = refl
trim_start-digits (c ∷ s) h =
    let (digit, later) = digits-cons c s h in rw (digit-plain c digit).2 refl

reverse_aux-digits :
    (s t : Text)
    → all is_hex_digit s ≡ true
    → all is_hex_digit t ≡ true
    → all is_hex_digit (reverse_aux s t) ≡ true
reverse_aux-digits [] t h k = k
reverse_aux-digits (c ∷ s) t h k =
    let (digit, later) = digits-cons c s h in reverse_aux-digits s (c ∷ t) later (rw digit k)

trim-digits : (s : Text) → all is_hex_digit s ≡ true → trim s ≡ s
trim-digits s h =
    rw (trim_start-digits s h, trim_start-digits (reverse s) (reverse_aux-digits s [] h refl))
      (reverse-reverse s)

drop_zero : (s : Bytes) → drop 0 s ≡ s
drop_zero [] = refl
drop_zero (c ∷ s) = refl

drop_past : (chunk rest : Bytes) → drop (length chunk + 2) (chunk ++ (crlf ++ rest)) ≡ rest
drop_past [] rest = drop_zero rest
drop_past (c ∷ chunk) rest =
    let e : suc (length chunk) + 2 ≡ suc (length chunk + 2) = omega arith in
    ap (λ n. drop n (c ∷ (chunk ++ (crlf ++ rest)))) e ∙ drop_past chunk rest

starts_with-crlf : (rest : Bytes) → starts_with crlf (crlf ++ rest) ≡ true
starts_with-crlf rest = refl

-- A chunk that is written out in full is taken.
take_chunk-whole :
    (from_utf8 : Bytes → Option Text) (chunk body rest : Bytes)
    → is_empty chunk ≡ false
    → take_chunk from_utf8 (length chunk) body (chunk ++ (crlf ++ rest))
      ≡ ok (continues (body ++ chunk) rest)
unfolding take_chunk ensure ◌>>=◌
take_chunk-whole from_utf8 chunk body rest filled =
    rw
      (
        filled_length,
        long_enough,
        drop-append chunk (crlf ++ rest),
        take-append chunk (crlf ++ rest),
        drop_past chunk rest,
      )
      refl
  where
    filled_length : eqb (length chunk) 0 ≡ false
    filled_length = positive chunk filled
      where
        positive : (s : Bytes) → is_empty s ≡ false → eqb (length s) 0 ≡ false
        positive [] h = ground (arith, h)
        positive (c ∷ s) h = ground arith

    long_enough : ltb (length (chunk ++ (crlf ++ rest))) (length chunk + 2) ≡ false
    long_enough = ground (arith, length-append chunk (crlf ++ rest))

last_chunk :
    (from_utf8 : Bytes → Option Text) (body rest : Bytes)
    → take_chunk from_utf8 0 body (crlf ++ rest) ≡ ok (returns (some body))
unfolding take_chunk
last_chunk from_utf8 body rest = refl

module _ (from_utf8 : Bytes → Option Text) where
  -- ASCII is UTF-8.
  abbrev pub ReadsAscii : Type 0
  ReadsAscii = (s : Bytes) → all (λ c. ltb c 128) s ≡ true → from_utf8 s ≡ some s

  digits-decoded : ReadsAscii → (s : Text) → all is_hex_digit s ≡ true → from_utf8 s ≡ some s
  digits-decoded ascii s h = ascii s (below s h)
    where
      below : (t : Text) → all is_hex_digit t ≡ true → all (λ c. ltb c 128) t ≡ true
      below [] k = refl
      below (c ∷ t) k = let (digit, later) = digits-cons c t k in rw (below t later) (ground arith)

  -- A printed length is read.
  decode_round-length :
      ReadsAscii
      → (n : ℕ) (body rest : Bytes) → n + length body ≤ limit
      → decode_round from_utf8 body (hexadecimal n ++ (crlf ++ rest))
        ≡ take_chunk from_utf8 n body rest
  unfolding decode_round context ensure ◌>>=◌
  decode_round-length ascii n body rest fits =
      let digits = hexadecimal-digits n in
      rw
        (
          find_window-digits (hexadecimal n) rest digits,
          digits-decoded ascii (hexadecimal n) digits,
          split-digits (hexadecimal n) digits,
          trim-digits (hexadecimal n) digits,
          parse_hex-hexadecimal usize_bound n (omega arith),
        )
        (rw (le→leb n (limit - length body) (omega arith)) refl)

  decode_from-encode :
      ReadsAscii
      → (chunks : List Bytes) (fuel : ℕ) (body rest : Bytes)
      → All (λ chunk. is_empty chunk ≡ false) chunks
      → length body + length (concat chunks) ≤ limit
      → length chunks < fuel
      → decode_from from_utf8 fuel body (encode chunks rest) ≡ ok (some (body ++ concat chunks))
  unfolding decode_from ◌>>=◌
  decode_from-encode ascii chunks zero body rest filled fits enough = absurd (omega arith)
  decode_from-encode ascii [] (suc fuel) body rest filled fits enough =
      rw
        (
          decode_round-length ascii 0 body (crlf ++ rest) (omega arith),
          last_chunk from_utf8 body rest,
        )
        (ap (λ b. ok (some b)) (sym (append-nil body)))
  decode_from-encode ascii (chunk ∷ chunks) (suc fuel) body rest filled fits enough =
      let within : length chunk + length body ≤ limit =
        omega (arith, length-append chunk (concat chunks)) in
      let within' : length (body ++ chunk) + length (concat chunks) ≤ limit =
        omega (arith, length-append chunk (concat chunks), length-append body chunk) in
      rw
        (
          decode_round-length ascii (length chunk) body (chunk ++ (crlf ++ encode chunks rest))
              within,
          take_chunk-whole from_utf8 chunk body (encode chunks rest) filled.0,
        )
        (decode_from-encode ascii chunks fuel (body ++ chunk) rest filled.1 within' (omega arith)
          ∙ ap (λ b. ok (some b)) (append_assoc body chunk (concat chunks)))

  length-encode : (chunks : List Bytes) (rest : Bytes) → length chunks ≤ length (encode chunks rest)
  length-encode [] rest = omega arith
  length-encode (chunk ∷ chunks) rest = omega (
    arith,
    length-encode chunks rest,
    length-append (hexadecimal (length chunk)) (crlf ++ (chunk ++ (crlf ++ encode chunks rest))),
    length-append chunk (crlf ++ encode chunks rest),
  )

  -- A body that is written as chunks, none of them empty and at most 256 KiB in all, is read back, whatever
  -- follows it.
  pub decode_chunks-encode :
      ReadsAscii
      → (chunks : List Bytes) (rest : Bytes) → All (λ chunk. is_empty chunk ≡ false) chunks
      → length (concat chunks) ≤ limit
      → decode_chunks from_utf8 (encode chunks rest) ≡ ok (some (concat chunks))
  unfolding decode_chunks
  decode_chunks-encode ascii chunks rest filled fits =
      decode_from-encode ascii chunks (suc (length (encode chunks rest))) [] rest filled
        (omega arith) (omega (arith, length-encode chunks rest))
