-- ===== src/Client/Probe/Request.antt =====
-- `request` of client/probe.rs and its helpers on headers.
pub mod Limit
pub mod Whole
use seter.Prelude.{
  ℕ, ◌+◌, ◌≤◌, ◌≡◌, refl, sym, ap, ◌∙◌, inl, inr, Bool, true, false, Option, none, some, List, [],
  ◌∷◌, ◌++◌, length, length-append, length-take, take, Result, ok, err, ensure, context, ◌>>=◌,
  ◌>>◌, leb, leb→le, if◌then◌else◌, Bool-cases, bind-eq-ok, seq-eq-ok, ensure-eq-ok, context-eq-ok,
  ok_inj, err-not-ok, arith, Option-cases,
}
use seter.Prelude.Eq.{◌==◌, nat_eq, list_eq, option_eq}
use seter.Prelude.Text.{Text, text, trim, contains_text}
use seter.Prelude.Text.Ascii.{to_ascii_lowercase, eq_ignore_ascii_case}
use seter.Prelude.Text.Split.{split_once, split_whitespace, lines}
use seter.Prelude.Text.Decimal.{parse_unsigned}
use seter.Client.Probe.{
  Bytes, ProbeError, read_failed, too_large, invalid_response, bad_status, truncated,
  truncated_chunks, invalid_length, limit, usize_bound, decode_chunks, split_response, split_found,
  decode_headers, find_window,
}

abbrev length_value : Text → Result ProbeError (Option ℕ)
length_value value = do
  n ← context invalid_length (parse_unsigned usize_bound (trim value))
  ok (some n)

abbrev length_line :
    Option (Text × Text) → Result ProbeError (Option ℕ) → Result ProbeError (Option ℕ)
length_line none later = later
length_line (some (name, value)) later =
    if eq_ignore_ascii_case name (text "content-length") then length_value value else later

unfoldable pub length_in : List Text → Result ProbeError (Option ℕ)
length_in [] = ok none
length_in (line ∷ rest) = length_line (split_once b':' line) (length_in rest)

abbrev pub skip_first : List Text → List Text
skip_first [] = []
skip_first (line ∷ rest) = rest

unfoldable pub content_length : Text → Result ProbeError (Option ℕ)
content_length headers = length_in (skip_first (lines headers))

unfoldable pub is_chunked : Text → Bool
is_chunked headers = contains_text (text "transfer-encoding: chunked") (to_ascii_lowercase headers)

abbrev second : List Text → Option Text
second [] = none
second (a ∷ []) = none
second (a ∷ b ∷ rest) = some b

abbrev status_in : List Text → Option Text
status_in [] = second (split_whitespace [])
status_in (line ∷ rest) = second (split_whitespace line)

unfoldable pub status_of : Text → Option Text
status_of headers = status_in (lines headers)

abbrev or_invalid : Option Text → Text
or_invalid none = text "invalid"
or_invalid (some status) = status

abbrev pub is_some : Option Bytes → Bool
is_some none = false
is_some (some bytes) = true

module _ (from_utf8 : Bytes → Option Text) where
  -- Whether the loop breaks with this response.
  abbrev pub complete_length : Text → Bytes → Option ℕ → Result ProbeError Bool
  complete_length headers body (some n) = ensure (leb n limit) too_large >> ok (leb n (length body))
  complete_length headers body none =
      if is_chunked headers
      then (decode_chunks from_utf8 body >>= λ decoded. ok (is_some decoded))
      else ok false

  abbrev pub complete_split : Option (Text × Bytes) → Result ProbeError Bool
  complete_split none = ok false
  complete_split (some (headers, body)) = do
    n ← content_length headers
    complete_length headers body n

  unfoldable pub is_complete : Bytes → Result ProbeError Bool
  is_complete response = complete_split (split_response from_utf8 response)

  -- The loop over the reads.
  abbrev pub stop_if : Bytes → Result ProbeError Bytes → Bool → Result ProbeError Bytes
  stop_if response later true = ok response
  stop_if response later false = later

  unfoldable pub read_all : List (Result Text Bytes) → Bytes → Result ProbeError Bytes
  read_all [] response = ok response
  read_all (err e ∷ reads) response = err read_failed
  read_all (ok [] ∷ reads) response = ok response
  read_all (ok (c ∷ bytes) ∷ reads) response = do
    ensure (leb (length (response ++ c ∷ bytes)) limit) too_large
    complete ← is_complete (response ++ c ∷ bytes)
    stop_if (response ++ c ∷ bytes) (read_all reads (response ++ c ∷ bytes)) complete

  abbrev pub body_of_length : Bytes → Option ℕ → Result ProbeError Bytes
  body_of_length body none = ok body
  body_of_length body (some n) = ensure (leb n (length body)) truncated >> ok (take n body)

  abbrev pub body_of : Text × Bytes → Result ProbeError Bytes
  body_of (headers, body) = do
    ensure (status_of headers == some (text "200")) (bad_status (or_invalid (status_of headers)))
    (if is_chunked headers
        then (decode_chunks from_utf8 body >>= λ decoded. context truncated_chunks decoded)
        else (content_length headers >>= λ n. body_of_length body n))

  -- What follows the loop.
  unfoldable pub parse_response : Bytes → Result ProbeError Bytes
  parse_response response = do
    parts ← context invalid_response (split_response from_utf8 response)
    body_of parts

  unfoldable pub request : List (Result Text Bytes) → Result ProbeError Bytes
  request reads = do response ← read_all reads []; parse_response response
