-- ===== src/Client/Probe.antt =====
-- client/probe.rs: the HTTP answers of a browser's debugging endpoint and of a Docker socket. The
-- socket is the list of what its reads give, where no bytes are its end; UTF-8 and JSON are
-- parameters.
pub mod Chunks
pub mod Rounds
pub mod Bounded
pub mod Windows
pub mod Request
pub mod Endpoints
use seter.Prelude.{
  ℕ, zero, suc, ◌+◌, ◌-◌, ◌*◌, Bool, true, false, not, ◌&&◌, ◌||◌, Option, none, some, List, [],
  ◌∷◌, ◌++◌, all, any, length, take, drop, is_empty, Result, ok, err, ensure, context, with_context,
  ◌>>=◌, ◌>>◌, leb, ltb, eqb, if◌then◌else◌,
}
use seter.Prelude.Eq.{◌==◌, nat_eq, list_eq, option_eq}
use seter.Prelude.Text.{Text, text, byte_len, strip_prefix, starts_with, trim, contains_text}
use seter.Prelude.Text.Ascii.{is_ascii_alphanumeric, to_ascii_lowercase, eq_ignore_ascii_case}
use seter.Prelude.Text.Split.{split, split_once, rsplit_once, split_whitespace, lines}
use seter.Prelude.Text.Decimal.{parse_unsigned}
use seter.Prelude.Text.Hex.{parse_hex}

abbrev pub Bytes : Type 0
Bytes = List ℕ

pub data ProbeError : Type 0 where
  zero_port unreachable read_failed too_large invalid_response truncated truncated_chunks
        invalid_length :
      ProbeError
  not_utf8 invalid_chunk invalid_terminator out_of_fuel : ProbeError
  bad_status : Text → ProbeError
  invalid_json no_url not_websocket invalid_url no_port not_loopback invalid_port : ProbeError
  invalid_path invalid_identity endpoint_changed not_docker one_endpoint : ProbeError

-- `LIMIT`
abbrev pub limit : ℕ
limit = 256 * 1024

-- The bound of `usize`.
abbrev pub usize_bound : ℕ
usize_bound = 18446744073709551616

abbrev pub crlf : Bytes
crlf = text "\r\n"

-- `windows(…).position(…)`, with what stands before and behind the first window that matches.
abbrev cons_before : ℕ → Option (Bytes × Bytes) → Option (Bytes × Bytes)
cons_before c none = none
cons_before c (some (before, behind)) = some (c ∷ before, behind)

abbrev here_or_later : Option Bytes → Option (Bytes × Bytes) → Option (Bytes × Bytes)
here_or_later none later = later
here_or_later (some behind) later = some ([], behind)

unfoldable pub find_window : Bytes → Bytes → Option (Bytes × Bytes)
find_window pattern [] = none
find_window pattern (c ∷ s) =
    let later = cons_before c (find_window pattern s) in
    here_or_later (strip_prefix pattern (c ∷ s)) later

abbrev pub first_part : List Text → Text
first_part [] = []
first_part (part ∷ parts) = part

-- What a round of `decode_chunks` does: it returns, or goes on with a longer body.
pub data Round : Type 0 where
  returns : Option Bytes → Round
  continues : Bytes → Bytes → Round

module _ (from_utf8 : Bytes → Option Text) where
  unfoldable pub take_chunk : ℕ → Bytes → Bytes → Result ProbeError Round
  take_chunk size body input =
      if eqb size 0
      then ok (returns (if starts_with crlf input then some body else none))
      else if ltb (length input) (size + 2)
      then ok (returns none)
      else ensure (starts_with crlf (drop size input)) invalid_terminator
        >> ok (continues (body ++ take size input) (drop (size + 2) input))

  abbrev pub sized : Bytes → Option (Bytes × Bytes) → Result ProbeError Round
  sized body none = ok (returns none)
  sized body (some (line, input)) = do
    decoded ← context not_utf8 (from_utf8 line)
    size ← context invalid_chunk (parse_hex usize_bound (trim (first_part (split b';' decoded))))
    ensure (leb size (limit - length body)) too_large
    take_chunk size body input

  unfoldable pub decode_round : Bytes → Bytes → Result ProbeError Round
  decode_round body input = sized body (find_window crlf input)

  -- The loop, on fuel.
  abbrev pub continue_with :
      (Bytes → Bytes → Result ProbeError (Option Bytes)) → Round → Result ProbeError (Option Bytes)
  continue_with loop (returns body) = ok body
  continue_with loop (continues body input) = loop body input

  unfoldable pub decode_from : ℕ → Bytes → Bytes → Result ProbeError (Option Bytes)
  decode_from zero body input = err out_of_fuel
  decode_from (suc fuel) body input = do
    round ← decode_round body input
    continue_with (decode_from fuel) round

  -- Each round but the last takes at least two bytes.
  unfoldable pub decode_chunks : Bytes → Result ProbeError (Option Bytes)
  decode_chunks input = decode_from (suc (length input)) [] input

  abbrev decode_headers : Bytes → Option Text → Option (Text × Bytes)
  decode_headers body none = none
  decode_headers body (some headers) = some (headers, body)

  abbrev split_found : Option (Bytes × Bytes) → Option (Text × Bytes)
  split_found none = none
  split_found (some (headers, body)) = decode_headers body (from_utf8 headers)

  unfoldable pub split_response : Bytes → Option (Text × Bytes)
  split_response response = split_found (find_window (text "\r\n\r\n") response)
