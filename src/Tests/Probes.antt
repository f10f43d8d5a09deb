-- ===== src/Tests/Probes.antt =====
-- Answers of a browser and of Docker, on a machine whose texts are ASCII.
use seter.Prelude.{
  ◌≤◌, ◌≡◌, refl, Option, none, some, List, [], ◌∷◌, all, length, ltb, ok, err, ensure, context,
  with_context, ◌>>=◌, if◌then◌else◌, Result, arith,
}
use seter.Prelude.Text.{Text, text}
use seter.Prelude.Text.Ascii.{lower}
use seter.Prelude.Text.Split.{lines}
use seter.Prelude.Text.Decimal.{parse_unsigned, parse_digits, value_from}
use seter.Prelude.Text.Hex.{hexadecimal, parse_hex, parse_hex_digits, hex_value_from}
use seter.Client.Probe.{
  Bytes, limit, out_of_fuel, invalid_terminator, truncated_chunks, find_window, take_chunk,
  decode_round, decode_from, decode_chunks, split_response,
}
use seter.Client.Probe.Chunks.{ReadsAscii, encode, decode_chunks-encode}
use seter.Client.Probe.Bounded.{decode_chunks-ends}
use seter.Client.Probe.Request.{
  length_in, content_length, is_chunked, status_of, is_complete, read_all, parse_response, request,
}
use seter.Client.Probe.Request.Limit.{request-limit}
use seter.Client.Probe.Endpoints.{validate_path, websocket_path}
use seter.Client.Probe.Endpoints.Loopback.{IsLocalUrl, IsBrowserPath, websocket_path-IsLocalUrl}

abbrev ascii : Bytes → Option Text
ascii s = if all (λ c. ltb c 128) s then some s else none

ascii-ReadsAscii : ReadsAscii ascii
ascii-ReadsAscii s h = rw h refl

run_probe : Unit {0}
unfolding ensure context with_context ◌>>=◌ lower lines parse_unsigned parse_digits value_from
    hexadecimal parse_hex parse_hex_digits hex_value_from find_window take_chunk decode_round
    decode_from decode_chunks split_response length_in content_length is_chunked status_of
    is_complete read_all parse_response request validate_path websocket_path
run_probe = tt

abbrev chunked : Bytes
chunked = text "2;x=1\r\nOK\r\n0\r\n\r\n"

chunk_tests :
    (decode_chunks ascii chunked ≡ ok (some (text "OK")))
    × (decode_chunks ascii (text "2\r\nO") ≡ ok none)
    × (decode_chunks ascii (text "2\r\nOK!!") ≡ err invalid_terminator)
unfolding run_probe
chunk_tests = (refl, refl, refl)

abbrev chunked_response : List (Result Text Bytes)
chunked_response =
    ok (text "HTTP/1.1 200 OK\r\nTransfer-Encoding: chunked\r\n\r\n") ∷ ok chunked ∷ []

docker_answers : request ascii chunked_response ≡ ok (text "OK")
unfolding run_probe
docker_answers = refl

docker_cut :
    request ascii (ok (text "HTTP/1.1 200 OK\r\nTransfer-Encoding: chunked\r\n\r\n2\r\nO") ∷ [])
    ≡ err truncated_chunks
unfolding run_probe
docker_cut = refl

decode_chunks-encode_example :
    decode_chunks ascii (encode (text "OK" ∷ text "!" ∷ []) (text "more")) ≡ ok (some (text "OK!"))
decode_chunks-encode_example =
    decode_chunks-encode ascii ascii-ReadsAscii (text "OK" ∷ text "!" ∷ []) (text "more")
      (refl, (refl, tt)) (omega arith)

decode_chunks-ends_example :
    (decode_from ascii 30 [] chunked ≡ decode_chunks ascii chunked)
    × ¬ (decode_chunks ascii chunked ≡ err out_of_fuel)
decode_chunks-ends_example = decode_chunks-ends ascii chunked 30 (omega arith)

request-limit_example : length (text "OK") ≤ limit
request-limit_example = request-limit ascii chunked_response (text "OK") docker_answers

abbrev head : Bytes
head = text "HTTP/1.1 200 OK\r\ncontent-length: 2"

abbrev url : Text
url = text "ws://localhost:9222/devtools/browser/a-1"

path_found : websocket_path url ≡ ok (text "/devtools/browser/a-1")
unfolding run_probe
path_found = refl

websocket_path-IsLocalUrl_example :
    IsLocalUrl url (text "/devtools/browser/a-1") × IsBrowserPath (text "/devtools/browser/a-1")
websocket_path-IsLocalUrl_example =
    websocket_path-IsLocalUrl url (text "/devtools/browser/a-1") path_found
