-- ===== src/Client/Probe/Endpoints/Loopback.antt =====
-- Which WebSocket URLs are accepted, and what is returned for them.
use mathlib.Core.List.{append_assoc}
use seter.Prelude.{
  ℕ, ◌-◌, ◌<◌, ◌≤◌, ◌≡◌, refl, sym, ap, ◌∙◌, true, false, Option, none, some, ◌∷◌, ◌++◌, all,
  is_empty, length, length-append, drop, drop-append, ok, leb→le, bind-eq-ok, seq-eq-ok,
  ensure-eq-ok, context-eq-ok, ok_inj, arith,
}
use seter.Prelude.Text.{Text, text, byte_len}
use seter.Prelude.Text.Split.Laws.{strip_prefix-append, split_once-append, rsplit_once-append}
use seter.Prelude.Text.Decimal.{parse_unsigned}
use seter.Client.Probe.Endpoints.{
  is_loopback, identity_char, is_port, validate_path, websocket_path,
}

-- A path of the browser's WebSocket, with its identity.
abbrev pub IsBrowserPath : Text → Type 0
IsBrowserPath path =
    (identity : Text) × (path ≡ text "/devtools/browser/" ++ identity)
    × (is_empty identity ≡ false)
    × (byte_len identity ≤ 200)
    × (all identity_char identity ≡ true)

validate_path-IsBrowserPath : (path : Text) → validate_path path ≡ ok tt → IsBrowserPath path
unfolding validate_path
validate_path-IsBrowserPath path h =
    let (identity, found, checked) = bind-eq-ok _ _ h in
    let shape = ensure-eq-ok _ _ checked in
    (
      identity,
      strip_prefix-append (text "/devtools/browser/") path identity (context-eq-ok _ _ found),
      ground (arith, shape),
      leb→le (byte_len identity) 200 (ground (arith, shape)),
      ground (arith, shape),
    )

-- The rest of a URL behind its authority.
drop_authority :
    (front path : Text)
    → drop (length (front ++ b'/' ∷ path) - length path - 1) (front ++ b'/' ∷ path) ≡ b'/' ∷ path
drop_authority front path =
    let e : length (front ++ b'/' ∷ path) - length path - 1 ≡ length front =
      omega (arith, length-append front (b'/' ∷ path)) in
    ap (λ n. drop n (front ++ b'/' ∷ path)) e ∙ drop-append front (b'/' ∷ path)

port-positive : (o : Option ℕ) → is_port o ≡ true → (n : ℕ) × (o ≡ some n) × (0 < n)
port-positive none h = cc
port-positive (some n) h = (n, refl, ground (arith, h))

-- A WebSocket URL of a host of the machine itself.
abbrev pub IsLocalUrl : Text → Text → Type 0
IsLocalUrl url path =
    (host : Text) × (port : Text) × (number : ℕ) × (url
      ≡ (text "ws://" ++ (host ++ b':' ∷ port)) ++ path)
    × (is_loopback host ≡ true)
    × (parse_unsigned 65536 port ≡ some number)
    × (0 < number)

-- If `websocket_path` accepts a URL, it is `ws://`, a loopback host, a colon, a port other than 0 and the path
-- that is returned, which is that of a browser with a plain identity of at most 200 bytes.
pub websocket_path-IsLocalUrl :
    (url path : Text) → websocket_path url ≡ ok path → IsLocalUrl url path × IsBrowserPath path
unfolding websocket_path
websocket_path-IsLocalUrl url path h =
    let (remainder, stripped, h₁) = bind-eq-ok _ _ h in
    let ((authority, rest), parts, h₂) = bind-eq-ok _ _ h₁ in
    let ((host, port), split, h₃) = bind-eq-ok _ _ h₂ in
    let (checked, h₄) = seq-eq-ok _ _ h₃ in
    let (valid, returned) = seq-eq-ok _ _ h₄ in
    let (local, numbered) = seq-eq-ok _ _ checked in
    let front = text "ws://" ++ (host ++ b':' ∷ port) in
    let whole : url ≡ front ++ b'/' ∷ rest =
      strip_prefix-append (text "ws://") url remainder (context-eq-ok _ _ stripped)
      ∙ ap (λ t. text "ws://" ++ t)
          (split_once-append b'/' remainder authority rest (context-eq-ok _ _ parts))
      ∙ ap (λ t. text "ws://" ++ (t ++ b'/' ∷ rest))
          (rsplit_once-append b':' authority host port (context-eq-ok _ _ split))
      ∙ sym (append_assoc (text "ws://") (host ++ b':' ∷ port) (b'/' ∷ rest)) in
    let suffix : b'/' ∷ rest ≡ path =
      sym (drop_authority front rest)
      ∙ ap (λ t. drop (length t - length rest - 1) t) (sym whole)
      ∙ ok_inj returned in
    let (number, parsed, positive) =
      port-positive (parse_unsigned 65536 port) (ensure-eq-ok _ _ numbered) in
    (
      (
        host,
        port,
        number,
        whole ∙ ap (λ t. front ++ t) suffix,
        ensure-eq-ok _ _ local,
        parsed,
        positive,
      ),
      rw (← suffix) (validate_path-IsBrowserPath (b'/' ∷ rest) valid),
    )
