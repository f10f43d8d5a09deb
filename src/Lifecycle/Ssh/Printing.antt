-- ===== src/Lifecycle/Ssh/Printing.antt =====
-- `ssh_host_key`, `proxy_ca` and `print_host_key` of lifecycle/ssh.rs: what they print, and when they refuse. The
-- files, and what ssh-keygen and openssl answer, are parameters.
use seter.Prelude.{
  ◌≡◌, ◌≢◌, refl, ap, ◌∙◌, Bool, true, false, not, ◌||◌, Option, none, some, [], ◌∷◌, ◌++◌, Result,
  ok, ensure, context, with_context, ◌>>=◌, ◌>>◌, bind-eq-ok, seq-eq-ok, ensure-eq-ok, ok_inj,
  pair-eq, or_right, arith, context-eq-ok,
}
use seter.Prelude.Text.{Text, text, trim, strip_prefix}
use seter.Registry.{Registry}
use seter.Registry.Errors.{RegistryError}
use seter.Registry.Select.{workspace}
use seter.Lifecycle.{LifecycleError}
use seter.Lifecycle.Ssh.{KeyFile, validate_public_key, workspace_host_key}

pub data PrintError : Type 0 where
  no_registry unconfigured : RegistryError → PrintError
  bad_key : LifecycleError → PrintError
  not_written tool_failed tool_refused : PrintError
  no_certificate not_regular unreadable private_key : PrintError

-- `windows(n).any(|window| window == pattern)`
abbrev is_some : Option Text → Bool
is_some none = false
is_some (some rest) = true

unfoldable pub has_window : Text → Text → Bool
has_window pattern [] = is_some (strip_prefix pattern [])
has_window pattern (c ∷ s) = is_some (strip_prefix pattern (c ∷ s)) || has_window pattern s

-- A tool gives whether it succeeded, and its output, unless it could not be run.
abbrev pub Tool : Type 0
Tool = Option (Bool × Text)

abbrev pub fingerprint_of : Tool → Result PrintError Text
fingerprint_of tool = do
  output ← context tool_failed tool
  ensure output.0 tool_refused
  ok (trim output.1)

-- What is printed: the key or the certificate on stdout, and the fingerprint on stderr.
unfoldable pub print_host_key : Bool → Tool → Text → Result PrintError (Text × Text)
print_host_key can_write keygen key = do
  with_context bad_key (validate_public_key key)
  ensure can_write not_written
  fingerprint ← fingerprint_of keygen
  ok (key, fingerprint)

unfoldable pub ssh_host_key :
    Result RegistryError Registry → Text → KeyFile → Bool → Tool → Result PrintError (Text × Text)
ssh_host_key loaded name file can_write keygen = do
  registry ← with_context no_registry loaded
  configured ← with_context unconfigured (workspace registry name)
  key ← with_context bad_key (workspace_host_key file)
  print_host_key can_write keygen key

-- `is_file` is whether the path is a regular file and no link, absent where there is nothing.
unfoldable pub proxy_ca : Option Bool → Option Text → Tool → Result PrintError (Text × Text)
proxy_ca is_file contents openssl = do
  regular ← context no_certificate is_file
  ensure regular not_regular
  certificate ← context unreadable contents
  ensure (not (has_window (text "PRIVATE KEY") certificate)) private_key
  fingerprint ← fingerprint_of openssl
  ok (certificate, fingerprint)

strip_prefix_of_append : (p s : Text) → strip_prefix p (p ++ s) ≡ some s
strip_prefix_of_append [] s = refl
strip_prefix_of_append (c ∷ p) s = ground (arith, strip_prefix_of_append p s)

has_window-append :
    (pattern before after : Text) → has_window pattern (before ++ (pattern ++ after)) ≡ true
unfolding has_window
has_window-append pattern [] after =
    at_start (pattern ++ after) (strip_prefix_of_append pattern after)
  where
    at_start : (s : Text) → strip_prefix pattern s ≡ some after → has_window pattern s ≡ true
    at_start [] e = ap is_some e
    at_start (c ∷ s) e = rw e refl
has_window-append pattern (c ∷ before) after =
    or_right (is_some (strip_prefix pattern (c ∷ before ++ (pattern ++ after)))) _
      (has_window-append pattern before after)

-- What `proxy_ca` prints is the contents of the file, and holds the words PRIVATE KEY nowhere.
pub proxy_ca_lem :
    (is_file : Option Bool) (contents : Option Text) (openssl : Tool)
    (certificate fingerprint : Text)
    → proxy_ca is_file contents openssl ≡ ok (certificate, fingerprint)
    → (contents ≡ some certificate)
      × ((before after : Text) → certificate ≢ before ++ (text "PRIVATE KEY" ++ after))
unfolding proxy_ca
proxy_ca_lem is_file contents openssl certificate fingerprint h =
    let (regular, there, h₁) = bind-eq-ok _ _ h in
    let (plain, h₂) = seq-eq-ok _ _ h₁ in
    let (read, reads, h₃) = bind-eq-ok _ _ h₂ in
    let (clean, h₄) = seq-eq-ok _ _ h₃ in
    let (printed, runs, e) = bind-eq-ok _ _ h₄ in
    let same : read ≡ certificate = (pair-eq (ok_inj e)).0 in
    (
      context-eq-ok _ _ reads ∙ ap some same,
      λ before after holds.
          let found : has_window (text "PRIVATE KEY") read ≡ true =
            ap (has_window (text "PRIVATE KEY")) (same ∙ holds)
            ∙ has_window-append (text "PRIVATE KEY") before after in
          not-both (has_window (text "PRIVATE KEY") read) (ensure-eq-ok _ _ clean) found,
    )
  where
    not-both : (b : Bool) → not b ≡ true → b ≡ true → ⊥
    not-both b h h' = ground arith
