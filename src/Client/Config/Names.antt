-- ===== src/Client/Config/Names.antt =====
-- The names of a valid configuration can stand where the client puts them.
use mathlib.Core.Bool.{false≢true}
use seter.Prelude.{
  ℕ, ◌≡◌, ◌≢◌, refl, sym, ap, ◌∙◌, Bool, true, false, not, ◌&&◌, Option, none, some, [], ◌∷◌, all,
  is_empty, ok, ensure-eq-ok, seq-eq-ok, eqb, arith, and_true, leb, leb→le, ◌≤◌,
}
use seter.Prelude.Text.{Text, text, byte_len, contains_char}
use seter.Registry.Validate.Volumes.{IsFileName}
use seter.Client.Config.{
  ClientConfig, starts_alphanumeric, name_char, validate_name, validate_config, check_flake,
}

name_char-slash : (c : ℕ) → name_char c ≡ true → eqb c b'/' ≡ false
name_char-slash c h = ground arith

no_slash_in : (s : Text) → all name_char s ≡ true → contains_char b'/' s ≡ false
no_slash_in [] h = refl
no_slash_in (c ∷ s) h =
    let (here, later) = and_true _ _ h in rw (name_char-slash c here) (no_slash_in s later)

not_dots : (s : Text) → starts_alphanumeric s ≡ true → (s ≢ text ".") × (s ≢ text "..")
not_dots s h = (
  λ e. false≢true (ap starts_alphanumeric (sym e) ∙ h),
  λ e. false≢true (ap starts_alphanumeric (sym e) ∙ h),
)

validate_name-IsFileName : (s : Text) → validate_name s ≡ ok tt → IsFileName s
unfolding validate_name
validate_name-IsFileName s h =
    let (front, chars) =
      and_true (not (is_empty s) && leb (byte_len s) 64 && starts_alphanumeric s) (all name_char s)
        (ensure-eq-ok _ _ h) in
    let (_, start) =
      and_true (not (is_empty s) && leb (byte_len s) 64) (starts_alphanumeric s) front in
    let (not_self, not_parent) = not_dots s start in
    record { no_slash = no_slash_in s chars; not_self = not_self; not_parent = not_parent }

false_of_not : (b : Bool) → not b ≡ true → b ≡ false
false_of_not b h = ground arith

flake-no_fragment :
    (flake : Option Text)
    → check_flake flake ≡ ok tt
    → (f : Text) → flake ≡ some f
    → contains_char b'#' f ≡ false
flake-no_fragment none h f e = cc
flake-no_fragment (some g) h f e =
    let (_, plain) = and_true _ _ (ensure-eq-ok _ _ h) in
    let same : g ≡ f = cc in rw (← same) (false_of_not _ plain)

-- In a configuration that is accepted, the instance name is a plain file name, the CDP port is not a
-- privileged one, the Docker socket is a path without a colon, and the flake has no fragment, so that
-- "#" and the configuration name can be put behind it.
pub validate_config-IsFileName :
    (is_dir : Text → Bool) (c : ClientConfig)
    → validate_config is_dir c ≡ ok tt
    → IsFileName c.instance_name
      × ((1024 ≤ c.cdp_port)
          × ((contains_char b':' c.docker_socket ≡ false)
              × ((f : Text) → c.flake ≡ some f → contains_char b'#' f ≡ false)))
unfolding validate_config
validate_config-IsFileName is_dir c h =
    let (_, h₁) = seq-eq-ok _ _ h in
    let (name, h₂) = seq-eq-ok _ _ h₁ in
    let (_, h₃) = seq-eq-ok _ _ h₂ in
    let (_, h₄) = seq-eq-ok _ _ h₃ in
    let (port, h₅) = seq-eq-ok _ _ h₄ in
    let (socket, h₆) = seq-eq-ok _ _ h₅ in
    let (_, h₇) = seq-eq-ok _ _ h₆ in
    let (_, h₈) = seq-eq-ok _ _ h₇ in
    let (_, flake) = seq-eq-ok _ _ h₈ in
    (
      validate_name-IsFileName c.instance_name name,
      (
        leb→le 1024 c.cdp_port (ensure-eq-ok _ _ port),
        (
          false_of_not _ (and_true _ _ (ensure-eq-ok _ _ socket)).1,
          flake-no_fragment c.flake flake,
        ),
      ),
    )
