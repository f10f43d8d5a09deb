-- ===== src/Client/Config.antt =====
-- client/config.rs: the configuration and its validation, and `identifier`. Paths are texts;
-- `is_dir` is what the file system answers. A TOML file enters as the value.
pub mod Names
use Prim.Native.Nat.{bit_xor}
use seter.Prelude.{
  ℕ, zero, suc, ◌*◌, ◌/◌, ◌%◌, ◌^◌, ◌+◌, Bool, true, false, not, ◌&&◌, ◌||◌, Option, none, some,
  List, [], ◌∷◌, ◌++◌, all, any, is_empty, Result, ok, err, ensure, ◌>>=◌, ◌>>◌, leb, ltb, eqb,
  if◌then◌else◌,
}
use seter.Prelude.Text.{Text, text, byte_len, starts_with, contains_char}
use seter.Prelude.Text.Ascii.{is_ascii_alphanumeric}

pub record ClientConfig : Type 0 where
  pub version : ℕ
  pub instance_name : Text
  pub flake : Option Text
  pub configuration : Text
  pub exchange_directory : Option Text
  pub exchange_mount : Text
  pub host_seter : Text
  pub forward_agent : Bool
  pub cdp_port : ℕ
  pub cdp_port_file : Option Text
  pub docker_socket : Text
  pub herdr_config : Option Text

-- `Default for Config`
abbrev pub default_config : ClientConfig
default_config = record {
  version = 1;
  instance_name = text "seter";
  flake = none;
  configuration = text "seter-host";
  exchange_directory = none;
  exchange_mount = text "/workspace/seter-exchange";
  host_seter = text "/run/current-system/sw/bin/seter";
  forward_agent = true;
  cdp_port = 9222;
  cdp_port_file = none;
  docker_socket = text "/var/run/docker.sock";
  herdr_config = none;
}

pub data ConfigError : Type 0 where
  unsupported_version invalid_name empty_configuration invalid_configuration low_port invalid_socket
        relative_mount invalid_seter relative_exchange missing_exchange invalid_flake :
      ConfigError

abbrev pub starts_alphanumeric : Text → Bool
starts_alphanumeric [] = false
starts_alphanumeric (c ∷ s) = is_ascii_alphanumeric c

abbrev pub name_char : ℕ → Bool
name_char c = is_ascii_alphanumeric c || any (eqb c) (text "._-")

unfoldable pub validate_name : Text → Result ConfigError (Unit {0})
validate_name value =
    ensure
      (not (is_empty value)
        && leb (byte_len value) 64
        && starts_alphanumeric value
        && all name_char value)
      invalid_name

abbrev pub is_absolute : Text → Bool
is_absolute path = starts_with (text "/") path

abbrev pub check_exchange : (Text → Bool) → Option Text → Result ConfigError (Unit {0})
check_exchange is_dir none = ok tt
check_exchange is_dir (some path) = do
  ensure (is_absolute path) relative_exchange
  ensure (is_dir path) missing_exchange

abbrev pub check_flake : Option Text → Result ConfigError (Unit {0})
check_flake none = ok tt
check_flake (some flake) =
    ensure (not (is_empty flake) && not (contains_char b'#' flake)) invalid_flake

unfoldable pub validate_config : (Text → Bool) → ClientConfig → Result ConfigError (Unit {0})
validate_config is_dir c = do
  ensure (eqb c.version 1) unsupported_version
  validate_name c.instance_name
  ensure (not (is_empty c.configuration)) empty_configuration
  ensure (not (any (λ d. any (eqb d) (b'#' ∷ b'\n' ∷ b'\r' ∷ 0 ∷ [])) c.configuration))
      invalid_configuration
  ensure (leb 1024 c.cdp_port) low_port
  ensure (is_absolute c.docker_socket && not (contains_char b':' c.docker_socket)) invalid_socket
  ensure (is_absolute c.exchange_mount) relative_mount
  ensure (starts_with (text "/") c.host_seter && not (contains_char 0 c.host_seter)) invalid_seter
  check_exchange is_dir c.exchange_directory
  check_flake c.flake

-- FNV-1a over the bytes, in 64 bits.
abbrev pub fnv_from : ℕ → List ℕ → ℕ
fnv_from hash [] = hash
fnv_from hash (byte ∷ bytes) = fnv_from (bit_xor hash byte * 0x100000001b3 % 2 ^ 64) bytes

abbrev pub hex_digit : ℕ → ℕ
hex_digit n = if ltb n 10 then b'0' + n else 87 + n

-- `{:016x}` of a number below 2^64.
abbrev pub hex : ℕ → ℕ → Text → Text
hex n zero rest = rest
hex n (suc width) rest = hex (n / 16) width (hex_digit (n % 16) ∷ rest)

unfoldable pub identifier : List ℕ → Text
identifier value = hex (fnv_from 0xcbf29ce484222325 value) 16 []
