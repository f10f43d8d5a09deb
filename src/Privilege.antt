-- ===== src/Privilege.antt =====
-- privilege.rs and lifecycle/privilege.rs: the sudo command, and what the environment may decide.
-- The environment is a function; `is_root` and the path of the executable are parameters.
pub mod Cleared
use seter.Prelude.{
  ℕ, Bool, true, false, not, ◌&&◌, Option, none, some, List, [], ◌∷◌, Result, ok, err, ensure,
  context, ◌>>=◌, ◌>>◌, if◌then◌else◌,
}
use seter.Prelude.Eq.{◌==◌, nat_eq, list_eq}
use seter.Prelude.Text.{Text, text}

abbrev pub Environment : Type 0
Environment = Text → Option Text

pub data PrivilegeError : Type 0 where
  must_be_root unknown_executable : PrivilegeError

abbrev pub is_set : Option Text → Bool
is_set none = false
is_set (some value) = true

abbrev pub value_or : Text → Option Text → Text
value_or default none = default
value_or default (some value) = value

abbrev pub override_variables : List Text
override_variables =
    text "SETER_REGISTRY"
    ∷ text "SETER_STATE_DIR"
    ∷ text "SETER_TEST_MODE"
    ∷ text "SETER_ALLOW_NON_STORE_RUNNER"
    ∷ text "SETER_SYSTEMCTL"
    ∷ text "SETER_SSH_KEYGEN"
    ∷ text "SETER_SSH"
    ∷ text "SETER_SUDO"
    ∷ text "SETER_PRIVILEGED_HELPER"
    ∷ text "SETER_CLIENT_CONFIG"
    ∷ text "SETER_HERDR_SSH_BRIDGE"
    ∷ text "SETER_HERDR_REAL_SSH"
    ∷ []

-- `env::remove_var`
abbrev pub remove_var : Text → Environment → Environment
remove_var variable env name = if name == variable then none else env name

unfoldable pub remove_all : List Text → Environment → Environment
remove_all [] env = env
remove_all (variable ∷ rest) env = remove_all rest (remove_var variable env)

-- `enter_privileged_mode` of privilege.rs.
unfoldable pub enter_root_mode : Bool → Environment → Result PrivilegeError Environment
enter_root_mode is_root env = do ensure is_root must_be_root; ok (remove_all override_variables env)

unfoldable pub uses_test_state : Environment → Bool
uses_test_state env = is_set (env (text "SETER_STATE_DIR")) && is_set (env (text "SETER_TEST_MODE"))

-- `enter_privileged_mode` of lifecycle/privilege.rs.
unfoldable pub enter_privileged_mode : Bool → Environment → Result PrivilegeError Environment
enter_privileged_mode is_root env =
    if not is_root && uses_test_state env then ok env else enter_root_mode is_root env

abbrev executable_of : Option Text → Option Text → Result PrivilegeError Text
executable_of (some path) current_exe = ok path
executable_of none current_exe = context unknown_executable current_exe

-- `elevated_command`: the program and its first arguments.
unfoldable pub elevated_command : Option Text → Environment → Result PrivilegeError (List Text)
elevated_command current_exe env = do
  executable ← executable_of (env (text "SETER_PRIVILEGED_HELPER")) current_exe
  ok (
      value_or (text "/run/wrappers/bin/sudo") (env (text "SETER_SUDO"))
      ∷ text "--"
      ∷ executable
      ∷ [])
