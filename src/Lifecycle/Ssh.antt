-- ===== src/Lifecycle/Ssh.antt =====
-- lifecycle/ssh.rs: the host key of a workspace, waiting for its SSH server, and the ssh command of a
-- session. Files and connections are parameters; a temporary file is its path.
pub mod Waiting
pub mod Printing
use seter.Prelude.{
  ℕ, zero, suc, Bool, true, false, not, ◌||◌, Option, none, some, List, [], ◌∷◌, ◌++◌, is_empty,
  Result, ok, err, ensure, context, with_context, ◌>>=◌, ◌>>◌, if◌then◌else◌,
}
use seter.Prelude.Text.{Text, text, trim, starts_with}
use seter.Prelude.Text.Split.{split_whitespace}
use seter.Prelude.Ipv4.{to_string}
use seter.Registry.{Workspace}
use seter.Lifecycle.{
  State, LifecycleError, no_key_type, no_key_data, empty_key_data, no_identity, invalid_identity,
  stopped_while_waiting, timed_out, unsupported_key_type, unreadable_identity,
}
use seter.Lifecycle.Units.{is_up}

abbrev first : List Text → Option Text
first [] = none
first (field ∷ fields) = some field

abbrev second : List Text → Option Text
second [] = none
second (field ∷ fields) = first fields

unfoldable pub validate_public_key : Text → Result LifecycleError (Unit {0})
validate_public_key key = do
  kind ← context no_key_type (first (split_whitespace key))
  body ← context no_key_data (second (split_whitespace key))
  ensure
      (starts_with (text "ssh-") kind
        || starts_with (text "ecdsa-") kind
        || starts_with (text "sk-") kind)
      (unsupported_key_type kind)
  ensure (not (is_empty body)) empty_key_data

-- The file of a workspace's public key, as it is read.
pub data KeyFile : Type 0 where
  contents : Text → KeyFile
  missing : KeyFile
  unreadable : Text → KeyFile

unfoldable pub workspace_host_key : KeyFile → Result LifecycleError Text
workspace_host_key (contents key) = do
  with_context (λ e. invalid_identity) (validate_public_key (trim key))
  ok (trim key)
workspace_host_key missing = err no_identity
workspace_host_key (unreadable e) = err (unreadable_identity e)

-- The line that `temporary_known_hosts` writes.
unfoldable pub known_hosts_line : Workspace → Text → Text
known_hosts_line w host_key = to_string w.network.address ++ (b' ' ∷ trim host_key ++ b'\n' ∷ [])

pub record SshSession : Type 0 where
  pub known_hosts : Text
  pub destination : Text

abbrev option : Text → List Text → List Text
option value rest = text "-o" ∷ value ∷ rest

-- The arguments of `ssh_command`.
unfoldable pub ssh_command : Text → List Text
ssh_command known_hosts = option (text "StrictHostKeyChecking=yes") (
    option (text "UserKnownHostsFile=" ++ known_hosts) (
      option (text "GlobalKnownHostsFile=/dev/null") (
        option (text "ForwardAgent=no") (
          option (text "ForwardX11=no") (
            option (text "BatchMode=yes") (
              option (text "ConnectTimeout=10") (
                option (text "ConnectionAttempts=1") (
                  option (text "ServerAliveInterval=5")
                    (option (text "ServerAliveCountMax=2") [])))))))))

abbrev tty_flag : Bool → List Text
tty_flag true = text "-t" ∷ []
tty_flag false = []

-- `SshSession::command`
unfoldable pub session_command : SshSession → Bool → List Text
session_command session tty =
    ssh_command session.known_hosts ++ (tty_flag tty ++ session.destination ∷ [])

-- `wait_for_ssh`: `rounds` is how many times the loop is entered before the deadline, `connects` whether
-- a connection opens in a round, and `state_at` what the unit's state is then.
module _ (connects : ℕ → Bool) (state_at : ℕ → Result LifecycleError State) where
  abbrev pub still_up :
      Result LifecycleError State
      → Result LifecycleError (Unit {0})
      → Result LifecycleError (Unit {0})
  still_up state later = do s ← state; ensure (is_up s) stopped_while_waiting; later

  unfoldable pub wait_from : ℕ → ℕ → Result LifecycleError (Unit {0})
  wait_from zero round = err timed_out
  wait_from (suc rounds) round =
      let later = wait_from rounds (suc round) in
      if connects round then ok tt else still_up (state_at round) later

  unfoldable pub wait_for_ssh : ℕ → Result LifecycleError (Unit {0})
  wait_for_ssh rounds = wait_from rounds 0

  -- `SshSession::connect`, with the path of the temporary file that holds the line of the known host.
  unfoldable pub connect :
      ℕ → Result LifecycleError Text → KeyFile → Workspace → Result LifecycleError SshSession
  connect rounds temporary_file key_file w = do
    host_key ← workspace_host_key key_file
    validate_public_key host_key
    wait_for_ssh rounds
    path ← temporary_file
    ok record {
      known_hosts = path;
      destination = w.ssh_user ++ (b'@' ∷ to_string w.network.address);
    }
