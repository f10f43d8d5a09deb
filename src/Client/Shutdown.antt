-- ===== src/Client/Shutdown.antt =====
-- `stop` and `host_status` of client.rs: the workspaces are taken down, the connections are stopped, and the
-- Lima instance stops last. What `list` prints and limactl are parameters beside those of the client.
pub mod Cleared
use seter.Prelude.{
  ℕ, Bool, true, false, Option, none, some, List, [], ◌∷◌, ◌++◌, Result, ok, err, ensure, context,
  with_context, ◌>>=◌, ◌>>◌, and_then, if◌then◌else◌,
}
use seter.Prelude.Eq.{◌==◌, nat_eq, list_eq}
use seter.Prelude.Text.{Text, text}
use seter.Prelude.Text.Split.{lines}
use seter.Shell.{shell_quote}
use seter.Client.Config.{ConfigError, validate_name}
use seter.Client.Host.{ClientError}
use seter.Client.Connections.{Connection, System, Links, stop_connection}
use seter.Client.Connections.Attaching.{
  AttachError, not_down, Client, Steps, lifted, of_client, on_host, seter_checked,
}
use seter.Client.Connections.Daemon.{browser_detach, browser_status, docker_status}
use seter.Client.Connections.Listing.{connections, forward_list}

pub data ShutdownError : Type 0 where
  failed : AttachError → ShutdownError
  not_listed not_text : ShutdownError
  bad_name : ConfigError → ShutdownError

-- `remote_text` gives whether a command on the Host succeeded, with its output where that is UTF-8; `entries`
-- are the records in the state directory; `state` is Lima's `Status`; `limactl_stop` gives the exit code.
pub record Machine (system : System) : Type 0 where
  pub client : Client system
  pub remote_text : Text → system.Masters → Result ClientError (Bool × Option Text) × system.Masters
  pub entries : Links system → Option (List (Option Text))
  pub state : system.Masters → Result ClientError Text
  pub limactl_stop : system.Masters → Result ClientError ℕ × system.Masters

abbrev pub list_script : Text → Text
list_script host_seter =
    text "if [ -x "
    ++ (shell_quote host_seter
        ++ (text " ]; then " ++ (shell_quote host_seter ++ text " list; fi")))

module _ (system : System) (machine : Machine system) where
  open machine use {client, remote_text, entries, state, limactl_stop}

  abbrev pub Shutdown : Type 0 → Type 0
  Shutdown A = Result ShutdownError A × Links system

  abbrev pub of_steps : {A : Type 0} → Steps system client A → Shutdown A
  of_steps (result, links) = (with_context failed result, links)

  -- The names that the Host lists.
  unfoldable pub listed_names : Links system → Shutdown (List Text)
  listed_names links =
      and_then
        (of_steps (
          on_host system client (remote_text (list_script client.config.host_seter) links.masters)
            links))
        λ output links₁. (
          (ensure output.0 not_listed
              >> (context not_text output.1 >>= λ stdout. ok (lines stdout))),
          links₁,
        )

  -- The loop over the workspaces.
  unfoldable pub take_down : List Text → Links system → Shutdown (Unit {0})
  take_down [] links = (ok tt, links)
  take_down (name ∷ names) links =
      and_then (with_context bad_name (validate_name name), links)
        λ valid links₁.
          and_then
            (of_steps (seter_checked system client (text "down" ∷ name ∷ []) not_down links₁))
            λ down links₂. take_down names links₂

  abbrev pub take_all_down : Bool → Links system → Shutdown (Unit {0})
  take_all_down false links = (ok tt, links)
  take_all_down true links = and_then (listed_names links) λ names links₁.
      and_then (take_down names links₁)
        λ down links₂. of_steps (browser_detach system client links₂)

  -- The loop over the connections.
  unfoldable pub stop_all : List Connection → Links system → Shutdown (Unit {0})
  stop_all [] links = (ok tt, links)
  stop_all (c ∷ cs) links =
      and_then (of_steps (lifted system client (stop_connection system c links)))
        λ stopped links₁. stop_all cs links₁

  abbrev pub power_off : Links system → Shutdown ℕ
  power_off links = of_steps (on_host system client (limactl_stop links.masters) links)

  unfoldable pub stop : Links system → Shutdown ℕ
  stop links =
      and_then (of_steps (of_client system client (client.running links.masters), links))
        λ up links₁. and_then (take_all_down up links₁) λ down links₂.
          and_then (of_steps (of_client system client (client.lock links₂.masters), links₂))
            λ locked links₃.
              and_then
                (of_steps
                  (lifted system client (connections system (entries links₃) links₃, links₃)))
                λ found links₄. and_then (stop_all found links₄) λ stopped links₅. power_off links₅

  -- The exit code of `host_status`.
  unfoldable pub host_status : Links system → Shutdown ℕ
  host_status links =
      and_then (of_steps (of_client system client (state links.masters), links)) λ value links₁.
        and_then (of_steps (browser_status system client links₁)) λ browser links₂.
          and_then (of_steps (docker_status system client links₂)) λ docker links₃.
            and_then (of_steps (of_client system client (client.lock links₃.masters), links₃))
              λ locked links₄.
                and_then
                  (of_steps (lifted system client (forward_list system (entries links₄) links₄)))
                  λ shown links₅. (ok (if value == text "Running" then 0 else 3), links₅)
