-- ===== src/Client/Connections/Starting.antt =====
-- `start_connection` of client/connections.rs.
use seter.Prelude.{
  Bool, true, false, not, Option, none, some, List, [], ◌∷◌, ◌++◌, ok, err, ensure, with_context,
  ◌>>=◌, and_then, if◌then◌else◌,
}
use seter.Prelude.Eq.{nat_eq, list_eq, option_eq}
use seter.Prelude.Text.{Text, text}
use seter.Client.Host.{ssh_arguments}
use seter.Client.Connections.{
  Connection, connection_beq, stored, client_error, host_stopped, still_active, not_established,
  not_written, System, Links, Outcome, removed, succeeded, set_record, control_path, on_masters,
  connection, connection_alive, stop_connection,
}

abbrev direction : Bool → Text
direction true = text "-R"
direction false = text "-L"

module _ (system : System) where
  open system use {running, ssh, exists, unlink, cannot_write}

  abbrev forward_arguments : Connection → List Text
  forward_arguments c =
      ssh_arguments c.endpoint
      ++ (text "-o"
          ∷ text "ControlMaster=yes"
          ∷ text "-o"
          ∷ text "ControlPersist=no"
          ∷ text "-o"
          ∷ text "ForwardAgent=no"
          ∷ text "-o"
          ∷ text "BatchMode=yes"
          ∷ text "-o"
          ∷ text "ExitOnForwardFailure=yes"
          ∷ text "-o"
          ∷ text "StreamLocalBindMask=0177"
          ∷ text "-o"
          ∷ text "StreamLocalBindUnlink=no"
          ∷ text "-S"
          ∷ control_path system c.name
          ∷ text "-fNT"
          ∷ direction c.reverse
          ∷ c.forward
          ∷ c.endpoint.destination
          ∷ [])

  -- A failure to write the record stops the connection again, whatever comes of that.
  abbrev pub write_record : Connection → Links system → Outcome system (Unit {0})
  write_record c links =
      if cannot_write c.name
      then (err not_written, (stop_connection system c links).1)
      else (ok tt, set_record system c.name (stored c) links)

  unfoldable pub establish : Connection → Links system → Outcome system (Unit {0})
  establish c links =
      let (result, masters) = ssh (forward_arguments c) links.masters in
      and_then (on_masters system (succeeded not_established result, masters) links)
        λ established links₁. write_record c links₁

  -- A control socket that no record knows.
  abbrev pub clear_if : Bool → Connection → Links system → Outcome system (Unit {0})
  clear_if false c links = (ok tt, links)
  clear_if true c links = and_then (connection_alive system c links) λ alive links₁.
      and_then (ensure (not alive) still_active, links₁)
        λ idle links₂.
          let (result, masters) = unlink (control_path system c.name) links₂.masters in
          on_masters system (removed result, masters) links₂

  abbrev pub replace : Connection → Links system → Outcome system (Unit {0})
  replace c links =
      and_then (clear_if (exists links.masters (control_path system c.name)) c links)
        λ cleared links₁. establish c links₁

  abbrev pub keep_if : Bool → Connection → Connection → Links system → Outcome system (Unit {0})
  keep_if true previous c links = (ok tt, links)
  keep_if false previous c links =
      and_then (stop_connection system previous links) λ ended links₁. replace c links₁

  abbrev pub start_over : Option Connection → Connection → Links system → Outcome system (Unit {0})
  start_over none c links = replace c links
  start_over (some previous) c links =
      if connection_beq previous c
      then and_then (connection_alive system previous links)
          (λ alive links₁. keep_if alive previous c links₁)
      else keep_if false previous c links

  unfoldable pub start_connection : Connection → Links system → Outcome system (Unit {0})
  start_connection c links =
      and_then
        (
          (with_context client_error (running links.masters) >>= λ up. ensure up host_stopped),
          links,
        )
        λ up links₁.
          and_then (connection system c.name links₁, links₁)
            λ previous links₂. start_over previous c links₂
