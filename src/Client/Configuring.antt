-- ===== src/Client/Configuring.antt =====
-- `host configure` of client.rs: managed connections that are idle are stopped, the configuration is updated,
-- validated and saved. Lima, the file system and the saving are parameters.
use seter.Prelude.{
  ◌≡◌, sym, ap, ◌∙◌, Bool, not, Option, none, some, List, [], ◌∷◌, All, Result, ok, ensure, context,
  with_context, ◌>>=◌, ◌>>◌, and_then, and_then-steps, pair-eq, bind-eq-ok, seq-eq-ok,
  with_context-eq-ok, ok_inj,
}
use seter.Prelude.Text.{Text}
use seter.Cli.{Configuration}
use seter.Client.Config.{ClientConfig, ConfigError, validate_name, validate_config}
use seter.Client.Host.{ClientError, Paths}
use seter.Client.Connections.{
  Connection, ConnectionError, client_error, still_active, absent, System, Links, Outcome,
  connection_alive, stop_connection,
}
use seter.Client.Connections.Cleared.{stop_connection-absent}
use seter.Client.Connections.Listing.{connections}
use seter.Client.Deployment.{DeployError, resolve_flake}
use seter.Client.Shutdown.{Machine}
use seter.Client.Shutdown.Cleared.{stays-absent}

pub data ConfigureError : Type 0 where
  failed : ConnectionError → ConfigureError
  bad_config : ConfigError → ConfigureError
  bad_flake : DeployError → ConfigureError
  no_exchange no_endpoint_file no_herdr not_saved : ConfigureError

abbrev chosen : {A : Type 0} → Option A → A → A
chosen (some a) old = a
chosen none old = old

abbrev resolved :
    (Text → Result ConfigureError Text)
    → Option Text
    → Option Text
    → Result ConfigureError (Option Text)
resolved resolve none old = ok old
resolved resolve (some path) old = resolve path >>= λ result. ok (some result)

-- The arm's changes of the configuration.
unfoldable pub update : Paths → Configuration → ClientConfig → Result ConfigureError ClientConfig
update paths c config = do
  with_context bad_config (validate_name c.lima)
  flake ← resolved (λ f. with_context bad_flake (resolve_flake paths f)) c.flake config.flake
  exchange ←
      resolved (λ p. context no_exchange (paths.canonicalize p)) c.exchange_directory
        config.exchange_directory
  file ←
      resolved (λ p. context no_endpoint_file (paths.canonicalize p)) c.cdp_port_file
        config.cdp_port_file
  herdr ← resolved (λ p. context no_herdr (paths.canonicalize p)) c.herdr_config config.herdr_config
  ok (record config {
    instance_name = c.lima;
    flake = flake;
    configuration = chosen c.configuration config.configuration;
    host_seter = chosen c.host_seter config.host_seter;
    exchange_directory = exchange;
    exchange_mount = chosen c.exchange_mount config.exchange_mount;
    cdp_port_file = file;
    cdp_port = chosen c.cdp_port config.cdp_port;
    docker_socket = chosen c.docker_socket config.docker_socket;
    herdr_config = herdr;
    forward_agent = chosen c.forward_agent config.forward_agent;
  })

module _ (system : System) (machine : Machine system) where
  -- The loop over the connections.
  unfoldable pub stop_idle : List Connection → Links system → Outcome system (Unit {0})
  stop_idle [] links = (ok tt, links)
  stop_idle (c ∷ cs) links = and_then (connection_alive system c links) λ alive links₁.
      and_then (ensure (not alive) still_active, links₁)
        λ idle links₂.
          and_then (stop_connection system c links₂) λ stopped links₃. stop_idle cs links₃

  module _ (paths : Paths) (is_dir : Text → Bool)
      (lima_status : ClientConfig → system.Masters → Result ClientError Text)
      (save : ClientConfig → Bool) where
    abbrev pub save_valid : ClientConfig → Links system → Result ConfigureError ClientConfig
    save_valid config links =
        with_context bad_config (validate_config is_dir config)
        >> (with_context (λ e. failed (client_error e)) (lima_status config links.masters)
            >>= λ state. (ensure (save config) not_saved >> ok config))

    -- The configuration that is saved.
    unfoldable pub configure :
        Configuration → Links system → Result ConfigureError ClientConfig × Links system
    configure c links =
        and_then
          (with_context (λ e. failed (client_error e)) (machine.client.lock links.masters), links)
          λ locked links₁.
            and_then
              (with_context failed (connections system (machine.entries links₁) links₁), links₁)
              λ found links₂.
                let (stopped, links₃) = stop_idle found links₂ in
                and_then (with_context failed stopped, links₃)
                  λ idle links₄. (
                    (update paths c machine.client.config >>= λ config. save_valid config links₄),
                    links₄,
                  )

  stop_idle-stays :
      (cs : List Connection) (links final : Links system)
      → stop_idle cs links ≡ (ok tt, final)
      → (name : Text) → links.records name ≡ absent
      → final.records name ≡ absent
  unfolding stop_idle connection_alive
  stop_idle-stays [] links final h name gone =
      ap (λ (l : Links system). l.records name) (sym (pair-eq h).1) ∙ gone
  stop_idle-stays (c ∷ cs) links final h name gone =
      let (alive, t₁, checked, h₁) = and_then-steps _ _ h in
      let (idle, t₂, is_idle, h₂) = and_then-steps _ _ h₁ in
      let (stopped, t₃, stops, h₃) = and_then-steps _ _ h₂ in
      let here : t₂.records name ≡ absent =
        ap (λ (l : Links system). l.records name) (sym (pair-eq is_idle).1)
        ∙ (ap (λ (l : Links system). l.records name) (sym (pair-eq checked).1) ∙ gone) in
      stop_idle-stays cs t₃ final h₃ name (stays-absent system machine c t₂ t₃ stops name here)

  stop_idle-absent :
      (cs : List Connection) (links final : Links system)
      → stop_idle cs links ≡ (ok tt, final)
      → All (λ c. final.records c.name ≡ absent) cs
  unfolding stop_idle
  stop_idle-absent [] links final h = tt
  stop_idle-absent (c ∷ cs) links final h =
      let (alive, t₁, checked, h₁) = and_then-steps _ _ h in
      let (idle, t₂, is_idle, h₂) = and_then-steps _ _ h₁ in
      let (stopped, t₃, stops, h₃) = and_then-steps _ _ h₂ in
      (
        stop_idle-stays cs t₃ final h₃ c.name (stop_connection-absent system c t₂ t₃ stops),
        stop_idle-absent cs t₃ final h₃,
      )

  module _ (paths : Paths) (is_dir : Text → Bool)
      (lima_status : ClientConfig → system.Masters → Result ClientError Text)
      (save : ClientConfig → Bool) where
    -- If `configure` saves a configuration, it is a valid one for the Lima instance that was named, and no
    -- connection that the state directory lists at the start has a record at the end.
    pub configure-IsValid :
        (c : Configuration) (links final : Links system) (saved : ClientConfig)
        → configure paths is_dir lima_status save c links ≡ (ok saved, final)
        → (validate_config is_dir saved ≡ ok tt)
          × (saved.instance_name ≡ c.lima)
          × (found : List Connection) × (connections system (machine.entries links) links
              ≡ ok found)
          × All (λ d. final.records d.name ≡ absent) found
    unfolding configure update
    configure-IsValid c links final saved h =
        let (locked, t₁, held, h₁) = and_then-steps _ _ h in
        let (found, t₂, lists, h₂) = and_then-steps _ _ h₁ in
        let (idle, t₃, stopped, h₃) = and_then-steps _ _ h₂ in
        let (config, updated, saving) = bind-eq-ok _ _ (pair-eq h₃).0 in
        let (valid, h₄) = seq-eq-ok _ _ saving in
        let (state, status, h₅) = bind-eq-ok _ _ h₄ in
        let (written, e) = seq-eq-ok _ _ h₅ in
        let (named, u₁) = seq-eq-ok _ _ updated in
        let (flake, f₁, u₂) = bind-eq-ok _ _ u₁ in
        let (exchange, f₂, u₃) = bind-eq-ok _ _ u₂ in
        let (file, f₃, u₄) = bind-eq-ok _ _ u₃ in
        let (herdr, f₄, u₅) = bind-eq-ok _ _ u₄ in
        let same : config ≡ saved = ok_inj e in
        let now : stop_idle found t₂ ≡ (ok tt, final) =
          ap (λ r. (r, (stop_idle found t₂).1)) (with_context-eq-ok _ _ (pair-eq stopped).0)
          ∙ ap (λ t. (ok tt, t)) ((pair-eq stopped).1 ∙ (pair-eq h₃).1) in
        (
          ap (validate_config is_dir) (sym same) ∙ with_context-eq-ok _ _ valid,
          ap (λ (d : ClientConfig). d.instance_name) (sym same)
              ∙ sym (ap (λ (d : ClientConfig). d.instance_name) (ok_inj u₅)),
          found,
          ap (λ l. connections system (machine.entries l) l) (pair-eq held).1
              ∙ with_context-eq-ok _ _ (pair-eq lists).0,
          stop_idle-absent found t₂ final now,
        )
