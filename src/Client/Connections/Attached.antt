-- ===== src/Client/Connections/Attached.antt =====
-- What attaching a browser leaves.
use seter.Prelude.{
  ℕ, ◌≡◌, refl, ap, ◌∙◌, Bool, Option, some, Result, ok, err, and_then, and_then-steps, pair-eq,
  with_context-eq-ok, ensure, ensure-eq-ok, true,
}
use seter.Prelude.Text.{Text, text}
use seter.Prelude.Eq.{nat_eq, list_eq}
use seter.Client.Host.{ClientError, Endpoint}
use seter.Client.Probe.Endpoints.{browser}
use seter.Client.Connections.{Connection, stored, System, Links}
use seter.Client.Connections.Forwards.{or_port, loopback_forward}
use seter.Client.Connections.Attaching.{
  AttachError, Client, Steps, on_host, remote, browser_source, read_source, verify_browser,
}

module _ (system : System) (client : Client system) where
  -- What a step on the Host gave, and the state behind it.
  pub on_host-ok :
      {A : Type 0} (o : Result ClientError A × system.Masters) (links now : Links system) (a : A)
      → on_host system client o links ≡ (ok a, now)
      → o ≡ (ok a, now.masters)
  on_host-ok (result, masters) links now a h =
      let e : result ≡ ok a = with_context-eq-ok _ _ (pair-eq h).0 in
      let s : masters ≡ now.masters = ap (λ (l : Links system). l.masters) (pair-eq h).1 in cc

  -- A command on the Host that succeeds.
  pub remote-ok :
      (script : Text) (e : AttachError) (links now : Links system)
      → remote system client script e links ≡ (ok tt, now)
      → client.remote_output script links.masters ≡ (ok true, now.masters)
  remote-ok script e links now h =
      let (success, t₁, ran, h₁) = and_then-steps _ _ h in
      let good : success ≡ true = ensure-eq-ok _ _ (pair-eq h₁).0 in
      let same : t₁ ≡ now = (pair-eq h₁).1 in
      on_host-ok (client.remote_output script links.masters) links t₁ success ran
      ∙ rw (good, same) refl

  pub remote-records :
      (script : Text) (e : AttachError) (links : Links system) (name : Text)
      → (remote system client script e links).1.records name ≡ links.records name
  unfolding and_then
  remote-records script e links name =
      known (on_host system client (client.remote_output script links.masters) links) refl
    where
      known :
          (o : Steps system client Bool)
          → o.1.records name ≡ links.records name
          → (and_then o (λ success links₁. (ensure success e, links₁))).1.records name
            ≡ links.records name
      known (ok success, now) same = same
      known (err f, now) same = same

  -- At the start, the endpoint file that was asked for (or the configured or the newest one) was read and the port
  -- that it names answered as its browser; the Host ran or was started, and the record is that of a connection to
  -- its endpoint then, for what the file names; and the Host reached the browser through it and has its endpoint file.
  abbrev pub IsAttached : Option Text → Option ℕ → Links system → Links system → Type 0
  IsAttached requested_file requested_port links final =
      (file : Text) × (source_port : ℕ) × (path answer : Text) × (up : system.Masters)
      × (e : Endpoint) × (now : Links system) × (browser_source system client requested_file
          ≡ ok file)
      × (read_source system client file ≡ ok (source_port, path))
      × (browser (client.network links.masters) source_port (some path) ≡ ok answer)
      × (client.ensure_running links.masters ≡ (ok tt, up))
      × (client.endpoint up ≡ ok e)
      × (verify_browser system client (or_port requested_port client.config.cdp_port) path now
          ≡ (ok tt, final))
      × (c : Connection) × (final.records (text "browser") ≡ stored c)
      × (c.endpoint ≡ e)
      × (c.reverse ≡ true)
      × (c.forward ≡ loopback_forward (or_port requested_port client.config.cdp_port) source_port)
      × (c.source_file ≡ some file)
      × (c.websocket_path ≡ some path)
