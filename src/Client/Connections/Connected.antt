-- ===== src/Client/Connections/Connected.antt =====
-- What connecting Docker leaves.
use seter.Prelude.{
  Result-cases, ◌⊎◌, with_context, ◌≡◌, refl, sym, ap, ◌∙◌, inl, inr, Bool, true, false, Option,
  none, some, Result, ok, err, and_then, and_then-steps, pair-eq, with_context-eq-ok, ensure-eq-ok,
  ltb, Bool-cases, [], ◌∷◌, ◌++◌,
}
use seter.Prelude.Text.{Text, text, byte_len}
use seter.Prelude.Eq.{nat_eq, list_eq}
use seter.Client.Host.{Endpoint}
use seter.Client.Probe.Endpoints.{docker}
use seter.Client.Connections.{
  Connection, ConnectionError, connection_beq, stored, System, Links, connection, connection_alive,
  remove_socket, stop_connection,
}
use seter.Client.Connections.Records.{stop_connection-Changes}
use seter.Client.Connections.Named.{stored_connection}
use seter.Client.Connections.Attaching.{
  AttachError, no_daemon, Client, Steps, lifted, docker_connection,
}
use seter.Client.Connections.Daemon.{
  alive_or_false, docker_connect, verify_docker, clear_daemon, is_current, stop_previous,
}
use seter.Client.Connections.Verified.{
  Keeps, Changes-Keeps, Keeps-trans, Keeps-and_then, start_verified-Keeps, start_verified-stored,
}
use seter.Client.Connections.Cleared.{remove_socket-records}
use seter.Client.Connections.Attached.{remote-records, on_host-ok, remote-ok}
use seter.Shell.{seter_command}

module _ (system : System) (client : Client system) where
  alive_or_false-records :
      (o : Result ConnectionError Bool × Links system) (name : Text)
      → (alive_or_false system client o).1.records name ≡ o.1.records name
  alive_or_false-records (ok alive, links) name = refl
  alive_or_false-records (err e, links) name = refl

  is_current-records :
      (c : Connection) (o : Option Connection) (links : Links system) (name : Text)
      → (is_current system client c o links).1.records name ≡ links.records name
  unfolding connection_alive
  is_current-records c none links name = refl
  is_current-records c (some previous) links name = elim (Bool-cases (connection_beq previous c)) [
    | inl same ↦ rw same (alive_or_false-records (connection_alive system previous links) name)
    | inr other ↦ rw other refl
  ]

  stop_previous-Keeps :
      (o : Option Connection) (links : Links system)
      → ((c : Connection) → o ≡ some c → c.name ≡ text "docker")
      → Keeps system client (text "docker") links (stop_previous system client o links).1
  stop_previous-Keeps none links named other ne = refl
  stop_previous-Keeps (some c) links named other ne =
      Changes-Keeps system client c links (stop_connection system c links).1
        (stop_connection-Changes system c c refl links) other (rw (named c refl) ne)

  clear_daemon-Keeps :
      (current : Bool) (links : Links system)
      → Keeps system client (text "docker") links (clear_daemon system client current links).1
  unfolding and_then connection with_context
  clear_daemon-Keeps true links = λ other ne. refl
  clear_daemon-Keeps false links = found (connection system (text "docker") links) refl
    where
      socket-Keeps :
          (now : Links system)
          → Keeps system client (text "docker") now (remove_socket system now).1
      socket-Keeps now other ne = remove_socket-records system now other

      found :
          (r : Result ConnectionError (Option Connection))
          → connection system (text "docker") links ≡ r
          → Keeps system client
              (text "docker")
              links
              (and_then (lifted system client (r, links)) (λ previous links₁.
                and_then
                  (stop_previous system client previous links₁)
                  (λ ended links₂. lifted system client (remove_socket system links₂)))).1
      found (err e) h = λ other ne. refl
      found (ok o) h =
          Keeps-and_then system client (text "docker") links (stop_previous system client o links)
            (λ ended links₂. lifted system client (remove_socket system links₂))
            (stop_previous-Keeps o links (λ c e.
              (stored_connection system (text "docker") (links.records (text "docker")) c
                (h ∙ ap ok e)).1))
            (λ ended now kept.
              Keeps-trans system client (text "docker") links now (remove_socket system now).1 kept
                (socket-Keeps now))

  -- The Host ran or was started, and its seter reached the daemon at the configured socket; the record is that of a
  -- connection to the Host's endpoint then and to that socket, through a local one whose path is short enough, and
  -- the daemon answered through it.
  abbrev pub IsConnected : Links system → Links system → Type 0
  IsConnected links final =
      (e : Endpoint) × (up reached : system.Masters) × (client.ensure_running links.masters
        ≡ (ok tt, up))
      × (client.remote_output
            (seter_command client.config.host_seter
              (text "__client-probe" ∷ text "--socket" ∷ client.config.docker_socket ∷ []))
            up
          ≡ (ok true, reached))
      × (client.endpoint reached ≡ ok e)
      × (ltb (byte_len system.docker_socket) 104 ≡ true)
      × (c : Connection) × (final.records (text "docker") ≡ stored c)
      × (c.endpoint ≡ e)
      × (c.reverse ≡ false)
      × (c.forward ≡ system.docker_socket ++ (b':' ∷ client.config.docker_socket))
      × (docker (client.network final.masters) system.docker_socket ≡ ok tt)

  verify_docker-records :
      (socket : Text) (links : Links system) (name : Text)
      → (verify_docker system client socket links).1.records name ≡ links.records name
  unfolding verify_docker
  verify_docker-records socket links name = refl

  -- However `docker_connect` ends, each record but Docker's is as before; and Docker is connected or an error is
  -- reported.
  pub docker_connect-IsConnected :
      (links final : Links system) (result : Result AttachError (Unit {0}))
      → docker_connect system client links ≡ (result, final)
      → Keeps system client (text "docker") links final
        × (IsConnected links final ⊎ (e : AttachError) × (result ≡ err e))
  unfolding docker_connect docker_connection verify_docker
  docker_connect-IsConnected links final result h =
      let kept : Keeps system client (text "docker") links (docker_connect system client links).1 =
        Keeps-and_then system client (text "docker") links _ _ (λ other ne. refl)
          λ up links₁ k₁.
            Keeps-and_then system client (text "docker") links _ _ k₁ λ locked links₂ k₂.
              Keeps-and_then system client (text "docker") links _ _ k₂ λ short links₃ k₃.
                Keeps-and_then system client (text "docker") links _ _
                  (λ other ne. remote-records system client _ no_daemon links₃ other ∙ k₃ other ne)
                  λ reached links₄ k₄.
                    Keeps-and_then system client (text "docker") links _ _ k₄ λ e links₅ k₅.
                      Keeps-and_then system client (text "docker") links _ _ k₅
                        λ previous links₆ k₆.
                          Keeps-and_then system client (text "docker") links _ _
                            (λ other ne.
                              is_current-records
                                (docker_connection e system.docker_socket
                                  client.config.docker_socket)
                                previous links₆ other
                              ∙ k₆ other ne)
                            λ current links₇ k₇.
                              Keeps-and_then system client (text "docker") links _ _
                                (Keeps-trans system client (text "docker") links links₇
                                  (clear_daemon system client current links₇).1 k₇
                                  (clear_daemon-Keeps current links₇))
                                λ cleared links₈ k₈.
                                  start_verified-Keeps system client
                                    (docker_connection e system.docker_socket
                                      client.config.docker_socket)
                                    (verify_docker system client system.docker_socket) links links₈
                                    (λ now other ne. refl) k₈ in
      (
        λ other ne.
            ap (λ (o : Steps system client (Unit {0})). o.1.records other) (sym h) ∙ kept other ne,
        elim (Result-cases result) [
          | inl (done, good) ↦ inl (connected (h ∙ ap (λ r. (r, final)) good))
          | inr bad ↦ inr bad
        ],
      )
    where
      connected : docker_connect system client links ≡ (ok tt, final) → IsConnected links final
      connected h =
          let (up, t₁, ran, h₁) = and_then-steps _ _ h in
          let (locked, t₂, held, h₂) = and_then-steps _ _ h₁ in
          let (short, t₃, measured, h₃) = and_then-steps _ _ h₂ in
          let (reached, t₄, answered, h₄) = and_then-steps _ _ h₃ in
          let (e, t₅, found, h₅) = and_then-steps _ _ h₄ in
          let (previous, t₆, read, h₆) = and_then-steps _ _ h₅ in
          let (current, t₇, compared, h₇) = and_then-steps _ _ h₆ in
          let (cleared, t₈, emptied, h₈) = and_then-steps _ _ h₇ in
          let (record_there, now, verified) =
            start_verified-stored system client
              (docker_connection e system.docker_socket client.config.docker_socket)
              (verify_docker system client system.docker_socket) t₈ final
              (verify_docker-records system.docker_socket) h₈ in
          let (probed, same) = pair-eq verified in
          let s₃ : t₁ ≡ t₃ = (pair-eq held).1 ∙ (pair-eq measured).1 in
          (
            e,
            t₁.masters,
            t₄.masters,
            on_host-ok system client (client.ensure_running links.masters) links t₁ tt ran,
            ap
                  (λ (l : Links system).
                    client.remote_output
                      (seter_command client.config.host_seter (
                        text "__client-probe" ∷ text "--socket" ∷ client.config.docker_socket ∷ []))
                      l.masters)
                  s₃
                ∙ remote-ok system client _ no_daemon t₃ t₄ answered,
            with_context-eq-ok _ _ (pair-eq found).0,
            ensure-eq-ok _ _ (pair-eq measured).0,
            docker_connection e system.docker_socket client.config.docker_socket,
            record_there,
            refl,
            refl,
            refl,
            ap (λ (l : Links system). docker (client.network l.masters) system.docker_socket)
                  (sym same)
                ∙ with_context-eq-ok _ _ probed,
          )
