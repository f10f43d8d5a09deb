-- ===== src/Client/Connections/Cleared.antt =====
-- Stopping a connection clears its record.
use seter.Prelude.{
  ◌≡◌, refl, sym, ap, ◌∙◌, inl, inr, Bool, true, false, Result, ok, err, and_then-steps, pair-eq,
  err-not-ok, Bool-cases,
}
use seter.Prelude.Text.{Text, text}
use seter.Prelude.Eq.{◌==◌, ==_refl, nat_eq, list_eq}
use seter.Lifecycle.Storage.{RemoveError, not_found, other_failure}
use seter.Client.Connections.{
  Connection, Stored, absent, unreadable, garbled, stored, System, Links, remove_stored,
  remove_record, remove_present, remove_socket, remove_known, remove_docker_if, stop_connection,
}

module _ (system : System) where
  present-absent :
      (name : Text) (links final : Links system)
      → remove_present system name links ≡ (ok tt, final)
      → final.records name ≡ absent
  present-absent name links final h = elim (Bool-cases (system.cannot_remove name)) [
    | inl stuck ↦ absurd (err-not-ok (pair-eq (rw stuck at h)).0)
    | inr free ↦
        ap (λ (l : Links system). l.records name) (sym (pair-eq (rw free at h)).1)
        ∙ rw (==_refl name) refl
  ]

  remove_stored-absent :
      (name : Text) (links : Links system) (s : Stored) (final : Links system)
      → links.records name ≡ s
      → remove_stored system name links s ≡ (ok tt, final)
      → final.records name ≡ absent
  remove_stored-absent name links absent final e h =
      ap (λ (l : Links system). l.records name) (sym (pair-eq h).1) ∙ e
  remove_stored-absent name links unreadable final e h = present-absent name links final h
  remove_stored-absent name links garbled final e h = present-absent name links final h
  remove_stored-absent name links (stored c) final e h = present-absent name links final h

  pub remove_socket-records :
      (links : Links system) (name : Text)
      → (remove_socket system links).1.records name ≡ links.records name
  unfolding remove_socket
  remove_socket-records links name = known (system.is_socket links.masters system.docker_socket)
    where
      known :
          (r : Result RemoveError Bool)
          → (remove_known system r links).1.records name ≡ links.records name
      known (err not_found) = refl
      known (err other_failure) = refl
      known (ok false) = refl
      known (ok true) = refl

  docker-kept :
      (b : Bool) (links final : Links system)
      → remove_docker_if system b links ≡ (ok tt, final)
      → (name : Text) → final.records name ≡ links.records name
  docker-kept false links final h name =
      ap (λ (l : Links system). l.records name) (sym (pair-eq h).1)
  docker-kept true links final h name =
      ap (λ (l : Links system). l.records name) (sym (pair-eq h).1)
      ∙ remove_socket-records links name

  -- A stop that succeeds leaves no record of the connection's name.
  pub stop_connection-absent :
      (c : Connection) (links final : Links system)
      → stop_connection system c links ≡ (ok tt, final)
      → final.records c.name ≡ absent
  unfolding stop_connection remove_record
  stop_connection-absent c links final h =
      let (alive, t₁, checked, h₁) = and_then-steps _ _ h in
      let (closed, t₂, done, h₂) = and_then-steps _ _ h₁ in
      let (gone, t₃, removed, h₃) = and_then-steps _ _ h₂ in
      let (unlinked, t₄, cut, h₄) = and_then-steps _ _ h₃ in
      docker-kept (c.name == text "docker") t₄ final h₄ c.name
      ∙ (ap (λ (l : Links system). l.records c.name) (sym (pair-eq cut).1)
          ∙ remove_stored-absent c.name t₂ (t₂.records c.name) t₃ refl removed)
