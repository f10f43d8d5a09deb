-- ===== src/Client/Connections/Records.antt =====
-- Which records starting and stopping a connection change.
use seter.Prelude.{
  ◌≡◌, refl, ◌∙◌, ◌⊎◌, inl, inr, Bool, true, false, Result, ok, err, and_then, Bool-cases,
}
use seter.Prelude.Eq.{◌==◌, nat_eq, list_eq, option_eq, list_beq_iff}
use seter.Prelude.Text.{Text, text}
use seter.Lifecycle.Storage.{RemoveError, not_found, other_failure}
use seter.Client.Connections.{
  Connection, Stored, absent, unreadable, garbled, stored, System, Links, Outcome, set_record,
  connection_alive, remove_record, remove_present, remove_stored, remove_known, remove_socket,
  close_if, remove_docker_if, stop_connection,
}
use seter.Client.Connections.Starting.{write_record, establish, clear_if, replace, keep_if}

module _ (system : System) where
  -- A record is as before, or it is that of a connection with this name and was removed, or is that connection.
  abbrev pub Changes : Connection → Links system → Links system → Type 0
  Changes c before after =
      (name : Text)
      → (after.records name ≡ before.records name)
        ⊎ (name ≡ c.name) × ((after.records name ≡ absent) ⊎ (after.records name ≡ stored c))

  pub Changes-trans :
      (c : Connection) (a b d : Links system) → Changes c a b → Changes c b d → Changes c a d
  Changes-trans c a b d first later name = elim (later name) [
    | inr changed ↦ inr changed
    | inl same ↦ elim (first name) [
      | inl as_before ↦ inl (same ∙ as_before)
      | inr (named, inl gone) ↦ inr (named, inl (same ∙ gone))
      | inr (named, inr written) ↦ inr (named, inr (same ∙ written))
    ]
  ]

  pub Changes-and_then :
      {A B : Type 0} (c : Connection) (links : Links system) (first : Outcome system A)
      (next : A → Links system → Outcome system B)
      → Changes c links first.1
      → ((a : A) (t : Links system) → Changes c t (next a t).1)
      → Changes c links (and_then first next).1
  unfolding and_then
  Changes-and_then c links (ok a, t) next begun goes_on =
      Changes-trans c links t (next a t).1 begun (goes_on a t)
  Changes-and_then c links (err e, t) next begun goes_on = begun

  -- The continuation may use what the first step came to.
  pub Changes-after :
      {A B : Type 0} (c : Connection) (links : Links system) (first : Outcome system A)
      (next : A → Links system → Outcome system B)
      → Changes c links first.1
      → ((a : A) (t : Links system) → first ≡ (ok a, t) → Changes c t (next a t).1)
      → Changes c links (and_then first next).1
  unfolding and_then
  Changes-after c links (ok a, t) next begun goes_on =
      Changes-trans c links t (next a t).1 begun (goes_on a t refl)
  Changes-after c links (err e, t) next begun goes_on = begun

  pub unchanged : (c : Connection) (links : Links system) → Changes c links links
  unchanged c links name = inl refl

  set_record-Changes :
      (c : Connection) (links : Links system) (s : Stored)
      → (s ≡ absent) ⊎ (s ≡ stored c)
      → Changes c links (set_record system c.name s links)
  set_record-Changes c links s allowed name = elim (Bool-cases (name == c.name)) [
    | inr other ↦ inl (rw other refl)
    | inl same ↦
        let named = (list_beq_iff name c.name).0 same in
        elim allowed [
          | inl gone ↦ inr (named, inl (rw same gone))
          | inr written ↦ inr (named, inr (rw same written))
        ]
  ]

  remove_present-Changes :
      (c : Connection) (links : Links system)
      → Changes c links (remove_present system c.name links).1
  remove_present-Changes c links = elim (Bool-cases (system.cannot_remove c.name)) [
    | inl stuck ↦ rw stuck (unchanged c links)
    | inr free ↦ rw free (set_record-Changes c links absent (inl refl))
  ]

  remove_record-Changes :
      (c : Connection) (links : Links system)
      → Changes c links (remove_record system c.name links).1
  unfolding remove_record
  remove_record-Changes c links = removes (links.records c.name)
    where
      removes : (s : Stored) → Changes c links (remove_stored system c.name links s).1
      removes absent = unchanged c links
      removes unreadable = remove_present-Changes c links
      removes garbled = remove_present-Changes c links
      removes (stored d) = remove_present-Changes c links

  remove_socket-Changes :
      (c : Connection) (links : Links system) → Changes c links (remove_socket system links).1
  unfolding remove_socket
  remove_socket-Changes c links = known (system.is_socket links.masters system.docker_socket)
    where
      known : (r : Result RemoveError Bool) → Changes c links (remove_known system r links).1
      known (err not_found) = unchanged c links
      known (err other_failure) = unchanged c links
      known (ok false) = unchanged c links
      known (ok true) = λ name. inl refl

  close_if-Changes :
      (alive : Bool) (d c : Connection) (links : Links system)
      → Changes c links (close_if system alive d links).1
  close_if-Changes false d c links = unchanged c links
  close_if-Changes true d c links = λ name. inl refl

  remove_docker_if-Changes :
      (b : Bool) (c : Connection) (links : Links system)
      → Changes c links (remove_docker_if system b links).1
  remove_docker_if-Changes false c links = unchanged c links
  remove_docker_if-Changes true c links = remove_socket-Changes c links

  pub connection_alive-Changes :
      (d c : Connection) (links : Links system)
      → Changes c links (connection_alive system d links).1
  unfolding connection_alive
  connection_alive-Changes d c links = λ name. inl refl

  -- `d` has the name of `c`.
  pub stop_connection-Changes :
      (d c : Connection)
      → d.name ≡ c.name
      → (links : Links system) → Changes c links (stop_connection system d links).1
  unfolding stop_connection
  stop_connection-Changes d c same links =
      Changes-and_then c links _ _ (connection_alive-Changes d c links) (λ alive t₁.
        Changes-and_then c t₁ _ _ (close_if-Changes alive d c t₁) (λ closed t₂.
          Changes-and_then c t₂ _ _ (rw same (remove_record-Changes c t₂)) (λ gone t₃.
            Changes-and_then c t₃ _ _ (λ name. inl refl)
              (λ unlinked t₄. remove_docker_if-Changes (d.name == text "docker") c t₄))))

  write_record-Changes :
      (c : Connection) (links : Links system) → Changes c links (write_record system c links).1
  write_record-Changes c links = elim (Bool-cases (system.cannot_write c.name)) [
    | inl stuck ↦ rw stuck (stop_connection-Changes c c refl links)
    | inr free ↦ rw free (set_record-Changes c links (stored c) (inr refl))
  ]

  establish-Changes :
      (c : Connection) (links : Links system) → Changes c links (establish system c links).1
  unfolding establish
  establish-Changes c links =
      Changes-and_then c links _ _ (λ name. inl refl) (λ established t. write_record-Changes c t)

  clear_if-Changes :
      (b : Bool) (c : Connection) (links : Links system)
      → Changes c links (clear_if system b c links).1
  clear_if-Changes false c links = unchanged c links
  clear_if-Changes true c links =
      Changes-and_then c links _ _ (connection_alive-Changes c c links)
        (λ alive t₁. Changes-and_then c t₁ _ _ (unchanged c t₁) (λ idle t₂. λ name. inl refl))

  pub replace-Changes :
      (c : Connection) (links : Links system) → Changes c links (replace system c links).1
  replace-Changes c links =
      Changes-and_then c links _ _ (clear_if-Changes _ c links) (λ cleared t. establish-Changes c t)

  pub keep_if-Changes :
      (b : Bool) (d c : Connection)
      → d.name ≡ c.name
      → (links : Links system) → Changes c links (keep_if system b d c links).1
  keep_if-Changes true d c same links = unchanged c links
  keep_if-Changes false d c same links =
      Changes-and_then c links _ _ (stop_connection-Changes d c same links)
        (λ ended t. replace-Changes c t)
