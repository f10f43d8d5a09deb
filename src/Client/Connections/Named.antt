-- ===== src/Client/Connections/Named.antt =====
-- What starting a connection leaves, and the names of the records over any sequence of operations.
use seter.Prelude.{
  ◌≡◌, refl, sym, ap, ◌∙◌, ◌⊎◌, inl, inr, Bool, true, false, Option, none, some, ok, and_then-steps,
  Bool-cases, pair-eq, and_true, ok_inj, err-not-ok, arith, seq-eq-ok, ensure-eq-ok,
}
use seter.Prelude.Eq.{◌==◌, ==_refl, nat_eq, list_eq, option_eq, list_beq_iff, option_beq_iff}
use seter.Prelude.Text.{Text}
use seter.Client.Connections.{
  Connection, bool_beq, connection_beq, Stored, absent, unreadable, garbled, stored, System, Links,
  set_record, connection, read_stored, connection_alive, stop_connection,
}
use seter.Client.Connections.Starting.{
  keep_if, start_over, write_record, establish, replace, start_connection,
}
use seter.Client.Connections.Records.{
  Changes, Changes-and_then, Changes-after, unchanged, connection_alive-Changes, keep_if-Changes,
  replace-Changes, stop_connection-Changes,
}

bool_beq_iff : (b d : Bool) → bool_beq b d ≡ true → b ≡ d
bool_beq_iff true d h = sym h
bool_beq_iff false d h = ground arith

pub connection_beq_iff : (c d : Connection) → connection_beq c d ≡ true → c ≡ d
connection_beq_iff c d h =
    let (h₁, path_eq) = and_true _ (c.websocket_path == d.websocket_path) h in
    let (h₂, file_eq) = and_true _ (c.source_file == d.source_file) h₁ in
    let (h₃, remote_eq) = and_true _ (c.remote_port == d.remote_port) h₂ in
    let (h₄, local_eq) = and_true _ (c.local_port == d.local_port) h₃ in
    let (h₅, reverse_eq) = and_true _ (bool_beq c.reverse d.reverse) h₄ in
    let (h₆, forward_eq) = and_true _ (c.forward == d.forward) h₅ in
    let (h₇, destination_eq) = and_true _ (c.endpoint.destination == d.endpoint.destination) h₆ in
    let (name_eq, config_eq) =
      and_true (c.name == d.name) (c.endpoint.ssh_config == d.endpoint.ssh_config) h₇ in
    let e₁ = (list_beq_iff c.name d.name).0 name_eq in
    let e₂ = (list_beq_iff c.endpoint.ssh_config d.endpoint.ssh_config).0 config_eq in
    let e₃ = (list_beq_iff c.endpoint.destination d.endpoint.destination).0 destination_eq in
    let e₄ = (list_beq_iff c.forward d.forward).0 forward_eq in
    let e₅ = bool_beq_iff c.reverse d.reverse reverse_eq in
    let e₆ = (option_beq_iff c.local_port d.local_port).0 local_eq in
    let e₇ = (option_beq_iff c.remote_port d.remote_port).0 remote_eq in
    let e₈ = (option_beq_iff c.source_file d.source_file).0 file_eq in
    let e₉ = (option_beq_iff c.websocket_path d.websocket_path).0 path_eq in cc

module _ (system : System) where
  pub stored_connection :
      (name : Text) (s : Stored) (p : Connection)
      → read_stored system name s ≡ ok (some p)
      → (s ≡ stored p) × (p.name ≡ name)
  stored_connection name absent p h =
      let e : ◌≡◌ {A = Option Connection} none (some p) = ok_inj h in cc
  stored_connection name unreadable p h = absurd (err-not-ok h)
  stored_connection name garbled p h = absurd (err-not-ok h)
  stored_connection name (stored c) p h =
      let (named, same) = seq-eq-ok _ _ h in
      let found : ◌≡◌ {A = Option Connection} (some c) (some p) = ok_inj same in
      let e : c ≡ p = cc in
      (
        ap stored e,
        ap (λ q. q.name) (sym e) ∙ (list_beq_iff c.name name).0 (ensure-eq-ok _ _ named),
      )

  start_over-Changes :
      (previous : Option Connection) (c : Connection) (links : Links system)
      → ((p : Connection) → previous ≡ some p → p.name ≡ c.name)
      → Changes system c links (start_over system previous c links).1
  start_over-Changes none c links named = replace-Changes system c links
  start_over-Changes (some p) c links named = elim (Bool-cases (connection_beq p c)) [
    | inl same ↦ rw same (
        Changes-and_then system c links _ _ (connection_alive-Changes system p c links)
          (λ alive t. keep_if-Changes system alive p c (named p refl) t))
    | inr other ↦ rw other (keep_if-Changes system false p c (named p refl) links)
  ]

  pub start_connection-Changes :
      (c : Connection) (links : Links system)
      → Changes system c links (start_connection system c links).1
  unfolding start_connection connection
  start_connection-Changes c links =
      Changes-and_then system c links _ _ (unchanged system c links) (λ up t₁.
        Changes-after system c t₁ _ _ (unchanged system c t₁) (λ previous t₂ found.
          start_over-Changes previous c t₂ (λ p e.
            (stored_connection c.name (t₁.records c.name) p ((pair-eq found).0 ∙ ap ok e)).1)))

  write_record-stored :
      (c : Connection) (links final : Links system)
      → write_record system c links ≡ (ok tt, final)
      → final.records c.name ≡ stored c
  write_record-stored c links final h = elim (Bool-cases (system.cannot_write c.name)) [
    | inl stuck ↦ let h' = rw stuck at h in absurd (err-not-ok (pair-eq h').0)
    | inr free ↦
        let h' = rw free at h in
        ap (λ (l : Links system). l.records c.name) (sym (pair-eq h').1) ∙ written c links
  ]
    where
      written :
          (d : Connection) (l : Links system)
          → (set_record system d.name (stored d) l).records d.name ≡ stored d
      written d l = rw (==_refl d.name) refl

  replace-stored :
      (c : Connection) (links final : Links system)
      → replace system c links ≡ (ok tt, final)
      → final.records c.name ≡ stored c
  unfolding establish
  replace-stored c links final h =
      let (cleared, t₁, _, h₁) = and_then-steps _ _ h in
      let (established, t₂, _, h₂) = and_then-steps _ _ h₁ in write_record-stored c t₂ final h₂

  start_over-stored :
      (previous : Option Connection) (c : Connection) (links final : Links system)
      → ((p : Connection) → previous ≡ some p → links.records c.name ≡ stored p)
      → start_over system previous c links ≡ (ok tt, final)
      → final.records c.name ≡ stored c
  unfolding connection_alive
  start_over-stored none c links final known h = replace-stored c links final h
  start_over-stored (some p) c links final known h = elim (Bool-cases (connection_beq p c)) [
    | inr other ↦
        let (ended, t₁, _, h₁) = and_then-steps _ _ (rw other at h) in replace-stored c t₁ final h₁
    | inl same ↦
        let (alive, t₁, checked, h₁) = and_then-steps _ _ (rw same at h) in
        elim (Bool-cases alive) [
          | inr dead ↦
              let (ended, t₂, _, h₂) =
                and_then-steps _ _ (ap (λ b. keep_if system b p c t₁) (sym dead) ∙ h₁) in
              replace-stored c t₂ final h₂
          | inl up ↦
              let kept = (pair-eq (ap (λ b. keep_if system b p c t₁) (sym up) ∙ h₁)).1 in
              ap (λ (l : Links system). l.records c.name) (sym kept)
              ∙ ap (λ (l : Links system). l.records c.name) (sym (pair-eq checked).1)
              ∙ known p refl
              ∙ ap stored (connection_beq_iff p c same)
        ]
  ]

  -- If `start_connection` succeeds, the record of the connection's name is that connection, and the record of
  -- every other name is as before.
  pub start_connection-stored :
      (c : Connection) (links final : Links system)
      → start_connection system c links ≡ (ok tt, final)
      → (final.records c.name ≡ stored c)
        × ((other : Text) → (other ≡ c.name) ⊎ (final.records other ≡ links.records other))
  unfolding start_connection connection
  start_connection-stored c links final h =
      let (up, t₁, checked, h₁) = and_then-steps _ _ h in
      let (previous, t₂, found, h₂) = and_then-steps _ _ h₁ in
      let same : t₁ ≡ t₂ = (pair-eq found).1 in
      (
        start_over-stored previous c t₂ final
            (λ p e.
              ap (λ (l : Links system). l.records c.name) (sym same)
              ∙ (stored_connection c.name (t₁.records c.name) p ((pair-eq found).0 ∙ ap ok e)).0)
            h₂,
        λ other. elim (start_connection-Changes c links other) [
          | inl as_before ↦ inr (ap (λ r. Links.records r.1 other) (sym h) ∙ as_before)
          | inr (named, changed) ↦ inl named
        ],
      )

  -- Any sequence of starts and stops, however each of them ends.
  pub data Reachable : Links system → Links system → Type 0 where
    begin : {links : Links system} → Reachable links links
    started :
        {first last : Links system} (c : Connection)
        → Reachable first last
        → Reachable first (start_connection system c last).1
    ended :
        {first last : Links system} (c : Connection)
        → Reachable first last
        → Reachable first (stop_connection system c last).1

  -- Each record is of a connection of its name.
  abbrev pub IsNamed : Links system → Type 0
  IsNamed links = (name : Text) (c : Connection) → links.records name ≡ stored c → c.name ≡ name

  Changes-IsNamed :
      (c : Connection) (before after : Links system)
      → Changes system c before after
      → IsNamed before
      → IsNamed after
  Changes-IsNamed c before after changes named name d found = elim (changes name) [
    | inl same ↦ named name d (sym same ∙ found)
    | inr (e, inl gone) ↦ let clash : absent ≡ stored d = sym gone ∙ found in cc
    | inr (e, inr written) ↦
        let s : stored c ≡ stored d = sym written ∙ found in
        let same : c ≡ d = cc in ap (λ q. q.name) (sym same) ∙ sym e
  ]

  -- In each state that starts and stops reach from one in which each record is of a connection of its name,
  -- each record is of a connection of its name.
  pub Reachable-IsNamed :
      (first last : Links system) → Reachable first last → IsNamed first → IsNamed last
  Reachable-IsNamed first last begin named = named
  Reachable-IsNamed first last (started {last = before} c steps) named =
      Changes-IsNamed c before (start_connection system c before).1
        (start_connection-Changes c before) (Reachable-IsNamed first before steps named)
  Reachable-IsNamed first last (ended {last = before} c steps) named =
      Changes-IsNamed c before (stop_connection system c before).1
        (stop_connection-Changes system c c refl before)
        (Reachable-IsNamed first before steps named)
