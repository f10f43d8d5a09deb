-- ===== src/Client/Shutdown/Cleared.antt =====
-- What has happened when the Host is stopped.
use seter.Prelude.{
  ℕ, ◌≡◌, refl, sym, ap, ◌∙◌, ◌⊎◌, inl, inr, Bool, true, false, List, [], ◌∷◌, All, Result, ok,
  and_then-steps, pair-eq, with_context-eq-ok,
}
use seter.Prelude.Text.{Text, text}
use seter.Client.Config.{validate_name}
use seter.Client.Connections.{Connection, ConnectionError, absent, System, Links, stop_connection}
use seter.Client.Connections.Records.{stop_connection-Changes}
use seter.Client.Connections.Cleared.{stop_connection-absent}
use seter.Client.Connections.Verified.{lifted-ok}
use seter.Client.Connections.Attaching.{not_down, Steps, lifted, seter_checked}
use seter.Client.Connections.Daemon.{browser_detach}
use seter.Client.Connections.Listing.{connections}
use seter.Client.Shutdown.{
  Machine, of_steps, listed_names, take_down, take_all_down, stop_all, power_off, stop,
}

module _ (system : System) (machine : Machine system) where
  open machine use {client}

  of_steps-ok :
      {A : Type 0} (o : Steps system client A) (a : A) (now : Links system)
      → of_steps system machine o ≡ (ok a, now)
      → o ≡ (ok a, now)
  of_steps-ok (result, links) a now h =
      let e : result ≡ ok a = with_context-eq-ok _ _ (pair-eq h).0 in
      let s : links ≡ now = (pair-eq h).1 in cc

  -- Each name passed `validate_name`, and the Host took each workspace down, one after the other.
  pub data IsDown : List Text → Links system → Links system → Type 0 where
    none_left : {links : Links system} → IsDown [] links links
    next :
        {name : Text} {names : List Text} {first mid last : Links system}
        → validate_name name ≡ ok tt
        → seter_checked system client (text "down" ∷ name ∷ []) not_down first ≡ (ok tt, mid)
        → IsDown names mid last
        → IsDown (name ∷ names) first last

  take_down-IsDown :
      (names : List Text) (links final : Links system)
      → take_down system machine names links ≡ (ok tt, final)
      → IsDown names links final
  unfolding take_down
  take_down-IsDown [] links final h = rw (← (pair-eq h).1) none_left
  take_down-IsDown (name ∷ names) links final h =
      let (valid, t₁, checked, h₁) = and_then-steps _ _ h in
      let (down, t₂, downs, h₂) = and_then-steps _ _ h₁ in
      let same : links ≡ t₁ = (pair-eq checked).1 in
      next (with_context-eq-ok _ _ (pair-eq checked).0)
        (rw (← same) at (
          of_steps-ok (seter_checked system client (text "down" ∷ name ∷ []) not_down t₁) tt t₂
            downs))
        (take_down-IsDown names t₂ final h₂)

  -- A stop that succeeds writes no record.
  pub stays-absent :
      (c : Connection) (links final : Links system)
      → stop_connection system c links ≡ (ok tt, final)
      → (name : Text) → links.records name ≡ absent
      → final.records name ≡ absent
  stays-absent c links final h name gone =
      elim (stop_connection-Changes system c c refl links name) [
        | inl same ↦
            ap (λ (o : Result ConnectionError (Unit {0}) × Links system). o.1.records name) (sym h)
            ∙ (same ∙ gone)
        | inr (e, changed) ↦ ap final.records e ∙ stop_connection-absent system c links final h
      ]

  stop_all-stays :
      (cs : List Connection) (links final : Links system)
      → stop_all system machine cs links ≡ (ok tt, final)
      → (name : Text) → links.records name ≡ absent
      → final.records name ≡ absent
  unfolding stop_all
  stop_all-stays [] links final h name gone =
      ap (λ (l : Links system). l.records name) (sym (pair-eq h).1) ∙ gone
  stop_all-stays (c ∷ cs) links final h name gone =
      let (stopped, t, stops, h₁) = and_then-steps _ _ h in
      let one =
        lifted-ok system client (stop_connection system c links) tt t
          (of_steps-ok (lifted system client (stop_connection system c links)) tt t stops) in
      stop_all-stays cs t final h₁ name (stays-absent c links t one name gone)

  stop_all-absent :
      (cs : List Connection) (links final : Links system)
      → stop_all system machine cs links ≡ (ok tt, final)
      → All (λ c. final.records c.name ≡ absent) cs
  unfolding stop_all
  stop_all-absent [] links final h = tt
  stop_all-absent (c ∷ cs) links final h =
      let (stopped, t, stops, h₁) = and_then-steps _ _ h in
      let one =
        lifted-ok system client (stop_connection system c links) tt t
          (of_steps-ok (lifted system client (stop_connection system c links)) tt t stops) in
      (
        stop_all-stays cs t final h₁ c.name (stop_connection-absent system c links t one),
        stop_all-absent cs t final h₁,
      )

  same_records :
      (before after : Links system)
      → ((name : Text) → after.records name ≡ before.records name)
      → (cs : List Connection) → All (λ c. before.records c.name ≡ absent) cs
      → All (λ c. after.records c.name ≡ absent) cs
  same_records before after same [] h = tt
  same_records before after same (c ∷ cs) (gone, h) =
      (same c.name ∙ gone, same_records before after same cs h)

  -- The workspaces that the Host lists were taken down, and then the browser was detached, or the Host did not
  -- run: which of the two is what `up` says, and `now` is the state behind it.
  abbrev IsEmptied : Bool → Links system → Links system → Type 0
  IsEmptied up links now =
      ((up ≡ false) × (links ≡ now))
      ⊎ (up ≡ true)
        × (names : List Text) × (first last : Links system) × (listed_names system machine links
            ≡ (ok names, first))
        × IsDown names first last
        × (of_steps system machine (browser_detach system client last) ≡ (ok tt, now))

  -- What stopping the Host leaves: behind what was done to its workspaces, the connections that the state directory
  -- lists at that state are stopped one after the other, none of them has a record, and limactl ends the run.
  abbrev pub IsShutDown : Links system → Links system → ℕ → Type 0
  IsShutDown links final code =
      (up : Bool) × (now stopped : Links system) × (found : List Connection) × (client.running
          links.masters
        ≡ ok up)
      × IsEmptied up links now
      × (connections system (machine.entries now) now ≡ ok found)
      × (stop_all system machine found now ≡ (ok tt, stopped))
      × (power_off system machine stopped ≡ (ok code, final))
      × All (λ c. final.records c.name ≡ absent) found

  same_ends :
      (up : Bool) (links first last now : Links system)
      → links ≡ first
      → last ≡ now
      → IsEmptied up first last
      → IsEmptied up links now
  same_ends up links first last now e f h = rw (e, ← f) h

  take_all_down-IsEmptied :
      (up : Bool) (links final : Links system)
      → take_all_down system machine up links ≡ (ok tt, final)
      → IsEmptied up links final
  take_all_down-IsEmptied false links final h = inl (refl, (pair-eq h).1)
  take_all_down-IsEmptied true links final h =
      let (names, first, lists, h₁) = and_then-steps _ _ h in
      let (down, last, downs, h₂) = and_then-steps _ _ h₁ in
      inr (refl, names, first, last, lists, take_down-IsDown names first last downs, h₂)

  -- If `stop` gives an exit code, then the Host did not run at the start or each workspace that it listed passed the
  -- check of its name and was taken down and the browser was detached; the connections that the state directory lists
  -- then are stopped, none of them has a record at the end, and the code is that of limactl, which runs last.
  pub stop-IsShutDown :
      (links final : Links system) (code : ℕ)
      → stop system machine links ≡ (ok code, final)
      → IsShutDown links final code
  unfolding stop
  stop-IsShutDown links final code h =
      let (up, t₁, runs, h₁) = and_then-steps _ _ h in
      let (down, t₂, downs, h₂) = and_then-steps _ _ h₁ in
      let (locked, t₃, held, h₃) = and_then-steps _ _ h₂ in
      let (found, t₄, lists, h₄) = and_then-steps _ _ h₃ in
      let (stopped, t₅, stops, off) = and_then-steps _ _ h₄ in
      let same : links ≡ t₁ = (pair-eq runs).1 in
      let ran = with_context-eq-ok _ _ (with_context-eq-ok _ _ (pair-eq runs).0) in
      let cleared = stop_all-absent found t₄ t₅ stops in
      (
        up,
        t₃,
        t₅,
        found,
        ran,
        same_ends up links t₁ t₂ t₃ same (pair-eq held).1 (take_all_down-IsEmptied up t₁ t₂ downs),
        with_context-eq-ok _ _ (with_context-eq-ok _ _ (pair-eq lists).0),
        ap (stop_all system machine found) (pair-eq lists).1 ∙ stops,
        off,
        same_records t₅ final
            (λ name. ap (λ (l : Links system). l.records name) (sym (pair-eq off).1)) found cleared,
      )
