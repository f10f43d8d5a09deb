-- ===== src/Client/Connections/Verified.antt =====
-- A start with what verifies it: what it leaves where that succeeds and where it fails.
use seter.Prelude.{
  ◌≡◌, ◌≢◌, refl, sym, ap, ◌∙◌, inl, inr, Result, ok, err, and_then, and_then-steps, pair-eq,
  with_context-eq-ok, err-not-ok, with_context,
}
use seter.Prelude.Text.{Text}
use seter.Prelude.Eq.{nat_eq, list_eq}
use seter.Client.Connections.{
  Connection, ConnectionError, absent, stored, System, Links, stop_connection,
}
use seter.Client.Connections.Starting.{start_connection}
use seter.Client.Connections.Records.{Changes, stop_connection-Changes}
use seter.Client.Connections.Named.{start_connection-stored, start_connection-Changes}
use seter.Client.Connections.Attaching.{
  AttachError, Client, Steps, lifted, stop_unless, start_verified,
}
use seter.Client.Connections.Cleared.{stop_connection-absent}

module _ (system : System) (client : Client system) where
  -- Each record but that of this name is as before.
  abbrev pub Keeps : Text → Links system → Links system → Type 0
  Keeps name before now = (other : Text) → other ≢ name → now.records other ≡ before.records other

  pub Changes-Keeps :
      (c : Connection) (before now : Links system)
      → Changes system c before now
      → Keeps c.name before now
  Changes-Keeps c before now changes other ne = elim (changes other) [
    | inl same ↦ same
    | inr (e, changed) ↦ absurd (ne e)
  ]

  pub Keeps-trans :
      (name : Text) (before mid now : Links system)
      → Keeps name before mid
      → Keeps name mid now
      → Keeps name before now
  Keeps-trans name before mid now first later other ne = later other ne ∙ first other ne

  pub Keeps-and_then :
      {A B : Type 0} (name : Text) (before : Links system) (first : Steps system client A)
      (next : A → Links system → Steps system client B)
      → Keeps name before first.1
      → ((a : A) (now : Links system) → Keeps name before now → Keeps name before (next a now).1)
      → Keeps name before (and_then first next).1
  unfolding and_then
  Keeps-and_then name before (ok a, now) next begun later = later a now begun
  Keeps-and_then name before (err e, now) next begun later = begun

  -- A step that ends with `ok` once it is lifted did so before.
  pub lifted-ok :
      {A : Type 0} (o : Result ConnectionError A × Links system) (a : A) (now : Links system)
      → lifted system client o ≡ (ok a, now)
      → o ≡ (ok a, now)
  lifted-ok (result, links) a now h =
      let e : result ≡ ok a = with_context-eq-ok _ _ (pair-eq h).0 in
      let s : links ≡ now = (pair-eq h).1 in cc

  stop_unless-ok :
      (c : Connection) (o : Steps system client (Unit {0})) (now : Links system)
      → stop_unless system client c o ≡ (ok tt, now)
      → o ≡ (ok tt, now)
  stop_unless-ok c (ok tt, links) now h = h
  stop_unless-ok c (err e, links) now h = absurd (err-not-ok (pair-eq h).0)

  pub start_verified-Keeps :
      (c : Connection) (verify : Links system → Steps system client (Unit {0}))
      (before links : Links system)
      → ((now : Links system) → Keeps c.name now (verify now).1)
      → Keeps c.name before links
      → Keeps c.name before (start_verified system client c verify links).1
  start_verified-Keeps c verify before links verifies begun =
      Keeps-and_then c.name before (lifted system client (start_connection system c links)) _
        (Keeps-trans c.name before links (start_connection system c links).1 begun (
          Changes-Keeps c links (start_connection system c links).1
            (start_connection-Changes system c links)))
        λ started now kept.
          ended (verify now) (Keeps-trans c.name before now (verify now).1 kept (verifies now))
    where
      ended :
          (o : Steps system client (Unit {0}))
          → Keeps c.name before o.1
          → Keeps c.name before (stop_unless system client c o).1
      ended (ok done, now) kept = kept
      ended (err e, now) kept =
          Keeps-trans c.name before now (stop_connection system c now).1 kept (
            Changes-Keeps c now (stop_connection system c now).1
              (stop_connection-Changes system c c refl now))

  pub start_verified-stored :
      (c : Connection) (verify : Links system → Steps system client (Unit {0}))
      (links final : Links system)
      → ((now : Links system) (name : Text) → (verify now).1.records name ≡ now.records name)
      → start_verified system client c verify links ≡ (ok tt, final)
      → (final.records c.name ≡ stored c) × (now : Links system) × (verify now ≡ (ok tt, final))
  start_verified-stored c verify links final verifies h =
      let (started, t, starts, h₁) = and_then-steps _ _ h in
      let verified = stop_unless-ok c (verify t) final h₁ in
      let (record_there, others) =
        start_connection-stored system c links t
          (lifted-ok (start_connection system c links) tt t starts) in
      (
        ap (λ (o : Steps system client (Unit {0})). o.1.records c.name) (sym verified)
            ∙ (verifies t c.name ∙ record_there),
        t,
        verified,
      )

  -- If a connection was started, what follows the start fails, and the stop that this calls for succeeds, then the
  -- whole is an error and no record of the connection's name is left.
  pub start_verified-stopped :
      (c : Connection) (verify : Links system → Steps system client (Unit {0}))
      (links started failing final : Links system) (e : AttachError)
      → start_connection system c links ≡ (ok tt, started)
      → verify started ≡ (err e, failing)
      → stop_connection system c failing ≡ (ok tt, final)
      → (start_verified system client c verify links ≡ (err e, final))
        × (final.records c.name ≡ absent)
  unfolding and_then with_context
  start_verified-stopped c verify links started failing final e starts fails stops =
      (rw (starts, fails, stops) refl, stop_connection-absent system c failing final stops)
