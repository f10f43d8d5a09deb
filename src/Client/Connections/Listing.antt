-- ===== src/Client/Connections/Listing.antt =====
-- `connections` and `forward_list` of client/connections.rs. The entries of the state directory are the stems of its
-- `.json` files, absent where they are not UTF-8; the directory itself may be absent.
use seter.Prelude.{
  ◌≡◌, ap, ◌∙◌, Bool, Option, none, some, List, [], ◌∷◌, ◌++◌, All, All-append, All-of, Result, ok,
  bind-eq-ok, context, ◌>>=◌, ok_inj, and_then, try_fold, if◌then◌else◌,
}
use seter.Prelude.Loops.{try_fold-kept}
use seter.Prelude.Text.{Text, text, starts_with}
use seter.Prelude.Map.{text_cmp}
use seter.Prelude.Order.{sort}
use seter.Prelude.Order.Sorting.{sort-All}
use seter.Client.Connections.{
  Connection, ConnectionError, invalid_filename, stored, System, Links, Outcome, connection,
  connection_alive,
}
use seter.Client.Connections.Named.{stored_connection}

module _ (system : System) where
  abbrev pushed : List Connection → Option Connection → List Connection
  pushed result none = result
  pushed result (some c) = result ++ c ∷ []

  unfoldable pub push_entry :
      Links system → List Connection → Option Text → Result ConnectionError (List Connection)
  push_entry links result stem = do
    name ← context invalid_filename stem
    found ← connection system name links
    ok (pushed result found)

  abbrev listed :
      Option (List (Option Text)) → Links system → Result ConnectionError (List Connection)
  listed none links = ok []
  listed (some entries) links = do
    result ← try_fold (push_entry links) [] entries
    ok (sort (λ c d. text_cmp c.name d.name) result)

  unfoldable pub connections :
      Option (List (Option Text)) → Links system → Result ConnectionError (List Connection)
  connections entries links = listed entries links

  -- The lines that are printed, as the forwards and whether they are alive.
  unfoldable pub list_forwards :
      List Connection → Links system → Outcome system (List (Text × Bool))
  list_forwards [] links = (ok [], links)
  list_forwards (c ∷ cs) links =
      if starts_with (text "forward-") c.name
      then and_then (connection_alive system c links) (λ alive links₁.
        and_then (list_forwards cs links₁)
          (λ rest links₂. (ok ((c.forward, alive) ∷ rest), links₂)))
      else list_forwards cs links

  unfoldable pub forward_list :
      Option (List (Option Text)) → Links system → Outcome system (List (Text × Bool))
  forward_list entries links =
      and_then (connections entries links, links) λ found links₁. list_forwards found links₁

  pushed-All :
      (links : Links system) (name : Text) (s : List Connection) (o : Option Connection)
      → connection system name links ≡ ok o
      → All (λ c. links.records c.name ≡ stored c) s
      → All (λ c. links.records c.name ≡ stored c) (pushed s o)
  unfolding connection
  pushed-All links name s none read now = now
  pushed-All links name s (some c) read now =
      let (record_there, same) = stored_connection system name (links.records name) c read in
      All-append _ s (c ∷ []) now (ap links.records same ∙ record_there, tt)

  push_entry-All :
      (links : Links system) (s : List Connection) (stem : Option Text) (s' : List Connection)
      → Unit {0}
      → All (λ c. links.records c.name ≡ stored c) s
      → push_entry links s stem ≡ ok s'
      → All (λ c. links.records c.name ≡ stored c) s'
  unfolding push_entry
  push_entry-All links s stem s' known now h =
      let (name, named, h₁) = bind-eq-ok _ _ h in
      let (o, read, e) = bind-eq-ok _ _ h₁ in rw (← ok_inj e) (pushed-All links name s o read now)

  -- Each connection that is listed is the record of its name.
  pub connections-All :
      (entries : Option (List (Option Text))) (links : Links system) (found : List Connection)
      → connections entries links ≡ ok found
      → All (λ c. links.records c.name ≡ stored c) found
  unfolding connections
  connections-All none links found h = rw (← ok_inj h) tt
  connections-All (some entries) links found h =
      let (result, looped, e) = bind-eq-ok _ _ h in
      let held =
        try_fold-kept (push_entry links) (All (λ c. links.records c.name ≡ stored c))
          (λ stem. Unit {0}) (push_entry-All links) [] entries
          (All-of (λ stem. Unit {0}) entries (λ a m. tt)) tt looped in
      rw (← ok_inj e) (sort-All _ _ result held)
