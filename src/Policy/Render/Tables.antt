-- ===== src/Policy/Render/Tables.antt =====
-- The tables of the rendering read as the grants that they are for.
use seter.Prelude.{
  ◌≡◌, refl, ap, ◌∙◌, All, Option, none, some, List, [], ◌∷◌, map, inl, inr, Option-cases, and_true,
}
use seter.Prelude.Eq.{nat_eq, list_eq, option_eq, option_beq_iff}
use seter.Prelude.Text.{Text, text}
use seter.Prelude.Text.Ascii.{to_ascii_lowercase}
use seter.Policy.{TcpGrant, tcp_eq, PrivateHttpGrant, private_eq}
use seter.Policy.Normalize.{lower_private}
use seter.Policy.Render.{
  TomlEdit, find_in, same_tcp, tcp_table, lowered, same_private, private_table,
}
use seter.Policy.Render.Laws.{TomlLaws, find_in-satisfies}

pub map-read :
    {A B : Type 0} (f : A → B) (g : B → A)
    → ((a : A) → g (f a) ≡ a)
    → (xs : List A) → map g (map f xs) ≡ xs
map-read f g reads [] = refl
map-read f g reads (x ∷ xs) = cc (reads x, map-read f g reads xs)

module _ (toml : TomlEdit) (laws : TomlLaws toml) where
  open toml use {Table}
  open laws use {read_tcp, read_private}

  -- The table of a grant reads as the grant, with the host in lower case.
  pub tcp_table-read : (o : Option (List Table)) (g : TcpGrant) → read_tcp (tcp_table toml o g) ≡ g
  tcp_table-read o g = elim (Option-cases (find_in (same_tcp toml g) o)) [
    | inl missing ↦ rw missing (
        laws.tcp_fields _ g.host g.port
          (laws.str_beside _ (text "host") (text "port") g.port refl
            ∙ laws.str_inserted _ (text "host") g.host)
          (laws.integer_inserted _ (text "port") g.port))
    | inr (table, found) ↦
        let (host, port) = and_true _ _ (find_in-satisfies (same_tcp toml g) o table found) in
        rw found (
          laws.tcp_fields table g.host g.port
            ((option_beq_iff (toml.str_field table (text "host")) (some g.host)).0 host)
            ((option_beq_iff (toml.integer_field table (text "port")) (some g.port)).0 port))
  ]

  lowered-some :
      (o : Option Text) (host : Text)
      → lowered toml o ≡ some host
      → (h : Text) × (o ≡ some h) × (to_ascii_lowercase h ≡ host)
  lowered-some none host e = cc
  lowered-some (some h) host e = (h, refl, cc)

  private_table-read :
      (o : Option (List Table)) (g : PrivateHttpGrant)
      → lower_private g ≡ g
      → lower_private (read_private (private_table toml o g)) ≡ g
  private_table-read o g low = elim (Option-cases (find_in (same_private toml g) o)) [
    | inl missing ↦ rw missing (
        ap lower_private (
          laws.private_fields _ g.host g.address
            (laws.str_kept _ (text "host") (text "address") g.address refl
              ∙ laws.str_inserted _ (text "host") g.host)
            (laws.str_inserted _ (text "address") g.address))
        ∙ low)
    | inr (table, found) ↦
        let (host, address) =
          and_true _ _ (find_in-satisfies (same_private toml g) o table found) in
        let (h, named, lowers) = lowered-some (toml.str_field table (text "host")) g.host (
          (option_beq_iff (lowered toml (toml.str_field table (text "host"))) (some g.host)).0
            host) in
        let reads =
          laws.private_fields table h g.address named
            ((option_beq_iff (toml.str_field table (text "address")) (some g.address)).0 address) in
        rw found (ap lower_private reads ∙ cc lowers)
  ]

  pub map-lower :
      (o : Option (List Table)) (gs : List PrivateHttpGrant)
      → All (λ g. lower_private g ≡ g) gs
      → map lower_private (map read_private (map (private_table toml o) gs)) ≡ gs
  map-lower o [] low = refl
  map-lower o (g ∷ gs) (l, low) = cc (private_table-read o g l, map-lower o gs low)
