-- ===== src/Policy/Render.antt =====
-- `policy::render_workspace_preserving`: the edit of the Policy File's text for one workspace. toml and
-- toml_edit are parameters: reading a text, the document of a text, and the item and tables of a
-- workspace's `egress`.
pub mod Laws
pub mod Tables
pub mod Meaning
use seter.Prelude.{
  ℕ, Bool, true, false, not, ◌&&◌, Option, none, some, List, [], ◌∷◌, is_empty, map, Result, ok,
  context, ◌>>=◌, if◌then◌else◌,
}
use seter.Prelude.Eq.{◌==◌, nat_eq, list_eq, option_eq}
use seter.Prelude.Text.{Text, text}
use seter.Prelude.Text.Ascii.{to_ascii_lowercase}
use seter.Policy.{TcpGrant, tcp_eq, PrivateHttpGrant, private_eq, EgressPolicy, PolicyFile}
use seter.Policy.Normalize.{normalize}
use seter.Policy.Grants.{egress_of}

-- `integer_field` gives an integer that is not negative; `egress_item` and `with_egress` are the two
-- directions of `&mut document["workspaces"][workspace]["egress"]`.
pub record TomlEdit : Type 1 where
  pub Document : Type 0
  pub Item : Type 0
  pub Table : Type 0
  pub Decor : Type 0
  pub read_policy : Text → Option PolicyFile
  pub parse : Text → Option Document
  pub to_string : Document → Text
  pub egress_tables : Document → Text → Text → Option (List Table)
  pub egress_item : Document → Text → Item
  pub with_egress : Document → Text → Item → Document
  pub is_table : Item → Bool
  pub array_decor : Item → Text → Option Decor
  pub set_array : Item → Text → List Text → Item
  pub set_decor : Item → Text → Decor → Item
  pub set_tables : Item → Text → List Table → Item
  pub remove : Item → Text → Item
  pub str_field : Table → Text → Option Text
  pub integer_field : Table → Text → Option ℕ
  pub new_table : Table
  pub insert_str : Table → Text → Text → Table
  pub insert_integer : Table → Text → ℕ → Table

pub data RenderError : Type 0 where
  cannot_parse cannot_preserve : RenderError

-- `iter().find(p)`
abbrev pub find : {A : Type 0} → (A → Bool) → List A → Option A
find p [] = none
find p (x ∷ xs) = let later = find p xs in if p x then some x else later

abbrev pub find_in : {A : Type 0} → (A → Bool) → Option (List A) → Option A
find_in p none = none
find_in p (some xs) = find p xs

module _ (toml : TomlEdit) where
  open toml use {
    Document, Item, Table, Decor, read_policy, parse, to_string, egress_tables, egress_item,
    with_egress, is_table, array_decor, set_array, set_decor, set_tables, remove, str_field,
    integer_field, new_table, insert_str, insert_integer,
  }

  abbrev pub redecorate : Text → Option Decor → Item → Item
  redecorate key none egress = egress
  redecorate key (some decor) egress = set_decor egress key decor

  unfoldable pub replace_string_array_preserving_decor : Item → Text → List Text → Item
  replace_string_array_preserving_decor egress key values =
      redecorate key (array_decor egress key) (set_array egress key values)

  abbrev pub same_tcp : TcpGrant → Table → Bool
  same_tcp grant table =
      str_field table (text "host") == some grant.host
      && integer_field table (text "port") == some grant.port

  abbrev pub tcp_table_or : TcpGrant → Option Table → Table
  tcp_table_or grant (some table) = table
  tcp_table_or grant none =
      insert_integer (insert_str new_table (text "host") grant.host) (text "port") grant.port

  -- The table of a direct-TCP grant: the one that the file has, or a new one.
  abbrev pub tcp_table : Option (List Table) → TcpGrant → Table
  tcp_table original grant = tcp_table_or grant (find_in (same_tcp grant) original)

  abbrev pub lowered : Option Text → Option Text
  lowered none = none
  lowered (some host) = some (to_ascii_lowercase host)

  abbrev pub same_private : PrivateHttpGrant → Table → Bool
  same_private grant table =
      lowered (str_field table (text "host")) == some grant.host
      && str_field table (text "address") == some grant.address

  abbrev pub private_table_or : PrivateHttpGrant → Option Table → Table
  private_table_or grant (some table) = table
  private_table_or grant none =
      insert_str (insert_str new_table (text "host") grant.host) (text "address") grant.address

  abbrev pub private_table : Option (List Table) → PrivateHttpGrant → Table
  private_table original grant = private_table_or grant (find_in (same_private grant) original)

  -- `if let Some(egress) = egress.as_table_mut() { egress.remove("private-http"); }`
  abbrev pub set_private : Option (List Table) → List PrivateHttpGrant → Item → Item
  set_private original [] egress =
      if is_table egress then remove egress (text "private-http") else egress
  set_private original (g ∷ gs) egress =
      set_tables egress (text "private-http") (map (private_table original) (g ∷ gs))

  -- The four replacements, each behind its comparison; `before` is the workspace's normalised policy.
  unfoldable pub replace_http : EgressPolicy → EgressPolicy → Item → Item
  replace_http before policy egress =
      if before.http_hosts == policy.http_hosts
      then egress
      else replace_string_array_preserving_decor egress (text "http-hosts") policy.http_hosts

  unfoldable pub replace_passthrough : EgressPolicy → EgressPolicy → Item → Item
  replace_passthrough before policy egress =
      if before.passthrough_hosts == policy.passthrough_hosts
      then egress
      else replace_string_array_preserving_decor egress (text "passthrough-hosts")
          policy.passthrough_hosts

  unfoldable pub replace_tcp : Option (List Table) → EgressPolicy → EgressPolicy → Item → Item
  replace_tcp original before policy egress =
      if before.tcp == policy.tcp
      then egress
      else set_tables egress (text "tcp") (map (tcp_table original) policy.tcp)

  unfoldable pub replace_private : Option (List Table) → EgressPolicy → EgressPolicy → Item → Item
  replace_private original before policy egress =
      if before.private_http == policy.private_http
      then egress
      else set_private original policy.private_http egress

  unfoldable pub edit_egress : Document → Text → EgressPolicy → EgressPolicy → Item
  edit_egress document name before policy =
      replace_private (egress_tables document name (text "private-http")) before policy (
        replace_tcp (egress_tables document name (text "tcp")) before policy (
          replace_passthrough before policy
            (replace_http before policy (egress_item document name))))

  unfoldable pub render_workspace_preserving : Text → Text → EgressPolicy → Result RenderError Text
  render_workspace_preserving original name policy = do
    parsed ← context cannot_parse (read_policy original)
    document ← context cannot_preserve (parse original)
    ok (
        to_string (
          with_egress document name
            (edit_egress document name (egress_of (normalize parsed) name) policy)))
