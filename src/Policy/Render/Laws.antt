-- ===== src/Policy/Render/Laws.antt =====
-- What the rendering relies on: the laws of toml and toml_edit, and the policy of a workspace in a normalised file.
use seter.Prelude.{
  ℕ, ◌≡◌, refl, Bool, true, false, Option, none, some, List, [], ◌∷◌, map, inl, inr, Bool-cases,
}
use seter.Prelude.Eq.{◌==◌, nat_eq, list_eq, option_eq}
use seter.Prelude.Text.{Text, text}
use seter.Prelude.Map.{Map, get}
use seter.Policy.{
  TcpGrant, tcp_eq, PrivateHttpGrant, private_eq, EgressPolicy, WorkspacePolicy, PolicyFile,
}
use seter.Policy.Normalize.{normalize_egress, normalize_workspace, normalize}
use seter.Policy.Grants.{egress_of, egress_or_default}
use seter.Policy.Render.{TomlEdit, find, find_in}

-- What toml and toml_edit document, for a standard table: a document means what its text means, a change of a key is
-- read back and changes no other key, and white space and comments mean nothing.
pub record TomlLaws (toml : TomlEdit) : Type 0 where
  pub read_item : toml.Item → EgressPolicy
  pub read_tcp : toml.Table → TcpGrant
  pub read_private : toml.Table → PrivateHttpGrant
  pub parsed :
      (t : Text) (d : toml.Document) (name : Text) (p : PolicyFile)
      → toml.parse t ≡ some d
      → toml.read_policy t ≡ some p
      → egress_of p name ≡ read_item (toml.egress_item d name)
  pub printed :
      (d : toml.Document) (name : Text) (p : PolicyFile)
      → toml.read_policy (toml.to_string d) ≡ some p
      → egress_of p name ≡ read_item (toml.egress_item d name)
  pub written :
      (d : toml.Document) (name : Text) (i : toml.Item)
      → toml.egress_item (toml.with_egress d name i) name ≡ i
  pub http_array :
      (i : toml.Item) (hosts : List Text)
      → toml.is_table i ≡ true
      → (toml.is_table (toml.set_array i (text "http-hosts") hosts) ≡ true)
        × (read_item (toml.set_array i (text "http-hosts") hosts)
            ≡ record (read_item i) { http_hosts = hosts })
  pub passthrough_array :
      (i : toml.Item) (hosts : List Text)
      → toml.is_table i ≡ true
      → (toml.is_table (toml.set_array i (text "passthrough-hosts") hosts) ≡ true)
        × (read_item (toml.set_array i (text "passthrough-hosts") hosts)
            ≡ record (read_item i) { passthrough_hosts = hosts })
  pub decorated :
      (i : toml.Item) (key : Text) (decor : toml.Decor)
      → toml.is_table i ≡ true
      → (toml.is_table (toml.set_decor i key decor) ≡ true)
        × (read_item (toml.set_decor i key decor) ≡ read_item i)
  pub tcp_tables :
      (i : toml.Item) (tables : List toml.Table)
      → toml.is_table i ≡ true
      → (toml.is_table (toml.set_tables i (text "tcp") tables) ≡ true)
        × (read_item (toml.set_tables i (text "tcp") tables)
            ≡ record (read_item i) { tcp = map read_tcp tables })
  pub private_tables :
      (i : toml.Item) (tables : List toml.Table)
      → toml.is_table i ≡ true
      → read_item (toml.set_tables i (text "private-http") tables)
        ≡ record (read_item i) { private_http = map read_private tables }
  pub private_removed :
      (i : toml.Item)
      → toml.is_table i ≡ true
      → read_item (toml.remove i (text "private-http")) ≡ record (read_item i) { private_http = [] }
  pub tcp_fields :
      (t : toml.Table) (host : Text) (port : ℕ)
      → toml.str_field t (text "host") ≡ some host
      → toml.integer_field t (text "port") ≡ some port
      → read_tcp t ≡ record { host = host; port = port }
  pub private_fields :
      (t : toml.Table) (host address : Text)
      → toml.str_field t (text "host") ≡ some host
      → toml.str_field t (text "address") ≡ some address
      → read_private t ≡ record { host = host; address = address }
  pub str_inserted :
      (t : toml.Table) (key value : Text)
      → toml.str_field (toml.insert_str t key value) key ≡ some value
  pub integer_inserted :
      (t : toml.Table) (key : Text) (n : ℕ)
      → toml.integer_field (toml.insert_integer t key n) key ≡ some n
  pub str_kept :
      (t : toml.Table) (key other value : Text)
      → (key == other) ≡ false
      → toml.str_field (toml.insert_str t other value) key ≡ toml.str_field t key
  pub str_beside :
      (t : toml.Table) (key other : Text) (n : ℕ)
      → (key == other) ≡ false
      → toml.str_field (toml.insert_integer t other n) key ≡ toml.str_field t key

get-normalize :
    (name : Text) (m : Map WorkspacePolicy)
    → egress_or_default (get name (map normalize_workspace m))
      ≡ normalize_egress (egress_or_default (get name m))
unfolding get normalize_egress
get-normalize name [] = refl
get-normalize name ((key, w) ∷ m) = elim (Bool-cases (key == name)) [
  | inl same ↦ rw same refl
  | inr other ↦ rw other (get-normalize name m)
]

-- The workspace's policy of a normalised file is its normalised policy.
pub egress_of-normalize :
    (name : Text) (p : PolicyFile)
    → egress_of (normalize p) name ≡ normalize_egress (egress_of p name)
unfolding normalize
egress_of-normalize name p = get-normalize name p.workspaces

find-satisfies : {A : Type 0} (p : A → Bool) (xs : List A) (a : A) → find p xs ≡ some a → p a ≡ true
find-satisfies p [] a h = cc
find-satisfies p (x ∷ xs) a h = elim (Bool-cases (p x)) [
  | inl hit ↦ let e : some x ≡ some a = rw hit at h in let same : x ≡ a = cc in rw (← same) hit
  | inr miss ↦ find-satisfies p xs a (rw miss at h)
]

pub find_in-satisfies :
    {A : Type 0} (p : A → Bool) (o : Option (List A)) (a : A) → find_in p o ≡ some a → p a ≡ true
find_in-satisfies p none a h = cc
find_in-satisfies p (some xs) a h = find-satisfies p xs a h
