-- ===== src/Tests/Renderings.antt =====
-- A rendering of a Policy File over a small document with one workspace and its `egress`, and a review that
-- writes it to a disk on which each call succeeds.
use seter.Prelude.{
  ℕ, ◌≡◌, is_empty, refl, inl, inr, true, false, Option, none, some, List, [], ◌∷◌, ◌&&◌, map, ok,
  err, ensure, with_context, for_each, try_fold, and_then, context, ◌>>=◌, if◌then◌else◌,
  Bool-cases, and_true, sym, ap, ◌∙◌,
}
use seter.Prelude.Eq.{◌==◌, ==_refl, nat_eq, list_eq, list_beq_iff}
use seter.Prelude.Text.{Text, text}
use seter.Prelude.Text.Ascii.{lower}
use seter.Prelude.Text.Decimal.{decimal, parse_unsigned, parse_digits, value_from}
use seter.Prelude.Ipv4.{parse_ipv4, to_string, to_u32}
use seter.Prelude.Map.{get, insert, contains_key}
use seter.HostPatterns.{
  validate_exact_host, validate_host_pattern, valid_label, wildcard_suffix_forbidden,
  pattern_matches, patterns_overlap,
}
use seter.Registry.Select.{workspace}
use seter.Registry.Url.{host}
use seter.Registry.Validate.{insert_unique}
use seter.Policy.Address.{address_in_network, private_upstream_address, prefix_mask}
use seter.Policy.Validate.{
  validate, validate_entry, validate_against_host, validate_egress, validate_patterns,
  validate_pattern, validate_tcp, validate_private, load,
}
use seter.Policy.Grants.{grants, remove_grant, tcp_text, private_text, grant_texts, egress_of}
use seter.Policy.Review.{
  prompt, http_hosts_of, dns_hosts_of, tcp_of, push_http, push_passthrough, push_tcp, ask_port,
  classify, ask_http, review_http, ask_dns, review_dns, ask_tcp, review_tcp, review_existing,
  review_egress, review,
}
use seter.Audit.{AuditGroup}
use seter.Tests.Registries.{registry}
use seter.Policy.Replace.{
  no_directory, create_new, write_all, set_permissions, rename, fill, discard, Files, Disk,
  atomic_write,
}
use seter.Policy.Replace.Atomic.{IsAtomic, atomic_write-IsAtomic}
use seter.Policy.Review.Writing.{
  updated, lock, read_file, render_proposed, choose, Setting, review_file,
}
use seter.Policy.Review.Safe.{IsSafe, review_file-IsSafe}
use seter.Policy.{
  TcpGrant, PrivateHttpGrant, EgressPolicy, PolicyFile, egress_eq, egress_beq_iff, no_egress,
}
use seter.Policy.Normalize.{normalize_egress, normalize}
use seter.Policy.Render.{
  TomlEdit, replace_string_array_preserving_decor, replace_http, replace_passthrough, replace_tcp,
  replace_private, edit_egress, render_workspace_preserving,
}
use seter.Policy.Render.Laws.{TomlLaws}
use seter.Policy.Render.Meaning.{render-IsReadAs}

data Value : Type 0 where
  string : Text → Value
  integer : ℕ → Value

abbrev Fields : Type 0
Fields = List (Text × Value)

abbrev lookup : Text → Fields → Option Value
lookup key [] = none
lookup key ((k, v) ∷ fields) = if key == k then some v else lookup key fields

abbrev as_str : Option Value → Option Text
as_str none = none
as_str (some (string s)) = some s
as_str (some (integer n)) = none

abbrev as_integer : Option Value → Option ℕ
as_integer none = none
as_integer (some (string s)) = none
as_integer (some (integer n)) = some n

abbrev text_or_empty : Option Text → Text
text_or_empty none = []
text_or_empty (some s) = s

abbrev number_or_zero : Option ℕ → ℕ
number_or_zero none = 0
number_or_zero (some n) = n

abbrev fields_tcp : Fields → TcpGrant
fields_tcp t = record {
  host = text_or_empty (as_str (lookup (text "host") t));
  port = number_or_zero (as_integer (lookup (text "port") t));
}

abbrev fields_private : Fields → PrivateHttpGrant
fields_private t = record {
  host = text_or_empty (as_str (lookup (text "host") t));
  address = text_or_empty (as_str (lookup (text "address") t));
}

abbrev deploy : TcpGrant
deploy = record { host = text "deploy.example.com"; port = 2222 }

abbrev before_review : EgressPolicy
before_review = record {
  http_hosts = text "Old.example.com" ∷ [];
  passthrough_hosts = [];
  tcp = deploy ∷ [];
  private_http = record { host = text "nas.example.com"; address = text "10.0.0.2" } ∷ [];
}

abbrev after_review : EgressPolicy
after_review = record {
  http_hosts = text "new.example.com" ∷ [];
  passthrough_hosts = [];
  tcp = deploy ∷ record { host = text "git.example.com"; port = 22 } ∷ [];
  private_http = [];
}

abbrev file_of : EgressPolicy → PolicyFile
file_of p = record { version = 1; workspaces = (text "minimal", record { egress = p }) ∷ [] }

abbrev read_text : Text → Option PolicyFile
read_text t =
    if t == text "before"
    then some (file_of before_review)
    else if t == text "after"
    then some (file_of after_review)
    else none

abbrev parse_text : Text → Option (Text × EgressPolicy)
parse_text t = if t == text "before" then some (text "minimal", before_review) else none

abbrev print_document : Text × EgressPolicy → Text
print_document (name, p) =
    if name == text "minimal" && p == after_review then text "after" else text "other"

abbrev item_of : Text × EgressPolicy → Text → EgressPolicy
item_of (key, p) name = if key == name then p else no_egress

abbrev toml : TomlEdit
toml = record {
  Document = Text × EgressPolicy;
  Item = EgressPolicy;
  Table = Fields;
  Decor = Text;
  read_policy = read_text;
  parse = parse_text;
  to_string = print_document;
  egress_tables = λ d name key.
      some (
        ((text "host", string (text "deploy.example.com")) ∷ (text "port", integer 2222) ∷ [])
        ∷ []);
  egress_item = item_of;
  with_egress = λ d name p. (name, p);
  is_table = λ p. true;
  array_decor = λ p key. some (text " # reviewed manually");
  set_array = λ p key hosts.
      if key == text "http-hosts"
      then record p { http_hosts = hosts }
      else record p { passthrough_hosts = hosts };
  set_decor = λ p key decor. p;
  set_tables = λ p key tables.
      if key == text "tcp"
      then record p { tcp = map fields_tcp tables }
      else record p { private_http = map fields_private tables };
  remove = λ p key. record p { private_http = [] };
  str_field = λ t key. as_str (lookup key t);
  integer_field = λ t key. as_integer (lookup key t);
  new_table = [];
  insert_str = λ t key s. (key, string s) ∷ t;
  insert_integer = λ t key n. (key, integer n) ∷ t;
}

item-file :
    (name : Text) (p : EgressPolicy) → egress_of (file_of p) name ≡ item_of (text "minimal", p) name
unfolding get
item-file name p = elim (Bool-cases (text "minimal" == name)) [
  | inl same ↦ rw same refl
  | inr other ↦ rw other refl
]

text-parsed :
    (t : Text) (d : Text × EgressPolicy) (name : Text) (p : PolicyFile)
    → parse_text t ≡ some d
    → read_text t ≡ some p
    → egress_of p name ≡ item_of d name
text-parsed t d name p parses reads = elim (Bool-cases (t == text "before")) [
  | inl first ↦
      let e : some (text "minimal", before_review) ≡ some d = rw first at parses in
      let same : (text "minimal", before_review) ≡ d = cc in
      let f : some (file_of before_review) ≡ some p = rw first at reads in
      let file : file_of before_review ≡ p = cc in
      ap (λ q. egress_of q name) (sym file)
      ∙ (item-file name before_review ∙ ap (λ x. item_of x name) same)
  | inr none_of ↦
      let e : ◌≡◌ {A = Option (Text × EgressPolicy)} none (some d) = rw none_of at parses in cc
]

document-printed :
    (d : Text × EgressPolicy) (name : Text) (p : PolicyFile)
    → read_text (print_document d) ≡ some p
    → egress_of p name ≡ item_of d name
document-printed (key, q) name p reads =
    elim (Bool-cases (key == text "minimal" && q == after_review)) [
      | inl known ↦
          let (named, same) = and_true _ _ known in
          let key_eq = (list_beq_iff key (text "minimal")).0 named in
          let q_eq = (egress_beq_iff q after_review).0 same in
          let f : some (file_of after_review) ≡ some p = rw known at reads in
          let file : file_of after_review ≡ p = cc in
          ap (λ x. egress_of x name) (sym file)
          ∙ (item-file name after_review ∙ rw (key_eq, q_eq) refl)
      | inr other ↦ let f : ◌≡◌ {A = Option PolicyFile} none (some p) = rw other at reads in cc
    ]

abbrev toml_laws : TomlLaws toml
toml_laws = record {
  read_item = λ p. p;
  read_tcp = fields_tcp;
  read_private = fields_private;
  parsed = text-parsed;
  printed = document-printed;
  written = λ d name p. rw (==_refl name) refl;
  http_array = λ p hosts standard. (refl, refl);
  passthrough_array = λ p hosts standard. (refl, refl);
  decorated = λ p key decor standard. (refl, refl);
  tcp_tables = λ p tables standard. (refl, refl);
  private_tables = λ p tables standard. refl;
  private_removed = λ p standard. refl;
  tcp_fields = λ t host port named numbered. rw (named, numbered) refl;
  private_fields = λ t host address named placed. rw (named, placed) refl;
  str_inserted = λ t key s. rw (==_refl key) refl;
  integer_inserted = λ t key n. rw (==_refl key) refl;
  str_kept = λ t key other s apart. rw apart refl;
  str_beside = λ t key other n apart. rw apart refl;
}

run_rendering : Unit {0}
unfolding context ◌>>=◌ lower get normalize normalize_egress replace_string_array_preserving_decor
    replace_http replace_passthrough replace_tcp replace_private edit_egress
    render_workspace_preserving
run_rendering = tt

rendered :
    render_workspace_preserving toml (text "before") (text "minimal") after_review
    ≡ ok (text "after")
unfolding run_rendering
rendered = refl

normal : normalize_egress after_review ≡ after_review
unfolding run_rendering
normal = refl

render-IsReadAs_example :
    egress_of (normalize (file_of after_review)) (text "minimal") ≡ after_review
render-IsReadAs_example =
    render-IsReadAs toml toml_laws after_review normal (text "before") (text "minimal")
      (text "minimal", before_review) (text "after") (file_of after_review) refl refl rendered refl

abbrev denied : Text → Option Text → Text → Option ℕ → AuditGroup
denied boundary method host port = record {
  boundary = boundary;
  decision = text "deny";
  destination = some host;
  port = port;
  protocol = none;
  method = method;
  reason = text "not granted";
  path = none;
  count = 1;
  last_timestamp_micros = 5;
}

abbrev policy_file : Text
policy_file = text "/srv/policy.toml"

-- A disk on which every call succeeds.
abbrev disk : Disk
disk = record {
  parent = λ path. some (if path == policy_file then text "/srv" else []);
  file_name = λ path. some (if path == policy_file then text "policy.toml" else path);
  pid = 7;
  masked = λ mode. mode;
  cannot_stat = λ path. false;
  cannot_create = λ path. false;
  write_stops = none;
  cannot_sync = λ path. false;
  cannot_set_mode = λ path. false;
  cannot_rename = λ path. false;
  cannot_open_directory = λ path. is_empty path;
  cannot_remove = λ path. false;
}

abbrev setting : Setting
setting = record {
  toml = toml;
  disk = disk;
  rules = [];
  registry = ok registry;
  cannot_open = λ path. false;
  is_locked = λ path. false;
  cannot_read = λ path. false;
  observations = ok (
      denied (text "http") (some (text "GET")) (text "new.example.com") none
      ∷ denied (text "direct-tcp") none (text "git.example.com") (some 22)
      ∷ []);
}

abbrev answers : List (Option Text)
answers =
    some (text "y\n")
    ∷ some (text "Y\n")
    ∷ some (text "y\n")
    ∷ some (text "y\n")
    ∷ some (text "n\n")
    ∷ some (text "y\n")
    ∷ []

abbrev files : Files
files = λ path.
    if path == policy_file then some record { contents = text "before"; mode = 420 } else none

review_file-IsSafe_example :
    IsSafe setting
      (text "minimal")
      policy_file
      answers
      files
      (review_file setting (text "minimal") policy_file answers files)
review_file-IsSafe_example =
    review_file-IsSafe setting (text "minimal") policy_file answers files (text "policy.toml") refl
      (cc)

atomic_write-IsAtomic_example :
    IsAtomic disk
      (text "/srv/.policy.toml.seter-7.tmp")
      policy_file
      (text "after")
      files
      (atomic_write disk policy_file (text "after") files)
unfolding decimal
atomic_write-IsAtomic_example =
    atomic_write-IsAtomic disk policy_file (text "after") (text "policy.toml") files refl (cc)

run_review_file : Unit {0}
unfolding run_rendering ensure with_context for_each try_fold decimal parse_unsigned parse_digits
    value_from parse_ipv4 to_string to_u32 insert contains_key validate_exact_host
    validate_host_pattern valid_label wildcard_suffix_forbidden pattern_matches patterns_overlap
    workspace host insert_unique address_in_network private_upstream_address prefix_mask validate
    validate_entry validate_against_host validate_egress validate_patterns validate_pattern
    validate_tcp validate_private load grants remove_grant tcp_text private_text grant_texts prompt
    http_hosts_of dns_hosts_of tcp_of push_http push_passthrough push_tcp ask_port classify ask_http
    review_http ask_dns review_dns ask_tcp review_tcp review_existing review_egress review and_then
    lock read_file render_proposed choose review_file create_new write_all set_permissions rename
    fill discard atomic_write
run_review_file = tt

-- The review adds two grants, takes two away and writes the file.
reviewed_ending : (review_file setting (text "minimal") policy_file answers files).0 ≡ ok updated
unfolding run_review_file
reviewed_ending = refl

reviewed_file :
    (review_file setting (text "minimal") policy_file answers files).1 policy_file
    ≡ some record { contents = text "after"; mode = 420 }
unfolding run_review_file
reviewed_file = refl

abbrev bare_files : Files
bare_files = λ path.
    if path == text "policy.toml"
    then some record { contents = text "before"; mode = 420 }
    else none

-- A path without a directory has the empty parent, which cannot be opened: the file is replaced and an error is
-- reported.
bare_ending :
    (atomic_write disk (text "policy.toml") (text "after") bare_files).0 ≡ err no_directory
unfolding run_review_file
bare_ending = refl

bare_file :
    (atomic_write disk (text "policy.toml") (text "after") bare_files).1 (text "policy.toml")
    ≡ some record { contents = text "after"; mode = 420 }
unfolding run_review_file
bare_file = refl
