-- ===== src/Audit/Records.antt =====
-- `parse_kernel_record` and `parse_journal_record`: from an entry of the journal to an observation.
use seter.Prelude.{
  ℕ, Bool, true, false, not, ◌&&◌, ◌||◌, Option, none, some, List, [], ◌∷◌, ◌++◌, Result, ok,
  context, is_empty, ◌>>=◌, if◌then◌else◌, ltb, eqb,
}
use seter.Prelude.Eq.{◌==◌, nat_eq, list_eq, option_eq}
use seter.Prelude.Text.{Text, text, strip_prefix, starts_with}
use seter.Prelude.Text.Decimal.{parse_unsigned}
use seter.Prelude.Text.Split.{split_once}
use seter.Audit.{AuditRecord}

-- A field of a JSON object, as far as the program looks at it: `as_str` and `as_u64`.
pub data Json : Type 0 where
  string : Text → Json
  natural : ℕ → Json
  other_value : Json

-- A parsed object: what each field holds.
abbrev pub Value : Type 0
Value = Text → Option Json

abbrev pub as_str : Option Json → Option Text
as_str none = none
as_str (some (string s)) = some s
as_str (some (natural n)) = none
as_str (some other_value) = none

abbrev pub as_u64 : Option Json → Option ℕ
as_u64 none = none
as_u64 (some (string s)) = none
as_u64 (some (natural n)) = some n
as_u64 (some other_value) = none

abbrev pub or_text : Text → Option Text → Text
or_text default none = default
or_text default (some t) = t

abbrev pub u64_or_zero : Option Text → ℕ
u64_or_zero none = 0
u64_or_zero (some t) = elim (parse_unsigned 18446744073709551616 t) [ none ↦ 0 | some n ↦ n ]

abbrev pub timestamp_of : Value → ℕ
timestamp_of journal = u64_or_zero (as_str (journal (text "__REALTIME_TIMESTAMP")))

-- `split_once` at a text: what follows its first occurrence.
unfoldable pub after_text : Text → Text → Option Text
after_text separator [] = strip_prefix separator []
after_text separator (c ∷ s) =
    let later = after_text separator s in
    elim (strip_prefix separator (c ∷ s)) [ none ↦ later | some rest ↦ some rest ]

abbrev pub is_ascii_whitespace : ℕ → Bool
is_ascii_whitespace c = eqb c 32 || eqb c 9 || eqb c 10 || eqb c 12 || eqb c 13

abbrev pub push_word : Text → List Text → List Text
push_word [] words = words
push_word (c ∷ w) words = (c ∷ w) ∷ words

-- `split_ascii_whitespace`; the pair is the word that is being read and the words behind it.
abbrev pub split_from : Text → Text × List Text
split_from [] = ([], [])
split_from (c ∷ s) =
    let (current, words) = split_from s in
    if is_ascii_whitespace c then ([], push_word current words) else (c ∷ current, words)

abbrev pub split_ascii_whitespace : Text → List Text
split_ascii_whitespace s = let (current, words) = split_from s in push_word current words

abbrev pub or_later : Bool → Text → Option Text → Option Text
or_later same value (some later) = some later
or_later true value none = some value
or_later false value none = none

abbrev pub field_in : Text → Option (Text × Text) → Option Text → Option Text
field_in key none later = later
field_in key (some (k, value)) later = or_later (k == key) value later

-- `fields.get(key)` in the map of the `key=value` words: the last one counts.
unfoldable pub field : Text → List Text → Option Text
field key [] = none
field key (word ∷ words) = field_in key (split_once b'=' word) (field key words)

abbrev pub parse_port : Option Text → Option ℕ
parse_port none = none
parse_port (some value) = parse_unsigned 65536 value

abbrev pub kernel_decision : Text → Option Text
kernel_decision rest =
    if starts_with (text "allow ") rest
    then some (text "allow")
    else if starts_with (text "deny ") rest
    then some (text "deny")
    else none

abbrev pub kernel_record : ℕ → Text → Option Text → Option AuditRecord
kernel_record timestamp rest none = none
kernel_record timestamp rest (some decision) = some record {
  timestamp_micros = timestamp;
  boundary = text "direct-tcp";
  decision = decision;
  destination = field (text "DST") (split_ascii_whitespace rest);
  port = parse_port (field (text "DPT") (split_ascii_whitespace rest));
  protocol = some (text "tcp");
  method = none;
  reason =
      if decision == text "allow"
      then text "exact host address and port are active"
      else text "destination is not in the active direct-TCP policy";
  path = none;
}

abbrev pub kernel_message : ℕ → Option Text → Option AuditRecord
kernel_message timestamp none = none
kernel_message timestamp (some rest) = kernel_record timestamp rest (kernel_decision rest)

abbrev pub after_in : Text → Option Text → Option Text
after_in separator none = none
after_in separator (some message) = after_text separator message

pub data JournalError : Type 0 where
  invalid_json : JournalError

-- `parse_kernel_record`, for the text of the workspace's address.
unfoldable pub parse_kernel_record : Option Value → Text → Result JournalError (Option AuditRecord)
parse_kernel_record parsed address = do
  journal ← context invalid_json parsed
  ok (
      kernel_message (timestamp_of journal)
        (after_in (text "seter-tcp " ++ (address ++ text " ")) (as_str (journal (text "MESSAGE")))))

abbrev pub first_of : {A : Type 0} → Option A → Option A → Option A
first_of none other = other
first_of (some a) other = some a

abbrev pub tagged : Text → Option Text → Option (Text × Text)
tagged boundary none = none
tagged boundary (some raw) = some (boundary, raw)

abbrev pub effective_boundary : Text → Option Text → Text
effective_boundary boundary protocol =
    if protocol == some (text "tls-passthrough")
    then text "tls-passthrough"
    else if protocol == some (text "tls")
    then text "tls"
    else if boundary == text "dns"
    then text "dns"
    else text "http"

abbrev pub not_empty : Option Text → Option Text
not_empty none = none
not_empty (some t) = if is_empty t then none else some t

abbrev pub is_u16 : Option ℕ → Option ℕ
is_u16 none = none
is_u16 (some n) = if ltb n 65536 then some n else none

abbrev pub record_of : ℕ → Text → Value → AuditRecord
record_of timestamp boundary value = record {
  timestamp_micros = timestamp;
  boundary = effective_boundary boundary (as_str (value (text "protocol")));
  decision = or_text (text "unknown") (as_str (value (text "decision")));
  destination = not_empty (as_str (first_of (value (text "host")) (value (text "name"))));
  port = is_u16 (as_u64 (value (text "port")));
  protocol = as_str (value (text "protocol"));
  method = as_str (value (text "method"));
  reason = or_text (text "unspecified policy decision") (as_str (value (text "reason")));
  path = as_str (value (text "path"));
}

abbrev pub has_field : Option Json → Bool
has_field none = false
has_field (some value) = true

abbrev pub journal_record : ℕ → Text → Text → Option Value → Option AuditRecord
journal_record timestamp workspace boundary none = none
journal_record timestamp workspace boundary (some value) =
    if as_str (value (text "workspace")) == some workspace && not (has_field (value (text "event")))
    then some (record_of timestamp boundary value)
    else none

-- `parse` is serde_json's reader of the text behind the marker.
abbrev pub journal_message :
    (Text → Option Value) → ℕ → Text → Option (Text × Text) → Option AuditRecord
journal_message parse timestamp workspace none = none
journal_message parse timestamp workspace (some (boundary, raw)) =
    journal_record timestamp workspace boundary (parse raw)

unfoldable pub parse_journal_record :
    (Text → Option Value) → Option Value → Text → Result JournalError (Option AuditRecord)
parse_journal_record parse parsed workspace = do
  journal ← context invalid_json parsed
  let message = as_str (journal (text "MESSAGE"))
  ok (
      journal_message parse (timestamp_of journal) workspace (
        first_of (tagged (text "dns") (after_in (text "seter-dns-audit ") message))
          (tagged (text "proxy") (after_in (text "seter-audit ") message))))
