-- ===== src/Audit.antt =====
-- Policy Observations (crates/seter-cli/src/audit.rs). Reading JSON is the work of serde_json: a
-- parsed object enters as the function `Value` from a field to what is there, and the reader of an
-- embedded text is a parameter.
pub mod Grouping
pub mod Records
pub mod Scope
use seter.Prelude.{
  ℕ, Bool, true, false, not, ◌&&◌, ◌||◌, Option, none, some, List, [], ◌∷◌, ◌++◌, Result, ok, err,
  ensure, context, ◌>>=◌, ◌>>◌, try_fold, if◌then◌else◌, ltb, leb, length, ◌+◌, ◌*◌, eqb,
}
use seter.Prelude.Eq.{Eq, ◌==◌, nat_eq, list_eq, option_eq}
use seter.Prelude.Text.{Text, text, strip_suffix}
use seter.Prelude.Text.Decimal.{parse_unsigned}

pub record AuditRecord : Type 0 where
  pub timestamp_micros : ℕ
  pub boundary : Text
  pub decision : Text
  pub destination : Option Text
  pub port : Option ℕ
  pub protocol : Option Text
  pub method : Option Text
  pub reason : Text
  pub path : Option Text

pub record AuditGroup : Type 0 where
  pub boundary : Text
  pub decision : Text
  pub destination : Option Text
  pub port : Option ℕ
  pub protocol : Option Text
  pub method : Option Text
  pub reason : Text
  pub path : Option Text
  pub count : ℕ
  pub last_timestamp_micros : ℕ

abbrev pub max_journal_records : ℕ
max_journal_records = 20000

abbrev pub max_groups : ℕ
max_groups = 2000

-- What a record is grouped by. The source prints it as JSON, in which different keys have different
-- texts; the order of the printed keys does not matter here.
pub record Key : Type 0 where
  pub boundary : Text
  pub decision : Text
  pub destination : Option Text
  pub port : Option ℕ
  pub protocol : Option Text
  pub method : Option Text
  pub reason : Text

unfoldable pub key_beq : Key → Key → Bool
key_beq k l =
    k.boundary == l.boundary
    && k.decision == l.decision
    && k.destination == l.destination
    && k.port == l.port
    && k.protocol == l.protocol
    && k.method == l.method
    && k.reason == l.reason

abbrev pub key_of : AuditRecord → Key
key_of r = record {
  boundary = r.boundary;
  decision = r.decision;
  destination = r.destination;
  port = r.port;
  protocol = r.protocol;
  method = r.method;
  reason = r.reason;
}

-- The groups by key, one entry for each key, and whether some were left out.
pub record AuditCollection : Type 0 where
  pub groups : List (Key × AuditGroup)
  pub truncated : Bool

abbrev pub no_observations : AuditCollection
no_observations = record { groups = []; truncated = false }

abbrev pub is_before : Option ℕ → ℕ → Bool
is_before none timestamp = false
is_before (some cutoff) timestamp = ltb timestamp cutoff

abbrev pub has_path : Option Text → Bool
has_path none = false
has_path (some path) = true

abbrev pub max_of : ℕ → ℕ → ℕ
max_of m n = if ltb m n then n else m

-- The branch of `add_record` for a group that exists.
abbrev pub count_record : AuditGroup → AuditRecord → AuditGroup
count_record g r = record g {
  count = g.count + 1;
  path =
      if leb g.last_timestamp_micros r.timestamp_micros && has_path r.path then r.path else g.path;
  last_timestamp_micros = max_of g.last_timestamp_micros r.timestamp_micros;
}

abbrev pub group_of : AuditRecord → AuditGroup
group_of r = record {
  boundary = r.boundary;
  decision = r.decision;
  destination = r.destination;
  port = r.port;
  protocol = r.protocol;
  method = r.method;
  reason = r.reason;
  path = r.path;
  count = 1;
  last_timestamp_micros = r.timestamp_micros;
}

-- `groups.get_mut(&key)`: the groups with the record counted, if one has its key.
unfoldable pub count_in : AuditRecord → List (Key × AuditGroup) → Option (List (Key × AuditGroup))
count_in r [] = none
count_in r ((k, g) ∷ rest) =
    let later = count_in r rest in
    if key_beq k (key_of r)
    then some ((k, count_record g r) ∷ rest)
    else elim later [ none ↦ none | some rest' ↦ some ((k, g) ∷ rest') ]

abbrev pub add_new :
    AuditCollection → AuditRecord → Option (List (Key × AuditGroup)) → AuditCollection
add_new c r (some groups) = record c { groups = groups }
add_new c r none =
    if leb max_groups (length c.groups)
    then record c { truncated = true }
    else record c { groups = (key_of r, group_of r) ∷ c.groups }

unfoldable pub add_record : Option ℕ → AuditCollection → AuditRecord → AuditCollection
add_record cutoff c r =
    if is_before cutoff r.timestamp_micros then c else add_new c r (count_in r c.groups)

pub data AuditError : Type 0 where
  too_many_records oversized_record invalid_record helper_failed invalid_duration : AuditError

-- A line of the helper: its length in bytes, and the record that it parses to.
abbrev pub Line : Type 0
Line = ℕ × Option AuditRecord

-- The loop of `collect`, from line number `index` on.
unfoldable pub collect_lines :
    Option ℕ → ℕ → AuditCollection → List Line → Result AuditError AuditCollection
collect_lines cutoff index c [] = ok c
collect_lines cutoff index c ((len, parsed) ∷ rest) = do
  ensure (ltb index max_journal_records) too_many_records
  ensure (leb len 65536) oversized_record
  r ← context invalid_record parsed
  collect_lines cutoff (index + 1) (add_record cutoff c r) rest

unfoldable pub collect : Option ℕ → List Line → Bool → Result AuditError AuditCollection
collect cutoff lines exited_well = do
  c ← collect_lines cutoff 0 no_observations lines
  ensure exited_well helper_failed
  ok c

abbrev pub u64_max : ℕ
u64_max = 18446744073709551615

abbrev pub saturating_mul : ℕ → ℕ → ℕ
saturating_mul a b = if ltb u64_max (a * b) then u64_max else a * b

abbrev pub suffix_of : Text → Option Text → Option (Text × ℕ) → ℕ → Option (Text × ℕ)
suffix_of value none other multiplier = other
suffix_of value (some number) other multiplier = some (number, multiplier)

-- `parse_duration`, in seconds.
unfoldable pub parse_duration : Text → Result AuditError ℕ
parse_duration value = do
  (number, multiplier) ← context invalid_duration (
      suffix_of value (strip_suffix (text "m") value)
        (suffix_of value (strip_suffix (text "h") value)
          (suffix_of value (strip_suffix (text "d") value)
            (suffix_of value (strip_suffix (text "s") value) none 1) 86400)
          3600)
        60)
  amount ← context invalid_duration (parse_unsigned (u64_max + 1) number)
  ok (saturating_mul amount multiplier)
