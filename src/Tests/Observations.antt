-- ===== src/Tests/Observations.antt =====
-- Policy Observations.
use seter.Prelude.{
  ℕ, ◌≡◌, refl, ◌≤◌, true, false, Option, none, some, List, [], ◌∷◌, ok, err, ensure, context,
  ◌>>=◌, length, if◌then◌else◌,
}
use seter.Prelude.Eq.{◌==◌, nat_eq, list_eq}
use seter.Prelude.Text.{Text, text}
use seter.Prelude.Text.Decimal.{parse_unsigned, parse_digits, value_from}
use seter.Audit.{
  AuditRecord, AuditCollection, key_beq, count_in, add_record, Line, collect_lines, collect,
  parse_duration,
}
use seter.Audit.Grouping.{total, accepted, collect-total}
use seter.Audit.Records.{string, natural, Value, after_text, parse_journal_record}
use seter.Audit.Scope.{IsScoped, parse_journal_record-IsScoped}

abbrev denied : ℕ → AuditRecord
denied timestamp = record {
  timestamp_micros = timestamp;
  boundary = text "http";
  decision = text "deny";
  destination = some (text "api.example.com");
  port = some 443;
  protocol = none;
  method = some (text "GET");
  reason = text "not granted";
  path = none;
}

abbrev lines : List Line
lines = (200, some (denied 5)) ∷ (200, some (denied 9)) ∷ (200, some (denied 1)) ∷ []

run_audit : Unit {0}
unfolding key_beq count_in add_record collect_lines collect parse_duration parse_unsigned
    parse_digits value_from ensure context ◌>>=◌ after_text parse_journal_record
run_audit = tt

abbrev collected : AuditCollection
collected = elim (collect (some 2) lines true) [
  | ok c ↦ c
  | err e ↦ record { groups = []; truncated = true }
]

collects : collect (some 2) lines true ≡ ok collected
unfolding run_audit
collects = refl

counts : total collected.groups ≡ 2
unfolding run_audit
counts = refl

durations : (parse_duration (text "30m") ≡ ok 1800) × (parse_duration (text "2h") ≡ ok 7200)
unfolding run_audit
durations = (refl, refl)

collect-total_example :
    (length collected.groups ≤ 2000)
    × (collected.truncated ≡ false → total collected.groups ≡ accepted (some 2) lines)
collect-total_example = collect-total (some 2) lines true collected collects

abbrev entry : Value
entry name =
    if name == text "MESSAGE"
    then some (string (text "proxy: seter-audit {...}"))
    else if name == text "__REALTIME_TIMESTAMP"
    then some (string (text "42"))
    else none

abbrev body : Value
body name =
    if name == text "workspace"
    then some (string (text "minimal"))
    else if name == text "decision"
    then some (string (text "deny"))
    else if name == text "port"
    then some (natural 443)
    else none

abbrev reader : Text → Option Value
reader raw = if raw == text "{...}" then some body else none

abbrev observed : AuditRecord
observed = record {
  timestamp_micros = 42;
  boundary = text "http";
  decision = text "deny";
  destination = none;
  port = some 443;
  protocol = none;
  method = none;
  reason = text "unspecified policy decision";
  path = none;
}

observes : parse_journal_record reader (some entry) (text "minimal") ≡ ok (some observed)
unfolding run_audit
observes = refl

other_workspace : parse_journal_record reader (some entry) (text "other") ≡ ok none
unfolding run_audit
other_workspace = refl

parse_journal_record-IsScoped_example : IsScoped reader (some entry) (text "minimal") observed
parse_journal_record-IsScoped_example =
    parse_journal_record-IsScoped reader (some entry) (text "minimal") observed observes
