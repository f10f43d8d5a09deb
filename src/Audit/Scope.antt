-- ===== src/Audit/Scope.antt =====
-- The observations that are shown for a workspace are its own.
use mathlib.Core.Bool.{false≢true}
use mathlib.Core.Option.{some_inj}
use seter.Prelude.{
  ℕ, ◌≡◌, refl, sym, ap, ◌<◌, inl, inr, Bool, true, false, not, Option, none, some, ok, bind-eq-ok,
  ok_inj, arith, Bool-cases, ltb, context-eq-ok, pair-eq, ◌⊎◌, if◌then◌else◌, and_true,
}
use seter.Prelude.Eq.{nat_eq, list_eq, option_eq, option_beq_iff}
use seter.Prelude.Text.{Text, text}
use seter.Audit.{AuditRecord}
use seter.Audit.Records.{
  Json, Value, as_str, has_field, is_u16, as_u64, journal_record, journal_message, after_text,
  after_in, tagged, first_of, record_of, parse_journal_record, timestamp_of,
}

absent_field : (o : Option Json) → not (has_field o) ≡ true → o ≡ none
absent_field none h = refl
absent_field (some value) h = absurd (false≢true h)

if_some :
    {A : Type 0} (b : Bool) (x y : A) → (if b then some x else none) ≡ some y → (b ≡ true) × (x ≡ y)
if_some true x y h = (refl, cc)
if_some false x y h = cc

-- The text behind the marker of the DNS proxy, or of the HTTP proxy where the message has not the first one.
abbrev pub IsMarked : Text → Text → Text → Type 0
IsMarked boundary message raw =
    (boundary ≡ text "dns") × (after_text (text "seter-dns-audit ") message ≡ some raw)
    ⊎ (boundary ≡ text "proxy")
      × (after_text (text "seter-dns-audit ") message ≡ none)
      × (after_text (text "seter-audit ") message ≡ some raw)

-- A port that is there is the number in the JSON, and is below 65536.
abbrev pub IsPort : Option ℕ → Option ℕ → Type 0
IsPort given port = (port ≡ none) ⊎ (p : ℕ) × (port ≡ some p) × (given ≡ some p) × (p < 65536)

-- Where an observation of the service journal comes from: the JSON behind the marker in this entry's message, which
-- names the workspace and no event; its time is that of the entry, and its other fields are those of the JSON.
abbrev pub IsScoped : (Text → Option Value) → Option Value → Text → AuditRecord → Type 0
IsScoped parse parsed workspace r =
    (journal : Value) × (boundary message raw : Text) × (value : Value) × (parsed ≡ some journal)
    × (as_str (journal (text "MESSAGE")) ≡ some message)
    × IsMarked boundary message raw
    × (parse raw ≡ some value)
    × (as_str (value (text "workspace")) ≡ some workspace)
    × (value (text "event") ≡ none)
    × IsPort (as_u64 (value (text "port"))) r.port
    × (r ≡ record_of (timestamp_of journal) boundary value)

is_u16-IsPort : (o : Option ℕ) → IsPort o (is_u16 o)
is_u16-IsPort none = inl refl
is_u16-IsPort (some n) = elim (Bool-cases (ltb n 65536)) [
  | inl small ↦ rw small (inr (n, refl, refl, ground arith))
  | inr large ↦ rw large (inl refl)
]

marked :
    (found other : Option Text) (boundary raw : Text)
    → first_of (tagged (text "dns") found) (tagged (text "proxy") other) ≡ some (boundary, raw)
    → (boundary ≡ text "dns") × (found ≡ some raw)
      ⊎ (boundary ≡ text "proxy") × (found ≡ none) × (other ≡ some raw)
marked (some t) other boundary raw h =
    let same : (text "dns", t) ≡ (boundary, raw) = some_inj.0 h in
    inl (sym (pair-eq same).0, ap some (pair-eq same).1)
marked none (some t) boundary raw h =
    let same : (text "proxy", t) ≡ (boundary, raw) = some_inj.0 h in
    inr (sym (pair-eq same).0, refl, ap some (pair-eq same).1)
marked none none boundary raw h = cc

message-IsMarked :
    (message : Option Text) (boundary raw : Text)
    → first_of
        (tagged (text "dns") (after_in (text "seter-dns-audit ") message))
        (tagged (text "proxy") (after_in (text "seter-audit ") message))
      ≡ some (boundary, raw)
    → (m : Text) × (message ≡ some m) × IsMarked boundary m raw
message-IsMarked none boundary raw h = cc
message-IsMarked (some m) boundary raw h = (
  m,
  refl,
  marked (after_text (text "seter-dns-audit ") m) (after_text (text "seter-audit ") m) boundary raw
      h,
)

journal_record-ok :
    (timestamp : ℕ) (workspace boundary : Text) (o : Option Value) (r : AuditRecord)
    → journal_record timestamp workspace boundary o ≡ some r
    → (value : Value) × (o ≡ some value)
      × (as_str (value (text "workspace")) ≡ some workspace)
      × (value (text "event") ≡ none)
      × (r ≡ record_of timestamp boundary value)
journal_record-ok timestamp workspace boundary none r h = cc
journal_record-ok timestamp workspace boundary (some value) r h =
    let (passed, same) = if_some _ _ r h in
    let (own, no_event) = and_true _ _ passed in
    (value, refl, (option_beq_iff _ _).0 own, absent_field _ no_event, sym same)

journal_message-ok :
    (parse : Text → Option Value) (timestamp : ℕ) (workspace : Text) (m : Option (Text × Text))
    (r : AuditRecord)
    → journal_message parse timestamp workspace m ≡ some r
    → (boundary raw : Text) × (m ≡ some (boundary, raw))
      × (journal_record timestamp workspace boundary (parse raw) ≡ some r)
journal_message-ok parse timestamp workspace none r h = cc
journal_message-ok parse timestamp workspace (some (boundary, raw)) r h = (boundary, raw, refl, h)

-- An observation that `parse_journal_record` takes from an entry of the journal is what the JSON behind the marker in
-- that entry's message says, at the entry's time; that JSON names the workspace and is no event, and a port is the
-- number in it and is below 65536.
pub parse_journal_record-IsScoped :
    (parse : Text → Option Value) (parsed : Option Value) (workspace : Text) (r : AuditRecord)
    → parse_journal_record parse parsed workspace ≡ ok (some r)
    → IsScoped parse parsed workspace r
unfolding parse_journal_record
parse_journal_record-IsScoped parse parsed workspace r h =
    let (journal, read, h₁) = bind-eq-ok _ _ h in
    let (boundary, raw, found, recorded) =
      journal_message-ok parse (timestamp_of journal) workspace _ r (ok_inj h₁) in
    let (message, there, is_marked) =
      message-IsMarked (as_str (journal (text "MESSAGE"))) boundary raw found in
    let (value, parses, own, no_event, same) =
      journal_record-ok (timestamp_of journal) workspace boundary (parse raw) r recorded in
    (
      journal,
      boundary,
      message,
      raw,
      value,
      context-eq-ok _ _ read,
      there,
      is_marked,
      parses,
      own,
      no_event,
      rw same (is_u16-IsPort (as_u64 (value (text "port")))),
      same,
    )
