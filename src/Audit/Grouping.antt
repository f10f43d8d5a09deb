-- ===== src/Audit/Grouping.antt =====
-- Grouping loses no observation unless it says so, and stays within its bound.
use mathlib.Core.Bool.{false≢true}
use seter.Prelude.{
  ℕ, ◌≡◌, refl, sym, ◌+◌, ◌≤◌, Bool, true, false, Option, none, some, List, [], ◌∷◌, ok, bind-eq-ok,
  seq-eq-ok, context-eq-ok, leb, length, arith, inl, inr, Bool-cases, Option-cases, if◌then◌else◌,
}
use seter.Audit.{
  AuditRecord, AuditGroup, Key, key_beq, key_of, AuditCollection, max_groups, is_before,
  count_record, count_in, add_record, Line, collect_lines, collect, no_observations,
}

abbrev pub total : List (Key × AuditGroup) → ℕ
total [] = 0
total ((k, g) ∷ rest) = g.count + total rest

-- The records that are not before the cutoff.
abbrev pub accepted : Option ℕ → List Line → ℕ
accepted cutoff [] = 0
accepted cutoff ((len, none) ∷ rest) = accepted cutoff rest
accepted cutoff ((len, some r) ∷ rest) =
    (if is_before cutoff r.timestamp_micros then 0 else 1) + accepted cutoff rest

count_in-total :
    (r : AuditRecord) (gs gs' : List (Key × AuditGroup))
    → count_in r gs ≡ some gs'
    → (total gs' ≡ total gs + 1) × (length gs' ≡ length gs)
unfolding count_in
count_in-total r [] gs' h = cc
count_in-total r ((k, g) ∷ rest) gs' h =
    counted (key_beq k (key_of r)) (count_in r rest) (count_in-total r rest) h
  where
    counted :
        (b : Bool) (later : Option (List (Key × AuditGroup)))
        → ((rest' : List (Key × AuditGroup))
            → later ≡ some rest'
            → (total rest' ≡ total rest + 1) × (length rest' ≡ length rest))
        → (if b
            then some ((k, count_record g r) ∷ rest)
            else elim later [ none ↦ none | some rest' ↦ some ((k, g) ∷ rest') ])
          ≡ some gs'
        → (total gs' ≡ g.count + total rest + 1) × (length gs' ≡ length ((k, g) ∷ rest))
    counted true later fact h' =
        let e : (k, count_record g r) ∷ rest ≡ gs' = cc in rw (← e) (omega arith, refl)
    counted false none fact h' = cc
    counted false (some rest') fact h' =
        let e : (k, g) ∷ rest' ≡ gs' = cc in
        let (sum, len) = fact rest' refl in rw (← e) (omega (arith, sum), cc)

-- What one record, or several, may have done to a collection.
record Grows (c c' : AuditCollection) (n : ℕ) : Type 0 where
  bounded : length c.groups ≤ max_groups → length c'.groups ≤ max_groups
  complete : c'.truncated ≡ false → (c.truncated ≡ false) × (total c'.groups ≡ total c.groups + n)

add_record-Grows :
    (cutoff : Option ℕ) (c : AuditCollection) (r : AuditRecord)
    → Grows c (add_record cutoff c r) (if is_before cutoff r.timestamp_micros then 0 else 1)
unfolding add_record
add_record-Grows cutoff c r = elim (Bool-cases (is_before cutoff r.timestamp_micros)) [
  | inl old ↦ rw old (record { bounded = λ b. b; complete = λ k. (k, omega arith) })
  | inr new ↦ rw new (elim (Option-cases (count_in r c.groups)) [
    | inr (groups, found) ↦
        let (sum, len) = count_in-total r c.groups groups found in
        rw found (record { bounded = λ b. omega (arith, len, b); complete = λ k. (k, sum) })
    | inl absent ↦ elim (Bool-cases (leb max_groups (length c.groups))) [
      | inl full ↦
          rw (absent, full)
            (record { bounded = λ b. b; complete = λ k. absurd (false≢true (sym k)) })
      | inr room ↦
          rw (absent, room)
            (record { bounded = λ b. ground (arith, room); complete = λ k. (k, omega arith) })
    ]
  ])
]

collect_lines-Grows :
    (cutoff : Option ℕ) (index : ℕ) (c : AuditCollection) (lines : List Line) (c' : AuditCollection)
    → collect_lines cutoff index c lines ≡ ok c'
    → Grows c c' (accepted cutoff lines)
unfolding collect_lines
collect_lines-Grows cutoff index c [] c' h =
    let e : c ≡ c' = cc in rw (← e) (record { bounded = λ b. b; complete = λ k. (k, omega arith) })
collect_lines-Grows cutoff index c ((len, none) ∷ rest) c' h =
    let (few, h₁) = seq-eq-ok _ _ h in
    let (short, h₂) = seq-eq-ok _ _ h₁ in
    let (r, parsed, h₃) = bind-eq-ok _ _ h₂ in
    let absent : ◌≡◌ {A = Option AuditRecord} none (some r) = context-eq-ok _ _ parsed in cc
collect_lines-Grows cutoff index c ((len, some r) ∷ rest) c' h =
    let (few, h₁) = seq-eq-ok _ _ h in
    let (short, h₂) = seq-eq-ok _ _ h₁ in
    let (r', parsed, h₃) = bind-eq-ok _ _ h₂ in
    let same : some r ≡ some r' = context-eq-ok _ _ parsed in
    let e : r ≡ r' = cc in
    let first = add_record-Grows cutoff c r in
    let later = collect_lines-Grows cutoff (index + 1) (add_record cutoff c r) rest c' (rw e h₃) in
    record {
      bounded = λ b. later.bounded (first.bounded b);
      complete = λ k.
          let (k₁, sum₁) = later.complete k in
          let (k₀, sum₀) = first.complete k₁ in (k₀, omega (arith, sum₁, sum₀));
    }

-- If the audit helper's lines are collected without an error, there are at most 2000 groups, and
-- unless the collection is marked as truncated, the counts of the groups add up to the number of
-- records that are not before the cutoff: no observation is lost silently.
pub collect-total :
    (cutoff : Option ℕ) (lines : List Line) (exited_well : Bool) (c : AuditCollection)
    → collect cutoff lines exited_well ≡ ok c
    → (length c.groups ≤ 2000) × (c.truncated ≡ false → total c.groups ≡ accepted cutoff lines)
unfolding collect
collect-total cutoff lines exited_well c h =
    let (c', read, h₁) = bind-eq-ok _ _ h in
    let (_, same) = seq-eq-ok _ _ h₁ in
    let e : c' ≡ c = cc in
    let grown = collect_lines-Grows cutoff 0 no_observations lines c (rw (← e) read) in
    (grown.bounded (omega arith), λ k. omega (arith, (grown.complete k).1))
