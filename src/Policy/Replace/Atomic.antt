-- ===== src/Policy/Replace/Atomic.antt =====
-- However `atomic_write` ends, the file is the old one or the new one.
use seter.Prelude.{
  [], ℕ, ◌≡◌, ◌≢◌, refl, sym, ◌∙◌, ◌⊎◌, inl, inr, Bool, true, false, Option, none, some, ok, err,
  err-not-ok, and_then, if◌then◌else◌, Bool-cases,
}
use seter.Prelude.Eq.{◌==◌, ==_refl, nat_eq, list_eq, list_beq_iff}
use seter.Prelude.Text.{Text}
use seter.Policy.Replace.{
  Node, Files, Disk, WriteError, exists_already, not_created, no_metadata, create_as, Outcome,
  set_file, directory_of, temporary_in, mode_of, check, create_new, with_contents, with_mode,
  write_until, write_all, set_permissions, rename, fill, discard, clean_up, atomic_write,
}

set_file_self :
    (path : Text) (entry : Option Node) (files : Files) → set_file path entry files path ≡ entry
set_file_self path entry files = rw (==_refl path) refl

apart : (s t : Text) → s ≢ t → (s == t) ≡ false
apart s t ne = elim (Bool-cases (s == t)) [
  | inl same ↦ absurd (ne ((list_beq_iff s t).0 same))
  | inr other ↦ other
]

pub set_file-other :
    (path : Text) (entry : Option Node) (files : Files) (other : Text)
    → other ≢ path
    → set_file path entry files other ≡ files other
set_file-other path entry files other ne = rw (apart other path ne) refl

module _ (disk : Disk) (temporary path : Text) (distinct : temporary ≢ path) (contents : Text)
    (mode : ℕ) (before : Files) where
  -- The new file is not in its place yet, and all else is as before.
  abbrev Pending : Files → Type 0
  Pending now =
      ((other : Text) → other ≢ temporary → now other ≡ before other)
      × (node : Node) × (now temporary ≡ some node)

  -- The new file is in its place.
  abbrev Replaced : Files → Type 0
  Replaced now =
      ((other : Text) → other ≢ temporary → other ≢ path → now other ≡ before other)
      × (now path ≡ some record { contents = contents; mode = mode })
      × (now temporary ≡ none)

  abbrev Settles : Outcome (Unit {0}) → Type 0
  Settles (result, now) = (result ≡ ok tt → Replaced now) × (Pending now ⊎ Replaced now)

  -- As `Pending`, for a known new file.
  abbrev Holds : Node → Files → Type 0
  Holds node now =
      ((other : Text) → other ≢ temporary → now other ≡ before other) × (now temporary ≡ some node)

  Pending-Holds : (node : Node) (now : Files) → Holds node now → Pending now
  Pending-Holds node now (others, new) = (others, node, new)

  set-Holds :
      (node node' : Node) (o : Option Node) (now : Files)
      → o ≡ some node'
      → Holds node now
      → Holds node' (set_file temporary o now)
  set-Holds node node' o now e (others, new) = (
    λ other ne. set_file-other temporary o now other ne ∙ others other ne,
    set_file_self temporary o now ∙ e,
  )

  moved-Replaced :
      (now : Files)
      → Holds (record { contents = contents; mode = mode }) now
      → Replaced (set_file temporary none (set_file path (now temporary) now))
  moved-Replaced now (others, new) = (
    λ other ne ne'.
        set_file-other temporary none (set_file path (now temporary) now) other ne
        ∙ (set_file-other path (now temporary) now other ne' ∙ others other ne),
    set_file-other temporary none (set_file path (now temporary) now) path (λ e. distinct (sym e))
        ∙ (set_file_self path (now temporary) now ∙ new),
    set_file_self temporary none (set_file path (now temporary) now),
  )

  -- A call that fails changes nothing.
  Settles-if :
      (failed : Bool) (e : WriteError) (now now' : Files)
      (next : Unit {0} → Files → Outcome (Unit {0}))
      → Pending now ⊎ Replaced now
      → Settles (next tt now')
      → Settles (and_then (if failed then (err e, now) else (ok tt, now')) next)
  unfolding and_then
  Settles-if true e now now' next here later = (λ h. absurd (err-not-ok h), here)
  Settles-if false e now now' next here later = later

  Settles-last :
      (failed : Bool) (e : WriteError) (now : Files)
      → Replaced now
      → Settles (check disk failed e now)
  Settles-last true e now moved = (λ h. absurd (err-not-ok h), inr moved)
  Settles-last false e now moved = (λ h. moved, inr moved)

  Settles-write :
      (stops : Option Text) (node : Node) (now : Files)
      (next : Unit {0} → Files → Outcome (Unit {0}))
      → Holds node now
      → ((now' : Files) → Holds (record node { contents = contents }) now' → Settles (next tt now'))
      → Settles (and_then (write_until disk stops temporary contents now) next)
  unfolding and_then
  Settles-write none node now next holds later =
      later _
        (set-Holds node _ (with_contents disk contents (now temporary)) now (rw holds.1 refl) holds)
  Settles-write (some part) node now next holds later = (
    λ h. absurd (err-not-ok h),
    inl (
        Pending-Holds _ _ (
          set-Holds node (record node { contents = part }) (with_contents disk part (now temporary))
            now (rw holds.1 refl) holds)),
  )

  fill-Settles :
      (directory : Text) (node : Node) (now : Files)
      → Holds node now
      → Settles (fill disk temporary path directory mode contents now)
  unfolding fill write_all set_permissions rename
  fill-Settles directory node now holds =
      Settles-write disk.write_stops node now _ holds λ now₁ holds₁.
        let now₂ = set_file temporary (with_mode disk mode (now₁ temporary)) now₁ in
        let holds₂ =
          set-Holds (record node { contents = contents })
            (record { contents = contents; mode = mode }) (with_mode disk mode (now₁ temporary))
            now₁ (rw holds₁.1 refl) holds₁ in
        let moved = moved-Replaced now₂ holds₂ in
        let here = inl (Pending-Holds _ now₁ holds₁) in
        Settles-if (disk.cannot_sync temporary) _ now₁ now₁ _ here (
          Settles-if (disk.cannot_set_mode temporary) _ now₁ now₂ _ here (
            Settles-if (disk.cannot_rename path) _ now₂ _ _ (inl (Pending-Holds _ now₂ holds₂)) (
              Settles-if (disk.cannot_open_directory directory) _ _ _ _ (inr moved)
                (Settles-last (disk.cannot_sync directory) _ _ moved))))

-- What holds of the file, of the new file beside it and of all others.
abbrev pub IsAtomic : Disk → Text → Text → Text → Files → Outcome (Unit {0}) → Type 0
IsAtomic disk temporary path contents before (result, after) =
    ((other : Text) → other ≢ temporary → other ≢ path → after other ≡ before other)
    × (((after path ≡ before path) × (e : WriteError) × (result ≡ err e))
        ⊎ (old : Node) × (before path ≡ some old)
          × (after path ≡ some record { contents = contents; mode = old.mode }))
    × ((disk.cannot_remove temporary ≡ true)
        ⊎ ((after temporary ≡ before temporary) ⊎ (after temporary ≡ none)))

module _ (disk : Disk) (temporary path : Text) (distinct : temporary ≢ path) (contents : Text)
    (before : Files) where
  abbrev Atomic : Outcome (Unit {0}) → Type 0
  Atomic = IsAtomic disk temporary path contents before

  refused : (e : WriteError) → Atomic (err e, before)
  refused e = (λ other ne ne'. refl, inl (refl, e, refl), inr (inl refl))

  module _ (old : Node) (there : before path ≡ some old) where
    abbrev AtEnd : Files → Type 0
    AtEnd now =
        Pending disk temporary path distinct contents old.mode before now
        ⊎ Replaced disk temporary path distinct contents old.mode before now

    discarded-Atomic :
        (e : WriteError) (now : Files) → AtEnd now → Atomic (err e, discard disk temporary now)
    unfolding discard
    discarded-Atomic e now h = elim (Bool-cases (disk.cannot_remove temporary)) [
      | inl stuck ↦ rw stuck (elim h [
        | inl (others, entry, new) ↦ (
          λ other ne ne'. others other ne,
          inl (others path (λ e. distinct (sym e)), e, refl),
          inl refl,
        )
        | inr (others, moved, gone) ↦ (others, inr (old, there, moved), inl refl)
      ])
      | inr free ↦ rw free (elim h [
        | inl (others, entry, new) ↦
            let apart_of : path ≢ temporary = λ e. distinct (sym e) in
            (
              λ other ne ne'. set_file-other temporary none now other ne ∙ others other ne,
              inl (set_file-other temporary none now path apart_of ∙ others path apart_of, e, refl),
              inr (inr (set_file_self temporary none now)),
            )
        | inr (others, moved, gone) ↦ (
          λ other ne ne'. set_file-other temporary none now other ne ∙ others other ne ne',
          inr (old, there, set_file-other temporary none now path (λ e. distinct (sym e)) ∙ moved),
          inr (inr (set_file_self temporary none now)),
        )
      ])
    ]

    clean_up-Atomic :
        (o : Outcome (Unit {0}))
        → Settles disk temporary path distinct contents old.mode before o
        → Atomic (clean_up disk temporary o)
    clean_up-Atomic (ok tt, now) (settled, at_end) =
        let (others, moved, gone) = settled refl in
        (others, inr (old, there, moved), inr (inr gone))
    clean_up-Atomic (err e, now) (settled, at_end) = discarded-Atomic e now at_end

    created-Atomic :
        (directory : Text) (o : Option Node)
        → before temporary ≡ o
        → Atomic (
            and_then (create_as disk o temporary old.mode before) (λ created files₂.
              clean_up disk temporary
                (fill disk temporary path directory old.mode contents files₂)))
    unfolding and_then
    created-Atomic directory (some node) e = refused exists_already
    created-Atomic directory none e = elim (Bool-cases (disk.cannot_create temporary)) [
      | inl stuck ↦ rw stuck (refused not_created)
      | inr free ↦
          let new : Node = record { contents = []; mode = disk.masked old.mode } in
          let now = set_file temporary (some new) before in
          let settles =
            fill-Settles disk temporary path distinct contents old.mode before directory new now (
              λ other ne. set_file-other temporary (some new) before other ne,
              set_file_self temporary (some new) before,
            ) in
          rw free
            (clean_up-Atomic (fill disk temporary path directory old.mode contents now) settles)
    ]

  named-Atomic :
      (directory : Text) (o : Option Node)
      → before path ≡ o
      → Atomic (
          and_then
            (mode_of disk path o, before)
            (λ mode files₁. and_then (create_new disk temporary mode files₁) (λ created files₂.
              clean_up disk temporary (fill disk temporary path directory mode contents files₂))))
  unfolding and_then create_new
  named-Atomic directory none e = refused no_metadata
  named-Atomic directory (some old) e = elim (Bool-cases (disk.cannot_stat path)) [
    | inl stuck ↦ rw stuck (refused no_metadata)
    | inr free ↦ rw free (created-Atomic old e directory (before temporary) refl)
  ]

-- For a path that has a file name and is not that of the new file beside it: however `atomic_write` ends, files
-- elsewhere are as before; the file is as before and an error is reported, or it was there and has the new
-- contents and its old mode; and the new file beside it cannot be removed, or is as it was, or is not there.
pub atomic_write-IsAtomic :
    (disk : Disk) (path contents name : Text) (before : Files)
    → disk.file_name path ≡ some name
    → temporary_in disk (directory_of disk path) name ≢ path
    → IsAtomic disk
        (temporary_in disk (directory_of disk path) name)
        path
        contents
        before
        (atomic_write disk path contents before)
unfolding atomic_write
atomic_write-IsAtomic disk path contents name before named distinct = rw named (
    named-Atomic disk (temporary_in disk (directory_of disk path) name) path distinct contents
      before (directory_of disk path) (before path) refl)
