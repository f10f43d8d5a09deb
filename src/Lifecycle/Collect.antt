-- ===== src/Lifecycle/Collect.antt =====
-- `collect_garbage`: the state directory is only listed; of the known-host projections it removes
-- the files of workspaces that the registry no longer has. The directory is the list of its entries,
-- each a name and whether it is a file, as far as it can be listed; that an entry cannot be read is
-- modelled for the state directory.
use mathlib.Core.Bool.{false≢true}
use seter.Prelude.{
  ◌≡◌, refl, sym, ap, ◌∙◌, ◌⊎◌, ◌↔◌, arith, inl, inr, Bool, true, false, not, ◌&&◌, Option, none,
  some, List, [], ◌∷◌, In, Result, ok, err, Bool-cases, err-not-ok, if◌then◌else◌,
}
use seter.Prelude.Text.{Text}
use seter.Prelude.Map.{contains_key}
use seter.Registry.{Registry}
use seter.Lifecycle.{LifecycleError, remove_failed, list_failed}

abbrev pub Entry : Type 0
Entry = Text × Bool

abbrev pub is_retired : Registry → Entry → Bool
is_retired registry (name, is_file) = not (contains_key name registry.workspaces) && is_file

-- The state root: an entry is whether it is a directory, where it and its type can be read. `lists_known_hosts` says
-- whether the other directory can be listed; where it does not exist, it is listed as empty.
pub record Directories : Type 0 where
  pub root_exists : Bool
  pub root_entries : Option (List (Option (Option Bool)))
  pub lists_known_hosts : Bool

-- The loop over the state root, which only prints.
unfoldable pub inspect_entries : List (Option (Option Bool)) → Result LifecycleError (Unit {0})
inspect_entries [] = ok tt
inspect_entries (none ∷ rest) = err list_failed
inspect_entries (some none ∷ rest) = err list_failed
inspect_entries (some (some is_dir) ∷ rest) = inspect_entries rest

abbrev inspect : Option (List (Option (Option Bool))) → Result LifecycleError (Unit {0})
inspect none = err list_failed
inspect (some entries) = inspect_entries entries

-- An entry of a configured workspace, or one that is no file.
abbrev pub IsNeeded : Registry → Entry → Type 0
IsNeeded registry (name, is_file) =
    (contains_key name registry.workspaces ≡ true) ⊎ (is_file ≡ false)

is_retired_lem : (r : Registry) (e : Entry) → (is_retired r e ≡ false) ↔ IsNeeded r e
is_retired_lem r (name, true) = elim (Bool-cases (contains_key name r.workspaces)) [
  | inl there ↦ (λ h. inl there, λ h. rw there refl)
  | inr gone ↦ (
    λ h. absurd (false≢true (sym h ∙ rw gone refl)),
    elim [
      | inl there ↦ absurd (false≢true (sym gone ∙ there))
      | inr no_file ↦ absurd (false≢true (sym no_file))
    ],
  )
]
is_retired_lem r (name, false) = (λ h. inr refl, λ h. ground arith)

module _ (cannot_remove : Text → Bool) where
  unfoldable pub collect_entries :
      Registry → List Entry → Result LifecycleError (Unit {0}) × List Entry
  collect_entries registry [] = (ok tt, [])
  collect_entries registry (entry ∷ rest) =
      let (result, kept) = collect_entries registry rest in
      if not (is_retired registry entry)
      then (result, entry ∷ kept)
      else if cannot_remove entry.0
      then (err (remove_failed entry.0), entry ∷ rest)
      else (result, kept)

  abbrev collect_inspected :
      Registry
      → Result LifecycleError (Unit {0})
      → Bool
      → List Entry
      → Result LifecycleError (Unit {0}) × List Entry
  collect_inspected registry (err e) listed known_hosts = (err e, known_hosts)
  collect_inspected registry (ok inspected) false known_hosts = (err list_failed, known_hosts)
  collect_inspected registry (ok inspected) true known_hosts = collect_entries registry known_hosts

  unfoldable pub collect_garbage :
      Registry → Directories → List Entry → Result LifecycleError (Unit {0}) × List Entry
  collect_garbage registry directories known_hosts =
      if not directories.root_exists
      then (ok tt, known_hosts)
      else collect_inspected registry (inspect directories.root_entries)
          directories.lists_known_hosts known_hosts

  kept_entries :
      (r : Registry) (known_hosts : List Entry) (e : Entry)
      → (In e (collect_entries r known_hosts).1 → In e known_hosts)
        × ((is_retired r e ≡ false → In e known_hosts → In e (collect_entries r known_hosts).1)
            × ((collect_entries r known_hosts).0 ≡ ok tt
                → In e (collect_entries r known_hosts).1
                → is_retired r e ≡ false))
  unfolding collect_entries
  kept_entries r [] e = (λ m. m, (λ k m. m, λ done m. absurd m))
  kept_entries r (x ∷ rest) e =
      let (sub, (keeps, only)) = kept_entries r rest e in
      elim (Bool-cases (is_retired r x)) [
        | inr active ↦ rw active (
          elim [ inl h ↦ inl h | inr m ↦ inr (sub m) ],
          (
            λ k. elim [ inl h ↦ inl h | inr m ↦ inr (keeps k m) ],
            λ done. elim [ inl h ↦ ap (is_retired r) h ∙ active | inr m ↦ only done m ],
          ),
        )
        | inl retired ↦ elim (Bool-cases (cannot_remove x.0)) [
          | inl stuck ↦ rw (retired, stuck) (λ m. m, (λ k m. m, λ done m. absurd cc))
          | inr free ↦
              rw (retired, free)
                (
                  λ m. inr (sub m),
                  (
                    λ k. elim [
                      | inl h ↦ absurd (false≢true (sym k ∙ (ap (is_retired r) h ∙ retired)))
                      | inr m ↦ keeps k m
                    ],
                    only,
                  ),
                )
        ]
      ]

  inspected_entries :
      (r : Registry) (inspected : Result LifecycleError (Unit {0})) (listed : Bool)
      (known_hosts : List Entry) (e : Entry)
      → (In e (collect_inspected r inspected listed known_hosts).1 → In e known_hosts)
        × ((is_retired r e ≡ false
              → In e known_hosts
              → In e (collect_inspected r inspected listed known_hosts).1)
            × ((collect_inspected r inspected listed known_hosts).0 ≡ ok tt
                → In e (collect_inspected r inspected listed known_hosts).1
                → is_retired r e ≡ false))
  inspected_entries r (err f) listed known_hosts e =
      (λ m. m, (λ k m. m, λ done m. absurd (err-not-ok done)))
  inspected_entries r (ok inspected) false known_hosts e =
      (λ m. m, (λ k m. m, λ done m. absurd (err-not-ok done)))
  inspected_entries r (ok inspected) true known_hosts e = kept_entries r known_hosts e

  -- However garbage collection ends, it leaves only known-host entries that were there, and all those of configured
  -- workspaces and those that are no files; if the state root exists and it ends without an error, it leaves no others.
  pub collect_garbage_lem :
      (r : Registry) (d : Directories) (known_hosts : List Entry) (e : Entry)
      → (In e (collect_garbage r d known_hosts).1 → In e known_hosts)
        × ((IsNeeded r e → In e known_hosts → In e (collect_garbage r d known_hosts).1)
            × (d.root_exists ≡ true
                → (collect_garbage r d known_hosts).0 ≡ ok tt
                → In e (collect_garbage r d known_hosts).1
                → IsNeeded r e))
  unfolding collect_garbage
  collect_garbage_lem r d known_hosts e =
      let (sub, (keeps, only)) =
        inspected_entries r (inspect d.root_entries) d.lists_known_hosts known_hosts e in
      elim (Bool-cases d.root_exists) [
        | inl there ↦ rw there (
          sub,
          (
            λ needed. keeps ((is_retired_lem r e).1 needed),
            λ exists done m. (is_retired_lem r e).0 (only done m),
          ),
        )
        | inr absent ↦ rw absent (λ m. m, (λ k m. m, λ exists. absurd (false≢true exists)))
      ]
