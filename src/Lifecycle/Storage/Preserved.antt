-- ===== src/Lifecycle/Storage/Preserved.antt =====
-- Which images the storage commands remove and which they keep.
use mathlib.Core.Bool.{false≢true}
use seter.Prelude.{
  ◌≡◌, ◌≢◌, refl, sym, ap, ◌∙◌, ◌⊎◌, inl, inr, Bool, true, false, not, some, List, [], ◌∷◌, All,
  Result, ok, err, with_context-eq-ok, context-eq-ok, Result-cases, bind-eq-ok, seq-eq-ok,
  ensure-eq-ok, and_then, arith, Bool-cases, if◌then◌else◌,
}
use seter.Prelude.Eq.{◌==◌, nat_eq, list_eq, list_beq_iff}
use seter.Prelude.Text.{Text}
use seter.Prelude.Map.{Map, get}
use seter.Registry.{Registry, Workspace}
use seter.Registry.Select.{workspace}
use seter.Registry.Validate
use seter.Registry.Validate.Volumes.{validate-HasSound}
use seter.Lifecycle.{LifecycleError, State, stopped, Systemd, state_for}
use seter.Lifecycle.Storage.{
  Images, without, FileSystem, remove_file, remove_selected, reset_checks, reset_checked,
  check_stopped, reset_workspace, destroy_checks, destroy_project_volume, removed_or_absent,
  is_stopped,
}

module _ {V : Type 0} (P : Text × V → Type 0) where
  All-get : (k : Text) (m : Map V) (v : V) → All P m → get k m ≡ some v → (j : Text) × P (j, v)
  unfolding get
  All-get k [] v ps h = cc
  All-get k ((j, w) ∷ m) v (p, ps) h = elim (Bool-cases (j == k)) [
    | inl hit ↦
        let same : some w ≡ some v =
          rw⁻¹ (ap (λ (b : Bool). if b then some w else get k m) hit) h in
        let e : w ≡ v = cc in (j, rw (← e) p)
    | inr miss ↦
        let later : get k m ≡ some v =
          rw⁻¹ (ap (λ (b : Bool). if b then some w else get k m) miss) h in
        All-get k m v ps later
  ]

-- A path other than the removed one.
abbrev pub Differs : Text → Text → Text → Text → Type 0
Differs directory file d f = (d ≢ directory) ⊎ (f ≢ file)

without-other :
    (directory file : Text) (images : Images) (d f : Text)
    → Differs directory file d f
    → without directory file images d f ≡ images d f
without-other directory file images d f (inl ne) = ground (arith, list_beq_iff d directory)
without-other directory file images d f (inr ne) = ground (arith, list_beq_iff f file)

module _ (fs : FileSystem) where
  remove_file-other :
      (directory file : Text) (images : Images) (d f : Text)
      → Differs directory file d f
      → (remove_file fs directory file images).1 d f ≡ images d f
  unfolding remove_file
  remove_file-other directory file images d f ne =
      ground (arith, without-other directory file images d f ne)

  -- A removal adds nothing.
  remove_file-absent :
      (directory file : Text) (images : Images) (d f : Text)
      → images d f ≡ false
      → (remove_file fs directory file images).1 d f ≡ false
  unfolding remove_file
  remove_file-absent directory file images d f h = ground arith

  -- Where the loop goes on, the file is gone.
  remove_file-gone :
      (directory file label : Text) (images : Images) (removed : List Text) {removed' : List Text}
      → removed_or_absent fs file label removed (remove_file fs directory file images).0
        ≡ ok removed'
      → (remove_file fs directory file images).1 directory file ≡ false
  unfolding remove_file
  remove_file-gone directory file label images removed h =
      ground (arith, list_beq_iff directory directory, list_beq_iff file file)

  remove_file-ok :
      (directory file : Text) (images : Images)
      → (remove_file fs directory file images).0 ≡ ok tt
      → (remove_file fs directory file images).1 directory file ≡ false
  unfolding remove_file
  remove_file-ok directory file images h =
      ground (arith, list_beq_iff directory directory, list_beq_iff file file)

  remove_selected-other :
      (name : Text) (entries : List (Bool × Text × Text)) (removed : List Text) (images : Images)
      (d f : Text)
      → All (λ (e : Bool × Text × Text). Differs name e.2 d f) entries
      → (remove_selected fs name entries removed images).1 d f ≡ images d f
  unfolding remove_selected and_then
  remove_selected-other name [] removed images d f ne = refl
  remove_selected-other name ((false, label, image) ∷ rest) removed images d f (ne, nes) =
      remove_selected-other name rest removed images d f nes
  remove_selected-other name ((true, label, image) ∷ rest) removed images d f (ne, nes) =
      let kept = remove_file-other name image images d f ne in
      elim (Result-cases
        (removed_or_absent fs image label removed (remove_file fs name image images).0)) [
          | inl (removed', e) ↦ rw e (remove_selected-other name rest removed' _ d f nes ∙ kept)
          | inr (failure, e) ↦ rw e kept
        ]

  remove_selected-absent :
      (name : Text) (entries : List (Bool × Text × Text)) (removed : List Text) (images : Images)
      (d f : Text)
      → images d f ≡ false
      → (remove_selected fs name entries removed images).1 d f ≡ false
  unfolding remove_selected and_then
  remove_selected-absent name [] removed images d f h = h
  remove_selected-absent name ((false, label, image) ∷ rest) removed images d f h =
      remove_selected-absent name rest removed images d f h
  remove_selected-absent name ((true, label, image) ∷ rest) removed images d f h =
      let absent = remove_file-absent name image images d f h in
      elim (Result-cases
        (removed_or_absent fs image label removed (remove_file fs name image images).0)) [
          | inl (removed', e) ↦ rw e (remove_selected-absent name rest removed' _ d f absent)
          | inr (failure, e) ↦ rw e absent
        ]

  -- A selection that ends without an error has removed each selected image.
  remove_selected-gone :
      (name : Text) (entries : List (Bool × Text × Text)) (removed : List Text) (images : Images)
      (labels : List Text) (final : Images)
      → remove_selected fs name entries removed images ≡ (ok labels, final)
      → All (λ (e : Bool × Text × Text). e.0 ≡ true → final name e.2 ≡ false) entries
  unfolding remove_selected and_then
  remove_selected-gone name [] removed images labels final h = tt
  remove_selected-gone name ((false, label, image) ∷ rest) removed images labels final h = (
    (λ selected. absurd (false≢true selected)),
    remove_selected-gone name rest removed images labels final h,
  )
  remove_selected-gone name ((true, label, image) ∷ rest) removed images labels final h =
      let outcome = removed_or_absent fs image label removed (remove_file fs name image images).0 in
      let images' = (remove_file fs name image images).1 in
      let next = λ (removed' : List Text) (is : Images). remove_selected fs name rest removed' is in
      elim (Result-cases outcome) [
        | inl (removed', e) ↦
            let later : remove_selected fs name rest removed' images' ≡ (ok labels, final) =
              ap (λ m. and_then (m, images') next) (sym e) ∙ h in
            (
              λ selected.
                  ap (λ (o : Result LifecycleError (List Text) × Images). o.1 name image)
                    (sym later)
                  ∙ remove_selected-absent name rest removed' images' name image
                      (remove_file-gone name image label images removed e),
              remove_selected-gone name rest removed' images' labels final later,
            )
        | inr (failure, e) ↦
            let wrong : (err failure, images') ≡ (ok labels, final) =
              ap (λ m. and_then (m, images') next) (sym e) ∙ h in
            let clash : ◌≡◌ {A = Result LifecycleError (List Text)} (err failure) (ok labels) =
              ap (λ (o : Result LifecycleError (List Text) × Images). o.0) wrong in
            cc
      ]

-- The images of a configured workspace of a valid registry are distinct.
images_apart :
    (r : Registry) (name : Text) (w : Workspace)
    → Validate.validate r ≡ ok tt
    → workspace r name ≡ ok w
    → (w.storage.project.image ≢ w.storage.home.image)
      × (w.storage.project.image ≢ w.storage.nix_store.image)
unfolding workspace
images_apart r name w v found =
    let (key, sound) =
      All-get _ name r.workspaces w (validate-HasSound r v) (context-eq-ok _ _ found) in
    let apart = sound.1.distinct.0 in (apart.0, apart.1.0)

is_stopped-eq : (s : State) → is_stopped s ≡ true → s ≡ stopped
is_stopped-eq State.not_built h = absurd (false≢true h)
is_stopped-eq State.stopped h = refl
is_stopped-eq State.starting h = absurd (false≢true h)
is_stopped-eq State.running h = absurd (false≢true h)
is_stopped-eq State.stopping h = absurd (false≢true h)
is_stopped-eq State.failed h = absurd (false≢true h)

not_locked : (b : Bool) → not b ≡ true → b ≡ false
not_locked b h = ground arith

module _ (fs : FileSystem) (systemd : Systemd) (exists : Text → Bool) where
  open systemd use {Units}

  check_stopped-ok :
      (units : Units) (name : Text) (w : Workspace)
      → check_stopped fs systemd exists units name w ≡ ok tt
      → state_for systemd exists units name w ≡ ok stopped
  check_stopped-ok units name w h =
      let (state, observed, only) = bind-eq-ok _ _ h in
      observed ∙ ap ok (is_stopped-eq state (ensure-eq-ok _ _ only))

  -- What holds when the images are removed.
  abbrev pub IsReady : Registry → Text → Workspace → Units → Type 0
  IsReady r name w units =
      (workspace r name ≡ ok w)
      × (fs.is_locked name ≡ false)
      × (state_for systemd exists units name w ≡ ok stopped)

  reset_checks-ok :
      (r : Registry) (name : Text) (home nix_store : Bool) (units locked_units : Units)
      {w : Workspace}
      → reset_checks fs systemd exists r name home nix_store units locked_units ≡ ok w
      → IsReady r name w locked_units
  unfolding reset_checks
  reset_checks-ok r name home nix_store units locked_units {w = w} h =
      let (_, h₁) = seq-eq-ok _ _ h in
      let (w', found, h₂) = bind-eq-ok _ _ h₁ in
      let (_, h₃) = seq-eq-ok _ _ h₂ in
      let (_, h₄) = seq-eq-ok _ _ h₃ in
      let (unlocked, h₅) = seq-eq-ok _ _ h₄ in
      let (still, same) = seq-eq-ok _ _ h₅ in
      let e : w' ≡ w = cc in
      (
        rw (← e) (with_context-eq-ok _ _ found),
        not_locked _ (ensure-eq-ok _ _ unlocked),
        rw (← e) (check_stopped-ok locked_units name w' still),
      )

  destroy_checks-ok :
      (r : Registry) (name : Text) (locked_units : Units) {w : Workspace}
      → destroy_checks fs systemd exists r name locked_units ≡ ok w
      → IsReady r name w locked_units
  unfolding destroy_checks
  destroy_checks-ok r name locked_units {w = w} h =
      let (w', found, h₁) = bind-eq-ok _ _ h in
      let (unlocked, h₂) = seq-eq-ok _ _ h₁ in
      let (still, same) = seq-eq-ok _ _ h₂ in
      let e : w' ≡ w = cc in
      (
        rw (← e) (with_context-eq-ok _ _ found),
        not_locked _ (ensure-eq-ok _ _ unlocked),
        rw (← e) (check_stopped-ok locked_units name w' still),
      )

  kept_by_reset :
      (r : Registry) (name : Text) (w : Workspace) (home nix_store : Bool)
      (units locked_units : Units) (images : Images) (d f : Text)
      → workspace r name ≡ ok w
      → Differs (fs.directory name) w.storage.home.image d f
      → Differs (fs.directory name) w.storage.nix_store.image d f
      → (reset_workspace fs systemd exists r name home nix_store units locked_units images).1 d f
        ≡ images d f
  unfolding reset_workspace
  kept_by_reset r name w home nix_store units locked_units images d f found not_home not_store =
      elim (Result-cases
        (reset_checks fs systemd exists r name home nix_store units locked_units)) [
          | inl (w', e) ↦
              let same : w ≡ w' =
                cc ((reset_checks-ok r name home nix_store units locked_units e).0) in
              rw e (
                remove_selected-other fs (fs.directory name) _ [] images d f
                  (rw (← same) not_home, (rw (← same) not_store, tt)))
          | inr (failure, e) ↦ rw e refl
        ]

  -- Whatever a reset is asked to remove and however it ends, in a valid registry the Project Volume of the workspace is
  -- there afterwards if and only if it was there before, and so is every file in each directory but the one that the
  -- workspace's path leads to.
  pub reset_workspace-keeps :
      (r : Registry) (name : Text) (w : Workspace)
      → Validate.validate r ≡ ok tt
      → workspace r name ≡ ok w
      → (home nix_store : Bool) (units locked_units : Units) (images : Images)
      → ((reset_workspace fs systemd exists r name home nix_store units locked_units images).1
            (fs.directory name)
            w.storage.project.image
          ≡ images (fs.directory name) w.storage.project.image)
        × ((d f : Text)
            → d ≢ fs.directory name
            → (reset_workspace fs systemd exists r name home nix_store units locked_units images).1
                d f
              ≡ images d f)
  reset_workspace-keeps r name w v found home nix_store units locked_units images =
      let (not_home, not_store) = images_apart r name w v found in
      (
        kept_by_reset r name w home nix_store units locked_units images (fs.directory name)
            w.storage.project.image found (inr not_home) (inr not_store),
        λ d f ne.
            kept_by_reset r name w home nix_store units locked_units images d f found (inl ne)
              (inl ne),
      )

  -- If a reset ends without an error, the workspace is configured, its lock was free and its unit was
  -- stopped when the lock was held, and each image that was selected is gone from the directory that its path leads to.
  pub reset_workspace-removes :
      (r : Registry) (name : Text) (home nix_store : Bool) (units locked_units : Units)
      (images : Images) (labels : List Text) (final : Images)
      → reset_workspace fs systemd exists r name home nix_store units locked_units images
        ≡ (ok labels, final)
      → (w : Workspace) × IsReady r name w locked_units
        × ((home ≡ true → final (fs.directory name) w.storage.home.image ≡ false)
            × (nix_store ≡ true → final (fs.directory name) w.storage.nix_store.image ≡ false))
  unfolding reset_workspace
  reset_workspace-removes r name home nix_store units locked_units images labels final h =
      elim (Result-cases
        (reset_checks fs systemd exists r name home nix_store units locked_units)) [
          | inl (w, e) ↦
              let removed =
                ap (reset_checked fs systemd exists name home nix_store images) (sym e) ∙ h in
              let gone =
                remove_selected-gone fs (fs.directory name) _ [] images labels final removed in
              (w, reset_checks-ok r name home nix_store units locked_units e, (gone.0, gone.1.0))
          | inr (failure, e) ↦
              let removed =
                ap (reset_checked fs systemd exists name home nix_store images) (sym e) ∙ h in
              let clash : ◌≡◌ {A = Result LifecycleError (List Text)} (err failure) (ok labels) =
                ap (λ (o : Result LifecycleError (List Text) × Images). o.0) removed in
              cc
        ]

  -- The destruction of a Project Volume touches no other file, however it ends. If it ends without an
  -- error, the lock was free, the unit was stopped when the lock was held, and the volume is gone.
  pub destroy_project_volume_lem :
      (r : Registry) (name : Text) (w : Workspace)
      → workspace r name ≡ ok w
      → (locked_units : Units) (images : Images)
      → ((d f : Text)
          → Differs (fs.directory name) w.storage.project.image d f
          → (destroy_project_volume fs systemd exists r name locked_units images).1 d f
            ≡ images d f)
        × ((destroy_project_volume fs systemd exists r name locked_units images).0 ≡ ok tt
            → IsReady r name w locked_units
              × ((destroy_project_volume fs systemd exists r name locked_units images).1
                    (fs.directory name)
                    w.storage.project.image
                  ≡ false))
  unfolding destroy_project_volume
  destroy_project_volume_lem r name w found locked_units images =
      elim (Result-cases (destroy_checks fs systemd exists r name locked_units)) [
        | inl (w', e) ↦
            let ready = destroy_checks-ok r name locked_units e in
            let same : w ≡ w' = cc (ready.0) in
            rw e (
              rw (← same) (
                λ d f ne.
                    remove_file-other fs (fs.directory name) w.storage.project.image images d f ne,
                λ done. (
                  rw same ready,
                  remove_file-ok fs (fs.directory name) w.storage.project.image images
                      (with_context-eq-ok _ _ done),
                ),
              ))
        | inr (failure, e) ↦ rw e (λ d f ne. refl, λ done. absurd (cc))
      ]
