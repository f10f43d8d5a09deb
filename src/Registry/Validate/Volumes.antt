-- ===== src/Registry/Validate/Volumes.antt =====
-- The storage and the checkouts of each workspace of a validated registry.
use seter.Prelude.{
  ◌<◌, ◌≡◌, ◌≢◌, true, false, List, [], ◌∷◌, In, All, ok, with_context-eq-ok, bind-eq-ok, seq-eq-ok,
  ensure-eq-ok, arith, Option, none, some,
}
use seter.Prelude.Eq.{list_eq, nat_eq, list_beq_iff}
use seter.Prelude.Loops.{Distinct, try_fold-Distinct, try_fold-All}
use seter.Prelude.Text.{Text, text, contains_char}
use seter.Prelude.Map.{Map, contains_key}
use seter.Registry.{Registry, Workspace, Repository, Volume, Storage}
use seter.Registry.Url.{valid_component_name}
use seter.Registry.Validate.{
  Seen, unseen, volumes, validate_volume, validate_storage, validate_repository,
  validate_repositories, validate_default, validate_workspace, validate,
}
use seter.Registry.Validate.Unique.{insert_unique-ok, validate_workspace-ok, rounds_of_validate}

-- A file name that names an entry of the directory itself.
pub record IsFileName (s : Text) : Type 0 where
  pub no_slash : contains_char b'/' s ≡ false
  pub not_self : s ≢ text "."
  pub not_parent : s ≢ text ".."

abbrev pub image : Text × Volume → Text
image v = v.1.image

-- The images of a workspace are distinct file names of volumes that are not empty.
pub record HasSoundStorage (s : Storage) : Type 0 where
  pub distinct : Distinct image (volumes s)
  pub names : All (λ v. IsFileName (image v) × (0 < v.1.size_mi_b)) (volumes s)

validate_volume-ok :
    (name : Text) (images : List Text) (v : Text × Volume) {images' : List Text}
    → validate_volume name images v ≡ ok images'
    → (IsFileName (image v) × (0 < v.1.size_mi_b))
      × ((¬ In (image v) images) × (images' ≡ image v ∷ images))
unfolding validate_volume
validate_volume-ok name images (label, v) h =
    let (shape, h₁) = seq-eq-ok _ _ h in
    let (size, h₂) = seq-eq-ok _ _ h₁ in
    let shape' = ensure-eq-ok _ _ shape in
    let size' = ensure-eq-ok _ _ size in
    (
      (
        record {
          no_slash = ground (arith, shape');
          not_self = λ e. ground (arith, shape', (list_beq_iff v.image (text ".")).1 e);
          not_parent = λ e. ground (arith, shape', (list_beq_iff v.image (text "..")).1 e);
        },
        ground (arith, size'),
      ),
      insert_unique-ok _ _ _ h₂,
    )

validate_storage-ok :
    (name : Text) (w : Workspace) → validate_storage name w ≡ ok tt → HasSoundStorage w.storage
unfolding validate_storage
validate_storage-ok name w h =
    let (images, folded, _) = bind-eq-ok _ _ h in
    record {
      distinct =
          try_fold-Distinct (validate_volume name) (λ s. s) image
            (λ s v s' k. (validate_volume-ok name s v k).1) [] (volumes w.storage) folded;
      names =
          try_fold-All (validate_volume name) _ (λ s v s' k. (validate_volume-ok name s v k).0) []
            (volumes w.storage) folded;
    }

-- The checkout names of a workspace are distinct valid components, and so are its repository keys;
-- a default repository is one of them.
pub record HasSoundRepositories (w : Workspace) : Type 0 where
  pub distinct : Distinct (λ (e : Text × Repository). e.1.checkout_name) w.repositories
  pub names :
      All
        (λ (e : Text × Repository).
          (valid_component_name e.0 ≡ true) × (valid_component_name e.1.checkout_name ≡ true))
        w.repositories
  pub some_repository : w.repositories ≢ []
  pub default : (k : Text) → w.default_repository ≡ some k → contains_key k w.repositories ≡ true

validate_repository-ok :
    (checkouts : List Text) (e : Text × Repository) {checkouts' : List Text}
    → validate_repository checkouts e ≡ ok checkouts'
    → ((valid_component_name e.0 ≡ true) × (valid_component_name e.1.checkout_name ≡ true))
      × ((¬ In e.1.checkout_name checkouts) × (checkouts' ≡ e.1.checkout_name ∷ checkouts))
unfolding validate_repository
validate_repository-ok checkouts (name, r) h =
    let (key, h₁) = seq-eq-ok _ _ h in
    let (checkouts₁, inserted, h₂) = bind-eq-ok _ _ h₁ in
    let (source, h₃) = seq-eq-ok _ _ h₂ in
    let (checkout, h₄) = seq-eq-ok _ _ h₃ in
    let (branch, h₅) = seq-eq-ok _ _ h₄ in
    let (credential, h₆) = seq-eq-ok _ _ h₅ in
    let (new, grown) = insert_unique-ok _ _ _ inserted in
    ((ensure-eq-ok _ _ key, ensure-eq-ok _ _ checkout), (new, cc))

default_registered :
    (name : Text) (m : Map Repository) (d : Option Text)
    → validate_default name m d ≡ ok tt
    → (k : Text) → d ≡ some k
    → contains_key k m ≡ true
default_registered name m none h k e = cc
default_registered name m (some j) h k e = let same : j ≡ k = cc in rw (← same) (ensure-eq-ok _ _ h)

validate_repositories-ok :
    (name : Text) (w : Workspace) → validate_repositories name w ≡ ok tt → HasSoundRepositories w
unfolding validate_repositories
validate_repositories-ok name w h =
    let (profile, h₁) = seq-eq-ok _ _ h in
    let (nonempty, h₂) = seq-eq-ok _ _ h₁ in
    let (default, h₃) = seq-eq-ok _ _ h₂ in
    let (checkouts, folded, _) = bind-eq-ok _ _ h₃ in
    record {
      distinct =
          try_fold-Distinct _ (λ s. s) (λ (e : Text × Repository). e.1.checkout_name)
            (λ s e s' k. (validate_repository-ok s e (with_context-eq-ok _ _ k)).1) []
            w.repositories folded;
      names =
          try_fold-All _ _ (λ s e s' k. (validate_repository-ok s e (with_context-eq-ok _ _ k)).0)
            [] w.repositories folded;
      some_repository = λ e. cc (ensure-eq-ok _ _ nonempty);
      default = default_registered name w.repositories w.default_repository default;
    }

-- In a registry that `validate` accepts, each workspace has at least one repository, its default
-- repository is registered, its repository keys and checkout names are valid component names, no
-- checkout name is used twice, and its three volumes have distinct images, each a plain file name
-- and of a size above zero.
pub validate-HasSound :
    (r : Registry)
    → validate r ≡ ok tt
    → All
        (λ (e : Text × Workspace). HasSoundRepositories e.1 × HasSoundStorage e.1.storage)
        r.workspaces
validate-HasSound r h =
    let folded = (rounds_of_validate r h).1.1 in
    try_fold-All validate_workspace _ sound unseen r.workspaces folded
  where
    sound :
        (s : Seen) (e : Text × Workspace) (s' : Seen)
        → validate_workspace s e ≡ ok s'
        → HasSoundRepositories e.1 × HasSoundStorage e.1.storage
    sound s (name, w) s' k =
        let parts = validate_workspace-ok s name w k in
        (validate_repositories-ok name w parts.0, validate_storage-ok name w parts.3)
