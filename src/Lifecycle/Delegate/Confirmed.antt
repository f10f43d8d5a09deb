-- ===== src/Lifecycle/Delegate/Confirmed.antt =====
-- What a reset and a destruction do without a confirmation.
use seter.Prelude.{
  ◌≡◌, refl, Bool, true, false, ◌++◌, Result, ok, err, and_then, seq-eq-ok, bind-eq-ok,
  ensure-eq-ok, with_context-eq-ok,
}
use seter.Prelude.Eq.{list_beq_iff, nat_eq, list_eq}
use seter.Prelude.Text.{Text, text, trim}
use seter.Lifecycle.{LifecycleError}
use seter.Lifecycle.Privileged.{Platform, World, Outcome}
use seter.Lifecycle.Delegate.{Terminal, Caller, confirm, reset, destroy_project}

-- The user typed the words at a terminal.
abbrev pub IsTyped : Terminal → Text → Type 0
IsTyped terminal words =
    (terminal.is_terminal ≡ true)
    × (answer : Text) × (terminal.line ≡ ok answer)
    × (trim answer ≡ words)

confirm-IsTyped :
    (terminal : Terminal) (words : Text)
    → confirm terminal false words ≡ ok tt
    → IsTyped terminal words
unfolding confirm
confirm-IsTyped terminal words h =
    let (interactive, h₁) = seq-eq-ok _ _ h in
    let (answer, found, same) = bind-eq-ok _ _ h₁ in
    (
      ensure-eq-ok _ _ interactive,
      answer,
      with_context-eq-ok _ _ found,
      (list_beq_iff (trim answer) words).0 (ensure-eq-ok _ _ same),
    )

-- An operation ends with an error and changes nothing.
abbrev pub IsRefused : (platform : Platform) → Outcome platform → World platform → Type 0
IsRefused platform outcome w = (e : LifecycleError) × (outcome ≡ (err e, w))

refused :
    (platform : Platform) (m : Result LifecycleError (Unit {0}))
    (next : Unit {0} → World platform → Outcome platform) (w : World platform)
    → ¬ (m ≡ ok tt)
    → IsRefused platform (and_then (m, w) next) w
unfolding and_then
refused platform (ok tt) next w n = absurd (n refl)
refused platform (err e) next w n = (e, refl)

pub data Deletion : Type 0 where
  storage : Bool → Bool → Deletion
  project : Deletion

abbrev pub phrase : Deletion → Text → Text
phrase (storage home nix_store) name = name
phrase project name = text "destroy " ++ name

module _ (platform : Platform) (caller : Caller platform) (name : Text) where
  -- Without `--yes`.
  abbrev pub delete : Deletion → World platform → Outcome platform
  delete (storage home nix_store) = reset platform caller name home nix_store false
  delete project = destroy_project platform caller name false

  -- Without `--yes`, a reset for which the user does not type the name of the workspace at a terminal, and a
  -- destruction for which the user does not type `destroy` and that name, end with an error and change
  -- nothing, also for root.
  pub unconfirmed :
      (d : Deletion) (w : World platform)
      → ¬ IsTyped caller.terminal (phrase d name)
      → IsRefused platform (delete d w) w
  unfolding reset destroy_project
  unconfirmed (storage home nix_store) w untyped = refused platform _ _ w (λ h.
      let (known, typed) = seq-eq-ok _ _ h in untyped (confirm-IsTyped caller.terminal name typed))
  unconfirmed project w untyped = refused platform _ _ w (λ h.
      let (known, typed) = seq-eq-ok _ _ h in
      untyped (confirm-IsTyped caller.terminal (text "destroy " ++ name) typed))
