-- ===== src/Lifecycle/Privileged/Isolated.antt =====
-- What the environment of a root process can change.
use seter.Prelude.{
  ◌≡◌, refl, ◌∙◌, ap, inl, inr, true, List, [], ◌∷◌, All, In, contains, contains_iff,
}
use seter.Prelude.Eq.{nat_eq, list_eq}
use seter.Prelude.Text.{Text, text}
use seter.Privilege.{Environment, override_variables}
use seter.Privilege.Cleared.{Agree, enter_privileged_mode-eq}
use seter.Lifecycle.Privileged.{Platform, Half, World, run_half}

-- The variables by which a caller could choose what a root process reads or runs: the registry and the state it works
-- on, test mode and the check of the Runner's path, and the programs that take the place of systemctl, ssh-keygen, ssh,
-- sudo, the helper and the Herdr bridge.
abbrev pub controlling_variables : List Text
controlling_variables =
    text "SETER_REGISTRY"
    ∷ text "SETER_STATE_DIR"
    ∷ text "SETER_TEST_MODE"
    ∷ text "SETER_ALLOW_NON_STORE_RUNNER"
    ∷ text "SETER_SYSTEMCTL"
    ∷ text "SETER_SSH_KEYGEN"
    ∷ text "SETER_SSH"
    ∷ text "SETER_SUDO"
    ∷ text "SETER_PRIVILEGED_HELPER"
    ∷ text "SETER_CLIENT_CONFIG"
    ∷ text "SETER_HERDR_SSH_BRIDGE"
    ∷ text "SETER_HERDR_REAL_SSH"
    ∷ []

-- Each of them is cleared.
is_cleared : All (λ name. contains override_variables name ≡ true) controlling_variables
is_cleared = (
  refl,
  (refl, (refl, (refl, (refl, (refl, (refl, (refl, (refl, (refl, (refl, (refl, tt))))))))))),
)

cleared-In :
    (names : List Text)
    → All (λ n. contains override_variables n ≡ true) names
    → (name : Text) → In name names
    → In name override_variables
cleared-In [] cleared name m = absurd m
cleared-In (n ∷ names) (here, cleared) name (inl same) =
    (contains_iff override_variables name).0 (ap (contains override_variables) same ∙ here)
cleared-In (n ∷ names) (here, cleared) name (inr m) = cleared-In names cleared name m

controlled-Agree :
    (env env' : Environment)
    → Agree controlling_variables env env'
    → Agree override_variables env env'
controlled-Agree env env' agree name = elim (agree name) [
  | inl m ↦ inl (cleared-In controlling_variables is_cleared name m)
  | inr same ↦ inr same
]

-- For root, what a privileged half does and how it ends is the same in two environments that differ only in
-- controlling variables, whatever programs, files and registry these name.
pub run_half-Agree :
    (platform : Platform) (env env' : Environment)
    → Agree controlling_variables env env'
    → (half : Half) (w : World platform)
    → run_half platform true env half w ≡ run_half platform true env' half w
unfolding run_half
run_half-Agree platform env env' agree (Half.start name) w =
    rw (enter_privileged_mode-eq env env' (controlled-Agree env env' agree)) refl
run_half-Agree platform env env' agree (Half.stop name) w =
    rw (enter_privileged_mode-eq env env' (controlled-Agree env env' agree)) refl
run_half-Agree platform env env' agree (Half.reset name home nix_store) w =
    rw (enter_privileged_mode-eq env env' (controlled-Agree env env' agree)) refl
run_half-Agree platform env env' agree (Half.destroy name) w =
    rw (enter_privileged_mode-eq env env' (controlled-Agree env env' agree)) refl
run_half-Agree platform env env' agree Half.collect w =
    rw (enter_privileged_mode-eq env env' (controlled-Agree env env' agree)) refl
