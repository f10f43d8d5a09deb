-- ===== src/Privilege/Cleared.antt =====
-- What a root process still reads of its environment.
use mathlib.Core.Bool.{false≢true}
use std.Path.{fun_ext}
use seter.Prelude.{
  ◌≡◌, refl, sym, ap, ◌∙◌, ◌⊎◌, inl, inr, true, List, [], ◌∷◌, In, Bool-cases, ensure, ◌>>=◌,
}
use seter.Prelude.Eq.{◌==◌, ==_refl, nat_eq, list_eq}
use seter.Prelude.Text.{Text}
use seter.Privilege.{
  Environment, override_variables, remove_var, remove_all, enter_root_mode, enter_privileged_mode,
}

-- Two environments that give the same value to each variable but those of a list.
abbrev pub Agree : List Text → Environment → Environment → Type 0
Agree variables env env' = (name : Text) → In name variables ⊎ (env name ≡ env' name)

remove_var-Agree :
    (variable : Text) (rest : List Text) (env env' : Environment)
    → Agree (variable ∷ rest) env env'
    → Agree rest (remove_var variable env) (remove_var variable env')
remove_var-Agree variable rest env env' agree name = elim (Bool-cases (name == variable)) [
  | inl same ↦ inr (rw same refl)
  | inr differs ↦ elim (agree name) [
    | inl (inl e) ↦ absurd (false≢true (sym differs ∙ ap (λ n. n == variable) e ∙ ==_refl variable))
    | inl (inr later) ↦ inl later
    | inr e ↦ inr (rw differs e)
  ]
]

pub remove_all-eq :
    (variables : List Text) (env env' : Environment)
    → Agree variables env env'
    → (name : Text) → remove_all variables env name ≡ remove_all variables env' name
unfolding remove_all
remove_all-eq [] env env' agree name = elim (agree name) [ inl member ↦ absurd member | inr e ↦ e ]
remove_all-eq (variable ∷ rest) env env' agree name =
    remove_all-eq rest (remove_var variable env) (remove_var variable env')
      (remove_var-Agree variable rest env env' agree) name

-- What a root process sees after `enter_privileged_mode` does not depend on the override variables.
pub enter_privileged_mode-eq :
    (env env' : Environment)
    → Agree override_variables env env'
    → enter_privileged_mode true env ≡ enter_privileged_mode true env'
unfolding enter_privileged_mode enter_root_mode ◌>>=◌ ensure
enter_privileged_mode-eq env env' agree =
    rw (fun_ext (remove_all-eq override_variables env env' agree)) refl
