-- ===== src/Lifecycle/Units/Outcomes.antt =====
-- What holds of systemd when `start_workspace` and `stop_workspace` report success, and what they
-- leave alone when they do not.
use seter.Prelude.{
  ◌≡◌, refl, ap, ◌⊎◌, inl, inr, Bool, true, false, Result, ok, err, ensure, with_context-eq-ok,
  ensure-eq-ok, and_then,
}
use seter.Prelude.Text.{Text, text}
use seter.Registry.{Registry, Workspace}
use seter.Registry.Select.{workspace}
use seter.Lifecycle.{
  State, not_built, stopped, starting, running, stopping, failed, LifecycleError, did_not_start,
  did_not_stop, Systemd, state_for, vm_unit, runtime_unit,
}
use seter.Lifecycle.Runner.{RunnerFiles, validate_runner}
use seter.Lifecycle.Units.{
  is_up, is_down, Outcome, run_systemctl, observe, start_validated, start_from, start_workspace,
  stop_unit, stop_from, stop_workspace,
}

module _ (systemd : Systemd) (files : RunnerFiles) (allow_non_store : Bool) where
  open systemd use {Units, command}

  -- A read that succeeded, and a step that succeeded.
  observe-ok :
      {A : Type 0} (m : Result LifecycleError A) (units : Units)
      (next : A → Outcome systemd files allow_non_store) (final : Units)
      → observe systemd files allow_non_store m units next ≡ (ok tt, final)
      → (a : A) × (m ≡ ok a) × (next a ≡ (ok tt, final))
  observe-ok (ok a) units next final h = (a, refl, h)
  observe-ok (err e) units next final h =
      let clash : ◌≡◌ {A = Result LifecycleError (Unit {0})} (err e) (ok tt) =
        ap (λ (o : Outcome systemd files allow_non_store). o.0) h in
      cc

  and_then-ok :
      (first : Outcome systemd files allow_non_store)
      (next : Unit {0} → Units → Outcome systemd files allow_non_store) (final : Units)
      → and_then first next ≡ (ok tt, final)
      → (first.0 ≡ ok tt) × (next tt first.1 ≡ (ok tt, final))
  unfolding and_then
  and_then-ok (ok tt, units) next final h = (refl, h)
  and_then-ok (err e, units) next final h =
      let clash : ◌≡◌ {A = Result LifecycleError (Unit {0})} (err e) (ok tt) =
        ap (λ (o : Outcome systemd files allow_non_store). o.0) h in
      cc

  -- The workspace is up: systemd says that it is running or starting.
  abbrev pub IsUp : Text → Workspace → Units → Type 0
  IsUp name w units =
      (state : State) × (state_for systemd files.exists units name w ≡ ok state)
      × (is_up state ≡ true)

  abbrev pub IsDown : Text → Workspace → Units → Type 0
  IsDown name w units =
      (state : State) × (state_for systemd files.exists units name w ≡ ok state)
      × (is_down state ≡ true)

  failed_result :
      {e : LifecycleError} {units final : Units}
      → ◌≡◌ {A = Outcome systemd files allow_non_store} (err e, units) (ok tt, final)
      → ⊥
  failed_result {e = e} h =
      let clash : ◌≡◌ {A = Result LifecycleError (Unit {0})} (err e) (ok tt) =
        ap (λ (o : Outcome systemd files allow_non_store). o.0) h in
      cc

  same_units :
      {units final : Units}
      → ◌≡◌ {A = Outcome systemd files allow_non_store} (ok tt, units) (ok tt, final)
      → units ≡ final
  same_units h = ap (λ (o : Outcome systemd files allow_non_store). o.1) h

  checked :
      (b : Bool) (e : LifecycleError) (units final : Units)
      → ◌≡◌ {A = Outcome systemd files allow_non_store} (ensure b e, units) (ok tt, final)
      → (b ≡ true) × (units ≡ final)
  checked b e units final h = (
    ensure-eq-ok b e (ap (λ (o : Outcome systemd files allow_non_store). o.0) h),
    ap (λ (o : Outcome systemd files allow_non_store). o.1) h,
  )

  -- The last check of both commands.
  settled :
      (name : Text) (w : Workspace) (test : State → Bool) (failure : State → LifecycleError)
      (units final : Units)
      → observe systemd files allow_non_store
          (state_for systemd files.exists units name w)
          units
          (λ state. (ensure (test state) (failure state), units))
        ≡ (ok tt, final)
      → (state : State) × (state_for systemd files.exists final name w ≡ ok state)
        × (test state ≡ true)
  settled name w test failure units final h =
      let (state, observed, h') =
        observe-ok (state_for systemd files.exists units name w) units
          (λ state. (ensure (test state) (failure state), units)) final h in
      let (passed, same) = checked (test state) (failure state) units final h' in
      (state, rw (← same) observed, passed)

  abbrev pub IsValidRunner : Workspace → Type 0
  IsValidRunner w = validate_runner files allow_non_store w.runner.path w.runner.identity ≡ ok tt

  start_validated-ok :
      (name : Text) (w : Workspace) (units final : Units)
      → start_validated systemd files allow_non_store name w units ≡ (ok tt, final)
      → IsValidRunner w × IsUp name w final
  unfolding start_validated
  start_validated-ok name w units final h =
      let (valid, runner, h₁) = observe-ok _ units _ final h in
      let (started, h₂) = and_then-ok _ _ final h₁ in
      let started_units =
        (run_systemctl systemd files allow_non_store (text "start") (vm_unit name) units).1 in
      (with_context-eq-ok _ _ runner, settled name w is_up did_not_start started_units final h₂)

  start_from-ok :
      (name : Text) (w : Workspace) (state : State) (units final : Units)
      → state_for systemd files.exists units name w ≡ ok state
      → start_from systemd files allow_non_store name w state units ≡ (ok tt, final)
      → ((is_up state ≡ true) ⊎ IsValidRunner w) × IsUp name w final
  start_from-ok name w not_built units final observed h = absurd (failed_result h)
  start_from-ok name w stopped units final observed h =
      let (valid, up) = start_validated-ok name w units final h in (inr valid, up)
  start_from-ok name w starting units final observed h =
      (inl refl, (starting, rw (← same_units h) observed, refl))
  start_from-ok name w running units final observed h =
      (inl refl, (running, rw (← same_units h) observed, refl))
  start_from-ok name w stopping units final observed h = absurd (failed_result h)
  start_from-ok name w failed units final observed h =
      let (cleared, h₁) = and_then-ok _ _ final h in
      let (valid, up) = start_validated-ok name w _ final h₁ in (inr valid, up)

  -- If `start_workspace` reports success, the workspace is configured and, as systemd says in its
  -- final state, running or starting; and unless it was already so, its Runner has been validated.
  pub start_workspace-IsUp :
      (r : Registry) (name : Text) (units final : Units)
      → start_workspace systemd files allow_non_store r name units ≡ (ok tt, final)
      → (w : Workspace) × (workspace r name ≡ ok w)
        × (IsUp name w units ⊎ IsValidRunner w)
        × IsUp name w final
  unfolding start_workspace
  start_workspace-IsUp r name units final h =
      let (w, found, h₁) = observe-ok _ units _ final h in
      let (state, observed, h₂) = observe-ok _ units _ final h₁ in
      let (why, up) = start_from-ok name w state units final observed h₂ in
      (
        w,
        with_context-eq-ok _ _ found,
        elim why [ inl already ↦ inl (state, observed, already) | inr valid ↦ inr valid ],
        up,
      )

  stop_from-ok :
      (name : Text) (w : Workspace) (b : Bool) (units final : Units)
      → stop_from systemd files allow_non_store name w b units ≡ (ok tt, final)
      → (b ≡ true) ⊎ IsDown name w final
  unfolding stop_unit
  stop_from-ok name w true units final h = inl refl
  stop_from-ok name w false units final h =
      let (vm, h₁) = and_then-ok _ _ final h in
      let (runtime, h₂) = and_then-ok _ _ final h₁ in
      let without_vm =
        (run_systemctl systemd files allow_non_store (text "stop") (vm_unit name) units).1 in
      let without_both =
        (run_systemctl systemd files allow_non_store (text "stop") (runtime_unit name)
          without_vm).1 in
      inr (settled name w is_down did_not_stop without_both final h₂)

  -- If `stop_workspace` reports success, the workspace is configured and, as systemd says, stopped or
  -- not deployed: in its final state, or already before.
  pub stop_workspace-IsDown :
      (r : Registry) (name : Text) (units final : Units)
      → stop_workspace systemd files allow_non_store r name units ≡ (ok tt, final)
      → (w : Workspace) × (workspace r name ≡ ok w) × (IsDown name w units ⊎ IsDown name w final)
  unfolding stop_workspace
  stop_workspace-IsDown r name units final h =
      let (w, found, h₁) = observe-ok _ units _ final h in
      let (state, observed, h₂) = observe-ok _ units _ final h₁ in
      (
        w,
        with_context-eq-ok _ _ found,
        elim (stop_from-ok name w (is_down state) units final h₂) [
          | inl already ↦ inl (state, observed, already)
          | inr down ↦ inr down
        ],
      )
