-- ===== src/Client/Host/Running.antt =====
-- When the Lima Host is started, and what is known of it afterwards.
use seter.Prelude.{
  ◌≡◌, ◌⊎◌, ◌↔◌, refl, sym, ap, ◌∙◌, Bool, true, false, Result, ok, err, ensure-eq-ok, bind-eq-ok,
  pair-eq, err-not-ok, inl, inr, ensure, ◌>>=◌,
}
use seter.Prelude.Text.{Text}
use seter.Client.Config.{ClientConfig}
use seter.Client.Host.{ClientError, Lima, Paths, is_running, ensure_running, ensure_from, started}

module _ (paths : Paths) (config : ClientConfig) (lima : Lima) where
  open lima use {Instances, start}

  started-is_running :
      (r : Result Text Bool) (s final : Instances)
      → started paths config lima (r, s) ≡ (ok tt, final)
      → (is_running paths config lima final ≡ ok true) × (r ≡ ok true) × (s ≡ final)
  started-is_running (err e) s final h = absurd (err-not-ok (pair-eq h).0)
  started-is_running (ok false) s final h = absurd (err-not-ok (pair-eq h).0)
  started-is_running (ok true) s final h =
      let (checked, same) = pair-eq h in
      let (up, e, is_up) = bind-eq-ok _ _ checked in
      let e' = e ∙ ap ok (ensure-eq-ok up _ is_up) in
      (ap (is_running paths config lima) (sym same) ∙ e', refl, same)

  -- The instance runs at the end, and either it ran at first and nothing was started, or it did not run
  -- and its start succeeded.
  abbrev pub IsReached : Instances → Instances → Type 0
  IsReached s final =
      (is_running paths config lima final ≡ ok true)
      × ((is_running paths config lima s ≡ ok true) × (s ≡ final)
          ⊎ (is_running paths config lima s ≡ ok false)
            × (start s config.instance_name ≡ (ok true, final)))

  outcome-IsReached :
      (m : Result ClientError Bool) (s final : Instances)
      → is_running paths config lima s ≡ m
      → ensure_from paths config lima m s ≡ (ok tt, final)
      → IsReached s final
  outcome-IsReached (err e) s final known h = absurd (err-not-ok (pair-eq h).0)
  outcome-IsReached (ok true) s final known h =
      let same = (pair-eq h).1 in
      (ap (is_running paths config lima) (sym same) ∙ known, inl (known, same))
  outcome-IsReached (ok false) s final known h =
      let (up, succeeded, same) =
        started-is_running (start s config.instance_name).0 (start s config.instance_name).1 final
          h in
      (
        up,
        inr (
          known,
          ap (λ r. (r, (start s config.instance_name).1)) succeeded ∙ ap (λ t. (ok true, t)) same,
        ),
      )

  -- `ensure_running` succeeds if and only if the instance runs at the end, and either it ran at first and
  -- nothing was started, or it did not run and its start succeeded.
  pub ensure_running_iff :
      (s final : Instances)
      → (ensure_running paths config lima s ≡ (ok tt, final)) ↔ IsReached s final
  unfolding ensure_running ensure ◌>>=◌
  ensure_running_iff s final = (
    outcome-IsReached _ s final refl,
    λ (up, how). elim how [
      | inl (known, same) ↦ rw known (ap (λ t. (ok tt, t)) same)
      | inr (known, succeeded) ↦ rw (known, succeeded, up) refl
    ],
  )
