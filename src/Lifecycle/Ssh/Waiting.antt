-- ===== src/Lifecycle/Ssh/Waiting.antt =====
-- When waiting for the SSH server of a workspace succeeds.
use mathlib.Core.Bool.{false≢true}
use seter.Prelude.{
  eqb, eqb_iff, ℕ, zero, suc, ◌+◌, ◌≤◌, ◌<◌, ◌≡◌, refl, sym, ap, ◌∙◌, ◌↔◌, inl, inr, Bool, true,
  false, Result, ok, ensure, ◌>>=◌, Bool-cases, bind-eq-ok, seq-eq-ok, ensure-eq-ok, err-not-ok,
  arith,
}
use seter.Lifecycle.{State, LifecycleError}
use seter.Lifecycle.Units.{is_up}
use seter.Lifecycle.Ssh.{wait_from, wait_for_ssh}

module _ (connects : ℕ → Bool) (state_at : ℕ → Result LifecycleError State) where
  -- In a round no connection opens, and the workspace is up.
  abbrev pub IsPending : ℕ → Type 0
  IsPending j = (connects j ≡ false) × (s : State) × (state_at j ≡ ok s) × (is_up s ≡ true)

  -- A connection opens in a round from `round` on and before `last`, and the rounds before it are pending.
  abbrev pub OpensBetween : ℕ → ℕ → Type 0
  OpensBetween round last =
      (i : ℕ) × (round ≤ i)
      × (i < last)
      × (connects i ≡ true)
      × ((j : ℕ) → round ≤ j → j < i → IsPending j)

  opens-now : (round rounds : ℕ) → connects round ≡ true → OpensBetween round (round + suc rounds)
  opens-now round rounds opened =
      (round, omega arith, omega arith, opened, λ j from before. absurd (omega arith))

  opens-later :
      (round rounds : ℕ)
      → IsPending round
      → OpensBetween (suc round) (suc round + rounds)
      → OpensBetween round (round + suc rounds)
  opens-later round rounds pending (i, from, before, opened, earlier) = (
    i,
    omega arith,
    omega arith,
    opened,
    λ j from_j before_j. elim (Bool-cases (eqb round j)) [
      | inl same ↦ let e : round ≡ j = (eqb_iff round j).0 same in rw (← e) pending
      | inr other ↦ earlier j (ground arith) before_j
    ],
  )

  wait_from-OpensBetween :
      (rounds round : ℕ)
      → wait_from connects state_at rounds round ≡ ok tt
      → OpensBetween round (round + rounds)
  unfolding wait_from
  wait_from-OpensBetween zero round h = absurd (err-not-ok h)
  wait_from-OpensBetween (suc rounds) round h = elim (Bool-cases (connects round)) [
    | inl opened ↦ opens-now round rounds opened
    | inr shut ↦
        let h₁ = rw shut at h in
        let (s, known, h₂) = bind-eq-ok _ _ h₁ in
        let (up, h₃) = seq-eq-ok _ _ h₂ in
        opens-later round rounds (shut, s, known, ensure-eq-ok _ _ up)
          (wait_from-OpensBetween rounds (suc round) h₃)
  ]

  wait_from-opens :
      (rounds round : ℕ)
      → OpensBetween round (round + rounds)
      → wait_from connects state_at rounds round ≡ ok tt
  unfolding wait_from ensure ◌>>=◌
  wait_from-opens zero round (i, from, before, opened, earlier) = absurd (omega arith)
  wait_from-opens (suc rounds) round (i, from, before, opened, earlier) =
      elim (Bool-cases (connects round)) [
        | inl now ↦ rw now refl
        | inr shut ↦
            let later : round < i = elim (Bool-cases (eqb round i)) [
              | inl same ↦
                  let e : round ≡ i = (eqb_iff round i).0 same in
                  absurd (false≢true (sym shut ∙ ap connects e ∙ opened))
              | inr other ↦ ground arith
            ] in
            let (refused, s, known, up) = earlier round (omega arith) later in
            rw (shut, known, up)
              (wait_from-opens rounds (suc round) (
                i,
                omega arith,
                omega arith,
                opened,
                λ j from_j before_j. earlier j (omega arith) before_j,
              ))
      ]

  -- `wait_for_ssh` succeeds if and only if a connection opens in one of its rounds and until then the workspace
  -- is found starting or running.
  pub wait_for_ssh_iff :
      (rounds : ℕ) → (wait_for_ssh connects state_at rounds ≡ ok tt) ↔ OpensBetween 0 rounds
  unfolding wait_for_ssh
  wait_for_ssh_iff rounds =
      let e : 0 + rounds ≡ rounds = omega arith in
      (
        λ h. let between = wait_from-OpensBetween rounds 0 h in rw e at between,
        λ between. wait_from-opens rounds 0 (rw e between),
      )
