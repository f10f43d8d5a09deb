-- ===== src/Lifecycle/Sessions/Bootstrapped.antt =====
-- Which repositories `init` bootstraps, and its exit code.
use seter.Prelude.{
  ℕ, ◌≡◌, sym, ap, ◌∙◌, Bool, false, not, ◌&&◌, ◌||◌, Option, some, List, [], ◌∷◌, all, ok,
  context-eq-ok, bind-eq-ok, and_then-eq-ok, and_then-steps, pair-eq, ok_inj, if◌then◌else◌, arith,
  seq-eq-ok,
}
use seter.Prelude.Text.{Text}
use seter.Prelude.Map.{Map}
use seter.Registry.{Workspace, Repository}
use seter.Shell.{bootstrap_remote_command}
use seter.Lifecycle.Privileged.{Platform, World}
use seter.Lifecycle.Delegate.{Caller, up}
use seter.Lifecycle.Ssh.{SshSession}
use seter.Lifecycle.Sessions.{
  Guest, is_success, find_workspace, connect_to, run_ssh, selected, bootstraps, init_code, init,
}

or_not : (a b c : Bool) → ((a || not b) || not c) ≡ (a || not (b && c))
or_not a b c = ground arith

code-all : (b : Bool) → init_code (not b) ≡ (if b then 0 else 1)
code-all b = ground arith

module _ (platform : Platform) (caller : Caller platform) (guest : Guest platform) where
  -- One bootstrap after the other, in one session, with what each of them came to.
  pub data Bootstraps (session : SshSession)
      : World platform → Map Repository → List Bool → World platform → Type 0 where
    finished : {world : World platform} → Bootstraps session world [] [] world
    attempted :
        {world world₁ final : World platform} {key : Text} {repository : Repository}
        {rest : Map Repository} {remote : Text} {status : Option ℕ} {outcomes : List Bool}
        → bootstrap_remote_command guest.script guest.local_script repository ≡ some remote
        → run_ssh platform caller guest session false remote world ≡ (ok status, world₁)
        → Bootstraps session world₁ rest outcomes final
        → Bootstraps session world ((key, repository) ∷ rest) (is_success status ∷ outcomes) final

  ends_at :
      {session : SshSession} {world a b : World platform} {repositories : Map Repository}
      {outcomes : List Bool}
      → a ≡ b
      → Bootstraps session world repositories outcomes a
      → Bootstraps session world repositories outcomes b
  ends_at e steps = rw (← e) steps

  bootstraps-Bootstraps :
      (session : SshSession) (repositories : Map Repository) (failed_before any_failed : Bool)
      (world final : World platform)
      → bootstraps platform caller guest session repositories failed_before world
        ≡ (ok any_failed, final)
      → (outcomes : List Bool) × Bootstraps session world repositories outcomes final
        × (any_failed ≡ (failed_before || not (all (λ b. b) outcomes)))
  unfolding bootstraps
  bootstraps-Bootstraps session [] failed_before any_failed world final h =
      let (same_flag, same) = pair-eq h in
      ([], rw (← same) finished, sym (ok_inj same_flag) ∙ ground arith)
  bootstraps-Bootstraps session ((key, repository) ∷ rest) failed_before any_failed world final h =
      let (remote, built, h₁) = and_then-eq-ok _ _ h in
      let (status, world₁, ran, h₂) = and_then-steps _ _ h₁ in
      let (outcomes, later, flag) = bootstraps-Bootstraps session rest _ any_failed _ final h₂ in
      (
        is_success status ∷ outcomes,
        attempted (context-eq-ok _ _ built) ran later,
        flag ∙ or_not failed_before (is_success status) (all (λ b. b) outcomes),
      )

  -- The run of an `init` that ends with an exit code: the repositories that were chosen are bootstrapped one
  -- after the other in a session of the started workspace, and the code tells whether all succeeded.
  pub record IsInitRun (name : Text) (requested : Option Text) (world final : World platform)
      (code : ℕ) : Type 0 where
    pub w : Workspace
    pub repositories : Map Repository
    pub session : SshSession
    pub started : World platform
    pub outcomes : List Bool
    pub known : find_workspace platform caller guest name ≡ ok w
    pub chosen : selected platform caller guest w requested ≡ ok repositories
    pub is_started : up platform caller name world ≡ (ok tt, started)
    pub connected : connect_to platform caller guest name w started ≡ ok session
    pub attempts : Bootstraps session started repositories outcomes final
    pub is_code : code ≡ (if all (λ b. b) outcomes then 0 else 1)

  -- If `init` ends with an exit code, it has started the workspace, opened a session and bootstrapped in it each
  -- chosen repository in turn, also those behind a failed one, and the code is 0 if and only if all succeeded.
  pub init-IsInitRun :
      (name : Text) (requested : Option Text) (world final : World platform) (code : ℕ)
      → init platform caller guest name requested world ≡ (ok code, final)
      → IsInitRun name requested world final code
  unfolding init
  init-IsInitRun name requested world final code h =
      let ((w, repositories), checked, h₁) = and_then-eq-ok _ _ h in
      let (found, known, c₁) = bind-eq-ok _ _ checked in
      let (chosen, selected_by, c₂) = bind-eq-ok _ _ c₁ in
      let (deployed, c₃) = seq-eq-ok _ _ c₂ in
      let e : ◌≡◌ {A = Workspace × Map Repository} (found, chosen) (w, repositories) = ok_inj c₃ in
      let (done, world₁, started, h₂) = and_then-steps _ _ h₁ in
      let (session, connected, h₃) = and_then-eq-ok _ _ h₂ in
      let (any_failed, world₃, looped, h₄) = and_then-steps _ _ h₃ in
      let same_w : found ≡ w = ap (λ p. p.0) e in
      let same_chosen : chosen ≡ repositories = ap (λ p. p.1) e in
      let (outcomes, attempts, flag) =
        bootstraps-Bootstraps session repositories false any_failed _ _ looped in
      let (same_code, same_final) = pair-eq h₄ in
      record {
        w = w;
        repositories = repositories;
        session = session;
        started = world₁;
        outcomes = outcomes;
        known = known ∙ ap ok same_w;
        chosen =
            ap (λ v. selected platform caller guest v requested) (sym same_w)
            ∙ selected_by
            ∙ ap ok same_chosen;
        is_started = started;
        connected = connected;
        attempts = ends_at same_final attempts;
        is_code = sym (ok_inj same_code) ∙ ap init_code flag ∙ code-all (all (λ b. b) outcomes);
      }
