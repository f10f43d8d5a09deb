-- ===== src/Client/Commands/Delivery.antt =====
-- What the Host's seter reads from the words that the client sends.
use mathlib.Core.Bool.{false≢true}
use seter.Prelude.{
  ◌≡◌, refl, sym, ap, ◌∙◌, Bool, true, false, Option, none, some, List, [], ◌∷◌, ◌++◌, All, Result,
  ok, arith, ok_inj, map, ensure-eq-ok, seq-eq-ok, bind-eq-ok, Bool-cases, inl, inr,
}
use seter.Prelude.Eq.{nat_eq, list_eq}
use seter.Prelude.Text.{Text, text}
use seter.Prelude.Text.Split.{join}
use seter.Cli.{Command, PolicyCommand}
use seter.Cli.Reader.{read_arguments, sort_words, IsOperand}
use seter.Shell.Reader.{word, read}
use seter.Client.Config.{ClientConfig, is_absolute}
use seter.Client.Host.{ClientError, Paths, Lima, policy_path, local_policy_path, join_path}
use seter.Client.Commands.Words.{
  operands, read_init, read_run, read_shell, read_root_shell, read_audit, read_destroy, read_status,
  read_reset,
}
use seter.Client.Commands.{repository_argument, Request, policy_request, translate}

-- An absolute path can stand as a value.
absolute-IsOperand : (p : Text) → is_absolute p ≡ true → IsOperand p
absolute-IsOperand [] h = absurd (false≢true h)
absolute-IsOperand (c ∷ p) h = ground arith

join_path-absolute :
    (base relative : Text) → is_absolute base ≡ true → is_absolute (join_path base relative) ≡ true
join_path-absolute [] relative h = absurd (false≢true h)
join_path-absolute (c ∷ base) relative h = ground arith

-- The command that the Host carries out: the Policy File is named by its path there.
abbrev pub on_host : Text → Command → Command
on_host path (Command.policy (PolicyCommand.policy_review w file)) =
    Command.policy (PolicyCommand.policy_review w path)
on_host path (Command.policy (PolicyCommand.policy_status w file)) =
    Command.policy (PolicyCommand.policy_status w path)
on_host path c = c

abbrev pub policy_file : Command → Option Text
policy_file (Command.policy (PolicyCommand.policy_review w file)) = some file
policy_file (Command.policy (PolicyCommand.policy_status w file)) = some file
policy_file c = none

-- A command that can be given: it has something to run, where it runs something, and a shell does not open both a
-- repository and the root.
abbrev pub IsReadable : Command → Type 0
IsReadable (Command.run w repo []) = ⊥
IsReadable (Command.shell w (some repo) true) = ⊥
IsReadable c = Unit

module _ (paths : Paths) (config : ClientConfig) (interactive : Bool) where
  -- The words are read as the command, with the path that `policy_path` gives for a Policy File.
  abbrev pub IsReadAs : Command → List Text → Type 0
  IsReadAs c words =
      (path : Text) × (read_arguments words ≡ some (on_host path c))
      × ((file : Text) → policy_file c ≡ some file → policy_path paths config file ≡ ok path)

  plainly :
      (c : Command) (r : Request) (words : List Text) (tty starts : Bool)
      → policy_file c ≡ none
      → read_arguments words ≡ some (on_host [] c)
      → ◌≡◌ {A = Result ClientError Request}
          (ok record { arguments = words; tty = tty; starts = starts })
          (ok r)
      → IsReadAs c r.arguments
  plainly c r words tty starts no_file reads h =
      let e : record { arguments = words; tty = tty; starts = starts } ≡ r = ok_inj h in
      (
        [],
        ap (λ (q : Request). read_arguments q.arguments) (sym e) ∙ reads,
        λ file found. let wrong : none ≡ some file = sym no_file ∙ found in cc,
      )

  local_path-IsOperand :
      (file : Text) (directory : Option Text) (path : Text)
      → is_absolute config.exchange_mount ≡ true
      → local_policy_path paths config file directory ≡ ok path
      → IsOperand path
  local_path-IsOperand file none path mount h = cc
  local_path-IsOperand file (some directory) path mount h =
      let (root, _, h₁) = bind-eq-ok _ _ h in
      let (resolved, _, h₂) = bind-eq-ok _ _ h₁ in
      let (relative, _, h₃) = bind-eq-ok _ _ h₂ in
      let e : join_path config.exchange_mount (join (text "/") relative) ≡ path = ok_inj h₃ in
      absolute-IsOperand path (rw (← e) (join_path-absolute config.exchange_mount _ mount))

  located-IsOperand :
      is_absolute config.exchange_mount ≡ true
      → (file path : Text) → policy_path paths config file ≡ ok path
      → IsOperand path
  unfolding policy_path
  located-IsOperand mount file path h = elim (Bool-cases (paths.exists file)) [
    | inl local ↦ local_path-IsOperand file config.exchange_directory path mount (rw local at h)
    | inr remote ↦
        let given = rw remote at h in
        let (absolute, same) = seq-eq-ok _ _ given in
        let e : file ≡ path = ok_inj same in
        absolute-IsOperand path (rw (← e) (ensure-eq-ok _ _ absolute))
  ]

  -- A policy command, with the path that is found for its file.
  policy_words :
      (make : Text → Text → PolicyCommand) (action w file : Text) (tty : Bool) (r : Request)
      → is_absolute config.exchange_mount ≡ true
      → ((path : Text)
          → IsOperand path
          → read_arguments (text "policy" ∷ action ∷ w ∷ text "--file" ∷ path ∷ [])
            ≡ some (Command.policy (make w path)))
      → policy_request paths config interactive action w file tty ≡ ok r
      → (path : Text) × (read_arguments r.arguments ≡ some (Command.policy (make w path)))
        × (policy_path paths config file ≡ ok path)
  policy_words make action w file tty r mount reads h =
      let (path, found, h') = bind-eq-ok _ _ h in
      let e : record {
        arguments = text "policy" ∷ action ∷ w ∷ text "--file" ∷ path ∷ [];
        tty = tty;
        starts = false;
      }
          ≡ r =
        ok_inj h' in
      (
        path,
        ap (λ (q : Request). read_arguments q.arguments) (sym e)
            ∙ reads path (located-IsOperand mount file path found),
        found,
      )

  -- The words that the client sends for a command are read as that command, if what the user chose can
  -- stand as operands and values; a Policy File is named by the path that `policy_path` gives for it.
  pub translate-IsReadAs :
      is_absolute config.exchange_mount ≡ true
      → (c : Command) (r : Request) → All IsOperand (operands c)
      → IsReadable c
      → translate paths config interactive c ≡ ok r
      → IsReadAs c r.arguments
  unfolding translate read_arguments sort_words repository_argument
  translate-IsReadAs mount (Command.init w repo) r plain complete h =
      plainly (Command.init w repo) r _ _ _ refl (read_init w repo plain) h
  translate-IsReadAs mount (Command.up w) r (plain, rest) complete h =
      plainly (Command.up w) r (text "up" ∷ w ∷ []) _ _ refl (rw plain refl) h
  translate-IsReadAs mount (Command.down w) r (plain, rest) complete h =
      plainly (Command.down w) r (text "down" ∷ w ∷ []) _ _ refl (rw plain refl) h
  translate-IsReadAs mount (Command.ip w) r (plain, rest) complete h =
      plainly (Command.ip w) r (text "ip" ∷ w ∷ []) _ _ refl (rw plain refl) h
  translate-IsReadAs mount (Command.ssh_host_key w) r (plain, rest) complete h =
      plainly (Command.ssh_host_key w) r (text "ssh-host-key" ∷ w ∷ []) _ _ refl (rw plain refl) h
  translate-IsReadAs mount (Command.run w repo []) r plain complete h = absurd complete
  translate-IsReadAs mount (Command.run w repo (x ∷ xs)) r plain complete h =
      plainly (Command.run w repo (x ∷ xs)) r _ _ _ refl (read_run w repo x xs plain) h
  translate-IsReadAs mount (Command.shell w (some repo) true) r plain complete h = absurd complete
  translate-IsReadAs mount (Command.shell w (some repo) false) r plain complete h =
      plainly (Command.shell w (some repo) false) r _ _ _ refl (read_shell w (some repo) plain) h
  translate-IsReadAs mount (Command.shell w none false) r plain complete h =
      plainly (Command.shell w none false) r _ _ _ refl (read_shell w none plain) h
  translate-IsReadAs mount (Command.shell w none true) r (plain, rest) complete h =
      plainly (Command.shell w none true) r (text "shell" ∷ w ∷ text "--root" ∷ []) _ _ refl
        (read_root_shell w plain) h
  translate-IsReadAs mount (Command.status w) r plain complete h =
      plainly (Command.status w) r _ _ _ refl (read_status w plain) h
  translate-IsReadAs mount Command.list r plain complete h =
      plainly Command.list r _ _ _ refl refl h
  translate-IsReadAs mount Command.proxy_ca r plain complete h =
      plainly Command.proxy_ca r _ _ _ refl refl h
  translate-IsReadAs mount Command.gc r plain complete h = plainly Command.gc r _ _ _ refl refl h
  translate-IsReadAs mount (Command.audit w since shown) r (plain, (also, rest)) complete h =
      plainly (Command.audit w since shown) r _ _ _ refl (read_audit w since shown plain also) h
  translate-IsReadAs mount (Command.reset a) r (plain, rest) complete h =
      plainly (Command.reset a) r _ _ _ refl
        (read_reset a.workspace a.home a.nix_store a.all_state a.yes plain) h
  translate-IsReadAs mount (Command.destroy_project w confirmed) r (plain, rest) complete h =
      plainly (Command.destroy_project w confirmed) r _ _ _ refl (read_destroy w confirmed plain) h
  translate-IsReadAs mount (Command.policy (PolicyCommand.policy_review w file)) r (plain, rest)
        complete h =
      let (path, reads, found) =
        policy_words PolicyCommand.policy_review (text "review") w file interactive r mount
          (λ p ok_p. rw (plain, ok_p) refl) h in
      (path, reads, λ f e. let same : file ≡ f = cc in rw (← same) found)
  translate-IsReadAs mount (Command.policy (PolicyCommand.policy_status w file)) r (plain, rest)
        complete h =
      let (path, reads, found) =
        policy_words PolicyCommand.policy_status (text "status") w file false r mount
          (λ p ok_p. rw (plain, ok_p) refl) h in
      (path, reads, λ f e. let same : file ≡ f = cc in rw (← same) found)
  translate-IsReadAs mount _ r plain complete h = cc

  module _ (lima : Lima) where
    open lima use {Instances}

    -- What the ssh command of a client carries to the Host.
    abbrev pub IsDelivered : Command → List Text → Type 0
    IsDelivered c argv =
        (words : List Text) × (script : Text) × (front : List Text) × (argv ≡ front ++ script ∷ [])
        × (read script ≡ some (map word (text "exec" ∷ config.host_seter ∷ words)))
        × IsReadAs c words
