-- ===== src/Cli/Reader.antt =====
-- How words are read as a command: the grammar that cli.rs declares, for words that are given in
-- full. A word behind an option that takes a value is its value, other words that begin with a
-- hyphen are flags, and what follows `--` is passed on. As in clap, a command is refused what it does not declare.
use seter.Prelude.{
  ◌≡◌, Bool, true, not, Option, none, some, List, [], ◌∷◌, any, map, ◌&&◌, ◌||◌, is_empty, contains,
  if◌then◌else◌,
}
use seter.Prelude.Eq.{◌==◌, nat_eq, list_eq}
use seter.Prelude.Text.{Text, text, starts_with}
use seter.Cli.{Command, PolicyCommand}

-- The words behind the name of a command, sorted.
pub record Words : Type 0 where
  pub operands : List Text
  pub values : List (Text × Text)
  pub flags : List Text
  pub last : List Text

abbrev no_words : Words
no_words = record { operands = []; values = []; flags = []; last = [] }

-- A word that can stand as an operand or a value.
abbrev pub is_operand : Text → Bool
is_operand w = not (starts_with (text "-") w)

abbrev pub IsOperand : Text → Type 0
IsOperand w = is_operand w ≡ true

abbrev pub takes_value : Text → Bool
takes_value w =
    any (λ name. w == name) (text "--repo" ∷ text "--bundle" ∷ text "--since" ∷ text "--file" ∷ [])

abbrev with_operand : Text → Option Words → Option Words
with_operand w none = none
with_operand w (some ws) = some (record ws { operands = w ∷ ws.operands })

abbrev with_flag : Text → Option Words → Option Words
with_flag w none = none
with_flag w (some ws) = some (record ws { flags = w ∷ ws.flags })

abbrev with_value : Text → Text → Option Words → Option Words
with_value name value none = none
with_value name value (some ws) = some (record ws { values = (name, value) ∷ ws.values })

-- `expecting` is the option whose value comes next.
unfoldable pub sort_words : Option Text → List Text → Option Words
sort_words none [] = some no_words
sort_words (some name) [] = none
sort_words (some name) (w ∷ rest) =
    let later = sort_words none rest in if is_operand w then with_value name w later else none
sort_words none (w ∷ rest) =
    let valued = sort_words (some w) rest in
    let later = sort_words none rest in
    if is_operand w
    then with_operand w later
    else if w == text "--"
    then some (record no_words { last = rest })
    else if takes_value w
    then valued
    else with_flag w later

abbrev value_of : Text → List (Text × Text) → Option Text
value_of name [] = none
value_of name ((n, v) ∷ rest) = if n == name then some v else value_of name rest

abbrev flag : Text → Words → Bool
flag name ws = contains ws.flags name

abbrev repository : Words → Option Text
repository ws = value_of (text "--repo") ws.values

abbrev or_default : Text → Option Text → Text
or_default default none = default
or_default default (some t) = t

-- One operand, and what to make of it.
abbrev one : (Text → Command) → List Text → Option Command
one make [] = none
one make (w ∷ []) = some (make w)
one make (w ∷ v ∷ rest) = none

abbrev at_most_one : (Option Text → Command) → List Text → Option Command
at_most_one make [] = some (make none)
at_most_one make (w ∷ []) = some (make (some w))
at_most_one make (w ∷ v ∷ rest) = none

abbrev nothing : Command → List Text → Option Command
nothing c [] = some c
nothing c (w ∷ rest) = none

abbrev run_of : Words → Text → List Text → Option Command
run_of ws w [] = none
run_of ws w (c ∷ rest) = some (Command.run w (repository ws) (c ∷ rest))

abbrev required : (Text → Command) → Option Text → Option Command
required make none = none
required make (some v) = some (make v)

abbrev one_with : (Text → Option Command) → List Text → Option Command
one_with make [] = none
one_with make (w ∷ []) = make w
one_with make (w ∷ v ∷ rest) = none

abbrev policy_words : (Text → Text → PolicyCommand) → Words → Option Command
policy_words make ws =
    one_with
      (λ w. required (λ file. Command.policy (make w file)) (value_of (text "--file") ws.values))
      ws.operands

-- The options of each command that take a value.
abbrev options_of : Text → List Text
options_of name =
    if any (λ n. name == n) (text "init" ∷ text "run" ∷ text "shell" ∷ [])
    then text "--repo" ∷ []
    else if name == text "import"
    then text "--repo" ∷ text "--bundle" ∷ []
    else if name == text "audit"
    then text "--since" ∷ []
    else if name == text "policy"
    then text "--file" ∷ []
    else []

-- Its flags.
abbrev flags_of : Text → List Text
flags_of name =
    if name == text "shell"
    then text "--root" ∷ []
    else if name == text "audit"
    then text "--paths" ∷ []
    else if name == text "reset"
    then text "--home" ∷ text "--nix-store" ∷ text "--all-state" ∷ text "--yes" ∷ []
    else if name == text "destroy-project"
    then text "--yes" ∷ []
    else if name == text "__reset"
    then text "--home" ∷ text "--nix-store" ∷ []
    else []

-- Each name is one of these, and none is there twice.
abbrev once_of : List Text → List Text → Bool
once_of known [] = true
once_of known (name ∷ rest) = contains known name && not (contains rest name) && once_of known rest

abbrev has_value : Text → Words → Bool
has_value name ws = any (λ (v : Text × Text). v.0 == name) ws.values

-- The command declares what it is given, each at most once: clap refuses anything else. Only `run` declares words
-- behind `--`, and `--repo` conflicts with `--root`.
abbrev fits : Text → Words → Bool
fits name ws =
    once_of (options_of name) (map (λ (v : Text × Text). v.0) ws.values)
    && once_of (flags_of name) ws.flags
    && (name == text "run" || is_empty ws.last)
    && not (has_value (text "--repo") ws && flag (text "--root") ws)

-- The commands by name.
abbrev interpret_fitting : Text → Words → Option Command
interpret_fitting name ws =
    if name == text "init"
    then one (λ w. Command.init w (repository ws)) ws.operands
    else if name == text "import"
    then one_with
        (λ w.
          required (λ b. Command.import_bundle w (repository ws) b)
            (value_of (text "--bundle") ws.values))
        ws.operands
    else if name == text "up"
    then one Command.up ws.operands
    else if name == text "down"
    then one Command.down ws.operands
    else if name == text "run"
    then one_with (λ w. run_of ws w ws.last) ws.operands
    else if name == text "shell"
    then one (λ w. Command.shell w (repository ws) (flag (text "--root") ws)) ws.operands
    else if name == text "status"
    then at_most_one Command.status ws.operands
    else if name == text "list"
    then nothing Command.list ws.operands
    else if name == text "ip"
    then one Command.ip ws.operands
    else if name == text "audit"
    then one
        (λ w.
          Command.audit w (or_default (text "30m") (value_of (text "--since") ws.values))
            (flag (text "--paths") ws))
        ws.operands
    else if name == text "ssh-host-key"
    then one Command.ssh_host_key ws.operands
    else if name == text "proxy-ca"
    then nothing Command.proxy_ca ws.operands
    else if name == text "reset"
    then one
        (λ w. Command.reset record {
          workspace = w;
          home = flag (text "--home") ws;
          nix_store = flag (text "--nix-store") ws;
          all_state = flag (text "--all-state") ws;
          yes = flag (text "--yes") ws;
        })
        ws.operands
    else if name == text "destroy-project"
    then one (λ w. Command.destroy_project w (flag (text "--yes") ws)) ws.operands
    else if name == text "gc"
    then nothing Command.gc ws.operands
    else if name == text "__start"
    then one Command.start_workspace ws.operands
    else if name == text "__stop"
    then one Command.stop_workspace ws.operands
    else if name == text "__audit"
    then one Command.export_audit ws.operands
    else if name == text "__reset"
    then one
        (λ w. Command.reset_workspace w (flag (text "--home") ws) (flag (text "--nix-store") ws))
        ws.operands
    else if name == text "__gc"
    then nothing Command.collect_garbage ws.operands
    else if name == text "__destroy-project"
    then one Command.destroy_project_volume ws.operands
    else none

abbrev interpret : Text → Words → Option Command
interpret name ws = if fits name ws then interpret_fitting name ws else none

abbrev interpret_sorted : Text → Option Words → Option Command
interpret_sorted name none = none
interpret_sorted name (some ws) = interpret name ws

abbrev interpret_policy : Text → Option Words → Option Command
interpret_policy action none = none
interpret_policy action (some ws) =
    if not (fits (text "policy") ws)
    then none
    else if action == text "review"
    then policy_words PolicyCommand.policy_review ws
    else if action == text "status"
    then policy_words PolicyCommand.policy_status ws
    else none

-- `policy` has a command of its own behind it.
abbrev read_policy : List Text → Option Command
read_policy [] = none
read_policy (action ∷ rest) = interpret_policy action (sort_words none rest)

unfoldable pub read_arguments : List Text → Option Command
read_arguments [] = none
read_arguments (name ∷ rest) =
    if name == text "policy" then read_policy rest else interpret_sorted name (sort_words none rest)
