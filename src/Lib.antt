-- ===== src/Lib.antt =====
-- The host-side command line of seter (crates/seter-cli): what decides which egress a workspace
-- gets, which registries are accepted, and what lifecycle commands may touch.
--
-- seter runs workspaces as virtual machines on a NixOS host. The host configuration is projected
-- into a registry (JSON), which every command reads and validates; a Policy File (TOML) names the
-- egress that each workspace is granted, and is validated against the registry. The parts, and the
-- files here that model them (paths are under crates/seter-cli/src):
--
-- HostPatterns: host_patterns.rs. Exact hosts and one-label wildcards, the prohibition of
--   wildcards at public suffixes, matching and overlap. The Public Suffix List is a parameter, as
--   the list of the rules that `wildcard_suffix_forbidden` reads from the bundled text.
-- Registry: registry.rs. The records of the registry, `Registry::validate` with its loops as
--   folds that carry the sets of names already seen, repository URLs and their hosts
--   (Registry/Url), `workspace` and `select_repository` (Registry/Select).
-- Policy: policy.rs. `PolicyFile::normalize` (Policy/Normalize), private and subnet addresses
--   (Policy/Address), `validate_patterns`, `validate_egress` and `PolicyFile::validate`
--   (Policy/Validate), `grants`, `remove_grant` and the comparison of `status` (Policy/Grants),
--   `review` over the lines that its prompts read: the questions (Policy/Review), the rendering over
--   the operations of toml_edit (Policy/Render), `atomic_write` over files as a function from paths
--   (Policy/Replace), and the whole with its lock and its last question (Policy/Review/Writing).
-- Shell: shell_quote of lifecycle/ssh.rs, quote, join and `seter_command` of client/transport.rs,
--   and the remote commands of lifecycle.rs. Shell/Reader is a reader of POSIX words, against which
--   they are checked; the bootstrap scripts are parameters.
-- Privilege: privilege.rs and lifecycle/privilege.rs. The environment as a function, the overrides
--   that root discards, test mode and the sudo command.
-- Lifecycle: lifecycle.rs and lifecycle/ssh.rs. The states of a unit and `query_unit`;
--   `validate_runner` (Lifecycle/Runner); `start_workspace` and `stop_workspace` as changes of
--   systemd's state (Lifecycle/Units); `reset_workspace` and `destroy_project_volume` as changes of
--   the set of volume images, by the directory that a workspace's path leads to, with the second look
--   at the unit when the lock is held as a state of its own (Lifecycle/Storage); `collect_garbage` (Lifecycle/Collect). Lifecycle/Privileged runs
--   these halves in a world of units, images and known hosts, with the environment they see;
--   Lifecycle/Delegate is the user's side: the checks, the questions, `delegate_or_run` and the
--   words for sudo. Lifecycle/Ssh is the host key, `wait_for_ssh`, the ssh command and what is
--   printed of keys and the proxy CA, and Lifecycle/Sessions is `init`, `import`, `shell`, `run` and `status`. systemd, the answers of the
--   file system, the locks, sudo and ssh are parameters.
-- Cli: cli.rs and main.rs. The commands as data, and which function each calls (Cli/Dispatch).
--   Cli/Reader is the grammar that cli.rs declares to clap, written again as a reader of words, for
--   those that are given in full: it refuses the options, flags and trailing words that a command
--   does not declare, those given twice, and --repo with --root.
-- Audit: audit.rs. Grouping and collection of observations, `parse_duration`, and the records read
--   from the kernel and service journals (Audit/Records), with JSON as a parameter.
-- Client: client/config.rs, the client's configuration, its validation and the FNV-1a `identifier`
--   (Client/Config); client/transport.rs, the Lima instance, the endpoint, scripts and policy paths
--   (Client/Host); `workspace` of client.rs, with limactl and the file system as parameters
--   (Client/Commands); client/probe.rs, HTTP answers as the list of what the socket's reads give,
--   with UTF-8 and JSON as parameters (Client/Probe); client/connections.rs, the records of forwarded
--   connections and the ssh masters behind them, as changes of the system's state
--   (Client/Connections), with the browser and Docker in Client/Connections/Attaching and
--   Client/Connections/Daemon; of `host` in client.rs, `stop` and `host_status` (Client/Shutdown), the
--   configuration (Client/Configuring) and the words of a deployment (Client/Deployment).
-- Prelude: text as the list of its Unicode scalar values with the `str` operations that the
--   program calls, `Result` with `?`, loops that may fail, decimal numbers, IPv4 addresses,
--   association lists for `BTreeMap`, insertion sort for `sort`.
--
-- A file that the program reads and parses enters as the value that serde or toml hands over; the
-- unsigned integers of the source are natural numbers, with the bounds written where the code
-- depends on them. A loop is a recursion on the list it runs over, but for three: decimal and
-- hexadecimal printing, whose fuel is the number itself, which is at least its number of digits less
-- one; `decode_chunks`, whose fuel is one more than the bytes of its input, of which each round but
-- the last takes some; and `wait_for_ssh`, whose rounds are those that its deadline leaves. Error
-- values carry what the source's messages name, not the wording.
--
-- Not modelled: of `host` in client.rs, the commands that replace the process by a shell or another
-- program, the Docker context and Herdr; opening the URL of a forward; the directories of the client and
-- the replacement of its files; the bridge for Herdr, which only runs under the name ssh; the terminal
-- output; and the processes behind Lima, SSH and the container runtimes.
pub mod Prelude
pub mod HostPatterns
pub mod Registry
pub mod Policy
pub mod Privilege
pub mod Shell
pub mod Lifecycle
pub mod Audit
pub mod Client
pub mod Cli
mod Tests
