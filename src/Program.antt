-- ===== src/Program.antt =====
-- `main` of src/client.c, its table of commands, `cmd_help`, and `connect_to_server` of src/util.c.
-- `getopt` and the calls on sockets are parameters; the socket of the state is the one connected.
mod Tests
use mini_dropbox.Prelude.{
  ℕ, suc, codes, Option, none, some, List, [], ◌∷◌, ℤ, pos, negsuc, is_neg, is_zero, ◌||◌,
  if◌then◌else◌, bytes_eq, ltb, length,
}
use mini_dropbox.Upload.{Disk}
use mini_dropbox.Client.{Host, Act, done, undefined, ◌>>=◌, is_minus_one}
use mini_dropbox.Commands.{cmd_auth, cmd_list, cmd_rm, cmd_mkdir}
use mini_dropbox.Copying.{cmd_upload, cmd_download}

pub data CommandId : Type 0 where
  cmd_help_id cmd_auth_id cmd_ulod_id cmd_dlod_id cmd_list_id cmd_rmfi_id cmd_mdir_id : CommandId

pub record Command : Type 0 where
  pub id : CommandId
  pub name : List ℕ
  pub usage : List ℕ

abbrev pub command : CommandId → List ℕ → List ℕ → Command
command id name usage = record { id = id; name = name; usage = usage }

abbrev pub commands : List Command
commands =
    command cmd_help_id (codes "help") (codes "[command]")
    ∷ command cmd_auth_id (codes "auth") []
    ∷ command cmd_ulod_id (codes "upload") (codes "<local_file> [remote_file]")
    ∷ command cmd_dlod_id (codes "download") (codes "<remote_file> [local_file]")
    ∷ command cmd_list_id (codes "ls") (codes "[path]")
    ∷ command cmd_rmfi_id (codes "rm") (codes "<remote_file>")
    ∷ command cmd_mdir_id (codes "mkdir") (codes "<remote_path>")
    ∷ []

-- The chain of comparisons.
pub cmd_from : List Command → List ℕ → Option Command
cmd_from [] name = none
cmd_from (c ∷ cs) name = if bytes_eq name c.name then some c else cmd_from cs name

-- NULL is `none`. The first entry is compared twice.
unfoldable pub cmd_get : List ℕ → Option Command
unfolding cmd_from
cmd_get name =
    if bytes_eq name (codes "help")
    then some (command cmd_help_id (codes "help") (codes "[command]"))
    else cmd_from commands name

-- What `socket`, `inet_pton` and `connect` return: the descriptor, or -1.
unfoldable pub connect_to_server : ℤ → (List ℕ → ℤ) → ℤ → List ℕ → ℤ
connect_to_server sockfd pton connected server_ip =
    if is_neg sockfd
    then negsuc 0
    else if is_neg (pton server_ip) || is_zero (pton server_ip)
    then negsuc 0
    else if is_neg connected
    then negsuc 0
    else sockfd

-- What `getopt(argc, argv, "s:")` returns until its -1.
pub data Opt : Type 0 where
  server_opt : List ℕ → Opt
  unknown_opt : Opt

-- strcpy(server_ip, optarg) into an array of 16 bytes, which overflows at `none`; the inner `none`
-- is an option that is unknown.
unfoldable pub parse_opts : List Opt → List ℕ → Option (Option (List ℕ))
parse_opts [] ip = some (some ip)
parse_opts (server_opt arg ∷ opts) ip =
    let rest = parse_opts opts arg in if ltb (length arg) 16 then rest else none
parse_opts (unknown_opt ∷ opts) ip = some none

abbrev pub default_server_ip : List ℕ
default_server_ip = codes "127.0.0.1"

-- The usage of the command, if there is one of that name.
help_on : {W : Type 0} → Option Command → Act W ℤ
help_on none = done (pos 1)
help_on (some c) = done (pos 0)

unfoldable pub cmd_help : {W : Type 0} → List (List ℕ) → Act W ℤ
unfolding help_on
cmd_help [] = done (pos 1)
cmd_help (name ∷ args) = help_on (cmd_get name)

module _ {W F : Type 0} (host : Host W) (disk : Disk W F) (fuel : ℕ) (sockfd connected : ℤ)
    (pton : List ℕ → ℤ) where
  -- sockfd = connect_to_server(server_ip, server_port); if (sockfd == -1) return 1;
  abbrev pub connect_then : List ℕ → Act W ℤ → Act W ℤ
  connect_then ip next =
      if is_minus_one (connect_to_server sockfd pton connected ip) then done (pos 1) else next

  -- The command's function, behind the connection that all but `help` want.
  pub run_command : CommandId → List ℕ → List (List ℕ) → Act W ℤ
  run_command cmd_help_id ip args = cmd_help args
  run_command cmd_auth_id ip args = connect_then ip (cmd_auth host)
  run_command cmd_ulod_id ip args = connect_then ip (cmd_upload host fuel args)
  run_command cmd_dlod_id ip args = connect_then ip (cmd_download host disk fuel args)
  run_command cmd_list_id ip args = connect_then ip (cmd_list host fuel args)
  run_command cmd_rmfi_id ip args = connect_then ip (cmd_rm host args)
  run_command cmd_mdir_id ip args = connect_then ip (cmd_mkdir host args)

  -- With the arguments from `optind` on.
  main_args : List ℕ → List (List ℕ) → Act W ℤ
  unfolding run_command
  main_args ip [] = done (pos 1)
  main_args ip (name ∷ args) = elim (cmd_get name) [
    | none ↦ done (pos 1)
    | some cmd ↦ run_command cmd.id ip args
  ]

  unfoldable pub main : List Opt → List (List ℕ) → Act W ℤ
  unfolding main_args
  main opts args = elim (parse_opts opts default_server_ip) [
    | none ↦ undefined
    | some none ↦ done (pos 1)
    | some (some ip) ↦ main_args ip args
  ]
