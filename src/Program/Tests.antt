-- ===== src/Program/Tests.antt =====
-- Command lines.
use mini_dropbox.Prelude.{
  ℕ, codes, Option, ◌≡◌, refl, none, some, List, [], ◌∷◌, pos, negsuc, bytes_eq, replicate,
}
use mini_dropbox.Net.{ok, aborted}
use mini_dropbox.Upload.{Disk}
use mini_dropbox.Client.Tests.{host, client}
use mini_dropbox.Program.{
  server_opt, cmd_get, connect_to_server, parse_opts, cmd_help, main, command, cmd_dlod_id,
}

program : Unit {0}
unfolding bytes_eq cmd_get connect_to_server parse_opts cmd_help main
program = tt

abbrev disk : Disk (Option (List ℕ)) (List ℕ)
disk = record {
  create = λ path w. none;
  ops = record { lseek = λ n f. none; write = λ bytes f. f };
  left = λ f. some f;
}

by_name :
    cmd_get (codes "download")
    ≡ some (command cmd_dlod_id (codes "download") (codes "<remote_file> [local_file]"))
unfolding program
by_name = refl

helps :
    main host disk 5 (negsuc 0) (pos 0) (λ ip. pos 1) [] (codes "help" ∷ codes "ls" ∷ []) (client 0)
    ≡ ok (pos 0, client 0)
unfolding program
helps = refl

no_command :
    main host disk 5 (pos 3) (pos 0) (λ ip. pos 1) [] (codes "dir" ∷ []) (client 0)
    ≡ ok (pos 1, client 0)
unfolding program
no_command = refl

no_server :
    main host disk 5
      (pos 3)
      (negsuc 0)
      (λ ip. pos 1)
      (server_opt (codes "10.0.0.1") ∷ [])
      (codes "rm" ∷ codes "a" ∷ [])
      (client 0)
    ≡ ok (pos 1, client 0)
unfolding program
no_server = refl

-- The address of the server is copied into sixteen bytes.
long_address :
    main host disk 5
      (pos 3)
      (pos 0)
      (λ ip. pos 1)
      (server_opt (replicate 16 1) ∷ [])
      (codes "rm" ∷ codes "a" ∷ [])
      (client 0)
    ≡ aborted
unfolding program
long_address = refl
