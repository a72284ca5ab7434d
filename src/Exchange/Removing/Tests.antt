-- ===== src/Exchange/Removing/Tests.antt =====
-- A client that removes the file "a" on a server that logs what it unlinks.
use mini_dropbox.Prelude.{
  ℕ, codes, Option, ◌≡◌, refl, true, none, some, List, [], ◌∷◌, ◌++◌, pos, bytes_eq, starts_with,
  replicate, arith,
}
use mini_dropbox.UserMap.{umap_get, hash}
use mini_dropbox.Session.{FileInfo}
use mini_dropbox.Net.{SendOutcome, sent, ok}
use mini_dropbox.Msg.{MessageHdr, msg_init, msg_clear, type_code, type_of_code, hdr_bytes}
use mini_dropbox.Msg.Header.{IsHdr}
use mini_dropbox.FilePath.{
  push, copy, component, rewind_to_root, rewind, drop_last, up_absolute, ends_in_dot, separate,
  up_relative, separate_unless, add_component, normalize_loop, dot_if_empty, terminate,
  is_absolute_path, normalize_path,
}
use mini_dropbox.UserPath.{get_user_root, get_user_path}
use mini_dropbox.Files.{to_float, count_chunks, file_checksum, fileinfo_from_filename, rm_r}
use mini_dropbox.Server.{World, string}
use mini_dropbox.Requests.{zero_info}
use mini_dropbox.Requests.Deleting.{removed_bytes, remove_res_hdr}
use mini_dropbox.Streams.Layout.{IsInfo}
use mini_dropbox.MainLoop.{on_readable}
use mini_dropbox.Client.{Client, reply_text, load_token, xdg_get_dir, token_path}
use mini_dropbox.Client.Tests.{token, host}
use mini_dropbox.Commands.{cmd_rm}
use mini_dropbox.Commands.Removing.{rm_req_hdr}
use mini_dropbox.Exchange.Sample.{
  Log, env, disk, is_null, padding_width, asking, asked, loaded, server, stream_one, known,
  registered, sound-IsHdr,
}
use mini_dropbox.Exchange.Removing.{describe, rm_exchange}

program : Unit {0}
unfolding umap_get hash bytes_eq starts_with push copy component rewind_to_root rewind drop_last
    up_absolute ends_in_dot separate up_relative separate_unless add_component normalize_loop
    dot_if_empty terminate is_absolute_path normalize_path get_user_root get_user_path to_float
    count_chunks file_checksum fileinfo_from_filename rm_r msg_init msg_clear type_code type_of_code
    load_token xdg_get_dir token_path
program = tt

abbrev path : List ℕ
path = codes "a"

abbrev request : MessageHdr
request = rm_req_hdr host path token refl padding_width

abbrev response : MessageHdr
response = remove_res_hdr (100, 5) request

-- The file, which the server finds below the user's directory.
abbrev file : FileInfo
file = describe (codes "/var/minibox/u/a") 3 (replicate 32 0)

abbrev answer : List ℕ
answer = hdr_bytes response ++ (removed_bytes file ++ [])

abbrev outs : List SendOutcome
outs = sent 48 ∷ sent 2 ∷ []

abbrev asking_bytes : List ℕ
asking_bytes = hdr_bytes request ++ (string path ++ [])

abbrev serving : World Log
serving = server (sent 48 ∷ sent 4144 ∷ []) asking_bytes

located : get_user_path (env none).unparse true path token ≡ some (some (codes "/var/minibox/u/a"))
unfolding program
located = refl

digested :
    file_checksum (env none).digest (env none).os (env none).reads (codes "/var/minibox/u/a") []
    ≡ some (pos 0, some (replicate 32 0))
unfolding program
digested = refl

request-IsHdr : IsHdr request
unfolding program
request-IsHdr = sound-IsHdr request (omega arith) (omega arith) refl refl refl refl

response-IsHdr : IsHdr response
unfolding program
response-IsHdr = sound-IsHdr response (omega arith) (omega arith) refl refl refl refl

file-IsInfo : IsInfo file
unfolding program
file-IsInfo = record {
  size_fits = omega arith;
  count_fits = omega arith;
  checksum_size = refl;
  name_clean = ground arith;
  name_fits = omega arith;
}

rm_exchange_example :
    (d : Client (Option (List ℕ))) × (t : World Log) × (cmd_rm host (path ∷ []) (asking outs answer)
      ≡ ok (pos 0, d))
    × (d.socket.wire ≡ [] ++ (hdr_bytes request ++ string path))
    × (d.output ≡ [] ++ reply_text (some (codes "/var/minibox/u/a")) ∷ [])
    × (on_readable (env none) disk 3 zero_info is_null serving ≡ ok (tt, t))
    × (t.files ≡ codes "/var/minibox/u/a" ∷ [])
    × (t.socket.wire ≡ [] ++ (hdr_bytes response ++ removed_bytes file))
rm_exchange_example =
    rm_exchange host (env none) disk 3 zero_info is_null path token refl padding_width
      (ground arith) (omega arith) request-IsHdr known (asking outs answer) (asked outs answer)
      (pos 0) refl (loaded _ outs answer) [] [] refl serving (pos 0) 0 registered [] []
      (stream_one asking_bytes) (codes "/var/minibox/u/a") 3 2 (pos 0) (replicate 32 0)
      (codes "/var/minibox/u/a" ∷ []) file-IsInfo located refl refl digested refl refl
      response-IsHdr (stream_one answer)
