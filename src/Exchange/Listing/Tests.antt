-- ===== src/Exchange/Listing/Tests.antt =====
-- A client that lists a directory with the file "a" and the directory "d".
use mini_dropbox.Prelude.{
  none, ℕ, codes, Option, ◌≡◌, refl, true, false, some, List, [], ◌∷◌, ◌++◌, pos, bytes_eq,
  starts_with, replicate, arith,
}
use mini_dropbox.Session.{FileInfo}
use mini_dropbox.Net.{SendOutcome, sent, ok}
use mini_dropbox.Msg.{MessageHdr, msg_init, msg_clear, type_code, type_of_code, hdr_bytes}
use mini_dropbox.Msg.Header.{IsHdr}
use mini_dropbox.FilePath.{
  push, copy, component, rewind_to_root, rewind, drop_last, up_absolute, ends_in_dot, separate,
  up_relative, separate_unless, add_component, normalize_loop, dot_if_empty, terminate,
  is_absolute_path, normalize_path,
}
use mini_dropbox.UserPath.{path_max, get_user_root, get_user_path}
use mini_dropbox.Files.{
  FileKind, regular, directory, to_float, count_chunks, file_checksum, fileinfo_from_filename,
}
use mini_dropbox.Server.{World, string}
use mini_dropbox.Requests.{zero_info, strcpy, fileinfo_bytes}
use mini_dropbox.Streams.Layout.{IsInfo}
use mini_dropbox.Download.Listing.{
  Listing, nothing, dots, file, folder, listing_bytes, entry_hdr, end_hdr,
}
use mini_dropbox.Download.Replying.{taken_all}
use mini_dropbox.MainLoop.{on_readable}
use mini_dropbox.Client.{Client, entry}
use mini_dropbox.Client.Tests.{token, host}
use mini_dropbox.Commands.{cmd_list}
use mini_dropbox.Commands.Listing.{list_req_hdr}
use mini_dropbox.Exchange.Sample.{
  Log, env, disk, is_null, padding_width, asking, asked, loaded, server, stream_one, known,
  registered, sound-IsHdr,
}
use mini_dropbox.Exchange.Listing.{list_exchange}

program : Unit {0}
unfolding bytes_eq starts_with push copy component rewind_to_root rewind drop_last up_absolute
    ends_in_dot separate up_relative separate_unless add_component normalize_loop dot_if_empty
    terminate is_absolute_path normalize_path get_user_root get_user_path to_float count_chunks
    file_checksum fileinfo_from_filename msg_init msg_clear type_code type_of_code
program = tt

abbrev path : List ℕ
path = codes "."

abbrev dir : List ℕ
dir = codes "/var/minibox/u"

abbrev entries : List (List ℕ × FileKind)
entries = (codes ".", directory) ∷ (codes "a", regular) ∷ (codes "d", directory) ∷ []

abbrev info : List ℕ → FileInfo
info name = record { size = 3; chunk_count = 1; checksum = replicate 32 0; filename = name }

abbrev folder_info : FileInfo
folder_info = record zero_info { filename = codes "d" }

abbrev zeros : List ℕ
zeros = replicate path_max 0

abbrev listed : List (List ℕ × FileInfo)
listed =
    (
      fileinfo_bytes (info (codes "a"))
          (strcpy (codes "a") (strcpy (codes "/var/minibox/u/a") zeros)),
      info (codes "a"),
    )
    ∷ (fileinfo_bytes folder_info (strcpy (codes "d") zeros), folder_info)
    ∷ []

abbrev request : MessageHdr
request = list_req_hdr host path token refl padding_width

abbrev answer : List ℕ
answer = listing_bytes (100, 5) request listed (hdr_bytes (end_hdr (100, 5) request) ++ [])

abbrev outs : List SendOutcome
outs = sent 48 ∷ sent 2 ∷ []

abbrev asking_bytes : List ℕ
asking_bytes = hdr_bytes request ++ (string path ++ [])

abbrev serving : World Log
serving = server (taken_all listed (sent 48 ∷ [])) asking_bytes

located : get_user_path (env none).unparse true path token ≡ some (some dir)
unfolding program
located = refl

info-IsInfo : IsInfo (info (codes "a"))
info-IsInfo = record {
  size_fits = omega arith;
  count_fits = omega arith;
  checksum_size = refl;
  name_clean = ground arith;
  name_fits = omega arith;
}

folder_info-IsInfo : IsInfo folder_info
folder_info-IsInfo = record {
  size_fits = omega arith;
  count_fits = omega arith;
  checksum_size = refl;
  name_clean = ground arith;
  name_fits = omega arith;
}

listing : Listing (env none) 3 dir [] entries listed
unfolding program
listing = dots (codes ".") directory refl (
    file (codes "a") 0 (info (codes "/var/minibox/u/a")) refl refl (omega arith) info-IsInfo
      (folder (codes "d") refl folder_info-IsInfo nothing))

request-IsHdr : IsHdr request
unfolding program
request-IsHdr = sound-IsHdr request (omega arith) (omega arith) refl refl refl refl

entry_hdr-IsHdr : IsHdr (entry_hdr (100, 5) request)
unfolding program
entry_hdr-IsHdr =
    sound-IsHdr (entry_hdr (100, 5) request) (omega arith) (omega arith) refl refl refl refl

end_hdr-IsHdr : IsHdr (end_hdr (100, 5) request)
unfolding program
end_hdr-IsHdr =
    sound-IsHdr (end_hdr (100, 5) request) (omega arith) (omega arith) refl refl refl refl

list_exchange_example :
    (d : Client (Option (List ℕ))) × (t : World Log) × (cmd_list host 3
        (path ∷ [])
        (asking outs answer)
      ≡ ok (pos 0, d))
    × (d.output ≡ [] ++ entry 3 (codes "a") ∷ entry 0 (codes "d") ∷ [])
    × (d.socket.wire ≡ [] ++ (hdr_bytes request ++ string path))
    × (on_readable (env none) disk 3 zero_info is_null serving ≡ ok (tt, t))
    × (t.files ≡ [])
    × (t.is_open ≡ false)
    × (t.socket.wire
        ≡ [] ++ listing_bytes (100, 5) request listed (hdr_bytes (end_hdr (100, 5) request)))
list_exchange_example =
    list_exchange host (env none) disk 3 zero_info is_null path token refl padding_width
      (ground arith) (omega arith) request-IsHdr known (asking outs answer) (asked outs answer)
      (pos 0) refl (loaded _ outs answer) [] [] refl serving (pos 0) 0 registered [] []
      (stream_one asking_bytes) 3 dir entries listed (omega arith) located refl listing refl
      entry_hdr-IsHdr end_hdr-IsHdr (stream_one answer)
