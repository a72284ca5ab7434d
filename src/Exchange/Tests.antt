-- ===== src/Exchange/Tests.antt =====
-- A client that makes d/e on a server that logs the directories it makes.
use mini_dropbox.Prelude.{
  ℕ, codes, Option, ◌≡◌, refl, true, none, some, List, [], ◌∷◌, ◌++◌, pos, negsuc, if◌then◌else◌,
  bytes_eq, ◌==◌, inl, false, length, starts_with, replicate, arith,
}
use mini_dropbox.UserMap.{umap_get, hash}
use mini_dropbox.Net.{SendOutcome, Socket, sent, arrived, ok}
use mini_dropbox.Net.Loops.{stream}
use mini_dropbox.Msg.{
  MessageHdr, msgtype_chunk_ok, msg_init, msg_clear, type_code, type_of_code, to_bytes, hdr_bytes,
}
use mini_dropbox.Msg.Header.{IsHdr}
use mini_dropbox.FilePath.{
  slash, dot, push, copy, component, rewind_to_root, rewind, drop_last, up_absolute, ends_in_dot,
  separate, up_relative, separate_unless, add_component, normalize_loop, dot_if_empty, terminate,
  is_absolute_path, normalize_path,
}
use mini_dropbox.FilePath.Spec.{IsName, AllNames, path_of}
use mini_dropbox.UserPath.{get_user_root}
use mini_dropbox.Directories.Making.{relative, Makes}
use mini_dropbox.Transfer.{stats, chunk_init, chunk_hdr_bytes, file_recv}
use mini_dropbox.Transfer.Completion.{ack_hdr}
use mini_dropbox.Sending.{send_chunks}
use mini_dropbox.Sending.Completion.{Reads, taken, acks, chunk_packet, chunk_packets}
use mini_dropbox.Exchange.PlainFile.{plain, opened}
use mini_dropbox.Exchange.Transfer.{file_recv-send_chunks}
use mini_dropbox.Files.{Reader}
use mini_dropbox.Directories.{path_next_dir, create_directories_from_path}
use mini_dropbox.Server.{World, string}
use mini_dropbox.Server.Replying.{error_hdr}
use mini_dropbox.Requests.{zero_info}
use mini_dropbox.Requests.Answers.{mkdir_res_hdr}
use mini_dropbox.MainLoop.{on_readable}
use mini_dropbox.Client.{Client, reply_text, load_token, xdg_get_dir, token_path}
use mini_dropbox.Client.Tests.{token, host}
use mini_dropbox.Commands.{cmd_mkdir}
use mini_dropbox.Commands.Making.{mkdir_req_hdr}
use mini_dropbox.Exchange.Sample.{
  Log, env, disk, is_null, asking, asked, loaded, server, stream_one, known, registered,
  sound-IsHdr,
}
use mini_dropbox.Exchange.{mkdir_exchange, mkdir_exchange_failed}

program : Unit {0}
unfolding stream umap_get hash bytes_eq starts_with push copy component rewind_to_root rewind
    drop_last up_absolute ends_in_dot separate up_relative separate_unless add_component
    normalize_loop dot_if_empty terminate is_absolute_path normalize_path path_next_dir
    create_directories_from_path get_user_root msg_init msg_clear type_code type_of_code to_bytes
    hdr_bytes load_token xdg_get_dir token_path
program = tt

abbrev path : List ℕ
path = codes "d/e"

abbrev request : MessageHdr
request = mkdir_req_hdr host path token refl

abbrev outs : List SendOutcome
outs = sent 48 ∷ sent 4 ∷ []

abbrev asking_bytes : List ℕ
asking_bytes = hdr_bytes request ++ (string path ++ [])

-- The server, to which the request comes in one piece.
abbrev serving : World Log
serving = server (sent 48 ∷ []) asking_bytes

abbrev failing : World Log
failing = server (sent 48 ∷ sent 6 ∷ []) asking_bytes

-- A name of one letter.
letter : (c : ℕ) → c == slash ≡ false → bytes_eq (c ∷ []) (dot ∷ []) ≡ false → IsName (c ∷ [])
unfolding bytes_eq
letter c h d = record { filled = refl; no_slash = (h, tt); not_dot = d; not_dots = ground arith }

user-IsName : IsName (codes "u")
user-IsName = letter _ refl (unfold bytes_eq in refl)

names : AllNames (codes "d" ∷ codes "e" ∷ [])
names = (letter _ refl (unfold bytes_eq in refl), (letter _ refl (unfold bytes_eq in refl), tt))

path_shape : path ≡ relative (codes "d" ∷ codes "e" ∷ [])
unfolding path_of
path_shape = refl

makes :
    Makes
      (env none).os
      (get_user_root (env none).unparse token)
      (codes "d" ∷ codes "e" ∷ [])
      []
      (codes "/var/minibox/u/d/e" ∷ codes "/var/minibox/u/d" ∷ [])
unfolding program Makes
makes = (inl refl, (inl refl, refl))

refused :
    create_directories_from_path
      (env (some 5)).os
      true
      (env (some 5)).static
      (get_user_root (env (some 5)).unparse token)
      path
      []
    ≡ some ((negsuc 2, 5), [])
unfolding program
refused = refl

-- The answers.
abbrev response : MessageHdr
response = mkdir_res_hdr (100, 5) request

abbrev answer : List ℕ
answer = hdr_bytes response ++ []

abbrev complaint : MessageHdr
complaint = error_hdr (100, 5) (codes "error")

request-IsHdr : IsHdr request
unfolding program
request-IsHdr = sound-IsHdr request (omega arith) (omega arith) refl refl refl refl

response-IsHdr : IsHdr response
unfolding program
response-IsHdr = sound-IsHdr response (omega arith) (omega arith) refl refl refl refl

complaint-IsHdr : IsHdr complaint
unfolding program
complaint-IsHdr = sound-IsHdr complaint (omega arith) (omega arith) refl refl refl refl

abbrev complaint_bytes : List ℕ
complaint_bytes = hdr_bytes complaint ++ (string (codes "error") ++ [])

mkdir_exchange_example :
    (d : Client (Option (List ℕ))) × (t : World Log) × (cmd_mkdir host
        (path ∷ [])
        (asking outs answer)
      ≡ ok (pos 0, d))
    × (d.socket.wire ≡ [] ++ (hdr_bytes request ++ string path))
    × (d.output ≡ [])
    × (on_readable (env none) disk 3 zero_info is_null serving ≡ ok (tt, t))
    × (t.files ≡ codes "/var/minibox/u/d/e" ∷ codes "/var/minibox/u/d" ∷ [])
    × (t.socket.wire ≡ [] ++ hdr_bytes response)
mkdir_exchange_example =
    mkdir_exchange host (env none) disk 3 zero_info is_null path token refl (omega arith)
      (omega arith) request-IsHdr known (asking outs answer) (asked outs answer) (pos 0) refl
      (loaded _ outs answer) [] [] refl serving (pos 0) 0 registered [] [] (stream_one asking_bytes)
      (codes "d") (codes "e" ∷ []) (codes "/var/minibox/u/d/e" ∷ codes "/var/minibox/u/d" ∷ [])
      user-IsName path_shape names (omega arith) makes refl response-IsHdr (stream_one answer)

mkdir_exchange_failed_example :
    (d : Client (Option (List ℕ))) × (t : World Log) × (cmd_mkdir host
        (path ∷ [])
        (asking outs complaint_bytes)
      ≡ ok (pos 1, d))
    × (d.output ≡ [] ++ reply_text (some (codes "error")) ∷ [])
    × (on_readable (env (some 5)) disk 3 zero_info is_null failing ≡ ok (tt, t))
    × (t.files ≡ [])
    × (t.socket.wire ≡ [] ++ (hdr_bytes complaint ++ string (codes "error")))
mkdir_exchange_failed_example =
    mkdir_exchange_failed host (env (some 5)) disk 3 zero_info is_null path token refl (omega arith)
      (omega arith) request-IsHdr known (asking outs complaint_bytes) (asked outs complaint_bytes)
      (pos 0) refl (loaded _ outs complaint_bytes) [] [] refl failing (pos 0) 0 registered [] []
      (stream_one asking_bytes) 5 [] refused (omega arith) (omega arith) refl complaint-IsHdr
      (stream_one complaint_bytes)

-- Two blocks of a file.
abbrev blocks : List (List ℕ)
blocks = (1 ∷ 2 ∷ []) ∷ (3 ∷ []) ∷ []

abbrev digest : List ℕ → List ℕ
digest bytes = replicate 32 0

abbrev read : Reader
read at = if at == 0 then some (1 ∷ 2 ∷ []) else if at == 2 then some (3 ∷ []) else some []

abbrev ok_hdr : MessageHdr
ok_hdr = ack_hdr digest (101, 6) plain msgtype_chunk_ok

abbrev socket_of : List SendOutcome → List ℕ → Socket
socket_of outcomes bytes = record {
  outcomes = outcomes;
  wire = [];
  incoming = arrived bytes ∷ [];
  errno = 0;
}

abbrev sending : Socket
sending = socket_of (taken blocks []) (acks ok_hdr blocks [])

abbrev receiving : Socket
receiving = socket_of (sent 48 ∷ sent 48 ∷ []) (chunk_packets digest (100, 5) msg_clear 0 0 blocks)

reads : Reads read 0 blocks
unfolding Reads
reads = (refl, (refl, tt))

will_send : sending.outcomes ≡ taken blocks []
will_send = refl

chunks_arrived :
    stream receiving.incoming ≡ chunk_packets digest (100, 5) msg_clear 0 0 blocks ++ []
unfolding program chunk_packets chunk_packet chunk_init chunk_hdr_bytes
chunks_arrived = refl

acks_arrived : stream sending.incoming ≡ acks ok_hdr blocks []
unfolding program acks
acks_arrived = refl

token_width : length msg_clear.hdr.token ≡ 16
unfolding msg_clear
token_width = refl

padding_width : length msg_clear.hdr.padding ≡ 4
unfolding msg_clear
padding_width = refl

file_recv-send_chunks_example :
    (t : Socket) × (u : Socket) × (send_chunks digest (100, 5) msg_clear 3 read 2 0 0 0 sending
      ≡ ok (stats 2 (pos 0), t))
    × (file_recv digest (101, 6) plain (λ n. []) 2 2 (some (opened (9 ∷ 9 ∷ 9 ∷ 9 ∷ []))) receiving
        ≡ ok ((stats 2 (pos 0), some (record { content = 1 ∷ 2 ∷ 3 ∷ 9 ∷ []; position = 3 })), u))
    × (t.wire ≡ [] ++ chunk_packets digest (100, 5) msg_clear 0 0 blocks)
    × (u.wire ++ [] ≡ [] ++ acks ok_hdr blocks [])
    × (stream t.incoming ≡ [])
    × (stream u.incoming ≡ [])
file_recv-send_chunks_example =
    file_recv-send_chunks digest (100, 5) msg_clear (λ bytes. refl) token_width padding_width
      (omega arith) (omega arith) (101, 6) (λ n. []) blocks 3 2 read (9 ∷ 9 ∷ 9 ∷ 9 ∷ []) [] [] []
      [] sending receiving (omega arith) (omega arith) (omega arith) (omega arith) (omega arith)
      reads (omega arith) will_send refl chunks_arrived acks_arrived
