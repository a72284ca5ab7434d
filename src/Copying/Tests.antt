-- ===== src/Copying/Tests.antt =====
-- Files that go to and come from a server that answers in one piece.
use mini_dropbox.Prelude.{
  ℕ, codes, Option, ◌%◌, ◌≡◌, refl, none, some, List, [], ◌∷◌, ◌++◌, ℤ, pos, bytes_eq, replicate,
  length, inr, if◌then◌else◌, ◌==◌,
}
use mini_dropbox.Net.{
  SendOutcome, Socket, Run, sent, arrived, closed, ok, blocked, aborted, send_all, recv_all,
}
use mini_dropbox.Net.Loops.{stream}
use mini_dropbox.Msg.{
  Message, MessageType, msgtype_error, msgtype_upload_res, msgtype_upload_fin, msgtype_download_res,
  msgtype_chunk_ok, msgtype_send_chunk, zero_hdr, msg_init, msg_clear, type_code, type_of_code,
  to_bytes, from_bytes, hdr_bytes, hdr_of_bytes, msg_send, recv_hdr, msg_recv_header,
  msg_recv_payload, msg_recv,
}
use mini_dropbox.Msg.Names.{msg_type_to_str}
use mini_dropbox.Transfer.{
  chunk_hdr_bytes, chunk_hdr_of_bytes, checksums_match, chunk_init, chunk_send, chunk_recv,
  send_ack, place_chunk, accept_chunk, on_chunk, recv_chunks, file_recv,
}
use mini_dropbox.Files.{regular, to_float, count_chunks, file_checksum, fileinfo_from_filename}
use mini_dropbox.Sending.{send_until_ok, send_chunks, file_send}
use mini_dropbox.Server.{string}
use mini_dropbox.Requests.{c_string, fileinfo_bytes, strcpy, zero_info}
use mini_dropbox.Streams.{fileinfo_of_bytes}
use mini_dropbox.Upload.{Disk}
use mini_dropbox.Client.{
  Client, Host, Line, reply_text, print_payload, xdg_get_dir, token_path, load_token, send,
}
use mini_dropbox.Client.Tests.{token_text, host, os, client}
use mini_dropbox.Copying.{cmd_upload, cmd_download, upload_file, upload_reply}
use mini_dropbox.Copying.Resuming.{upload_reply-truncates}

program : Unit {0}
unfolding stream bytes_eq send_all recv_all msg_init msg_clear type_code type_of_code to_bytes
    from_bytes hdr_bytes hdr_of_bytes msg_send recv_hdr msg_recv_header msg_recv_payload msg_recv
    msg_type_to_str chunk_hdr_bytes chunk_hdr_of_bytes checksums_match chunk_init chunk_send
    chunk_recv send_ack place_chunk accept_chunk on_chunk recv_chunks file_recv to_float
    count_chunks file_checksum fileinfo_from_filename send_until_ok send_chunks file_send c_string
    fileinfo_bytes fileinfo_of_bytes print_payload xdg_get_dir token_path load_token send cmd_upload
    cmd_download
program = tt

-- A client that has the file `a` of three bytes.
abbrev holder : Host (Option (List ℕ))
holder = record host {
  os = record os {
    lstat = λ path w. inr (regular, 3);
    open_rdonly = λ path w. inr (λ at. some (if at == 0 then 1 ∷ 2 ∷ 3 ∷ [] else []));
  };
  junk_array = replicate 4096 0;
}

abbrev disk : Disk (Option (List ℕ)) (List ℕ)
disk = record {
  create = λ path w. some [];
  ops = record { lseek = λ n f. some f; write = λ bytes f. f ++ bytes };
  left = λ f. some f;
}

abbrev taken : List ℕ → List SendOutcome
taken [] = []
taken (n ∷ sizes) = sent n ∷ taken sizes

abbrev asking : List ℕ → List ℕ → Client (Option (List ℕ))
asking sizes bytes = record (client 0) {
  socket = record {
    outcomes = taken sizes;
    wire = [];
    incoming = arrived bytes ∷ closed ∷ [];
    errno = 0;
  };
}

abbrev message : MessageType → List ℕ → List ℕ
message type payload =
    hdr_bytes (record zero_hdr { length = length payload; type = type }) ++ payload

-- What a command returns, has printed, and leaves in its file.
abbrev outcome : Run (ℤ × Client (Option (List ℕ))) → Option (ℤ × List Line × Option (List ℕ))
outcome (ok (code, t)) = some (code, t.output, t.files)
outcome blocked = none
outcome aborted = none

uploading :
    outcome (
      cmd_upload holder 5 (codes "a" ∷ []) (
        asking (48 ∷ 4144 ∷ 48 ∷ 64 ∷ 3 ∷ []) (
          message msgtype_upload_res (to_bytes 8 0)
          ++ (message msgtype_chunk_ok [] ++ message msgtype_upload_fin (string (codes "done"))))))
    ≡ some (pos 0, [], some (string token_text))
unfolding program
uploading = refl

-- A server that goes away in the middle: the exit code is still 0.
uploading_breaks :
    outcome (
      cmd_upload holder 5
        (codes "a" ∷ [])
        (asking (48 ∷ 4144 ∷ 48 ∷ 64 ∷ 3 ∷ []) (message msgtype_upload_res (to_bytes 8 0))))
    ≡ some (pos 0, [], some (string token_text))
unfolding program
uploading_breaks = refl

uploading_refused :
    outcome (
      cmd_upload holder 5
        (codes "a" ∷ [])
        (asking (48 ∷ 4144 ∷ []) (message msgtype_error (string (codes "full")))))
    ≡ some (pos 1, reply_text (some (codes "full")) ∷ [], some (string token_text))
unfolding program
uploading_refused = refl

abbrev chunk : List ℕ
chunk =
    chunk_hdr_bytes
      (record { seq = 0; start_byte = 0; end_byte = 2; length = 3; checksum = replicate 32 0 })
    ++ (7 ∷ 8 ∷ 9 ∷ [])

-- The file system here is one file, so what was the token is then the file.
downloading :
    outcome (
      cmd_download host disk 5 (codes "a" ∷ []) (
        asking (48 ∷ 4144 ∷ 48 ∷ 48 ∷ []) (
          message msgtype_download_res (
            fileinfo_bytes
              (record zero_info { size = 3; chunk_count = 1; filename = codes "a" })
              (strcpy (codes "a") (replicate 4096 0)))
          ++ message msgtype_send_chunk chunk)))
    ≡ some (pos 0, [], some (7 ∷ 8 ∷ 9 ∷ []))
unfolding program
downloading = refl

abbrev res : Message
res = record msg_clear { hdr = record zero_hdr { length = 8; type = msgtype_upload_res } }

abbrev resuming : Client (Option (List ℕ))
resuming = asking [] (to_bytes 8 300)

eight : res.hdr.length ≡ 8
unfolding msg_clear
eight = refl

resume_arrived : stream resuming.socket.incoming ≡ to_bytes 8 300 ++ []
unfolding program
resume_arrived = refl

upload_reply-truncates_example :
    (t : Socket) × (upload_reply holder 5 zero_info msgtype_upload_res res resuming
      ≡ upload_file holder 5 zero_info (300 % 256) (record resuming { socket = t }))
    × (stream t.incoming ≡ [])
    × (t.wire ≡ [])
    × (t.outcomes ≡ [])
upload_reply-truncates_example =
    upload_reply-truncates holder 5 zero_info res 300 [] resuming eight resume_arrived
