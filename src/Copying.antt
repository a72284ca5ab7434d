-- ===== src/Copying.antt =====
-- `cmd_upload` and `cmd_download` of src/client.c. The result is the exit code.
pub mod Resuming
mod Tests
use mini_dropbox.Prelude.{
  ℕ, zero, suc, codes, ◌/◌, Option, none, some, List, [], ◌∷◌, ℤ, pos, negsuc, is_neg,
  if◌then◌else◌, ltb, length, replicate, inl, inr,
}
use mini_dropbox.Session.{FileInfo}
use mini_dropbox.Net.{ok, blocked, aborted}
use mini_dropbox.Msg.{
  MessageType, msgtype_error, msgtype_auth_fail, msgtype_upload_req, msgtype_upload_res,
  msgtype_upload_fin, msgtype_download_req, msgtype_download_res, msgtype_download_fin, Message,
  msg_init, msg_clear, msg_recv_header, msg_recv_payload,
}
use mini_dropbox.Msg.Names.{msg_type_to_str}
use mini_dropbox.UserPath.{path_max}
use mini_dropbox.Transfer.{Stats, chunk_size, file_recv}
use mini_dropbox.Files.{to_float, fileinfo_from_filename}
use mini_dropbox.Sending.{file_send}
use mini_dropbox.Server.{handle_recv_error}
use mini_dropbox.Requests.{fileinfo_size, zero_info, strcpy, fileinfo_bytes}
use mini_dropbox.Streams.{fileinfo_of_bytes}
use mini_dropbox.Upload.{Disk}
use mini_dropbox.Client.{
  Host, Act, done, undefined, ◌>>=◌, on_socket, look, on_value, print_payload, send, loaded,
}

-- (size_t)(*msg.payload): the first byte
abbrev pub first_byte : Option (List ℕ) → Option ℕ
first_byte none = none
first_byte (some []) = none
first_byte (some (b ∷ bytes)) = some b

-- What is printed of the type of the last message.
abbrev pub fin_text : MessageType → Option (List ℕ)
fin_text msgtype_upload_fin = some (codes "upload done!\n")
fin_text type = msg_type_to_str type

-- A text from the server, whose receive is not checked.
pub server_error : {W : Type 0} → Message → Act W ℤ
server_error msg = do
  q ← on_socket (msg_recv_payload msg 8192)
  p ← print_payload q.1.payload
  done (pos 1)

module _ {W : Type 0} (host : Host W) (fuel : ℕ) where
  -- file_send(sockfd, info.filename, seq, on_chunk)
  pub send_file : List ℕ → ℕ → Act W Stats
  send_file filename seq s =
      on_socket
        (file_send host.digest host.now host.junk_message host.os fuel host.junk_info filename seq
          s.files)
        s

  -- The stats of the transfer, and what the last receive returns, are only printed.
  pub upload_file : FileInfo → ℕ → Act W ℤ
  unfolding send_file
  upload_file info seq = do
    stats ← send_file info.filename seq
    r ← on_socket (msg_recv_header host.now msg_clear)
    text ← on_value (fin_text r.1.hdr.type)
    done (pos 0)

  pub upload_reply : FileInfo → MessageType → Message → Act W ℤ
  unfolding upload_file server_error
  upload_reply info msgtype_auth_fail msg = done (pos 1)
  upload_reply info msgtype_error msg = server_error msg
  upload_reply info msgtype_upload_res msg = do
    q ← on_socket (msg_recv_payload msg 8)
    (if handle_recv_error q.0
        then (do seq ← on_value (first_byte q.1.payload); upload_file info seq)
        else done (pos 1))
  upload_reply info type msg = done (pos 1)

  -- msg_print(&msg) stands in front of the tests of the type.
  pub upload_request : FileInfo → Message → Act W ℤ
  unfolding upload_reply
  upload_request info msg = do
    let bytes = fileinfo_bytes info (strcpy info.filename host.junk_array)
    sent ← send host (msg_init msg msgtype_upload_req (some bytes) fileinfo_size)
    (if is_neg sent.0 then done (pos 1) else (do
      r ← on_socket (msg_recv_header host.now msg_clear)
      (if handle_recv_error r.0
          then (do
            name ← on_value (msg_type_to_str r.1.hdr.type)
            upload_reply info r.1.hdr.type r.1)
          else done (pos 1))))

  unfoldable pub cmd_upload : List (List ℕ) → Act W ℤ
  unfolding upload_request
  cmd_upload [] = done (pos 1)
  cmd_upload (path ∷ args) = do
    r ← look (fileinfo_from_filename host.digest host.os fuel path host.junk_info)
    (if is_neg r.0 then done (pos 1) else loaded host msg_clear (upload_request r.1))

-- What is known of the local file: its size and its whole chunks, if it is there.
local_info : {W : Type 0} → Host W → List ℕ → List ℕ → W → FileInfo
local_info host remote local w =
    let info : FileInfo = record zero_info { filename = remote } in
    elim (host.os.lstat local w) [
      | inl e ↦ info
      | inr (kind, size) ↦ record info { size = size; chunk_count = to_float size / chunk_size }
    ]

module _ {W F : Type 0} (host : Host W) (disk : Disk W F) (fuel : ℕ) where
  -- file_recv(sockfd, rcvd_info, on_chunk)
  pub receive_file : ℕ → List ℕ → Act W Stats
  receive_file count filename s =
      elim (file_recv host.digest host.now disk.ops host.junk_payload fuel count
        (disk.create filename s.files) s.socket) [
          | blocked ↦ blocked
          | aborted ↦ aborted
          | ok ((stats, none), t) ↦ ok (stats, record s { socket = t })
          | ok ((stats, some f), t) ↦ ok (stats, record s { socket = t; files = disk.left f })
        ]

  -- The information of the server, with the local name.
  pub download_file : List ℕ → Message → Act W ℤ
  unfolding receive_file
  download_file local msg = do
    info ← on_value (fileinfo_of_bytes msg.payload)
    (if ltb (length local) path_max
        then (do
          stats ← receive_file info.chunk_count local
          sent ← send host (msg_init msg msgtype_download_fin none 0)
          done (pos 0))
        else undefined)

  pub download_reply : List ℕ → MessageType → Message → Act W ℤ
  unfolding download_file server_error
  download_reply local msgtype_auth_fail msg = done (pos 1)
  download_reply local msgtype_error msg = server_error msg
  download_reply local msgtype_download_res msg = do
    q ← on_socket (msg_recv_payload msg 8192)
    (if handle_recv_error q.0 then download_file local q.1 else done (pos 1))
  download_reply local type msg = done (pos 1)

  pub download_request : List ℕ → List ℕ → Message → Act W ℤ
  unfolding local_info download_reply
  download_request remote local msg = do
    info ← look (λ w. some (local_info host remote local w))
    let bytes = fileinfo_bytes info (strcpy remote (replicate path_max 0))
    sent ← send host (msg_init msg msgtype_download_req (some bytes) fileinfo_size)
    (if is_neg sent.0 then done (pos 1) else (do
      r ← on_socket (msg_recv_header host.now msg_clear)
      (if handle_recv_error r.0
          then (do
            name ← on_value (msg_type_to_str r.1.hdr.type)
            download_reply local r.1.hdr.type r.1)
          else done (pos 1))))

  -- The second argument, if there is one.
  abbrev pub local_name : List ℕ → List (List ℕ) → List ℕ
  local_name remote [] = remote
  local_name remote (local ∷ args) = local

  -- strcpy(info.filename, argv[0]) has to fit the array.
  unfoldable pub cmd_download : List (List ℕ) → Act W ℤ
  unfolding download_request
  cmd_download [] = done (pos 1)
  cmd_download (remote ∷ args) = loaded host host.junk_message (λ msg.
      if ltb (length remote) path_max
      then download_request remote (local_name remote args) msg
      else undefined)
