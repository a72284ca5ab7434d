-- ===== src/Upload.antt =====
-- `handle_upload` of src/server.c.
-- `F` is the file system with a descriptor that is open for writing.
pub mod Preserving
use mini_dropbox.Prelude.{
  ℕ, zero, suc, codes, ◌+◌, ◌*◌, ◌%◌, Option, none, some, List, ◌++◌, pos, negsuc, is_neg,
  if◌then◌else◌, ◌==◌, ltb, length,
}
use mini_dropbox.UserMap.{Uuid, u64_mod}
use mini_dropbox.Session.{FileInfo, sess_upload, sstate_idle, sstate_running, sstate_interrupted}
use mini_dropbox.Net.{ok, blocked, aborted}
use mini_dropbox.Msg.{msgtype_upload_fin, Message, msg_init, msg_clear, msg_recv_payload, to_bytes}
use mini_dropbox.UserPath.{path_max, snprintf, get_user_root}
use mini_dropbox.Transfer.{Stats, FileOps, file_recv}
use mini_dropbox.Files.{eexist}
use mini_dropbox.Server.{
  Act, done, undefined, ◌>>=◌, on_socket, on_files, on_value, string, send, send_upload_res,
  handle_recv_error,
}
use mini_dropbox.Requests.{Env, fileinfo_size, reject}
use mini_dropbox.Streams.{
  fileinfo_of_bytes, last_slash, the_user, the_session, set_session, set_info, new_address,
  find_session, remove_session, new_session,
}

-- Opening a file for writing, and the file system when the descriptor is not used any more.
pub record Disk (W F : Type 0) : Type 0 where
  pub create : List ℕ → W → Option F
  pub ops : FileOps F
  pub left : F → W

module _ {W F : Type 0} (env : Env W) (disk : Disk W F) (fuel : ℕ) where
  -- file_recv(sockfd, info, NULL)
  receive_file : ℕ → List ℕ → Act W Stats
  receive_file count filename s =
      elim (file_recv env.digest env.now disk.ops env.junk_payload fuel count
        (disk.create filename s.files) s.socket) [
          | blocked ↦ blocked
          | aborted ↦ aborted
          | ok ((stats, none), t) ↦ ok (stats, record s { socket = t })
          | ok ((stats, some f), t) ↦ ok (stats, record s { socket = t; files = disk.left f })
        ]

  -- The message that the file is there, and the end of the session.
  upload_fin : ℕ → List ℕ → Act W (Unit {0})
  upload_fin user filename = do
    let text = string (codes "file successfully uploaded")
    r ← send env.now (msg_init msg_clear msgtype_upload_fin (some text) (length text))
    remove_session user sess_upload filename

  -- What follows a transfer: only the codes -1 and -2 end it early.
  after_upload : ℕ → ℕ → List ℕ → Stats → Act W (Unit {0})
  unfolding upload_fin
  after_upload user session filename stats = do
    sess ← the_session session
    r ←
        (if is_neg stats.error_code
          then set_session session
              (record sess { state = sstate_interrupted; last_transfered_chunk = stats.last_chunk })
          else done tt)
    elim stats.error_code [
      | negsuc zero ↦ reject env (codes "could not recv file")
      | negsuc (suc zero) ↦ done tt
      | negsuc (suc (suc n)) ↦ upload_fin user filename
      | pos n ↦ upload_fin user filename
    ]

  -- The session of the transfer, and the chunk from which it goes on.
  upload_session : ℕ → ℕ → List ℕ → Act W (ℕ × ℕ)
  upload_session user info filename = do
    found ← find_session user sess_upload filename
    elim found [
      | none ↦ (do session ← new_session env.now user info sess_upload; done (session, 0))
      | some session ↦ (do
        sess ← the_session session
        done (
          session,
          elim sess.state [
            | sstate_idle ↦ 0
            | sstate_running ↦ 0
            | sstate_interrupted ↦ sess.last_transfered_chunk
          ],
        ))
    ]

  upload_to : ℕ → ℕ → List ℕ → ℕ → List ℕ → Act W (Unit {0})
  unfolding upload_session after_upload receive_file
  upload_to user info root_dir count filename = do
    chosen ← upload_session user info filename
    made ← on_files (λ w. some (env.os.mkdir root_dir w))
    let transfer : Act W (Unit {0}) = (do
      r ← send_upload_res env.now (to_bytes 8 chosen.1) 8
      sess ← the_session chosen.0
      r2 ← set_session chosen.0 (record sess { state = sstate_running })
      stats ← receive_file count filename
      after_upload user chosen.0 filename stats)
    elim made [
      | none ↦ transfer
      | some errno ↦
          if errno == eexist then transfer else reject env (codes "failed to create user directory")
    ]

  -- The new name of the file: its last part, below the user's root. The name has to fit its array.
  upload_info : ℕ → Uuid → FileInfo → Act W (Unit {0})
  unfolding upload_to
  upload_info user token info = do
    owner ← the_user user
    let too_big = ltb owner.total_space ((owner.used_space + info.size) % u64_mod)
    (if too_big then reject env (codes "user storage space is not sufficient") else (do
      let root_dir = get_user_root env.unparse token
      last ← on_value (last_slash info.filename)
      let filename = snprintf (2 * path_max) (root_dir ++ last)
      place ← new_address
      r ← set_info place (record info { filename = filename })
      (if ltb (length filename) path_max
          then upload_to user place root_dir info.chunk_count filename
          else undefined)))

  unfoldable pub handle_upload : Option ℕ → Message → Act W (Unit {0})
  unfolding upload_info
  handle_upload none msg = reject env (codes "user not found")
  handle_upload (some user) msg = do
    r ← on_socket (msg_recv_payload msg fileinfo_size)
    (if handle_recv_error r.0
        then (do
          info ← on_value (fileinfo_of_bytes r.1.payload)
          upload_info user r.1.hdr.token info)
        else done tt)
