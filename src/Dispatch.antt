-- ===== src/Dispatch.antt =====
-- `on_client_message_received`, `on_oneshot_req` and `on_stream_req` of src/server.c.
-- `is_null` is libuuid's `uuid_is_null`.
pub mod Guard
pub mod Confined
pub mod Preserving
mod Tests
use mini_dropbox.Prelude.{
  ℕ, zero, suc, not, codes, ◌+◌, ◌-◌, ◌*◌, ◌%◌, ◌^◌, Bool, true, false, ◌&&◌, Option, none, some,
  List, [], ◌∷◌, ◌++◌, ℤ, pos, negsuc, is_neg, if◌then◌else◌, ◌==◌, ltb, bytes_eq, length,
  replicate, take, drop, get_elem?, set, inl, inr,
}
use mini_dropbox.UserMap.{Uuid, u64_mod}
use mini_dropbox.Session.{
  FileInfo, SessionType, sess_download, sess_upload, SessionState, sstate_idle, sstate_running,
  sstate_interrupted, Session, session_init,
}
use mini_dropbox.User.{
  Store, Slot, junk, null, at, User, user_add_session, user_get_session, user_remove_session,
}
use mini_dropbox.Net.{Run, ok, blocked, aborted}
use mini_dropbox.Msg.{
  MessageType, msgtype_none, msgtype_auth_req, msgtype_auth_fail, msgtype_remove_req,
  msgtype_mkdir_req, msgtype_upload_req, msgtype_download_req, msgtype_list_req, msgtype_fileinfo,
  msgtype_upload_fin, Message, msg_init, msg_clear, msg_recv_payload, to_bytes, from_bytes,
}
use mini_dropbox.Msg.Names.{msg_type_to_str}
use mini_dropbox.FilePath.{slash}
use mini_dropbox.UserPath.{path_max, snprintf, get_user_root, get_user_path}
use mini_dropbox.Transfer.{Stats, FileOps, file_recv}
use mini_dropbox.Files.{
  FileKind, regular, directory, other_kind, eexist, is_dots, file_exists, fileinfo_from_filename,
}
use mini_dropbox.Sending.{file_send}
use mini_dropbox.Server.{
  World, Act, done, undefined, ◌>>=◌, on_socket, on_files, look, on_value, string, send, send_error,
  send_upload_res, send_download_res, handle_recv_error, uman_get_user,
}
use mini_dropbox.Requests.{
  Env, c_string, fileinfo_size, zero_info, strcpy, fileinfo_bytes, reject, handle_auth,
  handle_remove, handle_mkdir,
}
use mini_dropbox.Streams.{
  fileinfo_of_bytes, last_slash, the_user, set_user, the_session, set_session, set_info,
  new_address, find_session, remove_session, new_session,
}
use mini_dropbox.Upload.{Disk, handle_upload}
use mini_dropbox.Download.{handle_download, handle_list}

abbrev pub is_auth_req : MessageType → Bool
is_auth_req msgtype_auth_req = true
is_auth_req _ = false

-- close(client_fd)
abbrev pub on_client_disconnected : {W : Type 0} → Act W (Unit {0})
on_client_disconnected s = ok (tt, record s { is_open = false })

module _ {W F : Type 0} (env : Env W) (disk : Disk W F) (fuel : ℕ) (unset : FileInfo)
    (is_null : Uuid → Bool) where
  unfoldable pub on_oneshot_req : MessageType → Option ℕ → Message → Act W (Unit {0})
  on_oneshot_req msgtype_auth_req user msg = handle_auth env msg
  on_oneshot_req msgtype_remove_req user msg = handle_remove env user msg
  on_oneshot_req msgtype_mkdir_req user msg = handle_mkdir env user msg
  on_oneshot_req _ user msg = done tt

  unfoldable pub on_stream_req : MessageType → Option ℕ → Message → Act W (Unit {0})
  on_stream_req msgtype_upload_req user msg = do
    r ← handle_upload env disk fuel user msg
    on_client_disconnected
  on_stream_req msgtype_download_req user msg = do
    r ← handle_download env fuel unset user msg
    on_client_disconnected
  on_stream_req msgtype_list_req user msg = do
    r ← handle_list env fuel unset user msg
    on_client_disconnected
  on_stream_req _ user msg = on_client_disconnected

  -- switch (msg->hdr.type). A stream request makes the socket blocking.
  unfoldable pub on_request : MessageType → Option ℕ → Message → Act W (Unit {0})
  unfolding on_oneshot_req on_stream_req
  on_request msgtype_auth_req user msg = on_oneshot_req msgtype_auth_req user msg
  on_request msgtype_remove_req user msg = on_oneshot_req msgtype_remove_req user msg
  on_request msgtype_mkdir_req user msg = on_oneshot_req msgtype_mkdir_req user msg
  on_request msgtype_upload_req user msg = on_stream_req msgtype_upload_req user msg
  on_request msgtype_download_req user msg = on_stream_req msgtype_download_req user msg
  on_request msgtype_list_req user msg = on_stream_req msgtype_list_req user msg
  on_request _ user msg = done tt

  -- The type is printed first, with the assertion that it is one of the enumerators.
  unfoldable pub on_client_message_received : Message → Act W ℤ
  unfolding on_request
  on_client_message_received msg = do
    name ← on_value (msg_type_to_str msg.hdr.type)
    (if not (is_auth_req msg.hdr.type) && is_null msg.hdr.token
        then (do r ← send env.now (msg_init msg msgtype_auth_fail none 0); done (negsuc 0))
        else (do
          user ← uman_get_user env.compare env.generated env.junk_chain msg.hdr.token
          r ← on_request msg.hdr.type user msg
          done (pos 0)))
