-- ===== src/Download.antt =====
-- `handle_download` and `handle_list` of src/server.c.
pub mod Preserving
pub mod Listing
pub mod Replying
use mini_dropbox.Prelude.{
  ℕ, zero, suc, codes, ◌+◌, ◌-◌, ◌%◌, ◌^◌, true, Option, none, some, List, [], ◌∷◌, ◌++◌, ℤ, pos,
  negsuc, is_neg, if◌then◌else◌, ltb, replicate, take, drop, inl, inr,
}
use mini_dropbox.UserMap.{u64_mod}
use mini_dropbox.Session.{FileInfo, sess_download, sstate_interrupted}
use mini_dropbox.Msg.{msgtype_none, msgtype_fileinfo, Message, msg_init, msg_recv_payload}
use mini_dropbox.FilePath.{slash}
use mini_dropbox.UserPath.{path_max, snprintf, get_user_path}
use mini_dropbox.Transfer.{Stats}
use mini_dropbox.Files.{
  FileKind, regular, directory, other_kind, is_dots, file_exists, fileinfo_from_filename,
}
use mini_dropbox.Sending.{file_send}
use mini_dropbox.Server.{
  Act, done, ◌>>=◌, on_socket, look, on_value, send, send_download_res, handle_recv_error,
}
use mini_dropbox.Requests.{Env, c_string, fileinfo_size, zero_info, strcpy, fileinfo_bytes, reject}
use mini_dropbox.Streams.{
  fileinfo_of_bytes, the_session, set_session, set_info, new_address, find_session, remove_session,
  new_session,
}

-- (size_t)(int)n
abbrev pub int_to_size : ℕ → ℕ
int_to_size n = let k = n % 2 ^ 32 in if ltb k (2 ^ 31) then k else k + (u64_mod - 2 ^ 32)

-- What the array of the name holds behind `fileinfo_from_filename`, by its code.
abbrev pub name_array : ℤ → List ℕ → List ℕ → List ℕ
name_array (pos n) filename array = strcpy filename array
name_array (negsuc zero) filename array = array
name_array (negsuc (suc zero)) filename array = array
name_array (negsuc (suc (suc n))) filename array = strcpy filename array

-- `unset` is what the local `info` of `file_send` holds before it is set.
module _ {W : Type 0} (env : Env W) (fuel : ℕ) (unset : FileInfo) where
  -- file_send(sockfd, info->filename, start_chunk, NULL)
  send_file : List ℕ → ℕ → Act W Stats
  send_file filename start_chunk s =
      on_socket
        (file_send env.digest env.now env.junk_message env.os fuel unset filename start_chunk
          s.files)
        s

  after_download : ℕ → ℕ → List ℕ → Stats → Act W (Unit {0})
  after_download user session filename stats =
      if is_neg stats.error_code
      then (do
        sess ← the_session session
        r ←
            set_session session
              (record sess { state = sstate_interrupted; last_transfered_chunk = stats.last_chunk })
        reject env (codes "transfer interrupted, try again to resume download\n"))
      else remove_session user sess_download filename

  -- The session of the transfer. Where it would go on is overwritten by the caller.
  download_session : ℕ → ℕ → List ℕ → Act W ℕ
  download_session user place filename = do
    found ← find_session user sess_download filename
    elim found [ none ↦ new_session env.now user place sess_download | some session ↦ done session ]

  -- The file exists: `info` stands at `place`, and its name in `array`.
  download_file : ℕ → FileInfo → List ℕ → List ℕ → Act W (Unit {0})
  unfolding after_download download_session send_file
  download_file user info array filename = do
    place ← new_address
    r ← set_info place info
    session ← download_session user place filename
    let start_chunk = if ltb 0 info.size then int_to_size info.chunk_count else 0
    full ← look (fileinfo_from_filename env.digest env.os fuel filename info)
    r2 ← set_info place full.1
    r3 ←
        send_download_res env.now (fileinfo_bytes full.1 (name_array full.0 filename array))
          fileinfo_size
    stats ← send_file full.1.filename start_chunk
    after_download user session filename stats

  -- The code of `file_exists`.
  download_found : ℕ → FileInfo → List ℕ → List ℕ → ℤ → Act W (Unit {0})
  unfolding download_file
  download_found user info array filename (negsuc n) =
      reject env (codes "error while checking if file exists")
  download_found user info array filename (pos zero) = reject env (codes "file doesn't exist")
  download_found user info array filename (pos (suc n)) = download_file user info array filename

  -- The path of the user's file.
  download_path : ℕ → FileInfo → List ℕ → Option (List ℕ) → Act W (Unit {0})
  unfolding download_found
  download_path user info array none = reject env (codes "failed to get user path")
  download_path user info array (some filename) = do
    found ← look (λ w. some (file_exists env.os filename w))
    download_found user info array filename found

  download_info : ℕ → Message → Act W (Unit {0})
  unfolding download_path
  download_info user msg = do
    info ← on_value (fileinfo_of_bytes msg.payload)
    filename ← on_value (get_user_path env.unparse true info.filename msg.hdr.token)
    let array : List ℕ = elim msg.payload [ none ↦ [] | some p ↦ take path_max (drop 48 p) ]
    download_path user info array filename

  unfoldable pub handle_download : Option ℕ → Message → Act W (Unit {0})
  unfolding download_info
  handle_download none msg = reject env (codes "user not found")
  handle_download (some user) msg = do
    r ← on_socket (msg_recv_payload msg fileinfo_size)
    (if handle_recv_error r.0 then download_info user r.1 else done tt)

  -- The payload for one entry: the information if it is a regular file, and then its name.
  entry_bytes : FileKind → List ℕ → List ℕ → W → Option (List ℕ)
  entry_bytes regular filepath name w =
      elim (fileinfo_from_filename env.digest env.os fuel filepath zero_info w) [
        | none ↦ none
        | some (ret, info) ↦
            some
              (fileinfo_bytes info (strcpy name (name_array ret filepath (replicate path_max 0))))
      ]
  entry_bytes directory filepath name w =
      some (fileinfo_bytes zero_info (strcpy name (replicate path_max 0)))
  entry_bytes other_kind filepath name w =
      some (fileinfo_bytes zero_info (strcpy name (replicate path_max 0)))

  -- while ((entry = readdir(dir)) != NULL); `msg_init` sets all of the message but its token.
  list_entries : List ℕ → List (List ℕ × FileKind) → Message → Act W Message
  unfolding entry_bytes
  list_entries path [] msg = done msg
  list_entries path ((name, kind) ∷ entries) msg =
      if is_dots name then list_entries path entries msg else (do
        bytes ← look (entry_bytes kind (snprintf path_max (path ++ slash ∷ name)) name)
        r ← send env.now (msg_init msg msgtype_fileinfo (some bytes) fileinfo_size)
        list_entries path entries msg)

  -- What `opendir` gives.
  list_dir : Message → List ℕ → Act W (Unit {0})
  unfolding list_entries
  list_dir msg path s = elim (env.os.opendir path s.files) [
    | inl errno ↦ reject env (env.strerror errno) s
    | inr entries ↦
        (do
          last ← list_entries path entries msg
          r ← send env.now (msg_init last msgtype_none none 0)
          done tt)
          s
  ]

  -- No reply if the path is refused.
  list_path : Message → Option (List ℕ) → Act W (Unit {0})
  unfolding list_dir
  list_path msg none = done tt
  list_path msg (some path) = list_dir msg path

  list_payload : Message → Act W (Unit {0})
  unfolding list_path
  list_payload msg = do
    name ← on_value (c_string msg.payload)
    path ← on_value (get_user_path env.unparse true name msg.hdr.token)
    list_path msg path

  unfoldable pub handle_list : Option ℕ → Message → Act W (Unit {0})
  unfolding list_payload
  handle_list none msg = reject env (codes "user not found")
  handle_list (some user) msg = do
    r ← on_socket (msg_recv_payload msg path_max)
    (if handle_recv_error r.0 then list_payload r.1 else done tt)
