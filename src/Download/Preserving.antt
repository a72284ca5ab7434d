-- ===== src/Download/Preserving.antt =====
-- `handle_download` and `handle_list` of src/server.c keep an invariant of the table of users.
use mini_dropbox.Prelude.{
  ℕ, zero, suc, ◌∷◌, ◌++◌, [], true, Option, none, some, List, ℤ, pos, negsuc, is_neg, ltb, set,
  if◌then◌else◌, inl, inr, ◌⊎◌, codes,
}
use mini_dropbox.UserMap.{UserMap}
use mini_dropbox.Session.{FileInfo, sess_download, sstate_interrupted}
use mini_dropbox.User.{User}
use mini_dropbox.Net.{Run}
use mini_dropbox.Msg.{Message, msgtype_none, msgtype_fileinfo, msg_init, msg_recv_payload}
use mini_dropbox.FilePath.{slash}
use mini_dropbox.UserPath.{path_max, snprintf, get_user_path}
use mini_dropbox.Transfer.{Stats}
use mini_dropbox.Files.{FileKind, is_dots, file_exists, fileinfo_from_filename}
use mini_dropbox.Sending.{file_send}
use mini_dropbox.Server.{
  World, Act, done, ◌>>=◌, on_socket, look, on_value, send, send_download_res, handle_recv_error,
}
use mini_dropbox.Server.Preserving.{
  Good, Preserves, bind-Preserves, on_socket-Preserves, on_value-Preserves, look-Preserves,
  if-Preserves, send-Preserves, send_download_res-Preserves,
}
use mini_dropbox.Requests.{Env, c_string, fileinfo_size, fileinfo_bytes, reject}
use mini_dropbox.Requests.Preserving.{reject-Preserves}
use mini_dropbox.Streams.{
  fileinfo_of_bytes, the_session, set_session, set_info, new_address, find_session, remove_session,
  new_session,
}
use mini_dropbox.Streams.Preserving.{
  the_session-Preserves, find_session-Preserves, remove_session-Preserves, new_session-Preserves,
}
use mini_dropbox.Download.{
  int_to_size, name_array, send_file, after_download, download_session, download_file,
  download_found, download_path, download_info, handle_download, entry_bytes, list_entries,
  list_dir, list_path, list_payload, handle_list,
}

module _ {W : Type 0} (env : Env W) (fuel : ℕ) (unset : FileInfo)
    (I : UserMap ℕ → List User → Type 0) where
  send_file-Preserves :
      (filename : List ℕ) (start : ℕ) → Preserves I (send_file env fuel unset filename start)
  unfolding send_file
  send_file-Preserves filename start s h =
      on_socket-Preserves I
        (file_send env.digest env.now env.junk_message env.os fuel unset filename start s.files) s h

  list_entries-Preserves :
      (path : List ℕ) (entries : List (List ℕ × FileKind)) (msg : Message)
      → Preserves I (list_entries env fuel unset path entries msg)
  unfolding list_entries
  list_entries-Preserves path [] msg = λ s h. h
  list_entries-Preserves path ((name, kind) ∷ entries) msg =
      if-Preserves I (is_dots name) (list_entries env fuel unset path entries msg) _
        (list_entries-Preserves path entries msg)
        (bind-Preserves I
          (look (entry_bytes env fuel unset kind (snprintf path_max (path ++ slash ∷ name)) name)) _
          (look-Preserves I _)
          (λ bytes.
            bind-Preserves I
              (send env.now (msg_init msg msgtype_fileinfo (some bytes) fileinfo_size)) _
              (send-Preserves I env.now _) (λ r. list_entries-Preserves path entries msg)))

  list_dir-Preserves :
      (msg : Message) (path : List ℕ) → Preserves I (list_dir env fuel unset msg path)
  unfolding list_dir
  list_dir-Preserves msg path s h = go (env.os.opendir path s.files)
    where
      go :
          (x : ℕ ⊎ List (List ℕ × FileKind))
          → Good I (elim x as (λ _. Run (Unit {0} × World W)) [
            | inl errno ↦ reject env (env.strerror errno) s
            | inr entries ↦
                (do
                  last ← list_entries env fuel unset path entries msg
                  r ← send env.now (msg_init last msgtype_none none 0)
                  done tt)
                  s
          ])
      go (inl errno) = reject-Preserves env I (env.strerror errno) s h
      go (inr entries) =
          bind-Preserves I (list_entries env fuel unset path entries msg) _
            (list_entries-Preserves path entries msg)
            (λ last.
              bind-Preserves I (send env.now (msg_init last msgtype_none none 0)) (λ r. done tt)
                (send-Preserves I env.now _) (λ r s h. h))
            s h

  list_path-Preserves :
      (msg : Message) (path : Option (List ℕ)) → Preserves I (list_path env fuel unset msg path)
  unfolding list_path
  list_path-Preserves msg none = λ s h. h
  list_path-Preserves msg (some path) = list_dir-Preserves msg path

  pub handle_list-Preserves :
      (user : Option ℕ) (msg : Message) → Preserves I (handle_list env fuel unset user msg)
  unfolding handle_list list_payload
  handle_list-Preserves none msg = reject-Preserves env I _
  handle_list-Preserves (some user) msg =
      bind-Preserves I (on_socket (msg_recv_payload msg path_max)) _ (on_socket-Preserves I _) (λ r.
        if-Preserves I (handle_recv_error r.0) _ (done tt)
          (bind-Preserves I (on_value (c_string r.1.payload)) _ (on_value-Preserves I _) (λ name.
            bind-Preserves I (on_value (get_user_path env.unparse true name r.1.hdr.token))
              (list_path env fuel unset r.1) (on_value-Preserves I _) (list_path-Preserves r.1)))
          (λ s h. h))

  module _
      (updates : (map : UserMap ℕ) (heap : List User) (p : ℕ) (user : User)
        → I map heap
        → I map (set heap p user)) where
    after_download-Preserves :
        (user session : ℕ) (filename : List ℕ) (stats : Stats)
        → Preserves I (after_download env fuel unset user session filename stats)
    unfolding after_download
    after_download-Preserves user session filename stats =
        if-Preserves I (is_neg stats.error_code) _ (remove_session user sess_download filename)
          (bind-Preserves I (the_session session) _ (the_session-Preserves I session) (λ sess.
            bind-Preserves I
              (set_session session (record sess {
                state = sstate_interrupted;
                last_transfered_chunk = stats.last_chunk;
              }))
              _ (λ s h. h)
              (λ r.
                reject-Preserves env I
                  (codes "transfer interrupted, try again to resume download\n"))))
          (remove_session-Preserves I updates user sess_download filename)

    download_session-Preserves :
        (user place : ℕ) (filename : List ℕ)
        → Preserves I (download_session env fuel unset user place filename)
    unfolding download_session
    download_session-Preserves user place filename =
        bind-Preserves I (find_session user sess_download filename) _
          (find_session-Preserves I user sess_download filename) chosen
      where
        chosen :
            (found : Option ℕ)
            → Preserves I (elim found as (λ _. Act W ℕ) [
              | none ↦ new_session env.now user place sess_download
              | some session ↦ done session
            ])
        chosen none = new_session-Preserves I updates env.now user place sess_download
        chosen (some session) = λ s h. h

    download_file-Preserves :
        (user : ℕ) (info : FileInfo) (array filename : List ℕ)
        → Preserves I (download_file env fuel unset user info array filename)
    unfolding download_file
    download_file-Preserves user info array filename =
        bind-Preserves I new_address _ (λ s h. h)
          (λ place.
            bind-Preserves I (set_info place info) _ (λ s h. h)
              (λ r.
                bind-Preserves I (download_session env fuel unset user place filename) _
                  (download_session-Preserves user place filename)
                  (λ session.
                    bind-Preserves I
                      (look (fileinfo_from_filename env.digest env.os fuel filename info)) _
                      (look-Preserves I _)
                      (λ full.
                        bind-Preserves I (set_info place full.1) _ (λ s h. h)
                          (λ r2. sending session full)))))
      where
        start_chunk : ℕ
        start_chunk = if ltb 0 info.size then int_to_size info.chunk_count else 0

        sending :
            (session : ℕ) (full : ℤ × FileInfo)
            → Preserves I (do
              r3 ←
                  send_download_res env.now
                    (fileinfo_bytes full.1 (name_array full.0 filename array))
                    fileinfo_size
              stats ← send_file env fuel unset full.1.filename start_chunk
              after_download env fuel unset user session filename stats)
        sending session full =
            bind-Preserves I
              (send_download_res env.now (fileinfo_bytes full.1 (name_array full.0 filename array))
                fileinfo_size)
              _ (send_download_res-Preserves I env.now _ _)
              (λ r3.
                bind-Preserves I (send_file env fuel unset full.1.filename start_chunk)
                  (after_download env fuel unset user session filename)
                  (send_file-Preserves full.1.filename start_chunk)
                  (after_download-Preserves user session filename))

    download_found-Preserves :
        (user : ℕ) (info : FileInfo) (array filename : List ℕ) (found : ℤ)
        → Preserves I (download_found env fuel unset user info array filename found)
    unfolding download_found
    download_found-Preserves user info array filename (negsuc n) = reject-Preserves env I _
    download_found-Preserves user info array filename (pos zero) = reject-Preserves env I _
    download_found-Preserves user info array filename (pos (suc n)) =
        download_file-Preserves user info array filename

    download_path-Preserves :
        (user : ℕ) (info : FileInfo) (array : List ℕ) (path : Option (List ℕ))
        → Preserves I (download_path env fuel unset user info array path)
    unfolding download_path
    download_path-Preserves user info array none = reject-Preserves env I _
    download_path-Preserves user info array (some filename) =
        bind-Preserves I (look (λ w. some (file_exists env.os filename w)))
          (download_found env fuel unset user info array filename) (λ s h. h)
          (download_found-Preserves user info array filename)

    pub handle_download-Preserves :
        (user : Option ℕ) (msg : Message) → Preserves I (handle_download env fuel unset user msg)
    unfolding handle_download download_info
    handle_download-Preserves none msg = reject-Preserves env I _
    handle_download-Preserves (some user) msg =
        bind-Preserves I (on_socket (msg_recv_payload msg fileinfo_size)) _
          (on_socket-Preserves I _)
          (λ r.
            if-Preserves I (handle_recv_error r.0) _ (done tt)
              (bind-Preserves I (on_value (fileinfo_of_bytes r.1.payload)) _
                (on_value-Preserves I _)
                (λ info.
                  bind-Preserves I
                    (on_value (get_user_path env.unparse true info.filename r.1.hdr.token))
                    (download_path env fuel unset user info _) (on_value-Preserves I _)
                    (download_path-Preserves user info _)))
              (λ s h. h))
