-- ===== src/Upload/Preserving.antt =====
-- `handle_upload` of src/server.c keeps an invariant of the table of users.
use mini_dropbox.Prelude.{
  ℕ, zero, suc, ◌+◌, ◌*◌, ◌%◌, Option, none, some, List, ◌++◌, ℤ, pos, negsuc, is_neg, ltb, set,
  length, if◌then◌else◌, ◌==◌, codes,
}
use mini_dropbox.UserMap.{UserMap, Uuid, u64_mod}
use mini_dropbox.Session.{FileInfo, sess_upload, sstate_idle, sstate_running, sstate_interrupted}
use mini_dropbox.User.{User}
use mini_dropbox.Net.{Socket, Run, ok, blocked, aborted}
use mini_dropbox.Msg.{Message, msg_recv_payload, to_bytes}
use mini_dropbox.UserPath.{path_max, snprintf, get_user_root}
use mini_dropbox.Transfer.{Stats, file_recv}
use mini_dropbox.Files.{eexist}
use mini_dropbox.Server.{
  World, Act, done, undefined, ◌>>=◌, on_socket, on_files, on_value, send, send_upload_res,
  handle_recv_error,
}
use mini_dropbox.Server.Preserving.{
  Good, Preserves, bind-Preserves, on_socket-Preserves, on_value-Preserves, if-Preserves,
  send-Preserves, send_upload_res-Preserves,
}
use mini_dropbox.Requests.{Env, fileinfo_size, reject}
use mini_dropbox.Requests.Preserving.{reject-Preserves}
use mini_dropbox.Streams.{
  fileinfo_of_bytes, last_slash, the_user, the_session, set_session, set_info, new_address,
  find_session, new_session,
}
use mini_dropbox.Streams.Preserving.{
  the_user-Preserves, the_session-Preserves, find_session-Preserves, remove_session-Preserves,
  new_session-Preserves,
}
use mini_dropbox.Upload.{
  Disk, receive_file, upload_fin, after_upload, upload_session, upload_to, upload_info,
  handle_upload,
}

module _ {W F : Type 0} (env : Env W) (disk : Disk W F) (fuel : ℕ)
    (I : UserMap ℕ → List User → Type 0)
    (updates : (map : UserMap ℕ) (heap : List User) (p : ℕ) (user : User)
      → I map heap
      → I map (set heap p user)) where
  receive_file-Preserves :
      (count : ℕ) (filename : List ℕ) → Preserves I (receive_file env disk fuel count filename)
  unfolding receive_file
  receive_file-Preserves count filename s h = go (
      file_recv env.digest env.now disk.ops env.junk_payload fuel count
        (disk.create filename s.files) s.socket)
    where
      go :
          (x : Run ((Stats × Option F) × Socket))
          → Good I (elim x as (λ _. Run (Stats × World W)) [
            | blocked ↦ blocked
            | aborted ↦ aborted
            | ok ((stats, none), t) ↦ ok (stats, record s { socket = t })
            | ok ((stats, some f), t) ↦ ok (stats, record s { socket = t; files = disk.left f })
          ])
      go (ok ((stats, none), t)) = h
      go (ok ((stats, some f), t)) = h
      go blocked = tt
      go aborted = tt

  upload_fin-Preserves :
      (user : ℕ) (filename : List ℕ) → Preserves I (upload_fin env disk fuel user filename)
  unfolding upload_fin
  upload_fin-Preserves user filename =
      bind-Preserves I (send env.now _) _ (send-Preserves I env.now _)
        (λ r. remove_session-Preserves I updates user sess_upload filename)

  after_upload-Preserves :
      (user session : ℕ) (filename : List ℕ) (stats : Stats)
      → Preserves I (after_upload env disk fuel user session filename stats)
  unfolding after_upload
  after_upload-Preserves user session filename stats =
      bind-Preserves I (the_session session) _ (the_session-Preserves I session) (λ sess.
        bind-Preserves I
          (if is_neg stats.error_code
            then set_session session (record sess {
              state = sstate_interrupted;
              last_transfered_chunk = stats.last_chunk;
            })
            else done tt)
          _ (if-Preserves I (is_neg stats.error_code) _ (done tt) (λ s h. h) (λ s h. h))
          (λ r. by_code stats.error_code))
    where
      by_code :
          (code : ℤ)
          → Preserves I (elim code as (λ _. Act W (Unit {0})) [
            | negsuc zero ↦ reject env (codes "could not recv file")
            | negsuc (suc zero) ↦ done tt
            | negsuc (suc (suc n)) ↦ upload_fin env disk fuel user filename
            | pos n ↦ upload_fin env disk fuel user filename
          ])
      by_code (negsuc zero) = reject-Preserves env I _
      by_code (negsuc (suc zero)) = λ s h. h
      by_code (negsuc (suc (suc n))) = upload_fin-Preserves user filename
      by_code (pos n) = upload_fin-Preserves user filename

  upload_session-Preserves :
      (user info : ℕ) (filename : List ℕ)
      → Preserves I (upload_session env disk fuel user info filename)
  unfolding upload_session
  upload_session-Preserves user info filename =
      bind-Preserves I (find_session user sess_upload filename) _
        (find_session-Preserves I user sess_upload filename) chosen
    where
      chosen :
          (found : Option ℕ)
          → Preserves I (elim found as (λ _. Act W (ℕ × ℕ)) [
            | none ↦ (do session ← new_session env.now user info sess_upload; done (session, 0))
            | some session ↦ (do
              sess ← the_session session
              done (
                session,
                elim sess.state [
                  | sstate_idle ↦ 0
                  | sstate_running ↦ 0
                  | sstate_interrupted ↦ sess.last_transfered_chunk
                ],
              ))
          ])
      chosen none =
          bind-Preserves I (new_session env.now user info sess_upload) _
            (new_session-Preserves I updates env.now user info sess_upload) (λ session s h. h)
      chosen (some session) =
          bind-Preserves I (the_session session) _ (the_session-Preserves I session) (λ sess s h. h)

  upload_to-Preserves :
      (user info : ℕ) (root_dir : List ℕ) (count : ℕ) (filename : List ℕ)
      → Preserves I (upload_to env disk fuel user info root_dir count filename)
  unfolding upload_to
  upload_to-Preserves user info root_dir count filename =
      bind-Preserves I (upload_session env disk fuel user info filename) _
        (upload_session-Preserves user info filename)
        (λ chosen.
          bind-Preserves I (on_files (λ w. some (env.os.mkdir root_dir w))) _ (λ s h. h)
            (λ made. by_errno chosen made))
    where
      transfer : ℕ × ℕ → Act W (Unit {0})
      transfer chosen = do
        r ← send_upload_res env.now (to_bytes 8 chosen.1) 8
        sess ← the_session chosen.0
        r2 ← set_session chosen.0 (record sess { state = sstate_running })
        stats ← receive_file env disk fuel count filename
        after_upload env disk fuel user chosen.0 filename stats

      transferred : (chosen : ℕ × ℕ) → Preserves I (transfer chosen)
      transferred chosen =
          bind-Preserves I (send_upload_res env.now (to_bytes 8 chosen.1) 8) _
            (send_upload_res-Preserves I env.now (to_bytes 8 chosen.1) 8)
            (λ r.
              bind-Preserves I (the_session chosen.0) _ (the_session-Preserves I chosen.0) (λ sess.
                bind-Preserves I (set_session chosen.0 (record sess { state = sstate_running })) _
                  (λ s h. h)
                  (λ r2.
                    bind-Preserves I (receive_file env disk fuel count filename)
                      (after_upload env disk fuel user chosen.0 filename)
                      (receive_file-Preserves count filename)
                      (after_upload-Preserves user chosen.0 filename))))

      by_errno :
          (chosen : ℕ × ℕ) (made : Option ℕ)
          → Preserves I (elim made as (λ _. Act W (Unit {0})) [
            | none ↦ transfer chosen
            | some errno ↦
                if errno == eexist
                then transfer chosen
                else reject env (codes "failed to create user directory")
          ])
      by_errno chosen none = transferred chosen
      by_errno chosen (some errno) =
          if-Preserves I (errno == eexist) (transfer chosen) (reject env _) (transferred chosen)
            (reject-Preserves env I _)

  upload_info-Preserves :
      (user : ℕ) (token : Uuid) (info : FileInfo)
      → Preserves I (upload_info env disk fuel user token info)
  unfolding upload_info
  upload_info-Preserves user token info =
      bind-Preserves I (the_user user) _ (the_user-Preserves I user) (λ owner.
        if-Preserves I (ltb owner.total_space ((owner.used_space + info.size) % u64_mod))
          (reject env _) _ (reject-Preserves env I _)
          (bind-Preserves I (on_value (last_slash info.filename)) _ (on_value-Preserves I _)
            (λ last. placed (snprintf (2 * path_max) (get_user_root env.unparse token ++ last)))))
    where
      placed :
          (filename : List ℕ)
          → Preserves I (do
            place ← new_address
            r ← set_info place (record info { filename = filename })
            (if ltb (length filename) path_max
                then upload_to env disk fuel user place
                    (get_user_root env.unparse token)
                    info.chunk_count
                    filename
                else undefined))
      placed filename =
          bind-Preserves I new_address _ (λ s h. h)
            (λ place.
              bind-Preserves I (set_info place (record info { filename = filename })) _ (λ s h. h)
                (λ r.
                  if-Preserves I (ltb (length filename) path_max)
                    (upload_to env disk fuel user place (get_user_root env.unparse token)
                      info.chunk_count filename)
                    undefined
                    (upload_to-Preserves user place (get_user_root env.unparse token)
                      info.chunk_count filename)
                    (λ s h. tt)))

  pub handle_upload-Preserves :
      (user : Option ℕ) (msg : Message) → Preserves I (handle_upload env disk fuel user msg)
  unfolding handle_upload
  handle_upload-Preserves none msg = reject-Preserves env I _
  handle_upload-Preserves (some user) msg =
      bind-Preserves I (on_socket (msg_recv_payload msg fileinfo_size)) _ (on_socket-Preserves I _)
        (λ r.
          if-Preserves I (handle_recv_error r.0) _ (done tt)
            (bind-Preserves I (on_value (fileinfo_of_bytes r.1.payload))
              (upload_info env disk fuel user r.1.hdr.token) (on_value-Preserves I _)
              (upload_info-Preserves user r.1.hdr.token))
            (λ s h. h))
