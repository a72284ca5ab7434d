-- ===== src/Requests/Preserving.antt =====
-- The handlers of src/server.c for requests of one message keep an invariant of the table of users.
use mini_dropbox.Prelude.{
  ℕ, zero, suc, ◌≡◌, Option, none, some, List, [], ◌∷◌, ◌++◌, ℤ, pos, negsuc, length, ltb, is_neg,
  true,
}
use mini_dropbox.UserMap.{UserMap, Uuid, umap_put}
use mini_dropbox.Session.{FileInfo}
use mini_dropbox.User.{User, user_init}
use mini_dropbox.Msg.{Message, msg_recv_payload}
use mini_dropbox.UserPath.{path_max, storage_dir, snprintf, get_user_path}
use mini_dropbox.FilePath.{slash}
use mini_dropbox.Files.{fileinfo_from_filename}
use mini_dropbox.Server.{
  done, undefined, on_socket, on_files, look, on_value, send, send_error, handle_recv_error,
}
use mini_dropbox.Server.Preserving.{
  Preserves, bind-Preserves, on_socket-Preserves, on_files-Preserves, look-Preserves,
  on_value-Preserves, if-Preserves, send-Preserves, send_error-Preserves,
  uman_register_user-Preserves,
}
use mini_dropbox.Requests.{
  Env, c_string, zero_info, reject, auth_reply, handle_auth, remove_reply, remove_file, remove_info,
  remove_path, handle_remove, mkdir_reply, mkdir_path, handle_mkdir,
}

module _ {W : Type 0} (env : Env W) (I : UserMap ℕ → List User → Type 0) where
  pub reject-Preserves : (text : List ℕ) → Preserves I (reject env text)
  reject-Preserves text =
      bind-Preserves I (send_error env.now text) (λ r. done tt)
        (send_error-Preserves I env.now text) (λ r s h. h)

  remove_reply-Preserves :
      (msg : Message) (info : FileInfo) (gone : Option ℕ)
      → Preserves I (remove_reply env msg info gone)
  unfolding remove_reply
  remove_reply-Preserves msg info (some errno) = reject-Preserves (env.strerror errno)
  remove_reply-Preserves msg info none =
      bind-Preserves I (send env.now _) (λ r. done tt) (send-Preserves I env.now _) (λ r s h. h)

  remove_file-Preserves :
      (msg : Message) (filepath : List ℕ) (info : FileInfo)
      → Preserves I (remove_file env msg filepath info)
  unfolding remove_file
  remove_file-Preserves msg filepath info =
      bind-Preserves I (on_files _) (remove_reply env msg info) (on_files-Preserves I _)
        (remove_reply-Preserves msg info)

  remove_info-Preserves :
      (msg : Message) (filepath : List ℕ) (code : ℤ) (info : FileInfo)
      → Preserves I (remove_info env msg filepath code info)
  unfolding remove_info
  remove_info-Preserves msg filepath (pos n) info = remove_file-Preserves msg filepath info
  remove_info-Preserves msg filepath (negsuc zero) info = reject-Preserves _
  remove_info-Preserves msg filepath (negsuc (suc zero)) info =
      if-Preserves I (ltb (length filepath) path_max)
        (remove_file env msg filepath (record info { filename = filepath })) undefined
        (remove_file-Preserves msg filepath (record info { filename = filepath })) (λ s h. tt)
  remove_info-Preserves msg filepath (negsuc (suc (suc n))) info = reject-Preserves _

  remove_path-Preserves :
      (msg : Message) (path : Option (List ℕ)) → Preserves I (remove_path env msg path)
  unfolding remove_path
  remove_path-Preserves msg none = reject-Preserves _
  remove_path-Preserves msg (some filepath) =
      bind-Preserves I
        (look (fileinfo_from_filename env.digest env.os env.reads filepath zero_info))
        (λ r. remove_info env msg filepath r.0 r.1) (look-Preserves I _)
        (λ r. remove_info-Preserves msg filepath r.0 r.1)

  pub handle_remove-Preserves :
      (user : Option ℕ) (msg : Message) → Preserves I (handle_remove env user msg)
  unfolding handle_remove
  handle_remove-Preserves none msg = reject-Preserves _
  handle_remove-Preserves (some user) msg =
      bind-Preserves I (on_socket (msg_recv_payload msg 8192)) _ (on_socket-Preserves I _) (λ r.
        if-Preserves I (is_neg r.0) (done tt) _ (λ s h. h)
          (bind-Preserves I (on_value (c_string r.1.payload)) _ (on_value-Preserves I _) (λ path.
            bind-Preserves I (on_value (get_user_path env.unparse true path r.1.hdr.token))
              (remove_path env r.1) (on_value-Preserves I _) (remove_path-Preserves r.1))))

  mkdir_reply-Preserves : (msg : Message) (made : ℤ × ℕ) → Preserves I (mkdir_reply env msg made)
  unfolding mkdir_reply
  mkdir_reply-Preserves msg (pos n, errno) =
      bind-Preserves I (send env.now _) (λ r. done tt) (send-Preserves I env.now _) (λ r s h. h)
  mkdir_reply-Preserves msg (negsuc zero, errno) = reject-Preserves _
  mkdir_reply-Preserves msg (negsuc (suc zero), errno) = reject-Preserves _
  mkdir_reply-Preserves msg (negsuc (suc (suc zero)), errno) = reject-Preserves _
  mkdir_reply-Preserves msg (negsuc (suc (suc (suc n))), errno) = λ s h. h

  mkdir_path-Preserves : (msg : Message) → Preserves I (mkdir_path env msg)
  unfolding mkdir_path
  mkdir_path-Preserves msg =
      bind-Preserves I (on_value (c_string msg.payload)) _ (on_value-Preserves I _) (λ path.
        bind-Preserves I (on_files _) (mkdir_reply env msg) (on_files-Preserves I _)
          (mkdir_reply-Preserves msg))

  pub handle_mkdir-Preserves :
      (user : Option ℕ) (msg : Message) → Preserves I (handle_mkdir env user msg)
  unfolding handle_mkdir
  handle_mkdir-Preserves none msg = reject-Preserves _
  handle_mkdir-Preserves (some user) msg =
      bind-Preserves I (on_socket (msg_recv_payload msg 8192)) _ (on_socket-Preserves I _) (λ r.
        if-Preserves I (handle_recv_error r.0) (mkdir_path env r.1) (done tt)
          (mkdir_path-Preserves r.1) (λ s h. h))

  auth_reply-Preserves : (made : Option ℕ) → Preserves I (auth_reply env made)
  unfolding auth_reply
  auth_reply-Preserves (some errno) =
      if-Preserves I (ltb (length (env.strerror errno)) 100) (send env.now _) undefined
        (send-Preserves I env.now _) (λ s h. tt)
  auth_reply-Preserves none = send-Preserves I env.now _

  module _
      (registers : (map map' : UserMap ℕ) (heap : List User) (token : Uuid) (code : ℤ)
        → I map heap
        → umap_put env.compare env.junk_chain map token (length heap) ≡ some (code, map')
        → I map' (heap ++ user_init env.generated (some token) ∷ [])) where
    pub handle_auth-Preserves : (msg : Message) → Preserves I (handle_auth env msg)
    unfolding handle_auth
    handle_auth-Preserves msg =
        bind-Preserves I
          (on_files (λ w. some (
            env.os.mkdir (snprintf path_max (storage_dir ++ slash ∷ env.unparse msg.hdr.token)) w)))
          _ (λ s h. h)
          (λ made. bind-Preserves I (auth_reply env made) _ (auth_reply-Preserves made) (λ r.
            uman_register_user-Preserves I env.compare env.generated env.junk_chain registers
              msg.hdr.token))
