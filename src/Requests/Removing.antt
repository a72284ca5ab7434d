-- ===== src/Requests/Removing.antt =====
-- What `handle_remove` of src/server.c does to the file system at most.
use mini_dropbox.Prelude.{
  ℕ, zero, suc, ◌≡◌, refl, ap, ◌∙◌, true, Option, none, some, List, ℤ, pos, negsuc, is_neg, ltb,
  starts_with, length,
}
use mini_dropbox.UserMap.{Uuid}
use mini_dropbox.Session.{FileInfo}
use mini_dropbox.Net.{ok}
use mini_dropbox.Msg.{Message, msg_recv_payload}
use mini_dropbox.Msg.Receive.{msg_recv_payload-hdr}
use mini_dropbox.UserPath.{path_max, get_user_root, get_user_path}
use mini_dropbox.Files.{fileinfo_from_filename, rm_r}
use mini_dropbox.Files.Removal.{rm_r-Keeps}
use mini_dropbox.Server.{World, done, ◌>>=◌, on_socket, on_files, look, on_value}
use mini_dropbox.Server.Keeping.{
  Keeps, done-Keeps, undefined-Keeps, bind-Keeps, on_socket-Keeps, look-Keeps, on_value-Keeps,
  on_files-Keeps, if-Keeps,
}
use mini_dropbox.Requests.{
  Env, c_string, zero_info, remove_reply, remove_file, remove_info, remove_path, handle_remove,
}
use mini_dropbox.Requests.Replies.{
  on_socket-result, on_value-result, get_user_path-starts_with, root-fits, reject-Keeps,
  reply-Keeps,
}

module _ {W : Type 0} (env : Env W) (token : Uuid) (P : W → Type 0) where
  abbrev root : List ℕ
  root = get_user_root env.unparse token

  remove_reply-Keeps :
      (msg : Message) (info : FileInfo) (r : Option ℕ) → Keeps P (remove_reply env msg info r)
  unfolding remove_reply
  remove_reply-Keeps msg info (some errno) = reject-Keeps env P (env.strerror errno)
  remove_reply-Keeps msg info none = reply-Keeps env P _

  module _
      (unlinked : (path : List ℕ) (w : W)
        → starts_with root path ≡ true
        → P w
        → P (env.os.unlink path w).1)
      (emptied : (path : List ℕ) (w : W)
        → starts_with root path ≡ true
        → P w
        → P (env.os.rmdir path w).1) where
    remove_file-Keeps :
        (msg : Message) (filepath : List ℕ) (info : FileInfo)
        → starts_with root filepath ≡ true
        → Keeps P (remove_file env msg filepath info)
    unfolding remove_file
    remove_file-Keeps msg filepath info h =
        bind-Keeps P (on_files (rm_r env.os env.depth filepath)) (remove_reply env msg info)
          (on_files-Keeps P (rm_r env.os env.depth filepath) (λ w v a p e.
            rm_r-Keeps env.os root P (root-fits env.unparse token) unlinked emptied env.depth
              filepath w v a h p e))
          (λ r s t e. remove_reply-Keeps msg info r)

    remove_info-Keeps :
        (msg : Message) (filepath : List ℕ) (ret : ℤ) (info : FileInfo)
        → starts_with root filepath ≡ true
        → Keeps P (remove_info env msg filepath ret info)
    unfolding remove_info
    remove_info-Keeps msg filepath (pos n) info h = remove_file-Keeps msg filepath info h
    remove_info-Keeps msg filepath (negsuc zero) info h = reject-Keeps env P _
    remove_info-Keeps msg filepath (negsuc (suc zero)) info h =
        if-Keeps P (ltb (length filepath) path_max) _ _ (remove_file-Keeps msg filepath _ h)
          (undefined-Keeps P)
    remove_info-Keeps msg filepath (negsuc (suc (suc n))) info h = reject-Keeps env P _

    remove_path-Keeps :
        (msg : Message) (filepath : Option (List ℕ))
        → ((q : List ℕ) → filepath ≡ some q → starts_with root q ≡ true)
        → Keeps P (remove_path env msg filepath)
    unfolding remove_path
    remove_path-Keeps msg none h = reject-Keeps env P _
    remove_path-Keeps msg (some filepath) h =
        bind-Keeps P (look (fileinfo_from_filename env.digest env.os env.reads filepath zero_info))
          _ (look-Keeps P (fileinfo_from_filename env.digest env.os env.reads filepath zero_info))
          (λ r s t e. remove_info-Keeps msg filepath r.0 r.1 (h filepath refl))

    remove_request-Keeps :
        (msg : Message)
        → msg.hdr.token ≡ token
        → Keeps P (do
          path ← on_value (c_string msg.payload)
          filepath ← on_value (get_user_path env.unparse true path msg.hdr.token)
          remove_path env msg filepath)
    remove_request-Keeps msg same =
        bind-Keeps P (on_value (c_string msg.payload)) _ (on_value-Keeps P (c_string msg.payload))
          (λ path s t e.
            bind-Keeps P (on_value (get_user_path env.unparse true path msg.hdr.token)) _
              (on_value-Keeps P (get_user_path env.unparse true path msg.hdr.token))
              (λ filepath u v f. remove_path-Keeps msg filepath (λ q g.
                get_user_path-starts_with env.unparse path q token (
                  rw same at (
                    on_value-result (get_user_path env.unparse true path msg.hdr.token) u v filepath
                      f)
                  ∙ ap some g))))

    handled_remove :
        (user : Option ℕ) (msg : Message)
        → msg.hdr.token ≡ token
        → Keeps P (handle_remove env user msg)
    unfolding handle_remove
    handled_remove none msg same = reject-Keeps env P _
    handled_remove (some user) msg same =
        bind-Keeps P (on_socket (msg_recv_payload msg 8192)) _
          (on_socket-Keeps P (msg_recv_payload msg 8192))
          (λ r s t e.
            let (u, f) = on_socket-result (msg_recv_payload msg 8192) s t r e in
            let hdr = msg_recv_payload-hdr msg r.1 8192 s.socket u r.0 f in
            if-Keeps P (is_neg r.0) (done tt) _ (done-Keeps P tt)
              (remove_request-Keeps r.1 (ap (λ h. h.token) hdr ∙ same)))

    -- Whatever a client sends, `handle_remove` unlinks and removes only what lies at paths that
    -- begin with the root of the token in the message: a property of the file system that no such
    -- removal breaks still holds when the handler returns.
    pub handle_remove-Keeps :
        (user : Option ℕ) (msg : Message) (s t : World W)
        → msg.hdr.token ≡ token
        → P s.files
        → handle_remove env user msg s ≡ ok (tt, t)
        → P t.files
    handle_remove-Keeps user msg s t same p e = handled_remove user msg same s t tt p e
