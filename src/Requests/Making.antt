-- ===== src/Requests/Making.antt =====
-- What `handle_mkdir` of src/server.c does to the file system at most.
use mini_dropbox.Prelude.{
  ℕ, zero, suc, ◌≡◌, ap, ◌∙◌, sym, true, Option, none, some, List, ℤ, pos, negsuc, starts_with,
}
use mini_dropbox.UserMap.{Uuid}
use mini_dropbox.Net.{ok}
use mini_dropbox.Msg.{Message, msg_recv_payload}
use mini_dropbox.Msg.Receive.{msg_recv_payload-hdr}
use mini_dropbox.UserPath.{get_user_root}
use mini_dropbox.Directories.{create_directories_from_path}
use mini_dropbox.Directories.Confined.{create_directories_from_path-Made}
use mini_dropbox.Server.{World, done, on_socket, on_files, on_value, handle_recv_error}
use mini_dropbox.Server.Keeping.{
  Keeps, done-Keeps, bind-Keeps, on_socket-Keeps, on_value-Keeps, on_files-Keeps, if-Keeps,
}
use mini_dropbox.Requests.{Env, c_string, mkdir_reply, mkdir_path, handle_mkdir}
use mini_dropbox.Requests.Replies.{on_socket-result, root-slash, reject-Keeps, reply-Keeps}

module _ {W : Type 0} (env : Env W) (token : Uuid) (P : W → Type 0) where
  abbrev root : List ℕ
  root = get_user_root env.unparse token

  module _
      (made : (path : List ℕ) (w : W)
        → starts_with root path ≡ true
        → P w
        → P (env.os.mkdir path w).1) where
    mkdir_reply-Keeps : (msg : Message) (r : ℤ × ℕ) → Keeps P (mkdir_reply env msg r)
    unfolding mkdir_reply
    mkdir_reply-Keeps msg (pos n, errno) = reply-Keeps env P _
    mkdir_reply-Keeps msg (negsuc zero, errno) = reject-Keeps env P _
    mkdir_reply-Keeps msg (negsuc (suc zero), errno) = reject-Keeps env P _
    mkdir_reply-Keeps msg (negsuc (suc (suc zero)), errno) = reject-Keeps env P _
    mkdir_reply-Keeps msg (negsuc (suc (suc (suc n))), errno) = done-Keeps P tt

    created :
        (path : List ℕ) (w v : W) (a : ℤ × ℕ)
        → P w
        → create_directories_from_path env.os true env.static root path w ≡ some (a, v)
        → P v
    created path w v a p e =
        let m =
          create_directories_from_path-Made env.os root P made env.static _ path w
            (root-slash env.unparse token) p in
        coe 0 1 (i. P (same (sym m.returned ∙ e) i)) m.holds
      where
        same :
            {b c : ℤ × ℕ} {w v : W}
            → ◌≡◌ {A = Option ((ℤ × ℕ) × W)} (some (b, w)) (some (c, v))
            → w ≡ v
        same x = cc

    mkdir_path-Keeps : (msg : Message) → msg.hdr.token ≡ token → Keeps P (mkdir_path env msg)
    unfolding mkdir_path
    mkdir_path-Keeps msg same =
        bind-Keeps P (on_value (c_string msg.payload)) _ (on_value-Keeps P (c_string msg.payload))
          (λ path s t e.
            bind-Keeps P
              (on_files (
                create_directories_from_path env.os true env.static
                  (get_user_root env.unparse msg.hdr.token) path))
              (mkdir_reply env msg)
              (on_files-Keeps P _ (λ w v a p f. created path w v a p (rw same at f)))
              (λ r u v f. mkdir_reply-Keeps msg r))

    handled_mkdir :
        (user : Option ℕ) (msg : Message)
        → msg.hdr.token ≡ token
        → Keeps P (handle_mkdir env user msg)
    unfolding handle_mkdir
    handled_mkdir none msg same = reject-Keeps env P _
    handled_mkdir (some user) msg same =
        bind-Keeps P (on_socket (msg_recv_payload msg 8192)) _
          (on_socket-Keeps P (msg_recv_payload msg 8192))
          (λ r s t e.
            let (u, f) = on_socket-result (msg_recv_payload msg 8192) s t r e in
            let hdr = msg_recv_payload-hdr msg r.1 8192 s.socket u r.0 f in
            if-Keeps P (handle_recv_error r.0) (mkdir_path env r.1) (done tt)
              (mkdir_path-Keeps r.1 (ap (λ h. h.token) hdr ∙ same)) (done-Keeps P tt))

    -- Whatever a client sends, `handle_mkdir` makes only directories whose path begins with the
    -- root of the token in the message, and changes nothing else in the file system: a property of
    -- it that no such `mkdir` breaks still holds when the handler returns.
    pub handle_mkdir-Keeps :
        (user : Option ℕ) (msg : Message) (s t : World W)
        → msg.hdr.token ≡ token
        → P s.files
        → handle_mkdir env user msg s ≡ ok (tt, t)
        → P t.files
    handle_mkdir-Keeps user msg s t same p e = handled_mkdir user msg same s t tt p e
