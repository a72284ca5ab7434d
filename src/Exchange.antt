-- ===== src/Exchange.antt =====
-- A request of src/client.c together with its handling by src/server.c: each side receives the bytes
-- that the other has sent.
pub mod PlainFile
pub mod Transfer
pub mod Serving
pub mod Sample
pub mod Removing
pub mod Listing
pub mod Registering
mod Tests
use mini_dropbox.Prelude.{
  ℕ, suc, ◌+◌, Bool, not, ◌&&◌, if◌then◌else◌, sym, ◌<◌, ◌≡◌, refl, ap, ◌∙◌, false, true, none,
  some, List, [], ◌∷◌, ◌++◌, ℤ, pos, negsuc, arith, length, replicate, append_assoc,
}
use mini_dropbox.FilePath.{slash}
use mini_dropbox.UserMap.{Uuid, umap_get}
use mini_dropbox.Session.{FileInfo}
use mini_dropbox.Net.{SendOutcome, sent, Socket, ok}
use mini_dropbox.Net.Loops.{stream}
use mini_dropbox.Msg.{
  MessageHdr, MessageType, Message, msgtype_auth_fail, msgtype_mkdir_req, hdr_size, hdr_bytes,
  msg_recv_header, msg_init, msg_clear,
}
use mini_dropbox.Msg.Names.{msg_type_to_str}
use mini_dropbox.Msg.Header.{IsHdr}
use mini_dropbox.Msg.Receive.{msg_recv_header-Arrives}
use mini_dropbox.FilePath.Spec.{IsName, AllNames}
use mini_dropbox.UserPath.{path_max, storage_dir, get_user_root}
use mini_dropbox.Directories.{create_directories_from_path}
use mini_dropbox.Directories.Making.{relative, Makes, user_dirs}
use mini_dropbox.Server.{World, Act, done, ◌>>=◌, send, on_socket, on_value, string, uman_get_user}
use mini_dropbox.Server.Steps.{act_run, on_socket_run}
use mini_dropbox.Server.Replying.{error_hdr, length-string}
use mini_dropbox.Requests.{Env, handle_mkdir}
use mini_dropbox.Requests.Texts.{NoNul}
use mini_dropbox.Requests.Answers.{mkdir_res_hdr, handle_mkdir-made, handle_mkdir-failed}
use mini_dropbox.Upload.{Disk}
use mini_dropbox.Dispatch.{is_auth_req, on_client_message_received, on_request, on_oneshot_req}
use mini_dropbox.MainLoop.{after_message, on_readable}
use mini_dropbox.Client.{Client, Host, reply_text, is_minus_one, load_token}
use mini_dropbox.Commands.{cmd_mkdir}
use mini_dropbox.Commands.Making.{mkdir_req_hdr, cmd_mkdir-made, cmd_mkdir-failed}
use mini_dropbox.Exchange.Serving.{add_one, counted_text, received, on_readable_request}

-- A client that makes a directory, and the server that serves it. What the client has sent stands on
-- the server's stream, and what the server has answered on the client's.
module _ {V W F : Type 0} (host : Host V) (env : Env W) (disk : Disk W F) (fuel : ℕ)
    (unset : FileInfo) (is_null : Uuid → Bool) (path : List ℕ) (token : Uuid)
    (width : length token ≡ 16) (clean : NoNul path) (small : length path < 8192)
    (valid : IsHdr (mkdir_req_hdr host path token width)) (known : is_null token ≡ false)
    (c c1 : Client V) (loading : ℤ) (good : is_minus_one loading ≡ false)
    (tokened : load_token host (replicate 16 0) c ≡ ok ((loading, token), c1))
    (os os2 : List SendOutcome)
    (taken : c1.socket.outcomes ≡ sent hdr_size ∷ sent (suc (length path)) ∷ os) (s : World W)
    (code : ℤ) (user : ℕ)
    (registered : umap_get env.compare s.user_map token ≡ some (code, some user))
    (more later : List ℕ)
    (arrived : stream s.socket.incoming
      ≡ hdr_bytes (mkdir_req_hdr host path token width) ++ (string path ++ more)) where
  -- `mkdir w₁/w₂/…` of a client whose token is registered and printed as a file's name, for names that
  -- are neither "." nor "..":
  -- if the user's root and the path fit into PATH_MAX bytes, each call of `mkdir` on the root and the
  -- first names, one more name each time, succeeds or finds the directory there, and the kernel takes
  -- each part of a message at once, then the server's files are those behind these calls, the client
  -- exits with 0 and prints no text of the server's.
  pub mkdir_exchange :
      (n : List ℕ) (ns : List (List ℕ)) (w : W)
      → IsName (env.unparse token)
      → path ≡ relative (n ∷ ns)
      → AllNames (n ∷ ns)
      → length (storage_dir ++ slash ∷ env.unparse token) + suc (length path) < path_max
      → Makes env.os (get_user_root env.unparse token) (n ∷ ns) s.files w
      → s.socket.outcomes ≡ sent hdr_size ∷ os2
      → IsHdr (mkdir_res_hdr env.now (mkdir_req_hdr host path token width))
      → stream c1.socket.incoming
        ≡ hdr_bytes (mkdir_res_hdr env.now (mkdir_req_hdr host path token width)) ++ later
      → (d : Client V) × (t : World W) × (cmd_mkdir host (path ∷ []) c ≡ ok (pos 0, d))
        × (d.socket.wire
            ≡ c1.socket.wire ++ (hdr_bytes (mkdir_req_hdr host path token width) ++ string path))
        × (d.output ≡ c1.output)
        × (on_readable env disk fuel unset is_null s ≡ ok (tt, t))
        × (t.files ≡ w)
        × (t.socket.wire
            ≡ s.socket.wire
              ++ hdr_bytes (mkdir_res_hdr env.now (mkdir_req_hdr host path token width)))
  unfolding msg_init msg_clear msg_type_to_str on_request on_oneshot_req
  mkdir_exchange n ns w printed shape names short makes taken2 fits answer =
      let created =
        user_dirs env.os env.static env.unparse token printed path n ns s.files w shape names short
          makes in
      let h : MessageHdr = mkdir_req_hdr host path token width in
      let r : MessageHdr = mkdir_res_hdr env.now h in
      let (u, serve, on, wire, o) =
        on_readable_request env disk fuel unset is_null h (string path) more s code (some user)
          valid msgtype_mkdir_req refl _ refl known (counted_text path) registered arrived in
      let (t, run, made, out, left) =
        handle_mkdir-made env user (received env.now env.junk_message h) path more
          (record s { socket = u }) (add_one (length path)) small clean on 0 0 w os2 created width
          refl (o ∙ taken2) in
      let (d, run2, sent_all, quiet) =
        cmd_mkdir-made host path token width c c1 loading os r [] later tokened good taken
          (record { valid = fits; counted = refl; bytes = answer }) refl refl in
      (d, t, run2, sent_all, quiet, serve t run, made, out ∙ ap (λ x. x ++ hdr_bytes r) wire)

  -- If the server cannot make them because of a system error, and the kernel takes each part of a
  -- message at once, the client exits with 1 and prints the text of that error.
  pub mkdir_exchange_failed :
      (e : ℕ) (w : W)
      → create_directories_from_path env.os true env.static
          (get_user_root env.unparse token)
          path
          s.files
        ≡ some ((negsuc 2, e), w)
      → NoNul (env.strerror e)
      → length (env.strerror e) < 8192
      → s.socket.outcomes ≡ sent hdr_size ∷ sent (suc (length (env.strerror e))) ∷ os2
      → IsHdr (error_hdr env.now (env.strerror e))
      → stream c1.socket.incoming
        ≡ hdr_bytes (error_hdr env.now (env.strerror e)) ++ (string (env.strerror e) ++ later)
      → (d : Client V) × (t : World W) × (cmd_mkdir host (path ∷ []) c ≡ ok (pos 1, d))
        × (d.output ≡ c1.output ++ reply_text (some (env.strerror e)) ∷ [])
        × (on_readable env disk fuel unset is_null s ≡ ok (tt, t))
        × (t.files ≡ w)
        × (t.socket.wire
            ≡ s.socket.wire
              ++ (hdr_bytes (error_hdr env.now (env.strerror e)) ++ string (env.strerror e)))
  unfolding msg_init msg_clear msg_type_to_str on_request on_oneshot_req
  mkdir_exchange_failed e w created text short taken2 fits answer =
      let h : MessageHdr = mkdir_req_hdr host path token width in
      let words = env.strerror e in
      let r : MessageHdr = error_hdr env.now words in
      let (u, serve, on, wire, o) =
        on_readable_request env disk fuel unset is_null h (string path) more s code (some user)
          valid msgtype_mkdir_req refl _ refl known (counted_text path) registered arrived in
      let (t, run, made, out, left) =
        handle_mkdir-failed env user (received env.now env.junk_message h) path more
          (record s { socket = u }) (add_one (length path)) small clean on e w os2 created
          (o ∙ taken2) in
      let (d, run2, sent_all, told) =
        cmd_mkdir-failed host path token width c c1 loading os r (string words) later tokened good
          taken
          (record {
            valid = fits;
            counted = add_one (length words) ∙ sym (length-string words);
            bytes = answer;
          })
          words refl refl text short in
      (d, t, run2, told, serve t run, made, out ∙ ap (λ x. x ++ (hdr_bytes r ++ string words)) wire)
