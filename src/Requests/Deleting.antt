-- ===== src/Requests/Deleting.antt =====
-- The answer of `handle_remove` of src/server.c to a request for a regular file whose path arrives
-- whole.
use mini_dropbox.Prelude.{
  ℕ, suc, ◌<◌, ◌≡◌, refl, sym, ap, ◌∙◌, true, none, some, List, [], ◌∷◌, ◌++◌, pos, length,
  replicate, length-replicate,
}
use mini_dropbox.Session.{FileInfo}
use mini_dropbox.Net.{SendOutcome, sent, ok}
use mini_dropbox.Net.Loops.{stream}
use mini_dropbox.Msg.{
  MessageHdr, Message, msgtype_remove_res, hdr_size, hdr_bytes, msg_init, msg_send,
  msg_recv_payload,
}
use mini_dropbox.Msg.Whole.{msg_send-body}
use mini_dropbox.UserPath.{path_max, get_user_path}
use mini_dropbox.Files.{fileinfo_from_filename, rm_r}
use mini_dropbox.Server.{World, done, on_socket, on_files, look, on_value, string, send}
use mini_dropbox.Server.Steps.{act_run, on_socket_run}
use mini_dropbox.Server.Replying.{length-hdr}
use mini_dropbox.Requests.{
  Env, c_string, fileinfo_size, zero_info, strcpy, fileinfo_bytes, remove_reply, remove_file,
  remove_info, remove_path, handle_remove,
}
use mini_dropbox.Requests.Texts.{NoNul, c_string_lem}
use mini_dropbox.Requests.Answers.{msg_recv_payload-text, with_path}
use mini_dropbox.Streams.Layout.{IsInfo, length-fileinfo_bytes}

-- The struct that the answer carries.
abbrev pub removed_bytes : FileInfo → List ℕ
removed_bytes info = fileinfo_bytes info (strcpy info.filename (replicate path_max 0))

-- The header of the answer to a request with the header `h`.
abbrev pub remove_res_hdr : ℕ × ℕ → MessageHdr → MessageHdr
remove_res_hdr now h = record h { length = fileinfo_size; type = msgtype_remove_res; sent_at = now }

module _ {W : Type 0} (env : Env W) (user : ℕ) (msg : Message) (path rest : List ℕ) (s : World W)
    (counted : msg.hdr.length ≡ suc (length path)) (small : length path < 8192) (text : NoNul path)
    (arrived : stream s.socket.incoming ≡ string path ++ rest) (filepath : List ℕ) (n : ℕ)
    (info : FileInfo) (valid : IsInfo info) (w : W) (os : List SendOutcome)
    (located : get_user_path env.unparse true path msg.hdr.token ≡ some (some filepath))
    (told : fileinfo_from_filename env.digest env.os env.reads filepath zero_info s.files
      ≡ some (pos n, info))
    (gone : rm_r env.os env.depth filepath s.files ≡ some (none, w))
    (tok : length msg.hdr.token ≡ 16) (pad : length msg.hdr.padding ≡ 4)
    (taken : s.socket.outcomes ≡ sent hdr_size ∷ sent fileinfo_size ∷ os) where
  abbrev answer : List ℕ
  answer = hdr_bytes (remove_res_hdr env.now msg.hdr) ++ removed_bytes info

  remove_reply_run :
      (u : World W)
      → u.socket.outcomes ≡ sent hdr_size ∷ sent fileinfo_size ∷ os
      → remove_reply env (with_path msg path) info none u
        ≡ ok (
          tt,
          record u { socket = record (u.socket) { outcomes = os; wire = u.socket.wire ++ answer } },
        )
  unfolding remove_reply send msg_init
  remove_reply_run u e =
      let reply : Message =
        msg_init (with_path msg path) msgtype_remove_res (some (removed_bytes info))
          fileinfo_size in
      let whole : length (removed_bytes info) ≡ fileinfo_size =
        length-fileinfo_bytes info (replicate path_max 0) valid
          (length-replicate {A = ℕ} path_max 0) in
      act_run (send env.now reply) (λ r. done tt) u
        (act_run (on_socket (msg_send env.now reply none)) (λ r. done r.0) u
          (on_socket_run (msg_send env.now reply none) u (
            msg_send-body env.now reply (removed_bytes info) refl (sym whole) 4143 os u.socket
              (length-hdr (remove_res_hdr env.now msg.hdr) tok pad) whole e)))

  -- A file that is removed is answered with REMOVE_RES and the information about it.
  pub handle_remove-removed :
      (t : World W) × (handle_remove env (some user) msg s ≡ ok (tt, t))
      × (t.files ≡ w)
      × (t.socket.wire
          ≡ s.socket.wire ++ (hdr_bytes (remove_res_hdr env.now msg.hdr) ++ removed_bytes info))
      × (stream t.socket.incoming ≡ rest)
  unfolding handle_remove remove_path remove_info remove_file
  handle_remove-removed =
      let (t, run, on, wire, o) =
        msg_recv_payload-text msg 8192 path rest s.socket counted small arrived in
      let u : World W = record s { socket = t } in
      (
        record u { socket = record t { outcomes = os; wire = t.wire ++ answer }; files = w },
        act_run (on_socket (msg_recv_payload msg 8192)) _ s
              (on_socket_run (msg_recv_payload msg 8192) s run)
            ∙ act_run (on_value (c_string (some (string path)))) _ u
                (ap (λ x. on_value x u) (c_string_lem [] path text))
            ∙ act_run (on_value (get_user_path env.unparse true path msg.hdr.token)) _ u
                (ap (λ x. on_value x u) located)
            ∙ act_run (look (fileinfo_from_filename env.digest env.os env.reads filepath zero_info))
                (λ r. remove_info env (with_path msg path) filepath r.0 r.1) u {a = (pos n, info)}
                {t = u} (rw (look, told) refl)
            ∙ act_run (on_files (rm_r env.os env.depth filepath))
                (remove_reply env (with_path msg path) info) u {a = none}
                {t = record u { files = w }} (rw (on_files, gone) refl)
            ∙ remove_reply_run (record u { files = w }) (o ∙ taken),
        refl,
        ap (λ x. x ++ answer) wire,
        on,
      )
