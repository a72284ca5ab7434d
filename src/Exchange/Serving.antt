-- ===== src/Exchange/Serving.antt =====
-- How the main loop of src/server.c takes a request from the socket to its handler.
use mini_dropbox.Prelude.{
  ℕ, suc, Bool, not, ◌&&◌, if◌then◌else◌, sym, ◌≡◌, refl, ap, ◌∙◌, false, none, some, Option, List,
  ◌++◌, ℤ, pos, negsuc, length, ◌+◌, arith,
}
use mini_dropbox.UserMap.{Uuid, umap_get}
use mini_dropbox.Session.{FileInfo}
use mini_dropbox.Net.{Socket, ok}
use mini_dropbox.Net.Loops.{stream}
use mini_dropbox.Msg.{
  MessageHdr, MessageType, Message, msgtype_auth_fail, hdr_bytes, msg_recv_header, msg_init,
}
use mini_dropbox.Msg.Names.{msg_type_to_str}
use mini_dropbox.Msg.Header.{IsHdr}
use mini_dropbox.Msg.Receive.{msg_recv_header-Arrives}
use mini_dropbox.Server.{World, Act, done, ◌>>=◌, send, on_socket, on_value, string, uman_get_user}
use mini_dropbox.Server.Steps.{act_run, on_socket_run}
use mini_dropbox.Server.Replying.{length-string}
use mini_dropbox.Requests.{Env}
use mini_dropbox.Upload.{Disk}
use mini_dropbox.Dispatch.{is_auth_req, on_client_message_received, on_request}
use mini_dropbox.MainLoop.{after_message, on_readable}

pub add_one : (n : ℕ) → n + 1 ≡ suc n
add_one n = omega arith

pub counted_text : (text : List ℕ) → length text + 1 ≡ length (string text)
counted_text text = add_one (length text) ∙ sym (length-string text)

-- A message as it stands in front of its handler.
abbrev pub received : ℕ × ℕ → Message → MessageHdr → Message
received now junk h = record junk { hdr = h; rcvd_at = now }

module _ {W F : Type 0} (env : Env W) (disk : Disk W F) (fuel : ℕ) (unset : FileInfo)
    (is_null : Uuid → Bool) (h : MessageHdr) (content rest : List ℕ) (s : World W) (code : ℤ)
    (user : Option ℕ) (valid : IsHdr h) (k : MessageType) (type : h.type ≡ k) (name : List ℕ)
    (named : msg_type_to_str k ≡ some name)
    (passed : (not (is_auth_req k) && is_null h.token) ≡ false)
    (counted : h.length ≡ length content)
    (registered : umap_get env.compare s.user_map h.token ≡ some (code, user))
    (arrived : stream s.socket.incoming ≡ hdr_bytes h ++ (content ++ rest)) where
  module _ (u v : World W) (table : u.user_map ≡ s.user_map)
      (handled : on_request env disk fuel unset is_null k user
          (received env.now env.junk_message h)
          u
        ≡ ok (tt, v)) where
    dispatched :
        on_client_message_received env disk fuel unset is_null
          (received env.now env.junk_message h)
          u
        ≡ ok (pos 0, v)
    unfolding on_client_message_received uman_get_user
    dispatched =
        let refuse : Act W ℤ =
          send env.now (msg_init (received env.now env.junk_message h) msgtype_auth_fail none 0)
          >>= λ r. done (negsuc 0) in
        let serve : MessageType → Act W ℤ = λ k.
          uman_get_user env.compare env.generated env.junk_chain h.token >>= λ p.
          on_request env disk fuel unset is_null k p (received env.now env.junk_message h) >>= λ r.
          done (pos 0) in
        act_run (on_value (msg_type_to_str h.type)) _ u
          (ap (λ j. on_value (msg_type_to_str j) u) type ∙ ap (λ x. on_value x u) named)
        ∙ ap (λ k. (if not (is_auth_req k) && is_null h.token then refuse else serve k) u) type
        ∙ ap (λ b. (if b then refuse else serve k) u) passed
        ∙ act_run (uman_get_user env.compare env.generated env.junk_chain h.token) _ u
            (rw (uman_get_user, found) refl)
        ∙ act_run
            (on_request env disk fuel unset is_null k user (received env.now env.junk_message h))
            (λ r. done (pos 0)) u handled
      where
        found : umap_get env.compare u.user_map h.token ≡ some (code, user)
        found = ap (λ m. umap_get env.compare m h.token) table ∙ registered

  -- From the event to the handler of a request that the guard lets pass, with what `uman_get_user` finds
  -- for its token.
  pub on_readable_request :
      (t : Socket) × ((v : World W)
        → on_request env disk fuel unset is_null k user
            (received env.now env.junk_message h)
            (record s { socket = t })
          ≡ ok (tt, v)
        → on_readable env disk fuel unset is_null s ≡ ok (tt, v))
      × (stream t.incoming ≡ content ++ rest)
      × (t.wire ≡ s.socket.wire)
      × (t.outcomes ≡ s.socket.outcomes)
  unfolding on_readable
  on_readable_request =
      let (t, run, on, w, o) =
        msg_recv_header-Arrives env.now env.junk_message h content rest s.socket
          (record { valid = valid; counted = counted; bytes = arrived }) in
      let u : World W = record s { socket = t } in
      (
        t,
        λ v handled.
            act_run (on_socket (msg_recv_header env.now env.junk_message)) _ s
              (on_socket_run (msg_recv_header env.now env.junk_message) s run)
            ∙ act_run
                (on_client_message_received env disk fuel unset is_null
                  (received env.now env.junk_message h))
                (λ ret. after_message env disk fuel unset is_null ret) u
                (dispatched u v refl handled),
        on,
        w,
        o,
      )
