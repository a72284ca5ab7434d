-- ===== src/Requests/Answers.antt =====
-- The answers of `handle_mkdir` of src/server.c to a request whose path arrives whole.
use mini_dropbox.Prelude.{
  ℕ, suc, ◌<◌, ◌≡◌, refl, ap, ◌∙◌, true, false, none, some, List, [], ◌∷◌, ◌++◌, ℤ, pos, negsuc,
  ltb, arith, length,
}
use mini_dropbox.Net.{SendOutcome, sent, Socket, ok}
use mini_dropbox.Net.Loops.{stream}
use mini_dropbox.Msg.{
  MessageHdr, Message, msgtype_mkdir_res, hdr_size, hdr_bytes, msg_init, msg_recv, msg_recv_payload,
}
use mini_dropbox.Msg.Receive.{Arrives, msg_recv_payload-body}
use mini_dropbox.Msg.RoundTrip.{msg_recv-Arrives}
use mini_dropbox.UserPath.{get_user_root}
use mini_dropbox.Directories.{create_directories_from_path}
use mini_dropbox.Server.{World, done, on_socket, on_files, on_value, string, send, send_error}
use mini_dropbox.Server.Steps.{act_run, on_socket_run}
use mini_dropbox.Server.Replying.{send-once, send_error-once, error_hdr, length-string}
use mini_dropbox.Requests.{Env, c_string, mkdir_reply, mkdir_path, handle_mkdir}
use mini_dropbox.Requests.Texts.{NoNul, c_string_lem}

module _ (text : List ℕ) where
  not_big : (maxlen : ℕ) → length text < maxlen → ltb maxlen (length (string text)) ≡ false
  not_big maxlen small = rw (length-string text) (ground arith)

  not_empty : ltb 0 (length (string text)) ≡ true
  not_empty = rw (length-string text) (ground arith)

-- A payload that is a text, of at most `maxlen` bytes with its NUL.
pub msg_recv_payload-text :
    (msg : Message) (maxlen : ℕ) (text rest : List ℕ) (s : Socket)
    → msg.hdr.length ≡ suc (length text)
    → length text < maxlen
    → stream s.incoming ≡ string text ++ rest
    → (t : Socket) × (msg_recv_payload msg maxlen s
        ≡ ok ((pos 0, record msg { payload = some (string text) }), t))
      × (stream t.incoming ≡ rest)
      × (t.wire ≡ s.wire)
      × (t.outcomes ≡ s.outcomes)
msg_recv_payload-text msg maxlen text rest s counted small arrived =
    let (t, run, on, w, o) =
      msg_recv_payload-body msg maxlen (string text) rest s (counted ∙ size) arrived in
    (
      t,
      run ∙ rw (not_big text maxlen small, not_empty text) refl,
      on ∙ rw (not_big text maxlen small) refl,
      w,
      o,
    )
  where
    size : suc (length text) ≡ length (string text)
    size = omega (arith, length-string text)

-- A whole message whose payload is such a text.
pub msg_recv-text :
    (now : ℕ × ℕ) (msg : Message) (maxlen : ℕ) (h : MessageHdr) (text rest : List ℕ) (s : Socket)
    → Arrives h (string text) rest s
    → length text < maxlen
    → (t : Socket) × (msg_recv now msg maxlen s
        ≡ ok ((pos 0, record msg { hdr = h; rcvd_at = now; payload = some (string text) }), t))
      × (stream t.incoming ≡ rest)
      × (t.wire ≡ s.wire)
      × (t.outcomes ≡ s.outcomes)
msg_recv-text now msg maxlen h text rest s a small =
    let (t, run, on, w, o) = msg_recv-Arrives now msg maxlen h (string text) rest s a in
    (
      t,
      run ∙ rw (not_big text maxlen small, not_empty text) refl,
      on ∙ rw (not_big text maxlen small) refl,
      w,
      o,
    )

-- The message behind the receive of its payload.
abbrev pub with_path : Message → List ℕ → Message
with_path msg path = record msg { payload = some (string path) }

-- The header of the answer to a request with the header `h`.
abbrev pub mkdir_res_hdr : ℕ × ℕ → MessageHdr → MessageHdr
mkdir_res_hdr now h = record h { length = 0; type = msgtype_mkdir_res; sent_at = now }

module _ {W : Type 0} (env : Env W) (user : ℕ) (msg : Message) (path rest : List ℕ) (s : World W)
    (counted : msg.hdr.length ≡ suc (length path)) (small : length path < 8192) (text : NoNul path)
    (arrived : stream s.socket.incoming ≡ string path ++ rest) where
  -- The directories are made on the path that was sent, below the root of the token in the message.
  handle_mkdir_run :
      (made : ℤ × ℕ) (w : W)
      → create_directories_from_path env.os true env.static
          (get_user_root env.unparse msg.hdr.token)
          path
          s.files
        ≡ some (made, w)
      → (t : Socket) × (handle_mkdir env (some user) msg s
          ≡ mkdir_reply env (with_path msg path) made (record s { socket = t; files = w }))
        × (stream t.incoming ≡ rest)
        × (t.wire ≡ s.socket.wire)
        × (t.outcomes ≡ s.socket.outcomes)
  unfolding handle_mkdir mkdir_path
  handle_mkdir_run made w created =
      let (t, run, on, wire, o) =
        msg_recv_payload-text msg 8192 path rest s.socket counted small arrived in
      (
        t,
        act_run (on_socket (msg_recv_payload msg 8192)) _ s
              (on_socket_run (msg_recv_payload msg 8192) s run)
            ∙ act_run (on_value (c_string (some (string path)))) _ (record s { socket = t })
                (ap (λ x. on_value x (record s { socket = t })) (c_string_lem [] path text))
            ∙ act_run
                (on_files (
                  create_directories_from_path env.os true env.static
                    (get_user_root env.unparse msg.hdr.token) path))
                (mkdir_reply env (with_path msg path)) (record s { socket = t })
                (rw (on_files, created) refl),
        on,
        wire,
        o,
      )

  -- Directories that are made are answered with MKDIR_RES.
  pub handle_mkdir-made :
      (n e : ℕ) (w : W) (os : List SendOutcome)
      → create_directories_from_path env.os true env.static
          (get_user_root env.unparse msg.hdr.token)
          path
          s.files
        ≡ some ((pos n, e), w)
      → length msg.hdr.token ≡ 16
      → length msg.hdr.padding ≡ 4
      → s.socket.outcomes ≡ sent hdr_size ∷ os
      → (t : World W) × (handle_mkdir env (some user) msg s ≡ ok (tt, t))
        × (t.files ≡ w)
        × (t.socket.wire ≡ s.socket.wire ++ hdr_bytes (mkdir_res_hdr env.now msg.hdr))
        × (stream t.socket.incoming ≡ rest)
  unfolding mkdir_reply msg_init
  handle_mkdir-made n e w os created tok pad taken =
      let (t, run, on, wire, o) = handle_mkdir_run (pos n, e) w created in
      let u : World W = record s { socket = t; files = w } in
      (
        record u {
          socket = record t {
            outcomes = os;
            wire = t.wire ++ hdr_bytes (mkdir_res_hdr env.now msg.hdr);
          };
        },
        run
            ∙ act_run (send env.now (msg_init (with_path msg path) msgtype_mkdir_res none 0))
                (λ r. done tt) u
                (send-once env.now (msg_init (with_path msg path) msgtype_mkdir_res none 0) os u
                  refl tok pad (o ∙ taken)),
        refl,
        ap (λ x. x ++ hdr_bytes (mkdir_res_hdr env.now msg.hdr)) wire,
        on,
      )

  -- A system error is answered with an ERROR that has its text.
  pub handle_mkdir-failed :
      (e : ℕ) (w : W) (os : List SendOutcome)
      → create_directories_from_path env.os true env.static
          (get_user_root env.unparse msg.hdr.token)
          path
          s.files
        ≡ some ((negsuc 2, e), w)
      → s.socket.outcomes ≡ sent hdr_size ∷ sent (suc (length (env.strerror e))) ∷ os
      → (t : World W) × (handle_mkdir env (some user) msg s ≡ ok (tt, t))
        × (t.files ≡ w)
        × (t.socket.wire
            ≡ s.socket.wire
              ++ (hdr_bytes (error_hdr env.now (env.strerror e)) ++ string (env.strerror e)))
        × (stream t.socket.incoming ≡ rest)
  unfolding mkdir_reply
  handle_mkdir-failed e w os created taken =
      let (t, run, on, wire, o) = handle_mkdir_run (negsuc 2, e) w created in
      let u : World W = record s { socket = t; files = w } in
      let out = hdr_bytes (error_hdr env.now (env.strerror e)) ++ string (env.strerror e) in
      (
        record u { socket = record t { outcomes = os; wire = t.wire ++ out } },
        run
            ∙ act_run (send_error env.now (env.strerror e)) (λ r. done tt) u
                (send_error-once env.now (env.strerror e) os u (o ∙ taken)),
        refl,
        ap (λ x. x ++ out) wire,
        on,
      )
