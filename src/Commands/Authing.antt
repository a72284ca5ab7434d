-- ===== src/Commands/Authing.antt =====
-- What `cmd_auth` of src/client.c makes of the answer of the server.
use mini_dropbox.Prelude.{
  ℕ, ◌<◌, ◌≤◌, ltb, true, arith, ◌≡◌, refl, ap, ◌∙◌, false, none, some, List, [], ◌∷◌, ◌++◌, ℤ, pos,
  length, replicate,
}
use mini_dropbox.UserMap.{Uuid}
use mini_dropbox.Net.{SendOutcome, sent, Socket, ok}
use mini_dropbox.Msg.{
  MessageHdr, Message, msgtype_auth_req, hdr_size, hdr_bytes, msg_init, msg_clear, msg_send,
  msg_recv, outgoing,
}
use mini_dropbox.Msg.Names.{msg_type_to_str}
use mini_dropbox.Msg.Whole.{msg_send-once}
use mini_dropbox.Msg.Receive.{Arrives}
use mini_dropbox.Msg.RoundTrip.{msg_recv-Arrives}
use mini_dropbox.Server.{string}
use mini_dropbox.Server.Replying.{length-hdr, length-string}
use mini_dropbox.Requests.{c_string}
use mini_dropbox.Requests.Texts.{NoNul, c_string_lem}
use mini_dropbox.Client.{
  Client, Host, reply_text, done, on_socket, on_value, print_payload, is_minus_one, with_token,
  load_token, send,
}
use mini_dropbox.Client.Steps.{step_run, socket_run}
use mini_dropbox.Commands.{auth_reply, cmd_auth}

not_big : (content : List ℕ) → length content ≤ 1024 → ltb 1024 (length content) ≡ false
not_big content small = ground arith

not_empty : (text extra : List ℕ) → ltb 0 (length (text ++ 0 ∷ extra)) ≡ true
not_empty [] extra = ground arith
not_empty (c ∷ text) extra = ground arith

module _ {W : Type 0} (host : Host W) (token : Uuid) (width : length token ≡ 16) where
  -- The message that the command sends.
  abbrev pub auth_request : Message
  auth_request = with_token token (msg_init msg_clear msgtype_auth_req none 0)

  -- The answer's payload begins with a text that ends in a NUL, and has at most 1024 bytes.
  pub cmd_auth-content :
      (s s1 : Client W) (code : ℤ) (os : List SendOutcome) (h : MessageHdr)
      (text extra name rest : List ℕ)
      → load_token host (replicate 16 0) s ≡ ok ((code, token), s1)
      → is_minus_one code ≡ false
      → s1.socket.outcomes ≡ sent hdr_size ∷ os
      → Arrives h (text ++ 0 ∷ extra) rest s1.socket
      → msg_type_to_str h.type ≡ some name
      → NoNul text
      → length (text ++ 0 ∷ extra) ≤ 1024
      → (t : Client W) × (cmd_auth host s ≡ ok (pos 0, t))
        × (t.output ≡ s1.output ++ reply_text (some text) ∷ [])
        × (t.socket.wire ≡ s1.socket.wire ++ hdr_bytes (outgoing host.now none auth_request.hdr))
  unfolding cmd_auth auth_reply print_payload send msg_init msg_clear
  cmd_auth-content s s1 code os h text extra name rest tokened good taken answer known clean small =
      let content = text ++ 0 ∷ extra in
      let out : Socket = record (s1.socket) {
        outcomes = os;
        wire = s1.socket.wire ++ hdr_bytes (outgoing host.now none auth_request.hdr);
      } in
      let (t, run, on, w, o) =
        msg_recv-Arrives host.now msg_clear 1024 h content rest out
          (record { valid = answer.valid; counted = answer.counted; bytes = answer.bytes }) in
      let got : Message = record msg_clear {
        hdr = h;
        rcvd_at = host.now;
        payload = some content;
      } in
      let received : msg_recv host.now msg_clear 1024 out ≡ ok ((pos 0, got), t) =
        run ∙ rw (not_big content small, not_empty text extra) refl in
      let v : Client W = record s1 { socket = t } in
      (
        record v { output = s1.output ++ reply_text (some text) ∷ [] },
        step_run (load_token host (replicate 16 0)) _ s tokened
            ∙ rw good (
                step_run (on_socket (msg_send host.now auth_request none)) _ s1 (
                  socket_run (msg_send host.now auth_request none) s1 (
                    msg_send-once host.now auth_request os s1.socket refl
                      (length-hdr (outgoing host.now none auth_request.hdr) width refl) taken))
                ∙ step_run (on_socket (msg_recv host.now msg_clear 1024)) _
                    (record s1 { socket = out })
                    (socket_run (msg_recv host.now msg_clear 1024) (record s1 { socket = out })
                      received)
                ∙ step_run (on_value (msg_type_to_str h.type)) _ v (ap (λ x. on_value x v) known)
                ∙ step_run (print_payload (some content)) (λ p. done (pos 0)) v
                    (step_run (on_value (c_string (some content))) _ v
                      (ap (λ x. on_value x v) (c_string_lem extra text clean)))),
        refl,
        w,
      )

  -- An answer of any known type, with a text of less than 1024 bytes, makes the command print the text
  -- and exit with 0: an AUTH_FAIL as well as an AUTH_OK.
  pub cmd_auth-answered :
      (s s1 : Client W) (code : ℤ) (os : List SendOutcome) (h : MessageHdr)
      (text name rest : List ℕ)
      → load_token host (replicate 16 0) s ≡ ok ((code, token), s1)
      → is_minus_one code ≡ false
      → s1.socket.outcomes ≡ sent hdr_size ∷ os
      → Arrives h (string text) rest s1.socket
      → msg_type_to_str h.type ≡ some name
      → NoNul text
      → length text < 1024
      → (t : Client W) × (cmd_auth host s ≡ ok (pos 0, t))
        × (t.output ≡ s1.output ++ reply_text (some text) ∷ [])
        × (t.socket.wire ≡ s1.socket.wire ++ hdr_bytes (outgoing host.now none auth_request.hdr))
  cmd_auth-answered s s1 code os h text name rest tokened good taken answer known clean small =
      cmd_auth-content s s1 code os h text [] name rest tokened good taken answer known clean
        (omega (arith, length-string text))
