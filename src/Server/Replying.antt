-- ===== src/Server/Replying.antt =====
-- Replies of src/server.c that the kernel takes at once.
use mini_dropbox.Prelude.{
  ℕ, suc, ◌+◌, ◌≡◌, ◌∙◌, refl, none, some, List, ◌∷◌, ◌++◌, [], pos, arith, length, length-append,
}
use mini_dropbox.Net.{SendOutcome, sent, ok}
use mini_dropbox.Msg.{
  MessageHdr, Message, msgtype_error, hdr_size, hdr_bytes, msg_clear, msg_init, msg_send, outgoing,
}
use mini_dropbox.Msg.Whole.{msg_send-once, msg_send-body}
use mini_dropbox.Server.{World, done, on_socket, string, send, send_error}
use mini_dropbox.Server.Steps.{act_run, on_socket_run}

pub length-hdr :
    (h : MessageHdr) → length h.token ≡ 16 → length h.padding ≡ 4 → length (hdr_bytes h) ≡ hdr_size
unfolding hdr_bytes
length-hdr h tok pad = simp length-append (omega (arith, tok, pad))

-- A message without a payload that the kernel takes at once.
pub send-once :
    {W : Type 0} (now : ℕ × ℕ) (m : Message) (os : List SendOutcome) (s : World W)
    → m.payload ≡ none
    → length m.hdr.token ≡ 16
    → length m.hdr.padding ≡ 4
    → s.socket.outcomes ≡ sent hdr_size ∷ os
    → send now m s
      ≡ ok (
        pos 0,
        record s {
          socket = record (s.socket) {
            outcomes = os;
            wire = s.socket.wire ++ hdr_bytes (outgoing now none m.hdr);
          };
        },
      )
unfolding send
send-once now m os s empty tok pad e =
    act_run (on_socket (msg_send now m none)) (λ r. done r.0) s
      (on_socket_run (msg_send now m none) s
        (msg_send-once now m os s.socket empty (length-hdr (outgoing now none m.hdr) tok pad) e))

-- The header of a message with an error text.
abbrev pub error_hdr : ℕ × ℕ → List ℕ → MessageHdr
error_hdr now text =
    outgoing now none (msg_init msg_clear msgtype_error (some (string text)) (length text + 1)).hdr

pub length-string : (text : List ℕ) → length (string text) ≡ suc (length text)
length-string text = length-append text (0 ∷ []) ∙ omega arith

pub send_error-once :
    {W : Type 0} (now : ℕ × ℕ) (text : List ℕ) (os : List SendOutcome) (s : World W)
    → s.socket.outcomes ≡ sent hdr_size ∷ sent (suc (length text)) ∷ os
    → send_error now text s
      ≡ ok (
        pos 0,
        record s {
          socket = record (s.socket) {
            outcomes = os;
            wire = s.socket.wire ++ (hdr_bytes (error_hdr now text) ++ string text);
          };
        },
      )
unfolding send_error send msg_init msg_clear
send_error-once now text os s e =
    let m : Message = msg_init msg_clear msgtype_error (some (string text)) (length text + 1) in
    act_run (on_socket (msg_send now m none)) (λ r. done r.0) s
      (on_socket_run (msg_send now m none) s (
        msg_send-body now m (string text) refl (omega (arith, length-string text)) (length text) os
          s.socket (length-hdr (outgoing now none m.hdr) refl refl) (length-string text) e))
