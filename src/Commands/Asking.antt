-- ===== src/Commands/Asking.antt =====
-- What the commands of src/client.c that ask for a path have in common: the request, and the header
-- of the answer.
use mini_dropbox.Prelude.{
  ℕ, suc, ◌≡◌, ◌∙◌, refl, false, none, List, ◌∷◌, ◌++◌, ℤ, pos, arith, length, if◌then◌else◌,
}
use mini_dropbox.UserMap.{Uuid}
use mini_dropbox.Net.{SendOutcome, sent, Socket, ok}
use mini_dropbox.Net.Loops.{stream}
use mini_dropbox.Msg.{
  MessageHdr, MessageType, Message, hdr_size, hdr_bytes, msg_init, msg_send, msg_recv_header,
  outgoing,
}
use mini_dropbox.Msg.Whole.{msg_send-body}
use mini_dropbox.Msg.Receive.{Arrives, msg_recv_header-Arrives}
use mini_dropbox.Server.{string, handle_recv_error}
use mini_dropbox.Server.Replying.{length-hdr, length-string}
use mini_dropbox.Client.{
  Client, Host, Act, ◌>>=◌, done, on_socket, is_minus_one, with_token, load_token, send, loaded,
}
use mini_dropbox.Client.Steps.{step_run, socket_run}
use mini_dropbox.Commands.{path_request}

module _ {W : Type 0} (host : Host W) (junk : Message) (type : MessageType) (path : List ℕ)
    (token : Uuid) where
  abbrev pub asking_msg : Message
  asking_msg = path_request (with_token token junk) type path

  abbrev pub asking_hdr : MessageHdr
  asking_hdr = outgoing host.now none asking_msg.hdr

  -- The message as it was sent, and the client that has sent it.
  abbrev pub sent_msg : Message
  sent_msg = record asking_msg { hdr = asking_hdr }

  abbrev pub asked : Client W → List SendOutcome → Client W
  asked s os = record s {
    socket = record (s.socket) {
      outcomes = os;
      wire = s.socket.wire ++ (hdr_bytes asking_hdr ++ string path);
    };
  }

  pub asked_run :
      length token ≡ 16
      → length junk.hdr.padding ≡ 4
      → (s s1 : Client W) (code : ℤ) (os : List SendOutcome)
      → load_token host junk.hdr.token s ≡ ok ((code, token), s1)
      → is_minus_one code ≡ false
      → s1.socket.outcomes ≡ sent hdr_size ∷ sent (suc (length path)) ∷ os
      → (next : ℤ × Message → Act W ℤ)
      → loaded host junk (λ msg. send host (path_request msg type path) >>= next) s
        ≡ next (pos 0, sent_msg) (asked s1 os)
  unfolding send msg_init
  asked_run width padded s s1 code os tokened good taken next =
      step_run (load_token host junk.hdr.token) _ s tokened
      ∙ rw good (
          step_run (on_socket (msg_send host.now asking_msg none)) next s1 (
            socket_run (msg_send host.now asking_msg none) s1 (
              msg_send-body host.now asking_msg (string path) refl
                (omega (arith, length-string path)) (length path) os s1.socket
                (length-hdr asking_hdr width padded) (length-string path) taken)))

-- The header of the answer, which `reply` goes on from.
pub header_run :
    {W : Type 0} (now : ℕ × ℕ) (msg : Message) (h : MessageHdr) (content rest : List ℕ)
    (reply : MessageType → Message → Act W ℤ) (s : Client W)
    → Arrives h content rest s.socket
    → (t : Socket) × ((on_socket (msg_recv_header now msg) >>= λ r.
            if handle_recv_error r.0 then reply r.1.hdr.type r.1 else done (pos 1))
          s
        ≡ reply h.type (record msg { hdr = h; rcvd_at = now }) (record s { socket = t }))
      × (stream t.incoming ≡ content ++ rest)
      × (t.wire ≡ s.socket.wire)
header_run now msg h content rest reply s a =
    let (t, run, on, w, o) = msg_recv_header-Arrives now msg h content rest s.socket a in
    (
      t,
      step_run (on_socket (msg_recv_header now msg)) _ s
          (socket_run (msg_recv_header now msg) s run),
      on,
      w,
    )
