-- ===== src/Commands/Making.antt =====
-- `cmd_mkdir` of src/client.c: the request that it sends, and what it makes of the answer.
use mini_dropbox.Prelude.{
  ℕ, suc, ◌<◌, ◌≡◌, refl, ap, ◌∙◌, false, none, some, List, [], ◌∷◌, ◌++◌, ℤ, pos, length,
  replicate,
}
use mini_dropbox.UserMap.{Uuid}
use mini_dropbox.Net.{SendOutcome, sent, Socket, ok}
use mini_dropbox.Net.Loops.{stream}
use mini_dropbox.Msg.{
  MessageHdr, Message, msgtype_error, msgtype_mkdir_req, msgtype_mkdir_res, hdr_size, hdr_bytes,
  msg_init, msg_clear, msg_recv_payload, outgoing,
}
use mini_dropbox.Msg.Receive.{Arrives, payload_empty}
use mini_dropbox.Server.{string}
use mini_dropbox.Server.Replying.{length-string}
use mini_dropbox.Requests.{c_string}
use mini_dropbox.Requests.Texts.{NoNul, c_string_lem}
use mini_dropbox.Requests.Answers.{msg_recv_payload-text}
use mini_dropbox.Client.{
  Client, Host, reply_text, done, on_socket, on_value, print_payload, is_minus_one, with_token,
  load_token,
}
use mini_dropbox.Client.Steps.{step_run, socket_run}
use mini_dropbox.Commands.Asking.{sent_msg, asked, asked_run, header_run}
use mini_dropbox.Commands.{path_request, mkdir_payload, mkdir_receive, mkdir_reply, cmd_mkdir}

module _ {W : Type 0} (host : Host W) (path : List ℕ) (token : Uuid)
    (width : length token ≡ 16) where
  -- The message that the command sends.
  abbrev pub mkdir_request : Message
  mkdir_request = path_request (with_token token msg_clear) msgtype_mkdir_req path

  abbrev pub mkdir_req_hdr : MessageHdr
  mkdir_req_hdr = outgoing host.now none mkdir_request.hdr

  module _ (s s1 : Client W) (code : ℤ) (os : List SendOutcome) (h : MessageHdr)
      (content rest : List ℕ)
      (tokened : load_token host (replicate 16 0) s ≡ ok ((code, token), s1))
      (good : is_minus_one code ≡ false)
      (taken : s1.socket.outcomes ≡ sent hdr_size ∷ sent (suc (length path)) ∷ os)
      (answer : Arrives h content rest s1.socket) where
    -- The command up to the header of the answer.
    answered :
        (t : Socket) × (cmd_mkdir host (path ∷ []) s
          ≡ mkdir_reply h.type
              (record mkdir_request { hdr = h; rcvd_at = host.now })
              (record s1 { socket = t }))
        × (stream t.incoming ≡ content ++ rest)
        × (t.wire ≡ s1.socket.wire ++ (hdr_bytes mkdir_req_hdr ++ string path))
    unfolding cmd_mkdir msg_init msg_clear
    answered =
        let c : Client W = asked host msg_clear msgtype_mkdir_req path token s1 os in
        let (t, run, on, w) =
          header_run host.now (sent_msg host msg_clear msgtype_mkdir_req path token) h content rest
            mkdir_reply c
            (record { valid = answer.valid; counted = answer.counted; bytes = answer.bytes }) in
        (
          t,
          asked_run host msg_clear msgtype_mkdir_req path token width refl s s1 code os tokened good
                taken _
              ∙ run,
          on,
          w,
        )

    -- MKDIR_RES without a payload is success.
    pub cmd_mkdir-made :
        h.type ≡ msgtype_mkdir_res
        → content ≡ []
        → (t : Client W) × (cmd_mkdir host (path ∷ []) s ≡ ok (pos 0, t))
          × (t.socket.wire ≡ s1.socket.wire ++ (hdr_bytes mkdir_req_hdr ++ string path))
          × (t.output ≡ s1.output)
    unfolding mkdir_reply mkdir_receive mkdir_payload
    cmd_mkdir-made type empty =
        let (t, run, on, w) = answered in
        let m : Message = record mkdir_request { hdr = h; rcvd_at = host.now } in
        (
          record s1 { socket = t },
          run
              ∙ ap (λ k. mkdir_reply k m (record s1 { socket = t })) type
              ∙ step_run (on_socket (msg_recv_payload m 8192)) _ (record s1 { socket = t })
                  (socket_run (msg_recv_payload m 8192) (record s1 { socket = t })
                    (payload_empty m 8192 t (rw none_sent refl) (rw none_sent refl)))
              ∙ ap (λ k. mkdir_payload k m.payload (record s1 { socket = t })) type,
          w,
          refl,
        )
      where
        none_sent : h.length ≡ 0
        none_sent = answer.counted ∙ ap length empty

    -- An ERROR with a text of at most 8192 bytes is a failure, and its text is printed.
    pub cmd_mkdir-failed :
        (text : List ℕ)
        → h.type ≡ msgtype_error
        → content ≡ string text
        → NoNul text
        → length text < 8192
        → (t : Client W) × (cmd_mkdir host (path ∷ []) s ≡ ok (pos 1, t))
          × (t.socket.wire ≡ s1.socket.wire ++ (hdr_bytes mkdir_req_hdr ++ string path))
          × (t.output ≡ s1.output ++ reply_text (some text) ∷ [])
    unfolding mkdir_reply mkdir_receive mkdir_payload print_payload
    cmd_mkdir-failed text type sent_text clean small =
        let (t, run, on, w) = answered in
        let m : Message = record mkdir_request { hdr = h; rcvd_at = host.now } in
        let got : Message = record m { payload = some (string text) } in
        let (u, run2, on2, w2, o2) =
          msg_recv_payload-text m 8192 text rest t
            (answer.counted ∙ ap length sent_text ∙ length-string text) small
            (on ∙ ap (λ c. c ++ rest) sent_text) in
        let v : Client W = record s1 { socket = u } in
        (
          record v { output = s1.output ++ reply_text (some text) ∷ [] },
          run
              ∙ ap (λ k. mkdir_reply k m (record s1 { socket = t })) type
              ∙ step_run (on_socket (msg_recv_payload m 8192)) _ (record s1 { socket = t })
                  (socket_run (msg_recv_payload m 8192) (record s1 { socket = t }) run2)
              ∙ ap (λ k. mkdir_payload k got.payload v) type
              ∙ step_run (print_payload (some (string text))) (λ p. done (pos 1)) v
                  (step_run (on_value (c_string (some (string text)))) _ v
                    (ap (λ x. on_value x v) (c_string_lem [] text clean))),
          w2 ∙ w,
          refl,
        )
