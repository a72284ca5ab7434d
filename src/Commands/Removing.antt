-- ===== src/Commands/Removing.antt =====
-- `cmd_rm` of src/client.c: the request that it sends, and what it makes of the answer.
use mini_dropbox.Prelude.{
  ℕ, suc, ◌≡◌, refl, ap, ◌∙◌, false, none, some, List, [], ◌∷◌, ◌++◌, ℤ, pos, length, replicate,
  length-replicate,
}
use mini_dropbox.UserMap.{Uuid}
use mini_dropbox.Session.{FileInfo}
use mini_dropbox.Net.{SendOutcome, sent, Socket, ok}
use mini_dropbox.Net.Loops.{stream}
use mini_dropbox.Msg.{
  MessageHdr, Message, msgtype_remove_req, msgtype_remove_res, hdr_size, hdr_bytes, msg_init,
  msg_recv_payload, outgoing,
}
use mini_dropbox.Msg.Receive.{Arrives, msg_recv_payload-body}
use mini_dropbox.UserPath.{path_max}
use mini_dropbox.Server.{string}
use mini_dropbox.Requests.{fileinfo_size}
use mini_dropbox.Requests.Deleting.{removed_bytes}
use mini_dropbox.Streams.{fileinfo_of_bytes}
use mini_dropbox.Streams.Layout.{IsInfo, length-fileinfo_bytes, fileinfo_of_bytes-fileinfo_bytes}
use mini_dropbox.Client.{
  Client, Host, reply_text, on_socket, on_value, is_minus_one, with_token, load_token,
}
use mini_dropbox.Client.Steps.{step_run, socket_run}
use mini_dropbox.Commands.Asking.{sent_msg, asked, asked_run, header_run}
use mini_dropbox.Commands.{path_request, rm_payload, rm_receive, rm_reply, cmd_rm}

module _ {W : Type 0} (host : Host W) (path : List ℕ) (token : Uuid) (width : length token ≡ 16)
    (padded : length host.junk_message.hdr.padding ≡ 4) where
  -- The message that the command sends.
  abbrev pub rm_request : Message
  rm_request = path_request (with_token token host.junk_message) msgtype_remove_req path

  abbrev pub rm_req_hdr : MessageHdr
  rm_req_hdr = outgoing host.now none rm_request.hdr

  module _ (s s1 : Client W) (code : ℤ) (os : List SendOutcome) (h : MessageHdr) (info : FileInfo)
      (rest : List ℕ)
      (tokened : load_token host host.junk_message.hdr.token s ≡ ok ((code, token), s1))
      (good : is_minus_one code ≡ false)
      (taken : s1.socket.outcomes ≡ sent hdr_size ∷ sent (suc (length path)) ∷ os)
      (answer : Arrives h (removed_bytes info) rest s1.socket) (type : h.type ≡ msgtype_remove_res)
      (valid : IsInfo info) where
    -- The command up to the header of the answer.
    answered :
        (t : Socket) × (cmd_rm host (path ∷ []) s
          ≡ rm_reply h.type
              (record rm_request { hdr = h; rcvd_at = host.now })
              (record s1 { socket = t }))
        × (stream t.incoming ≡ removed_bytes info ++ rest)
        × (t.wire ≡ s1.socket.wire ++ (hdr_bytes rm_req_hdr ++ string path))
    unfolding cmd_rm msg_init
    answered =
        let c : Client W = asked host host.junk_message msgtype_remove_req path token s1 os in
        let (t, run, on, w) =
          header_run host.now (sent_msg host host.junk_message msgtype_remove_req path token) h
            (removed_bytes info) rest rm_reply c
            (record { valid = answer.valid; counted = answer.counted; bytes = answer.bytes }) in
        (
          t,
          asked_run host host.junk_message msgtype_remove_req path token width padded s s1 code os
                tokened good taken _
              ∙ run,
          on,
          w,
        )

    whole : length (removed_bytes info) ≡ fileinfo_size
    whole =
        length-fileinfo_bytes info (replicate path_max 0) valid
          (length-replicate {A = ℕ} path_max 0)

    info_read : fileinfo_of_bytes (some (removed_bytes info)) ≡ some info
    info_read =
        fileinfo_of_bytes-fileinfo_bytes info (replicate path_max 0) valid
          (length-replicate {A = ℕ} path_max 0)

    -- The payload of the answer.
    rm_receive_run :
        (m : Message) (t : Socket)
        → m.hdr ≡ h
        → stream t.incoming ≡ removed_bytes info ++ rest
        → (u : Socket) × (rm_receive m (record s1 { socket = t })
            ≡ ok (
              pos 0,
              record s1 { socket = u; output = s1.output ++ reply_text (some info.filename) ∷ [] },
            ))
          × (u.wire ≡ t.wire)
    unfolding rm_receive rm_payload
    rm_receive_run m t same on =
        let asked : Message = record m { payload = none } in
        let (u, run, on2, w, o) =
          msg_recv_payload-body asked 8192 (removed_bytes info) rest t
            (ap (λ k. k.length) same ∙ answer.counted) on in
        let got : Message = record m { payload = some (removed_bytes info) } in
        let v : Client W = record s1 { socket = u } in
        let received : msg_recv_payload asked 8192 t ≡ ok ((pos 0, got), u) = run ∙ rw whole refl in
        (
          u,
          step_run (on_socket (msg_recv_payload asked 8192)) _ (record s1 { socket = t })
                (socket_run (msg_recv_payload asked 8192) (record s1 { socket = t }) received)
              ∙ ap (λ k. rm_payload k got.payload v) (ap (λ k. k.type) same ∙ type)
              ∙ step_run (on_value (fileinfo_of_bytes (some (removed_bytes info)))) _ v
                  (ap (λ x. on_value x v) info_read),
          w,
        )

    -- REMOVE_RES is success, and the name in it is printed.
    pub cmd_rm-removed :
        (t : Client W) × (cmd_rm host (path ∷ []) s ≡ ok (pos 0, t))
        × (t.socket.wire ≡ s1.socket.wire ++ (hdr_bytes rm_req_hdr ++ string path))
        × (t.output ≡ s1.output ++ reply_text (some info.filename) ∷ [])
    unfolding rm_reply
    cmd_rm-removed =
        let (t, run, on, w) = answered in
        let m : Message = record rm_request { hdr = h; rcvd_at = host.now } in
        let (u, run2, w2) = rm_receive_run m t refl on in
        (
          record s1 { socket = u; output = s1.output ++ reply_text (some info.filename) ∷ [] },
          run ∙ ap (λ k. rm_reply k m (record s1 { socket = t })) type ∙ run2,
          w2 ∙ w,
          refl,
        )
