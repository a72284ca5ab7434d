-- ===== src/Copying/Resuming.antt =====
-- Where `cmd_upload` of src/client.c goes on with an upload that was interrupted.
use mini_dropbox.Prelude.{ℕ, ◌%◌, ◌≡◌, List, ◌++◌}
use mini_dropbox.Session.{FileInfo}
use mini_dropbox.Net.{Socket}
use mini_dropbox.Net.Loops.{stream}
use mini_dropbox.Msg.{Message, msgtype_upload_res, msg_recv_payload, to_bytes}
use mini_dropbox.Msg.Receive.{msg_recv_payload-body}
use mini_dropbox.Client.{Client, Host, on_socket}
use mini_dropbox.Client.Steps.{step_run, socket_run}
use mini_dropbox.Copying.{upload_file, upload_reply}

module _ {W : Type 0} (host : Host W) (fuel : ℕ) (info : FileInfo) where
  -- The server sends the chunk to go on from as a number of eight bytes; the client goes on from that
  -- number modulo 256.
  pub upload_reply-truncates :
      (msg : Message) (n : ℕ) (rest : List ℕ) (s : Client W)
      → msg.hdr.length ≡ 8
      → stream s.socket.incoming ≡ to_bytes 8 n ++ rest
      → (t : Socket) × (upload_reply host fuel info msgtype_upload_res msg s
          ≡ upload_file host fuel info (n % 256) (record s { socket = t }))
        × (stream t.incoming ≡ rest)
        × (t.wire ≡ s.socket.wire)
        × (t.outcomes ≡ s.socket.outcomes)
  unfolding upload_reply to_bytes
  upload_reply-truncates msg n rest s eight arrived =
      let (t, run, on, w, o) =
        msg_recv_payload-body msg 8 (to_bytes 8 n) rest s.socket eight arrived in
      (
        t,
        step_run (on_socket (msg_recv_payload msg 8)) _ s
            (socket_run (msg_recv_payload msg 8) s run),
        on,
        w,
        o,
      )
