-- ===== src/Dispatch/Guard.antt =====
-- What `on_client_message_received` of src/server.c does with messages that have no token.
use mini_dropbox.Prelude.{
  ℕ, ◌≡◌, refl, Bool, true, false, none, some, List, ◌∷◌, ◌++◌, negsuc, length,
}
use mini_dropbox.UserMap.{Uuid}
use mini_dropbox.Session.{FileInfo}
use mini_dropbox.Net.{SendOutcome, sent, ok}
use mini_dropbox.Msg.{MessageHdr, Message, msgtype_auth_fail, hdr_size, hdr_bytes, msg_init}
use mini_dropbox.Msg.Names.{msg_type_to_str}
use mini_dropbox.Server.{World, done, send}
use mini_dropbox.Server.Steps.{act_run}
use mini_dropbox.Server.Replying.{send-once}
use mini_dropbox.Requests.{Env}
use mini_dropbox.Upload.{Disk}
use mini_dropbox.Dispatch.{is_auth_req, on_client_message_received}

-- The header of the answer to a message without a token.
abbrev pub auth_fail_hdr : ℕ × ℕ → Message → MessageHdr
auth_fail_hdr now msg = record (msg.hdr) { length = 0; type = msgtype_auth_fail; sent_at = now }

module _ {W F : Type 0} (env : Env W) (disk : Disk W F) (fuel : ℕ) (unset : FileInfo)
    (is_null : Uuid → Bool) where
  -- A message of any known type but AUTH_REQ whose token is null is answered with AUTH_FAIL, if the
  -- kernel takes the answer at once, and with the code -1. Nothing else changes: no file, no user and
  -- no session, and nothing more is read.
  pub on_client_message_received-null :
      (msg : Message) (name : List ℕ) (os : List SendOutcome) (s : World W)
      → msg_type_to_str msg.hdr.type ≡ some name
      → is_auth_req msg.hdr.type ≡ false
      → is_null msg.hdr.token ≡ true
      → length msg.hdr.token ≡ 16
      → length msg.hdr.padding ≡ 4
      → s.socket.outcomes ≡ sent hdr_size ∷ os
      → on_client_message_received env disk fuel unset is_null msg s
        ≡ ok (
          negsuc 0,
          record s {
            socket = record (s.socket) {
              outcomes = os;
              wire = s.socket.wire ++ hdr_bytes (auth_fail_hdr env.now msg);
            };
          },
        )
  unfolding on_client_message_received send msg_init
  on_client_message_received-null msg name os s known a n tok pad e =
      rw (known, a, n)
        (act_run (send env.now (msg_init msg msgtype_auth_fail none 0)) (λ r. done (negsuc 0)) s
          (send-once env.now (msg_init msg msgtype_auth_fail none 0) os s refl tok pad e))
