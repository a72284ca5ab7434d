-- ===== src/MainLoop/Faults.antt =====
-- What one message can do to the whole of src/server.c.
use mini_dropbox.Prelude.{ℕ, Bool, ◌≡◌, refl, ◌∙◌, List}
use mini_dropbox.UserMap.{Uuid}
use mini_dropbox.Session.{FileInfo}
use mini_dropbox.Net.{aborted}
use mini_dropbox.Msg.{MessageHdr, other, msg_recv_header}
use mini_dropbox.Msg.Names.{msg_type_to_str}
use mini_dropbox.Msg.Receive.{Arrives, msg_recv_header-Arrives}
use mini_dropbox.Server.{World, on_socket}
use mini_dropbox.Server.Steps.{act_run, on_socket_run}
use mini_dropbox.Requests.{Env}
use mini_dropbox.Upload.{Disk}
use mini_dropbox.Dispatch.{on_client_message_received}
use mini_dropbox.MainLoop.{on_readable}

module _ {W F : Type 0} (env : Env W) (disk : Disk W F) (fuel : ℕ) (unset : FileInfo)
    (is_null : Uuid → Bool) where
  -- A message whose type is a number that no enumerator has aborts the server, in whatever pieces it
  -- arrives, and whether the client has a token or not.
  pub on_readable-unknown :
      (h : MessageHdr) (content rest : List ℕ) (s : World W) (n : ℕ)
      → Arrives h content rest s.socket
      → h.type ≡ other n
      → on_readable env disk fuel unset is_null s ≡ aborted
  unfolding on_readable on_client_message_received msg_type_to_str
  on_readable-unknown h content rest s n a e =
      let (t, run, on, w, o) =
        msg_recv_header-Arrives env.now env.junk_message h content rest s.socket a in
      act_run (on_socket (msg_recv_header env.now env.junk_message)) _ s
        (on_socket_run (msg_recv_header env.now env.junk_message) s run)
      ∙ rw (msg_type_to_str, e) refl
