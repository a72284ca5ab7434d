-- ===== src/Commands.antt =====
-- `cmd_auth`, `cmd_rm`, `cmd_mkdir` and `cmd_list` of src/client.c. The result is the exit code.
pub mod Making
pub mod Listing
pub mod Asking
pub mod Removing
pub mod Authing
mod Tests
use mini_dropbox.Prelude.{
  ℕ, zero, suc, ◌+◌, Option, none, some, List, [], ◌∷◌, ℤ, pos, negsuc, is_neg, if◌then◌else◌,
  length,
}
use mini_dropbox.Net.{blocked}
use mini_dropbox.Msg.{
  MessageType, msgtype_error, msgtype_auth_req, msgtype_remove_req, msgtype_remove_res,
  msgtype_mkdir_req, msgtype_mkdir_res, msgtype_list_req, msgtype_fileinfo, Message, msg_init,
  msg_clear, msg_recv, msg_recv_header, msg_recv_payload,
}
use mini_dropbox.Msg.Names.{msg_type_to_str}
use mini_dropbox.Server.{string, handle_recv_error}
use mini_dropbox.Requests.{fileinfo_size}
use mini_dropbox.Streams.{fileinfo_of_bytes}
use mini_dropbox.Client.{
  reply_text, entry, Host, Act, done, ◌>>=◌, on_socket, on_value, print, print_payload,
  is_minus_one, with_token, load_token, send, loaded,
}

-- The message that asks for a path.
abbrev pub path_request : Message → MessageType → List ℕ → Message
path_request msg type path = msg_init msg type (some (string path)) (length path + 1)

module _ {W : Type 0} where
  -- Any type of reply is printed, and counts as success.
  pub auth_reply : Message → Act W ℤ
  auth_reply msg = do
    name ← on_value (msg_type_to_str msg.hdr.type)
    p ← print_payload msg.payload
    done (pos 0)

  -- printf("expected …, got %s\n", msg_type_to_str(type)); return 1;
  pub unexpected : MessageType → Act W ℤ
  unexpected type = on_value (msg_type_to_str type) >>= λ name. done (pos 1)

  -- What follows the payload. Only a payload that was received can be freed.
  pub rm_payload : MessageType → Option (List ℕ) → Act W ℤ
  unfolding unexpected
  rm_payload msgtype_error payload = do
    text ← on_value payload
    p ← print_payload (some text)
    done (pos 1)
  rm_payload msgtype_remove_res payload = do
    info ← on_value (fileinfo_of_bytes payload)
    p ← print (reply_text (some info.filename))
    done (pos 0)
  rm_payload type payload = unexpected type

  -- Up to here the pointer leads to the argument.
  pub rm_receive : Message → Act W ℤ
  unfolding rm_payload
  rm_receive msg = do
    q ← on_socket (msg_recv_payload (record msg { payload = none }) 8192)
    (if handle_recv_error q.0 then rm_payload q.1.hdr.type q.1.payload else done (pos 1))

  pub rm_reply : MessageType → Message → Act W ℤ
  unfolding rm_receive unexpected
  rm_reply msgtype_error msg = rm_receive msg
  rm_reply msgtype_remove_res msg = rm_receive msg
  rm_reply type msg = unexpected type

  pub mkdir_payload : MessageType → Option (List ℕ) → Act W ℤ
  mkdir_payload msgtype_error payload = print_payload payload >>= λ p. done (pos 1)
  mkdir_payload type payload = done (pos 0)

  pub mkdir_receive : Message → Act W ℤ
  unfolding mkdir_payload
  mkdir_receive msg = do
    q ← on_socket (msg_recv_payload msg 8192)
    (if handle_recv_error q.0 then mkdir_payload q.1.hdr.type q.1.payload else done (pos 1))

  pub mkdir_reply : MessageType → Message → Act W ℤ
  unfolding mkdir_receive unexpected
  mkdir_reply msgtype_error msg = mkdir_receive msg
  mkdir_reply msgtype_mkdir_res msg = mkdir_receive msg
  mkdir_reply type msg = unexpected type

  -- One message of a listing, behind which `next` goes on. Any other type ends it with success.
  pub list_message : Act W ℤ → MessageType → Option (List ℕ) → Act W ℤ
  list_message next msgtype_fileinfo payload = do
    info ← on_value (fileinfo_of_bytes payload)
    p ← print (entry info.size info.filename)
    next
  list_message next msgtype_error payload = do
    text ← on_value payload
    p ← print_payload (some text)
    done (pos 1)
  list_message next type payload = done (pos 0)

module _ {W : Type 0} (host : Host W) where
  unfoldable pub cmd_auth : Act W ℤ
  unfolding auth_reply
  cmd_auth = loaded host (msg_init msg_clear msgtype_auth_req none 0) (λ msg. do
    sent ← send host msg
    (if is_minus_one sent.0 then done (pos 1) else (do
      r ← on_socket (msg_recv host.now msg_clear 1024)
      (if handle_recv_error r.0 then auth_reply r.1 else done (pos 1)))))

  unfoldable pub cmd_rm : List (List ℕ) → Act W ℤ
  unfolding rm_reply
  cmd_rm [] = done (pos 1)
  cmd_rm (filename ∷ args) = loaded host host.junk_message (λ msg. do
    sent ← send host (path_request msg msgtype_remove_req filename)
    (if is_neg sent.0 then done (pos 1) else (do
      r ← on_socket (msg_recv_header host.now sent.1)
      (if handle_recv_error r.0 then rm_reply r.1.hdr.type r.1 else done (pos 1)))))

  -- What `msg_send` returns is not looked at.
  unfoldable pub cmd_mkdir : List (List ℕ) → Act W ℤ
  unfolding mkdir_reply
  cmd_mkdir [] = done (pos 1)
  cmd_mkdir (filename ∷ extra ∷ args) = done (pos 1)
  cmd_mkdir (filename ∷ []) = loaded host msg_clear (λ msg. do
    sent ← send host (path_request msg msgtype_mkdir_req filename)
    r ← on_socket (msg_recv_header host.now sent.1)
    (if handle_recv_error r.0 then mkdir_reply r.1.hdr.type r.1 else done (pos 1)))

  -- while (true), on fuel. A payload of an earlier round is freed, and cannot be read.
  pub list_loop : ℕ → Message → Act W ℤ
  unfolding list_message
  list_loop zero msg = λ s. blocked
  list_loop (suc fuel) msg = do
    r ← on_socket (msg_recv host.now (record msg { payload = none }) fileinfo_size)
    (if handle_recv_error r.0
        then list_message (list_loop fuel r.1) r.1.hdr.type r.1.payload
        else done (pos 1))

  list_path : ℕ → List ℕ → Act W ℤ
  unfolding list_loop
  list_path fuel path =
      loaded host host.junk_message
        (λ msg. do sent ← send host (path_request msg msgtype_list_req path); list_loop fuel sent.1)

  unfoldable pub cmd_list : ℕ → List (List ℕ) → Act W ℤ
  unfolding list_path
  cmd_list fuel [] = list_path fuel []
  cmd_list fuel (path ∷ []) = list_path fuel path
  cmd_list fuel (path ∷ extra ∷ args) = done (pos 1)
