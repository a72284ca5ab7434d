-- ===== src/Commands/Tests.antt =====
-- Commands against servers that answer in one piece.
use mini_dropbox.Prelude.{
  ℕ, codes, Option, ◌≡◌, refl, none, some, List, [], ◌∷◌, ◌++◌, ℤ, pos, bytes_eq, replicate, length,
  arith,
}
use mini_dropbox.Net.{
  SendOutcome, Run, sent, arrived, closed, ok, blocked, aborted, send_all, recv_all,
}
use mini_dropbox.Net.Loops.{stream}
use mini_dropbox.Msg.{
  MessageHdr, MessageType, msgtype_auth_fail, msgtype_error, msgtype_remove_res, msgtype_fileinfo,
  msgtype_none, zero_hdr, msg_init, msg_clear, type_code, type_of_code, to_bytes, from_bytes,
  hdr_bytes, hdr_of_bytes, msg_send, recv_hdr, msg_recv_header, msg_recv_payload, msg_recv,
  outgoing,
}
use mini_dropbox.Msg.Names.{msg_type_to_str}
use mini_dropbox.Msg.Receive.{Arrives}
use mini_dropbox.Server.{string}
use mini_dropbox.Requests.{c_string, fileinfo_bytes, strcpy, zero_info}
use mini_dropbox.Streams.{fileinfo_of_bytes}
use mini_dropbox.Client.{
  Client, Line, reply_text, entry, print_payload, xdg_get_dir, token_path, load_token, send,
}
use mini_dropbox.Client.Tests.{token, token_text, host, client}
use mini_dropbox.Commands.{cmd_auth, cmd_rm, cmd_mkdir, cmd_list}
use mini_dropbox.Commands.Authing.{auth_request, cmd_auth-answered}

program : Unit {0}
unfolding stream bytes_eq send_all recv_all msg_init msg_clear type_code type_of_code to_bytes
    from_bytes hdr_bytes hdr_of_bytes msg_send recv_hdr msg_recv_header msg_recv_payload msg_recv
    msg_type_to_str c_string fileinfo_bytes fileinfo_of_bytes print_payload xdg_get_dir token_path
    load_token send cmd_auth cmd_rm cmd_mkdir cmd_list
program = tt

abbrev taken : List ℕ → List SendOutcome
taken [] = []
taken (n ∷ sizes) = sent n ∷ taken sizes

-- A client whose sends are taken whole, with the bytes that come.
abbrev asking : List ℕ → List ℕ → Client (Option (List ℕ))
asking sizes bytes = record (client 0) {
  socket = record {
    outcomes = taken sizes;
    wire = [];
    incoming = arrived bytes ∷ closed ∷ [];
    errno = 0;
  };
}

abbrev message : MessageType → List ℕ → List ℕ
message type payload =
    hdr_bytes (record zero_hdr { length = length payload; type = type }) ++ payload

-- What a command returns and has printed.
abbrev outcome : Run (ℤ × Client (Option (List ℕ))) → Option (ℤ × List Line)
outcome (ok (code, t)) = some (code, t.output)
outcome blocked = none
outcome aborted = none

abbrev file : List ℕ → List ℕ
file name =
    fileinfo_bytes (record zero_info { size = 300; filename = name })
      (strcpy name (replicate 4096 0))

listing :
    outcome (
      cmd_list host 5 [] (
        asking (48 ∷ 1 ∷ []) (
          message msgtype_fileinfo (file (codes "a"))
          ++ (message msgtype_fileinfo (file (codes "b")) ++ message msgtype_none []))))
    ≡ some (pos 0, entry 300 (codes "a") ∷ entry 300 (codes "b") ∷ [])
unfolding program
listing = refl

-- A client that has no token gets an AUTH_FAIL, and takes it for the end of the listing.
listing_refused :
    outcome (cmd_list host 5 [] (asking (48 ∷ 1 ∷ []) (message msgtype_auth_fail [])))
    ≡ some (pos 0, [])
unfolding program
listing_refused = refl

removing :
    outcome (
      cmd_rm host
        (codes "a" ∷ [])
        (asking (48 ∷ 2 ∷ []) (message msgtype_remove_res (file (codes "/var/minibox/u/a")))))
    ≡ some (pos 0, reply_text (some (codes "/var/minibox/u/a")) ∷ [])
unfolding program
removing = refl

removing_fails :
    outcome (
      cmd_rm host
        (codes "a" ∷ [])
        (asking (48 ∷ 2 ∷ []) (message msgtype_error (string (codes "no")))))
    ≡ some (pos 1, reply_text (some (codes "no")) ∷ [])
unfolding program
removing_fails = refl

-- The end of the stream instead of an answer.
making_fails :
    outcome (cmd_mkdir host (codes "a" ∷ []) (asking (48 ∷ 2 ∷ []) [])) ≡ some (pos 1, [])
unfolding program
making_fails = refl

wants_argument : outcome (cmd_rm host [] (client 0)) ≡ some (pos 1, [])
unfolding program
wants_argument = refl

abbrev fail_hdr : MessageHdr
fail_hdr = record zero_hdr { length = 3; type = msgtype_auth_fail }

abbrev authing : Client (Option (List ℕ))
authing = asking (48 ∷ []) (message msgtype_auth_fail (string (codes "no")))

abbrev authed : Client (Option (List ℕ))
authed = record authing { files = some (string token_text) }

loaded : load_token host (replicate 16 0) authing ≡ ok ((pos 0, token), authed)
unfolding program
loaded = refl

failed : Arrives fail_hdr (string (codes "no")) [] authed.socket
unfolding program
failed = record {
  valid = record {
    length_fits = omega arith;
    type_fits = omega arith;
    type_known = refl;
    token_size = refl;
    padding_size = refl;
    seconds_fit = omega arith;
    nanos_fit = omega arith;
  };
  counted = refl;
  bytes = refl;
}

fail_name : msg_type_to_str fail_hdr.type ≡ some (codes "MSGTYPE_AUTH_FAIL")
unfolding msg_type_to_str
fail_name = refl

cmd_auth-answered_example :
    (t : Client (Option (List ℕ))) × (cmd_auth host authing ≡ ok (pos 0, t))
    × (t.output ≡ [] ++ reply_text (some (codes "no")) ∷ [])
    × (t.socket.wire ≡ [] ++ hdr_bytes (outgoing (100, 5) none (auth_request host token refl).hdr))
cmd_auth-answered_example =
    cmd_auth-answered host token refl authing authed (pos 0) [] fail_hdr (codes "no")
      (codes "MSGTYPE_AUTH_FAIL") [] loaded refl refl failed fail_name (omega arith) (omega arith)
