-- ===== src/Exchange/Registering/Tests.antt =====
-- The first client of a server.
use mini_dropbox.Prelude.{
  ℕ, codes, Option, ◌≡◌, ◌↔◌, refl, false, true, none, some, List, [], ◌∷◌, ◌++◌, pos, is_zero,
  bytes_eq_iff, length, arith,
}
use mini_dropbox.UserMap.{Uuid, hash, umap_init, umap_get}
use mini_dropbox.UserMap.Invariant.{IsValid, bucket, umap_init-IsValid}
use mini_dropbox.User.{user_init}
use mini_dropbox.Net.{SendOutcome, sent, ok}
use mini_dropbox.Msg.{MessageHdr, msg_init, msg_clear, type_code, type_of_code, hdr_bytes}
use mini_dropbox.Msg.Header.{IsHdr}
use mini_dropbox.Server.{World}
use mini_dropbox.Requests.{zero_info}
use mini_dropbox.Requests.Registering.{registered_text, auth_ok_hdr}
use mini_dropbox.MainLoop.{on_readable}
use mini_dropbox.Client.{Client, reply_text}
use mini_dropbox.Client.Tests.{host, token}
use mini_dropbox.Commands.{cmd_auth}
use mini_dropbox.Exchange.Sample.{
  Log, env, disk, is_null, padding_width, asking, asked, loaded, server, stream_one, sound-IsHdr,
}
use mini_dropbox.Exchange.Registering.{auth_req_hdr, auth_exchange}

program : Unit {0}
unfolding umap_init hash msg_init msg_clear type_code type_of_code
program = tt

same : (a b : Uuid) → (is_zero ((env none).compare a b) ≡ true) ↔ (a ≡ b)
same a b = (λ h. ground (arith, bytes_eq_iff a b), λ h. ground (arith, bytes_eq_iff a b))

abbrev request : MessageHdr
request = auth_req_hdr host token refl

abbrev response : MessageHdr
response = auth_ok_hdr (100, 5) msg_clear.hdr

abbrev answer : List ℕ
answer = hdr_bytes response ++ (registered_text ++ [])

abbrev outs : List SendOutcome
outs = sent 48 ∷ []

abbrev serving : World Log
serving = record (server (sent 48 ∷ sent 12 ∷ []) (hdr_bytes request ++ [])) {
  user_map = umap_init ℕ 256;
}

token_width : length msg_clear.hdr.token ≡ 16
unfolding program
token_width = refl

free : bucket serving.user_map token ≡ []
unfolding program
free = refl

request-IsHdr : IsHdr request
unfolding program
request-IsHdr = sound-IsHdr request (omega arith) (omega arith) refl refl refl refl

response-IsHdr : IsHdr response
unfolding program
response-IsHdr = sound-IsHdr response (omega arith) (omega arith) refl refl refl refl

auth_exchange_example :
    (d : Client (Option (List ℕ))) × (t : World Log) × (cmd_auth host (asking outs answer)
      ≡ ok (pos 0, d))
    × (d.output ≡ [] ++ reply_text (some (codes "Registered")) ∷ [])
    × (d.socket.wire ≡ [] ++ hdr_bytes request)
    × (on_readable (env none) disk 3 zero_info is_null serving ≡ ok (tt, t))
    × (t.files ≡ codes "/var/minibox/u" ∷ [])
    × (t.socket.wire ≡ [] ++ (hdr_bytes response ++ registered_text))
    × (umap_get (env none).compare t.user_map token ≡ some (pos 0, some 0))
    × (t.heap ≡ [] ++ user_init (env none).generated (some token) ∷ [])
    × IsValid t.user_map
    × ((q : Uuid)
        → is_zero ((env none).compare token q) ≡ false
        → umap_get (env none).compare t.user_map q ≡ umap_get (env none).compare serving.user_map q)
auth_exchange_example =
    auth_exchange host (env none) disk 3 zero_info is_null token refl token_width padding_width same
      refl request-IsHdr (asking outs answer) (asked outs answer) (pos 0) refl
      (loaded _ outs answer) [] [] refl serving [] [] (stream_one (hdr_bytes request ++ []))
      (codes "/var/minibox/u" ∷ []) (umap_init-IsValid 256 (omega arith)) free refl refl
      response-IsHdr (stream_one answer)
