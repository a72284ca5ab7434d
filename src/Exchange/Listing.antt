-- ===== src/Exchange/Listing.antt =====
-- `cmd_list` of src/client.c together with `handle_list` of src/server.c.
mod Tests
use mini_dropbox.Prelude.{
  ℕ, suc, ◌+◌, ◌<◌, ◌≡◌, refl, ap, ◌∙◌, Bool, true, false, none, some, List, [], ◌∷◌, ◌++◌, ℤ, pos,
  arith, length, map, inr,
}
use mini_dropbox.UserMap.{Uuid, umap_get}
use mini_dropbox.Session.{FileInfo}
use mini_dropbox.Net.{SendOutcome, sent, ok}
use mini_dropbox.Net.Loops.{stream}
use mini_dropbox.Msg.{MessageHdr, msgtype_list_req, hdr_size, hdr_bytes, msg_init}
use mini_dropbox.Msg.Names.{msg_type_to_str}
use mini_dropbox.Msg.Header.{IsHdr}
use mini_dropbox.UserPath.{path_max, get_user_path}
use mini_dropbox.Files.{FileKind}
use mini_dropbox.Server.{World, string}
use mini_dropbox.Server.Steps.{act_run}
use mini_dropbox.Requests.{Env}
use mini_dropbox.Requests.Texts.{NoNul}
use mini_dropbox.Upload.{Disk}
use mini_dropbox.Download.{handle_list}
use mini_dropbox.Download.Listing.{Listing, Listing-Readable, listing_bytes, entry_hdr, end_hdr}
use mini_dropbox.Download.Replying.{taken_all, handle_list-listed}
use mini_dropbox.Dispatch.{on_client_disconnected, on_request, on_stream_req}
use mini_dropbox.MainLoop.{on_readable}
use mini_dropbox.Client.{Client, Host, is_minus_one, load_token}
use mini_dropbox.Commands.{cmd_list}
use mini_dropbox.Commands.Listing.{list_req_hdr, shown, cmd_list-listed}
use mini_dropbox.Exchange.Serving.{add_one, counted_text, received, on_readable_request}

-- A client that lists a directory, and the server that serves it. What the client has sent stands on
-- the server's stream, and what the server has answered on the client's.
module _ {V W F : Type 0} (host : Host V) (env : Env W) (disk : Disk W F) (fuel : ℕ)
    (unset : FileInfo) (is_null : Uuid → Bool) (path : List ℕ) (token : Uuid)
    (width : length token ≡ 16) (padded : length host.junk_message.hdr.padding ≡ 4)
    (clean : NoNul path) (small : length path < path_max)
    (valid : IsHdr (list_req_hdr host path token width padded)) (known : is_null token ≡ false)
    (c c1 : Client V) (loading : ℤ) (good : is_minus_one loading ≡ false)
    (tokened : load_token host host.junk_message.hdr.token c ≡ ok ((loading, token), c1))
    (os os2 : List SendOutcome)
    (taken : c1.socket.outcomes ≡ sent hdr_size ∷ sent (suc (length path)) ∷ os) (s : World W)
    (code : ℤ) (user : ℕ)
    (registered : umap_get env.compare s.user_map token ≡ some (code, some user))
    (more later : List ℕ)
    (arrived : stream s.socket.incoming
      ≡ hdr_bytes (list_req_hdr host path token width padded) ++ (string path ++ more)) where
  -- `ls PATH` of a client whose token is registered prints the listing of the directory that
  -- `get_user_path` finds for the path, if the server can open it and inform itself about each
  -- regular file in it, the names fit the struct, the kernel takes each part of a message at once and
  -- there is a round for each message: the client exits with 0, and has printed the size and the name
  -- of each entry but "." and "..", in the order in which the server reads them (with the size 0 for
  -- all but regular files). The server changes no file, and closes the socket.
  pub list_exchange :
      (rounds : ℕ) (dir : List ℕ) (entries : List (List ℕ × FileKind))
      (listed : List (List ℕ × FileInfo))
      → length listed < rounds
      → get_user_path env.unparse true path token ≡ some (some dir)
      → env.os.opendir dir s.files ≡ inr entries
      → Listing env fuel dir s.files entries listed
      → s.socket.outcomes ≡ taken_all listed (sent hdr_size ∷ os2)
      → IsHdr (entry_hdr env.now (list_req_hdr host path token width padded))
      → IsHdr (end_hdr env.now (list_req_hdr host path token width padded))
      → stream c1.socket.incoming
        ≡ listing_bytes env.now
            (list_req_hdr host path token width padded)
            listed
            (hdr_bytes (end_hdr env.now (list_req_hdr host path token width padded)) ++ later)
      → (d : Client V) × (t : World W) × (cmd_list host rounds (path ∷ []) c ≡ ok (pos 0, d))
        × (d.output ≡ c1.output ++ map shown listed)
        × (d.socket.wire
            ≡ c1.socket.wire
              ++ (hdr_bytes (list_req_hdr host path token width padded) ++ string path))
        × (on_readable env disk fuel unset is_null s ≡ ok (tt, t))
        × (t.files ≡ s.files)
        × (t.is_open ≡ false)
        × (t.socket.wire
            ≡ s.socket.wire
              ++ listing_bytes env.now
                  (list_req_hdr host path token width padded)
                  listed
                  (hdr_bytes (end_hdr env.now (list_req_hdr host path token width padded))))
  unfolding msg_init msg_type_to_str on_request on_stream_req
  list_exchange rounds dir entries listed enough located opened l taken2 v1 v2 answer =
      let h : MessageHdr = list_req_hdr host path token width padded in
      let (u, serve, on, wire, o) =
        on_readable_request env disk fuel unset is_null h (string path) more s code (some user)
          valid msgtype_list_req refl _ refl known (counted_text path) registered arrived in
      let w : World W = record s { socket = u } in
      let (t, run, kept, out, left) =
        handle_list-listed env fuel unset user (received env.now env.junk_message h) path more w
          (add_one (length path)) small clean on width padded dir entries listed os2 located opened
          l (o ∙ taken2) in
      let (d, run2, printed, sent_all) =
        cmd_list-listed host path token width padded c c1 loading os env.now h later listed rounds
          tokened good taken v1 v2 (Listing-Readable env fuel dir s.files l) enough answer in
      (
        d,
        record t { is_open = false },
        run2,
        printed,
        sent_all,
        serve (record t { is_open = false })
            (act_run (handle_list env fuel unset (some user) (received env.now env.junk_message h))
              (λ r. on_client_disconnected) w run),
        kept,
        refl,
        out ∙ ap (λ x. x ++ listing_bytes env.now h listed (hdr_bytes (end_hdr env.now h))) wire,
      )
