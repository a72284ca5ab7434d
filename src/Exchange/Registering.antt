-- ===== src/Exchange/Registering.antt =====
-- `cmd_auth` of src/client.c together with `handle_auth` of src/server.c.
mod Tests
use mini_dropbox.Prelude.{
  ℕ, ◌≡◌, ◌↔◌, refl, ap, ◌∙◌, Bool, true, false, none, some, List, [], ◌∷◌, ◌++◌, ℤ, pos, negsuc,
  is_zero, codes, length, replicate, arith,
}
use mini_dropbox.UserMap.{Uuid, umap_get}
use mini_dropbox.UserMap.Invariant.{IsValid, bucket}
use mini_dropbox.UserMap.Lookup.{has, umap_get-has}
use mini_dropbox.Session.{FileInfo}
use mini_dropbox.User.{user_init}
use mini_dropbox.Net.{SendOutcome, sent, ok}
use mini_dropbox.Net.Loops.{stream}
use mini_dropbox.Msg.{
  MessageHdr, msgtype_auth_req, hdr_size, hdr_bytes, msg_init, msg_clear, outgoing,
}
use mini_dropbox.Msg.Names.{msg_type_to_str}
use mini_dropbox.Msg.Header.{IsHdr}
use mini_dropbox.Server.{World}
use mini_dropbox.Requests.{Env}
use mini_dropbox.Requests.Registering.{
  registered_text, auth_ok_hdr, user_dir, handle_auth-registered,
}
use mini_dropbox.Upload.{Disk}
use mini_dropbox.Dispatch.{on_request, on_oneshot_req}
use mini_dropbox.MainLoop.{on_readable}
use mini_dropbox.Client.{Client, Host, reply_text, is_minus_one, load_token}
use mini_dropbox.Commands.{cmd_auth}
use mini_dropbox.Commands.Authing.{auth_request, cmd_auth-content}
use mini_dropbox.Exchange.Serving.{received, on_readable_request}

-- The header of the request.
abbrev pub auth_req_hdr :
    {V : Type 0} (host : Host V) (token : Uuid) → length token ≡ 16 → MessageHdr
auth_req_hdr host token width = outgoing host.now none (auth_request host token width).hdr

-- A client with a token that the server has not seen. What the client has sent stands on the server's
-- stream, and what the server has answered on the client's.
module _ {V W F : Type 0} (host : Host V) (env : Env W) (disk : Disk W F) (fuel : ℕ)
    (unset : FileInfo) (is_null : Uuid → Bool) (token : Uuid) (width : length token ≡ 16)
    (tok : length env.junk_message.hdr.token ≡ 16) (pad : length env.junk_message.hdr.padding ≡ 4)
    (same : (a b : Uuid) → (is_zero (env.compare a b) ≡ true) ↔ (a ≡ b))
    (fresh : env.junk_chain ≡ []) (valid : IsHdr (auth_req_hdr host token width)) (c c1 : Client V)
    (loading : ℤ) (good : is_minus_one loading ≡ false)
    (tokened : load_token host (replicate 16 0) c ≡ ok ((loading, token), c1))
    (os os2 : List SendOutcome) (taken : c1.socket.outcomes ≡ sent hdr_size ∷ os) (s : World W)
    (more later : List ℕ)
    (arrived : stream s.socket.incoming ≡ hdr_bytes (auth_req_hdr host token width) ++ more) where
  -- `auth` of a client whose token is new to a valid table, in which no user stands in the token's
  -- chain, with `next` of the new entry NULL: if the server can make the user's directory and the
  -- kernel takes each part of a message at once, the client exits with 0 and prints "Registered", and
  -- the server makes the directory and finds the token from then on, with the address of a new user
  -- that has the token; it finds any other token as before, and the table is valid.
  pub auth_exchange :
      (w : W)
      → IsValid s.user_map
      → bucket s.user_map token ≡ []
      → env.os.mkdir (user_dir env token) s.files ≡ (none, w)
      → s.socket.outcomes ≡ sent hdr_size ∷ sent 12 ∷ os2
      → IsHdr (auth_ok_hdr env.now env.junk_message.hdr)
      → stream c1.socket.incoming
        ≡ hdr_bytes (auth_ok_hdr env.now env.junk_message.hdr) ++ (registered_text ++ later)
      → (d : Client V) × (t : World W) × (cmd_auth host c ≡ ok (pos 0, d))
        × (d.output ≡ c1.output ++ reply_text (some (codes "Registered")) ∷ [])
        × (d.socket.wire ≡ c1.socket.wire ++ hdr_bytes (auth_req_hdr host token width))
        × (on_readable env disk fuel unset is_null s ≡ ok (tt, t))
        × (t.files ≡ w)
        × (t.socket.wire
            ≡ s.socket.wire
              ++ (hdr_bytes (auth_ok_hdr env.now env.junk_message.hdr) ++ registered_text))
        × (umap_get env.compare t.user_map token ≡ some (pos 0, some (length s.heap)))
        × (t.heap ≡ s.heap ++ user_init env.generated (some token) ∷ [])
        × IsValid t.user_map
        × ((q : Uuid)
            → is_zero (env.compare token q) ≡ false
            → umap_get env.compare t.user_map q ≡ umap_get env.compare s.user_map q)
  unfolding msg_init msg_clear msg_type_to_str on_request on_oneshot_req
  auth_exchange w sound free made taken2 fits answer =
      let h : MessageHdr = auth_req_hdr host token width in
      let (u, serve, on, wire, o) =
        on_readable_request env disk fuel unset is_null h [] more s (negsuc 0) none valid
          msgtype_auth_req refl _ refl refl refl unknown arrived in
      let (t, run, files, out, found, heap, v, get) =
        handle_auth-registered env (received env.now env.junk_message h) (record s { socket = u })
          same fresh sound free tok pad w os2 made (o ∙ taken2) in
      let (d, run2, printed, sent_all) =
        cmd_auth-content host token width c c1 loading os (auth_ok_hdr env.now env.junk_message.hdr)
          (codes "Registered") (0 ∷ []) _ later tokened good taken
          (record { valid = fits; counted = refl; bytes = answer }) refl (ground arith)
          (omega arith) in
      (
        d,
        t,
        run2,
        printed,
        sent_all,
        serve t run,
        files,
        out
            ∙ ap
                (λ x.
                  x ++ (hdr_bytes (auth_ok_hdr env.now env.junk_message.hdr) ++ registered_text))
                wire,
        found,
        heap,
        v,
        get,
      )
    where
      unknown : umap_get env.compare s.user_map token ≡ some (negsuc 0, none)
      unknown = umap_get-has env.compare s.user_map sound token ∙ rw free (unfold has in refl)
