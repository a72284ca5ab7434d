-- ===== src/Exchange/Removing.antt =====
-- `cmd_rm` of src/client.c together with `handle_remove` of src/server.c.
mod Tests
use mini_dropbox.Prelude.{
  ℕ, suc, ◌+◌, ◌<◌, ◌≡◌, refl, sym, ap, ◌∙◌, Bool, true, false, none, some, List, [], ◌∷◌, ◌++◌, ℤ,
  pos, arith, ltb, inr, length, replicate, length-replicate,
}
use mini_dropbox.UserMap.{Uuid, umap_get}
use mini_dropbox.Session.{FileInfo}
use mini_dropbox.Net.{SendOutcome, sent, Socket, ok}
use mini_dropbox.Net.Loops.{stream}
use mini_dropbox.Msg.{MessageHdr, msgtype_remove_req, hdr_size, hdr_bytes, msg_init}
use mini_dropbox.Msg.Names.{msg_type_to_str}
use mini_dropbox.Msg.Header.{IsHdr}
use mini_dropbox.UserPath.{path_max, get_user_path}
use mini_dropbox.Files.{Os, regular, count_chunks, file_checksum, fileinfo_from_filename, rm_r}
use mini_dropbox.Server.{World, string}
use mini_dropbox.Requests.{Env, fileinfo_size, zero_info}
use mini_dropbox.Requests.Texts.{NoNul}
use mini_dropbox.Requests.Deleting.{removed_bytes, remove_res_hdr, handle_remove-removed}
use mini_dropbox.Streams.Layout.{IsInfo, length-fileinfo_bytes}
use mini_dropbox.Upload.{Disk}
use mini_dropbox.Dispatch.{on_request, on_oneshot_req}
use mini_dropbox.MainLoop.{on_readable}
use mini_dropbox.Client.{Client, Host, reply_text, is_minus_one, load_token}
use mini_dropbox.Commands.{cmd_rm}
use mini_dropbox.Commands.Removing.{rm_req_hdr, cmd_rm-removed}
use mini_dropbox.Exchange.Serving.{add_one, counted_text, received, on_readable_request}

-- What the server says of a regular file of some size and checksum.
abbrev pub describe : List ℕ → ℕ → List ℕ → FileInfo
describe filepath size sum = record {
  filename = filepath;
  size = size;
  chunk_count = count_chunks size;
  checksum = sum;
}

rm_r-regular :
    {W : Type 0} (os : Os W) (depth : ℕ) (path : List ℕ) (size : ℕ) (w : W)
    → os.lstat path w ≡ inr (regular, size)
    → rm_r os (suc depth) path w ≡ some (os.unlink path w)
unfolding rm_r
rm_r-regular os depth path size w e = rw (rm_r, e) refl

fileinfo_from_filename-regular :
    (digest : List ℕ → List ℕ) {W : Type 0} (os : Os W) (reads : ℕ) (path : List ℕ) (size : ℕ)
    (code : ℤ) (sum : List ℕ) (w : W)
    → length path < path_max
    → os.lstat path w ≡ inr (regular, size)
    → file_checksum digest os reads path w ≡ some (code, some sum)
    → fileinfo_from_filename digest os reads path zero_info w ≡ some (pos 0, describe path size sum)
unfolding fileinfo_from_filename count_chunks
fileinfo_from_filename-regular digest os reads path size code sum w h e f =
    rw (fileinfo_from_filename, e, fits h, f) refl
  where
    fits : length path < path_max → ltb (length path) path_max ≡ true
    fits h = ground arith

-- A client that removes a file, and the server that serves it. What the client has sent stands on the
-- server's stream, and what the server has answered on the client's.
module _ {V W F : Type 0} (host : Host V) (env : Env W) (disk : Disk W F) (fuel : ℕ)
    (unset : FileInfo) (is_null : Uuid → Bool) (path : List ℕ) (token : Uuid)
    (width : length token ≡ 16) (padded : length host.junk_message.hdr.padding ≡ 4)
    (clean : NoNul path) (small : length path < 8192)
    (valid : IsHdr (rm_req_hdr host path token width padded)) (known : is_null token ≡ false)
    (c c1 : Client V) (loading : ℤ) (good : is_minus_one loading ≡ false)
    (tokened : load_token host host.junk_message.hdr.token c ≡ ok ((loading, token), c1))
    (os os2 : List SendOutcome)
    (taken : c1.socket.outcomes ≡ sent hdr_size ∷ sent (suc (length path)) ∷ os) (s : World W)
    (code : ℤ) (user : ℕ)
    (registered : umap_get env.compare s.user_map token ≡ some (code, some user))
    (more later : List ℕ)
    (arrived : stream s.socket.incoming
      ≡ hdr_bytes (rm_req_hdr host path token width padded) ++ (string path ++ more)) where
  -- `rm PATH` of a client whose token is registered removes a regular file: if `lstat` reports one at
  -- the path that `get_user_path` finds, a checksum of it can be computed, its name fits the struct,
  -- `unlink` succeeds on that path, and the kernel takes each part of a message at once, then the
  -- server's files are those behind that one call, its answer carries the name, the size, the count
  -- of chunks and the checksum of the file, and the client exits with 0 and prints the name.
  pub rm_exchange :
      (filepath : List ℕ) (size depth : ℕ) (summed : ℤ) (sum : List ℕ) (w : W)
      → let info = describe filepath size sum in
        IsInfo info
        → get_user_path env.unparse true path token ≡ some (some filepath)
        → env.depth ≡ suc depth
        → env.os.lstat filepath s.files ≡ inr (regular, size)
        → file_checksum env.digest env.os env.reads filepath s.files ≡ some (summed, some sum)
        → env.os.unlink filepath s.files ≡ (none, w)
        → s.socket.outcomes ≡ sent hdr_size ∷ sent fileinfo_size ∷ os2
        → IsHdr (remove_res_hdr env.now (rm_req_hdr host path token width padded))
        → stream c1.socket.incoming
          ≡ hdr_bytes (remove_res_hdr env.now (rm_req_hdr host path token width padded))
            ++ (removed_bytes info ++ later)
        → (d : Client V) × (t : World W) × (cmd_rm host (path ∷ []) c ≡ ok (pos 0, d))
          × (d.socket.wire
              ≡ c1.socket.wire
                ++ (hdr_bytes (rm_req_hdr host path token width padded) ++ string path))
          × (d.output ≡ c1.output ++ reply_text (some filepath) ∷ [])
          × (on_readable env disk fuel unset is_null s ≡ ok (tt, t))
          × (t.files ≡ w)
          × (t.socket.wire
              ≡ s.socket.wire
                ++ (hdr_bytes (remove_res_hdr env.now (rm_req_hdr host path token width padded))
                    ++ removed_bytes info))
  unfolding msg_init msg_type_to_str on_request on_oneshot_req
  rm_exchange filepath size depth summed sum w sound located deep seen digested unlinked taken2 fits
        answer =
      let info = describe filepath size sum in
      let told =
        fileinfo_from_filename-regular env.digest env.os env.reads filepath size summed sum s.files
          sound.name_fits seen digested in
      let gone : rm_r env.os env.depth filepath s.files ≡ some (none, w) =
        ap (λ k. rm_r env.os k filepath s.files) deep
        ∙ rm_r-regular env.os depth filepath size s.files seen
        ∙ ap some unlinked in
      let h : MessageHdr = rm_req_hdr host path token width padded in
      let r : MessageHdr = remove_res_hdr env.now h in
      let whole : length (removed_bytes info) ≡ fileinfo_size =
        length-fileinfo_bytes info (replicate path_max 0) sound
          (length-replicate {A = ℕ} path_max 0) in
      let (u, serve, on, wire, o) =
        on_readable_request env disk fuel unset is_null h (string path) more s code (some user)
          valid msgtype_remove_req refl _ refl known (counted_text path) registered arrived in
      let (t, run, removed, out, left) =
        handle_remove-removed env user (received env.now env.junk_message h) path more
          (record s { socket = u }) (add_one (length path)) small clean on filepath 0 info sound w
          os2 located told gone width padded (o ∙ taken2) in
      let (d, run2, sent_all, told_client) =
        cmd_rm-removed host path token width padded c c1 loading os r info later tokened good taken
          (record { valid = fits; counted = sym whole; bytes = answer }) refl sound in
      (
        d,
        t,
        run2,
        sent_all,
        told_client,
        serve t run,
        removed,
        out ∙ ap (λ x. x ++ (hdr_bytes r ++ removed_bytes info)) wire,
      )
