-- ===== src/Download/Replying.antt =====
-- How `handle_list` of src/server.c sends a listing.
use mini_dropbox.Prelude.{
  ℕ, suc, ◌<◌, ◌≡◌, refl, sym, ap, ap₂, append-nil, ◌∙◌, true, false, none, some, List, [], ◌∷◌,
  ◌++◌, pos, length, append_assoc, inr,
}
use mini_dropbox.Session.{FileInfo}
use mini_dropbox.Net.{SendOutcome, sent, ok}
use mini_dropbox.Net.Loops.{stream}
use mini_dropbox.Msg.{
  Message, msgtype_none, msgtype_fileinfo, hdr_size, hdr_bytes, msg_init, msg_send,
  msg_recv_payload,
}
use mini_dropbox.Msg.Whole.{msg_send-body}
use mini_dropbox.UserPath.{path_max, get_user_path}
use mini_dropbox.Files.{FileKind, regular, directory, other_kind, is_dots}
use mini_dropbox.Server.{World, done, on_socket, look, on_value, string, send}
use mini_dropbox.Server.Steps.{act_run, on_socket_run}
use mini_dropbox.Server.Replying.{length-hdr, send-once}
use mini_dropbox.Requests.{Env, c_string, fileinfo_size, zero_info, fileinfo_bytes}
use mini_dropbox.Requests.Texts.{NoNul, c_string_lem}
use mini_dropbox.Requests.Answers.{msg_recv_payload-text, with_path}
use mini_dropbox.Download.{
  entry_bytes, list_entries, list_dir, list_path, list_payload, handle_list,
}
use mini_dropbox.Download.Listing.{
  entry_path, named, Listing, nothing, dots, file, folder, special, Listing-Readable, entry_hdr,
  end_hdr, listing_bytes, listing_bytes-append,
}

-- The calls of `send` for a listing.
abbrev pub taken_all : List (List ℕ × FileInfo) → List SendOutcome → List SendOutcome
taken_all [] os = os
taken_all (p ∷ listed) os = sent hdr_size ∷ sent fileinfo_size ∷ taken_all listed os

-- The state behind an output.
abbrev pub behind : {W : Type 0} → World W → List SendOutcome → List ℕ → World W
behind s os out = record s {
  socket = record (s.socket) { outcomes = os; wire = s.socket.wire ++ out };
}

module _ {W : Type 0} (env : Env W) (fuel : ℕ) (unset : FileInfo) (path : List ℕ) (msg : Message)
    (tok : length msg.hdr.token ≡ 16) (pad : length msg.hdr.padding ≡ 4)
    (os : List SendOutcome) where
  -- One entry.
  entry_run :
      (bytes : List ℕ) (outs : List SendOutcome) (s : World W)
      → length bytes ≡ fileinfo_size
      → s.socket.outcomes ≡ sent hdr_size ∷ sent fileinfo_size ∷ outs
      → send env.now (msg_init msg msgtype_fileinfo (some bytes) fileinfo_size) s
        ≡ ok (pos 0, behind s outs (hdr_bytes (entry_hdr env.now msg.hdr) ++ bytes))
  unfolding send msg_init
  entry_run bytes outs s size e =
      let m : Message = msg_init msg msgtype_fileinfo (some bytes) fileinfo_size in
      act_run (on_socket (msg_send env.now m none)) (λ r. done r.0) s
        (on_socket_run (msg_send env.now m none) s (
          msg_send-body env.now m bytes refl (sym size) 4143 outs s.socket
            (length-hdr (entry_hdr env.now msg.hdr) tok pad) size e))

  -- An entry that is listed, and those behind it.
  step_run :
      (name bytes : List ℕ) (kind : FileKind) (info : FileInfo) (entries : List (List ℕ × FileKind))
      (listed : List (List ℕ × FileInfo)) (s : World W)
      → is_dots name ≡ false
      → entry_bytes env fuel unset kind (entry_path path name) name s.files ≡ some bytes
      → length bytes ≡ fileinfo_size
      → s.socket.outcomes ≡ taken_all ((bytes, info) ∷ listed) os
      → ((t : World W)
          → t.files ≡ s.files
          → t.socket.outcomes ≡ taken_all listed os
          → list_entries env fuel unset path entries msg t
            ≡ ok (msg, behind t os (listing_bytes env.now msg.hdr listed [])))
      → list_entries env fuel unset path ((name, kind) ∷ entries) msg s
        ≡ ok (msg, behind s os (listing_bytes env.now msg.hdr ((bytes, info) ∷ listed) []))
  unfolding list_entries
  step_run name bytes kind info entries listed s d read size e rest =
      let out = hdr_bytes (entry_hdr env.now msg.hdr) ++ bytes in
      let t : World W = behind s (taken_all listed os) out in
      rw d (
        act_run (look (entry_bytes env fuel unset kind (entry_path path name) name)) _ s {a = bytes}
          {t = s} (rw (look, read) refl)
        ∙ act_run (send env.now (msg_init msg msgtype_fileinfo (some bytes) fileinfo_size))
            (λ r. list_entries env fuel unset path entries msg) s
            (entry_run bytes (taken_all listed os) s size e)
        ∙ rest t refl refl
        ∙ ap (λ x. ok (msg, record s { socket = record (s.socket) { outcomes = os; wire = x } }))
            (append_assoc s.socket.wire out (listing_bytes env.now msg.hdr listed [])))

  list_entries_run :
      (w : W) {entries : List (List ℕ × FileKind)} {listed : List (List ℕ × FileInfo)}
      → Listing env fuel path w entries listed
      → (s : World W) → s.files ≡ w
      → s.socket.outcomes ≡ taken_all listed os
      → list_entries env fuel unset path entries msg s
        ≡ ok (msg, behind s os (listing_bytes env.now msg.hdr listed []))
  unfolding list_entries entry_bytes fileinfo_bytes
  list_entries_run w nothing s same e =
      ap₂ (λ o x. ok (msg, record s { socket = record (s.socket) { outcomes = o; wire = x } })) e
        (sym (append-nil s.socket.wire))
  list_entries_run w (dots name kind d l) s same e = rw d (list_entries_run w l s same e)
  list_entries_run w (file name n info d f fits v l) s same e =
      step_run name _ regular (named info name) _ _ s d (rw (same, entry_bytes, f) refl)
        (Listing-Readable env fuel path w (file name n info d f fits v l)).0 e
        (λ t k o. list_entries_run w l t (k ∙ same) o)
  list_entries_run w (folder name d v l) s same e =
      step_run name _ directory (named zero_info name) _ _ s d refl
        (Listing-Readable env fuel path w (folder name d v l)).0 e
        (λ t k o. list_entries_run w l t (k ∙ same) o)
  list_entries_run w (special name d v l) s same e =
      step_run name _ other_kind (named zero_info name) _ _ s d refl
        (Listing-Readable env fuel path w (special name d v l)).0 e
        (λ t k o. list_entries_run w l t (k ∙ same) o)

-- A directory whose entries can be listed: its listing is sent, and a message that ends it.
pub handle_list-listed :
    {W : Type 0} (env : Env W) (fuel : ℕ) (unset : FileInfo) (user : ℕ) (msg : Message)
    (name rest : List ℕ) (s : World W)
    → msg.hdr.length ≡ suc (length name)
    → length name < path_max
    → NoNul name
    → stream s.socket.incoming ≡ string name ++ rest
    → length msg.hdr.token ≡ 16
    → length msg.hdr.padding ≡ 4
    → (path : List ℕ) (entries : List (List ℕ × FileKind)) (listed : List (List ℕ × FileInfo))
      (os : List SendOutcome)
    → get_user_path env.unparse true name msg.hdr.token ≡ some (some path)
    → env.os.opendir path s.files ≡ inr entries
    → Listing env fuel path s.files entries listed
    → s.socket.outcomes ≡ taken_all listed (sent hdr_size ∷ os)
    → (t : World W) × (handle_list env fuel unset (some user) msg s ≡ ok (tt, t))
      × (t.files ≡ s.files)
      × (t.socket.wire
          ≡ s.socket.wire
            ++ listing_bytes env.now msg.hdr listed (hdr_bytes (end_hdr env.now msg.hdr)))
      × (stream t.socket.incoming ≡ rest)
unfolding handle_list list_payload list_path list_dir msg_init
handle_list-listed {W} env fuel unset user msg name rest s counted small text arrived tok pad path
      entries listed os located opened l taken =
    let (t, run, on, wire, o) =
      msg_recv_payload-text msg path_max name rest s.socket counted small arrived in
    let m = with_path msg name in
    let u : World W = record s { socket = t } in
    let v : World W = behind u (sent hdr_size ∷ os) (listing_bytes env.now msg.hdr listed []) in
    (
      record v {
        socket = record (v.socket) {
          outcomes = os;
          wire = v.socket.wire ++ hdr_bytes (end_hdr env.now msg.hdr);
        };
      },
      act_run (on_socket (msg_recv_payload msg path_max)) _ s
            (on_socket_run (msg_recv_payload msg path_max) s run)
          ∙ act_run (on_value (c_string (some (string name)))) _ u
              (ap (λ x. on_value x u) (c_string_lem [] name text))
          ∙ act_run (on_value (get_user_path env.unparse true name msg.hdr.token))
              (list_path env fuel unset m) u (ap (λ x. on_value x u) located)
          ∙ rw (list_dir, opened)
              (act_run (list_entries env fuel unset path entries m) _ u (
                  list_entries_run env fuel unset path m tok pad (sent hdr_size ∷ os) s.files l u
                    refl (o ∙ taken))
                ∙ act_run (send env.now (msg_init m msgtype_none none 0)) (λ r. done tt) v
                    (send-once env.now (msg_init m msgtype_none none 0) os v refl tok pad refl)),
      refl,
      append_assoc t.wire (listing_bytes env.now msg.hdr listed [])
            (hdr_bytes (end_hdr env.now msg.hdr))
          ∙ ap₂ ◌++◌ wire
              (listing_bytes-append env.now msg.hdr listed (hdr_bytes (end_hdr env.now msg.hdr))),
      on,
    )
