-- ===== src/Requests/Registering.antt =====
-- The answer of `handle_auth` of src/server.c to a token that is new, and what it registers.
use mini_dropbox.Prelude.{
  ℕ, ◌≡◌, ◌↔◌, refl, ap, ◌∙◌, true, false, none, some, List, [], ◌∷◌, ◌++◌, pos, is_zero, codes,
  length,
}
use mini_dropbox.UserMap.{Uuid, umap_get}
use mini_dropbox.UserMap.Invariant.{IsValid, bucket}
use mini_dropbox.User.{user_init}
use mini_dropbox.Net.{SendOutcome, sent, ok}
use mini_dropbox.Msg.{MessageHdr, Message, msgtype_auth_ok, hdr_size, hdr_bytes, msg_init, msg_send}
use mini_dropbox.Msg.Whole.{msg_send-body}
use mini_dropbox.FilePath.{slash}
use mini_dropbox.UserPath.{path_max, storage_dir, snprintf}
use mini_dropbox.Server.{World, done, ◌>>=◌, on_socket, on_files, string, send, uman_register_user}
use mini_dropbox.Server.Steps.{act_run, on_socket_run}
use mini_dropbox.Server.Replying.{length-hdr}
use mini_dropbox.Server.Users.{uman_register_user-new}
use mini_dropbox.Requests.{Env, auth_reply, handle_auth}

-- The answer, which ends in two NULs.
abbrev pub registered_text : List ℕ
registered_text = string (string (codes "Registered"))

abbrev pub auth_ok_hdr : ℕ × ℕ → MessageHdr → MessageHdr
auth_ok_hdr now h = record h { length = 12; type = msgtype_auth_ok; sent_at = now }

-- The directory of a user.
abbrev pub user_dir : {W : Type 0} → Env W → Uuid → List ℕ
user_dir env token = snprintf path_max (storage_dir ++ slash ∷ env.unparse token)

module _ {W : Type 0} (env : Env W) (msg : Message) (s : World W)
    (same : (a b : Uuid) → (is_zero (env.compare a b) ≡ true) ↔ (a ≡ b))
    (fresh : env.junk_chain ≡ []) (valid : IsValid s.user_map)
    (free : bucket s.user_map msg.hdr.token ≡ []) (tok : length env.junk_message.hdr.token ≡ 16)
    (pad : length env.junk_message.hdr.padding ≡ 4) (w : W) (os : List SendOutcome)
    (made : env.os.mkdir (user_dir env msg.hdr.token) s.files ≡ (none, w))
    (taken : s.socket.outcomes ≡ sent hdr_size ∷ sent 12 ∷ os) where
  abbrev out : List ℕ
  out = hdr_bytes (auth_ok_hdr env.now env.junk_message.hdr) ++ registered_text

  abbrev answered : World W
  answered = record s {
    files = w;
    socket = record (s.socket) { outcomes = os; wire = s.socket.wire ++ out };
  }

  auth_reply_run : auth_reply env none (record s { files = w }) ≡ ok (pos 0, answered)
  unfolding auth_reply send msg_init
  auth_reply_run =
      let m : Message = msg_init env.junk_message msgtype_auth_ok (some registered_text) 12 in
      act_run (on_socket (msg_send env.now m none)) (λ r. done r.0) (record s { files = w })
        (on_socket_run (msg_send env.now m none) (record s { files = w })
          (msg_send-body env.now m registered_text refl refl 11 os s.socket
            (length-hdr (auth_ok_hdr env.now env.junk_message.hdr) tok pad) refl taken))

  -- The user's directory is made, the answer is AUTH_OK, and the token is found from then on.
  pub handle_auth-registered :
      (t : World W) × (handle_auth env msg s ≡ ok (tt, t))
      × (t.files ≡ w)
      × (t.socket.wire
          ≡ s.socket.wire
            ++ (hdr_bytes (auth_ok_hdr env.now env.junk_message.hdr) ++ registered_text))
      × (umap_get env.compare t.user_map msg.hdr.token ≡ some (pos 0, some (length s.heap)))
      × (t.heap ≡ s.heap ++ user_init env.generated (some msg.hdr.token) ∷ [])
      × IsValid t.user_map
      × ((q : Uuid)
          → is_zero (env.compare msg.hdr.token q) ≡ false
          → umap_get env.compare t.user_map q ≡ umap_get env.compare s.user_map q)
  unfolding handle_auth
  handle_auth-registered =
      let (map, run, v, found, get) =
        uman_register_user-new env.compare env.generated answered same valid msg.hdr.token free in
      (
        record answered {
          user_map = map;
          heap = s.heap ++ user_init env.generated (some msg.hdr.token) ∷ [];
        },
        act_run (on_files (λ w. some (env.os.mkdir (user_dir env msg.hdr.token) w)))
              (λ made. auth_reply env made >>= λ r.
                uman_register_user env.compare env.generated env.junk_chain msg.hdr.token)
              s {a = none} {t = record s { files = w }} (rw (on_files, made) refl)
            ∙ act_run (auth_reply env none) _ (record s { files = w }) auth_reply_run
            ∙ ap (λ c. uman_register_user env.compare env.generated c msg.hdr.token answered) fresh
            ∙ run,
        refl,
        refl,
        found,
        refl,
        v,
        get,
      )
