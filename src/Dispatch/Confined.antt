-- ===== src/Dispatch/Confined.antt =====
-- What the requests of a client to src/server.c do to the file system at most, from the dispatch on.
use mini_dropbox.Prelude.{
  ℕ, ◌≡◌, Bool, true, not, ◌&&◌, Option, none, some, List, ℤ, pos, negsuc, starts_with, ◌⊎◌, inl,
  inr,
}
use mini_dropbox.UserMap.{Uuid, umap_get}
use mini_dropbox.Session.{FileInfo}
use mini_dropbox.Net.{Run, ok, aborted}
use mini_dropbox.Msg.{
  MessageType, Message, msgtype_auth_fail, msgtype_remove_req, msgtype_mkdir_req, msg_init,
}
use mini_dropbox.Msg.Names.{msg_type_to_str}
use mini_dropbox.UserPath.{get_user_root}
use mini_dropbox.Server.{World, done, ◌>>=◌, on_value, send, uman_get_user}
use mini_dropbox.Server.Keeping.{
  Keeps, done-Keeps, bind-Keeps, if-Keeps, send-Keeps, on_value-Keeps,
}
use mini_dropbox.Requests.{Env}
use mini_dropbox.Requests.Removing.{handle_remove-Keeps}
use mini_dropbox.Requests.Making.{handle_mkdir-Keeps}
use mini_dropbox.Upload.{Disk}
use mini_dropbox.Dispatch.{is_auth_req, on_oneshot_req, on_request, on_client_message_received}

module _ {W F : Type 0} (env : Env W) (disk : Disk W F) (fuel : ℕ) (unset : FileInfo)
    (is_null : Uuid → Bool) (token : Uuid) (P : W → Type 0)
    (unlinked : (path : List ℕ) (w : W)
      → starts_with (get_user_root env.unparse token) path ≡ true
      → P w
      → P (env.os.unlink path w).1)
    (emptied : (path : List ℕ) (w : W)
      → starts_with (get_user_root env.unparse token) path ≡ true
      → P w
      → P (env.os.rmdir path w).1)
    (made : (path : List ℕ) (w : W)
      → starts_with (get_user_root env.unparse token) path ≡ true
      → P w
      → P (env.os.mkdir path w).1) where
  get_user-Keeps : (q : Uuid) → Keeps P (uman_get_user env.compare env.generated env.junk_chain q)
  unfolding uman_get_user
  get_user-Keeps q s t a p e = go (umap_get env.compare s.user_map q) e
    where
      go :
          (x : Option (ℤ × Option ℕ))
          → (elim x as (λ _. Run (Option ℕ × World W)) [
            | none ↦ aborted
            | some (code, user) ↦ ok (user, s)
          ])
            ≡ ok (a, t)
          → P t.files
      go none r = cc
      go (some (code, user)) r = done-Keeps P user s t a p r

  request-Keeps :
      (user : Option ℕ) (msg : Message) (type : MessageType)
      → (type ≡ msgtype_remove_req) ⊎ (type ≡ msgtype_mkdir_req)
      → msg.hdr.token ≡ token
      → Keeps P (on_request env disk fuel unset is_null type user msg)
  unfolding on_request on_oneshot_req
  request-Keeps user msg type (inl e) same =
      rw e (λ s t a p f. handle_remove-Keeps env token P unlinked emptied user msg s t same p f)
  request-Keeps user msg type (inr e) same =
      rw e (λ s t a p f. handle_mkdir-Keeps env token P made user msg s t same p f)

  -- Whoever sends a REMOVE_REQ or MKDIR_REQ, and with whatever payload, the server removes and makes
  -- only what lies at paths that begin with the root of the token in the message: a property of the
  -- file system that no such change breaks still holds when the message is dealt with.
  pub on_client_message_received-Keeps :
      (msg : Message) (s t : World W) (r : ℤ)
      → (msg.hdr.type ≡ msgtype_remove_req) ⊎ (msg.hdr.type ≡ msgtype_mkdir_req)
      → msg.hdr.token ≡ token
      → P s.files
      → on_client_message_received env disk fuel unset is_null msg s ≡ ok (r, t)
      → P t.files
  unfolding on_client_message_received
  on_client_message_received-Keeps msg s t r type same p e =
      bind-Keeps P (on_value (msg_type_to_str msg.hdr.type)) _ (on_value-Keeps P _)
        (λ name x y g.
          if-Keeps P (not (is_auth_req msg.hdr.type) && is_null msg.hdr.token)
            (send env.now (msg_init msg msgtype_auth_fail none 0) >>= λ q. done (negsuc 0))
            (uman_get_user env.compare env.generated env.junk_chain msg.hdr.token >>= λ user.
              on_request env disk fuel unset is_null msg.hdr.type user msg >>= λ q. done (pos 0))
            (bind-Keeps P (send env.now _) _ (send-Keeps P env.now _)
              (λ q u v f. done-Keeps P (negsuc 0)))
            (bind-Keeps P (uman_get_user env.compare env.generated env.junk_chain msg.hdr.token) _
              (get_user-Keeps msg.hdr.token)
              (λ user u v f.
                bind-Keeps P (on_request env disk fuel unset is_null msg.hdr.type user msg) _
                  (request-Keeps user msg msg.hdr.type type same)
                  (λ q x y g. done-Keeps P (pos 0)))))
        s t r p e
