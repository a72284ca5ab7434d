-- ===== src/Dispatch/Preserving.antt =====
-- The dispatch of src/server.c keeps an invariant of the table of users.
use mini_dropbox.Prelude.{
  ℕ, Bool, not, ◌&&◌, ◌≡◌, Option, none, some, List, [], ◌∷◌, ◌++◌, ℤ, length, set,
}
use mini_dropbox.UserMap.{Uuid, UserMap, umap_put}
use mini_dropbox.Session.{FileInfo}
use mini_dropbox.User.{User, user_init}
use mini_dropbox.Msg.{
  MessageType, Message, msg_init, msgtype_auth_fail, msgtype_auth_req, msgtype_remove_req,
  msgtype_mkdir_req, msgtype_upload_req, msgtype_download_req, msgtype_list_req,
}
use mini_dropbox.Msg.Names.{msg_type_to_str}
use mini_dropbox.Server.{on_value, send, uman_get_user}
use mini_dropbox.Server.Preserving.{
  Preserves, bind-Preserves, on_value-Preserves, if-Preserves, send-Preserves,
  uman_get_user-Preserves,
}
use mini_dropbox.Requests.{Env}
use mini_dropbox.Requests.Preserving.{
  handle_auth-Preserves, handle_remove-Preserves, handle_mkdir-Preserves,
}
use mini_dropbox.Upload.{Disk, handle_upload}
use mini_dropbox.Upload.Preserving.{handle_upload-Preserves}
use mini_dropbox.Download.{handle_download, handle_list}
use mini_dropbox.Download.Preserving.{handle_download-Preserves, handle_list-Preserves}
use mini_dropbox.Dispatch.{
  is_auth_req, on_client_disconnected, on_request, on_client_message_received,
}

module _ {W F : Type 0} (env : Env W) (disk : Disk W F) (fuel : ℕ) (unset : FileInfo)
    (is_null : Uuid → Bool) (I : UserMap ℕ → List User → Type 0)
    (updates : (map : UserMap ℕ) (heap : List User) (p : ℕ) (user : User)
      → I map heap
      → I map (set heap p user))
    (registers : (map map' : UserMap ℕ) (heap : List User) (token : Uuid) (code : ℤ)
      → I map heap
      → umap_put env.compare env.junk_chain map token (length heap) ≡ some (code, map')
      → I map' (heap ++ user_init env.generated (some token) ∷ [])) where
  on_request-Preserves :
      (type : MessageType) (user : Option ℕ) (msg : Message)
      → Preserves I (on_request env disk fuel unset is_null type user msg)
  unfolding on_request
  on_request-Preserves msgtype_auth_req user msg = handle_auth-Preserves env I registers msg
  on_request-Preserves msgtype_remove_req user msg = handle_remove-Preserves env I user msg
  on_request-Preserves msgtype_mkdir_req user msg = handle_mkdir-Preserves env I user msg
  on_request-Preserves msgtype_upload_req user msg =
      bind-Preserves I (handle_upload env disk fuel user msg) (λ r. on_client_disconnected)
        (handle_upload-Preserves env disk fuel I updates user msg) (λ r s h. h)
  on_request-Preserves msgtype_download_req user msg =
      bind-Preserves I (handle_download env fuel unset user msg) (λ r. on_client_disconnected)
        (handle_download-Preserves env fuel unset I updates user msg) (λ r s h. h)
  on_request-Preserves msgtype_list_req user msg =
      bind-Preserves I (handle_list env fuel unset user msg) (λ r. on_client_disconnected)
        (handle_list-Preserves env fuel unset I user msg) (λ r s h. h)
  on_request-Preserves _ user msg = λ s h. h

  pub on_client_message_received-Preserves :
      (msg : Message) → Preserves I (on_client_message_received env disk fuel unset is_null msg)
  unfolding on_client_message_received
  on_client_message_received-Preserves msg =
      bind-Preserves I (on_value (msg_type_to_str msg.hdr.type)) _ (on_value-Preserves I _) (λ name.
        if-Preserves I (not (is_auth_req msg.hdr.type) && is_null msg.hdr.token) _ _
          (bind-Preserves I (send env.now (msg_init msg msgtype_auth_fail none 0)) _
            (send-Preserves I env.now _) (λ r s h. h))
          (bind-Preserves I (uman_get_user env.compare env.generated env.junk_chain msg.hdr.token) _
            (uman_get_user-Preserves I env.compare env.generated env.junk_chain msg.hdr.token)
            (λ user.
              bind-Preserves I (on_request env disk fuel unset is_null msg.hdr.type user msg) _
                (on_request-Preserves msg.hdr.type user msg) (λ r s h. h))))
