-- ===== src/Server.antt =====
-- What the handlers of src/server.c work on, the replies of src/util.c and src/user_manager.c.
-- `compare` is libuuid's `uuid_compare`, `now` what the clock reads. Memory is given by `malloc`.
pub mod Steps
pub mod Keeping
pub mod Users
pub mod Replying
pub mod Preserving
mod Tests
use mini_dropbox.Prelude.{
  ℕ, zero, suc, codes, ◌+◌, Bool, true, false, Option, none, some, List, [], ◌∷◌, ◌++◌, ℤ, pos,
  negsuc, is_neg, if◌then◌else◌, ◌==◌, length, replicate, take, inl, inr,
}
use mini_dropbox.UserMap.{Entry, Uuid, Chain, UserMap, umap_init, umap_get, umap_put}
use mini_dropbox.UserMap.Release.{umap_free_entries}
use mini_dropbox.User.{Store, User, user_init}
use mini_dropbox.Net.{Socket, Run, ok, blocked, aborted, Io}
use mini_dropbox.Msg.{
  MessageType, msgtype_error, msgtype_upload_res, msgtype_download_res, Message, msg_init,
  msg_clear, msg_send,
}
use mini_dropbox.FilePath.{slash}
use mini_dropbox.UserPath.{storage_dir}
use mini_dropbox.Files.{Os, FileKind, is_dots}

-- The client's socket, the file system, `user_map` (its values are addresses) and the users that
-- `malloc` gave, in the order of their addresses. The socket is open until it is closed.
pub record World (W : Type 0) : Type 0 where
  pub socket : Socket
  pub files : W
  pub user_map : UserMap ℕ
  pub heap : List User
  -- the sessions and the file information that pointers lead to, and an address that is free
  pub store : Store
  pub free : ℕ
  pub is_open : Bool

abbrev pub Act : Type 0 → Type 0 → Type 0
Act W A = World W → Run (A × World W)

abbrev pub done : {W A : Type 0} → A → Act W A
done a s = ok (a, s)

abbrev pub undefined : {W A : Type 0} → Act W A
undefined s = aborted

infixl 5 ◌>>=◌
abbrev pub ◌>>=◌ : {W A B : Type 0} → Act W A → (A → Act W B) → Act W B
◌>>=◌ m f s = elim (m s) [ ok (a, t) ↦ f a t | blocked ↦ blocked | aborted ↦ aborted ]

-- A step that uses the socket only.
abbrev pub on_socket : {W A : Type 0} → Io A → Act W A
on_socket m s = elim (m s.socket) [
  | ok (a, t) ↦ ok (a, record s { socket = t })
  | blocked ↦ blocked
  | aborted ↦ aborted
]

-- A step that uses the file system only; `none` is undefined behaviour.
abbrev pub on_files : {W A : Type 0} → (W → Option (A × W)) → Act W A
on_files m s = elim (m s.files) [ none ↦ aborted | some (a, w) ↦ ok (a, record s { files = w }) ]

-- A step that only looks at the file system.
abbrev pub look : {W A : Type 0} → (W → Option A) → Act W A
look m s = elim (m s.files) [ none ↦ aborted | some a ↦ ok (a, s) ]

-- A value that may be undefined.
abbrev pub on_value : {W A : Type 0} → Option A → Act W A
on_value none s = aborted
on_value (some a) s = ok (a, s)

-- The bytes of a C string.
abbrev pub string : List ℕ → List ℕ
string text = text ++ 0 ∷ []

module _ (now : ℕ × ℕ) {W : Type 0} where
  -- msg_send(msg, sockfd, NULL, 0)
  unfoldable pub send : Message → Act W ℤ
  send msg = on_socket (msg_send now msg none) >>= λ r. done r.0

  unfoldable pub send_error : List ℕ → Act W ℤ
  send_error text = send (msg_init msg_clear msgtype_error (some (string text)) (length text + 1))

  unfoldable pub send_upload_res : List ℕ → ℕ → Act W ℤ
  send_upload_res payload len = send (msg_init msg_clear msgtype_upload_res (some payload) len)

  unfoldable pub send_download_res : List ℕ → ℕ → Act W ℤ
  send_download_res payload len = send (msg_init msg_clear msgtype_download_res (some payload) len)

-- ret >= 0, behind the prints
abbrev pub handle_recv_error : ℤ → Bool
handle_recv_error (pos n) = true
handle_recv_error (negsuc n) = false

-- `generated` and `junk` are what `user_init` and `umap_put` find in their new memory.
module _ (compare : Uuid → Uuid → ℤ) (generated : Uuid) (junk : Chain ℕ) {W : Type 0} where
  -- NULL is `none`.
  unfoldable pub uman_get_user : Uuid → Act W (Option ℕ)
  uman_get_user token s = elim (umap_get compare s.user_map token) [
    | none ↦ aborted
    | some (code, user) ↦ ok (user, s)
  ]

  -- What `umap_put` returns is not looked at.
  unfoldable pub uman_register_user : Uuid → Act W (Unit {0})
  uman_register_user token s = elim (umap_put compare junk s.user_map token (length s.heap)) [
    | none ↦ aborted
    | some (code, map) ↦
        ok (tt, record s { user_map = map; heap = s.heap ++ user_init generated (some token) ∷ [] })
  ]

  -- `parse` is `uuid_parse`, `none` its -1; `stale` is what an unset `token` holds.
  module _ (os : Os W) (parse : List ℕ → Option Uuid) (stale : Uuid) where
    abbrev pub parsed : Option Uuid → Uuid
    parsed none = stale
    parsed (some token) = token

    -- while ((entry = readdir(dir)) != NULL)
    register_entries : List (List ℕ × FileKind) → Act W (Unit {0})
    register_entries [] = done tt
    register_entries ((name, kind) ∷ entries) =
        if is_dots name
        then register_entries entries
        else (uman_register_user (parsed (parse name)) >>= λ r. register_entries entries)

    unfoldable pub uman_init : Act W (Unit {0})
    unfolding register_entries
    uman_init s =
        let fresh : World W = record s { user_map = umap_init ℕ 256 } in
        elim (os.opendir storage_dir s.files) [
          | inl errno ↦ ok (tt, fresh)
          | inr entries ↦ register_entries entries fresh
        ]

-- The users and the entries that are freed.
abbrev uman_deinit : {W : Type 0} → World W → Option (List ℕ × List (Entry ℕ))
uman_deinit s = umap_free_entries s.user_map
