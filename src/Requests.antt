-- ===== src/Requests.antt =====
-- The handlers of src/server.c that answer a request with one message or a list of messages.
-- Memory is given by `malloc`; the prints to the console are left out.
pub mod Replies
pub mod Removing
pub mod Making
pub mod Texts
pub mod Answers
pub mod Deleting
pub mod Registering
pub mod Preserving
mod Tests
use mini_dropbox.Prelude.{
  ℕ, zero, suc, codes, ◌+◌, ◌-◌, Bool, true, false, Option, none, some, List, [], ◌∷◌, ◌++◌, ℤ, pos,
  negsuc, is_neg, if◌then◌else◌, ◌==◌, ltb, length, replicate, take, drop, inl, inr,
}
use mini_dropbox.UserMap.{Uuid, Chain}
use mini_dropbox.Session.{FileInfo}
use mini_dropbox.Net.{Run, ok, blocked, aborted}
use mini_dropbox.Msg.{
  MessageType, msgtype_none, msgtype_auth_fail, msgtype_auth_ok, msgtype_remove_res,
  msgtype_mkdir_res, msgtype_fileinfo, Message, msg_init, msg_recv_payload, to_bytes,
}
use mini_dropbox.FilePath.{slash}
use mini_dropbox.UserPath.{path_max, storage_dir, snprintf, get_user_root, get_user_path}
use mini_dropbox.Files.{
  Os, FileKind, regular, directory, other_kind, eexist, is_dots, fileinfo_from_filename, rm_r,
}
use mini_dropbox.Directories.{NextDir, create_directories_from_path}
use mini_dropbox.Server.{
  World, Act, done, undefined, ◌>>=◌, on_socket, on_files, look, on_value, string, send, send_error,
  handle_recv_error, uman_register_user,
}

-- The code that is not under src/, and what the program finds in memory that it has not set.
pub record Env (W : Type 0) : Type 0 where
  pub os : Os W
  pub unparse : Uuid → List ℕ
  pub compare : Uuid → Uuid → ℤ
  pub strerror : ℕ → List ℕ
  pub digest : List ℕ → List ℕ
  pub now : ℕ × ℕ
  pub generated : Uuid
  pub junk_chain : Chain ℕ
  pub junk_message : Message
  pub junk_payload : ℕ → List ℕ
  pub static : NextDir
  -- bounds on the reads of one file, and on the depth of a tree
  pub reads : ℕ
  pub depth : ℕ

-- The bytes up to the first NUL.
before_nul : List ℕ → Option (List ℕ)
before_nul [] = none
before_nul (c ∷ s) =
    let rest = before_nul s in
    if c == 0 then some [] else elim rest [ none ↦ none | some t ↦ some (c ∷ t) ]

-- `(char*)msg->payload` as a string: undefined if it is NULL or has no NUL.
unfoldable pub c_string : Option (List ℕ) → Option (List ℕ)
unfolding before_nul
c_string none = none
c_string (some s) = before_nul s

-- sizeof(FileInfo)
abbrev pub fileinfo_size : ℕ
fileinfo_size = 4144

-- `{ 0 }`
abbrev pub zero_info : FileInfo
zero_info = record { size = 0; chunk_count = 0; checksum = replicate 32 0; filename = [] }

-- What `strcpy` leaves in an array.
abbrev pub strcpy : List ℕ → List ℕ → List ℕ
strcpy text array = text ++ 0 ∷ drop (length text + 1) array

-- The bytes of the struct, with the array of the file name.
unfoldable pub fileinfo_bytes : FileInfo → List ℕ → List ℕ
fileinfo_bytes info array =
    to_bytes 8 info.size ++ (to_bytes 8 info.chunk_count ++ (info.checksum ++ array))

module _ {W : Type 0} (env : Env W) where
  -- send_error(sockfd, text); return;
  abbrev pub reject : List ℕ → Act W (Unit {0})
  reject text = send_error env.now text >>= λ r. done tt

  -- return_if_neg for the handlers, which return nothing
  abbrev pub unless_neg : ℤ → Act W (Unit {0}) → Act W (Unit {0})
  unless_neg ret next = if is_neg ret then done tt else next

  -- The text of the reply to a `mkdir` that failed.
  abbrev pub auth_error : ℕ → List ℕ
  auth_error errno = if errno == eexist then codes "Already registered" else env.strerror errno

  -- The reply, in a local `Message` that nothing has set before; `strcpy` into an array of 100 bytes
  -- overflows if the text does not fit.
  auth_reply : Option ℕ → Act W ℤ
  auth_reply (some errno) =
      if ltb (length (env.strerror errno)) 100
      then send env.now (
          msg_init env.junk_message msgtype_auth_fail (some (string (auth_error errno)))
            (length (auth_error errno) + 1))
      else undefined
  auth_reply none =
      send env.now
        (msg_init env.junk_message msgtype_auth_ok (some (string (string (codes "Registered")))) 12)

  unfoldable pub handle_auth : Message → Act W (Unit {0})
  unfolding auth_reply
  handle_auth msg = do
    let user_dir = snprintf path_max (storage_dir ++ slash ∷ env.unparse msg.hdr.token)
    made ← on_files (λ w. some (env.os.mkdir user_dir w))
    r ← auth_reply made
    uman_register_user env.compare env.generated env.junk_chain msg.hdr.token

  -- What follows the removal of the file: an errno, or the reply.
  remove_reply : Message → FileInfo → Option ℕ → Act W (Unit {0})
  remove_reply msg info (some errno) = reject (env.strerror errno)
  remove_reply msg info none = do
    let bytes = fileinfo_bytes info (strcpy info.filename (replicate path_max 0))
    r ← send env.now (msg_init msg msgtype_remove_res (some bytes) fileinfo_size)
    done tt

  -- rm_r(filepath), and what follows
  remove_file : Message → List ℕ → FileInfo → Act W (Unit {0})
  unfolding remove_reply
  remove_file msg filepath info = do
    gone ← on_files (rm_r env.os env.depth filepath)
    remove_reply msg info gone

  -- The code of `fileinfo_from_filename`: -2 is no regular file, of which the path alone is told.
  remove_info : Message → List ℕ → ℤ → FileInfo → Act W (Unit {0})
  unfolding remove_file
  remove_info msg filepath (pos n) info = remove_file msg filepath info
  remove_info msg filepath (negsuc (suc zero)) info =
      if ltb (length filepath) path_max
      then remove_file msg filepath (record info { filename = filepath })
      else undefined
  remove_info msg filepath (negsuc n) info = reject (codes "failed to get fileinfo from filename\n")

  remove_path : Message → Option (List ℕ) → Act W (Unit {0})
  unfolding remove_info
  remove_path msg none = reject (codes "invalid path")
  remove_path msg (some filepath) = do
    r ← look (fileinfo_from_filename env.digest env.os env.reads filepath zero_info)
    remove_info msg filepath r.0 r.1

  unfoldable pub handle_remove : Option ℕ → Message → Act W (Unit {0})
  unfolding remove_path
  handle_remove none msg = reject (codes "user not found")
  handle_remove (some user) msg = do
    r ← on_socket (msg_recv_payload msg 8192)
    unless_neg r.0 (do
      path ← on_value (c_string r.1.payload)
      filepath ← on_value (get_user_path env.unparse true path r.1.hdr.token)
      remove_path r.1 filepath)

  -- The code of `create_directories_from_path`, with its errno.
  mkdir_reply : Message → ℤ × ℕ → Act W (Unit {0})
  mkdir_reply msg (pos n, errno) =
      send env.now (msg_init msg msgtype_mkdir_res none 0) >>= λ r. done tt
  mkdir_reply msg (negsuc zero, errno) = reject (codes "invalid path")
  mkdir_reply msg (negsuc (suc zero), errno) = reject (codes "invalid path")
  mkdir_reply msg (negsuc (suc (suc zero)), errno) = reject (env.strerror errno)
  mkdir_reply msg (negsuc n, errno) = done tt

  mkdir_path : Message → Act W (Unit {0})
  unfolding mkdir_reply
  mkdir_path msg = do
    path ← on_value (c_string msg.payload)
    let root_dir = get_user_root env.unparse msg.hdr.token
    made ← on_files (create_directories_from_path env.os true env.static root_dir path)
    mkdir_reply msg made

  unfoldable pub handle_mkdir : Option ℕ → Message → Act W (Unit {0})
  unfolding mkdir_path
  handle_mkdir none msg = reject (codes "user not found")
  handle_mkdir (some user) msg = do
    r ← on_socket (msg_recv_payload msg 8192)
    (if handle_recv_error r.0 then mkdir_path r.1 else done tt)
