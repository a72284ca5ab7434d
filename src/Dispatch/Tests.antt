-- ===== src/Dispatch/Tests.antt =====
-- The guard at a REMOVE_REQ without a token.
use mini_dropbox.Prelude.{
  ℕ, codes, ◌≡◌, refl, true, none, some, List, [], ◌∷◌, ◌++◌, pos, negsuc, if◌then◌else◌, bytes_eq,
  starts_with, replicate, inl, inr, Bool,
}
use mini_dropbox.UserMap.{umap_init, Uuid, umap_get, hash}
use mini_dropbox.Net.{sent, arrived, ok, send_all, recv_all}
use mini_dropbox.Msg.{
  msgtype_remove_req, msgtype_mkdir_req, msgtype_mkdir_res, Message, msg_init, msg_clear, zero_hdr,
  type_code, type_of_code, to_bytes, from_bytes, hdr_bytes, hdr_of_bytes, msg_send, recv_hdr,
  msg_recv_header, msg_recv_payload,
}
use mini_dropbox.Msg.Names.{msg_type_to_str}
use mini_dropbox.FilePath.{
  push, copy, component, rewind_to_root, rewind, drop_last, up_absolute, ends_in_dot, separate,
  up_relative, separate_unless, add_component, normalize_loop, dot_if_empty, terminate,
  is_absolute_path, normalize_path,
}
use mini_dropbox.UserPath.{get_user_root, get_user_path}
use mini_dropbox.Files.{Os, file_checksum, fileinfo_from_filename, rm_r}
use mini_dropbox.Directories.{path_next_dir, create_directories_from_path}
use mini_dropbox.Server.{World, send, send_error, uman_get_user}
use mini_dropbox.Requests.{Env, c_string, fileinfo_bytes, handle_remove, handle_mkdir, zero_info}
use mini_dropbox.Upload.{Disk}
use mini_dropbox.Dispatch.{on_client_message_received, on_request, on_oneshot_req}
use mini_dropbox.Dispatch.Guard.{auth_fail_hdr, on_client_message_received-null}
use mini_dropbox.Dispatch.Confined.{on_client_message_received-Keeps}

program : Unit {0}
unfolding msg_type_to_str umap_get hash on_client_message_received on_request on_oneshot_req
    uman_get_user bytes_eq starts_with umap_init push copy component rewind_to_root rewind drop_last
    up_absolute ends_in_dot separate up_relative separate_unless add_component normalize_loop
    dot_if_empty terminate is_absolute_path normalize_path path_next_dir
    create_directories_from_path get_user_root get_user_path send_all recv_all msg_init msg_clear
    type_code type_of_code to_bytes from_bytes hdr_bytes hdr_of_bytes msg_send recv_hdr
    msg_recv_header msg_recv_payload file_checksum fileinfo_from_filename rm_r send send_error
    c_string fileinfo_bytes handle_remove handle_mkdir
program = tt

-- A file system on which every call fails.
abbrev os : Os (Unit {0})
os = record {
  lstat = λ path w. inl 5;
  open_rdonly = λ path w. inl 5;
  opendir = λ path w. inl 5;
  mkdir = λ path w. (some 5, w);
  unlink = λ path w. (some 5, w);
  rmdir = λ path w. (some 5, w);
}

abbrev env : Env (Unit {0})
env = record {
  os = os;
  unparse = λ token. [];
  compare = λ a b. pos 1;
  strerror = λ errno. [];
  digest = λ bs. replicate 32 0;
  now = (100, 5);
  generated = replicate 16 1;
  junk_chain = [];
  junk_message = msg_clear;
  junk_payload = λ n. [];
  static = record { path = []; curr_slash = negsuc 0 };
  reads = 2;
  depth = 3;
}

abbrev disk : Disk (Unit {0}) (Unit {0})
disk = record {
  create = λ path w. none;
  ops = record { lseek = λ n f. none; write = λ bs f. f };
  left = λ f. f;
}

abbrev is_null : Uuid → Bool
is_null token = bytes_eq token (replicate 16 0)

abbrev world : World (Unit {0})
world = record {
  socket = record { outcomes = sent 48 ∷ []; wire = []; incoming = []; errno = 0 };
  files = tt;
  user_map = umap_init ℕ 2;
  heap = [];
  store = record { session = λ p. none; info = λ p. none };
  free = 0;
  is_open = true;
}

abbrev request : Message
request = record {
  hdr = record zero_hdr { length = 2; type = msgtype_remove_req };
  rcvd_at = (100, 5);
  payload = none;
  payload_len = 0;
}

no_token : is_null request.hdr.token ≡ true
unfolding bytes_eq
no_token = refl

known : msg_type_to_str request.hdr.type ≡ some (codes "MSGTYPE_REMOVE_REQ")
unfolding msg_type_to_str
known = refl

on_client_message_received-null_example :
    on_client_message_received env disk 3 zero_info is_null request world
    ≡ ok (
      negsuc 0,
      record world {
        socket = record {
          outcomes = [];
          wire = [] ++ hdr_bytes (auth_fail_hdr (100, 5) request);
          incoming = [];
          errno = 0;
        };
      },
    )
on_client_message_received-null_example =
    on_client_message_received-null env disk 3 zero_info is_null request
      (codes "MSGTYPE_REMOVE_REQ") [] world known refl no_token refl refl refl

abbrev root : List ℕ
root = codes "/var/minibox/u"

-- Logs the directories that are made.
abbrev log_os : Os (List (List ℕ))
log_os = record {
  lstat = λ path w. inl 2;
  open_rdonly = λ path w. inl 2;
  opendir = λ path w. inl 2;
  mkdir = λ path w. (none, path ∷ w);
  unlink = λ path w. (none, path ∷ w);
  rmdir = λ path w. (none, path ∷ w);
}

abbrev log_env : Env (List (List ℕ))
log_env = record {
  os = log_os;
  unparse = λ token. codes "u";
  compare = λ a b. if bytes_eq a b then pos 0 else pos 1;
  strerror = λ errno. [];
  digest = λ bs. replicate 32 0;
  now = (100, 5);
  generated = replicate 16 1;
  junk_chain = [];
  junk_message = msg_clear;
  junk_payload = λ n. [];
  static = record { path = []; curr_slash = negsuc 0 };
  reads = 2;
  depth = 3;
}

abbrev log_disk : Disk (List (List ℕ)) (List (List ℕ))
log_disk = record {
  create = λ path w. none;
  ops = record { lseek = λ n f. none; write = λ bs f. f };
  left = λ f. f;
}

abbrev Below : List (List ℕ) → Type 0
Below [] = Unit
Below (path ∷ w) = (starts_with root path ≡ true) × Below w

-- The user with the token is the first one.
abbrev log_world : World (List (List ℕ))
log_world = record {
  socket = record {
    outcomes = sent 48 ∷ [];
    wire = [];
    incoming = arrived (codes "d/e" ++ 0 ∷ []) ∷ [];
    errno = 0;
  };
  files = [];
  user_map = record {
    entries = (record { key = replicate 16 7; value = 0 } ∷ []) ∷ [];
    count = 1;
    capacity = 1;
  };
  heap = [];
  store = record { session = λ p. none; info = λ p. none };
  free = 0;
  is_open = true;
}

abbrev mkdir_req : Message
mkdir_req = record msg_clear {
  hdr = record zero_hdr { length = 4; type = msgtype_mkdir_req; token = replicate 16 7 };
}

abbrev log_after : World (List (List ℕ))
log_after = record log_world {
  socket = record {
    outcomes = [];
    wire =
        hdr_bytes (record zero_hdr {
          type = msgtype_mkdir_res;
          token = replicate 16 7;
          sent_at = (100, 5);
        });
    incoming = [];
    errno = 0;
  };
  files = codes "/var/minibox/u/d/e" ∷ codes "/var/minibox/u/d" ∷ [];
}

makes :
    on_client_message_received log_env log_disk 3 zero_info is_null mkdir_req log_world
    ≡ ok (pos 0, log_after)
unfolding program
makes = refl

user_root : get_user_root log_env.unparse (replicate 16 7) ≡ root
unfolding program
user_root = refl

on_client_message_received-Keeps_example :
    Below (codes "/var/minibox/u/d/e" ∷ codes "/var/minibox/u/d" ∷ [])
on_client_message_received-Keeps_example =
    on_client_message_received-Keeps log_env log_disk 3 zero_info is_null (replicate 16 7) Below
      (λ path w h p. (rw user_root at h, p)) (λ path w h p. (rw user_root at h, p))
      (λ path w h p. (rw user_root at h, p)) mkdir_req log_world log_after (pos 0) (inr refl) refl
      tt makes
