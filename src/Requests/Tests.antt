-- ===== src/Requests/Tests.antt =====
-- The theorems on the handlers at a user with the token "u" and the directory "d".
use mini_dropbox.Prelude.{
  ℕ, codes, ◌≡◌, refl, true, none, some, List, [], ◌∷◌, ◌++◌, pos, negsuc, if◌then◌else◌, bytes_eq,
  starts_with, replicate, inl, inr,
}
use mini_dropbox.UserMap.{umap_init}
use mini_dropbox.Net.{sent, arrived, ok, send_all, recv_all}
use mini_dropbox.Msg.{
  msgtype_error, msgtype_remove_req, msgtype_mkdir_req, msgtype_mkdir_res, Message, msg_init,
  msg_clear, zero_hdr, type_code, type_of_code, to_bytes, from_bytes, hdr_bytes, hdr_of_bytes,
  msg_send, recv_hdr, msg_recv_header, msg_recv_payload,
}
use mini_dropbox.FilePath.{
  push, copy, component, rewind_to_root, rewind, drop_last, up_absolute, ends_in_dot, separate,
  up_relative, separate_unless, add_component, normalize_loop, dot_if_empty, terminate,
  is_absolute_path, normalize_path,
}
use mini_dropbox.UserPath.{get_user_root, get_user_path}
use mini_dropbox.Files.{Os, regular, directory, file_checksum, fileinfo_from_filename, rm_r}
use mini_dropbox.Directories.{path_next_dir, create_directories_from_path}
use mini_dropbox.Server.{World, send, send_error}
use mini_dropbox.Requests.{Env, c_string, fileinfo_bytes, handle_remove, handle_mkdir}
use mini_dropbox.Requests.Removing.{handle_remove-Keeps}
use mini_dropbox.Requests.Making.{handle_mkdir-Keeps}

program : Unit {0}
unfolding bytes_eq starts_with umap_init push copy component rewind_to_root rewind drop_last
    up_absolute ends_in_dot separate up_relative separate_unless add_component normalize_loop
    dot_if_empty terminate is_absolute_path normalize_path path_next_dir
    create_directories_from_path get_user_root get_user_path send_all recv_all msg_init msg_clear
    type_code type_of_code to_bytes from_bytes hdr_bytes hdr_of_bytes msg_send recv_hdr
    msg_recv_header msg_recv_payload file_checksum fileinfo_from_filename rm_r send send_error
    c_string fileinfo_bytes handle_remove handle_mkdir
program = tt

abbrev root : List ℕ
root = codes "/var/minibox/u"

-- Logs the paths that are changed; "d" is a directory with the file "a", and stays.
abbrev os : Os (List (List ℕ))
os = record {
  lstat = λ path w.
      if bytes_eq path (codes "/var/minibox/u/d") then inr (directory, 0) else inr (regular, 3);
  open_rdonly = λ path w. inl 2;
  opendir = λ path w. inr ((codes "a", regular) ∷ []);
  mkdir = λ path w. (none, path ∷ w);
  unlink = λ path w. (none, path ∷ w);
  rmdir = λ path w. (some 16, w);
}

abbrev env : Env (List (List ℕ))
env = record {
  os = os;
  unparse = λ token. codes "u";
  compare = λ a b. if bytes_eq a b then pos 0 else pos 1;
  strerror = λ errno. codes "busy";
  digest = λ bs. replicate 32 0;
  now = (100, 5);
  generated = replicate 16 1;
  junk_chain = [];
  junk_message = msg_clear;
  junk_payload = λ n. [];
  static = record { path = []; curr_slash = negsuc 0 };
  reads = 2;
  depth = 3;
}

abbrev Below : List (List ℕ) → Type 0
Below [] = Unit
Below (path ∷ w) = (starts_with root path ≡ true) × Below w

abbrev world : List ℕ → World (List (List ℕ))
world path = record {
  socket = record {
    outcomes = sent 48 ∷ sent 48 ∷ [];
    wire = [];
    incoming = arrived path ∷ [];
    errno = 0;
  };
  files = [];
  user_map = umap_init ℕ 2;
  heap = [];
  store = record { session = λ p. none; info = λ p. none };
  free = 0;
  is_open = true;
}

abbrev remove_req : Message
remove_req = record msg_clear {
  hdr = record zero_hdr { length = 2; type = msgtype_remove_req; token = replicate 16 7 };
}

abbrev mkdir_req : Message
mkdir_req = record msg_clear {
  hdr = record zero_hdr { length = 4; type = msgtype_mkdir_req; token = replicate 16 7 };
}

abbrev after_remove : World (List (List ℕ))
after_remove = record (world []) {
  socket = record {
    outcomes = [];
    wire =
        hdr_bytes (record zero_hdr { length = 5; type = msgtype_error; sent_at = (100, 5) })
        ++ (codes "busy" ++ 0 ∷ []);
    incoming = [];
    errno = 0;
  };
  files = codes "/var/minibox/u/d/a" ∷ [];
}

removes :
    handle_remove env (some 0) remove_req (world (codes "d" ++ 0 ∷ [])) ≡ ok (tt, after_remove)
unfolding program
removes = refl

user_root : get_user_root env.unparse (replicate 16 7) ≡ root
unfolding program
user_root = refl

handle_remove-Keeps_example : Below (codes "/var/minibox/u/d/a" ∷ [])
handle_remove-Keeps_example =
    handle_remove-Keeps env (replicate 16 7) Below (λ path w h p. (rw user_root at h, p))
      (λ path w h p. p) (some 0) remove_req (world (codes "d" ++ 0 ∷ [])) after_remove refl tt
      removes

abbrev after_mkdir : World (List (List ℕ))
after_mkdir = record (world []) {
  socket = record {
    outcomes = sent 48 ∷ [];
    wire =
        hdr_bytes (record zero_hdr {
          type = msgtype_mkdir_res;
          token = replicate 16 7;
          sent_at = (100, 5);
        });
    incoming = [];
    errno = 0;
  };
  files = codes "/var/minibox/u/d/e" ∷ codes "/var/minibox/u/d" ∷ [];
}

makes : handle_mkdir env (some 0) mkdir_req (world (codes "d/e" ++ 0 ∷ [])) ≡ ok (tt, after_mkdir)
unfolding program
makes = refl

handle_mkdir-Keeps_example : Below (codes "/var/minibox/u/d/e" ∷ codes "/var/minibox/u/d" ∷ [])
handle_mkdir-Keeps_example =
    handle_mkdir-Keeps env (replicate 16 7) Below (λ path w h p. (rw user_root at h, p)) (some 0)
      mkdir_req (world (codes "d/e" ++ 0 ∷ [])) after_mkdir refl tt makes
