-- ===== src/Client/Tests.antt =====
-- The token file of a client whose home directory is set.
use mini_dropbox.Prelude.{
  ℕ, codes, ◌≡◌, refl, none, some, Option, List, [], ◌∷◌, ◌++◌, pos, if◌then◌else◌, bytes_eq,
  replicate, inl, inr, arith,
}
use mini_dropbox.UserMap.{Uuid}
use mini_dropbox.Net.{ok}
use mini_dropbox.Msg.{msg_clear}
use mini_dropbox.UserPath.{path_max}
use mini_dropbox.Files.{Os, eexist}
use mini_dropbox.Server.{string}
use mini_dropbox.Requests.{c_string, zero_info}
use mini_dropbox.Client.{
  Client, Host, set_errno, xdg_state_home, xdg_get_dir, token_path, load_token, xdg_dir_to_str,
  xdg_config_home,
}
use mini_dropbox.Client.Token.{TokenFile, Parses, load_token-load_token, load_token-stale}

-- The file system is the content of the token file, if it is there.
abbrev pub os : Os (Option (List ℕ))
os = record {
  lstat = λ path w. inl 2;
  open_rdonly = λ path w. elim w [ none ↦ inl 2 | some bytes ↦ inr (λ at. some bytes) ];
  opendir = λ path w. inl 2;
  mkdir = λ path w. (some 13, w);
  unlink = λ path w. (some 13, w);
  rmdir = λ path w. (some 13, w);
}

abbrev pub token : Uuid
token = replicate 16 7

abbrev pub token_text : List ℕ
token_text = codes "07070707-0707-0707-0707-070707070707"

abbrev pub host : Host (Option (List ℕ))
host = record {
  os = os;
  create_excl = λ path w. elim w [ none ↦ inr (some []) | some bytes ↦ inl 17 ];
  write = λ path bytes w. some bytes;
  getenv = λ name. if bytes_eq name (codes "HOME") then some (codes "/home/u") else none;
  fresh = token;
  unparse = λ t. token_text;
  parse = λ text. if bytes_eq text token_text then some token else none;
  digest = λ bytes. replicate 32 0;
  now = (100, 5);
  junk_text = codes "?" ++ 0 ∷ [];
  junk_message = msg_clear;
  junk_payload = λ n. [];
  junk_info = zero_info;
  junk_array = [];
}

abbrev pub client : ℕ → Client (Option (List ℕ))
client errno = record {
  socket = record { outcomes = []; wire = []; incoming = []; errno = errno };
  files = none;
  output = [];
}

abbrev pub path : List ℕ
path = codes "/home/u/.config/minidropbox.token"

home : xdg_get_dir host.getenv xdg_state_home path_max ≡ some (15, codes "/home/u/.config")
unfolding xdg_get_dir bytes_eq
home = refl

config_name : xdg_dir_to_str xdg_config_home ≡ codes "XDG_CONFIG_HOME"
unfolding xdg_dir_to_str
config_name = refl

fits : token_path (15, codes "/home/u/.config") ≡ some path
unfolding token_path
fits = refl

-- A name of 4094 bytes takes one more byte, and then the NUL is past the array.
overflows : token_path (4094, replicate 4094 1) ≡ none
unfolding token_path
overflows = refl

file : TokenFile host path none
file = record {
  made = some [];
  creates = refl;
  exists = refl;
  reader = λ at. some (string token_text);
  opens = refl;
  content = refl;
}

parses : Parses host
unfolding bytes_eq
parses = record { width = refl; text = omega arith; back = refl }

load_token-load_token_example :
    (t : Client (Option (List ℕ))) × (load_token host [] (client 0) ≡ ok ((pos 0, token), t))
    × ((q : Uuid) (u : Client (Option (List ℕ)))
        → u.files ≡ t.files
        → load_token host q u ≡ ok ((pos 0, token), set_errno eexist u))
load_token-load_token_example =
    load_token-load_token host (15, codes "/home/u/.config") path home fits none file parses []
      (client 0) refl refl

junk_lem : c_string (some host.junk_text) ≡ some (codes "?")
unfolding c_string
junk_lem = refl

unparsed : host.parse (codes "?") ≡ none
unfolding bytes_eq
unparsed = refl

load_token-stale_example :
    load_token host [] (client 17) ≡ ok ((pos 0, []), record (client 17) { files = some [] })
load_token-stale_example =
    load_token-stale host (15, codes "/home/u/.config") path home fits [] (client 17) refl refl refl
      refl junk_lem unparsed
