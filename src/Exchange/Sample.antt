-- ===== src/Exchange/Sample.antt =====
-- A client and a server for the tests of exchanges. The server logs what it does to its files, and
-- each of them is a regular file of three bytes.
use mini_dropbox.Prelude.{
  ℕ, codes, Option, Bool, ◌≡◌, ◌<◌, refl, true, false, none, some, List, [], ◌∷◌, pos, negsuc,
  if◌then◌else◌, bytes_eq, ◌==◌, length, replicate, inr, arith, append-nil,
}
use mini_dropbox.UserMap.{Uuid, umap_get, hash}
use mini_dropbox.Net.{SendOutcome, arrived, ok}
use mini_dropbox.Net.Loops.{stream}
use mini_dropbox.Msg.{MessageHdr, msg_clear, type_code, type_of_code}
use mini_dropbox.Msg.Header.{IsHdr, span}
use mini_dropbox.Files.{regular, directory}
use mini_dropbox.Server.{World, string}
use mini_dropbox.Requests.{Env}
use mini_dropbox.Upload.{Disk}
use mini_dropbox.Client.{Client, load_token, xdg_get_dir, token_path}
use mini_dropbox.Client.Tests.{token, token_text, host, client}

program : Unit {0}
unfolding umap_get hash bytes_eq load_token xdg_get_dir token_path
program = tt

abbrev pub Log : Type 0
Log = List (List ℕ)

-- `mkdir` fails with the errno, if there is one.
abbrev pub env : Option ℕ → Env Log
env failing = record {
  os = record {
    lstat = λ path w. inr (regular, 3);
    open_rdonly = λ path w. inr (λ at. if at == 0 then some (1 ∷ 2 ∷ 3 ∷ []) else some []);
    opendir =
        λ path w. inr ((codes ".", directory) ∷ (codes "a", regular) ∷ (codes "d", directory) ∷ []);
    mkdir = λ path w. elim failing [ none ↦ (none, path ∷ w) | some errno ↦ (some errno, w) ];
    unlink = λ path w. (none, path ∷ w);
    rmdir = λ path w. (some 20, w);
  };
  unparse = λ t. codes "u";
  compare = λ a b. if bytes_eq a b then pos 0 else pos 1;
  strerror = λ errno. codes "error";
  digest = λ bs. replicate 32 0;
  now = (100, 5);
  generated = replicate 16 1;
  junk_chain = [];
  junk_message = msg_clear;
  junk_payload = λ n. [];
  static = record { path = []; curr_slash = negsuc 0 };
  reads = 2;
  depth = 3;
}

abbrev pub disk : Disk Log Log
disk = record {
  create = λ path w. none;
  ops = record { lseek = λ n f. none; write = λ bs f. f };
  left = λ f. f;
}

abbrev pub is_null : Uuid → Bool
is_null t = bytes_eq t (replicate 16 0)

pub padding_width : length msg_clear.hdr.padding ≡ 4
unfolding msg_clear
padding_width = refl

-- The client, with the bytes that come from the server.
abbrev pub asking : List SendOutcome → List ℕ → Client (Option (List ℕ))
asking outcomes bytes = record (client 0) {
  socket = record { outcomes = outcomes; wire = []; incoming = arrived bytes ∷ []; errno = 0 };
}

abbrev pub asked : List SendOutcome → List ℕ → Client (Option (List ℕ))
asked outcomes bytes = record (asking outcomes bytes) { files = some (string token_text) }

pub loaded :
    (old : Uuid) (outcomes : List SendOutcome) (bytes : List ℕ)
    → load_token host old (asking outcomes bytes) ≡ ok ((pos 0, token), asked outcomes bytes)
unfolding program
loaded old outcomes bytes = refl

-- The server, on which the token is that of the first user.
abbrev pub server : List SendOutcome → List ℕ → World Log
server outcomes bytes = record {
  socket = record { outcomes = outcomes; wire = []; incoming = arrived bytes ∷ []; errno = 0 };
  files = [];
  user_map = record {
    entries = (record { key = token; value = 0 } ∷ []) ∷ [];
    count = 1;
    capacity = 1;
  };
  heap = [];
  store = record { session = λ p. none; info = λ p. none };
  free = 0;
  is_open = true;
}

pub stream_one : (bytes : List ℕ) → stream (arrived bytes ∷ []) ≡ bytes
unfolding stream
stream_one [] = refl
stream_one (b ∷ bytes) = append-nil (b ∷ bytes)

pub known : is_null token ≡ false
unfolding program
known = refl

pub registered : umap_get (env none).compare (server [] []).user_map token ≡ some (pos 0, some 0)
unfolding program
registered = refl

-- A header with the time of the clock.
pub sound-IsHdr :
    (h : MessageHdr)
    → h.length < span 8
    → type_code h.type < span 4
    → type_of_code (type_code h.type) ≡ h.type
    → length h.token ≡ 16
    → length h.padding ≡ 4
    → h.sent_at ≡ (100, 5)
    → IsHdr h
sound-IsHdr h fits small same tok pad now = record {
  length_fits = fits;
  type_fits = small;
  type_known = same;
  token_size = tok;
  padding_size = pad;
  seconds_fit = rw now (omega arith);
  nanos_fit = rw now (omega arith);
}
