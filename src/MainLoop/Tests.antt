-- ===== src/MainLoop/Tests.antt =====
-- A server that starts on an empty storage directory, and a client that authenticates.
use mini_dropbox.Prelude.{
  ℕ, codes, ◌≡◌, ◌<◌, refl, true, false, none, some, Option, Bool, List, [], ◌∷◌, ◌++◌, pos, negsuc,
  if◌then◌else◌, bytes_eq, replicate, set, length, inl, arith,
}
use mini_dropbox.UserMap.{Uuid, umap_init, umap_get, umap_put, hash}
use mini_dropbox.UserMap.Invariant.{IsValid}
use mini_dropbox.User.{user_init}
use mini_dropbox.Net.{Socket, sent, arrived, closed, ok, aborted, send_all, recv_all}
use mini_dropbox.Net.Loops.{stream}
use mini_dropbox.Msg.{
  MessageHdr, msgtype_auth_req, msgtype_auth_ok, other, zero_hdr, msg_init, msg_clear, type_code,
  type_of_code, to_bytes, from_bytes, hdr_bytes, hdr_of_bytes, msg_send, recv_hdr, msg_recv_header,
}
use mini_dropbox.Msg.Names.{msg_type_to_str}
use mini_dropbox.Msg.Receive.{Arrives}
use mini_dropbox.Files.{Os}
use mini_dropbox.Server.{World, send, uman_init, uman_get_user, uman_register_user}
use mini_dropbox.Requests.{Env, zero_info, handle_auth}
use mini_dropbox.Upload.{Disk}
use mini_dropbox.Dispatch.{on_client_message_received, on_request, on_oneshot_req}
use mini_dropbox.MainLoop.{
  Listening, Event, connected, connection_lost, interrupted, hangup, readable, Service,
  create_server_socket, on_readable, on_event, event_loop, start, find_client, close_client,
}
use mini_dropbox.MainLoop.Invariant.{event_loop-IsSound}
use mini_dropbox.MainLoop.Faults.{on_readable-unknown}

program : Unit {0}
unfolding stream umap_get umap_put umap_init hash user_init bytes_eq send_all recv_all msg_init
    msg_clear type_code type_of_code to_bytes from_bytes hdr_bytes hdr_of_bytes msg_send recv_hdr
    msg_recv_header msg_type_to_str send uman_init uman_get_user uman_register_user handle_auth
    on_client_message_received on_request on_oneshot_req create_server_socket on_readable on_event
    event_loop start find_client close_client
program = tt

-- The file system counts the directories that are made.
abbrev os : Os ℕ
os = record {
  lstat = λ path w. inl 2;
  open_rdonly = λ path w. inl 2;
  opendir = λ path w. inl 2;
  mkdir = λ path w. (none, 7);
  unlink = λ path w. (some 2, w);
  rmdir = λ path w. (some 2, w);
}

abbrev env : Env ℕ
env = record {
  os = os;
  unparse = λ t. codes "u";
  compare = λ a b. if bytes_eq a b then pos 0 else pos 1;
  strerror = λ errno. codes "error";
  digest = λ bs. replicate 32 0;
  now = (100, 5);
  generated = replicate 16 1;
  junk_chain = [];
  junk_message = msg_clear;
  junk_payload = λ n. [];
  static = record { path = []; curr_slash = negsuc 0 };
  reads = 2;
  depth = 3;
}

abbrev disk : Disk ℕ ℕ
disk = record {
  create = λ path w. none;
  ops = record { lseek = λ n f. none; write = λ bs f. f };
  left = λ f. f;
}

abbrev is_null : Uuid → Bool
is_null t = bytes_eq t (replicate 16 0)

abbrev calls : Listening
calls = record { socket = pos 3; setsockopt = pos 0; inet_pton = pos 1; bind = pos 0 }

bad_address : create_server_socket (record calls { inet_pton = pos 0 }) ≡ negsuc 1
unfolding create_server_socket
bad_address = refl

abbrev idle : Socket
idle = record { outcomes = []; wire = []; incoming = []; errno = 0 }

abbrev fresh : World ℕ
fresh = record {
  socket = idle;
  files = 0;
  user_map = record { entries = []; count = 0; capacity = 0 };
  heap = [];
  store = record { session = λ p. none; info = λ p. none };
  free = 0;
  is_open = true;
}

abbrev started : World ℕ
started = record fresh { files = 7; user_map = umap_init ℕ 256 }

starts :
    start env disk 3 zero_info is_null (λ name. none) [] calls (pos 0) fresh ≡ ok (true, started)
unfolding program
starts = refl

-- A socket that cannot be made ends it.
stops :
    start env disk 3 zero_info is_null
      (λ name. none)
      []
      (record calls { bind = negsuc 0 })
      (negsuc 0)
      fresh
    ≡ ok (false, started)
unfolding program
stops = refl

abbrev token : Uuid
token = replicate 16 7

abbrev hdr : MessageHdr
hdr = record zero_hdr { type = msgtype_auth_req; token = token }

abbrev events : List Event
events =
    connected 5 idle
    ∷ interrupted
    ∷ readable 5 (arrived (hdr_bytes hdr) ∷ []) (sent 48 ∷ sent 12 ∷ [])
    ∷ connection_lost
    ∷ readable 9 (closed ∷ []) []
    ∷ []

-- The answer, in a message that nothing has set.
abbrev answer : List ℕ
answer =
    hdr_bytes (record zero_hdr { length = 12; type = msgtype_auth_ok; sent_at = (100, 5) })
    ++ (codes "Registered" ++ 0 ∷ 0 ∷ [])

abbrev after : Socket
after = record idle { wire = answer }

abbrev ended : Service ℕ
ended = record {
  shared = record started {
    socket = after;
    user_map = record {
      entries = set (replicate 256 []) 117 (record { key = token; value = 0 } ∷ []);
      count = 1;
      capacity = 256;
    };
    heap = user_init (replicate 16 1) (some token) ∷ [];
  };
  clients = (5, after) ∷ [];
}

runs :
    event_loop env disk 3 zero_info is_null events (record { shared = started; clients = [] })
    ≡ ok ended
unfolding program
runs = refl

-- A client that goes away is taken out.
leaves :
    event_loop env disk 3 zero_info is_null
      (readable 5 (closed ∷ []) [] ∷ [])
      (record { shared = started; clients = (5, idle) ∷ (6, idle) ∷ [] })
    ≡ ok (record {
      shared = record started { socket = record idle { incoming = closed ∷ [] }; is_open = false };
      clients = (6, idle) ∷ [];
    })
unfolding program
leaves = refl

hangs_up :
    on_event env disk 3 zero_info is_null
      (hangup 5)
      (record { shared = started; clients = (5, idle) ∷ [] })
    ≡ ok (record { shared = started; clients = [] })
unfolding program
hangs_up = refl

event_loop-IsSound_example :
    IsValid ended.shared.user_map
    × ((q : Uuid)
        → (r : Option ℕ) × (uman_get_user env.compare env.generated env.junk_chain q ended.shared
            ≡ ok (r, ended.shared))
          × ((p : ℕ) → r ≡ some p → p < length ended.shared.heap))
event_loop-IsSound_example =
    event_loop-IsSound env disk 3 zero_info is_null refl (λ name. none) [] calls (pos 0) events
      fresh started ended starts runs

abbrev odd_hdr : MessageHdr
odd_hdr = record zero_hdr { type = other 21 }

odd : Arrives odd_hdr [] [] (record idle { incoming = arrived (hdr_bytes odd_hdr) ∷ [] })
unfolding program
odd = record {
  valid = record {
    length_fits = omega arith;
    type_fits = omega arith;
    type_known = refl;
    token_size = refl;
    padding_size = refl;
    seconds_fit = omega arith;
    nanos_fit = omega arith;
  };
  counted = refl;
  bytes = refl;
}

on_readable-unknown_example :
    on_readable env disk 3 zero_info is_null
      (record started { socket = record idle { incoming = arrived (hdr_bytes odd_hdr) ∷ [] } })
    ≡ aborted
on_readable-unknown_example =
    on_readable-unknown env disk 3 zero_info is_null odd_hdr [] []
      (record started { socket = record idle { incoming = arrived (hdr_bytes odd_hdr) ∷ [] } }) 21
      odd refl
