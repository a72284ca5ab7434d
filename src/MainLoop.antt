-- ===== src/MainLoop.antt =====
-- The start and the loop of `main` of src/server.c: the events that `epoll_wait` reports, one at a
-- time. The worker threads never get work from it; signals and the prints are left out.
pub mod Invariant
pub mod Faults
mod Tests
use mini_dropbox.Prelude.{
  ℕ, zero, suc, Bool, true, false, ◌||◌, Option, none, some, List, [], ◌∷◌, ◌++◌, ℤ, pos, negsuc,
  is_neg, is_zero, if◌then◌else◌, ◌==◌,
}
use mini_dropbox.UserMap.{Uuid}
use mini_dropbox.Session.{FileInfo}
use mini_dropbox.Net.{SendOutcome, RecvEvent, Socket, Run, ok, blocked, aborted}
use mini_dropbox.Msg.{Message, msg_recv_header}
use mini_dropbox.UserPath.{storage_dir}
use mini_dropbox.Files.{eexist}
use mini_dropbox.Server.{World, Act, done, ◌>>=◌, on_socket, on_files, uman_init}
use mini_dropbox.Requests.{Env}
use mini_dropbox.Upload.{Disk}
use mini_dropbox.Dispatch.{on_client_disconnected, on_client_message_received}

-- EAGAIN and EWOULDBLOCK of Linux
abbrev pub eagain : ℕ
eagain = 11

-- What the system calls of `create_server_socket` return.
pub record Listening : Type 0 where
  pub socket : ℤ
  pub setsockopt : ℤ
  pub inet_pton : ℤ
  pub bind : ℤ

-- The descriptor, or the code of the failure.
unfoldable pub create_server_socket : Listening → ℤ
create_server_socket calls =
    if is_neg calls.socket
    then negsuc 0
    else if is_neg calls.setsockopt
    then negsuc 0
    else if is_zero calls.inet_pton
    then negsuc 1
    else if is_neg calls.inet_pton
    then negsuc 0
    else if is_neg calls.bind
    then negsuc 0
    else calls.socket

-- What an event loop meets: a new connection, one that `accept` or `epoll_ctl` loses, an interrupted
-- wait, an error or hangup of a client, or a client with something to read. The last brings what
-- the calls on the client's socket will meet.
pub data Event : Type 0 where
  connected : ℕ → Socket → Event
  connection_lost interrupted : Event
  hangup : ℕ → Event
  readable : ℕ → List RecvEvent → List SendOutcome → Event

-- The state that requests share (its socket is that of the client served last), and the sockets of
-- the clients by their descriptors.
pub record Service (W : Type 0) : Type 0 where
  pub shared : World W
  pub clients : List (ℕ × Socket)

unfoldable pub find_client : ℕ → List (ℕ × Socket) → Option Socket
find_client fd [] = none
find_client fd ((i, s) ∷ clients) = if i == fd then some s else find_client fd clients

-- epoll_ctl(epfd, EPOLL_CTL_DEL, fd, NULL); close(fd);
unfoldable pub close_client : ℕ → List (ℕ × Socket) → List (ℕ × Socket)
close_client fd [] = []
close_client fd ((i, s) ∷ clients) =
    let rest = close_client fd clients in if i == fd then rest else (i, s) ∷ rest

abbrev pub more : List RecvEvent → List SendOutcome → Socket → Socket
more incoming outcomes s = record s {
  incoming = s.incoming ++ incoming;
  outcomes = s.outcomes ++ outcomes;
}

module _ {W F : Type 0} (env : Env W) (disk : Disk W F) (fuel : ℕ) (unset : FileInfo)
    (is_null : Uuid → Bool) where
  -- What follows the code of `on_client_message_received`.
  pub after_message : ℤ → Act W (Unit {0})
  after_message (negsuc zero) = on_client_disconnected
  after_message ret = done tt

  -- What follows the code of `msg_recv_header`; -1 with EAGAIN leaves the client for later.
  pub after_header : ℤ → Message → Act W (Unit {0})
  unfolding after_message
  after_header (negsuc zero) msg s =
      if s.socket.errno == eagain then done tt s else on_client_disconnected s
  after_header (negsuc (suc zero)) msg s = on_client_disconnected s
  after_header (negsuc (suc (suc n))) msg s =
      (on_client_message_received env disk fuel unset is_null msg >>= λ ret. after_message ret) s
  after_header (pos n) msg s =
      (on_client_message_received env disk fuel unset is_null msg >>= λ ret. after_message ret) s

  -- EPOLLIN on the descriptor of a client
  unfoldable pub on_readable : Act W (Unit {0})
  unfolding after_header
  on_readable = do r ← on_socket (msg_recv_header env.now env.junk_message); after_header r.0 r.1

  -- The client's socket behind its request, and what the others share.
  pub served : ℕ → Service W → World W → Service W
  served fd v t =
      let others = close_client fd v.clients in
      record { shared = t; clients = if t.is_open then (fd, t.socket) ∷ others else others }

  pub serve_client : ℕ → Service W → Socket → Run (Service W)
  unfolding on_readable served
  serve_client fd v socket =
      elim (on_readable (record (v.shared) { socket = socket; is_open = true })) [
        | ok (r, t) ↦ ok (served fd v t)
        | blocked ↦ blocked
        | aborted ↦ aborted
      ]

  -- No event comes for a descriptor that is closed.
  unfoldable pub on_event : Event → Service W → Run (Service W)
  unfolding serve_client find_client close_client
  on_event (connected fd socket) v = ok (record v { clients = (fd, socket) ∷ v.clients })
  on_event connection_lost v = ok v
  on_event interrupted v = ok v
  on_event (hangup fd) v = ok (record v { clients = close_client fd v.clients })
  on_event (readable fd incoming outcomes) v = elim (find_client fd v.clients) [
    | none ↦ ok v
    | some s ↦ serve_client fd v (more incoming outcomes s)
  ]

  -- while (1), over the events that come
  unfoldable pub event_loop : List Event → Service W → Run (Service W)
  unfolding on_event
  event_loop [] v = ok v
  event_loop (e ∷ events) v = elim (on_event e v) [
    | ok u ↦ event_loop events u
    | blocked ↦ blocked
    | aborted ↦ aborted
  ]

  -- Up to the loop: the users whose directories are there, or none if the storage directory cannot
  -- be made or `listen` fails on what `create_server_socket` gave.
  module _ (parse : List ℕ → Option Uuid) (stale : Uuid) (calls : Listening) (listened : ℤ) where
    start_listening : Act W Bool
    start_listening = uman_init env.compare env.generated env.junk_chain env.os parse stale >>= λ r.
        done (if is_neg (create_server_socket calls) || is_neg listened then false else true)

    unfoldable pub start : Act W Bool
    unfolding start_listening
    start = do
      made ← on_files (λ w. some (env.os.mkdir storage_dir w))
      elim made [
        | none ↦ start_listening
        | some errno ↦ if errno == eexist then start_listening else done false
      ]
