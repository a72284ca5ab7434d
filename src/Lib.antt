-- ===== src/Lib.antt =====
-- A model of mini_dropbox, a server that stores the files of its users and a client for it, with the
-- theorems that make it correct. The functions are those of the files in src/, with the names that
-- they have there; src/x.c is a path from the root of the repository.
--
-- The parts, from the bottom up:
--   StringIndex   stridx of src/util.c
--   Prelude       lists, strings and Boolean tests over the native numbers, the integers of the return
--                 codes, chains of steps that may be undefined
--   UserMap       src/user_map.c: the hash table from tokens to users, its invariant (Invariant), put
--                 and get (Lookup), the addresses that it holds (Range), what is freed (Release), and what goes
--                 wrong with unset memory (Faults)
--   Session       src/session.c (the initialiser and the names that are printed) and the struct FileInfo
--                 of src/file.h
--   User          src/user.c: the array of sessions as an array (Array), the searches in it (Sessions)
--                 and its contract as a list (Contract)
--   FilePath      normalize_path of src/util.c: the walk over components that it is meant to compute
--                 (Spec), absolute paths (Absolute, Normalize), paths of names only (Names) and a
--                 fault in relative ones (Relative)
--   UserPath      get_user_root and get_user_path of src/util.c: the containment of a user's paths
--   Net           send_all and recv_all of src/msg.c over a socket that the kernel serves in pieces
--                 (Loops, Receive); Bind has the laws of the computations over it
--   Msg           src/msg.c: the bytes of a header (Header), sending, receiving, the round trip, and the
--                 names of the types (Names)
--   Transfer      src/chunk.c and file_recv of src/file.c: the bytes of a chunk (Headers), chunks (Chunks,
--                 Arrival) and whole transfers (Recv, Completion)
--   Files         fileinfo_from_filename of src/file.c, file_checksum, file_exists and rm_r of
--                 src/util.c: the count of chunks (Chunking) and the removal of trees (Removal,
--                 Termination)
--   Directories   path_next_dir and create_directories_from_path of src/util.c: where it makes
--                 directories (Confined), and which for a path of names (Scanning, Making)
--   Server        src/user_manager.c, the replies of src/util.c and the state that the handlers of
--                 src/server.c share; Keeping puts together steps that keep a property of the files,
--                 Preserving those that keep an invariant of the table of users (there is a module
--                 Preserving for each component of the server), Replying has the replies
--   Requests      handle_auth, handle_remove and handle_mkdir of src/server.c: removing (Removing),
--                 making directories (Making), the replies (Replies), C strings in payloads (Texts)
--                 and the answers to a request that arrives whole (Answers, Deleting,
--                 Registering)
--   Sending       file_send of src/file.c, and whole transfers by it (Completion)
--   Streams       the memory that sessions and file information live in, and the struct of a request
--                 with its layout (Layout)
--   Upload, Download
--                 handle_upload; handle_download and handle_list of src/server.c (what a directory is
--                 listed as in Download.Listing, and how that is sent in Download.Replying)
--   Dispatch      on_client_message_received, on_oneshot_req and on_stream_req of src/server.c, and its
--                 guard (Guard) and what requests do to the files (Confined)
--   MainLoop      main of src/server.c: the start, and the events of the loop one at a time; the table of
--                 users under any events (Invariant) and a message that aborts the server (Faults)
--   Worker        worker and cleanup of src/server.c, and the start of the workers in its main: a relation
--                 on the states of interleaved threads (the places of cleanup and its first worker in
--                 Phases, and how it runs in Cleanup)
--   Client        the state of a command of src/client.c, load_token, and xdg_get_dir of src/util.c; the
--                 token from one run to the next (Token)
--   Commands      cmd_auth (Authing), cmd_rm (Removing), cmd_mkdir (Making) and cmd_list (Listing) of
--                 src/client.c, and what the last three share (Asking)
--   Copying       cmd_upload and cmd_download of src/client.c; resuming an upload (Resuming)
--   Program       main and cmd_help of src/client.c, connect_to_server of src/util.c
--   Exchange      a client and the server that serves it, each of which receives what the other has sent:
--                 registering (Registering), making a directory, removing a file (Removing), listing a directory (Listing), the
--                 transfer of a file (Transfer) to a file of bytes (PlainFile), and the way of a request from the socket to its handler
--                 (Serving)
-- The main loop of the server receives a header and hands it to Dispatch. Dispatch finds the user in
-- Server and calls the handlers. Those read a payload with Msg over the socket of Net, make a path with UserPath or Directories, which both normalise with FilePath, change
-- the file system through Files or Directories, and answer with Msg. The user manager in Server keeps
-- User records in the table of UserMap. Transfer receives messages of Msg and writes them to a file;
-- Sending sends them.
--
-- How the code is modelled: a struct is a record, an enum a data type, a pointer an address or an
-- Option with none for NULL. Functions that change a struct return the new one. An int that is a
-- return code is an ℤ; a size_t is a native ℕ whose wrap-around is written out where the code can reach
-- it. Undefined behaviour (an index past an array, a read of NULL, a string without a NUL) is a result
-- of its own: none of Option, or aborted of a computation over the socket. The kernel's side of a
-- socket is a script of what the next calls of send and recv meet, so that the theorems hold for any
-- sizes of the pieces; a script that ends leaves the call blocked.
--
-- Parameters, since they are not part of the repository: SHA-256, libuuid (uuid_unparse, uuid_compare,
-- uuid_parse, uuid_generate), strerror, the clock, getopt, getenv, and the system calls on files (the
-- records FileOps, Os and Host). Sockets are set up by calls whose results are parameters, and so is
-- what memory holds that malloc has just given for the payload of a chunk. malloc is taken to give memory where
-- normalize_path does not test it. A use of memory that has been freed ends a run of the threads of the server
-- (Worker): what such a run does next is undefined. A struct that travels has the layout of x86-64.
--
-- Loops: those over a buffer, a chain or an array are structural. recv_chunks takes fuel, one for each
-- chunk that arrives, sound or broken; a run that uses it up counts as blocked and is no result. The
-- loops of file_send take fuel likewise: one for each message, and one more for the end. make_dirs takes
-- one more than the length of the path, since each round cuts the path further on; normalize_loop takes
-- the same, since each round reads at least one character. rm_r takes fuel for the depth of the tree, and
-- digest_loop for the number of reads. list_loop takes fuel, one for each message. A run of the main loop is a list of events, which recursion
-- follows.
--
-- Not modelled: printing (of src/client.c the lines with what the server sent are), the freeing of
-- memory but for the table of users, signals (cleanup runs on the main thread between two steps of main,
-- and sem_wait is not interrupted), how the worker threads and the main loop share memory, since the
-- workers never get work, the failures of epoll and fcntl, and the progress bar of src/client.c.
pub mod Prelude
pub mod StringIndex
pub mod UserMap
pub mod Session
pub mod User
pub mod FilePath
pub mod UserPath
pub mod Net
pub mod Msg
pub mod Transfer
pub mod Files
pub mod Directories
pub mod Server
pub mod Requests
pub mod Sending
pub mod Streams
pub mod Upload
pub mod Download
pub mod Dispatch
pub mod Client
pub mod Commands
pub mod Copying
pub mod Program
pub mod MainLoop
pub mod Worker
pub mod Exchange
