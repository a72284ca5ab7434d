-- ===== src/Streams.antt =====
-- What the handlers of src/server.c for streams of messages do to the memory that pointers lead to,
-- and the struct that a client sends them.
pub mod Preserving
pub mod Layout
use mini_dropbox.Prelude.{
  ℕ, suc, Option, none, some, List, [], ◌∷◌, if◌then◌else◌, ◌==◌, ltb, length, take, drop,
  get_elem?, set,
}
use mini_dropbox.Session.{FileInfo, SessionType, Session, session_init}
use mini_dropbox.User.{
  junk, null, at, User, user_add_session, user_get_session, user_remove_session,
}
use mini_dropbox.Net.{ok, aborted}
use mini_dropbox.Msg.{from_bytes}
use mini_dropbox.FilePath.{slash}
use mini_dropbox.UserPath.{path_max}
use mini_dropbox.Server.{Act, done, ◌>>=◌, on_value}
use mini_dropbox.Requests.{c_string, fileinfo_size}

-- `(FileInfo*)msg->payload`: all of the struct has to be there, and its name has to end.
unfoldable pub fileinfo_of_bytes : Option (List ℕ) → Option FileInfo
fileinfo_of_bytes none = none
fileinfo_of_bytes (some p) =
    if ltb (length p) fileinfo_size
    then none
    else elim (c_string (some (take path_max (drop 48 p)))) [
      | none ↦ none
      | some name ↦ some (record {
        size = from_bytes (take 8 p);
        chunk_count = from_bytes (take 8 (drop 8 p));
        checksum = take 32 (drop 16 p);
        filename = name;
      })
    ]

-- strrchr(name, '/')
unfoldable pub last_slash : List ℕ → Option (List ℕ)
last_slash [] = none
last_slash (c ∷ name) =
    let further = last_slash name in
    elim further [ some rest ↦ some rest | none ↦ if c == slash then some (c ∷ name) else none ]

module _ {W : Type 0} where
  -- *user
  abbrev pub the_user : ℕ → Act W User
  the_user p s = on_value (get_elem? s.heap p) s

  abbrev pub set_user : ℕ → User → Act W (Unit {0})
  set_user p user s = ok (tt, record s { heap = set s.heap p user })

  -- *session
  abbrev pub the_session : ℕ → Act W Session
  the_session p s = on_value (s.store.session p) s

  abbrev pub set_session : ℕ → Session → Act W (Unit {0})
  set_session p session s = ok (
    tt,
    record s {
      store = record (s.store) {
        session = λ q. if q == p then some session else s.store.session q;
      };
    },
  )

  abbrev pub set_info : ℕ → FileInfo → Act W (Unit {0})
  set_info p info s = ok (
    tt,
    record s {
      store = record (s.store) { info = λ q. if q == p then some info else s.store.info q };
    },
  )

  -- malloc
  abbrev pub new_address : Act W ℕ
  new_address s = ok (s.free, record s { free = suc s.free })

  -- user_get_session(user, type, filename)
  abbrev pub find_session : ℕ → SessionType → List ℕ → Act W (Option ℕ)
  find_session p type filename s = elim (get_elem? s.heap p) [
    | none ↦ aborted
    | some user ↦ elim (user_get_session s.store type filename user) [
      | none ↦ aborted
      | some junk ↦ aborted
      | some null ↦ ok (none, s)
      | some (at session) ↦ ok (some session, s)
    ]
  ]

  -- user_remove_session(user, type, filename)
  abbrev pub remove_session : ℕ → SessionType → List ℕ → Act W (Unit {0})
  remove_session p type filename s = elim (get_elem? s.heap p) [
    | none ↦ aborted
    | some user ↦ elim (user_remove_session s.store type filename user) [
      | none ↦ aborted
      | some (code, user') ↦ set_user p user' s
    ]
  ]

  -- A new session on the information at `info`; what `user_add_session` returns is not looked at.
  unfoldable pub new_session : ℕ × ℕ → ℕ → ℕ → SessionType → Act W ℕ
  new_session now p info type = do
    session ← new_address
    r1 ← set_session session (session_init now info type)
    user ← the_user p
    added ← on_value (user_add_session user session)
    r2 ← set_user p added.1
    done session
