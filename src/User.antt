-- ===== src/User.antt =====
-- src/user.c and src/user.h: a user and the array of the user's sessions.
-- `none` is undefined behaviour: an index past the array, or a pointer that leads nowhere.
pub mod Array
pub mod Sessions
pub mod Contract
mod Tests
use mini_dropbox.Prelude.{
  ℕ, zero, suc, ◌+◌, ◌-◌, ◌*◌, ◌^◌, ◌≡◌, Bool, true, false, ◌&&◌, Option, none, some, List, [], ◌∷◌,
  ℤ, pos, negsuc, ◌>>=◌, if◌then◌else◌, leb, bytes_eq, get_elem?, set, replicate, length,
}
use mini_dropbox.UserMap.{Uuid}
use mini_dropbox.Session.{FileInfo, SessionType, sess_none, sess_download, sess_upload, Session}

-- The memory that session pointers lead to: `Session`s and their `FileInfo`s by address.
pub record Store : Type 0 where
  pub session : ℕ → Option Session
  pub info : ℕ → Option FileInfo

-- A `Session*` in the array: what `malloc` left there, NULL, or an address.
pub data Slot : Type 0 where
  junk null : Slot
  at : ℕ → Slot

pub record User : Type 0 where
  pub token : Uuid
  pub total_space : ℕ
  pub used_space : ℕ
  pub sessions : List Slot
  pub sessions_count : ℕ
  pub sessions_capacity : ℕ

-- 10e9
abbrev pub max_user_space : ℕ
max_user_space = 10 * 10 ^ 9

-- The first argument is what `uuid_generate` gives; a NULL token is `none`.
unfoldable pub user_init : Uuid → Option Uuid → User
user_init generated token = record {
  token = elim token [ none ↦ generated | some t ↦ t ];
  total_space = max_user_space;
  used_space = 0;
  sessions_count = 0;
  sessions_capacity = 10;
  sessions = replicate 10 junk;
}

-- A write past the array is undefined.
pub checked_set : List Slot → ℕ → Slot → Option (List Slot)
checked_set xs i v = if leb (suc i) (length xs) then some (set xs i v) else none

unfoldable pub user_add_session : User → ℕ → Option (ℤ × User)
unfolding checked_set
user_add_session self session =
    if leb self.sessions_capacity self.sessions_count
    then some (negsuc 0, self)
    else checked_set self.sessions self.sessions_count (at session) >>= λ xs.
        some (pos 0, record self { sessions = xs; sessions_count = self.sessions_count + 1 })

abbrev pub type_eq : SessionType → SessionType → Bool
type_eq sess_none sess_none = true
type_eq sess_download sess_download = true
type_eq sess_upload sess_upload = true
type_eq _ _ = false

-- `*s`
unfoldable pub deref : Store → Slot → Option Session
deref store junk = none
deref store null = none
deref store (at p) = store.session p

module _ (store : Store) (type : SessionType) (filename : List ℕ) where
  -- The body of the loop: `printf` reads the file name of every session that is compared.
  pub printed_hits : Slot → Option Bool
  printed_hits slot = do
    s ← deref store slot
    i ← store.info s.file_info
    some (type_eq s.type type && bytes_eq i.filename filename)

  -- The loop from index `i`, of which `n` rounds are left.
  pub get_from : List Slot → ℕ → ℕ → Option Slot
  get_from sessions zero i = some null
  get_from sessions (suc n) i = do
    s ← get_elem? sessions i
    hit ← printed_hits s
    if hit then some s else get_from sessions n (suc i)

  -- NULL if no session matches
  unfoldable pub user_get_session : User → Option Slot
  unfolding get_from printed_hits deref
  user_get_session self = get_from self.sessions self.sessions_count 0

-- tmp = s[j]; s[j] = s[j + 1]; s[j + 1] = tmp
pub swap : List Slot → ℕ → Option (List Slot)
unfolding checked_set
swap sessions j = do
  tmp ← get_elem? sessions j
  next ← get_elem? sessions (suc j)
  xs ← checked_set sessions j next
  checked_set xs (suc j) tmp

-- for (j = i; j < count; j++), `n` rounds left
pub bubble : List Slot → ℕ → ℕ → Option (List Slot)
unfolding swap
bubble sessions zero j = some sessions
bubble sessions (suc n) j = swap sessions j >>= λ xs. bubble xs n (suc j)

module _ (store : Store) (type : SessionType) (filename : List ℕ) where
  -- s->type == type && strcmp(s->file_info->filename, filename) == 0
  pub hits : Slot → Option Bool
  hits slot = do
    s ← deref store slot
    let name_hit = do i ← store.info s.file_info; some (bytes_eq i.filename filename)
    if type_eq s.type type then name_hit else some false

  pub remove_from : User → ℕ → ℕ → Option (ℤ × User)
  unfolding bubble checked_set
  remove_from self zero i = some (negsuc 0, self)
  remove_from self (suc n) i = do
    s ← get_elem? self.sessions i
    hit ← hits s
    let removed = do
      xs ← checked_set self.sessions i null
      ys ← bubble xs (suc n) i
      some (pos 0, record self { sessions = ys; sessions_count = self.sessions_count - 1 })
    let rest = remove_from self n (suc i)
    if hit then removed else rest

  unfoldable pub user_remove_session : User → Option (ℤ × User)
  unfolding remove_from hits deref
  user_remove_session self = remove_from self self.sessions_count 0
