-- ===== src/User/Tests.antt =====
-- The theorems on sessions at a user with two of them, and at one whose array is full.
use mini_dropbox.Prelude.{
  ℕ, ◌+◌, ◌≡◌, refl, none, some, [], ◌∷◌, ◌++◌, pos, negsuc, if◌then◌else◌, ltb, arith, bytes_eq,
}
use mini_dropbox.Session.{FileInfo, sess_download, sess_upload, SessionState, Session}
use mini_dropbox.User.{
  Store, junk, null, at, User, user_init, user_add_session, user_get_session, user_remove_session,
  deref,
}
use mini_dropbox.User.Sessions.{IsReadable, active, IsValid, names, find_first, erase_first, any}
use mini_dropbox.User.Contract.{
  user_add_session-active, user_get_session-find, user_remove_session-active,
  user_remove_session-overflow,
}

abbrev info_of : ℕ → FileInfo
info_of n = record { size = 0; chunk_count = 0; checksum = []; filename = n ∷ [] }

-- Session `n` transfers the file named by the byte `n`; those under 5 are uploads.
abbrev session_of : ℕ → Session
session_of n = record {
  type = if ltb n 5 then sess_upload else sess_download;
  state = SessionState.sstate_idle;
  file_info = n;
  last_transfered_chunk = 0;
  started_at = (0, 0);
}

abbrev store : Store
store = record { session = λ n. some (session_of n); info = λ n. some (info_of n) }

readable : (n : ℕ) → IsReadable store (at n)
unfolding deref
readable n = (session_of n, info_of n, refl, refl)

abbrev two : User
two = record {
  token = [];
  total_space = 10;
  used_space = 0;
  sessions = at 1 ∷ at 7 ∷ junk ∷ [];
  sessions_count = 2;
  sessions_capacity = 3;
}

two-IsValid : IsValid store two
two-IsValid = record {
  width = refl;
  within = omega arith;
  readable = (readable 1, (readable 7, tt));
}

abbrev full : User
full = record two { sessions = at 1 ∷ at 7 ∷ at 8 ∷ []; sessions_count = 3 }

full-IsValid : IsValid store full
full-IsValid = record {
  width = refl;
  within = omega arith;
  readable = (readable 1, (readable 7, (readable 8, tt)));
}

program : Unit {0}
unfolding user_init user_add_session user_get_session user_remove_session find_first erase_first any
    bytes_eq deref
program = tt

-- A new user is valid and takes ten sessions.
fresh-IsValid : IsValid store (user_init [] none)
unfolding program
fresh-IsValid = record { width = refl; within = omega arith; readable = tt }

remove_runs :
    user_remove_session store sess_upload (1 ∷ []) two
    ≡ some (pos 0, record two { sessions = at 7 ∷ junk ∷ null ∷ []; sessions_count = 1 })
unfolding program
remove_runs = refl

user_add_session-active_example :
    (u' : User) × (user_add_session two 9
      ≡ some (if ltb two.sessions_count two.sessions_capacity then pos 0 else negsuc 0, u'))
    × IsValid store u'
    × (active u' ≡ (
        if ltb two.sessions_count two.sessions_capacity
        then active two ++ at 9 ∷ []
        else active two))
    × (u' ≡ (
        if ltb two.sessions_count two.sessions_capacity
        then record two { sessions = u'.sessions; sessions_count = two.sessions_count + 1 }
        else two))
user_add_session-active_example = user_add_session-active store two 9 two-IsValid (readable 9)

user_get_session-find_example :
    user_get_session store sess_download (7 ∷ []) two
    ≡ some (find_first (names store sess_download (7 ∷ [])) (active two))
user_get_session-find_example = user_get_session-find store sess_download (7 ∷ []) two two-IsValid

user_remove_session-active_example :
    (u' : User) × (user_remove_session store sess_download (7 ∷ []) two
      ≡ some
          (if any (names store sess_download (7 ∷ [])) (active two) then pos 0 else negsuc 0, u'))
    × IsValid store u'
    × (active u' ≡ erase_first (names store sess_download (7 ∷ [])) (active two))
user_remove_session-active_example =
    user_remove_session-active store sess_download (7 ∷ []) two two-IsValid (omega arith)

user_remove_session-overflow_example : user_remove_session store sess_download (7 ∷ []) full ≡ none
user_remove_session-overflow_example =
    user_remove_session-overflow store sess_download (7 ∷ []) full full-IsValid refl
      (unfold program in refl)
