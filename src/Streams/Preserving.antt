-- ===== src/Streams/Preserving.antt =====
-- The steps on sessions and users of src/server.c keep an invariant of the table of users.
use mini_dropbox.Prelude.{ℕ, Option, none, some, List, get_elem?, set, ℤ}
use mini_dropbox.UserMap.{UserMap}
use mini_dropbox.Session.{SessionType, session_init}
use mini_dropbox.User.{
  Slot, junk, null, at, User, user_add_session, user_get_session, user_remove_session,
}
use mini_dropbox.Net.{Run, ok, aborted}
use mini_dropbox.Server.{World, Act, done, ◌>>=◌, on_value}
use mini_dropbox.Server.Preserving.{Good, Preserves, bind-Preserves, on_value-Preserves}
use mini_dropbox.Streams.{
  the_user, set_user, the_session, set_session, new_address, find_session, remove_session,
  new_session,
}

module _ {W : Type 0} (I : UserMap ℕ → List User → Type 0) where
  pub the_user-Preserves : (p : ℕ) → Preserves {W = W} I (the_user p)
  the_user-Preserves p s h = on_value-Preserves I (get_elem? s.heap p) s h

  pub the_session-Preserves : (p : ℕ) → Preserves {W = W} I (the_session p)
  the_session-Preserves p s h = on_value-Preserves I (s.store.session p) s h

  pub find_session-Preserves :
      (p : ℕ) (type : SessionType) (filename : List ℕ)
      → Preserves {W = W} I (find_session p type filename)
  find_session-Preserves p type filename s h = owner (get_elem? s.heap p)
    where
      found :
          (x : Option Slot)
          → Good I (elim x as (λ _. Run (Option ℕ × World W)) [
            | none ↦ aborted
            | some junk ↦ aborted
            | some null ↦ ok (none, s)
            | some (at session) ↦ ok (some session, s)
          ])
      found none = tt
      found (some junk) = tt
      found (some null) = h
      found (some (at session)) = h

      owner :
          (x : Option User)
          → Good I (elim x as (λ _. Run (Option ℕ × World W)) [
            | none ↦ aborted
            | some user ↦ elim (user_get_session s.store type filename user) [
              | none ↦ aborted
              | some junk ↦ aborted
              | some null ↦ ok (none, s)
              | some (at session) ↦ ok (some session, s)
            ]
          ])
      owner none = tt
      owner (some user) = found (user_get_session s.store type filename user)

  module _
      (updates : (map : UserMap ℕ) (heap : List User) (p : ℕ) (user : User)
        → I map heap
        → I map (set heap p user)) where
    pub set_user-Preserves : (p : ℕ) (user : User) → Preserves {W = W} I (set_user p user)
    set_user-Preserves p user s h = updates s.user_map s.heap p user h

    pub remove_session-Preserves :
        (p : ℕ) (type : SessionType) (filename : List ℕ)
        → Preserves {W = W} I (remove_session p type filename)
    remove_session-Preserves p type filename s h = owner (get_elem? s.heap p)
      where
        removed :
            (x : Option (ℤ × User))
            → Good I (elim x as (λ _. Run (Unit {0} × World W)) [
              | none ↦ aborted
              | some (code, user') ↦ set_user p user' s
            ])
        removed none = tt
        removed (some (code, user')) = set_user-Preserves p user' s h

        owner :
            (x : Option User)
            → Good I (elim x as (λ _. Run (Unit {0} × World W)) [
              | none ↦ aborted
              | some user ↦ elim (user_remove_session s.store type filename user) [
                | none ↦ aborted
                | some (code, user') ↦ set_user p user' s
              ]
            ])
        owner none = tt
        owner (some user) = removed (user_remove_session s.store type filename user)

    pub new_session-Preserves :
        (now : ℕ × ℕ) (p info : ℕ) (type : SessionType)
        → Preserves {W = W} I (new_session now p info type)
    unfolding new_session
    new_session-Preserves now p info type =
        bind-Preserves I new_address _ (λ s h. h)
          (λ session.
            bind-Preserves I (set_session session (session_init now info type)) _ (λ s h. h)
              (λ r1. bind-Preserves I (the_user p) _ (the_user-Preserves p) (λ user.
                bind-Preserves I (on_value (user_add_session user session)) (added p session)
                  (on_value-Preserves I (user_add_session user session))
                  (λ r.
                    bind-Preserves I (set_user p r.1) (λ r2. done session)
                      (set_user-Preserves p r.1) (λ r2 s h. h)))))
      where
        added : ℕ → ℕ → ℤ × User → Act W ℕ
        added p session r = set_user p r.1 >>= λ r2. done session
