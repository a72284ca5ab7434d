-- ===== src/User/Sessions.antt =====
-- The array of sessions of src/user.c against the list of the sessions that are in it.
use mini_dropbox.Prelude.{
  ℕ, ◌-◌, ◌≤◌, ◌≡◌, refl, ap, ◌∙◌, Bool, true, false, ◌&&◌, none, some, List, [], ◌∷◌, ◌++◌, pos,
  negsuc, if◌then◌else◌, bytes_eq, arith, take, length, Bool-cases, inl, inr,
}
use mini_dropbox.Session.{FileInfo, SessionType, Session}
use mini_dropbox.User.Array.{
  get_elem?-middle, checked_set-middle, bubble_lem, bubble-overflow, shift, length-snoc,
}
use mini_dropbox.User.{
  Store, Slot, null, User, type_eq, deref, printed_hits, get_from, hits, remove_from,
}

-- A pointer to a session with a `FileInfo`.
abbrev pub IsReadable : Store → Slot → Type 0
IsReadable store slot =
    (s : Session) × (i : FileInfo) × (deref store slot ≡ some s) × (store.info s.file_info ≡ some i)

abbrev pub AllReadable : Store → List Slot → Type 0
AllReadable store [] = Unit
AllReadable store (s ∷ ss) = IsReadable store s × AllReadable store ss

-- The sessions in the array: its first `sessions_count` slots.
abbrev pub active : User → List Slot
active u = take u.sessions_count u.sessions

pub record IsValid (store : Store) (u : User) : Type 0 where
  pub width : length u.sessions ≡ u.sessions_capacity
  pub within : u.sessions_count ≤ u.sessions_capacity
  pub readable : AllReadable store (active u)

-- The session that a slot leads to has the type and file name.
abbrev pub names : Store → SessionType → List ℕ → Slot → Bool
names store type filename slot = elim (deref store slot) [
  | none ↦ false
  | some s ↦ elim (store.info s.file_info) [
    | none ↦ false
    | some i ↦ type_eq s.type type && bytes_eq i.filename filename
  ]
]

-- The specification: the first element that passes a test, and the list without it.
unfoldable pub find_first : (Slot → Bool) → List Slot → Slot
find_first p [] = null
find_first p (x ∷ xs) = if p x then x else find_first p xs

unfoldable pub erase_first : (Slot → Bool) → List Slot → List Slot
erase_first p [] = []
erase_first p (x ∷ xs) = if p x then xs else x ∷ erase_first p xs

unfoldable pub any : (Slot → Bool) → List Slot → Bool
any p [] = false
any p (x ∷ xs) = if p x then true else any p xs

-- The user with another array.
abbrev pub holding : User → List Slot → User
holding u sessions = record u { sessions = sessions }

module _ (store : Store) (type : SessionType) (filename : List ℕ) where
  printed_hits-names :
      (slot : Slot)
      → IsReadable store slot
      → printed_hits store type filename slot ≡ some (names store type filename slot)
  unfolding printed_hits
  printed_hits-names slot (s, i, e, f) = ground arith

  hits-names :
      (slot : Slot)
      → IsReadable store slot
      → hits store type filename slot ≡ some (names store type filename slot)
  unfolding hits
  hits-names slot (s, i, e, f) = ground arith

  -- The loop of `user_get_session` over the sessions behind `pre`.
  pub get_from-find :
      (pre act post : List Slot)
      → AllReadable store act
      → get_from store type filename (pre ++ (act ++ post)) (length act) (length pre)
        ≡ some (find_first (names store type filename) act)
  unfolding get_from find_first
  get_from-find pre [] post r = refl
  get_from-find pre (x ∷ act) post r =
      rw (get_elem?-middle pre x (act ++ post), printed_hits-names x r.0)
        (let ih = get_from-find (pre ++ x ∷ []) act post r.1 in
          ap (λ o. if names store type filename x then some x else o)
            (rw (shift pre x (act ++ post), length-snoc pre x) at ih)
          ∙ ground arith)

  -- The loop of `user_remove_session`, over the sessions behind `pre`.
  pub remove_from-lem :
      (u : User) (pre act : List Slot) (z : Slot) (post : List Slot)
      → AllReadable store act
      → remove_from store type filename
          (holding u (pre ++ (act ++ z ∷ post)))
          (length act)
          (length pre)
        ≡ some (
            if any (names store type filename) act
            then (
              pos 0,
              record u {
                sessions = pre ++ (erase_first (names store type filename) act ++ z ∷ null ∷ post);
                sessions_count = u.sessions_count - 1;
              },
            )
            else (negsuc 0, holding u (pre ++ (act ++ z ∷ post))))
  unfolding remove_from erase_first any
  remove_from-lem u pre [] z post r = refl
  remove_from-lem u pre (x ∷ act) z post r =
      rw (get_elem?-middle pre x (act ++ z ∷ post), hits-names x r.0)
        (elim (Bool-cases (names store type filename x)) [
          | inl h ↦
              rw
                (h, checked_set-middle pre x null (act ++ z ∷ post), bubble_lem pre null act z post)
          | inr h ↦
              let ih = remove_from-lem u (pre ++ x ∷ []) act z post r.1 in
              rw h (
                rw
                  (
                    shift pre x (act ++ z ∷ post),
                    length-snoc pre x,
                    shift pre x (erase_first (names store type filename) act ++ z ∷ null ∷ post),
                  )
                  at ih)
        ])

  pub remove_from-overflow :
      (u : User) (pre act : List Slot)
      → AllReadable store act
      → remove_from store type filename (holding u (pre ++ act)) (length act) (length pre) ≡ (
          if any (names store type filename) act
          then none
          else some (negsuc 0, holding u (pre ++ act)))
  unfolding remove_from any
  remove_from-overflow u pre [] r = refl
  remove_from-overflow u pre (x ∷ act) r =
      rw (get_elem?-middle pre x act, hits-names x r.0)
        (elim (Bool-cases (names store type filename x)) [
          | inl h ↦ rw (h, checked_set-middle pre x null act, bubble-overflow pre null act)
          | inr h ↦
              let ih = remove_from-overflow u (pre ++ x ∷ []) act r.1 in
              rw h (rw (shift pre x act, length-snoc pre x) at ih)
        ])
