-- ===== src/User/Contract.antt =====
-- What the operations on a user's sessions in src/user.c do to the list of the active sessions.
use mini_dropbox.Prelude.{
  ℕ, zero, suc, ◌+◌, ◌-◌, ◌<◌, ◌≤◌, ◌≡◌, refl, ap, ap₂, ◌∙◌, sym, Bool, true, false, none, some,
  List, [], ◌∷◌, ◌++◌, pos, negsuc, if◌then◌else◌, ltb, ltb→lt, arith, take, drop, length,
  length-append, length-take, length-drop, take-append-drop, append-nil, Bool-cases, inl, inr,
}
use mini_dropbox.Session.{SessionType}
use mini_dropbox.User.{
  Store, Slot, null, at, User, checked_set, user_add_session, get_from, user_get_session,
  remove_from, user_remove_session,
}
use mini_dropbox.User.Array.{checked_set-middle, shift, length-snoc}
use mini_dropbox.User.Sessions.{
  IsReadable, AllReadable, active, IsValid, names, find_first, erase_first, any, holding,
  get_from-find, remove_from-lem, remove_from-overflow,
}

take-length : (xs ys : List Slot) (n : ℕ) → n ≡ length xs → take n (xs ++ ys) ≡ xs
take-length [] ys zero e = refl
take-length [] ys (suc n) e = absurd (omega arith)
take-length (x ∷ xs) ys zero e = absurd (omega arith)
take-length (x ∷ xs) ys (suc n) e = ap (◌∷◌ x) (take-length xs ys n (omega arith))

AllReadable-snoc :
    (store : Store) (xs : List Slot) (x : Slot)
    → AllReadable store xs
    → IsReadable store x
    → AllReadable store (xs ++ x ∷ [])
AllReadable-snoc store [] x r h = (h, tt)
AllReadable-snoc store (y ∷ ys) x r h = (r.0, AllReadable-snoc store ys x r.1 h)

AllReadable-erase :
    (store : Store) (p : Slot → Bool) (xs : List Slot)
    → AllReadable store xs
    → AllReadable store (erase_first p xs)
unfolding erase_first
AllReadable-erase store p [] r = tt
AllReadable-erase store p (x ∷ xs) r = elim (Bool-cases (p x)) [
  | inl h ↦ rw h r.1
  | inr h ↦ rw h (r.0, AllReadable-erase store p xs r.1)
]

erase_first-none : (p : Slot → Bool) (xs : List Slot) → any p xs ≡ false → erase_first p xs ≡ xs
unfolding erase_first any
erase_first-none p [] h = refl
erase_first-none p (x ∷ xs) h = ground (arith, erase_first-none p xs)

length-erase_first :
    (p : Slot → Bool) (xs : List Slot) → any p xs ≡ true → length (erase_first p xs) + 1 ≡ length xs
unfolding erase_first any
length-erase_first p [] h = cc
length-erase_first p (x ∷ xs) h = ground (arith, length-erase_first p xs)

-- The array of a valid user, split behind the active sessions.
length-active : {store : Store} (u : User) → IsValid store u → length (active u) ≡ u.sessions_count
length-active u v = omega (arith, v.width, v.within, length-take u.sessions_count u.sessions)

spare : (u : User) → List Slot
spare u = drop u.sessions_count u.sessions

spare-cons :
    {store : Store} (u : User)
    → IsValid store u
    → u.sessions_count < u.sessions_capacity
    → (z : Slot) × (post : List Slot) × (spare u ≡ z ∷ post)
spare-cons u v h =
    go (spare u) (unfold spare in omega (arith, v.width, length-drop u.sessions_count u.sessions))
  where
    go : (xs : List Slot) → 0 < length xs → (z : Slot) × (post : List Slot) × (xs ≡ z ∷ post)
    go [] h = absurd (omega arith)
    go (z ∷ post) h = (z, post, refl)

-- The array of a valid user with room: the active sessions, a spare slot and others.
split-cons :
    {store : Store} (u : User)
    → IsValid store u
    → u.sessions_count < u.sessions_capacity
    → (z : Slot) × (post : List Slot) × (u.sessions ≡ active u ++ z ∷ post)
unfolding spare
split-cons u v h =
    let (z, post, e) = spare-cons u v h in
    (z, post, sym (take-append-drop u.sessions_count u.sessions) ∙ ap (λ s. active u ++ s) e)

-- Valid, whatever the slots behind the active ones hold.
IsValid-parts :
    (store : Store) (u : User) (act : List Slot) (rest : List Slot)
    → u.sessions ≡ act ++ rest
    → u.sessions_count ≡ length act
    → length u.sessions ≡ u.sessions_capacity
    → AllReadable store act
    → IsValid store u × (active u ≡ act)
IsValid-parts store u act rest e n w r =
    (record { width = w; within = fits; readable = rw taken r }, taken)
  where
    taken : active u ≡ act
    taken = ap (take u.sessions_count) e ∙ take-length act rest u.sessions_count n

    fits : u.sessions_count ≤ u.sessions_capacity
    fits = omega (arith, ap length e, length-append act rest)

module _ (store : Store) where
  add_room :
      (u : User) (p : ℕ)
      → IsValid store u
      → IsReadable store (at p)
      → u.sessions_count < u.sessions_capacity
      → (u' : User) × (user_add_session u p ≡ some (pos 0, u'))
        × IsValid store u'
        × (active u' ≡ active u ++ at p ∷ [])
        × (u' ≡ record u { sessions = u'.sessions; sessions_count = u.sessions_count + 1 })
  unfolding user_add_session
  add_room u p v r h =
      let (z, post, e) = split-cons u v h in
      let n = length-active u v in
      let u' : User = record u {
        sessions = active u ++ at p ∷ post;
        sessions_count = u.sessions_count + 1;
      } in
      let write : checked_set u.sessions u.sessions_count (at p) ≡ some (active u ++ at p ∷ post) =
        ap₂ (λ xs i. checked_set xs i (at p)) e (sym n)
        ∙ checked_set-middle (active u) z (at p) post in
      let (valid, act) =
        IsValid-parts store u' (active u ++ at p ∷ []) post (sym (shift (active u) (at p) post))
          (omega (arith, n, length-snoc (active u) (at p)))
          (omega (
            arith,
            v.width,
            ap length e,
            length-append (active u) (at p ∷ post),
            length-append (active u) (z ∷ post),
          ))
          (AllReadable-snoc store (active u) (at p) v.readable r) in
      (u', rw write (ground arith), valid, act, refl)

  -- Adding a readable session to a valid user: at full capacity the call returns -1 and changes
  -- nothing of the user; else it returns 0, the session stands behind the active ones, and nothing
  -- of the user but the array and the count of sessions is changed. The invariant holds.
  pub user_add_session-active :
      (u : User) (p : ℕ)
      → IsValid store u
      → IsReadable store (at p)
      → (u' : User) × (user_add_session u p
          ≡ some (if ltb u.sessions_count u.sessions_capacity then pos 0 else negsuc 0, u'))
        × IsValid store u'
        × (active u' ≡ (
            if ltb u.sessions_count u.sessions_capacity then active u ++ at p ∷ [] else active u))
        × (u' ≡ (
            if ltb u.sessions_count u.sessions_capacity
            then record u { sessions = u'.sessions; sessions_count = u.sessions_count + 1 }
            else u))
  unfolding user_add_session
  user_add_session-active u p v r = elim (Bool-cases (ltb u.sessions_count u.sessions_capacity)) [
    | inr full ↦ (u, rw full (ground arith), v, rw full, rw full)
    | inl room ↦
        let (u', run, valid, act, kept) = add_room u p v r (ltb→lt _ _ room) in
        (u', rw room run, valid, rw room act, rw room kept)
  ]

module _ (store : Store) (type : SessionType) (filename : List ℕ) where
  -- For a valid user, `user_get_session` returns the first active session with the type and the
  -- file name, or NULL if there is none.
  pub user_get_session-find :
      (u : User)
      → IsValid store u
      → user_get_session store type filename u
        ≡ some (find_first (names store type filename) (active u))
  unfolding user_get_session
  user_get_session-find u v =
      ap₂ (λ xs n. get_from store type filename xs n 0)
        (sym (take-append-drop u.sessions_count u.sessions)) (sym (length-active u v))
      ∙ get_from-find store type filename [] (active u) (drop u.sessions_count u.sessions)
          v.readable

  -- For a valid user whose array is not full, `user_remove_session` takes the first active session
  -- with the type and the file name out, keeps the order of the others, and returns 0; if there is
  -- none it returns -1 and the active sessions stay. The invariant holds.
  pub user_remove_session-active :
      (u : User)
      → IsValid store u
      → u.sessions_count < u.sessions_capacity
      → (u' : User) × (user_remove_session store type filename u
          ≡ some (if any (names store type filename) (active u) then pos 0 else negsuc 0, u'))
        × IsValid store u'
        × (active u' ≡ erase_first (names store type filename) (active u))
  unfolding user_remove_session
  user_remove_session-active u v h =
      let p = names store type filename in
      let (z, post, e) = split-cons u v h in
      let n = length-active u v in
      let run =
        ap₂ (λ w i. remove_from store type filename w i 0) (ap (holding u) e) (sym n)
        ∙ remove_from-lem store type filename u [] (active u) z post v.readable in
      elim (Bool-cases (any p (active u))) [
        | inr none_hit ↦ (
          u,
          run ∙ rw none_hit (ap (λ xs. some (negsuc 0, holding u xs)) (sym e)),
          v,
          sym (erase_first-none p (active u) none_hit),
        )
        | inl hit ↦
            let u' : User = record u {
              sessions = erase_first p (active u) ++ z ∷ null ∷ post;
              sessions_count = u.sessions_count - 1;
            } in
            let m = length-erase_first p (active u) hit in
            let (valid, act) =
              IsValid-parts store u' (erase_first p (active u)) (z ∷ null ∷ post) refl
                (omega (arith, n, m))
                (omega (
                  arith,
                  v.width,
                  m,
                  ap length e,
                  length-append (active u) (z ∷ post),
                  length-append (erase_first p (active u)) (z ∷ null ∷ post),
                ))
                (AllReadable-erase store p (active u) v.readable) in
            (u', run ∙ rw hit, valid, act)
      ]

  -- If the array is full, removing a session that is there runs past the end of the array.
  pub user_remove_session-overflow :
      (u : User)
      → IsValid store u
      → u.sessions_count ≡ u.sessions_capacity
      → any (names store type filename) (active u) ≡ true
      → user_remove_session store type filename u ≡ none
  unfolding user_remove_session spare
  user_remove_session-overflow u v full hit =
      ap₂ (λ w i. remove_from store type filename w i 0) (ap (holding u) whole)
        (sym (length-active u v))
      ∙ remove_from-overflow store type filename u [] (active u) v.readable
      ∙ rw hit
    where
      empty : (xs : List Slot) → length xs ≡ 0 → xs ≡ []
      empty [] e = refl
      empty (x ∷ xs) e = absurd (omega arith)

      whole : u.sessions ≡ active u
      whole =
          sym (take-append-drop u.sessions_count u.sessions)
          ∙ ap (λ s. active u ++ s)
              (empty (spare u) (omega (arith, v.width, length-drop u.sessions_count u.sessions)))
          ∙ append-nil (active u)
