-- ===== src/Server/Users.antt =====
-- What src/user_manager.c finds of what it has registered.
use mini_dropbox.Prelude.{
  ℕ, ◌≡◌, ◌↔◌, refl, ◌∙◌, true, false, some, [], ◌∷◌, ◌++◌, ℤ, pos, is_zero, if◌then◌else◌, length,
}
use mini_dropbox.UserMap.{Uuid, UserMap, umap_get}
use mini_dropbox.UserMap.Invariant.{IsValid, bucket}
use mini_dropbox.UserMap.Lookup.{first_value, umap_get-put}
use mini_dropbox.User.{user_init}
use mini_dropbox.Net.{ok}
use mini_dropbox.Server.{World, uman_get_user, uman_register_user}

module _ (compare : Uuid → Uuid → ℤ) (generated : Uuid) {W : Type 0} (s : World W)
    (same : (a b : Uuid) → (is_zero (compare a b) ≡ true) ↔ (a ≡ b)) (valid : IsValid s.user_map)
    (token : Uuid) (free : bucket s.user_map token ≡ []) where
  -- The table and the users behind the registration.
  pub uman_register_user-new :
      (map : UserMap ℕ) × (uman_register_user compare generated [] token s
        ≡ ok (
          tt,
          record s { user_map = map; heap = s.heap ++ user_init generated (some token) ∷ [] },
        ))
      × IsValid map
      × (umap_get compare map token ≡ some (pos 0, some (length s.heap)))
      × ((q : Uuid)
          → is_zero (compare token q) ≡ false
          → umap_get compare map q ≡ umap_get compare s.user_map q)
  unfolding uman_register_user
  uman_register_user-new =
      let (map, put, v, counted, get) =
        umap_get-put compare same s.user_map valid token (length s.heap) (rw free) in
      (map, rw (uman_register_user, put), v, found map get, λ q f. get q ∙ rw f)
    where
      found :
          (map : UserMap ℕ)
          → ((q : Uuid)
              → umap_get compare map q ≡ (
                  if is_zero (compare token q)
                  then some (
                    pos 0,
                    first_value (
                        bucket s.user_map token
                        ++ record { key = token; value = length s.heap } ∷ []),
                  )
                  else umap_get compare s.user_map q))
          → umap_get compare map token ≡ some (pos 0, some (length s.heap))
      found map get = get token ∙ rw ((same token token).1 refl, free) (unfold first_value in refl)

  -- Registering a token whose chain is empty, with `next` of the new entry NULL: a new user is made
  -- with the token, the token is found with that user's address, any other token is found as before,
  -- and the invariant of the map holds.
  pub uman_get_user-register :
      (t : World W) × (uman_register_user compare generated [] token s ≡ ok (tt, t))
      × (uman_get_user compare generated [] token t ≡ ok (some (length s.heap), t))
      × (t.heap ≡ s.heap ++ user_init generated (some token) ∷ [])
      × IsValid t.user_map
      × ((q : Uuid)
          → is_zero (compare token q) ≡ false
          → umap_get compare t.user_map q ≡ umap_get compare s.user_map q)
  unfolding uman_get_user
  uman_get_user-register =
      let (map, run, v, found, get) = uman_register_user-new in
      (
        record s { user_map = map; heap = s.heap ++ user_init generated (some token) ∷ [] },
        run,
        rw (uman_get_user, found),
        refl,
        v,
        get,
      )
