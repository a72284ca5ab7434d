-- ===== src/UserMap/Faults.antt =====
-- What an uninitialised `next` of an entry does in src/user_map.c.
use mini_dropbox.Prelude.{
  ◌+◌, ◌≡◌, true, some, [], ◌∷◌, ℤ, pos, is_zero, set, get_elem?-set_self, Bool-cases, inl, inr,
}
use mini_dropbox.UserMap.{
  Uuid, Entry, Chain, UserMap, put_at, find_from, get_at, umap_put, umap_get,
}
use mini_dropbox.UserMap.Invariant.{IsValid, home, bucket, index_lem, bucket_lem, home-lt}

module _ {ℓ} {V : Type ℓ} (compare : Uuid → Uuid → ℤ) where
  -- A put into an empty chain whose new entry's uninitialised `next` leads to entries: from then
  -- on a lookup of a key of those entries succeeds, if the key belongs at that index, with the
  -- value that was put.
  pub umap_get-junk :
      (map : UserMap V)
      → IsValid map
      → (key q : Uuid) (value : V) (e : Entry V) (junk : Chain V) → bucket map key ≡ []
      → home map key ≡ home map q
      → is_zero (compare e.key q) ≡ true
      → (map' : UserMap V) × (umap_put compare (e ∷ junk) map key value ≡ some (pos 0, map'))
        × (umap_get compare map' q ≡ some (pos 0, some value))
  unfolding umap_put put_at umap_get get_at find_from
  umap_get-junk map valid key q value e junk empty h t = (
    record map {
      entries = set map.entries (home map key) (record { key = key; value = value } ∷ e ∷ junk);
      count = map.count + 1;
    },
    rw (index_lem map valid key, bucket_lem map valid key, empty),
    rw
        (
          index_lem map valid q,
          ← h,
          get_elem?-set_self map.entries (home map key)
              (record { key = key; value = value } ∷ e ∷ junk) (home-lt map valid key),
        )
        (elim (Bool-cases (is_zero (compare key q))) [ inl u ↦ rw u | inr u ↦ rw (u, t) ]),
  )
