-- ===== src/Server/Tests.antt =====
-- The theorem on the user manager at an empty table.
use mini_dropbox.Prelude.{
  ℕ, ◌≡◌, ◌↔◌, refl, none, true, false, some, [], ◌∷◌, ◌++◌, ℤ, pos, is_zero, if◌then◌else◌,
  bytes_eq, bytes_eq_iff, arith, replicate, length,
}
use mini_dropbox.UserMap.{Uuid, hash, umap_init, umap_get}
use mini_dropbox.UserMap.Invariant.{IsValid, bucket, umap_init-IsValid}
use mini_dropbox.User.{user_init}
use mini_dropbox.Net.{ok}
use mini_dropbox.Server.{World, uman_get_user, uman_register_user}
use mini_dropbox.Server.Users.{uman_get_user-register}

uuid_compare : Uuid → Uuid → ℤ
uuid_compare a b = if bytes_eq a b then pos 0 else pos 1

same : (a b : Uuid) → (is_zero (uuid_compare a b) ≡ true) ↔ (a ≡ b)
unfolding uuid_compare
same a b = (λ h. ground (arith, bytes_eq_iff a b), λ h. ground (arith, bytes_eq_iff a b))

abbrev token : Uuid
token = replicate 16 7

abbrev fresh : World (Unit {0})
fresh = record {
  socket = record { outcomes = []; wire = []; incoming = []; errno = 0 };
  files = tt;
  user_map = umap_init ℕ 256;
  heap = [];
  store = record { session = λ p. none; info = λ p. none };
  free = 0;
  is_open = true;
}

free : bucket fresh.user_map token ≡ []
unfolding umap_init hash
free = refl

first_user :
    (t : World (Unit {0})) × (uman_register_user uuid_compare token [] token fresh ≡ ok (tt, t))
    × (uman_get_user uuid_compare token [] token t ≡ ok (some (length fresh.heap), t))
    × (t.heap ≡ fresh.heap ++ user_init token (some token) ∷ [])
    × IsValid t.user_map
    × ((q : Uuid)
        → is_zero (uuid_compare token q) ≡ false
        → umap_get uuid_compare t.user_map q ≡ umap_get uuid_compare fresh.user_map q)
first_user =
    uman_get_user-register uuid_compare token fresh same (umap_init-IsValid 256 (omega arith)) token
      free
