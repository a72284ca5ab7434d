-- ===== src/UserMap/Tests.antt =====
-- The theorems on the user table at concrete tables, with `uuid_compare` as equality of bytes.
use mini_dropbox.Prelude.{
  ℕ, ◌+◌, ◌%◌, ◌≡◌, ◌↔◌, refl, true, false, some, [], ◌∷◌, ◌++◌, ℤ, pos, negsuc, is_zero, ◌>>=◌,
  if◌then◌else◌, bytes_eq, bytes_eq_iff, arith, replicate,
}
use mini_dropbox.UserMap.{Uuid, UserMap, u64_mod, hash, umap_init, umap_put, umap_get}
use mini_dropbox.UserMap.Invariant.{IsValid, bucket, appended, appended-IsValid, umap_init-IsValid}
use mini_dropbox.UserMap.Lookup.{
  djb2, hash-djb2, first_value, has, stored, first_has, umap_put_lem, umap_get-put,
}
use mini_dropbox.UserMap.Release.{umap_free_entries}

uuid_compare : Uuid → Uuid → ℤ
uuid_compare a b = if bytes_eq a b then pos 0 else pos 1

same : (a b : Uuid) → (is_zero (uuid_compare a b) ≡ true) ↔ (a ≡ b)
unfolding uuid_compare
same a b = (λ h. ground (arith, bytes_eq_iff a b), λ h. ground (arith, bytes_eq_iff a b))

abbrev tok : ℕ → Uuid
tok n = 0 ∷ 0 ∷ 0 ∷ 0 ∷ 0 ∷ 0 ∷ 0 ∷ 0 ∷ 0 ∷ 0 ∷ 0 ∷ 0 ∷ 0 ∷ 0 ∷ 0 ∷ n ∷ []

program : Unit {0}
unfolding bytes_eq uuid_compare umap_init umap_put umap_get hash first_value has stored
program = tt

abbrev fresh : UserMap ℕ
fresh = record { entries = replicate 4 []; count = 0; capacity = 4 }

fresh_lem : umap_init ℕ 4 ≡ fresh
unfolding umap_init
fresh_lem = refl

fresh-IsValid : IsValid fresh
unfolding umap_init
fresh-IsValid = umap_init-IsValid 4 (omega arith)

-- `tok 3` and `tok 7` fall into one chain of four; the second then reads the first one's value.
session_collides :
    (umap_put uuid_compare [] fresh (tok 3) 30 >>= λ r.
    umap_put uuid_compare [] r.1 (tok 7) 70 >>= λ q. umap_get uuid_compare q.1 (tok 7))
    ≡ some (pos 0, some 30)
unfolding program
session_collides = refl

hash-djb2_example : hash (tok 3) ≡ djb2 5381 (tok 3) % u64_mod
hash-djb2_example = hash-djb2 (tok 3)

abbrev one : UserMap ℕ
one = appended fresh (tok 3) 30

one-IsValid : IsValid one
one-IsValid = appended-IsValid fresh fresh-IsValid (tok 3) 30

one-bucket : bucket one (tok 7) ≡ record { key = tok 3; value = 30 } ∷ []
unfolding program
one-bucket = refl

umap_put_lem_example :
    umap_put uuid_compare [] one (tok 3) 31
    ≡ some (
        if first_has uuid_compare (tok 3) (bucket one (tok 3))
        then (negsuc 0, one)
        else (pos 0, appended one (tok 3) 31))
umap_put_lem_example = umap_put_lem uuid_compare one one-IsValid (tok 3) 31

not_first : first_has uuid_compare (tok 7) (bucket one (tok 7)) ≡ false
unfolding program
not_first = refl

umap_get-put_example :
    (map' : UserMap ℕ) × (umap_put uuid_compare [] one (tok 7) 70 ≡ some (pos 0, map'))
    × IsValid map'
    × (map'.count ≡ one.count + 1)
    × ((q : Uuid)
        → umap_get uuid_compare map' q ≡ (
            if is_zero (uuid_compare (tok 7) q)
            then some
                (pos 0, first_value (bucket one (tok 7) ++ record { key = tok 7; value = 70 } ∷ []))
            else umap_get uuid_compare one q))
umap_get-put_example = umap_get-put uuid_compare same one one-IsValid (tok 7) 70 not_first

abbrev two : UserMap ℕ
two = appended one (tok 7) 70

-- Of two users with one chain one entry is freed, and no user.
leaks :
    (umap_free_entries two ≡ some ([], record { key = tok 3; value = 30 } ∷ [])) × (two.count ≡ 2)
unfolding program umap_free_entries
leaks = (refl, refl)
