-- ===== src/UserMap.antt =====
-- src/user_map.c and src/user_map.h: the chained hash table from user tokens to users.
-- `none` is undefined behaviour: a division by a zero capacity, or an index past the array.
-- `compare` is libuuid's `uuid_compare`. `umap_put` leaves the field `next` of a new entry as
-- `malloc` returns it; `junk` is the chain that the field then happens to lead to.
pub mod Invariant
pub mod Lookup
pub mod Faults
pub mod Range
pub mod Release
mod Tests
use mini_dropbox.Prelude.{
  ℕ, suc, ◌+◌, ◌*◌, ◌%◌, ◌^◌, Bool, Option, none, some, List, [], ◌∷◌, ℤ, pos, negsuc, is_zero,
  ◌>>=◌, if◌then◌else◌, ◌==◌, get_elem?, set, replicate,
}

-- `uuid_t`: its sixteen bytes.
abbrev pub Uuid : Type 0
Uuid = List ℕ

pub record Entry {ℓ} (V : Type ℓ) : Type ℓ where
  pub key : Uuid
  pub value : V

-- The entries that `next` links; NULL is [].
abbrev pub Chain {ℓ} : Type ℓ → Type ℓ
Chain V = List (Entry V)

pub record UserMap {ℓ} (V : Type ℓ) : Type ℓ where
  pub entries : List (Chain V)
  pub count : ℕ
  pub capacity : ℕ

abbrev pub u64_mod : ℕ
u64_mod = 2 ^ 64

unfoldable pub umap_init {ℓ} : (V : Type ℓ) → ℕ → UserMap V
umap_init V capacity = record { entries = replicate capacity []; count = 0; capacity = capacity }

-- ((hash << 5) + hash) + c, each step on 64 bits
hash_step : ℕ → ℕ → ℕ
hash_step hash c = ((hash * 2 ^ 5 % u64_mod + hash) % u64_mod + c) % u64_mod

hash_from : ℕ → List ℕ → ℕ
hash_from hash [] = hash
hash_from hash (c ∷ str) = hash_from (hash_step hash c) str

unfoldable pub hash : List ℕ → ℕ
unfolding hash_from hash_step
hash str = hash_from 5381 str

-- `% capacity`
checked_mod : ℕ → ℕ → Option ℕ
checked_mod n d = if d == 0 then none else some (n % d)

module _ {ℓ} {V : Type ℓ} where
  unfoldable pub umap_key_to_index : UserMap V → Uuid → Option ℕ
  unfolding checked_mod
  umap_key_to_index map key = checked_mod (hash key) map.capacity

  -- while (cur->next != NULL) cur = cur->next; cur->next = new_entry;
  pub link_last : Chain V → Chain V → Chain V
  link_last [] new_entry = new_entry
  link_last (cur ∷ []) new_entry = cur ∷ new_entry
  link_last (cur ∷ next ∷ rest) new_entry = cur ∷ link_last (next ∷ rest) new_entry

module _ {ℓ} {V : Type ℓ} (compare : Uuid → Uuid → ℤ) where
  -- the three branches of `umap_put`, at the chain of the index
  put_at : Chain V → UserMap V → ℕ → Chain V → Uuid → ℤ × UserMap V
  put_at new_entry map idx [] key =
      (pos 0, record map { entries = set map.entries idx new_entry; count = map.count + 1 })
  put_at new_entry map idx (head ∷ rest) key =
      if is_zero (compare head.key key) then (negsuc 0, map) else (
        pos 0,
        record map {
          entries = set map.entries idx (link_last (head ∷ rest) new_entry);
          count = map.count + 1;
        },
      )

  unfoldable pub umap_put : Chain V → UserMap V → Uuid → V → Option (ℤ × UserMap V)
  unfolding umap_key_to_index put_at link_last
  umap_put junk map key value = do
    idx ← umap_key_to_index map key
    bucket ← get_elem? map.entries idx
    some (put_at (record { key = key; value = value } ∷ junk) map idx bucket key)

  -- The loop over `cur`: a match at any entry stores the value of the entry at the index.
  find_from : V → Chain V → Uuid → ℤ × Option V
  find_from first [] key = (negsuc 0, none)
  find_from first (cur ∷ next) key =
      if is_zero (compare cur.key key) then (pos 0, some first) else find_from first next key

  get_at : Chain V → Uuid → ℤ × Option V
  unfolding find_from
  get_at [] key = (negsuc 0, none)
  get_at (head ∷ rest) key =
      if is_zero (compare head.key key)
      then (pos 0, some head.value)
      else find_from head.value (head ∷ rest) key

  -- The second component is what is stored through `out`, if anything is.
  unfoldable pub umap_get : UserMap V → Uuid → Option (ℤ × Option V)
  unfolding umap_key_to_index get_at
  umap_get map key = do
    idx ← umap_key_to_index map key
    bucket ← get_elem? map.entries idx
    some (get_at bucket key)
