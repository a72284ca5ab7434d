-- ===== src/UserMap/Release.antt =====
-- `umap_entry_free` and `umap_free_entries` of src/user_map.c: which entries and values of the table
-- they give to `free`.
use mini_dropbox.Prelude.{
  ℕ, zero, suc, ◌≡◌, refl, ap, ap₂, Option, none, some, List, [], ◌∷◌, ◌>>=◌, ◌++◌, map,
}
use mini_dropbox.UserMap.{Entry, Chain, UserMap}

module _ {ℓ} {V : Type ℓ} where
  -- while (cur->next != NULL) { … umap_value_free(cur->value); free(cur); cur = next; } free(cur);
  free_from : Entry V → Chain V → List V × List (Entry V)
  free_from cur [] = ([], cur ∷ [])
  free_from cur (next ∷ rest) =
      let (values, entries) = free_from next rest in (cur.value ∷ values, cur ∷ entries)

  -- The values and the entries that are freed. `cur->next` of NULL is undefined.
  pub umap_entry_free : Chain V → Option (List V × List (Entry V))
  unfolding free_from
  umap_entry_free [] = none
  umap_entry_free (entry ∷ next) = some (free_from entry next)

  -- for (size_t i = 0; i < map->capacity; i++) free(map->entries[i]);
  free_entries : ℕ → List (Chain V) → Option (List V × List (Entry V))
  free_entries zero buckets = some ([], [])
  free_entries (suc left) [] = none
  free_entries (suc left) ([] ∷ buckets) = free_entries left buckets
  free_entries (suc left) ((entry ∷ next) ∷ buckets) =
      free_entries left buckets >>= λ freed. some (freed.0, entry ∷ freed.1)

  -- The values and the entries that are freed; the array is freed as well.
  unfoldable pub umap_free_entries : UserMap V → Option (List V × List (Entry V))
  unfolding free_entries
  umap_free_entries map = free_entries map.capacity map.entries

  free_from-all : (first : Entry V) (rest : Chain V) → (free_from first rest).1 ≡ first ∷ rest
  unfolding free_from
  free_from-all first [] = refl
  free_from-all first (next ∷ rest) = ap (◌∷◌ first) (free_from-all next rest)

  free_from-values :
      (first last : Entry V) (rest : Chain V)
      → (free_from first (rest ++ last ∷ [])).0 ≡ map (λ e. e.value) (first ∷ rest)
  unfolding free_from
  free_from-values first last [] = refl
  free_from-values first last (next ∷ rest) = ap (◌∷◌ first.value) (free_from-values next last rest)

  -- `umap_entry_free` frees each entry of a chain once, in their order, and the values of all but the
  -- last.
  pub umap_entry_free_lem :
      (first last : Entry V) (rest : Chain V)
      → umap_entry_free (first ∷ (rest ++ last ∷ []))
        ≡ some (map (λ e. e.value) (first ∷ rest), first ∷ (rest ++ last ∷ []))
  unfolding umap_entry_free
  umap_entry_free_lem first last rest =
      ap₂ (λ v e. some (v, e)) (free_from-values first last rest)
        (free_from-all first (rest ++ last ∷ []))
