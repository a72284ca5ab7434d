-- ===== src/UserMap/Invariant.antt =====
-- The well-formedness of the table of src/user_map.c, and that its operations keep it.
use mini_dropbox.Prelude.{
  ℕ, zero, suc, ◌+◌, ◌%◌, ◌<◌, ◌≡◌, refl, true, ap, ◌∙◌, sym, some, List, [], ◌∷◌, ◌++◌,
  if◌then◌else◌, ◌==◌, arith, get_elem?, get_or, set, replicate, length, length-set, length-append,
  length-replicate, Bool-cases, inl, inr,
}
use mini_dropbox.UserMap.{Uuid, Chain, UserMap, hash, umap_init, umap_key_to_index, link_last}

-- How many entries the chains have in all.
abbrev pub total {ℓ} : {V : Type ℓ} → List (Chain V) → ℕ
total [] = 0
total (c ∷ cs) = length c + total cs

-- All keys of a chain belong at an index.
abbrev pub Belong {ℓ} : {V : Type ℓ} → ℕ → ℕ → Chain V → Type 0
Belong capacity i [] = Unit
Belong capacity i (e ∷ es) = (hash e.key % capacity ≡ i) × Belong capacity i es

pub record IsValid {ℓ} {V : Type ℓ} (map : UserMap V) : Type 0 where
  pub width : length map.entries ≡ map.capacity
  pub room : 0 < map.capacity
  pub placed : (i : ℕ) → Belong map.capacity i (get_or map.entries i [])
  pub counted : map.count ≡ total map.entries

abbrev pub home {ℓ} : {V : Type ℓ} → UserMap V → Uuid → ℕ
home map key = hash key % map.capacity

abbrev pub bucket {ℓ} : {V : Type ℓ} → UserMap V → Uuid → Chain V
bucket map key = get_or map.entries (home map key) []

-- One more entry at the end of the key's own chain.
abbrev pub appended {ℓ} : {V : Type ℓ} → UserMap V → Uuid → V → UserMap V
appended map key value = record map {
  entries =
      set map.entries (home map key) (bucket map key ++ record { key = key; value = value } ∷ []);
  count = map.count + 1;
}

module _ {ℓ} {A : Type ℓ} where
  pub get_elem?-get_or :
      (xs : List A) (i : ℕ) (d : A) → i < length xs → get_elem? xs i ≡ some (get_or xs i d)
  get_elem?-get_or [] i d h = absurd (omega arith)
  get_elem?-get_or (x ∷ xs) zero d h = refl
  get_elem?-get_or (x ∷ xs) (suc i) d h = get_elem?-get_or xs i d (omega arith)

  pub get_or-set :
      (xs : List A) (i j : ℕ) (v d : A)
      → i < length xs
      → get_or (set xs i v) j d ≡ (if i == j then v else get_or xs j d)
  get_or-set [] i j v d h = absurd (omega arith)
  get_or-set (x ∷ xs) zero zero v d h = refl
  get_or-set (x ∷ xs) zero (suc j) v d h = ground arith
  get_or-set (x ∷ xs) (suc i) zero v d h = ground arith
  get_or-set (x ∷ xs) (suc i) (suc j) v d h = get_or-set xs i j v d (omega arith) ∙ ground arith

  get_or-replicate : (n i : ℕ) (d : A) → get_or (replicate n d) i d ≡ d
  get_or-replicate zero i d = refl
  get_or-replicate (suc n) zero d = refl
  get_or-replicate (suc n) (suc i) d = get_or-replicate n i d

total-replicate {ℓ} : (V : Type ℓ) (n : ℕ) → total (replicate {A = Chain V} n []) ≡ 0
total-replicate V zero = refl
total-replicate V (suc n) = omega (arith, total-replicate V n)

module _ {ℓ} {V : Type ℓ} where
  total-set :
      (cs : List (Chain V)) (i : ℕ) (c : Chain V)
      → i < length cs
      → total (set cs i c) + length (get_or cs i []) ≡ total cs + length c
  total-set [] i c h = absurd (omega arith)
  total-set (x ∷ cs) zero c h = omega arith
  total-set (x ∷ cs) (suc i) c h = omega (arith, total-set cs i c (omega arith))

  -- The walk to the last entry appends.
  pub link_last-append : (c new : Chain V) → link_last c new ≡ c ++ new
  unfolding link_last
  link_last-append [] new = refl
  link_last-append (cur ∷ []) new = refl
  link_last-append (cur ∷ next ∷ rest) new = ap (◌∷◌ cur) (link_last-append (next ∷ rest) new)

  Belong-append : (k i : ℕ) (c d : Chain V) → Belong k i c → Belong k i d → Belong k i (c ++ d)
  Belong-append k i [] d h g = g
  Belong-append k i (e ∷ es) d h g = (h.0, Belong-append k i es d h.1 g)

  module _ (map : UserMap V) (valid : IsValid map) (key : Uuid) where
    pub home-lt : home map key < length map.entries
    home-lt = omega (arith, valid.width, valid.room)

    -- In a valid table the index is in range.
    pub index_lem : umap_key_to_index map key ≡ some (home map key)
    unfolding umap_key_to_index
    index_lem = ground (arith, valid.room)

    pub bucket_lem : get_elem? map.entries (home map key) ≡ some (bucket map key)
    bucket_lem = get_elem?-get_or map.entries (home map key) [] home-lt

    pub appended-IsValid : (value : V) → IsValid (appended map key value)
    appended-IsValid value = record {
      width = length-set map.entries (home map key) _ ∙ valid.width;
      room = valid.room;
      placed = λ i.
          rw (get_or-set map.entries (home map key) i _ [] home-lt)
            (elim (Bool-cases (home map key == i)) [
              | inl e ↦ rw e (
                  Belong-append map.capacity i (bucket map key) _ (rw (same i e) (valid.placed i))
                    (same i e, tt))
              | inr e ↦ rw e (valid.placed i)
            ]);
      counted = omega (
        arith,
        valid.counted,
        total-set map.entries (home map key)
            (bucket map key ++ record { key = key; value = value } ∷ []) home-lt,
        length-append (bucket map key) (record { key = key; value = value } ∷ []),
      );
    }
      where
        same : (i : ℕ) → (home map key == i) ≡ true → home map key ≡ i
        same i e = ground arith

  pub umap_init-IsValid : (capacity : ℕ) → 0 < capacity → IsValid (umap_init V capacity)
  unfolding umap_init
  umap_init-IsValid capacity h = record {
    width = length-replicate capacity [];
    room = h;
    placed = λ i. rw (get_or-replicate {A = Chain V} capacity i []) tt;
    counted = sym (total-replicate V capacity);
  }
