-- ===== src/UserMap/Lookup.antt =====
-- What `umap_put` and `umap_get` of src/user_map.c return, and how they interact.
use mini_dropbox.Prelude.{
  ℕ, zero, suc, ◌+◌, ◌*◌, ◌%◌, ◌≡◌, ◌↔◌, refl, ap, ◌∙◌, sym, Bool, true, false, false≢true, ◌||◌,
  Option, none, some, List, [], ◌∷◌, ◌++◌, ℤ, pos, negsuc, is_zero, if◌then◌else◌, ◌==◌, arith,
  get_or, set, ==_iff, Bool-cases, inl, inr,
}
use mini_dropbox.UserMap.{
  Uuid, Chain, UserMap, hash, hash_from, hash_step, put_at, umap_put, umap_get, get_at, find_from,
  u64_mod,
}
use mini_dropbox.UserMap.Invariant.{
  IsValid, Belong, home, bucket, index_lem, bucket_lem, appended, appended-IsValid,
  link_last-append, get_or-set, home-lt,
}

-- The djb2 hash without bounds: hash * 33 + c for each byte.
unfoldable pub djb2 : ℕ → List ℕ → ℕ
djb2 acc [] = acc
djb2 acc (c ∷ str) = djb2 (acc * 33 + c) str

hash_from-djb2 : (str : List ℕ) (acc : ℕ) → hash_from (acc % u64_mod) str ≡ djb2 acc str % u64_mod
unfolding hash_from djb2
hash_from-djb2 [] acc = refl
hash_from-djb2 (c ∷ str) acc = ap (λ h. hash_from h str) step ∙ hash_from-djb2 str (acc * 33 + c)
  where
    step : hash_step (acc % u64_mod) c ≡ (acc * 33 + c) % u64_mod
    step = unfold hash_step in omega arith

-- The code's shift-and-add hash is the unbounded djb2 hash reduced modulo 2 ^ 64.
pub hash-djb2 : (str : List ℕ) → hash str ≡ djb2 5381 str % u64_mod
unfolding hash
hash-djb2 str = hash_from-djb2 str 5381

-- The value that `umap_get` stores for a key it finds: that of the first entry of the chain.
unfoldable pub first_value {ℓ} : {V : Type ℓ} → Chain V → Option V
first_value [] = none
first_value (e ∷ es) = some e.value

module _ {ℓ} {V : Type ℓ} (compare : Uuid → Uuid → ℤ) where
  -- Some entry of a chain has the key.
  unfoldable pub has : Uuid → Chain V → Bool
  has key [] = false
  has key (e ∷ es) = is_zero (compare e.key key) || has key es

  -- Some entry of some chain has the key.
  unfoldable pub stored : Uuid → List (Chain V) → Bool
  stored key [] = false
  stored key (c ∷ cs) = has key c || stored key cs

  find_from-has :
      (first : V) (c : Chain V) (key : Uuid)
      → find_from compare first c key
        ≡ (if has key c then (pos 0, some first) else (negsuc 0, none))
  unfolding find_from has
  find_from-has first [] key = refl
  find_from-has first (e ∷ es) key = ground (arith, find_from-has first es key)

  get_at-has :
      (c : Chain V) (key : Uuid)
      → get_at compare c key ≡ (if has key c then (pos 0, first_value c) else (negsuc 0, none))
  unfolding get_at has first_value
  get_at-has [] key = refl
  get_at-has (e ∷ es) key = ground (arith, find_from-has e.value (e ∷ es) key)

  has-append : (key : Uuid) (c d : Chain V) → has key (c ++ d) ≡ (has key c || has key d)
  unfolding has
  has-append key [] d = refl
  has-append key (e ∷ es) d = ground (arith, has-append key es d)

  -- In a valid table the lookup runs on the key's chain.
  pub umap_get-has :
      (map : UserMap V)
      → IsValid map
      → (key : Uuid)
      → umap_get compare map key
        ≡ some (
            if has key (bucket map key)
            then (pos 0, first_value (bucket map key))
            else (negsuc 0, none))
  unfolding umap_get
  umap_get-has map valid key =
      rw (index_lem map valid key, bucket_lem map valid key)
        (ap some (get_at-has (bucket map key) key))

  -- The first entry of a chain has the key.
  abbrev pub first_has : Uuid → Chain V → Bool
  first_has key [] = false
  first_has key (e ∷ es) = is_zero (compare e.key key)

  put_at_lem :
      (map : UserMap V) (idx : ℕ) (c : Chain V) (key : Uuid) (value : V)
      → put_at compare (record { key = key; value = value } ∷ []) map idx c key ≡ (
          if first_has key c then (negsuc 0, map) else (
            pos 0,
            record map {
              entries = set map.entries idx (c ++ record { key = key; value = value } ∷ []);
              count = map.count + 1;
            },
          ))
  unfolding put_at
  put_at_lem map idx [] key value = refl
  put_at_lem map idx (e ∷ es) key value = rw (link_last-append {V = V}) refl

  -- `umap_put`, with `next` of the new entry NULL, on every branch: -1 and no change if the
  -- first entry of the chain has the key, else 0 and a new entry at the end of the chain.
  pub umap_put_lem :
      (map : UserMap V)
      → IsValid map
      → (key : Uuid) (value : V)
      → umap_put compare [] map key value
        ≡ some (
            if first_has key (bucket map key)
            then (negsuc 0, map)
            else (pos 0, appended map key value))
  unfolding umap_put
  umap_put_lem map valid key value =
      rw (index_lem map valid key, bucket_lem map valid key)
        (ap some (put_at_lem map (home map key) (bucket map key) key value))

  first_value-append :
      (q : Uuid) (c d : Chain V) → has q c ≡ true → first_value (c ++ d) ≡ first_value c
  unfolding has first_value
  first_value-append q [] d h = cc
  first_value-append q (e ∷ es) d h = refl

  bucket-appended :
      (map : UserMap V) (valid : IsValid map) (key q : Uuid) (value : V)
      → bucket (appended map key value) q ≡ (
          if home map key == home map q
          then bucket map key ++ record { key = key; value = value } ∷ []
          else bucket map q)
  bucket-appended map valid key q value =
      get_or-set map.entries (home map key) (home map q) _ [] (home-lt map valid key)

  home_eq : (map : UserMap V) (key q : Uuid) → key ≡ q → (home map key == home map q) ≡ true
  home_eq map key q e = rw e ((==_iff _ _).1 refl)

  bucket_eq :
      (map : UserMap V) (key q : Uuid)
      → (home map key == home map q) ≡ true
      → bucket map key ≡ bucket map q
  bucket_eq map key q e = ap (λ i. get_or map.entries i []) ((==_iff _ _).0 e)

  module _ (same : (a b : Uuid) → (is_zero (compare a b) ≡ true) ↔ (a ≡ b)) where
    has-Belong :
        (k i : ℕ) (c : Chain V) (key : Uuid) → Belong k i c → has key c ≡ true → hash key % k ≡ i
    unfolding has
    has-Belong k i [] key b h = cc
    has-Belong k i (e ∷ es) key b h = elim (Bool-cases (is_zero (compare e.key key))) [
      | inl t ↦ rw ((same e.key key).0 t) at b.0
      | inr f ↦ has-Belong k i es key b.1 (rw f at h)
    ]

    -- A key in any chain of a valid table is in the chain that is searched for it.
    has-stored :
        (k i : ℕ) (cs : List (Chain V)) (key : Uuid)
        → ((j : ℕ) → Belong k (i + j) (get_or cs j []))
        → stored key cs ≡ true
        → (j : ℕ) × (hash key % k ≡ i + j) × (has key (get_or cs j []) ≡ true)
    unfolding stored
    has-stored k i [] key b h = cc
    has-stored k i (c ∷ cs) key b h = elim (Bool-cases (has key c)) [
      | inl t ↦ (0, has-Belong k (i + 0) c key (b 0) t, t)
      | inr f ↦
          let shift : (j : ℕ) → i + 1 + j ≡ i + suc j = λ j. omega arith in
          let (j, e, t) = has-stored k (i + 1) cs key (λ j. rw (shift j) (b (suc j))) (rw f at h) in
          (suc j, omega arith, t)
    ]

    stored-has :
        (cs : List (Chain V)) (j : ℕ) (key : Uuid)
        → has key (get_or cs j []) ≡ true
        → stored key cs ≡ true
    unfolding stored has
    stored-has [] j key h = cc
    stored-has (c ∷ cs) zero key h = rw h
    stored-has (c ∷ cs) (suc j) key h = ground (arith, stored-has cs j key h)

    stored-bucket :
        (map : UserMap V)
        → IsValid map
        → (key : Uuid) → stored key map.entries ≡ has key (bucket map key)
    stored-bucket map valid key = elim (Bool-cases (has key (bucket map key))) [
      | inl t ↦ stored-has map.entries (home map key) key t ∙ sym t
      | inr f ↦ elim (Bool-cases (stored key map.entries)) [
        | inr g ↦ g ∙ sym f
        | inl g ↦
            let (j, e, t) =
              has-stored map.capacity 0 map.entries key (λ j. rw (zero_add j) (valid.placed j)) g in
            absurd (false≢true (sym f ∙ rw (e ∙ zero_add j) t))
      ]
    ]
      where
        zero_add : (j : ℕ) → 0 + j ≡ j
        zero_add j = omega arith

    -- In a valid table, `umap_get` succeeds exactly when some entry of some chain has the key;
    -- what it stores is then the value of the first entry of the chain at the key's index.
    pub umap_get-stored :
        (map : UserMap V)
        → IsValid map
        → (key : Uuid)
        → umap_get compare map key
          ≡ some (
              if stored key map.entries
              then (pos 0, first_value (bucket map key))
              else (negsuc 0, none))
    umap_get-stored map valid key = rw (stored-bucket map valid key) (umap_get-has map valid key)

    -- The chain searched for `q` after the entry of `key` was linked in.
    find-appended :
        (map : UserMap V)
        → IsValid map
        → (key q : Uuid) (value : V)
        → let c = bucket (appended map key value) q in
          (has q c ≡ (is_zero (compare key q) || has q (bucket map q)))
          × (is_zero (compare key q) ≡ false
              → has q (bucket map q) ≡ true
              → first_value c ≡ first_value (bucket map q))
    unfolding has
    find-appended map valid key q value =
        rw (bucket-appended map valid key q value) (elim (Bool-cases (home map key == home map q)) [
          | inl e ↦
              let new : Chain V = record { key = key; value = value } ∷ [] in
              rw (e, bucket_eq map key q e)
                (
                  has-append q (bucket map q) new ∙ ground arith,
                  λ f h. first_value-append q (bucket map q) new h,
                )
          | inr e ↦ rw e (
            elim (Bool-cases (is_zero (compare key q))) [
              | inl t ↦ absurd (false≢true (sym e ∙ home_eq map key q ((same key q).0 t)))
              | inr f ↦ rw f
            ],
            λ f h. refl,
          )
        ])

    -- After a put that is accepted, with `next` of the new entry NULL, the invariant holds and the
    -- count is one more; `umap_get` of any other key returns what it returned before, and that of
    -- the new key succeeds, with the first value of its chain, the new entry standing last in it.
    pub umap_get-put :
        (map : UserMap V)
        → IsValid map
        → (key : Uuid) (value : V) → first_has key (bucket map key) ≡ false
        → (map' : UserMap V) × (umap_put compare [] map key value ≡ some (pos 0, map'))
          × IsValid map'
          × (map'.count ≡ map.count + 1)
          × ((q : Uuid)
              → umap_get compare map' q ≡ (
                  if is_zero (compare key q)
                  then some (
                    pos 0,
                    first_value (bucket map key ++ record { key = key; value = value } ∷ []),
                  )
                  else umap_get compare map q))
    umap_get-put map valid key value absent = (
      appended map key value,
      umap_put_lem map valid key value ∙ rw absent,
      appended-IsValid map valid key value,
      refl,
      λ q. get q,
    )
      where
        new : Chain V
        new = record { key = key; value = value } ∷ []

        get :
            (q : Uuid)
            → umap_get compare (appended map key value) q ≡ (
                if is_zero (compare key q)
                then some (pos 0, first_value (bucket map key ++ new))
                else umap_get compare map q)
        get q =
            let (h, fv) = find-appended map valid key q value in
            rw (umap_get-has (appended map key value) (appended-IsValid map valid key value) q)
              (elim (Bool-cases (is_zero (compare key q))) [
                | inl t ↦
                    let e : key ≡ q = (same key q).0 t in
                    rw (h, t, bucket-appended map valid key q value, home_eq map key q e)
                | inr f ↦ rw (h, f, umap_get-has map valid q) (ground (arith, fv f))
              ])
