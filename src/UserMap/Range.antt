-- ===== src/UserMap/Range.antt =====
-- The addresses that the table of src/user_map.c holds.
use mini_dropbox.Prelude.{
  ℕ, zero, suc, ◌<◌, ◌≡◌, refl, ◌∙◌, sym, Option, none, some, List, [], ◌∷◌, ◌++◌, ℤ, pos, negsuc,
  arith, get_or, set, replicate, Bool-cases, inl, inr,
}
use mini_dropbox.UserMap.{Uuid, Chain, UserMap, umap_init, umap_get, umap_put}
use mini_dropbox.UserMap.Invariant.{
  IsValid, home, bucket, appended, appended-IsValid, umap_init-IsValid,
}
use mini_dropbox.UserMap.Lookup.{first_value, has, first_has, umap_get-has, umap_put_lem}

-- All values of a chain, of all chains, are below a bound.
abbrev pub Below : ℕ → Chain ℕ → Type 0
Below n [] = Unit
Below n (e ∷ es) = (e.value < n) × Below n es

abbrev pub AllBelow : ℕ → List (Chain ℕ) → Type 0
AllBelow n [] = Unit
AllBelow n (c ∷ cs) = Below n c × AllBelow n cs

-- A valid table of addresses below a bound.
pub record InRange (n : ℕ) (map : UserMap ℕ) : Type 0 where
  pub valid : IsValid map
  pub below : AllBelow n map.entries

module _ (n : ℕ) where
  Below-suc : (c : Chain ℕ) → Below n c → Below (suc n) c
  Below-suc [] h = tt
  Below-suc (e ∷ es) h = (omega arith, Below-suc es h.1)

  AllBelow-suc : (cs : List (Chain ℕ)) → AllBelow n cs → AllBelow (suc n) cs
  AllBelow-suc [] h = tt
  AllBelow-suc (c ∷ cs) h = (Below-suc c h.0, AllBelow-suc cs h.1)

  Below-append : (c d : Chain ℕ) → Below n c → Below n d → Below n (c ++ d)
  Below-append [] d h g = g
  Below-append (e ∷ es) d h g = (h.0, Below-append es d h.1 g)

  Below-get_or : (cs : List (Chain ℕ)) (i : ℕ) → AllBelow n cs → Below n (get_or cs i [])
  Below-get_or [] i h = tt
  Below-get_or (c ∷ cs) zero h = h.0
  Below-get_or (c ∷ cs) (suc i) h = Below-get_or cs i h.1

  AllBelow-set :
      (cs : List (Chain ℕ)) (i : ℕ) (c : Chain ℕ)
      → AllBelow n cs
      → Below n c
      → AllBelow n (set cs i c)
  AllBelow-set [] i c h g = tt
  AllBelow-set (d ∷ cs) zero c h g = (g, h.1)
  AllBelow-set (d ∷ cs) (suc i) c h g = (h.0, AllBelow-set cs i c h.1 g)

  pub AllBelow-empty : (k : ℕ) → AllBelow n (replicate k [])
  AllBelow-empty zero = tt
  AllBelow-empty (suc k) = (tt, AllBelow-empty k)

pub umap_init-InRange : (n capacity : ℕ) → 0 < capacity → InRange n (umap_init ℕ capacity)
unfolding umap_init
umap_init-InRange n capacity room = record {
  valid = umap_init-IsValid capacity room;
  below = AllBelow-empty n capacity;
}

module _ (n : ℕ) (map : UserMap ℕ) where
  pub InRange-suc : InRange n map → InRange (suc n) map
  InRange-suc r = record { valid = r.valid; below = AllBelow-suc n map.entries r.below }

  -- A new entry for the next address.
  appended-InRange : (key : Uuid) → InRange n map → InRange (suc n) (appended map key n)
  appended-InRange key r = record {
    valid = appended-IsValid map r.valid key n;
    below = AllBelow-set (suc n) map.entries (home map key) _ (AllBelow-suc n map.entries r.below) (
        Below-append (suc n) (bucket map key) (record { key = key; value = n } ∷ [])
          (Below-suc n (bucket map key) (Below-get_or n map.entries (home map key) r.below))
          (omega arith, tt));
  }

module _ (compare : Uuid → Uuid → ℤ) (n : ℕ) (map : UserMap ℕ) (r : InRange n map) where
  -- Whatever branch `umap_put` takes, the table has addresses below the next bound.
  pub umap_put-InRange :
      (key : Uuid) (code : ℤ) (map' : UserMap ℕ)
      → umap_put compare [] map key n ≡ some (code, map')
      → InRange (suc n) map'
  umap_put-InRange key code map' e = elim (Bool-cases (first_has compare key (bucket map key))) [
    | inl there ↦
        moved map (negsuc 0) (InRange-suc n map r)
          (sym (umap_put_lem compare map r.valid key n ∙ rw there refl) ∙ e)
    | inr new ↦
        moved (appended map key n) (pos 0) (appended-InRange n map key r)
          (sym (umap_put_lem compare map r.valid key n ∙ rw new refl) ∙ e)
  ]
    where
      moved :
          (m : UserMap ℕ) (c : ℤ)
          → InRange (suc n) m
          → ◌≡◌ {A = Option (ℤ × UserMap ℕ)} (some (c, m)) (some (code, map'))
          → InRange (suc n) map'
      moved m c h p = coe 0 1 (i. InRange (suc n) (same p i)) h
        where
          same : ◌≡◌ {A = Option (ℤ × UserMap ℕ)} (some (c, m)) (some (code, map')) → m ≡ map'
          same q = cc

  -- `umap_get` finds nothing, or an address below the bound.
  pub umap_get-InRange :
      (key : Uuid)
      → (code : ℤ) × (value : Option ℕ) × (umap_get compare map key ≡ some (code, value))
        × ((p : ℕ) → value ≡ some p → p < n)
  unfolding first_value
  umap_get-InRange key = elim (Bool-cases (has compare key (bucket map key))) [
    | inl there ↦ (
      pos 0,
      first_value (bucket map key),
      umap_get-has compare map r.valid key ∙ rw there refl,
      first (bucket map key) (Below-get_or n map.entries (home map key) r.below),
    )
    | inr not_there ↦
        (negsuc 0, none, umap_get-has compare map r.valid key ∙ rw not_there refl, λ p e. cc)
  ]
    where
      first : (c : Chain ℕ) → Below n c → (p : ℕ) → first_value c ≡ some p → p < n
      first [] h p e = ground arith
      first (x ∷ c) h p e = ground arith
