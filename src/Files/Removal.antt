-- ===== src/Files/Removal.antt =====
-- What `rm_r` of src/util.c removes.
use mini_dropbox.Prelude.{
  ℕ, zero, suc, ◌-◌, ◌≤◌, ◌<◌, ◌≡◌, refl, true, Option, some, List, [], ◌∷◌, ◌++◌, arith,
  starts_with, length, take, Bool-cases, inl, inr, ◌⊎◌, ◌>>=◌, bind_some,
}
use mini_dropbox.FilePath.{slash}
use mini_dropbox.UserPath.{path_max, snprintf}
use mini_dropbox.Files.{Os, FileKind, regular, directory, other_kind, is_dots, rm_entries, rm_r}

-- What fits the buffer with `path` in front still begins with the root.
starts_with-snprintf :
    (root path more : List ℕ) (n : ℕ)
    → starts_with root path ≡ true
    → length root ≤ n
    → starts_with root (take n (path ++ more)) ≡ true
unfolding starts_with
starts_with-snprintf [] path more n h g = refl
starts_with-snprintf (r ∷ root) [] more n h g = cc
starts_with-snprintf (r ∷ root) (c ∷ path) more zero h g = absurd (omega arith)
starts_with-snprintf (r ∷ root) (c ∷ path) more (suc n) h g =
    ground (arith, starts_with-snprintf root path more n)

module _ {W : Type 0} (os : Os W) (root : List ℕ) (P : W → Type 0) (fits : length root < path_max)
    (unlinked : (path : List ℕ) (w : W)
      → starts_with root path ≡ true
      → P w
      → P (os.unlink path w).1)
    (emptied : (path : List ℕ) (w : W)
      → starts_with root path ≡ true
      → P w
      → P (os.rmdir path w).1) where
  -- A removal that keeps the property at every path that begins with the root.
  abbrev Keeps : (List ℕ → W → Option (Option ℕ × W)) → Type 0
  Keeps rm =
      (path : List ℕ) (w w' : W) (r : Option ℕ)
      → starts_with root path ≡ true
      → P w
      → rm path w ≡ some (r, w')
      → P w'

  rm_entries-Keeps :
      (rm : List ℕ → W → Option (Option ℕ × W))
      → Keeps rm
      → (path : List ℕ) (entries : List (List ℕ × FileKind)) (w w' : W)
      → starts_with root path ≡ true
      → P w
      → rm_entries os rm path entries w ≡ some w'
      → P w'
  unfolding rm_entries
  rm_entries-Keeps rm k path [] w w' h p e = coe 0 1 (i. P (same e i)) p
    where
      same : some w ≡ some w' → w ≡ w'
      same x = cc
  rm_entries-Keeps rm k path ((name, kind) ∷ entries) w w' h p e =
      elim (Bool-cases (is_dots name)) [
        | inl d ↦ rm_entries-Keeps rm k path entries w w' h p (rw d at e)
        | inr d ↦
            let below = snprintf path_max (path ++ slash ∷ name) in
            let ((r, v), e1, e2) =
              bind_some (rm below w) (λ r. rm_entries os rm path entries r.1) (rw d at e) in
            let q =
              k below w v r
                (starts_with-snprintf root path (slash ∷ name) (path_max - 1) h (omega arith)) p
                e1 in
            rm_entries-Keeps rm k path entries v w' h q e2
      ]

  -- what the last system call of a removal did
  after : (x : Option ℕ × W) (w' : W) (r : Option ℕ) → P x.1 → some x ≡ some (r, w') → P w'
  after x w' r p e = coe 0 1 (i. P (same e i)) p
    where
      same : some x ≡ some (r, w') → x.1 ≡ w'
      same y = cc

  module _ (rm : List ℕ → W → Option (Option ℕ × W)) (k : Keeps rm) (path : List ℕ) (w w' : W)
      (r : Option ℕ) (h : starts_with root path ≡ true) (p : P w) where
    listed :
        (x : ℕ ⊎ List (List ℕ × FileKind))
        → (elim x as (λ _. Option (Option ℕ × W)) [
          | inl e ↦ some (some e, w)
          | inr entries ↦ rm_entries os rm path entries w >>= λ v. some (os.rmdir path v)
        ])
          ≡ some (r, w')
        → P w'
    listed (inl n) e = after (some n, w) w' r p e
    listed (inr entries) e =
        let (v, e1, e2) =
          bind_some (rm_entries os rm path entries w) (λ v. some (os.rmdir path v)) e in
        after (os.rmdir path v) w' r
          (emptied path v h (rm_entries-Keeps rm k path entries w v h p e1)) e2

    by_kind :
        (x : ℕ ⊎ (FileKind × ℕ))
        → (elim x as (λ _. Option (Option ℕ × W)) [
          | inl e ↦ some (some e, w)
          | inr (regular, size) ↦ some (os.unlink path w)
          | inr (other_kind, size) ↦ some (os.unlink path w)
          | inr (directory, size) ↦ elim (os.opendir path w) [
            | inl e ↦ some (some e, w)
            | inr entries ↦ rm_entries os rm path entries w >>= λ v. some (os.rmdir path v)
          ]
        ])
          ≡ some (r, w')
        → P w'
    by_kind (inl n) e = after (some n, w) w' r p e
    by_kind (inr (regular, size)) e = after (os.unlink path w) w' r (unlinked path w h p) e
    by_kind (inr (other_kind, size)) e = after (os.unlink path w) w' r (unlinked path w h p) e
    by_kind (inr (directory, size)) e = listed (os.opendir path w) e

  -- Whatever `rm_r` meets, it unlinks and removes only what lies at paths that begin with a root
  -- that its path begins with: a property of the file system that no such removal breaks still
  -- holds when it returns, failed removals included.
  pub rm_r-Keeps :
      (fuel : ℕ) (path : List ℕ) (w w' : W) (r : Option ℕ)
      → starts_with root path ≡ true
      → P w
      → rm_r os fuel path w ≡ some (r, w')
      → P w'
  unfolding rm_r
  rm_r-Keeps zero path w w' r h p e = cc
  rm_r-Keeps (suc fuel) path w w' r h p e =
      by_kind (rm_r os fuel) (rm_r-Keeps fuel) path w w' r h p (os.lstat path w) e
