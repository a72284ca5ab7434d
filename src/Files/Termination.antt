-- ===== src/Files/Termination.antt =====
-- That `rm_r` of src/util.c ends.
use mini_dropbox.Prelude.{
  ℕ, zero, suc, ◌<◌, ◌≡◌, refl, false, Option, some, List, [], ◌∷◌, ◌++◌, arith, Bool-cases, inl,
  inr, ◌⊎◌, ◌>>=◌,
}
use mini_dropbox.FilePath.{slash}
use mini_dropbox.UserPath.{path_max, snprintf}
use mini_dropbox.Files.{Os, FileKind, regular, directory, other_kind, is_dots, rm_entries, rm_r}

-- Every entry that is visited lies at a path of less depth than `d`.
abbrev pub Shallower : (List ℕ → ℕ) → ℕ → List ℕ → List (List ℕ × FileKind) → Type 0
Shallower depth d path [] = Unit
Shallower depth d path ((name, kind) ∷ entries) =
    (is_dots name ≡ false → depth (snprintf path_max (path ++ slash ∷ name)) < d)
    × Shallower depth d path entries

module _ {W : Type 0} (os : Os W) (depth : List ℕ → ℕ) where
  -- A removal that returns at paths of less depth than `d`.
  abbrev ReturnsBelow : ℕ → (List ℕ → W → Option (Option ℕ × W)) → Type 0
  ReturnsBelow d rm =
      (path : List ℕ) (w : W) → depth path < d → (r : Option ℕ × W) × (rm path w ≡ some r)

  chain_some :
      {A B : Type 0} (m : Option A) (f : A → Option B) (a : A) {b : B}
      → m ≡ some a
      → f a ≡ some b
      → (m >>= f) ≡ some b
  chain_some m f a e g = rw e g

  rm_entries_returns :
      (rm : List ℕ → W → Option (Option ℕ × W)) (d : ℕ)
      → ReturnsBelow d rm
      → (path : List ℕ) (entries : List (List ℕ × FileKind)) (w : W)
      → Shallower depth d path entries
      → (v : W) × (rm_entries os rm path entries w ≡ some v)
  unfolding rm_entries
  rm_entries_returns rm d k path [] w s = (w, refl)
  rm_entries_returns rm d k path ((name, kind) ∷ entries) w s = elim (Bool-cases (is_dots name)) [
    | inl dots ↦ let (v, e) = rm_entries_returns rm d k path entries w s.1 in (v, rw dots e)
    | inr entry ↦
        let below = snprintf path_max (path ++ slash ∷ name) in
        let (r, e) = k below w (s.0 entry) in
        let (v, f) = rm_entries_returns rm d k path entries r.1 s.1 in
        (v, rw entry (chain_some (rm below w) (λ q. rm_entries os rm path entries q.1) r e f))
  ]

  module _
      (shallower : (path : List ℕ) (w : W) (size : ℕ) (entries : List (List ℕ × FileKind))
        → os.lstat path w ≡ inr (directory, size)
        → os.opendir path w ≡ inr entries
        → Shallower depth (depth path) path entries) where
    visit :
        (rm : List ℕ → W → Option (Option ℕ × W)) (path : List ℕ) (w : W)
        → ReturnsBelow (depth path) rm
        → (x : ℕ ⊎ (FileKind × ℕ)) (y : ℕ ⊎ List (List ℕ × FileKind)) → os.lstat path w ≡ x
        → os.opendir path w ≡ y
        → (r : Option ℕ × W) × ((elim x as (λ _. Option (Option ℕ × W)) [
          | inl e ↦ some (some e, w)
          | inr (regular, size) ↦ some (os.unlink path w)
          | inr (other_kind, size) ↦ some (os.unlink path w)
          | inr (directory, size) ↦ elim y as (λ _. Option (Option ℕ × W)) [
            | inl e ↦ some (some e, w)
            | inr entries ↦ rm_entries os rm path entries w >>= λ v. some (os.rmdir path v)
          ]
        ])
            ≡ some r)
    visit rm path w k (inl n) y e f = ((some n, w), refl)
    visit rm path w k (inr (regular, size)) y e f = (os.unlink path w, refl)
    visit rm path w k (inr (other_kind, size)) y e f = (os.unlink path w, refl)
    visit rm path w k (inr (directory, size)) (inl n) e f = ((some n, w), refl)
    visit rm path w k (inr (directory, size)) (inr entries) e f =
        let (v, g) =
          rm_entries_returns rm (depth path) k path entries w (shallower path w size entries e f) in
        (
          os.rmdir path v,
          chain_some (rm_entries os rm path entries w) (λ v. some (os.rmdir path v)) v g refl,
        )

    -- If the entries of every directory lie at paths of less depth than the directory, at every time,
    -- then `rm_r` returns, on any fuel above the depth of its path.
    pub rm_r_returns :
        (fuel : ℕ) (path : List ℕ) (w : W)
        → depth path < fuel
        → (r : Option ℕ × W) × (rm_r os fuel path w ≡ some r)
    unfolding rm_r
    rm_r_returns zero path w h = absurd (omega arith)
    rm_r_returns (suc fuel) path w h =
        visit (rm_r os fuel) path w (λ q v g. rm_r_returns fuel q v (omega arith)) (os.lstat path w)
          (os.opendir path w) refl refl
