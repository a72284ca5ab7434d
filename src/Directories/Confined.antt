-- ===== src/Directories/Confined.antt =====
-- Which directories `create_directories_from_path` of src/util.c makes, and that its loop ends.
use mini_dropbox.Prelude.{
  ℕ, zero, suc, ◌+◌, ◌-◌, ◌≤◌, ◌<◌, ◌≡◌, refl, true, false, ◌&&◌, Option, none, some, List, [], ◌∷◌,
  ◌++◌, ℤ, pos, negsuc, if◌then◌else◌, ◌==◌, ltb, leb, arith, starts_with, length, take, drop,
  length-drop, Bool-cases, inl, inr,
}
use mini_dropbox.FilePath.{slash}
use mini_dropbox.FilePath.Spec.{show}
use mini_dropbox.FilePath.Normalize.{destination, normalize_path-absolute}
use mini_dropbox.Files.{Os, eexist}
use mini_dropbox.Directories.{
  NextDir, scan, cut_at, advance, path_next_dir, after_mkdir, dirs_round, make_dirs, make_below,
  create_directories_from_path,
}

-- A stop is not before the start, and not past the end.
scan-bounds :
    (skip i : ℕ) (rest : List ℕ) → (i ≤ scan skip i rest) × (scan skip i rest ≤ i + length rest)
unfolding scan
scan-bounds skip i [] = (omega arith, omega arith)
scan-bounds skip i (c ∷ rest) = elim (Bool-cases ((c == slash) && ltb skip i)) [
  | inl e ↦ rw e (omega arith, omega arith)
  | inr e ↦
      let (low, high) = scan-bounds skip (suc i) rest in
      rw e (omega (arith, low), omega (arith, high))
]

-- A stop is behind the characters that are skipped, or at the end.
scan-skips :
    (skip i k : ℕ) (rest : List ℕ) → k ≤ skip + 1 → k ≤ i + length rest → k ≤ scan skip i rest
unfolding scan
scan-skips skip i k [] h g = omega arith
scan-skips skip i k (c ∷ rest) h g = elim (Bool-cases ((c == slash) && ltb skip i)) [
  | inl e ↦ rw e (past e)
  | inr e ↦ rw e (scan-skips skip (suc i) k rest h (omega arith))
]
  where
    past : ((c == slash) && ltb skip i) ≡ true → k ≤ i
    past e = ground arith

starts_with-take :
    (root p : List ℕ) (i : ℕ)
    → starts_with root p ≡ true
    → length root ≤ i
    → starts_with root (take i p) ≡ true
unfolding starts_with
starts_with-take [] p i h g = refl
starts_with-take (r ∷ root) [] i h g = cc
starts_with-take (r ∷ root) (c ∷ p) zero h g = absurd (omega arith)
starts_with-take (r ∷ root) (c ∷ p) (suc i) h g = ground (arith, starts_with-take root p i)

starts_with-length : (root p : List ℕ) → starts_with root p ≡ true → length root ≤ length p
unfolding starts_with
starts_with-length [] p h = omega arith
starts_with-length (r ∷ root) [] h = cc
starts_with-length (r ∷ root) (c ∷ p) h = ground (arith, starts_with-length root p)

-- The state between two calls: the path, cut at `n`.
abbrev pub cut_path : List ℕ → ℕ → NextDir
cut_path path n = record { path = path; curr_slash = pos n }

-- A call past the end gives NULL; one before it cuts the path at a later place.
next-past :
    (path : List ℕ) (n : ℕ)
    → leb (length path) n ≡ true
    → path_next_dir none 0 (cut_path path n) ≡ (none, cut_path path n)
unfolding path_next_dir advance
next-past path n h = rw h

pub next_cut : List ℕ → ℕ → ℕ
next_cut path n = scan 0 (suc n) (drop (suc n) path)

pub next-within :
    (path : List ℕ) (n : ℕ)
    → leb (length path) n ≡ false
    → path_next_dir none 0 (cut_path path n)
      ≡ (some (take (next_cut path n) path), cut_path path (next_cut path n))
unfolding path_next_dir advance cut_at next_cut
next-within path n h = rw h

next_cut-later : (path : List ℕ) (n : ℕ) → n < next_cut path n
unfolding next_cut
next_cut-later path n = omega (arith, (scan-bounds 0 (suc n) (drop (suc n) path)).0)

next_cut-inside :
    (path : List ℕ) (n : ℕ) → leb (length path) n ≡ false → next_cut path n ≤ length path
unfolding next_cut
next_cut-inside path n h =
    let (low, high) = scan-bounds 0 (suc n) (drop (suc n) path) in
    omega (arith, high, length-drop (suc n) path, inside h)
  where
    inside : leb (length path) n ≡ false → n < length path
    inside h = ground arith

module _ {W : Type 0} (os : Os W) (root : List ℕ) (P : W → Type 0)
    (kept : (dir : List ℕ) (w : W) → starts_with root dir ≡ true → P w → P (os.mkdir dir w).1) where
  -- A result with the property.
  pub record Made (x : Option ((ℤ × ℕ) × W)) : Type 0 where
    pub result : ℤ × ℕ
    pub after : W
    pub returned : x ≡ some (result, after)
    pub holds : P after

  after_mkdir-Made :
      (r : Option ℕ) (v : W) (x : Option ((ℤ × ℕ) × W)) → P v → Made x → Made (after_mkdir r v x)
  unfolding after_mkdir
  after_mkdir-Made none v x p m = m
  after_mkdir-Made (some errno) v x p m = elim (Bool-cases (errno == eexist)) [
    | inl e ↦ rw e m
    | inr e ↦ rw e (record { result = (negsuc 2, errno); after = v; returned = refl; holds = p })
  ]

  make_dirs-Made :
      (fuel : ℕ) (path : List ℕ) (n : ℕ) (w : W)
      → starts_with root path ≡ true
      → length root ≤ n
      → n ≤ length path
      → length path < fuel + n
      → P w
      → Made (make_dirs os fuel (cut_path path n) w)
  unfolding make_dirs dirs_round
  make_dirs-Made zero path n w r h b f p = absurd (omega arith)
  make_dirs-Made (suc fuel) path n w r h b f p = elim (Bool-cases (leb (length path) n)) [
    | inl past ↦
        rw (make_dirs, next-past path n past)
          (record { result = (pos 0, 0); after = w; returned = refl; holds = p })
    | inr more ↦
        let i = next_cut path n in
        let later = next_cut-later path n in
        let inside = next_cut-inside path n more in
        let dir = take i path in
        let p' = kept dir w (starts_with-take root path i r (omega arith)) p in
        rw (make_dirs, next-within path n more)
          (after_mkdir-Made (os.mkdir dir w).0 (os.mkdir dir w).1 _ p'
            (make_dirs-Made fuel path i (os.mkdir dir w).1 r (omega arith) inside (omega arith) p'))
  ]

  make_below-Made :
      (static : NextDir) (path : List ℕ) (w : W)
      → starts_with root path ≡ true
      → P w
      → Made (make_below os root static path w)
  unfolding make_below path_next_dir advance cut_at
  make_below-Made static path w r p =
      let i = scan (length root - 1) 0 path in
      let l = starts_with-length root path r in
      make_dirs-Made (length path + 1) path i w r
        (scan-skips (length root - 1) 0 (length root) path (omega arith) (omega arith))
        (omega (arith, (scan-bounds (length root - 1) 0 path).1)) (omega arith) p

  -- For a root that begins with a slash, `create_directories_from_path` returns, and makes only
  -- directories whose path begins with the root: a property of the file system that no such `mkdir`
  -- breaks still holds.
  pub create_directories_from_path-Made :
      (static : NextDir) (rest user_path : List ℕ) (w : W)
      → root ≡ slash ∷ rest
      → P w
      → Made (create_directories_from_path os true static root user_path w)
  unfolding create_directories_from_path
  create_directories_from_path-Made static rest user_path w e p =
      rw (e, normalize_path-absolute (take 4094 (rest ++ slash ∷ user_path)))
        (decide (show (destination (slash ∷ take 4094 (rest ++ slash ∷ user_path)))))
    where
      decide :
          (path : List ℕ)
          → Made (
              if starts_with root path
              then make_below os root static path w
              else some ((negsuc 1, 0), w))
      decide path = elim (Bool-cases (starts_with root path)) [
        | inl r ↦ rw r (make_below-Made static path w r p)
        | inr r ↦ rw r (record { result = (negsuc 1, 0); after = w; returned = refl; holds = p })
      ]
