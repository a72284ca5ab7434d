-- ===== src/Directories/Making.antt =====
-- The directories that `create_directories_from_path` of src/util.c makes for a path of names.
use mini_dropbox.Prelude.{
  ℕ, zero, suc, ◌+◌, ◌-◌, ◌≤◌, ◌<◌, ◌≡◌, refl, sym, ap, ◌∙◌, true, none, some, List, [], ◌∷◌, ◌++◌,
  ℤ, codes, pos, ◌⊎◌, inl, inr, Option, arith, starts_with, starts_with_iff, length, length-append,
  take, append_assoc, append-nil,
}
use mini_dropbox.FilePath.{slash, normalize_path}
use mini_dropbox.FilePath.Spec.{show, path_of, IsName, AllNames, AllNames-append}
use mini_dropbox.FilePath.Names.{show-destination}
use mini_dropbox.FilePath.Normalize.{path_of-append, destination, normalize_path-absolute}
use mini_dropbox.UserMap.{Uuid}
use mini_dropbox.UserPath.{path_max, storage_dir, snprintf, get_user_root}
use mini_dropbox.UserPath.Containment.{storage, storage-AllNames}
use mini_dropbox.Files.{Os, eexist}
use mini_dropbox.Directories.{
  NextDir, scan, cut_at, advance, path_next_dir, after_mkdir, dirs_round, make_dirs, make_below,
  create_directories_from_path,
}
use mini_dropbox.Directories.Confined.{cut_path}
use mini_dropbox.Directories.Scanning.{scan-root, next_dir, no_dir}

-- w₁/w₂/…
abbrev pub relative : List (List ℕ) → List ℕ
relative [] = []
relative (w ∷ ws) = w ++ path_of ws

take-within : (n : ℕ) (xs : List ℕ) → length xs ≤ n → take n xs ≡ xs
take-within zero [] h = refl
take-within zero (x ∷ xs) h = absurd (omega arith)
take-within (suc n) [] h = refl
take-within (suc n) (x ∷ xs) h = ap (◌∷◌ x) (take-within n xs (omega arith))

module _ {W : Type 0} (os : Os W) where
  -- `mkdir` of each name in turn, each below the one before: the first below `above`. Each call
  -- succeeds, or finds that the directory is there.
  unfoldable pub Makes : List ℕ → List (List ℕ) → W → W → Type 0
  Makes above [] w v = w ≡ v
  Makes above (n ∷ ns) w v =
      (((os.mkdir (above ++ slash ∷ n) w).0 ≡ none)
        ⊎ ((os.mkdir (above ++ slash ∷ n) w).0 ≡ some eexist))
      × Makes (above ++ slash ∷ n) ns (os.mkdir (above ++ slash ∷ n) w).1 v

  after_mkdir-on :
      (r : Option ℕ) (w : W) (rest : Option ((ℤ × ℕ) × W))
      → (r ≡ none) ⊎ (r ≡ some eexist)
      → after_mkdir r w rest ≡ rest
  unfolding after_mkdir
  after_mkdir-on r w rest (inl e) = rw e
  after_mkdir-on r w rest (inr e) = rw e

  make_dirs-Makes :
      (ns : List (List ℕ)) (fuel : ℕ) (path done : List ℕ) (w v : W)
      → path ≡ done ++ path_of ns
      → AllNames ns
      → length ns < fuel
      → Makes done ns w v
      → make_dirs os fuel (cut_path path (length done)) w ≡ some ((pos 0, 0), v)
  unfolding Makes make_dirs dirs_round path_of
  make_dirs-Makes ns zero path done w v e a h m = absurd (omega arith)
  make_dirs-Makes [] (suc fuel) path done w v e a h m =
      rw (make_dirs, no_dir path done e) (ap (λ x. some ((pos 0, 0), x)) m)
  make_dirs-Makes (n ∷ ns) (suc fuel) path done w v e a h m =
      rw (make_dirs, next_dir path done n ns e a.0.no_slash)
        (after_mkdir-on (os.mkdir (done ++ slash ∷ n) w).0 _ _ m.0
          ∙ make_dirs-Makes ns fuel path (done ++ slash ∷ n) _ v
              (e ∙ sym (append_assoc done (slash ∷ n) (path_of ns))) a.1 (omega arith) m.1)

  length-path_of : (ns : List (List ℕ)) → length ns ≤ length (path_of ns)
  unfolding path_of
  length-path_of [] = omega arith
  length-path_of (n ∷ ns) = omega (arith, length-path_of ns, length-append n (path_of ns))

  make_below-Makes :
      (static : NextDir) (root n : List ℕ) (ns : List (List ℕ)) (w v : W)
      → 0 < length root
      → AllNames (n ∷ ns)
      → Makes root (n ∷ ns) w v
      → make_below os root static (root ++ path_of (n ∷ ns)) w ≡ some ((pos 0, 0), v)
  unfolding make_below path_next_dir advance cut_at path_of
  make_below-Makes static root n ns w v h a m =
      let stop : scan (length root - 1) 0 (root ++ slash ∷ (n ++ path_of ns)) ≡ length root =
        scan-root (length root - 1) 0 root (n ++ path_of ns) (omega arith) ∙ omega arith in
      rw stop (
        make_dirs-Makes (n ∷ ns) _ (root ++ path_of (n ∷ ns)) root w v refl a
          (omega (arith, length-append root (path_of (n ∷ ns)), length-path_of (n ∷ ns))) m)

  -- For a root and a path of names that fit into PATH_MAX bytes: if each call of `mkdir` on the root
  -- and the first names, one more name each time, succeeds or finds the directory there, then
  -- `create_directories_from_path` makes just these calls, in this order, and returns 0.
  pub create_directories_from_path-Makes :
      (static : NextDir) (r n : List ℕ) (rs ns : List (List ℕ)) (w v : W)
      → AllNames (r ∷ rs)
      → AllNames (n ∷ ns)
      → length (path_of (r ∷ rs)) + length (path_of (n ∷ ns)) < path_max
      → Makes (path_of (r ∷ rs)) (n ∷ ns) w v
      → create_directories_from_path os true static (path_of (r ∷ rs)) (relative (n ∷ ns)) w
        ≡ some ((pos 0, 0), v)
  unfolding create_directories_from_path
  create_directories_from_path-Makes static r n rs ns w v a b h m =
      rw (fits, normal)
        (rw root_first
          (make_below-Makes static (path_of (r ∷ rs)) n ns w v (unfold path_of in omega arith) b m))
    where
      us : List (List ℕ)
      us = rs ++ n ∷ ns

      whole : path_of (r ∷ us) ≡ path_of (r ∷ rs) ++ path_of (n ∷ ns)
      whole = path_of-append (r ∷ rs) (n ∷ ns)

      fits :
          snprintf path_max (path_of (r ∷ rs) ++ slash ∷ relative (n ∷ ns))
          ≡ path_of (r ∷ rs) ++ path_of (n ∷ ns)
      fits =
          unfold path_of in
          take-within 4095 (path_of (r ∷ rs) ++ path_of (n ∷ ns))
            (omega (arith, h, length-append (path_of (r ∷ rs)) (path_of (n ∷ ns))))

      absolute :
          normalize_path true (some (path_of (r ∷ us)))
          ≡ some (some (show (destination (path_of (r ∷ us)))))
      absolute = unfold path_of in normalize_path-absolute (r ++ path_of us)

      normal :
          normalize_path true (some (path_of (r ∷ rs) ++ path_of (n ∷ ns)))
          ≡ some (some (path_of (r ∷ rs) ++ path_of (n ∷ ns)))
      normal =
          ap (λ x. normalize_path true (some x)) (sym whole)
          ∙ absolute
          ∙ ap (λ x. some (some x))
              (show-destination r us (AllNames-append (r ∷ rs) (n ∷ ns) a b) ∙ whole)

      root_first : starts_with (path_of (r ∷ rs)) (path_of (r ∷ rs) ++ path_of (n ∷ ns)) ≡ true
      root_first =
          (starts_with_iff (path_of (r ∷ rs)) (path_of (r ∷ rs) ++ path_of (n ∷ ns))).1
            (path_of (n ∷ ns), refl)

  -- For the root of a user.
  pub user_dirs :
      (static : NextDir) (unparse : Uuid → List ℕ) (token : Uuid)
      → IsName (unparse token)
      → (path n : List ℕ) (ns : List (List ℕ)) (w v : W) → path ≡ relative (n ∷ ns)
      → AllNames (n ∷ ns)
      → length (storage_dir ++ slash ∷ unparse token) + suc (length path) < path_max
      → Makes (get_user_root unparse token) (n ∷ ns) w v
      → create_directories_from_path os true static (get_user_root unparse token) path w
        ≡ some ((pos 0, 0), v)
  user_dirs static unparse token printed path n ns w v shape names short makes =
      rw (shape, root)
        (create_directories_from_path-Makes static (codes "var") n
          (codes "minibox" ∷ unparse token ∷ []) ns w v (known.0, (known.1.0, (printed, tt))) names
          (unfold path_of in
            omega (arith, ap length (append-nil (unparse token)), ap length shape, short))
          (coe 0 1 (i. Makes (root i) (n ∷ ns) w v) makes))
    where
      known : AllNames storage
      known = storage-AllNames

      root :
          get_user_root unparse token ≡ path_of (codes "var" ∷ codes "minibox" ∷ unparse token ∷ [])
      root =
          unfold path_of get_user_root in
          take-within 4095 (storage_dir ++ slash ∷ unparse token) (omega (arith, short))
          ∙ ap (λ x. storage_dir ++ slash ∷ x) (sym (append-nil (unparse token)))
