-- ===== src/Directories/Scanning.antt =====
-- How `path_next_dir` of src/util.c goes from name to name along a path.
use mini_dropbox.Prelude.{
  ℕ, suc, ◌+◌, ◌<◌, ◌≡◌, sym, ap, ◌∙◌, true, false, ◌&&◌, none, some, List, [], ◌∷◌, ◌++◌, ◌==◌,
  ltb, lt→ltb, leb, take-prefix, drop-prefix, arith, length, length-append, take, drop,
  append_assoc, append-nil,
}
use mini_dropbox.FilePath.{slash}
use mini_dropbox.FilePath.Spec.{path_of, NoSlash}
use mini_dropbox.Directories.{scan, cut_at, advance, path_next_dir}
use mini_dropbox.Directories.Confined.{cut_path}

-- A scan from behind a slash goes over a name, and stops at the next slash or at the end.
scan-name :
    (skip i : ℕ) (w : List ℕ) (ws : List (List ℕ))
    → NoSlash w
    → skip < i
    → scan skip i (w ++ path_of ws) ≡ i + length w
unfolding scan path_of
scan-name skip i [] [] n h = omega arith
scan-name skip i [] (v ∷ ws) n h = rw (lt→ltb _ _ h) (omega arith)
scan-name skip i (c ∷ w) ws n h =
    rw n.0 (scan-name skip (suc i) w ws n.1 (omega arith) ∙ omega arith)

-- The first scan goes over the characters of the root, and stops at the slash behind them.
pub scan-root :
    (skip i : ℕ) (xs rest : List ℕ)
    → i + length xs ≡ suc skip
    → scan skip i (xs ++ slash ∷ rest) ≡ i + length xs
unfolding scan
scan-root skip i [] rest h = rw (past h) (omega arith)
  where
    past : i + 0 ≡ suc skip → ltb skip i ≡ true
    past h = ground arith
scan-root skip i (x ∷ xs) rest h =
    rw (before h) (scan-root skip (suc i) xs rest (omega arith) ∙ omega arith)
  where
    before : i + suc (length xs) ≡ suc skip → ((x == slash) && ltb skip i) ≡ false
    before h = ground arith

-- The next directory is the one whose name is next on the path.
pub next_dir :
    (path done n : List ℕ) (ws : List (List ℕ))
    → path ≡ done ++ path_of (n ∷ ws)
    → NoSlash n
    → path_next_dir none 0 (cut_path path (length done))
      ≡ (some (done ++ slash ∷ n), cut_path path (length (done ++ slash ∷ n)))
unfolding path_next_dir advance cut_at path_of
next_dir path done n ws e free =
    rw (inside, stop) (ap (λ d. (some d, cut_path path (length (done ++ slash ∷ n)))) cut)
  where
    inside : leb (length path) (length done) ≡ false
    inside = ground (arith, ap length e, length-append done (slash ∷ (n ++ path_of ws)))

    stop : scan 0 (suc (length done)) (drop (suc (length done)) path) ≡ length (done ++ slash ∷ n)
    stop =
        ap (scan 0 (suc (length done))) (
          ap (drop (suc (length done))) e
          ∙ drop-prefix done (slash ∷ (n ++ path_of ws)) 1 (suc (length done)) (omega arith))
        ∙ scan-name 0 (suc (length done)) n ws free (omega arith)
        ∙ omega (arith, length-append done (slash ∷ n))

    cut : take (length (done ++ slash ∷ n)) path ≡ done ++ slash ∷ n
    cut =
        ap (take (length (done ++ slash ∷ n)))
          (e ∙ sym (append_assoc done (slash ∷ n) (path_of ws)))
        ∙ take-prefix (done ++ slash ∷ n) (path_of ws)

pub no_dir :
    (path done : List ℕ)
    → path ≡ done ++ []
    → path_next_dir none 0 (cut_path path (length done)) ≡ (none, cut_path path (length done))
unfolding path_next_dir advance
no_dir path done e = rw (past (ap length (e ∙ append-nil done)))
  where
    past : length path ≡ length done → leb (length path) (length done) ≡ true
    past h = ground arith
