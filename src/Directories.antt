-- ===== src/Directories.antt =====
-- `path_next_dir` and `create_directories_from_path` of src/util.c.
-- `none` is undefined behaviour in `normalize_path`.
pub mod Confined
pub mod Scanning
pub mod Making
mod Tests
use mini_dropbox.Prelude.{
  ℕ, zero, suc, ◌+◌, ◌-◌, Bool, true, false, ◌&&◌, Option, none, some, List, [], ◌∷◌, ◌++◌, ℤ, pos,
  negsuc, ◌>>=◌, if◌then◌else◌, ◌==◌, ltb, leb, starts_with, length, take, drop,
}
use mini_dropbox.FilePath.{slash, normalize_path}
use mini_dropbox.UserPath.{path_max, snprintf}
use mini_dropbox.Files.{Os, eexist}

-- The static variables. The NUL that cuts `path` at `curr_slash` is put back to a slash by the next
-- call; `path` is the string without it.
pub record NextDir : Type 0 where
  pub path : List ℕ
  pub curr_slash : ℤ

-- while ((path[i] != '/' || i <= skip_chars) && path[i] != '\0') i++, at the rest of the path
pub scan : ℕ → ℕ → List ℕ → ℕ
scan skip_chars i [] = i
scan skip_chars i (c ∷ rest) =
    let further = scan skip_chars (suc i) rest in
    if (c == slash) && ltb skip_chars i then i else further

-- The cut at `i`.
cut_at : NextDir → ℕ → Option (List ℕ) × NextDir
cut_at st i = (some (take i st.path), record st { curr_slash = pos i })

-- The part behind `if (full_path != NULL)`; -1 is the only negative `curr_slash`.
advance : ℕ → NextDir → Option (List ℕ) × NextDir
unfolding scan cut_at
advance skip_chars st = elim st.curr_slash [
  | negsuc n ↦ cut_at st (scan skip_chars 0 st.path)
  | pos n ↦
      if leb (length st.path) n
      then (none, st)
      else cut_at st (scan skip_chars (suc n) (drop (suc n) st.path))
]

unfoldable pub path_next_dir : Option (List ℕ) → ℕ → NextDir → Option (List ℕ) × NextDir
unfolding advance
path_next_dir none skip_chars st = advance skip_chars st
path_next_dir (some full_path) skip_chars st =
    advance skip_chars (record { path = full_path; curr_slash = negsuc 0 })

-- What follows a `mkdir`: an error other than EEXIST ends the loop with -3.
after_mkdir {ℓ} : {W : Type ℓ} → Option ℕ → W → Option ((ℤ × ℕ) × W) → Option ((ℤ × ℕ) × W)
after_mkdir none w rest = rest
after_mkdir (some errno) w rest = if errno == eexist then rest else some ((negsuc 2, errno), w)

module _ {W : Type 0} (os : Os W) where
  -- One round of the loop, with `more` for the rounds behind it.
  dirs_round :
      Option (List ℕ) × NextDir → W → (NextDir → W → Option ((ℤ × ℕ) × W)) → Option ((ℤ × ℕ) × W)
  unfolding after_mkdir
  dirs_round (none, st) w more = some ((pos 0, 0), w)
  dirs_round (some dir, st) w more =
      let made = os.mkdir dir w in after_mkdir made.0 made.1 (more st made.1)

  -- while ((dir = path_next_dir(NULL, 0)) != NULL): the code with its errno, and the file system
  make_dirs : ℕ → NextDir → W → Option ((ℤ × ℕ) × W)
  unfolding dirs_round
  make_dirs zero st w = none
  make_dirs (suc fuel) st w = dirs_round (path_next_dir none 0 st) w (make_dirs fuel)

  -- The directories below `root_dir` on a path: behind the first call, which skips the root.
  make_below : List ℕ → NextDir → List ℕ → W → Option ((ℤ × ℕ) × W)
  unfolding make_dirs
  make_below root_dir static path w =
      make_dirs (length path + 1) (path_next_dir (some path) (length root_dir - 1) static).1 w

  -- The code, the errno that it stands for if it is -3, and the file system.
  unfoldable pub create_directories_from_path :
      Bool → NextDir → List ℕ → List ℕ → W → Option ((ℤ × ℕ) × W)
  unfolding make_below
  create_directories_from_path allocated static root_dir user_path w = do
    normalized ← normalize_path allocated (some (snprintf path_max (root_dir ++ slash ∷ user_path)))
    elim normalized [
      | none ↦ some ((negsuc 0, 0), w)
      | some path ↦
          if starts_with root_dir path
          then make_below root_dir static path w
          else some ((negsuc 1, 0), w)
    ]
