-- ===== src/Directories/Tests.antt =====
-- The theorem on `create_directories_from_path` at a path of two directories.
use mini_dropbox.Prelude.{
  ℕ, codes, ◌≡◌, refl, Bool, true, false, Option, none, some, List, [], ◌∷◌, pos, negsuc,
  if◌then◌else◌, bytes_eq, starts_with, inl, inr, ◌==◌, arith,
}
use mini_dropbox.FilePath.{
  slash, dot, push, copy, component, rewind_to_root, rewind, drop_last, up_absolute, ends_in_dot,
  separate, up_relative, separate_unless, add_component, normalize_loop, dot_if_empty, terminate,
  is_absolute_path, normalize_path,
}
use mini_dropbox.FilePath.Spec.{IsName, AllNames, path_of}
use mini_dropbox.Files.{Os, eexist}
use mini_dropbox.Directories.{NextDir, path_next_dir, create_directories_from_path}
use mini_dropbox.Directories.Confined.{Made, create_directories_from_path-Made}
use mini_dropbox.Directories.Making.{relative, Makes, create_directories_from_path-Makes}

program : Unit {0}
unfolding bytes_eq starts_with push copy component rewind_to_root rewind drop_last up_absolute
    ends_in_dot separate up_relative separate_unless add_component normalize_loop dot_if_empty
    terminate is_absolute_path normalize_path path_next_dir create_directories_from_path
program = tt

-- Logs the directories that are made; "/r/a" is there already.
abbrev os : Os (List (List ℕ))
os = record {
  lstat = λ path w. inl 2;
  open_rdonly = λ path w. inl 2;
  opendir = λ path w. inl 2;
  mkdir = λ path w. if bytes_eq path (codes "/r/a") then (some eexist, w) else (none, path ∷ w);
  unlink = λ path w. (none, w);
  rmdir = λ path w. (none, w);
}

abbrev static : NextDir
static = record { path = []; curr_slash = negsuc 0 }

abbrev Below : List (List ℕ) → Type 0
Below [] = Unit
Below (path ∷ w) = (starts_with (codes "/r") path ≡ true) × Below w

makes :
    create_directories_from_path os true static (codes "/r") (codes "a/./b/../c") []
    ≡ some ((pos 0, 0), codes "/r/a/c" ∷ [])
unfolding program
makes = refl

refuses :
    create_directories_from_path os true static (codes "/r") (codes "../s") []
    ≡ some ((negsuc 1, 0), [])
unfolding program
refuses = refl

logged :
    (path : List ℕ) (w : List (List ℕ))
    → starts_with (codes "/r") path ≡ true
    → Below w
    → Below (os.mkdir path w).1
logged path w h p = go (bytes_eq path (codes "/r/a"))
  where
    go :
        (b : Bool)
        → Below (if◌then◌else◌ {A = Option ℕ × List (List ℕ)} b (some eexist, w) (none, path ∷ w)).1
    go true = p
    go false = (h, p)

create_directories_from_path-Made_example :
    Made os
      (codes "/r")
      Below
      logged
      (create_directories_from_path os true static (codes "/r") (codes "a/./b/../c") [])
create_directories_from_path-Made_example =
    create_directories_from_path-Made os (codes "/r") Below logged static (codes "r")
      (codes "a/./b/../c") [] refl tt

-- A name of one letter.
letter : (c : ℕ) → c == slash ≡ false → bytes_eq (c ∷ []) (dot ∷ []) ≡ false → IsName (c ∷ [])
unfolding bytes_eq
letter c h d = record { filled = refl; no_slash = (h, tt); not_dot = d; not_dots = ground arith }

root_names : AllNames (codes "r" ∷ [])
root_names = (letter _ refl (unfold bytes_eq in refl), tt)

names : AllNames (codes "a" ∷ codes "c" ∷ [])
names = (letter _ refl (unfold bytes_eq in refl), (letter _ refl (unfold bytes_eq in refl), tt))

-- The first directory is there, and the second is made.
found_made : Makes os (codes "/r") (codes "a" ∷ codes "c" ∷ []) [] (codes "/r/a/c" ∷ [])
unfolding program Makes
found_made = (inr refl, (inl refl, refl))

root_path : path_of (codes "r" ∷ []) ≡ codes "/r"
unfolding path_of
root_path = refl

create_directories_from_path-Makes_example :
    create_directories_from_path os true static
      (path_of (codes "r" ∷ []))
      (relative (codes "a" ∷ codes "c" ∷ []))
      []
    ≡ some ((pos 0, 0), codes "/r/a/c" ∷ [])
unfolding path_of
create_directories_from_path-Makes_example =
    create_directories_from_path-Makes os static (codes "r") (codes "a") [] (codes "c" ∷ []) []
      (codes "/r/a/c" ∷ []) root_names names (omega arith) found_made
