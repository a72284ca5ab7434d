-- ===== src/UserPath/Tests.antt =====
-- The theorems on user paths at a concrete token; here a token prints as 36 digits "0".
use mini_dropbox.Prelude.{
  ℕ, codes, ◌≡◌, refl, zero, suc, ◌==◌, true, false, none, some, List, [], ◌∷◌, ◌++◌, starts_with,
  arith, replicate, bytes_eq,
}
use mini_dropbox.UserMap.{Uuid}
use mini_dropbox.FilePath.{slash, normalize_path}
use mini_dropbox.FilePath.Spec.{NoSlash, AllNames, components, show, walk, next, path_of}
use mini_dropbox.UserPath.{storage_dir, get_user_root, get_user_path}
use mini_dropbox.UserPath.Containment.{
  IsToken, sibling, get_user_path-contained, get_user_path-sibling,
}

abbrev unparse : Uuid → List ℕ
unparse token = replicate 36 b'0'

NoSlash-replicate : (n c : ℕ) → c == slash ≡ false → NoSlash (replicate n c)
NoSlash-replicate zero c e = tt
NoSlash-replicate (suc n) c e = (e, NoSlash-replicate n c e)

printed : IsToken (unparse [])
unfolding bytes_eq
printed = record {
  size = refl;
  name = record {
    filled = refl;
    no_slash = NoSlash-replicate 36 b'0' refl;
    not_dot = refl;
    not_dots = refl;
  };
}

program : Unit {0}
unfolding bytes_eq starts_with normalize_path components show walk next path_of get_user_root
    get_user_path
program = tt

abbrev mine : List ℕ
mine = storage_dir ++ slash ∷ unparse []

stays : get_user_path unparse true (codes "docs/../a") [] ≡ some (some (mine ++ codes "/a"))
unfolding program
stays = refl

escapes : get_user_path unparse true (codes "../x") [] ≡ some none
unfolding program
escapes = refl

get_user_path-contained_example :
    (s : List ℕ) × (rest : List (List ℕ)) × (components (mine ++ codes "/a")
      ≡ codes "var" ∷ codes "minibox" ∷ (unparse [] ++ s) ∷ rest)
    × AllNames (components (mine ++ codes "/a"))
get_user_path-contained_example =
    get_user_path-contained unparse [] printed (codes "docs/../a") (mine ++ codes "/a") stays

get_user_path-sibling_example :
    get_user_path unparse true (codes "../" ++ sibling unparse [] printed (codes "x")) []
    ≡ some (some (storage_dir ++ slash ∷ sibling unparse [] printed (codes "x")))
get_user_path-sibling_example =
    get_user_path-sibling unparse [] printed (codes "x") (refl, tt) (omega arith)
