-- ===== src/FilePath/Relative.antt =====
-- `normalize_path` of src/util.c on relative paths: the test that is to keep a leading "..".
use mini_dropbox.Prelude.{ℕ, ◌≡◌, refl, false, some, List, [], ◌∷◌}
use mini_dropbox.FilePath.{slash, dot, add_component}

-- In a relative path a ".." behind a ".." that was kept takes that one away again, whatever
-- stands in front of it, although going up from there needs both.
pub add_component-dots :
    (room : ℕ) (out : List ℕ)
    → add_component room false (dot ∷ dot ∷ []) (dot ∷ dot ∷ slash ∷ out) ≡ some out
unfolding add_component
add_component-dots room out = refl
