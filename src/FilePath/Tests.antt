-- ===== src/FilePath/Tests.antt =====
-- The tests of test/util.c, and the theorems on paths at concrete paths.
use mini_dropbox.Prelude.{codes, ◌≡◌, refl, true, some, ◌∷◌}
use mini_dropbox.FilePath.{slash, is_absolute_path, normalize_path}
use mini_dropbox.FilePath.Spec.{components, walk, next, show, path_of}
use mini_dropbox.FilePath.Normalize.{destination, normalize_path-absolute}

program : Unit {0}
unfolding normalize_path components walk next show path_of is_absolute_path
program = tt

skips_dot :
    normalize_path true (some (codes "/usr/./hello/world.txt"))
    ≡ some (some (codes "/usr/hello/world.txt"))
unfolding program
skips_dot = refl

goes_up :
    normalize_path true (some (codes "/usr/../hello/world.txt"))
    ≡ some (some (codes "/hello/world.txt"))
unfolding program
goes_up = refl

-- A step up at the end leaves a slash, which a second run takes away.
not_idempotent :
    (normalize_path true (some (codes "/a/b/..")) ≡ some (some (codes "/a/")))
    × (normalize_path true (some (codes "/a/")) ≡ some (some (codes "/a")))
unfolding program
not_idempotent = (refl, refl)

two_up_relative : normalize_path true (some (codes "../..")) ≡ some (some (codes "."))
unfolding program
two_up_relative = refl

normalize_path-absolute_example :
    normalize_path true (some (slash ∷ codes "a/../../b//./c"))
    ≡ some (some (show (destination (slash ∷ codes "a/../../b//./c"))))
normalize_path-absolute_example = normalize_path-absolute (codes "a/../../b//./c")
