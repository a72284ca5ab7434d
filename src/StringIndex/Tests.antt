-- ===== src/StringIndex/Tests.antt =====
-- A slash at index 1.
use mini_dropbox.Prelude.{codes, ◌≡◌, refl, negsuc, arith}
use mini_dropbox.FilePath.{slash}
use mini_dropbox.StringIndex.{stridx, stridx-first}

first_slash : stridx (codes "a/b") slash ≡ negsuc 0
first_slash = stridx-first (codes "a") (codes "b") slash (omega arith)

absent : stridx (codes "ab") slash ≡ negsuc 0
unfolding stridx
absent = refl
