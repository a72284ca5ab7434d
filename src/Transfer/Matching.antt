-- ===== src/Transfer/Matching.antt =====
-- `checksums_match` of src/util.c on equal checksums.
use mini_dropbox.Prelude.{ℕ, zero, suc, ◌≡◌, ◌==◌, refl, true, some, List, [], ◌∷◌, arith, length}
use mini_dropbox.Transfer.{match_from, checksums_match}

match_from_self : (n : ℕ) (xs : List ℕ) → length xs ≡ n → match_from n xs xs ≡ some true
unfolding match_from
match_from_self zero [] e = refl
match_from_self zero (x ∷ xs) e = refl
match_from_self (suc n) [] e = absurd (omega arith)
match_from_self (suc n) (x ∷ xs) e = rw (same x, match_from_self n xs (omega arith)) refl
  where
    same : (k : ℕ) → (k == k) ≡ true
    same k = ground arith

-- A checksum of 32 bytes matches itself.
pub checksums_match_self : (xs : List ℕ) → length xs ≡ 32 → checksums_match xs xs ≡ some true
unfolding checksums_match
checksums_match_self xs e = match_from_self 32 xs e
