-- ===== src/Files/Tests.antt =====
-- The theorems on files at a directory with one file in it, and at files of two sizes.
use mini_dropbox.Prelude.{
  bytes_eq_iff, Bool-cases, sym, false≢true, ◌⊎◌, ℕ, codes, Option, ◌+◌, ◌*◌, ◌^◌, ◌≡◌, ◌≤◌, ◌<◌,
  refl, true, none, some, List, [], ◌∷◌, if◌then◌else◌, arith, bytes_eq, starts_with, inl, inr,
}
use mini_dropbox.Files.{Os, FileKind, regular, directory, rm_r, count_chunks}
use mini_dropbox.Transfer.{chunk_size}
use mini_dropbox.Files.Termination.{Shallower, rm_r_returns}
use mini_dropbox.Files.Removal.{rm_r-Keeps}
use mini_dropbox.Files.Chunking.{count_chunks-exact, count_chunks-short}

program : Unit {0}
unfolding rm_r bytes_eq starts_with
program = tt

-- A file system that only logs the paths that are changed; "/d" is a directory with the file "a".
abbrev os : Os (List (List ℕ))
os = record {
  lstat = λ path w. if bytes_eq path (codes "/d") then inr (directory, 0) else inr (regular, 3);
  open_rdonly = λ path w. inl 2;
  opendir = λ path w. inr ((codes ".", directory) ∷ (codes "a", regular) ∷ []);
  mkdir = λ path w. (none, path ∷ w);
  unlink = λ path w. (none, path ∷ w);
  rmdir = λ path w. (none, path ∷ w);
}

-- Every path in a log begins with "/d".
abbrev Below : List (List ℕ) → Type 0
Below [] = Unit
Below (path ∷ w) = (starts_with (codes "/d") path ≡ true) × Below w

removes : rm_r os 3 (codes "/d") [] ≡ some (none, codes "/d" ∷ codes "/d/a" ∷ [])
unfolding program
removes = refl

itself : starts_with (codes "/d") (codes "/d") ≡ true
unfolding program
itself = refl

rm_r-Keeps_example : Below (codes "/d" ∷ codes "/d/a" ∷ [])
rm_r-Keeps_example =
    rm_r-Keeps os (codes "/d") Below (omega arith) (λ path w h p. (h, p)) (λ path w h p. (h, p)) 3
      (codes "/d") [] (codes "/d" ∷ codes "/d/a" ∷ []) none itself tt removes

count_chunks-exact_example :
    (8193 ≤ count_chunks 8193 * chunk_size) × (count_chunks 8193 * chunk_size < 8193 + chunk_size)
count_chunks-exact_example = count_chunks-exact 8193 (omega arith)

count_chunks-short_example : count_chunks (2 ^ 24 + 4096 * 2 + 1) * chunk_size ≡ 2 ^ 24 + 4096 * 2
count_chunks-short_example = count_chunks-short 2 (omega arith)

abbrev depth : List ℕ → ℕ
depth path = if bytes_eq path (codes "/d") then 1 else 0

listing : List (List ℕ × FileKind)
listing = (codes ".", directory) ∷ (codes "a", regular) ∷ []

listing-Shallower : Shallower depth (depth (codes "/d")) (codes "/d") listing
unfolding program listing
listing-Shallower = (λ h. absurd (false≢true (sym h)), ((λ h. omega arith), tt))

shallower :
    (path : List ℕ) (w : List (List ℕ)) (size : ℕ) (entries : List (List ℕ × FileKind))
    → os.lstat path w ≡ inr (directory, size)
    → os.opendir path w ≡ inr entries
    → Shallower depth (depth path) path entries
unfolding listing
shallower path w size entries e f = elim (Bool-cases (bytes_eq path (codes "/d"))) [
  | inl t ↦ coe 0 1 (i. Shallower depth (depth (at_d t i)) (at_d t i) (same f i)) listing-Shallower
  | inr n ↦ absurd (no (rw n at e))
]
  where
    at_d : bytes_eq path (codes "/d") ≡ true → codes "/d" ≡ path
    at_d t = sym ((bytes_eq_iff path (codes "/d")).0 t)

    same : ◌≡◌ {A = ℕ ⊎ List (List ℕ × FileKind)} (inr listing) (inr entries) → listing ≡ entries
    same x = cc

    no : ◌≡◌ {A = ℕ ⊎ (FileKind × ℕ)} (inr (regular, 3)) (inr (directory, size)) → ⊥
    no x = cc

depth_lt : depth (codes "/d") < 2
unfolding program
depth_lt = omega arith

rm_r_returns_example : (r : Option ℕ × List (List ℕ)) × (rm_r os 2 (codes "/d") [] ≡ some r)
rm_r_returns_example = rm_r_returns os depth shallower 2 (codes "/d") [] depth_lt
