-- ===== src/Requests/Texts.antt =====
-- The C strings in the payloads that src/server.c and src/client.c read.
use mini_dropbox.Prelude.{ℕ, ◌≡◌, ◌≢◌, refl, some, List, [], ◌∷◌, ◌++◌, ◌==◌, false, arith}
use mini_dropbox.Requests.{before_nul, c_string}

abbrev pub NoNul : List ℕ → Type 0
NoNul [] = Unit
NoNul (c ∷ text) = (c ≢ 0) × NoNul text

module _ (rest : List ℕ) where
  before_nul_lem : (text : List ℕ) → NoNul text → before_nul (text ++ 0 ∷ rest) ≡ some text
  unfolding before_nul
  before_nul_lem [] h = refl
  before_nul_lem (c ∷ text) h = rw (other, before_nul_lem text h.1) refl
    where
      other : (c == 0) ≡ false
      other = ground arith

  -- A text without a NUL is read up to the NUL behind it.
  pub c_string_lem : (text : List ℕ) → NoNul text → c_string (some (text ++ 0 ∷ rest)) ≡ some text
  unfolding c_string
  c_string_lem text h = before_nul_lem text h
