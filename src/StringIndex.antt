-- ===== src/StringIndex.antt =====
-- `stridx` of src/util.c.
mod Tests
use mini_dropbox.Prelude.{
  ℕ, zero, suc, ◌≡◌, ◌≢◌, refl, ap, ◌∙◌, false, Option, none, some, List, [], ◌∷◌, ◌++◌, ℤ, pos,
  negsuc, if◌then◌else◌, ◌==◌, arith, length,
}

-- strchr(str, c) - str, for a `c` that is not NUL; NULL is `none`.
unfoldable pub strchr : List ℕ → ℕ → Option ℕ
strchr [] c = none
strchr (d ∷ str) c =
    let rest = strchr str c in
    if d == c then some 0 else elim rest [ none ↦ none | some n ↦ some (suc n) ]

-- -n
abbrev pub negated : ℕ → ℤ
negated zero = pos 0
negated (suc n) = negsuc n

-- str - p
unfoldable pub stridx : List ℕ → ℕ → ℤ
unfolding strchr
stridx str c = elim (strchr str c) [ none ↦ negsuc 0 | some n ↦ negated n ]

abbrev pub Lacks : ℕ → List ℕ → Type 0
Lacks c [] = Unit
Lacks c (d ∷ str) = (d ≢ c) × Lacks c str

strchr-first :
    (before rest : List ℕ) (c : ℕ)
    → Lacks c before
    → strchr (before ++ c ∷ rest) c ≡ some (length before)
unfolding strchr
strchr-first [] rest c h = ground arith
strchr-first (d ∷ before) rest c h = rw (other, strchr-first before rest c h.1) refl
  where
    other : (d == c) ≡ false
    other = ground arith

-- The result for a character that first stands at an index is that index with the opposite sign; at
-- index 1 it is the -1 that stands for an absent character.
pub stridx-first :
    (before rest : List ℕ) (c : ℕ)
    → Lacks c before
    → stridx (before ++ c ∷ rest) c ≡ negated (length before)
unfolding stridx
stridx-first before rest c h = rw (stridx, strchr-first before rest c h) refl
