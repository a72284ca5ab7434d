-- ===== src/Prelude/Strings.antt =====
-- C strings as the bytes in front of the NUL, and `strcmp`, `strncmp`, `memcmp` against 0.
use Prim.Native.Char.{code}
use Prim.Native.String.{String}
use Prim.Native.Nat.{ℕ}
use mathlib.Core.Path.{◌≡◌, refl}
use mathlib.Core.Logic.{◌↔◌}
use mathlib.Core.Bool.{Bool, true, false, ◌&&◌}
use mathlib.Core.List.{List, [], ◌∷◌, ◌++◌}
use native.Mathlib.Omega.{arith}
use mini_dropbox.Prelude.Tests.{◌==◌}

-- The bytes of a literal, which is ASCII throughout.
abbrev pub codes : String → List ℕ
codes String.[] = []
codes (String.◌∷◌ c s) = code c ∷ codes s

-- Equality of two strings, as `strcmp(a, b) == 0` has it.
unfoldable pub bytes_eq : List ℕ → List ℕ → Bool
bytes_eq [] [] = true
bytes_eq [] (b ∷ bs) = false
bytes_eq (a ∷ xs) [] = false
bytes_eq (a ∷ xs) (b ∷ bs) = a == b && bytes_eq xs bs

pub bytes_eq_iff : (a b : List ℕ) → (bytes_eq a b ≡ true) ↔ (a ≡ b)
unfolding bytes_eq
bytes_eq_iff [] [] = (λ _. refl, λ _. refl)
bytes_eq_iff [] (b ∷ bs) = (λ h. cc, λ h. cc)
bytes_eq_iff (a ∷ xs) [] = (λ h. cc, λ h. cc)
bytes_eq_iff (a ∷ xs) (b ∷ bs) =
    (λ h. ground (arith, bytes_eq_iff xs bs), λ h. ground (arith, bytes_eq_iff xs bs))

-- `strncmp(p, s, strlen(p)) == 0`
unfoldable pub starts_with : List ℕ → List ℕ → Bool
starts_with [] s = true
starts_with (a ∷ p) [] = false
starts_with (a ∷ p) (b ∷ s) = a == b && starts_with p s

pub starts_with_iff : (p s : List ℕ) → (starts_with p s ≡ true) ↔ ((r : List ℕ) × (s ≡ p ++ r))
unfolding starts_with
starts_with_iff [] s = (λ h. (s, refl), λ h. refl)
starts_with_iff (a ∷ p) [] = (λ h. cc, λ h. cc h.1)
starts_with_iff (a ∷ p) (b ∷ s) = (
  λ h. let (r, e) = (starts_with_iff p s).0 (ground arith) in (r, ground arith),
  λ h. ground (arith, (starts_with_iff p s).1 (h.0, ground arith)),
)
