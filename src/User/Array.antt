-- ===== src/User/Array.antt =====
-- Reads, writes and the exchange of neighbours in an array that is split at an index.
use mini_dropbox.Prelude.{
  ℕ, suc, ◌+◌, ◌≤◌, ◌≡◌, refl, ap, true, none, some, List, [], ◌∷◌, ◌++◌, leb, arith, get_elem?,
  set, length, length-append, append_assoc,
}
use mini_dropbox.User.{Slot, checked_set, swap, bubble}

pub get_elem?-middle :
    (xs : List Slot) (x : Slot) (ys : List Slot) → get_elem? (xs ++ x ∷ ys) (length xs) ≡ some x
get_elem?-middle [] x ys = refl
get_elem?-middle (z ∷ zs) x ys = get_elem?-middle zs x ys

get_elem?-next :
    (xs : List Slot) (x : Slot) (ys : List Slot)
    → get_elem? (xs ++ x ∷ ys) (suc (length xs)) ≡ get_elem? ys 0
get_elem?-next [] x ys = refl
get_elem?-next (z ∷ zs) x ys = get_elem?-next zs x ys

set-middle :
    (xs : List Slot) (x v : Slot) (ys : List Slot) → set (xs ++ x ∷ ys) (length xs) v ≡ xs ++ v ∷ ys
set-middle [] x v ys = refl
set-middle (z ∷ zs) x v ys = ap (◌∷◌ z) (set-middle zs x v ys)

set-next :
    (xs : List Slot) (x y v : Slot) (ys : List Slot)
    → set (xs ++ x ∷ y ∷ ys) (suc (length xs)) v ≡ xs ++ x ∷ v ∷ ys
set-next [] x y v ys = refl
set-next (z ∷ zs) x y v ys = ap (◌∷◌ z) (set-next zs x y v ys)

in_range :
    (xs ys : List Slot) (n : ℕ) → n ≤ length xs + length ys → leb n (length (xs ++ ys)) ≡ true
in_range xs ys n h = ground (arith, length-append xs ys)

pub checked_set-middle :
    (xs : List Slot) (x v : Slot) (ys : List Slot)
    → checked_set (xs ++ x ∷ ys) (length xs) v ≡ some (xs ++ v ∷ ys)
unfolding checked_set
checked_set-middle xs x v ys =
    rw (in_range xs (x ∷ ys) (suc (length xs)) (omega arith), set-middle xs x v ys)

checked_set-next :
    (xs : List Slot) (x y v : Slot) (ys : List Slot)
    → checked_set (xs ++ x ∷ y ∷ ys) (suc (length xs)) v ≡ some (xs ++ x ∷ v ∷ ys)
unfolding checked_set
checked_set-next xs x y v ys =
    rw (in_range xs (x ∷ y ∷ ys) (suc (suc (length xs))) (omega arith), set-next xs x y v ys)

swap-middle :
    (xs : List Slot) (x y : Slot) (ys : List Slot)
    → swap (xs ++ x ∷ y ∷ ys) (length xs) ≡ some (xs ++ y ∷ x ∷ ys)
unfolding swap
swap-middle xs x y ys =
    rw (get_elem?-middle xs x (y ∷ ys), get_elem?-next xs x (y ∷ ys))
      (rw (checked_set-middle xs x y (y ∷ ys)) (checked_set-next xs y y x ys))

swap-last : (xs : List Slot) (x : Slot) → swap (xs ++ x ∷ []) (length xs) ≡ none
unfolding swap
swap-last xs x = rw (get_elem?-middle xs x [], get_elem?-next xs x [])

-- One step to the right of a split.
pub shift : (xs : List Slot) (x : Slot) (ys : List Slot) → (xs ++ x ∷ []) ++ ys ≡ xs ++ x ∷ ys
shift xs x ys = append_assoc xs (x ∷ []) ys

pub length-snoc : (xs : List Slot) (x : Slot) → length (xs ++ x ∷ []) ≡ suc (length xs)
length-snoc xs x = omega (arith, length-append xs (x ∷ []))

-- The exchanges carry an element past those that follow it, and past one more.
pub bubble_lem :
    (xs : List Slot) (x : Slot) (ys : List Slot) (z : Slot) (zs : List Slot)
    → bubble (xs ++ x ∷ (ys ++ z ∷ zs)) (suc (length ys)) (length xs)
      ≡ some (xs ++ (ys ++ z ∷ x ∷ zs))
unfolding bubble
bubble_lem xs x [] z zs = rw (swap-middle xs x z zs)
bubble_lem xs x (y ∷ ys) z zs = rw (swap-middle xs x y (ys ++ z ∷ zs)) (
    let ih = bubble_lem (xs ++ y ∷ []) x ys z zs in
    rw (shift xs y (x ∷ (ys ++ z ∷ zs)), shift xs y (ys ++ z ∷ x ∷ zs), length-snoc xs y) at ih)

-- With nothing behind them, the last exchange reads past the array.
pub bubble-overflow :
    (xs : List Slot) (x : Slot) (ys : List Slot)
    → bubble (xs ++ x ∷ ys) (suc (length ys)) (length xs) ≡ none
unfolding bubble
bubble-overflow xs x [] = rw (swap-last xs x)
bubble-overflow xs x (y ∷ ys) = rw (swap-middle xs x y ys) (
    let ih = bubble-overflow (xs ++ y ∷ []) x ys in
    rw (shift xs y (x ∷ ys), length-snoc xs y) at ih)
