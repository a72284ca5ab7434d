-- ===== src/Net/Whole.antt =====
-- `send_all` of src/msg.c when the kernel takes all bytes at once.
use mini_dropbox.Prelude.{
  ℕ, zero, suc, ◌≡◌, refl, ap, ap₂, ◌∙◌, List, [], ◌∷◌, ◌++◌, pos, arith, length, take, drop,
}
use mini_dropbox.Net.{SendOutcome, sent, Socket, ok, send_loop, send_all}

-- A send that the kernel takes in one piece.
pub send_all-once :
    (buf : List ℕ) (n : ℕ) (os : List SendOutcome) (s : Socket)
    → length buf ≡ suc n
    → s.outcomes ≡ sent (suc n) ∷ os
    → send_all buf s ≡ ok (pos 0, record s { outcomes = os; wire = s.wire ++ buf })
unfolding send_all send_loop
send_all-once [] n os s h e = absurd (omega arith)
send_all-once (b ∷ buf) n os s h e =
    ap (λ x. send_loop (b ∷ buf) x s) e
    ∙ ap₂ (λ d k. send_loop d os (record s { wire = s.wire ++ (b ∷ k) }))
        (drop-all n buf (omega arith)) (take-all n buf (omega arith))
  where
    drop-all : (n : ℕ) (xs : List ℕ) → length xs ≡ n → drop n xs ≡ []
    drop-all zero [] h = refl
    drop-all zero (x ∷ xs) h = absurd (omega arith)
    drop-all (suc n) [] h = refl
    drop-all (suc n) (x ∷ xs) h = drop-all n xs (omega arith)

    take-all : (n : ℕ) (xs : List ℕ) → length xs ≡ n → take n xs ≡ xs
    take-all zero [] h = refl
    take-all zero (x ∷ xs) h = absurd (omega arith)
    take-all (suc n) [] h = refl
    take-all (suc n) (x ∷ xs) h = ap (◌∷◌ x) (take-all n xs (omega arith))
