-- ===== src/Exchange/PlainFile.antt =====
-- The file that `file_recv` of src/file.c writes, as bytes with the position of the descriptor that
-- `open(…, O_WRONLY | O_CREAT, …)` gives: at the start, with the old content kept, and each write
-- done in full.
use mini_dropbox.Prelude.{
  ℕ, zero, suc, ◌+◌, ◌-◌, ◌≡◌, refl, sym, ap, ap₂, ◌∙◌, some, List, [], ◌∷◌, ◌++◌, arith, length,
  length-append, take, drop, take-prefix, drop-prefix, replicate, append_assoc,
}
use mini_dropbox.Transfer.{FileOps}

pub record PlainFile : Type 0 where
  pub content : List ℕ
  pub position : ℕ

-- A write at the position replaces what stands there; a gap before it is filled with zeros.
abbrev pub write_at : List ℕ → PlainFile → PlainFile
write_at bytes f = record {
  content =
      take f.position f.content
      ++ (replicate (f.position - length f.content) 0
          ++ (bytes ++ drop (f.position + length bytes) f.content));
  position = f.position + length bytes;
}

abbrev pub plain : FileOps PlainFile
plain = record {
  lseek = λ offset f. some (record { content = f.content; position = offset });
  write = write_at;
}

-- A new descriptor on a file with this content.
abbrev pub opened : List ℕ → PlainFile
opened old = record { content = old; position = 0 }

-- All bytes of the blocks.
abbrev pub joined : List (List ℕ) → List ℕ
joined [] = []
joined (b ∷ bs) = b ++ joined bs

-- The file when the blocks are written one behind the other.
abbrev pub written {ℓ} : {File : Type ℓ} → (List ℕ → File → File) → List (List ℕ) → File → File
written write [] f = f
written write (b ∷ bs) f = written write bs (write b f)

-- A file that the descriptor has come through up to `before`, and not the rest.
abbrev passed : List ℕ → List ℕ → PlainFile
passed before rest = record { content = before ++ rest; position = length before }

drop-nil : (n : ℕ) → drop {A = ℕ} n [] ≡ []
drop-nil zero = refl
drop-nil (suc n) = refl

drop-drop : (xs : List ℕ) (n m k : ℕ) → k ≡ m + n → drop n (drop m xs) ≡ drop k xs
drop-drop xs n zero k e = ap (λ j. drop j xs) {y = k} (omega (arith, e))
drop-drop [] n (suc m) k e = drop-nil n ∙ sym (drop-nil k)
drop-drop (x ∷ xs) n (suc m) zero e = absurd (omega arith)
drop-drop (x ∷ xs) n (suc m) (suc k) e = drop-drop xs n m k (omega arith)

no_gap : (n : ℕ) → n ≡ 0 → replicate {A = ℕ} n 0 ≡ []
no_gap zero e = refl
no_gap (suc n) e = absurd (omega arith)

write_at-passed :
    (bytes before rest : List ℕ)
    → write_at bytes (passed before rest) ≡ passed (before ++ bytes) (drop (length bytes) rest)
write_at-passed bytes before rest =
    ap₂ (λ c p. record { content = c; position = p }) content (sym (length-append before bytes))
  where
    gap : replicate {A = ℕ} (length before - length (before ++ rest)) 0 ≡ []
    gap = no_gap _ (omega (arith, length-append before rest))

    content :
        take (length before) (before ++ rest)
          ++ (replicate (length before - length (before ++ rest)) 0
              ++ (bytes ++ drop (length before + length bytes) (before ++ rest)))
        ≡ (before ++ bytes) ++ drop (length bytes) rest
    content =
        rw (gap, take-prefix before rest, drop-prefix before rest (length bytes) _ refl)
          (sym (append_assoc before bytes (drop (length bytes) rest)))

-- Blocks that are written from there on replace as many bytes of the rest.
written-plain :
    (bs : List (List ℕ)) (before rest : List ℕ) (f : PlainFile)
    → f ≡ passed before rest
    → written write_at bs f ≡ record {
      content = before ++ (joined bs ++ drop (length (joined bs)) rest);
      position = length before + length (joined bs);
    }
written-plain [] before rest f e =
    e
    ∙ ap (λ p. record { content = before ++ rest; position = p }) {y = length before + 0}
        (omega arith)
written-plain (b ∷ bs) before rest f e =
    written-plain bs (before ++ b) (drop (length b) rest) (write_at b f)
      (ap (write_at b) e ∙ write_at-passed b before rest)
    ∙ ap₂ (λ c p. record { content = c; position = p }) content position
  where
    content :
        (before ++ b) ++ (joined bs ++ drop (length (joined bs)) (drop (length b) rest))
        ≡ before ++ ((b ++ joined bs) ++ drop (length (b ++ joined bs)) rest)
    content =
        rw (drop-drop rest (length (joined bs)) (length b) _ refl, length-append b (joined bs))
          (simp append_assoc)

    position : length (before ++ b) + length (joined bs) ≡ length before + length (b ++ joined bs)
    position = omega (arith, length-append before b, length-append b (joined bs))

pub written-opened :
    (bs : List (List ℕ)) (old : List ℕ)
    → written write_at bs (opened old) ≡ record {
      content = joined bs ++ drop (length (joined bs)) old;
      position = length (joined bs);
    }
written-opened bs old =
    written-plain bs [] old (opened old) refl
    ∙ ap (λ p. record { content = joined bs ++ drop (length (joined bs)) old; position = p })
        {y = length (joined bs)} (omega arith)
