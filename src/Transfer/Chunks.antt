-- ===== src/Transfer/Chunks.antt =====
-- `chunk_recv` of src/chunk.c: what a code that is not negative says of the chunk.
use mini_dropbox.Prelude.{
  ℕ, ◌+◌, ◌≡◌, ◌≤◌, refl, ap, ◌∙◌, sym, Bool, true, false, false≢true, Option, none, some, List, ℤ,
  pos, negsuc, is_neg, ltb, arith, length, take, Bool-cases, ◌⊎◌, inl, inr,
}
use mini_dropbox.Net.{Socket, Run, ok, aborted, Io}
use mini_dropbox.Net.Bind.{bind_ok}
use mini_dropbox.Msg.{overwrite, msg_clear, msg_recv_header, msg_recv_payload, return_if_neg}
use mini_dropbox.Transfer.{
  Chunk, chunk_size, chunk_hdr_size, checksums_match, verdict, check_chunk, check_payload,
  chunk_recv,
}

-- The two ways behind a check that the code is not negative.
pub return_cases {ℓ} :
    {A : Type ℓ} (ret : ℤ) (a : A) (k : Io A) (s : Socket) {b : A} {t : Socket}
    → return_if_neg ret a k s ≡ ok (b, t)
    → ((is_neg ret ≡ true) × (a ≡ b) × (s ≡ t)) ⊎ ((is_neg ret ≡ false) × (k s ≡ ok (b, t)))
return_cases (pos n) a k s e = inr (refl, e)
return_cases (negsuc n) a k s e = inl (refl, cc, cc)

module _ (digest : List ℕ → List ℕ) (now : ℕ × ℕ) where
  -- The data that the header counts are there, and have the header's checksum.
  pub record Valid (c : Chunk) : Type 0 where
    pub present : c.hdr.length ≤ length c.bytes
    pub matches : checksums_match (digest (take c.hdr.length c.bytes)) c.hdr.checksum ≡ some true

  verdict-match :
      (m : Option Bool) (code r : ℤ) (chunk c : Chunk) (s t : Socket)
      → verdict digest now m code chunk s ≡ ok ((r, c), t)
      → is_neg r ≡ false
      → (m ≡ some true) × (chunk ≡ c)
  unfolding verdict
  verdict-match none code r chunk c s t e n = cc
  verdict-match (some false) code r chunk c s t e n = cc
  verdict-match (some true) code r chunk c s t e n = (refl, cc)

  check_chunk-Valid :
      (code r : ℤ) (chunk c : Chunk) (s t : Socket)
      → check_chunk digest now code chunk s ≡ ok ((r, c), t)
      → is_neg r ≡ false
      → Valid c
  unfolding check_chunk
  check_chunk-Valid code r chunk c s t e n =
      elim (Bool-cases (ltb (length chunk.bytes) chunk.hdr.length)) [
        | inl over ↦ absurd (stuck (rw over at e))
        | inr fits ↦
            let (m, same) =
              verdict-match
                (checksums_match (digest (take chunk.hdr.length chunk.bytes)) chunk.hdr.checksum)
                code r chunk c s t (rw fits at e) n in
            coe 0 1 (i. Valid (same i)) (record { present = ltb-false fits; matches = m })
      ]
    where
      stuck : ◌≡◌ {A = Run ((ℤ × Chunk) × Socket)} aborted (ok ((r, c), t)) → ⊥
      stuck x = cc

      ltb-false : {m n : ℕ} → ltb m n ≡ false → n ≤ m
      ltb-false h = ground arith

  check_payload-Valid :
      (unset : List ℕ) (len : ℕ) (p : Option (List ℕ)) (s t : Socket) (r : ℤ) (c : Chunk)
      → check_payload digest now unset len p s ≡ ok ((r, c), t)
      → is_neg r ≡ false
      → Valid c
  unfolding check_payload
  check_payload-Valid unset len none s t r c e n = cc
  check_payload-Valid unset len (some p) s t r c e n =
      elim (Bool-cases (ltb (length (take len (overwrite p unset))) chunk_hdr_size)) [
        | inl over ↦ absurd (stuck (rw over at e))
        | inr fits ↦ check_chunk-Valid _ r _ c s t (rw fits at e) n
      ]
    where
      stuck : ◌≡◌ {A = Run ((ℤ × Chunk) × Socket)} aborted (ok ((r, c), t)) → ⊥
      stuck x = cc

  -- A chunk that `chunk_recv` returns with a code that is not negative is there as long as its
  -- header says, and has the checksum that its header gives, whatever came over the socket.
  pub chunk_recv-Valid :
      (unset : List ℕ) (self c : Chunk) (s t : Socket) (r : ℤ)
      → chunk_recv digest now unset self s ≡ ok ((r, c), t)
      → is_neg r ≡ false
      → Valid c
  unfolding chunk_recv
  chunk_recv-Valid unset self c s t r e n =
      let ((r1, m1), s1, e1, f1) = bind_ok (msg_recv_header now msg_clear) _ s e in
      elim (return_cases r1 (r1, self) _ s1 f1) [
        | inl (bad, same, x) ↦
            absurd (false≢true (sym n ∙ ap (λ (y : ℤ × Chunk). is_neg y.0) (sym same) ∙ bad))
        | inr (good, k) ↦ elim (Bool-cases (ltb m1.hdr.length chunk_hdr_size)) [
          | inl short ↦ absurd (no (rw short at k))
          | inr long ↦
              let (q, s2, e2, f2) =
                bind_ok (msg_recv_payload m1 (chunk_hdr_size + chunk_size)) _ s1 (rw long at k) in
              check_payload-Valid unset q.1.hdr.length q.1.payload s2 t r c f2 n
        ]
      ]
    where
      no :
          {s1 : Socket}
          → ◌≡◌ {A = Run ((ℤ × Chunk) × Socket)} (ok ((negsuc 3, self), s1)) (ok ((r, c), t))
          → ⊥
      no x = false≢true (sym n ∙ ap is_neg (code x))
        where
          code :
              {s1 : Socket}
              → ◌≡◌ {A = Run ((ℤ × Chunk) × Socket)} (ok ((negsuc 3, self), s1)) (ok ((r, c), t))
              → r ≡ negsuc 3
          code x = cc
