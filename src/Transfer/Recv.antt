-- ===== src/Transfer/Recv.antt =====
-- `file_recv` of src/file.c: what a run has written, however it ended.
use mini_dropbox.Prelude.{
  ℕ, zero, suc, ◌*◌, ◌%◌, ◌≡◌, ◌≤◌, refl, ap, ◌∙◌, sym, true, false, false≢true, ◌&&◌, Option, none,
  some, List, ℤ, pos, negsuc, is_neg, ◌==◌, ltb, arith, take, Bool-cases, ◌⊎◌, inl, inr,
}
use mini_dropbox.UserMap.{u64_mod}
use mini_dropbox.Net.{Socket, Run, ok, blocked, Io}
use mini_dropbox.Net.Bind.{bind_ok}
use mini_dropbox.Msg.{msgtype_chunk_ok, msgtype_chunk_again}
use mini_dropbox.Transfer.{
  Chunk, chunk_size, Stats, stats, FileOps, chunk_recv, send_ack, place_chunk, accept_chunk,
  on_chunk, recv_chunks, zero_chunk, file_recv,
}
use mini_dropbox.Transfer.Chunks.{return_cases, Valid, chunk_recv-Valid}

module _ (digest : List ℕ → List ℕ) (now : ℕ × ℕ) {File : Type 0} (fs : FileOps File) where
  -- The writes that take the file from one chunk's turn to another's: each of a whole chunk with a
  -- matching checksum, and in the order of their numbers.
  pub data Saved : ℕ → File → ℕ → File → Type 0 where
    none_saved : {n : ℕ} {f : File} → Saved n f n f
    then_saved :
        {n m : ℕ} {f g : File} (c : Chunk)
        → Valid digest now c
        → c.hdr.seq ≡ n
        → Saved (suc n) (fs.write (take c.hdr.length c.bytes) f) m g
        → Saved n f m g

  -- How a transfer to the file `f` can end: with the chunks from `seq` on written in order; with
  -- those from a later number on, behind a seek to its place, if `seq` was 0; or with a seek that
  -- failed.
  pub data Ended (seq : ℕ) (f : File) (st : Stats) (g : File) : Type 0 where
    in_order : Saved seq f st.last_chunk g → Ended seq f st g
    resumed :
        (from : ℕ) (moved : File)
        → seq ≡ 0
        → fs.lseek ((from * chunk_size) % u64_mod) f ≡ some moved
        → Saved from moved st.last_chunk g
        → Ended seq f st g
    seek_failed : seq ≡ 0 → st.error_code ≡ negsuc 2 → f ≡ g → Ended seq f st g

  -- The code is 0 only when no chunk is missing.
  pub record Received (count seq : ℕ) (f : File) (st : Stats) (g : File) : Type 0 where
    pub ended : Ended seq f st g
    pub complete : st.error_code ≡ pos 0 → count ≤ st.last_chunk

  ended_at :
      {seq : ℕ} {f g : File} {e : ℤ} {st : Stats}
      → ◌≡◌ {A = Stats × File} (stats seq e, f) (st, g)
      → Saved seq f st.last_chunk g
  ended_at {seq} {f} same = coe 0 1 (i. Saved seq f (same i).0.last_chunk (same i).1) none_saved

  code_at :
      {seq : ℕ} {f g : File} {e : ℤ} {st : Stats}
      → ◌≡◌ {A = Stats × File} (stats seq e, f) (st, g)
      → st.error_code ≡ e
  code_at same = ap (λ (x : Stats × File). x.0.error_code) (sym same)

  fst_ok :
      {a b : Stats × File} {s t : Socket}
      → ◌≡◌ {A = Run ((Stats × File) × Socket)} (ok (a, s)) (ok (b, t))
      → a ≡ b
  fst_ok e = cc

  not_zero : {r e : ℤ} → is_neg e ≡ true → r ≡ e → r ≡ pos 0 → ⊥
  not_zero n a b = false≢true (ap is_neg (sym b ∙ a) ∙ n)

  stopped :
      {count seq : ℕ} {f g : File} {e : ℤ} {st : Stats}
      → is_neg e ≡ true
      → ◌≡◌ {A = Stats × File} (stats seq e, f) (st, g)
      → Received count seq f st g
  stopped n same = record {
    ended = in_order (ended_at same);
    complete = λ z. absurd (not_zero n (code_at same) z);
  }

  past_zero :
      {n : ℕ} {f g : File} {st : Stats} → Ended (suc n) f st g → Saved (suc n) f st.last_chunk g
  past_zero (in_order saved) = saved
  past_zero (resumed from moved z e saved) = absurd (omega arith)
  past_zero (seek_failed z e same) = absurd (omega arith)

  module _ (count : ℕ) (next : ℕ → File → Io (Stats × File))
      (rest : (seq : ℕ) (f g : File) (st : Stats) (s t : Socket)
        → next seq f s ≡ ok ((st, g), t)
        → Received count seq f st g) where
    accept-Saved :
        (c : Chunk) (seq : ℕ) (f moved g : File) (st : Stats) (s t : Socket)
        → Valid digest now c
        → c.hdr.seq ≡ seq
        → accept_chunk digest now fs (inr (seq, moved)) c f next s ≡ ok ((st, g), t)
        → Saved seq moved st.last_chunk g × (st.error_code ≡ pos 0 → count ≤ st.last_chunk)
    unfolding accept_chunk
    accept-Saved c seq f moved g st s t v here e =
        let (res, s1, e1, f1) = bind_ok (send_ack digest now fs msgtype_chunk_ok) _ s e in
        elim (return_cases res (stats seq res, moved) _ s1 f1) [
          | inl (bad, same, x) ↦ (ended_at same, λ z. absurd (not_zero bad (code_at same) z))
          | inr (good, k) ↦
              let r = rest (suc seq) (fs.write (take c.hdr.length c.bytes) moved) g st s1 t k in
              (then_saved c v here (past_zero r.ended), r.complete)
        ]

    refused :
        (st0 st : Stats) (c : Chunk) (f g : File) (s t : Socket)
        → accept_chunk digest now fs (inl st0) c f next s ≡ ok ((st, g), t)
        → ◌≡◌ {A = Stats × File} (st0, f) (st, g)
    unfolding accept_chunk
    refused st0 st c f g s t e = fst_ok e

    seek-Received :
        (c : Chunk) (seq : ℕ) (f g : File) (st : Stats) (s t : Socket) (at : Option File)
        → Valid digest now c
        → seq ≡ 0
        → fs.lseek ((c.hdr.seq * chunk_size) % u64_mod) f ≡ at
        → accept_chunk digest now fs
            (elim at as (λ _. Stats ⊎ (ℕ × File)) [
              | none ↦ inl (stats c.hdr.seq (negsuc 2))
              | some moved ↦ inr (c.hdr.seq, moved)
            ])
            c
            f
            next
            s
          ≡ ok ((st, g), t)
        → Received count seq f st g
    seek-Received c seq f g st s t none v z l e =
        let same = refused _ st c f g s t e in
        record {
          ended = seek_failed z (code_at same) (ap (λ (x : Stats × File). x.1) same);
          complete = λ x. absurd (not_zero refl (code_at same) x);
        }
    seek-Received c seq f g st s t (some moved) v z l e =
        let (saved, full) = accept-Saved c c.hdr.seq f moved g st s t v refl e in
        record { ended = resumed c.hdr.seq moved z l saved; complete = full }

    accept-Received :
        (c : Chunk) (seq : ℕ) (f g : File) (st : Stats) (s t : Socket)
        → Valid digest now c
        → accept_chunk digest now fs (place_chunk digest now fs seq c f) c f next s
          ≡ ok ((st, g), t)
        → Received count seq f st g
    unfolding place_chunk
    accept-Received c seq f g st s t v e = elim (Bool-cases (seq == 0 && ltb 0 c.hdr.seq)) [
      | inl first ↦ seek-Received c seq f g st s t _ v (ground arith) refl (rw first at e)
      | inr later ↦ elim (Bool-cases (seq == c.hdr.seq)) [
        | inl turn ↦
            let (saved, full) =
              accept-Saved c seq f f g st s t v (ground arith) (rw (later, turn) at e) in
            record { ended = in_order saved; complete = full }
        | inr wrong ↦ stopped refl (refused _ st c f g s t (rw (later, wrong) at e))
      ]
    ]

    on_chunk-Received :
        (r : ℤ) (c : Chunk) (seq : ℕ) (f g : File) (st : Stats) (s t : Socket)
        → (is_neg r ≡ false → Valid digest now c)
        → on_chunk digest now fs r c seq f next s ≡ ok ((st, g), t)
        → Received count seq f st g
    unfolding on_chunk
    on_chunk-Received (pos n) c seq f g st s t v e = accept-Received c seq f g st s t (v refl) e
    on_chunk-Received (negsuc zero) c seq f g st s t v e = stopped refl (fst_ok e)
    on_chunk-Received (negsuc (suc zero)) c seq f g st s t v e = stopped refl (fst_ok e)
    on_chunk-Received (negsuc (suc (suc zero))) c seq f g st s t v e =
        let (res, s1, e1, f1) = bind_ok (send_ack digest now fs msgtype_chunk_again) _ s e in
        elim (return_cases res (stats seq res, f) _ s1 f1) [
          | inl (bad, same, x) ↦ stopped bad same
          | inr (good, k) ↦ rest seq f g st s1 t k
        ]
    on_chunk-Received (negsuc (suc (suc (suc n)))) c seq f g st s t v e = stopped refl (fst_ok e)

  all_here :
      {count seq : ℕ} {f g : File} {st : Stats}
      → ltb seq count ≡ false
      → ◌≡◌ {A = Stats × File} (stats seq (pos 0), f) (st, g)
      → Received count seq f st g
  all_here {count} h same = record {
    ended = in_order (ended_at same);
    complete = λ z. coe 0 1 (i. count ≤ (same i).0.last_chunk) (at_least h);
  }
    where
      at_least : {seq count : ℕ} → ltb seq count ≡ false → count ≤ seq
      at_least h = ground arith

  recv_chunks-Received :
      (unset : ℕ → List ℕ) (fuel count : ℕ) (chunk : Chunk) (seq : ℕ) (f g : File) (st : Stats)
      (s t : Socket)
      → recv_chunks digest now fs unset fuel count chunk seq f s ≡ ok ((st, g), t)
      → Received count seq f st g
  unfolding recv_chunks
  recv_chunks-Received unset zero count chunk seq f g st s t e = elim (Bool-cases (ltb seq count)) [
    | inl more ↦ absurd (stuck (rw more at e))
    | inr done ↦ all_here done (fst_ok (rw done at e))
  ]
    where
      stuck : ◌≡◌ {A = Run ((Stats × File) × Socket)} blocked (ok ((st, g), t)) → ⊥
      stuck x = cc
  recv_chunks-Received unset (suc fuel) count chunk seq f g st s t e =
      elim (Bool-cases (ltb seq count)) [
        | inl more ↦
            let ((r, c), s1, e1, f1) =
              bind_ok (chunk_recv digest now (unset fuel) chunk) _ s (rw more at e) in
            on_chunk-Received count (recv_chunks digest now fs unset fuel count c)
              (recv_chunks-Received unset fuel count c) r c seq f g st s1 t
              (chunk_recv-Valid digest now (unset fuel) chunk c s s1 r e1) f1
        | inr done ↦ all_here done (fst_ok (rw done at e))
      ]

  -- Whatever comes over the socket and however a transfer that returns has ended, the file is what
  -- it was before, changed by writes of the data of chunks only, each as long as its header says and
  -- with the checksum that its header gives, one after the other in the order of their numbers, up to
  -- the number that is reported: from chunk 0, or from a later chunk behind a seek to its place. (A
  -- seek that fails leaves the file as it was, with the code -3.) What a write does is the file
  -- system's: its result is not looked at. With the code 0 the number that is reported is not below
  -- the announced count; it may be above it, where the first chunk has such a number.
  pub file_recv-Received :
      (unset : ℕ → List ℕ) (fuel count : ℕ) (f g : File) (st : Stats) (s t : Socket)
      → file_recv digest now fs unset fuel count (some f) s ≡ ok ((st, some g), t)
      → Received count 0 f st g
  unfolding file_recv
  file_recv-Received unset fuel count f g st s t e =
      let ((st1, g1), s1, e1, f1) =
        bind_ok (recv_chunks digest now fs unset fuel count zero_chunk 0 f) _ s e in
      recv_chunks-Received unset fuel count zero_chunk 0 f g st s t (e1 ∙ result f1)
    where
      result :
          {st1 : Stats} {g1 : File} {s1 : Socket}
          → ◌≡◌ {A = Run ((Stats × Option File) × Socket)}
              (ok ((st1, some g1), s1))
              (ok ((st, some g), t))
          → ◌≡◌ {A = Run ((Stats × File) × Socket)} (ok ((st1, g1), s1)) (ok ((st, g), t))
      result x = cc
