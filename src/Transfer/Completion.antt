-- ===== src/Transfer/Completion.antt =====
-- `file_recv` of src/file.c on a stream with all the chunks of a file, broken ones among them.
use mini_dropbox.Prelude.{
  ℕ, zero, suc, ◌≤◌, ◌<◌, ◌≡◌, refl, ap, ◌∙◌, sym, Bool, true, false, ◌&&◌, none, some, List, [],
  ◌∷◌, ◌++◌, ℤ, pos, negsuc, ◌==◌, ltb, arith, length, take, append_assoc, append-nil, replicate,
  inr,
}
use mini_dropbox.Net.{SendOutcome, sent, Socket, Run, ok, Io}
use mini_dropbox.Net.Bind.{bind_run}
use mini_dropbox.Net.Loops.{stream}
use mini_dropbox.Msg.{
  MessageType, msgtype_chunk_ok, msgtype_chunk_again, MessageHdr, msg_init, msg_clear, zero_hdr,
  hdr_size, hdr_bytes, msg_send,
}
use mini_dropbox.Msg.Whole.{msg_send-once}
use mini_dropbox.Transfer.{
  Chunk, checksums_match, Stats, stats, FileOps, chunk_recv, send_ack, place_chunk, accept_chunk,
  on_chunk, recv_chunks, zero_chunk, file_recv,
}
use mini_dropbox.Transfer.Arrival.{chunk_bytes, Delivery, chunk_recv-Delivery}

behind : {w v : List ℕ} (a b : List ℕ) → w ≡ v → (w ++ a) ++ b ≡ v ++ (a ++ b)
behind {w} a b e = append_assoc w a b ∙ ap (λ x. x ++ (a ++ b)) e

module _ (digest : List ℕ → List ℕ) (now : ℕ × ℕ) {File : Type 0} (fs : FileOps File) where
  -- The header of an answer to a chunk.
  abbrev pub ack_hdr : MessageType → MessageHdr
  ack_hdr type = record zero_hdr { type = type; sent_at = now }

  length-ack : (type : MessageType) → length (hdr_bytes (ack_hdr type)) ≡ hdr_size
  unfolding hdr_bytes
  length-ack type = refl

  send_ack-once :
      (type : MessageType) (os : List SendOutcome) (s : Socket)
      → s.outcomes ≡ sent hdr_size ∷ os
      → send_ack digest now fs type s
        ≡ ok (pos 0, record s { outcomes = os; wire = s.wire ++ hdr_bytes (ack_hdr type) })
  unfolding send_ack msg_init msg_clear
  send_ack-once type os s e =
      bind_run (msg_send now (msg_init msg_clear type none 0) none) _ s
        (msg_send-once now (msg_init msg_clear type none 0) os s refl (length-ack type) e)

  -- A chunk on its way: sound, or with data that do not have the checksum.
  pub data Item : Type 0 where
    sound corrupt : MessageHdr → Chunk → Item

  unfoldable pub packets : List Item → List ℕ → List ℕ
  packets [] rest = rest
  packets (sound h c ∷ is) rest = hdr_bytes h ++ (chunk_bytes c ++ packets is rest)
  packets (corrupt h c ∷ is) rest = hdr_bytes h ++ (chunk_bytes c ++ packets is rest)

  -- The file when the sound chunks are written in turn.
  unfoldable pub saved : List Item → File → File
  saved [] f = f
  saved (sound h c ∷ is) f = saved is (fs.write (take c.hdr.length c.bytes) f)
  saved (corrupt h c ∷ is) f = saved is f

  unfoldable pub replies : List Item → List ℕ
  replies [] = []
  replies (sound h c ∷ is) = hdr_bytes (ack_hdr msgtype_chunk_ok) ++ replies is
  replies (corrupt h c ∷ is) = hdr_bytes (ack_hdr msgtype_chunk_again) ++ replies is

  abbrev Checked : Chunk → Bool → Type 0
  Checked c good = checksums_match (digest (take c.hdr.length c.bytes)) c.hdr.checksum ≡ some good

  -- The sound ones are the chunks from `seq` up to the count, each one in its turn.
  unfoldable pub InTurn : List Item → ℕ → ℕ → Type 0
  InTurn [] seq count = seq ≡ count
  InTurn (sound h c ∷ is) seq count =
      Delivery h c × Checked c true × (c.hdr.seq ≡ seq) × (seq < count) × InTurn is (suc seq) count
  InTurn (corrupt h c ∷ is) seq count =
      Delivery h c × Checked c false × (seq < count) × InTurn is seq count

  place-turn :
      (seq : ℕ) (c : Chunk) (f : File)
      → c.hdr.seq ≡ seq
      → place_chunk digest now fs seq c f ≡ inr (seq, f)
  unfolding place_chunk
  place-turn seq c f e = rw (not_first, turn)
    where
      not_first : (seq == 0 && ltb 0 c.hdr.seq) ≡ false
      not_first = ground arith

      turn : (seq == c.hdr.seq) ≡ true
      turn = ground arith

  -- What a run that got all the items has done.
  record Finished (is : List Item) (count : ℕ) (f : File) (rest : List ℕ) (os : List SendOutcome)
      (s : Socket) (x : Run ((Stats × File) × Socket)) : Type 0 where
    after : Socket
    returned : x ≡ ok ((stats count (pos 0), saved is f), after)
    unread : stream after.incoming ≡ rest
    answered : after.wire ≡ s.wire ++ replies is
    unsent : after.outcomes ≡ os

  recv_done :
      (unset : ℕ → List ℕ) (fuel count seq : ℕ) (chunk : Chunk) (f : File) (s : Socket)
      → seq ≡ count
      → recv_chunks digest now fs unset fuel count chunk seq f s ≡ ok ((stats count (pos 0), f), s)
  unfolding recv_chunks
  recv_done unset zero count seq chunk f s e =
      rw (no_more e) (ap (λ n. ok ((stats n (pos 0), f), s)) e)
    where
      no_more : {seq count : ℕ} → seq ≡ count → ltb seq count ≡ false
      no_more e = ground arith
  recv_done unset (suc fuel) count seq chunk f s e =
      rw (no_more e) (ap (λ n. ok ((stats n (pos 0), f), s)) e)
    where
      no_more : {seq count : ℕ} → seq ≡ count → ltb seq count ≡ false
      no_more e = ground arith

  chunk_step :
      (unset : ℕ → List ℕ) (fuel count seq : ℕ) (chunk c : Chunk) (r : ℤ) (f : File) (s t : Socket)
      → seq < count
      → chunk_recv digest now (unset fuel) chunk s ≡ ok ((r, c), t)
      → recv_chunks digest now fs unset (suc fuel) count chunk seq f s
        ≡ on_chunk digest now fs r c seq f (recv_chunks digest now fs unset fuel count c) t
  unfolding recv_chunks
  chunk_step unset fuel count seq chunk c r f s t h run =
      rw (more h) (bind_run (chunk_recv digest now (unset fuel) chunk) _ s run)
    where
      more : {seq count : ℕ} → seq < count → ltb seq count ≡ true
      more h = ground arith

  -- The socket when an answer of the type has been sent.
  abbrev answering : MessageType → List SendOutcome → Socket → Socket
  answering type os t = record t { outcomes = os; wire = t.wire ++ hdr_bytes (ack_hdr type) }

  sound_step :
      (k seq : ℕ) (c : Chunk) (f : File) (next : ℕ → File → Io (Stats × File))
      (os : List SendOutcome) (t : Socket)
      → c.hdr.seq ≡ seq
      → t.outcomes ≡ sent hdr_size ∷ os
      → on_chunk digest now fs (pos k) c seq f next t
        ≡ next (suc seq) (fs.write (take c.hdr.length c.bytes) f) (answering msgtype_chunk_ok os t)
  unfolding on_chunk accept_chunk
  sound_step k seq c f next os t e o = rw (place-turn seq c f e) (
      bind_run (send_ack digest now fs msgtype_chunk_ok) _ t
        (send_ack-once msgtype_chunk_ok os t o))

  corrupt_step :
      (seq : ℕ) (c : Chunk) (f : File) (next : ℕ → File → Io (Stats × File)) (os : List SendOutcome)
      (t : Socket)
      → t.outcomes ≡ sent hdr_size ∷ os
      → on_chunk digest now fs (negsuc 2) c seq f next t
        ≡ next seq f (answering msgtype_chunk_again os t)
  unfolding on_chunk
  corrupt_step seq c f next os t o =
      bind_run (send_ack digest now fs msgtype_chunk_again) _ t
        (send_ack-once msgtype_chunk_again os t o)

  recv_chunks-Finished :
      (unset : ℕ → List ℕ) (is : List Item) (fuel count seq : ℕ) (chunk : Chunk) (f : File)
      (rest : List ℕ) (os : List SendOutcome) (s : Socket)
      → length is ≤ fuel
      → InTurn is seq count
      → stream s.incoming ≡ packets is rest
      → s.outcomes ≡ replicate (length is) (sent hdr_size) ++ os
      → Finished is count f rest os s (recv_chunks digest now fs unset fuel count chunk seq f s)
  unfolding packets saved replies InTurn
  recv_chunks-Finished unset [] fuel count seq chunk f rest os s l turn e o = record {
    after = s;
    returned = recv_done unset fuel count seq chunk f s turn;
    unread = e;
    answered = sym (append-nil s.wire);
    unsent = o;
  }
  recv_chunks-Finished unset (sound h c ∷ is) zero count seq chunk f rest os s l turn e o =
      absurd (omega arith)
  recv_chunks-Finished unset (corrupt h c ∷ is) zero count seq chunk f rest os s l turn e o =
      absurd (omega arith)
  recv_chunks-Finished unset (sound h c ∷ is) (suc fuel) count seq chunk f rest os s l
        (d, chk, here, more, turn) e o =
      let (t, run, on, w, ot) =
        chunk_recv-Delivery digest now (unset fuel) chunk h c true (packets is rest) s d chk e in
      let later = replicate (length is) (sent hdr_size) ++ os in
      let u = answering msgtype_chunk_ok later t in
      let ih =
        recv_chunks-Finished unset is fuel count (suc seq) c
          (fs.write (take c.hdr.length c.bytes) f) rest os u (omega arith) turn on refl in
      record {
        after = ih.after;
        returned =
            chunk_step unset fuel count seq chunk c _ f s t more run
            ∙ sound_step _ seq c f (recv_chunks digest now fs unset fuel count c) later t here
                (ot ∙ o)
            ∙ ih.returned;
        unread = ih.unread;
        answered = ih.answered ∙ behind (hdr_bytes (ack_hdr msgtype_chunk_ok)) (replies is) w;
        unsent = ih.unsent;
      }
  recv_chunks-Finished unset (corrupt h c ∷ is) (suc fuel) count seq chunk f rest os s l
        (d, chk, more, turn) e o =
      let (t, run, on, w, ot) =
        chunk_recv-Delivery digest now (unset fuel) chunk h c false (packets is rest) s d chk e in
      let later = replicate (length is) (sent hdr_size) ++ os in
      let u = answering msgtype_chunk_again later t in
      let ih =
        recv_chunks-Finished unset is fuel count seq c f rest os u (omega arith) turn on refl in
      record {
        after = ih.after;
        returned =
            chunk_step unset fuel count seq chunk c _ f s t more run
            ∙ corrupt_step seq c f (recv_chunks digest now fs unset fuel count c) later t (ot ∙ o)
            ∙ ih.returned;
        unread = ih.unread;
        answered = ih.answered ∙ behind (hdr_bytes (ack_hdr msgtype_chunk_again)) (replies is) w;
        unsent = ih.unsent;
      }

  -- If all the chunks of a file come in turn over the stream, in whatever pieces, with any number of
  -- broken ones among them, and the kernel takes each answer at once, then `file_recv` returns with
  -- code 0 and the announced count, on any fuel of at least the number of chunks that come: the file
  -- has the sound chunks written in turn, each sound chunk was answered with CHUNK_OK and each broken
  -- one with CHUNK_AGAIN, and nothing behind the chunks was read.
  pub file_recv-Finished :
      (unset : ℕ → List ℕ) (is : List Item) (fuel count : ℕ) (f : File) (rest : List ℕ)
      (os : List SendOutcome) (s : Socket)
      → length is ≤ fuel
      → InTurn is 0 count
      → stream s.incoming ≡ packets is rest
      → s.outcomes ≡ replicate (length is) (sent hdr_size) ++ os
      → (t : Socket) × (file_recv digest now fs unset fuel count (some f) s
          ≡ ok ((stats count (pos 0), some (saved is f)), t))
        × (stream t.incoming ≡ rest)
        × (t.wire ≡ s.wire ++ replies is)
        × (t.outcomes ≡ os)
  unfolding file_recv
  file_recv-Finished unset is fuel count f rest os s l turn e o =
      let done = recv_chunks-Finished unset is fuel count 0 zero_chunk f rest os s l turn e o in
      (
        done.after,
        bind_run (recv_chunks digest now fs unset fuel count zero_chunk 0 f) _ s done.returned,
        done.unread,
        done.answered,
        done.unsent,
      )
