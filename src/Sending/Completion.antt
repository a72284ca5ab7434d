-- ===== src/Sending/Completion.antt =====
-- `file_send` of src/file.c to a peer that acknowledges every chunk.
use mini_dropbox.Prelude.{
  ℕ, zero, suc, ◌+◌, ◌-◌, ◌%◌, take, ◌<◌, ◌≡◌, refl, ap, ◌∙◌, sym, true, false, some, List, [], ◌∷◌,
  ◌++◌, pos, ltb, arith, length, length-append, append_assoc, append-nil,
}
use mini_dropbox.UserMap.{u64_mod}
use mini_dropbox.Net.{SendOutcome, sent, Socket, ok}
use mini_dropbox.Net.Bind.{bind_run}
use mini_dropbox.Net.Loops.{stream}
use mini_dropbox.Msg.{
  msgtype_send_chunk, msgtype_chunk_ok, MessageHdr, Message, msg_init, msg_clear, hdr_size,
  hdr_bytes, to_bytes, msg_send, msg_recv,
}
use mini_dropbox.Msg.Header.{IsHdr, length-to_bytes}
use mini_dropbox.Msg.RoundTrip.{msg_recv-Arrives}
use mini_dropbox.Msg.Whole.{msg_send-parts}
use mini_dropbox.Transfer.{
  ChunkHdr, Chunk, chunk_hdr_size, chunk_hdr_bytes, stats, chunk_init, chunk_send,
}
use mini_dropbox.Files.{Reader}
use mini_dropbox.Sending.{chunk_hdr, send_until_ok, send_chunks}

length-hdr :
    (h : MessageHdr) → length h.token ≡ 16 → length h.padding ≡ 4 → length (hdr_bytes h) ≡ hdr_size
unfolding hdr_bytes
length-hdr h tok pad = simp length-append (omega (arith, tok, pad))

length-chunk_hdr :
    (h : ChunkHdr) → length h.checksum ≡ 32 → length (chunk_hdr_bytes h) ≡ chunk_hdr_size
unfolding chunk_hdr_bytes
length-chunk_hdr h size = simp length-append (
    omega (
      arith,
      size,
      length-to_bytes 8 h.seq,
      length-to_bytes 8 h.start_byte,
      length-to_bytes 8 h.end_byte,
      length-to_bytes 8 h.length,
    ))

-- The descriptor gives these blocks from the position on, none of them empty.
unfoldable pub Reads : Reader → ℕ → List (List ℕ) → Type 0
Reads read at [] = Unit
Reads read at ([] ∷ bs) = ⊥
Reads read at ((x ∷ b) ∷ bs) = (read at ≡ some (x ∷ b)) × Reads read (at + length (x ∷ b)) bs

-- What the kernel takes, and what the peer answers, for the blocks.
unfoldable pub taken : List (List ℕ) → List SendOutcome → List SendOutcome
taken [] os = os
taken (b ∷ bs) os = sent hdr_size ∷ sent chunk_hdr_size ∷ sent (length b) ∷ taken bs os

unfoldable pub acks : MessageHdr → List (List ℕ) → List ℕ → List ℕ
acks ack [] rest = rest
acks ack (b ∷ bs) rest = hdr_bytes ack ++ acks ack bs rest

module _ (digest : List ℕ → List ℕ) (now : ℕ × ℕ) (junk : Message) where
  -- The chunk number `seq` with the data `bs`, at the byte `start` of the file: what the format
  -- asks for.
  abbrev pub the_chunk : ℕ → ℕ → List ℕ → Chunk
  the_chunk seq start bs = record {
    hdr = record {
      seq = seq;
      start_byte = start;
      end_byte = (start + (length bs - 1)) % u64_mod;
      length = length bs;
      checksum = digest bs;
    };
    bytes = bs;
  }

  -- The header of its message, which counts the chunk's header and its data.
  abbrev pub chunk_msg_hdr : Chunk → MessageHdr
  chunk_msg_hdr c = record {
    length = (length c.bytes + chunk_hdr_size) % u64_mod;
    type = msgtype_send_chunk;
    token = junk.hdr.token;
    padding = junk.hdr.padding;
    sent_at = now;
  }

  -- All bytes of its message.
  unfoldable pub chunk_packet : Chunk → List ℕ
  chunk_packet c =
      hdr_bytes (chunk_msg_hdr c)
      ++ ((to_bytes 8 c.hdr.seq
            ++ (to_bytes 8 c.hdr.start_byte
                ++ (to_bytes 8 c.hdr.end_byte ++ (to_bytes 8 c.hdr.length ++ c.hdr.checksum))))
          ++ c.bytes)

  pub take-all : (xs : List ℕ) → take (length xs) xs ≡ xs
  take-all [] = refl
  take-all (x ∷ xs) = ap (◌∷◌ x) (take-all xs)

  -- The code fills the chunk in like that.
  chunk_init-the_chunk :
      (seq start b : ℕ) (bs : List ℕ)
      → chunk_init digest now (chunk_hdr digest now junk seq start (b ∷ bs)) (b ∷ bs)
        ≡ the_chunk seq start (b ∷ bs)
  unfolding chunk_init
  chunk_init-the_chunk seq start b bs = rw (take-all bs) (ap ended (omega arith))
    where
      ended : ℕ → Chunk
      ended n = record {
        hdr = record {
          seq = seq;
          start_byte = start;
          end_byte = n;
          length = length (b ∷ bs);
          checksum = digest (b ∷ bs);
        };
        bytes = b ∷ bs;
      }

  -- What goes out for the blocks.
  unfoldable pub chunk_packets : ℕ → ℕ → List (List ℕ) → List ℕ
  chunk_packets seq start [] = []
  chunk_packets seq start (b ∷ bs) =
      chunk_packet (the_chunk seq start b)
      ++ chunk_packets (suc seq) ((start + length b) % u64_mod) bs

  module _ (digest_size : (bs : List ℕ) → length (digest bs) ≡ 32)
      (token_size : length junk.hdr.token ≡ 16) (padding_size : length junk.hdr.padding ≡ 4)
      (ack : MessageHdr) (ack-IsHdr : IsHdr ack) (ack_type : ack.type ≡ msgtype_chunk_ok)
      (ack_length : ack.length ≡ 0) where
    chunk_send-parts :
        (seq start b : ℕ) (bs : List ℕ) (os : List SendOutcome) (s : Socket)
        → s.outcomes ≡ sent hdr_size ∷ sent chunk_hdr_size ∷ sent (length (b ∷ bs)) ∷ os
        → chunk_send digest now junk (the_chunk seq start (b ∷ bs)) s
          ≡ ok (
            pos (length (b ∷ bs)),
            record s {
              outcomes = os;
              wire = s.wire ++ chunk_packet (the_chunk seq start (b ∷ bs));
            },
          )
    unfolding chunk_send chunk_init msg_init chunk_packet chunk_hdr_bytes
    chunk_send-parts seq start b bs os s e =
        let c = the_chunk seq start (b ∷ bs) in
        bind_run
          (msg_send now (msg_init junk msgtype_send_chunk (some (b ∷ bs)) (length (b ∷ bs)))
            (some (chunk_hdr_bytes (the_chunk seq start (b ∷ bs)).hdr)))
          _ s
          (msg_send-parts now
            (record (junk.hdr) {
              length = length (b ∷ bs);
              type = msgtype_send_chunk;
              sent_at = (0, 0);
            })
            (0, 0) (chunk_hdr_bytes (the_chunk seq start (b ∷ bs)).hdr) (b ∷ bs) 63 (length bs) os s
            (length-hdr _ token_size padding_size) (length-chunk_hdr _ (digest_size _)) refl e)
        ∙ ap
            (λ n. ok (
              pos (length (b ∷ bs)),
              record s {
                outcomes = os;
                wire =
                    s.wire
                    ++ (hdr_bytes
                          (record (chunk_msg_hdr c) { length = (length (b ∷ bs) + n) % u64_mod })
                        ++ (chunk_hdr_bytes c.hdr ++ (b ∷ bs)));
              },
            ))
            (length-chunk_hdr c.hdr (digest_size _))

    recv_ack :
        (msg : Message) (rest : List ℕ) (s : Socket)
        → stream s.incoming ≡ hdr_bytes ack ++ rest
        → (t : Socket) × (msg_recv now msg 0 s
            ≡ ok ((pos 0, record msg { hdr = ack; rcvd_at = now }), t))
          × (stream t.incoming ≡ rest)
          × (t.wire ≡ s.wire)
          × (t.outcomes ≡ s.outcomes)
    recv_ack msg rest s e =
        msg_recv-Arrives now msg 0 ack [] rest s
          (record { valid = ack-IsHdr; counted = ack_length; bytes = e })

    acknowledged :
        (fuel : ℕ) (chunk : Chunk) (msg : Message) (s : Socket)
        → msg.hdr.type ≡ msgtype_chunk_ok
        → send_until_ok digest now junk fuel chunk msg s ≡ ok (pos 0, s)
    unfolding send_until_ok
    acknowledged zero chunk msg s e = rw e
    acknowledged (suc fuel) chunk msg s e = rw e

    send_until_ok-once :
        (fuel seq start b : ℕ) (bs rest : List ℕ) (os : List SendOutcome) (s : Socket)
        → s.outcomes ≡ sent hdr_size ∷ sent chunk_hdr_size ∷ sent (length (b ∷ bs)) ∷ os
        → stream s.incoming ≡ hdr_bytes ack ++ rest
        → (t : Socket) × (send_until_ok digest now junk
              (suc fuel)
              (the_chunk seq start (b ∷ bs))
              msg_clear
              s
            ≡ ok (pos 0, t))
          × (stream t.incoming ≡ rest)
          × (t.wire ≡ s.wire ++ chunk_packet (the_chunk seq start (b ∷ bs)))
          × (t.outcomes ≡ os)
    unfolding send_until_ok msg_clear
    send_until_ok-once fuel seq start b bs rest os s e arrived =
        let u : Socket = record s {
          outcomes = os;
          wire = s.wire ++ chunk_packet (the_chunk seq start (b ∷ bs));
        } in
        let (t, run, on, w, o) = recv_ack msg_clear rest u arrived in
        (
          t,
          bind_run (chunk_send digest now junk (the_chunk seq start (b ∷ bs))) _ s
                (chunk_send-parts seq start b bs os s e)
              ∙ bind_run (msg_recv now msg_clear 0) _ u run
              ∙ acknowledged fuel (the_chunk seq start (b ∷ bs))
                  (record msg_clear { hdr = ack; rcvd_at = now }) t ack_type,
          on,
          w,
          o,
        )

    send_done :
        (fuel count seq start at : ℕ) (read : Reader) (s : Socket)
        → seq ≡ count
        → send_chunks digest now junk fuel read count seq start at s ≡ ok (stats count (pos 0), s)
    unfolding send_chunks
    send_done zero count seq start at read s e =
        rw (no_more e) (ap (λ n. ok (stats n (pos 0), s)) e)
      where
        no_more : {seq count : ℕ} → seq ≡ count → ltb seq count ≡ false
        no_more e = ground arith
    send_done (suc fuel) count seq start at read s e =
        rw (no_more e) (ap (λ n. ok (stats n (pos 0), s)) e)
      where
        no_more : {seq count : ℕ} → seq ≡ count → ltb seq count ≡ false
        no_more e = ground arith

    send_step :
        (fuel count seq start at x : ℕ) (b : List ℕ) (read : Reader) (s t : Socket)
        → seq < count
        → read at ≡ some (x ∷ b)
        → send_until_ok digest now junk (suc fuel) (the_chunk seq start (x ∷ b)) msg_clear s
          ≡ ok (pos 0, t)
        → send_chunks digest now junk (suc (suc fuel)) read count seq start at s
          ≡ send_chunks digest now junk
              (suc fuel)
              read
              count
              (suc seq)
              ((start + length (x ∷ b)) % u64_mod)
              (at + length (x ∷ b))
              t
    unfolding send_chunks
    send_step fuel count seq start at x b read s t h here run =
        rw (more h, here)
          (bind_run
            (send_until_ok digest now junk (suc fuel)
              (chunk_init digest now (chunk_hdr digest now junk seq start (x ∷ b)) (x ∷ b))
              msg_clear)
            _ s
            (ap (λ c. send_until_ok digest now junk (suc fuel) c msg_clear s)
                (chunk_init-the_chunk seq start x b)
              ∙ run))
      where
        more : {seq count : ℕ} → seq < count → ltb seq count ≡ true
        more h = ground arith

    -- If the file gives the blocks from chunk `seq` up to the count, the kernel takes each part of a
    -- message at once and the peer answers each chunk with CHUNK_OK, in whatever pieces, then
    -- the loop of `file_send` ends with code 0 and the count, on any fuel above the number of blocks:
    -- it has sent each block, in order and once, as a chunk whose header holds its number, the places
    -- of its first and of its last byte in the file, its length and its checksum, and has read the answers and nothing behind them.
    pub send_chunks_complete :
        (bs : List (List ℕ)) (fuel count seq start at : ℕ) (read : Reader) (rest : List ℕ)
        (os : List SendOutcome) (s : Socket)
        → length bs < fuel
        → seq + length bs ≡ count
        → Reads read at bs
        → s.outcomes ≡ taken bs os
        → stream s.incoming ≡ acks ack bs rest
        → (t : Socket) × (send_chunks digest now junk fuel read count seq start at s
            ≡ ok (stats count (pos 0), t))
          × (stream t.incoming ≡ rest)
          × (t.wire ≡ s.wire ++ chunk_packets seq start bs)
          × (t.outcomes ≡ os)
    unfolding Reads taken acks chunk_packets
    send_chunks_complete [] fuel count seq start at read rest os s l c r o e =
        (s, send_done fuel count seq start at read s (omega arith), e, sym (append-nil s.wire), o)
    send_chunks_complete (b ∷ bs) zero count seq start at read rest os s l c r o e =
        absurd (omega arith)
    send_chunks_complete (b ∷ bs) (suc zero) count seq start at read rest os s l c r o e =
        absurd (omega arith)
    send_chunks_complete ([] ∷ bs) (suc (suc fuel)) count seq start at read rest os s l c r o e =
        absurd r
    send_chunks_complete ((x ∷ b) ∷ bs) (suc (suc fuel)) count seq start at read rest os s l c
          (here, later) o e =
        let (t, run, on, w, ot) =
          send_until_ok-once fuel seq start x b (acks ack bs rest) (taken bs os) s o e in
        let (u, run2, on2, w2, o2) =
          send_chunks_complete bs (suc fuel) count (suc seq) ((start + length (x ∷ b)) % u64_mod)
            (at + length (x ∷ b)) read rest os t (omega arith) (omega arith) later ot on in
        (
          u,
          send_step fuel count seq start at x b read s t (omega arith) here run ∙ run2,
          on2,
          w2
              ∙ ap (λ z. z ++ chunk_packets (suc seq) ((start + length (x ∷ b)) % u64_mod) bs) w
              ∙ append_assoc s.wire (chunk_packet (the_chunk seq start (x ∷ b))) _,
          o2,
        )
