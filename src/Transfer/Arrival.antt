-- ===== src/Transfer/Arrival.antt =====
-- `chunk_recv` of src/chunk.c on a stream that begins with a chunk.
use mini_dropbox.Prelude.{
  take-prefix, drop, ℕ, ◌+◌, ◌-◌, ◌≤◌, ◌<◌, ◌≡◌, refl, ap, ◌∙◌, Bool, true, false, some, List, ◌++◌,
  ℤ, pos, negsuc, if◌then◌else◌, ltb, arith, length, length-append, take,
}
use mini_dropbox.Net.{Socket, ok}
use mini_dropbox.Net.Bind.{bind_run}
use mini_dropbox.Net.Loops.{stream}
use mini_dropbox.Msg.{MessageHdr, Message, msg_clear, hdr_bytes, msg_recv_header, msg_recv_payload}
use mini_dropbox.Msg.Header.{IsHdr, take-append_exact, drop-append_exact}
use mini_dropbox.Msg.Receive.{msg_recv_header-Arrives, msg_recv_payload-body}
use mini_dropbox.Transfer.{
  Chunk, chunk_size, chunk_hdr_size, chunk_hdr_bytes, checksums_match, verdict, check_chunk,
  check_payload, chunk_recv,
}
use mini_dropbox.Transfer.Headers.{
  IsChunkHdr, length-chunk_hdr_bytes, chunk_hdr_of_bytes-chunk_hdr_bytes,
}

-- The payload of a chunk's message.
abbrev pub chunk_bytes : Chunk → List ℕ
chunk_bytes c = chunk_hdr_bytes c.hdr ++ c.bytes

-- A message header and a chunk that fit each other: of at most a chunk's data, all counted.
pub record Delivery (h : MessageHdr) (c : Chunk) : Type 0 where
  pub valid : IsHdr h
  pub chunk_valid : IsChunkHdr c.hdr
  pub counted : h.length ≡ length (chunk_bytes c)
  pub whole : c.hdr.length ≡ length c.bytes
  pub small : length c.bytes ≤ chunk_size

ltb-no : (m n : ℕ) → n ≤ m → ltb m n ≡ false
ltb-no m n h = ground arith

module _ (digest : List ℕ → List ℕ) (now : ℕ × ℕ) where
  check_payload-Delivery :
      (unset : List ℕ) (h : MessageHdr) (c : Chunk) (len : ℕ) (s : Socket)
      → Delivery h c
      → len ≡ length (chunk_bytes c)
      → check_payload digest now unset len (some (chunk_bytes c)) s
        ≡ verdict digest now
            (checksums_match (digest (take c.hdr.length c.bytes)) c.hdr.checksum)
            (pos (len - chunk_hdr_size))
            c
            s
  unfolding check_payload check_chunk
  check_payload-Delivery unset h c len s d whole =
      let size = length-chunk_hdr_bytes c.hdr d.chunk_valid in
      rw (
        whole,
        take-prefix (chunk_bytes c) (drop (length (chunk_bytes c)) unset),
        ltb-no (length (chunk_bytes c)) chunk_hdr_size
            (omega (arith, size, length-append (chunk_hdr_bytes c.hdr) c.bytes)),
        take-append_exact chunk_hdr_size (chunk_hdr_bytes c.hdr) c.bytes size,
        drop-append_exact chunk_hdr_size (chunk_hdr_bytes c.hdr) c.bytes size,
        chunk_hdr_of_bytes-chunk_hdr_bytes c.hdr d.chunk_valid,
        ltb-no (length c.bytes) c.hdr.length (omega (arith, d.whole)),
      )

  -- Received with its payload filled in.
  abbrev filled : MessageHdr → Chunk → Message
  filled h c = record msg_clear { hdr = h; rcvd_at = now; payload = some (chunk_bytes c) }

  payload-Delivery :
      (h : MessageHdr) (c : Chunk) (rest : List ℕ) (s : Socket)
      → Delivery h c
      → stream s.incoming ≡ chunk_bytes c ++ rest
      → (t : Socket) × (msg_recv_payload
            (record msg_clear { hdr = h; rcvd_at = now })
            (chunk_hdr_size + chunk_size)
            s
          ≡ ok ((pos 0, filled h c), t))
        × (stream t.incoming ≡ rest)
        × (t.wire ≡ s.wire)
        × (t.outcomes ≡ s.outcomes)
  payload-Delivery h c rest s d e =
      let (t, run, on, w, o) =
        msg_recv_payload-body (record msg_clear { hdr = h; rcvd_at = now })
          (chunk_hdr_size + chunk_size) (chunk_bytes c) rest s d.counted e in
      (t, run ∙ rw (fits, some_left), on ∙ rw fits, w, o)
    where
      size : length (chunk_bytes c) ≡ chunk_hdr_size + length c.bytes
      size =
          length-append (chunk_hdr_bytes c.hdr) c.bytes
          ∙ ap (λ k. k + length c.bytes) (length-chunk_hdr_bytes c.hdr d.chunk_valid)

      fits : ltb (chunk_hdr_size + chunk_size) (length (chunk_bytes c)) ≡ false
      fits =
          ltb-no (chunk_hdr_size + chunk_size) (length (chunk_bytes c))
            (omega (arith, size, d.small))

      some_left : ltb 0 (length (chunk_bytes c)) ≡ true
      some_left = lt-ltb 0 (length (chunk_bytes c)) (omega (arith, size))
        where
          lt-ltb : (m n : ℕ) → m < n → ltb m n ≡ true
          lt-ltb m n h = ground arith

  -- A chunk that the stream begins with, in however many pieces it comes, is received whole; the
  -- code is the length of the data if the checksum in its header is that of the data, and else -3.
  pub chunk_recv-Delivery :
      (unset : List ℕ) (self : Chunk) (h : MessageHdr) (c : Chunk) (good : Bool) (rest : List ℕ)
      (s : Socket)
      → Delivery h c
      → checksums_match (digest (take c.hdr.length c.bytes)) c.hdr.checksum ≡ some good
      → stream s.incoming ≡ hdr_bytes h ++ (chunk_bytes c ++ rest)
      → (t : Socket) × (chunk_recv digest now unset self s
          ≡ ok (((if good then pos (h.length - chunk_hdr_size) else negsuc 2), c), t))
        × (stream t.incoming ≡ rest)
        × (t.wire ≡ s.wire)
        × (t.outcomes ≡ s.outcomes)
  unfolding chunk_recv
  chunk_recv-Delivery unset self h c good rest s d m e =
      let (t, run, on, w, o) =
        msg_recv_header-Arrives now msg_clear h (chunk_bytes c) rest s
          (record { valid = d.valid; counted = d.counted; bytes = e }) in
      let (u, run2, on2, w2, o2) = payload-Delivery h c rest t d on in
      (
        u,
        bind_run (msg_recv_header now msg_clear) _ s run
            ∙ rw long (
                bind_run
                  (msg_recv_payload (record msg_clear { hdr = h; rcvd_at = now })
                    (chunk_hdr_size + chunk_size))
                  _ t run2
                ∙ check_payload-Delivery unset h c h.length u d d.counted
                ∙ ap (λ x. verdict digest now x (pos (h.length - chunk_hdr_size)) c u) m
                ∙ decided good (pos (h.length - chunk_hdr_size)) u),
        on2,
        w2 ∙ w,
        o2 ∙ o,
      )
    where
      long : ltb h.length chunk_hdr_size ≡ false
      long = ltb-no h.length chunk_hdr_size (
          omega (
            arith,
            d.counted,
            length-append (chunk_hdr_bytes c.hdr) c.bytes,
            length-chunk_hdr_bytes c.hdr d.chunk_valid,
          ))

      decided :
          (b : Bool) (code : ℤ) (u : Socket)
          → verdict digest now (some b) code c u ≡ ok (((if b then code else negsuc 2), c), u)
      decided true code u = unfold verdict in refl
      decided false code u = unfold verdict in refl
