-- ===== src/Exchange/Transfer.antt =====
-- A file that `file_send` of src/file.c sends on one side and `file_recv` receives on the other: each
-- reads what the other has put on its wire.
use mini_dropbox.Prelude.{
  ℕ, suc, ◌+◌, ◌%◌, drop, ◌≤◌, ◌<◌, ◌≡◌, refl, ap, ◌∙◌, sym, true, some, List, [], ◌∷◌, ◌++◌, pos,
  arith, length, length-append, take, replicate, append_assoc,
}
use mini_dropbox.UserMap.{u64_mod}
use mini_dropbox.Net.{SendOutcome, sent, Socket, ok}
use mini_dropbox.Net.Loops.{stream}
use mini_dropbox.Msg.{
  Message, msgtype_chunk_ok, msg_init, type_code, type_of_code, hdr_size, hdr_bytes,
}
use mini_dropbox.Msg.Header.{IsHdr, span}
use mini_dropbox.Transfer.{
  chunk_size, chunk_hdr_bytes, checksums_match, stats, FileOps, file_recv, chunk_init,
}
use mini_dropbox.Transfer.Headers.{IsChunkHdr, length-chunk_hdr_bytes}
use mini_dropbox.Transfer.Arrival.{Delivery}
use mini_dropbox.Transfer.Matching.{checksums_match_self}
use mini_dropbox.Transfer.Completion.{
  ack_hdr, Item, sound, packets, saved, replies, InTurn, file_recv-Finished,
}
use mini_dropbox.Exchange.PlainFile.{plain, opened, joined, written, written-opened}
use mini_dropbox.Files.{Reader}
use mini_dropbox.Sending.{send_chunks}
use mini_dropbox.Sending.Completion.{
  Reads, taken, acks, the_chunk, chunk_msg_hdr, take-all, chunk_packet, chunk_packets,
  send_chunks_complete,
}

-- The blocks of a file, none longer than a chunk.
abbrev pub Small : List (List ℕ) → Type 0
Small [] = Unit
Small (b ∷ bs) = (length b ≤ chunk_size) × Small bs

module _ (digest : List ℕ → List ℕ) (now : ℕ × ℕ) (junk : Message)
    (digest_size : (bs : List ℕ) → length (digest bs) ≡ 32)
    (token_size : length junk.hdr.token ≡ 16) (padding_size : length junk.hdr.padding ≡ 4)
    (seconds_fit : now.0 < span 8) (nanos_fit : now.1 < span 8) where
  module _ (seq start : ℕ) (b : List ℕ) (seq_fits : seq < span 8) (start_fits : start < u64_mod)
      (small : length b ≤ chunk_size) where
    chunk_valid : IsChunkHdr (the_chunk digest now junk seq start b).hdr
    unfolding chunk_init
    chunk_valid = record {
      seq_fits = seq_fits;
      start_fits = omega arith;
      end_fits = omega arith;
      length_fits = omega arith;
      checksum_size = digest_size _;
    }

    delivery :
        Delivery
          (chunk_msg_hdr digest now junk (the_chunk digest now junk seq start b))
          (the_chunk digest now junk seq start b)
    unfolding chunk_init msg_init type_code type_of_code
    delivery = record {
      valid = record {
        length_fits = omega arith;
        type_fits = omega arith;
        type_known = refl;
        token_size = token_size;
        padding_size = padding_size;
        seconds_fit = seconds_fit;
        nanos_fit = nanos_fit;
      };
      chunk_valid = chunk_valid;
      counted = omega (
        arith,
        length-append (chunk_hdr_bytes (the_chunk digest now junk seq start b).hdr) b,
        length-chunk_hdr_bytes (the_chunk digest now junk seq start b).hdr chunk_valid,
      );
      whole = refl;
      small = small;
    }

    checked :
        let c = the_chunk digest now junk seq start b in
        checksums_match (digest (take c.hdr.length c.bytes)) c.hdr.checksum ≡ some true
    checked = rw (take-all digest now junk b) (checksums_match_self (digest b) (digest_size b))

  module _ (later : ℕ × ℕ) {File : Type 0} (fs : FileOps File) where
    -- The chunks of the blocks, from a number and a place in the file on.
    items : ℕ → ℕ → List (List ℕ) → List (Item digest later fs)
    items seq start [] = []
    items seq start (b ∷ bs) =
        sound (chunk_msg_hdr digest now junk (the_chunk digest now junk seq start b))
          (the_chunk digest now junk seq start b)
        ∷ items (suc seq) ((start + length b) % u64_mod) bs

    length-items : (seq start : ℕ) (bs : List (List ℕ)) → length (items seq start bs) ≡ length bs
    unfolding items
    length-items seq start [] = refl
    length-items seq start (b ∷ bs) = ap suc (length-items (suc seq) _ bs)

    items-InTurn :
        (bs : List (List ℕ)) (seq start count : ℕ)
        → Small bs
        → seq + length bs ≡ count
        → count < span 8
        → start < u64_mod
        → InTurn digest later fs (items seq start bs) seq count
    unfolding InTurn items chunk_init
    items-InTurn [] seq start count small c fits s = omega arith
    items-InTurn (b ∷ bs) seq start count small c fits s = (
      delivery seq start b (omega arith) s small.0,
      checked seq start b (omega arith) s small.0,
      refl,
      omega arith,
      items-InTurn bs (suc seq) ((start + length b) % u64_mod) count small.1 (omega arith) fits
          (omega arith),
    )

    packets-items :
        (bs : List (List ℕ)) (seq start : ℕ) (rest : List ℕ)
        → packets digest later fs (items seq start bs) rest
          ≡ chunk_packets digest now junk seq start bs ++ rest
    unfolding packets items chunk_packets chunk_packet hdr_bytes chunk_hdr_bytes
    packets-items [] seq start rest = refl
    packets-items (b ∷ bs) seq start rest =
        rw (packets-items bs (suc seq) ((start + length b) % u64_mod) rest) (simp append_assoc)

    saved-items :
        (bs : List (List ℕ)) (seq start : ℕ) (f : File)
        → saved digest later fs (items seq start bs) f ≡ written fs.write bs f
    unfolding saved items chunk_init
    saved-items [] seq start f = refl
    saved-items (b ∷ bs) seq start f =
        ap
          (λ x.
            saved digest later fs (items (suc seq) ((start + length b) % u64_mod) bs)
              (fs.write x f))
          (take-all digest now junk b)
        ∙ saved-items bs (suc seq) ((start + length b) % u64_mod) (fs.write b f)

    replies-items :
        (bs : List (List ℕ)) (seq start : ℕ) (rest : List ℕ)
        → replies digest later fs (items seq start bs) ++ rest
          ≡ acks (ack_hdr digest later fs msgtype_chunk_ok) bs rest
    unfolding replies items acks
    replies-items [] seq start rest = refl
    replies-items (b ∷ bs) seq start rest =
        append_assoc (hdr_bytes (ack_hdr digest later fs msgtype_chunk_ok)) _ rest
        ∙ ap (λ x. hdr_bytes (ack_hdr digest later fs msgtype_chunk_ok) ++ x)
            (replies-items bs (suc seq) ((start + length b) % u64_mod) rest)

    ack-IsHdr :
        later.0 < span 8 → later.1 < span 8 → IsHdr (ack_hdr digest later fs msgtype_chunk_ok)
    unfolding type_code type_of_code
    ack-IsHdr s n = record {
      length_fits = omega arith;
      type_fits = omega arith;
      type_known = refl;
      token_size = refl;
      padding_size = refl;
      seconds_fit = s;
      nanos_fit = n;
    }

    -- Both sides end, and the receiver has tried to write each block once and in order.
    both_end :
        (unset : ℕ → List ℕ) (bs : List (List ℕ)) (fuel fuel2 : ℕ) (read : Reader) (f : File)
        (more more2 : List ℕ) (os os2 : List SendOutcome) (s r : Socket)
        → later.0 < span 8
        → later.1 < span 8
        → length bs < span 8
        → length bs < fuel
        → length bs ≤ fuel2
        → Reads read 0 bs
        → Small bs
        → s.outcomes ≡ taken bs os
        → r.outcomes ≡ replicate (length bs) (sent hdr_size) ++ os2
        → stream r.incoming ≡ chunk_packets digest now junk 0 0 bs ++ more
        → stream s.incoming ≡ acks (ack_hdr digest later fs msgtype_chunk_ok) bs more2
        → (t : Socket) × (u : Socket) × (send_chunks digest now junk fuel read (length bs) 0 0 0 s
            ≡ ok (stats (length bs) (pos 0), t))
          × (file_recv digest later fs unset fuel2 (length bs) (some f) r
              ≡ ok ((stats (length bs) (pos 0), some (written fs.write bs f)), u))
          × (t.wire ≡ s.wire ++ chunk_packets digest now junk 0 0 bs)
          × (u.wire ++ more2 ≡ r.wire ++ acks (ack_hdr digest later fs msgtype_chunk_ok) bs more2)
          × (stream t.incoming ≡ more2)
          × (stream u.incoming ≡ more)
    both_end unset bs fuel fuel2 read f more more2 os os2 s r sec nan fits l l2 reads small o o2
          coming answers =
        let is = items 0 0 bs in
        let size = length-items 0 0 bs in
        let (t, run, on, w, left) =
          send_chunks_complete digest now junk digest_size token_size padding_size
            (ack_hdr digest later fs msgtype_chunk_ok) (ack-IsHdr sec nan) refl refl bs fuel
            (length bs) 0 0 0 read more2 os s l (omega arith) reads o answers in
        let (u, run2, on2, w2, left2) =
          file_recv-Finished digest later fs unset is fuel2 (length bs) f more os2 r
            (omega (arith, size, l2))
            (items-InTurn bs 0 0 (length bs) small (omega arith) fits (omega arith))
            (coming ∙ sym (packets-items bs 0 0 more))
            (o2 ∙ ap (λ n. replicate n (sent hdr_size) ++ os2) (sym size)) in
        (
          t,
          u,
          run,
          run2 ∙ ap (λ x. ok ((stats (length bs) (pos 0), some x), u)) (saved-items bs 0 0 f),
          w,
          ap (λ x. x ++ more2) w2
              ∙ append_assoc r.wire (replies digest later fs is) more2
              ∙ ap (λ x. r.wire ++ x) (replies-items bs 0 0 more2),
          on,
          on2,
        )

  -- A file of blocks of at most 4096 bytes, read block by block, goes over whole: if what each side
  -- has sent stands on the other's stream, in whatever pieces, the kernels take each part of a
  -- message at once, and the receiver's descriptor is at the start of a file in which every write is
  -- done in full, then both sides end with code 0 and the count, the sender on any fuel above it and
  -- the receiver on any that is not below it; the received file holds the blocks in order, and behind
  -- them what the old content had past their length, as it is not truncated; and neither side has
  -- read or sent anything more.
  pub file_recv-send_chunks :
      (later : ℕ × ℕ) (unset : ℕ → List ℕ) (bs : List (List ℕ)) (fuel fuel2 : ℕ) (read : Reader)
      (old : List ℕ) (more more2 : List ℕ) (os os2 : List SendOutcome) (s r : Socket)
      → later.0 < span 8
      → later.1 < span 8
      → length bs < span 8
      → length bs < fuel
      → length bs ≤ fuel2
      → Reads read 0 bs
      → Small bs
      → s.outcomes ≡ taken bs os
      → r.outcomes ≡ replicate (length bs) (sent hdr_size) ++ os2
      → stream r.incoming ≡ chunk_packets digest now junk 0 0 bs ++ more
      → stream s.incoming ≡ acks (ack_hdr digest later plain msgtype_chunk_ok) bs more2
      → (t : Socket) × (u : Socket) × (send_chunks digest now junk fuel read (length bs) 0 0 0 s
          ≡ ok (stats (length bs) (pos 0), t))
        × (file_recv digest later plain unset fuel2 (length bs) (some (opened old)) r
            ≡ ok (
              (
                stats (length bs) (pos 0),
                some (record {
                  content = joined bs ++ drop (length (joined bs)) old;
                  position = length (joined bs);
                }),
              ),
              u,
            ))
        × (t.wire ≡ s.wire ++ chunk_packets digest now junk 0 0 bs)
        × (u.wire ++ more2 ≡ r.wire ++ acks (ack_hdr digest later plain msgtype_chunk_ok) bs more2)
        × (stream t.incoming ≡ more2)
        × (stream u.incoming ≡ more)
  file_recv-send_chunks later unset bs fuel fuel2 read old more more2 os os2 s r sec nan fits l l2
        reads small o o2 coming answers =
      let (t, u, run, run2, w, w2, on, on2) =
        both_end later plain unset bs fuel fuel2 read (opened old) more more2 os os2 s r sec nan
          fits l l2 reads small o o2 coming answers in
      (
        t,
        u,
        run,
        run2 ∙ ap (λ x. ok ((stats (length bs) (pos 0), some x), u)) (written-opened bs old),
        w,
        w2,
        on,
        on2,
      )
