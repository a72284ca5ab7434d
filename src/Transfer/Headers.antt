-- ===== src/Transfer/Headers.antt =====
-- The bytes of a chunk header of src/chunk.h, and back.
use mini_dropbox.Prelude.{
  ℕ, ◌<◌, ◌≡◌, ap, ◌∙◌, sym, List, [], ◌++◌, arith, length, length-append, take, drop, append-nil,
}
use mini_dropbox.Msg.{to_bytes, from_bytes}
use mini_dropbox.Msg.Header.{
  span, from_bytes-to_bytes, length-to_bytes, take-append_exact, drop-append_exact, drop-drop,
}
use mini_dropbox.Transfer.{ChunkHdr, chunk_hdr_size, chunk_hdr_bytes, chunk_hdr_of_bytes}

-- The numbers fit their fields, and the checksum its array.
pub record IsChunkHdr (h : ChunkHdr) : Type 0 where
  pub seq_fits : h.seq < span 8
  pub start_fits : h.start_byte < span 8
  pub end_fits : h.end_byte < span 8
  pub length_fits : h.length < span 8
  pub checksum_size : length h.checksum ≡ 32

pub length-chunk_hdr_bytes :
    (h : ChunkHdr) → IsChunkHdr h → length (chunk_hdr_bytes h) ≡ chunk_hdr_size
unfolding chunk_hdr_bytes
length-chunk_hdr_bytes h v = simp length-append (
    omega (
      arith,
      v.checksum_size,
      length-to_bytes 8 h.seq,
      length-to_bytes 8 h.start_byte,
      length-to_bytes 8 h.end_byte,
      length-to_bytes 8 h.length,
    ))

module _ (h : ChunkHdr) (v : IsChunkHdr h) where
  at_8 :
      drop 8 (chunk_hdr_bytes h)
      ≡ to_bytes 8 h.start_byte ++ (to_bytes 8 h.end_byte ++ (to_bytes 8 h.length ++ h.checksum))
  unfolding chunk_hdr_bytes
  at_8 = drop-append_exact 8 (to_bytes 8 h.seq) _ (length-to_bytes 8 h.seq)

  at_16 : drop 16 (chunk_hdr_bytes h) ≡ to_bytes 8 h.end_byte ++ (to_bytes 8 h.length ++ h.checksum)
  at_16 =
      drop-drop 8 8 (chunk_hdr_bytes h)
      ∙ ap (drop 8) at_8
      ∙ drop-append_exact 8 (to_bytes 8 h.start_byte) _ (length-to_bytes 8 h.start_byte)

  at_24 : drop 24 (chunk_hdr_bytes h) ≡ to_bytes 8 h.length ++ h.checksum
  at_24 =
      drop-drop 16 8 (chunk_hdr_bytes h)
      ∙ ap (drop 8) at_16
      ∙ drop-append_exact 8 (to_bytes 8 h.end_byte) _ (length-to_bytes 8 h.end_byte)

  at_32 : drop 32 (chunk_hdr_bytes h) ≡ h.checksum
  at_32 =
      drop-drop 24 8 (chunk_hdr_bytes h)
      ∙ ap (drop 8) at_24
      ∙ drop-append_exact 8 (to_bytes 8 h.length) _ (length-to_bytes 8 h.length)

  number : (n : ℕ) (after : List ℕ) → n < span 8 → from_bytes (take 8 (to_bytes 8 n ++ after)) ≡ n
  number n after fits =
      ap from_bytes (take-append_exact 8 (to_bytes 8 n) after (length-to_bytes 8 n))
      ∙ from_bytes-to_bytes 8 n fits

  -- A chunk header that fits its fields is read back from its bytes.
  pub chunk_hdr_of_bytes-chunk_hdr_bytes : chunk_hdr_of_bytes (chunk_hdr_bytes h) ≡ h
  unfolding chunk_hdr_of_bytes
  chunk_hdr_of_bytes-chunk_hdr_bytes = λ i. record {
    seq = seq_eq i;
    start_byte = start_eq i;
    end_byte = end_eq i;
    length = length_eq i;
    checksum = checksum_eq i;
  }
    where
      seq_eq : from_bytes (take 8 (chunk_hdr_bytes h)) ≡ h.seq
      seq_eq = unfold chunk_hdr_bytes in number h.seq _ v.seq_fits

      start_eq : from_bytes (take 8 (drop 8 (chunk_hdr_bytes h))) ≡ h.start_byte
      start_eq = ap (λ x. from_bytes (take 8 x)) at_8 ∙ number h.start_byte _ v.start_fits

      end_eq : from_bytes (take 8 (drop 16 (chunk_hdr_bytes h))) ≡ h.end_byte
      end_eq = ap (λ x. from_bytes (take 8 x)) at_16 ∙ number h.end_byte _ v.end_fits

      length_eq : from_bytes (take 8 (drop 24 (chunk_hdr_bytes h))) ≡ h.length
      length_eq = ap (λ x. from_bytes (take 8 x)) at_24 ∙ number h.length _ v.length_fits

      checksum_eq : take 32 (drop 32 (chunk_hdr_bytes h)) ≡ h.checksum
      checksum_eq =
          ap (take 32) (at_32 ∙ sym (append-nil h.checksum))
          ∙ take-append_exact 32 h.checksum [] v.checksum_size
