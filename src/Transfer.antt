-- ===== src/Transfer.antt =====
-- src/chunk.c and src/file.c: chunks of a file as messages, and the sending and receiving loops.
-- `digest` is SHA-256 of libcrypto. `none` of `read` is an error. A loop takes fuel; a run that
-- uses it up counts as blocked. Undefined behaviour (a copy from NULL, a read past the memory of
-- the payload) counts as an abort.
pub mod Chunks
pub mod Recv
pub mod Headers
pub mod Arrival
pub mod Completion
pub mod Matching
mod Tests
use mini_dropbox.Prelude.{
  ℕ, zero, suc, ◌+◌, ◌-◌, ◌*◌, ◌%◌, ◌^◌, Bool, true, false, not, ◌&&◌, ◌||◌, Option, none, some,
  List, [], ◌∷◌, ◌++◌, ℤ, pos, negsuc, is_neg, if◌then◌else◌, ◌==◌, ltb, leb, bytes_eq, ◌⊎◌, inl,
  inr, length, take, drop, replicate,
}
use mini_dropbox.UserMap.{u64_mod}
use mini_dropbox.Net.{Socket, Run, ok, blocked, aborted, Io, pure, ◌>>=◌}
use mini_dropbox.Msg.{
  MessageType, msgtype_send_chunk, msgtype_chunk_ok, msgtype_chunk_again, MessageHdr, Message,
  msg_init, msg_clear, msg_send, msg_recv_header, msg_recv_payload, msg_recv, to_bytes, from_bytes,
  overwrite, type_code, return_if_neg,
}

abbrev pub chunk_size : ℕ
chunk_size = 4096

pub record ChunkHdr : Type 0 where
  pub seq : ℕ
  pub start_byte : ℕ
  pub end_byte : ℕ
  pub length : ℕ
  pub checksum : List ℕ

pub record Chunk : Type 0 where
  pub hdr : ChunkHdr
  pub bytes : List ℕ

-- sizeof(ChunkHdr)
abbrev pub chunk_hdr_size : ℕ
chunk_hdr_size = 64

unfoldable pub chunk_hdr_bytes : ChunkHdr → List ℕ
chunk_hdr_bytes h =
    to_bytes 8 h.seq
    ++ (to_bytes 8 h.start_byte ++ (to_bytes 8 h.end_byte ++ (to_bytes 8 h.length ++ h.checksum)))

unfoldable pub chunk_hdr_of_bytes : List ℕ → ChunkHdr
chunk_hdr_of_bytes bs = record {
  seq = from_bytes (take 8 bs);
  start_byte = from_bytes (take 8 (drop 8 bs));
  end_byte = from_bytes (take 8 (drop 16 bs));
  length = from_bytes (take 8 (drop 24 bs));
  checksum = take 32 (drop 32 bs);
}

-- for (i = 0; i < sizeof(checksum_t); i++) if (chk1[i] != chk2[i]) return false;
match_from : ℕ → List ℕ → List ℕ → Option Bool
match_from zero a b = some true
match_from (suc n) [] b = none
match_from (suc n) (x ∷ a) [] = none
match_from (suc n) (x ∷ a) (y ∷ b) = if x == y then match_from n a b else some false

-- `none` is a read past one of the arrays.
unfoldable pub checksums_match : List ℕ → List ℕ → Option Bool
unfolding match_from
checksums_match chk1 chk2 = match_from 32 chk1 chk2

-- `{ 0 }`
abbrev pub zero_chunk : Chunk
zero_chunk = record {
  hdr = record { seq = 0; start_byte = 0; end_byte = 0; length = 0; checksum = replicate 32 0 };
  bytes = [];
}

-- What stands in front of a failed or stopped transfer: how far it came, and the error code.
pub record Stats : Type 0 where
  pub last_chunk : ℕ
  pub error_code : ℤ

abbrev pub stats : ℕ → ℤ → Stats
stats n e = record { last_chunk = n; error_code = e }

module _ (digest : List ℕ → List ℕ) (now : ℕ × ℕ) where
  unfoldable pub chunk_init : ChunkHdr → List ℕ → Chunk
  chunk_init hdr bytes = record {
    hdr = record hdr { checksum = digest (take hdr.length bytes) };
    bytes = bytes;
  }

  -- `msg` is what the local struct holds before `msg_init`.
  unfoldable pub chunk_send : Message → Chunk → Io ℤ
  chunk_send msg self = do
    let filled = msg_init msg msgtype_send_chunk (some self.bytes) self.hdr.length
    r ← msg_send now filled (some (chunk_hdr_bytes self.hdr))
    return_if_neg r.0 r.0 (pure (pos self.hdr.length))

  -- The code for what the comparison of the checksums gave.
  verdict : Option Bool → ℤ → Chunk → Io (ℤ × Chunk)
  verdict none code chunk s = aborted
  verdict (some false) code chunk s = ok ((negsuc 2, chunk), s)
  verdict (some true) code chunk s = ok ((code, chunk), s)

  -- memcpy, checksum and checksums_match, on the bytes of a payload of at least a `ChunkHdr`
  check_chunk : ℤ → Chunk → Io (ℤ × Chunk)
  unfolding verdict
  check_chunk code chunk =
      if ltb (length chunk.bytes) chunk.hdr.length
      then (λ s. aborted)
      else verdict (checksums_match (digest (take chunk.hdr.length chunk.bytes)) chunk.hdr.checksum)
          code chunk

  -- The first `len` bytes at `msg.payload`: those that were received, and behind them what `malloc`
  -- gave, where the payload was cut off.
  check_payload : List ℕ → ℕ → Option (List ℕ) → Io (ℤ × Chunk)
  unfolding check_chunk
  check_payload unset len none s = aborted
  check_payload unset len (some p) s =
      let buffer = take len (overwrite p unset) in
      if ltb (length buffer) chunk_hdr_size
      then aborted
      else check_chunk (pos (len - chunk_hdr_size))
          (record {
            hdr = chunk_hdr_of_bytes (take chunk_hdr_size buffer);
            bytes = drop chunk_hdr_size buffer;
          })
          s

  -- The code, and what `self` holds then. What `msg_recv_payload` returns is not looked at;
  -- `unset` is the memory that it gets for the payload.
  unfoldable pub chunk_recv : List ℕ → Chunk → Io (ℤ × Chunk)
  unfolding check_payload
  chunk_recv unset self = do
    r ← msg_recv_header now msg_clear
    return_if_neg r.0 (r.0, self)
        (if ltb r.1.hdr.length chunk_hdr_size then pure (negsuc 3, self) else (do
          q ← msg_recv_payload r.1 (chunk_hdr_size + chunk_size)
          check_payload unset q.1.hdr.length q.1.payload))

-- A regular file that a descriptor is open on, at a position. `lseek` gives `none` where it fails;
-- `write` is the file after a write, whatever part of the bytes it took or if it failed: the code does
-- not look at its result, and a theorem for any `FileOps` says which writes are tried. PlainFile of
-- Exchange is a file in which every write is done in full.
pub record FileOps (File : Type 0) : Type 0 where
  pub lseek : ℕ → File → Option File
  pub write : List ℕ → File → File

module _ (digest : List ℕ → List ℕ) (now : ℕ × ℕ) {File : Type 0} (fs : FileOps File) where
  -- `msg_init` sets all of the local message but the token and the padding, which stay 0.
  unfoldable pub send_ack : MessageType → Io ℤ
  send_ack type = do r ← msg_send now (msg_init msg_clear type none 0) none; pure r.0

  -- The checks of a chunk whose checksum matched: the position at which it is expected, the file
  -- there, or the stats that are returned.
  unfoldable pub place_chunk : ℕ → Chunk → File → Stats ⊎ (ℕ × File)
  place_chunk seq chunk file =
      if seq == 0 && ltb 0 chunk.hdr.seq
      then elim (fs.lseek ((chunk.hdr.seq * chunk_size) % u64_mod) file) [
        | none ↦ inl (stats chunk.hdr.seq (negsuc 2))
        | some moved ↦ inr (chunk.hdr.seq, moved)
      ]
      else if seq == chunk.hdr.seq
      then inr (seq, file)
      else inl (stats seq (negsuc 3))

  -- Such a chunk is acknowledged and then written, and `next` goes on.
  unfoldable pub accept_chunk :
      Stats ⊎ (ℕ × File) → Chunk → File → (ℕ → File → Io (Stats × File)) → Io (Stats × File)
  accept_chunk (inl st) chunk file next = pure (st, file)
  accept_chunk (inr (seq, moved)) chunk file next = do
    res ← send_ack msgtype_chunk_ok
    return_if_neg res (stats seq res, moved)
        (next (suc seq) (fs.write (take chunk.hdr.length chunk.bytes) moved))

  -- One chunk that was received with the code `nbytes`. A code of -3 means a wrong checksum.
  unfoldable pub on_chunk :
      ℤ → Chunk → ℕ → File → (ℕ → File → Io (Stats × File)) → Io (Stats × File)
  unfolding accept_chunk place_chunk
  on_chunk (negsuc (suc (suc zero))) chunk seq file next = do
    res ← send_ack msgtype_chunk_again
    return_if_neg res (stats seq res, file) (next seq file)
  on_chunk (negsuc n) chunk seq file next = pure (stats seq (negsuc n), file)
  on_chunk (pos n) chunk seq file next = accept_chunk (place_chunk seq chunk file) chunk file next

  -- while (seq < info->chunk_count), on fuel; `unset` is the memory that each round gets
  unfoldable pub recv_chunks : (ℕ → List ℕ) → ℕ → ℕ → Chunk → ℕ → File → Io (Stats × File)
  recv_chunks unset zero count chunk seq file =
      if ltb seq count then (λ s. blocked) else pure (stats seq (pos 0), file)
  recv_chunks unset (suc fuel) count chunk seq file =
      if ltb seq count
      then (do
        r ← chunk_recv digest now (unset fuel) chunk
        on_chunk r.0 r.1 seq file (recv_chunks unset fuel count r.1))
      else pure (stats seq (pos 0), file)

  -- `opened` is what `open` gives; a file that was there keeps its content.
  unfoldable pub file_recv : (ℕ → List ℕ) → ℕ → ℕ → Option File → Io (Stats × Option File)
  unfolding recv_chunks on_chunk accept_chunk place_chunk send_ack
  file_recv unset fuel count none = pure (stats 0 (negsuc 0), none)
  file_recv unset fuel count (some file) = do
    r ← recv_chunks unset fuel count zero_chunk 0 file
    pure (r.0, some r.1)
