-- ===== src/Sending.antt =====
-- `file_send` of src/file.c.
-- A loop takes fuel, one for each message; a run that uses it up counts as blocked.
pub mod Completion
mod Tests
use mini_dropbox.Prelude.{
  ℕ, zero, suc, ◌+◌, ◌-◌, ◌*◌, ◌%◌, ◌^◌, Bool, true, false, none, some, List, [], ◌∷◌, ℤ, pos,
  negsuc, if◌then◌else◌, ltb, length, replicate, inl, inr, ◌⊎◌,
}
use mini_dropbox.UserMap.{u64_mod}
use mini_dropbox.Session.{FileInfo}
use mini_dropbox.Net.{blocked, aborted, Io, pure, ◌>>=◌}
use mini_dropbox.Msg.{MessageType, msgtype_chunk_ok, Message, msg_clear, msg_recv, return_if_neg}
use mini_dropbox.Transfer.{ChunkHdr, Chunk, chunk_size, Stats, stats, chunk_init, chunk_send}
use mini_dropbox.Files.{Os, Reader, fileinfo_from_filename}

abbrev pub is_chunk_ok : MessageType → Bool
is_chunk_ok msgtype_chunk_ok = true
is_chunk_ok _ = false

-- seq - 1 on 64 bits
abbrev pub before : ℕ → ℕ
before seq = (seq + (u64_mod - 1)) % u64_mod

-- The position behind `lseek(fd, n, SEEK_SET)` on a new descriptor, which a negative `off_t` leaves
-- at the start.
abbrev pub seek_set : ℕ → ℕ
seek_set n = if ltb n (2 ^ 63) then n else 0

-- `junk` is what the local message of `chunk_send` holds.
module _ (digest : List ℕ → List ℕ) (now : ℕ × ℕ) (junk : Message) where
  -- while (msg.hdr.type != MSGTYPE_CHUNK_OK): 0, or the code of the failure
  unfoldable pub send_until_ok : ℕ → Chunk → Message → Io ℤ
  send_until_ok zero chunk msg = if is_chunk_ok msg.hdr.type then pure (pos 0) else (λ s. blocked)
  send_until_ok (suc fuel) chunk msg = if is_chunk_ok msg.hdr.type then pure (pos 0) else (do
    sent ← chunk_send digest now junk chunk
    return_if_neg sent (negsuc 4)
        (do r ← msg_recv now msg 0; return_if_neg r.0 (negsuc 5) (send_until_ok fuel chunk r.1)))

  abbrev pub chunk_hdr : ℕ → ℕ → List ℕ → ChunkHdr
  chunk_hdr seq start buf = record {
    seq = seq;
    start_byte = start;
    end_byte = ((start + length buf) % u64_mod + (u64_mod - 1)) % u64_mod;
    length = length buf;
    checksum = replicate 32 0;
  }

  -- while (seq < info.chunk_count): the descriptor stands at the position `at`
  unfoldable pub send_chunks : ℕ → Reader → ℕ → ℕ → ℕ → ℕ → Io Stats
  unfolding send_until_ok
  send_chunks zero read count seq start at =
      if ltb seq count then (λ s. blocked) else pure (stats seq (pos 0))
  send_chunks (suc fuel) read count seq start at =
      if ltb seq count
      then elim (read at) [
        | none ↦ pure (stats (seq + 1) (negsuc 0))
        | some [] ↦ pure (stats (seq + 1) (negsuc 0))
        | some (b ∷ buf) ↦ do
          res ←
              send_until_ok fuel (chunk_init digest now (chunk_hdr seq start (b ∷ buf)) (b ∷ buf))
                msg_clear
          return_if_neg res (stats (before seq) res) (
              send_chunks fuel read count (suc seq) ((start + length (b ∷ buf)) % u64_mod)
                (at + length (b ∷ buf)))
      ]
      else pure (stats seq (pos 0))

  -- Behind `open`.
  send_opened : ℕ → FileInfo → ℕ ⊎ Reader → ℕ → Io Stats
  unfolding send_chunks
  send_opened fuel info (inl errno) start_chunk = pure (stats 0 (negsuc 0))
  send_opened fuel info (inr read) start_chunk =
      let start = (start_chunk * chunk_size) % u64_mod in
      if ltb 0 start_chunk
      then send_chunks fuel read info.chunk_count start_chunk start (seek_set start)
      else send_chunks fuel read info.chunk_count 0 0 0

  -- Only the code -1 of `fileinfo_from_filename` ends it; `unset` is what `info` holds before.
  unfoldable pub file_send : {W : Type 0} → Os W → ℕ → FileInfo → List ℕ → ℕ → W → Io Stats
  unfolding send_opened
  file_send os fuel unset filename start_chunk w =
      elim (fileinfo_from_filename digest os fuel filename unset w) [
        | none ↦ (λ s. aborted)
        | some (negsuc zero, info) ↦ pure (stats 0 (negsuc 0))
        | some (negsuc (suc n), info) ↦
            send_opened fuel info (os.open_rdonly filename w) start_chunk
        | some (pos n, info) ↦ send_opened fuel info (os.open_rdonly filename w) start_chunk
      ]
