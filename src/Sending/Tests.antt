-- ===== src/Sending/Tests.antt =====
-- The theorem on sending at a file of two blocks.
use mini_dropbox.Prelude.{
  ℕ, ◌≡◌, refl, Option, none, some, List, [], ◌∷◌, ◌++◌, pos, length, replicate, arith,
  if◌then◌else◌, ◌==◌,
}
use mini_dropbox.Net.{sent, arrived, Socket, ok}
use mini_dropbox.Net.Loops.{stream}
use mini_dropbox.Msg.{
  msgtype_chunk_ok, MessageHdr, Message, zero_hdr, type_code, type_of_code, to_bytes, hdr_bytes,
}
use mini_dropbox.Msg.Header.{IsHdr}
use mini_dropbox.Transfer.{stats}
use mini_dropbox.Sending.{send_chunks}
use mini_dropbox.Sending.Completion.{chunk_packets, Reads, taken, acks, send_chunks_complete}

abbrev digest : List ℕ → List ℕ
digest bs = replicate 32 (length bs)

digest_size : (bs : List ℕ) → length (digest bs) ≡ 32
digest_size bs = refl

abbrev ack : MessageHdr
ack = record zero_hdr { type = msgtype_chunk_ok; sent_at = (100, 6) }

ack-IsHdr : IsHdr ack
unfolding type_code type_of_code
ack-IsHdr = record {
  length_fits = omega arith;
  type_fits = omega arith;
  type_known = refl;
  token_size = refl;
  padding_size = refl;
  seconds_fit = omega arith;
  nanos_fit = omega arith;
}

abbrev read : ℕ → Option (List ℕ)
read at = if at == 0 then some (1 ∷ 2 ∷ []) else some (3 ∷ [])

abbrev blocks : List (List ℕ)
blocks = (1 ∷ 2 ∷ []) ∷ (3 ∷ []) ∷ []

blocks-Reads : Reads read 0 blocks
unfolding Reads
blocks-Reads = (refl, (refl, tt))

abbrev before : Socket
before = record {
  outcomes = sent 48 ∷ sent 64 ∷ sent 2 ∷ sent 48 ∷ sent 64 ∷ sent 1 ∷ [];
  wire = [];
  incoming = arrived (hdr_bytes ack) ∷ arrived (hdr_bytes ack) ∷ [];
  errno = 0;
}

abbrev junk : Message
junk = record {
  hdr = record zero_hdr { token = replicate 16 9 };
  rcvd_at = (0, 0);
  payload = none;
  payload_len = 0;
}

outcomes_taken : before.outcomes ≡ taken blocks []
unfolding taken
outcomes_taken = refl

answers_arrive : stream before.incoming ≡ acks ack blocks []
unfolding stream acks hdr_bytes to_bytes type_code
answers_arrive = refl

send_chunks_complete_example :
    (t : Socket) × (send_chunks digest (100, 5) junk 4 read 2 0 0 0 before
      ≡ ok (stats 2 (pos 0), t))
    × (stream t.incoming ≡ [])
    × (t.wire ≡ [] ++ chunk_packets digest (100, 5) junk 0 0 blocks)
    × (t.outcomes ≡ [])
send_chunks_complete_example =
    send_chunks_complete digest (100, 5) junk digest_size refl refl ack ack-IsHdr refl refl blocks 4
      2 0 0 0 read [] [] before (omega arith) refl blocks-Reads outcomes_taken answers_arrive
