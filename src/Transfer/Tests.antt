-- ===== src/Transfer/Tests.antt =====
-- The theorems on transfers at a file of one chunk, which comes broken first.
use mini_dropbox.Prelude.{
  ℕ, ◌≡◌, refl, true, false, arith, none, some, List, [], ◌∷◌, ◌++◌, pos, replicate, take,
}
use mini_dropbox.Net.{sent, arrived, Socket, ok, send_all, recv_all}
use mini_dropbox.Msg.{
  msgtype_send_chunk, MessageHdr, msg_init, msg_clear, zero_hdr, type_code, type_of_code, to_bytes,
  from_bytes, hdr_bytes, hdr_of_bytes, msg_send, recv_hdr, msg_recv_header, msg_recv_payload,
}
use mini_dropbox.Transfer.{
  ChunkHdr, Chunk, chunk_hdr_bytes, chunk_hdr_of_bytes, checksums_match, stats, FileOps, chunk_recv,
  send_ack, place_chunk, accept_chunk, on_chunk, recv_chunks, zero_chunk, file_recv,
}
use mini_dropbox.Net.Loops.{stream}
use mini_dropbox.Msg.Header.{IsHdr}
use mini_dropbox.Transfer.Headers.{IsChunkHdr}
use mini_dropbox.Transfer.Arrival.{chunk_bytes, Delivery, chunk_recv-Delivery}
use mini_dropbox.Transfer.Completion.{
  Item, sound, corrupt, packets, saved, replies, InTurn, file_recv-Finished,
}
use mini_dropbox.Transfer.Recv.{Received, file_recv-Received}

program : Unit {0}
unfolding send_all recv_all msg_init msg_clear type_code type_of_code to_bytes from_bytes hdr_bytes
    hdr_of_bytes msg_send recv_hdr msg_recv_header msg_recv_payload chunk_hdr_bytes
    chunk_hdr_of_bytes checksums_match chunk_recv send_ack place_chunk accept_chunk on_chunk
    recv_chunks file_recv
program = tt

-- A checksum for the tests: the first bytes, filled up.
abbrev digest : List ℕ → List ℕ
digest bs = take 32 (bs ++ replicate 32 0)

abbrev now : ℕ × ℕ
now = (100, 5)

-- A file that is only written at its end.
abbrev fs : FileOps (List ℕ)
fs = record { lseek = λ k f. none; write = λ bs f. f ++ bs }

abbrev chunk_hdr : ChunkHdr
chunk_hdr = record {
  seq = 0;
  start_byte = 0;
  end_byte = 2;
  length = 3;
  checksum = 1 ∷ 2 ∷ 3 ∷ replicate 29 0;
}

abbrev msg_hdr : MessageHdr
msg_hdr = record zero_hdr { length = 67; type = msgtype_send_chunk }

abbrev ack : ℕ → MessageHdr
ack type = record zero_hdr { type = type_of_code type; sent_at = now }

abbrev before : Socket
before = record {
  outcomes = sent 48 ∷ sent 48 ∷ [];
  wire = [];
  incoming =
      arrived (hdr_bytes msg_hdr ++ (chunk_hdr_bytes chunk_hdr ++ (1 ∷ 2 ∷ 9 ∷ [])))
      ∷ arrived (hdr_bytes msg_hdr ++ (chunk_hdr_bytes chunk_hdr ++ (1 ∷ 2 ∷ 3 ∷ [])))
      ∷ [];
  errno = 0;
}

abbrev after : Socket
after = record before {
  outcomes = [];
  wire = hdr_bytes (ack 20) ++ hdr_bytes (ack 19);
  incoming = [];
}

receives :
    file_recv digest now fs (λ n. []) 5 1 (some []) before
    ≡ ok ((stats 1 (pos 0), some (1 ∷ 2 ∷ 3 ∷ [])), after)
unfolding program
receives = refl

file_recv-Received_example : Received digest now fs 1 0 [] (stats 1 (pos 0)) (1 ∷ 2 ∷ 3 ∷ [])
file_recv-Received_example =
    file_recv-Received digest now fs (λ n. []) 5 1 [] (1 ∷ 2 ∷ 3 ∷ []) (stats 1 (pos 0)) before
      after receives

abbrev one_chunk : Socket
one_chunk = record before {
  incoming = arrived (hdr_bytes msg_hdr ++ (chunk_hdr_bytes chunk_hdr ++ (1 ∷ 2 ∷ 3 ∷ []))) ∷ [];
}

abbrev the_chunk : Chunk
the_chunk = record { hdr = chunk_hdr; bytes = 1 ∷ 2 ∷ 3 ∷ [] }

one_received :
    chunk_recv digest now [] zero_chunk one_chunk
    ≡ ok ((pos 3, the_chunk), record before { incoming = [] })
unfolding program
one_received = refl

abbrev broken_chunk : Chunk
broken_chunk = record { hdr = chunk_hdr; bytes = 1 ∷ 2 ∷ 9 ∷ [] }

abbrev items : List (Item digest now fs)
items = corrupt msg_hdr broken_chunk ∷ sound msg_hdr the_chunk ∷ []

chunk_hdr-IsChunkHdr : IsChunkHdr chunk_hdr
chunk_hdr-IsChunkHdr = record {
  seq_fits = omega arith;
  start_fits = omega arith;
  end_fits = omega arith;
  length_fits = omega arith;
  checksum_size = refl;
}

msg_hdr-IsHdr : IsHdr msg_hdr
unfolding program
msg_hdr-IsHdr = record {
  length_fits = omega arith;
  type_fits = omega arith;
  type_known = refl;
  token_size = refl;
  padding_size = refl;
  seconds_fit = omega arith;
  nanos_fit = omega arith;
}

the_chunk-Delivery : Delivery msg_hdr the_chunk
unfolding program
the_chunk-Delivery = record {
  valid = msg_hdr-IsHdr;
  chunk_valid = chunk_hdr-IsChunkHdr;
  counted = refl;
  whole = refl;
  small = omega arith;
}

broken_chunk-Delivery : Delivery msg_hdr broken_chunk
unfolding program
broken_chunk-Delivery = record {
  valid = msg_hdr-IsHdr;
  chunk_valid = chunk_hdr-IsChunkHdr;
  counted = refl;
  whole = refl;
  small = omega arith;
}

the_chunk_matches :
    checksums_match (digest (take 3 (1 ∷ 2 ∷ 3 ∷ []))) chunk_hdr.checksum ≡ some true
unfolding program
the_chunk_matches = refl

broken_chunk_differs :
    checksums_match (digest (take 3 (1 ∷ 2 ∷ 9 ∷ []))) chunk_hdr.checksum ≡ some false
unfolding program
broken_chunk_differs = refl

items-InTurn : InTurn digest now fs items 0 1
unfolding InTurn
items-InTurn = (
  broken_chunk-Delivery,
  broken_chunk_differs,
  omega arith,
  (the_chunk-Delivery, the_chunk_matches, refl, omega arith, refl),
)

arrive : stream before.incoming ≡ packets digest now fs items []
unfolding program packets stream
arrive = refl

file_recv-Finished_example :
    (t : Socket) × (file_recv digest now fs (λ n. []) 5 1 (some []) before
      ≡ ok ((stats 1 (pos 0), some (saved digest now fs items [])), t))
    × (stream t.incoming ≡ [])
    × (t.wire ≡ [] ++ replies digest now fs items)
    × (t.outcomes ≡ [])
file_recv-Finished_example =
    file_recv-Finished digest now fs (λ n. []) items 5 1 [] [] [] before (omega arith) items-InTurn
      arrive refl

arrives : stream one_chunk.incoming ≡ hdr_bytes msg_hdr ++ (chunk_bytes the_chunk ++ [])
unfolding program stream
arrives = refl

chunk_recv-Delivery_example :
    (t : Socket) × (chunk_recv digest now [] zero_chunk one_chunk ≡ ok ((pos 3, the_chunk), t))
    × (stream t.incoming ≡ [])
    × (t.wire ≡ [])
    × (t.outcomes ≡ one_chunk.outcomes)
chunk_recv-Delivery_example =
    chunk_recv-Delivery digest now [] zero_chunk msg_hdr the_chunk true [] one_chunk
      the_chunk-Delivery the_chunk_matches arrives
