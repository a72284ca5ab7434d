-- ===== src/Msg/Tests.antt =====
-- The theorems on messages at a message with a payload header, sent in pieces.
use mini_dropbox.Prelude.{◌≡◌, refl, some, [], ◌∷◌, ◌++◌, pos, arith, replicate}
use mini_dropbox.Net.{sent, send_interrupted, arrived, Socket, ok, send_all, recv_all}
use mini_dropbox.Net.Loops.{stream}
use mini_dropbox.Msg.{
  msgtype_send_chunk, MessageHdr, Message, msg_init, msg_clear, type_code, type_of_code, to_bytes,
  from_bytes, hdr_bytes, hdr_of_bytes, msg_send, recv_hdr, msg_recv_header, msg_recv_payload,
  msg_recv,
}
use mini_dropbox.Msg.Header.{IsHdr, hdr_of_bytes-hdr_bytes}
use mini_dropbox.Msg.Receive.{Arrives}
use mini_dropbox.Msg.RoundTrip.{msg_recv-msg_send}

program : Unit {0}
unfolding send_all recv_all stream msg_init msg_clear type_code type_of_code to_bytes from_bytes
    hdr_bytes hdr_of_bytes msg_send recv_hdr msg_recv_header msg_recv_payload msg_recv
program = tt

abbrev hdr : MessageHdr
hdr = record {
  length = 3;
  type = msgtype_send_chunk;
  token = replicate 16 7;
  padding = replicate 4 0;
  sent_at = (0, 0);
}

abbrev letter : Message
letter = record { hdr = hdr; rcvd_at = (0, 0); payload = some (1 ∷ 2 ∷ 3 ∷ []); payload_len = 3 }

abbrev out_hdr : MessageHdr
out_hdr = record hdr { length = 4; sent_at = (100, 5) }

abbrev letter_out : Message
letter_out = record letter { hdr = out_hdr }

abbrev sender : Socket
sender = record {
  outcomes = sent 30 ∷ send_interrupted ∷ sent 30 ∷ sent 1 ∷ sent 2 ∷ sent 2 ∷ [];
  wire = [];
  incoming = [];
  errno = 0;
}

abbrev sender_after : Socket
sender_after = record sender {
  outcomes = [];
  wire = hdr_bytes out_hdr ++ (9 ∷ 1 ∷ 2 ∷ 3 ∷ []);
  errno = 4;
}

out_hdr-IsHdr : IsHdr out_hdr
unfolding program
out_hdr-IsHdr = record {
  length_fits = omega arith;
  type_fits = omega arith;
  type_known = refl;
  token_size = refl;
  padding_size = refl;
  seconds_fit = omega arith;
  nanos_fit = omega arith;
}

sends : msg_send (100, 5) letter (some (9 ∷ [])) sender ≡ ok ((pos 0, letter_out), sender_after)
unfolding program
sends = refl

read_back : hdr_of_bytes (hdr_bytes out_hdr ++ (5 ∷ [])) ≡ out_hdr
read_back = hdr_of_bytes-hdr_bytes out_hdr (5 ∷ []) out_hdr-IsHdr

abbrev receiver : Socket
receiver = record sender { incoming = arrived (sender_after.wire ++ (8 ∷ [])) ∷ [] }

arrives : stream receiver.incoming ≡ sender_after.wire ++ (8 ∷ [])
unfolding program
arrives = refl

receiver-Arrives : Arrives out_hdr (9 ∷ 1 ∷ 2 ∷ 3 ∷ []) (8 ∷ []) receiver
unfolding program
receiver-Arrives = record { valid = out_hdr-IsHdr; counted = refl; bytes = refl }

msg_recv-msg_send_example :
    (v : Socket) × (msg_recv (7, 7) letter 4 receiver
      ≡ ok (
        (
          pos 0,
          record letter { hdr = out_hdr; rcvd_at = (7, 7); payload = some (9 ∷ 1 ∷ 2 ∷ 3 ∷ []) },
        ),
        v,
      ))
    × (stream v.incoming ≡ 8 ∷ [])
msg_recv-msg_send_example =
    msg_recv-msg_send (100, 5) (7, 7) letter letter_out letter (some (9 ∷ [])) 4 (8 ∷ []) sender
      sender_after receiver refl sends out_hdr-IsHdr refl arrives
