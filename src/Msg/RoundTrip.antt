-- ===== src/Msg/RoundTrip.antt =====
-- A message of src/msg.c sent by one side and received by the other.
use mini_dropbox.Prelude.{
  ℕ, ◌≡◌, ap, ◌∙◌, sym, Option, some, List, [], ◌++◌, pos, negsuc, if◌then◌else◌, ltb, length,
  append_assoc, Bool-cases, inl, inr,
}
use mini_dropbox.Net.{Socket, ok}
use mini_dropbox.Net.Bind.{bind_run}
use mini_dropbox.Net.Loops.{stream}
use mini_dropbox.Msg.{
  MessageHdr, Message, hdr_bytes, outgoing, msg_send, recv_hdr, msg_recv_payload, msg_recv,
}
use mini_dropbox.Msg.Header.{IsHdr}
use mini_dropbox.Msg.Send.{payload_bytes, hdr_part, packet, msg_send-packet}
use mini_dropbox.Msg.Receive.{Arrives, recv_hdr-block, msg_recv_payload-body}

-- What `msg_recv` makes of a message: with a body of at most `maxlen` bytes the code is 0 and the
-- message has the header, the body, if there is any, and the time; with a longer body the code is
-- -3 and the body stays on the stream.
pub msg_recv-Arrives :
    (now : ℕ × ℕ) (msg : Message) (maxlen : ℕ) (h : MessageHdr) (content rest : List ℕ) (s : Socket)
    → Arrives h content rest s
    → (t : Socket) × (msg_recv now msg maxlen s
        ≡ ok (
          (if ltb maxlen (length content) then (negsuc 2, record msg { hdr = h }) else (
            pos 0,
            if ltb 0 (length content)
                then record msg { hdr = h; rcvd_at = now; payload = some content }
                else record msg { hdr = h; rcvd_at = now },
          )),
          t,
        ))
      × (stream t.incoming ≡ (if ltb maxlen (length content) then content ++ rest else rest))
      × (t.wire ≡ s.wire)
      × (t.outcomes ≡ s.outcomes)
unfolding msg_recv
msg_recv-Arrives now msg maxlen h content rest s a =
    let (t, run, on, w, o) = recv_hdr-block msg h (content ++ rest) s a.valid a.bytes in
    let (u, run2, on2, w2, o2) =
      msg_recv_payload-body (record msg { hdr = h }) maxlen content rest t a.counted on in
    (
      u,
      bind_run (recv_hdr msg) _ s run
          ∙ bind_run (msg_recv_payload (record msg { hdr = h }) maxlen) _ t run2
          ∙ elim (Bool-cases (ltb maxlen (length content))) [
            | inl big ↦ rw big
            | inr small ↦ elim (Bool-cases (ltb 0 (length content))) [
              | inl filled ↦ rw (small, filled)
              | inr empty ↦ rw (small, empty)
            ]
          ],
      on2,
      w2 ∙ w,
      o2 ∙ o,
    )

-- What one side sends with code 0, from an empty wire, the other side receives, whatever the
-- pieces in which it travels: the header as it was stamped and, if there is any, the payload header
-- and the payload in one piece. The length in the header has to count them; if they are more than
-- `maxlen` bytes the code is -3 and they stay on the stream.
pub msg_recv-msg_send :
    (now later : ℕ × ℕ) (m m' msg : Message) (ph : Option (List ℕ)) (maxlen : ℕ) (rest : List ℕ)
    (s t u : Socket)
    → s.wire ≡ []
    → msg_send now m ph s ≡ ok ((pos 0, m'), t)
    → IsHdr m'.hdr
    → m'.hdr.length ≡ length (hdr_part ph ++ payload_bytes m.payload m.payload_len)
    → stream u.incoming ≡ t.wire ++ rest
    → let content = hdr_part ph ++ payload_bytes m.payload m.payload_len in
      (v : Socket) × (msg_recv later msg maxlen u
        ≡ ok (
          (if ltb maxlen (length content) then (negsuc 2, record msg { hdr = m'.hdr }) else (
            pos 0,
            if ltb 0 (length content)
                then record msg { hdr = m'.hdr; rcvd_at = later; payload = some content }
                else record msg { hdr = m'.hdr; rcvd_at = later },
          )),
          v,
        ))
      × (stream v.incoming ≡ (if ltb maxlen (length content) then content ++ rest else rest))
msg_recv-msg_send now later m m' msg ph maxlen rest s t u fresh run valid counted arrived =
    let content = hdr_part ph ++ payload_bytes m.payload m.payload_len in
    let (wire, sent) = msg_send-packet now m m' ph s t run in
    let as_sent : outgoing now ph m.hdr ≡ m'.hdr = ap (λ (x : Message). x.hdr) (sym sent) in
    let (v, got, on, w, o) = msg_recv-Arrives later msg maxlen m'.hdr content rest u (record {
      valid = valid;
      counted = counted;
      bytes =
          arrived
          ∙ ap (λ w. w ++ rest)
              (wire
                ∙ ap (λ w. w ++ packet now m ph) fresh
                ∙ ap (λ h. hdr_bytes h ++ content) as_sent)
          ∙ append_assoc (hdr_bytes m'.hdr) content rest;
    }) in
    (v, got, on)
