-- ===== src/Msg/Send.antt =====
-- What `msg_send` of src/msg.c puts on the wire.
use mini_dropbox.Prelude.{
  ℕ, ◌≡◌, refl, ap, ◌∙◌, sym, false, false≢true, Option, none, some, List, [], ◌++◌, ℤ, pos, negsuc,
  is_neg, if◌then◌else◌, ltb, arith, length, take, append_assoc, append-nil, Bool-cases, inl, inr,
}
use mini_dropbox.Net.{Socket, Run, ok, aborted, Io, pure, send_all}
use mini_dropbox.Net.Bind.{bind_ok}
use mini_dropbox.Net.Loops.{Sent, send_all-Sent}
use mini_dropbox.Msg.{
  Message, hdr_bytes, outgoing, send_payload, send_payload_hdr, return_if_neg, msg_send,
}

-- Past a check that the code is not negative.
pub checked {ℓ} :
    {A : Type ℓ} (ret : ℤ) (a : A) (k : Io (ℤ × A)) (s : Socket) {b : A} {t : Socket}
    → return_if_neg ret (ret, a) k s ≡ ok ((pos 0, b), t)
    → (is_neg ret ≡ false) × (k s ≡ ok ((pos 0, b), t))
checked (pos n) a k s e = (refl, e)
checked (negsuc n) a k s e = cc

-- A send whose code is not negative has sent all.
pub send_all-wire :
    (buf : List ℕ) (s t : Socket) (r : ℤ)
    → send_all buf s ≡ ok (r, t)
    → is_neg r ≡ false
    → t.wire ≡ s.wire ++ buf
send_all-wire buf s t r e n = go (send_all-Sent buf s t r e)
  where
    go : Sent buf s r t → t.wire ≡ s.wire ++ buf
    go sent = elim sent.code [
      | inl (z, none_left) ↦
          sent.on_wire
          ∙ ap (λ p. s.wire ++ p)
              (sym (sent.split ∙ ap (λ x. sent.prefix ++ x) none_left ∙ append-nil sent.prefix))
      | inr (c, some_left) ↦ elim c [
        | inl d ↦ absurd (false≢true (sym n ∙ ap is_neg d))
        | inr d ↦ absurd (false≢true (sym n ∙ ap is_neg d))
      ]
    ]

-- The payload, as far as `payload_len` counts it.
abbrev pub payload_bytes : Option (List ℕ) → ℕ → List ℕ
payload_bytes none len = []
payload_bytes (some p) len = take len p

abbrev pub hdr_part : Option (List ℕ) → List ℕ
hdr_part none = []
hdr_part (some bytes) = bytes

-- All bytes of a message: the stamped header, the payload header and the payload.
abbrev pub packet : ℕ × ℕ → Message → Option (List ℕ) → List ℕ
packet now m payload_hdr =
    hdr_bytes (outgoing now payload_hdr m.hdr)
    ++ (hdr_part payload_hdr ++ payload_bytes m.payload m.payload_len)

send_payload-wire :
    (m : Message) (s t : Socket) (r : ℤ)
    → send_payload m s ≡ ok (r, t)
    → is_neg r ≡ false
    → t.wire ≡ s.wire ++ payload_bytes m.payload m.payload_len
unfolding send_payload
send_payload-wire m s t r e n = go m.payload e
  where
    go :
        (p : Option (List ℕ))
        → (elim p as (λ _. Io ℤ) [
          | none ↦ pure (pos 0)
          | some q ↦
              if ltb (length q) m.payload_len
              then (λ s. aborted)
              else send_all (take m.payload_len q)
        ])
            s
          ≡ ok (r, t)
        → t.wire ≡ s.wire ++ payload_bytes p m.payload_len
    go none e = ground (arith, append-nil s.wire)
    go (some q) e = elim (Bool-cases (ltb (length q) m.payload_len)) [
      | inl over ↦ absurd (stuck (rw over at e))
      | inr fits ↦ send_all-wire (take m.payload_len q) s t r (rw fits at e) n
    ]
      where
        stuck : ◌≡◌ {A = Run (ℤ × Socket)} aborted (ok (r, t)) → ⊥
        stuck x = cc

send_payload_hdr-wire :
    (ph : Option (List ℕ)) (s t : Socket) (r : ℤ)
    → send_payload_hdr ph s ≡ ok (r, t)
    → is_neg r ≡ false
    → t.wire ≡ s.wire ++ hdr_part ph
unfolding send_payload_hdr
send_payload_hdr-wire none s t r e n = ground (arith, append-nil s.wire)
send_payload_hdr-wire (some bytes) s t r e n = send_all-wire bytes s t r e n

ok_pair :
    {m m' : Message} {s t : Socket}
    → ◌≡◌ {A = Run ((ℤ × Message) × Socket)} (ok ((pos 0, m), s)) (ok ((pos 0, m'), t))
    → (m ≡ m') × (s ≡ t)
ok_pair e = (cc, cc)

regroup : (a b c d : List ℕ) → ((a ++ b) ++ c) ++ d ≡ a ++ (b ++ (c ++ d))
regroup a b c d = simp append_assoc

-- A `msg_send` that returns 0 has put the whole message on the wire, and hands back the message
-- with its header as it went out.
pub msg_send-packet :
    (now : ℕ × ℕ) (m m' : Message) (ph : Option (List ℕ)) (s t : Socket)
    → msg_send now m ph s ≡ ok ((pos 0, m'), t)
    → (t.wire ≡ s.wire ++ packet now m ph) × (m' ≡ record m { hdr = outgoing now ph m.hdr })
unfolding msg_send
msg_send-packet now m m' ph s t e =
    let stamped : Message = record m { hdr = outgoing now ph m.hdr } in
    let (r1, s1, e1, f1) = bind_ok (send_all (hdr_bytes stamped.hdr)) _ s e in
    let (n1, k1) = checked r1 stamped _ s1 f1 in
    let (r2, s2, e2, f2) = bind_ok (send_payload_hdr ph) _ s1 k1 in
    let (n2, k2) = checked r2 stamped _ s2 f2 in
    let (r3, s3, e3, f3) = bind_ok (send_payload stamped) _ s2 k2 in
    let (n3, k3) = checked r3 stamped _ s3 f3 in
    let w1 = send_all-wire (hdr_bytes stamped.hdr) s s1 r1 e1 n1 in
    let w2 = send_payload_hdr-wire ph s1 s2 r2 e2 n2 in
    let w3 = send_payload-wire stamped s2 s3 r3 e3 n3 in
    let (same_m, same_s) = ok_pair k3 in
    (
      ap (λ (x : Socket). x.wire) (sym same_s)
          ∙ w3
          ∙ ap (λ x. x ++ payload_bytes m.payload m.payload_len)
              (w2 ∙ ap (λ x. x ++ hdr_part ph) w1)
          ∙ regroup s.wire (hdr_bytes stamped.hdr) (hdr_part ph)
              (payload_bytes m.payload m.payload_len),
      sym same_m,
    )
