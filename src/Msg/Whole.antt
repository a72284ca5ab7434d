-- ===== src/Msg/Whole.antt =====
-- `msg_send` of src/msg.c when the kernel takes each part of the message at once.
use mini_dropbox.Prelude.{
  ℕ, suc, ◌≡◌, refl, ap, ◌∙◌, false, none, some, List, [], ◌∷◌, ◌++◌, pos, length, take, ltb, arith,
  append_assoc,
}
use mini_dropbox.Net.{SendOutcome, sent, Socket, ok, send_all}
use mini_dropbox.Net.Bind.{bind_run}
use mini_dropbox.Net.Whole.{send_all-once}
use mini_dropbox.Msg.{
  MessageHdr, Message, hdr_size, hdr_bytes, outgoing, send_payload, send_payload_hdr, msg_send,
}

pub msg_send-once :
    (now : ℕ × ℕ) (m : Message) (os : List SendOutcome) (s : Socket)
    → m.payload ≡ none
    → length (hdr_bytes (outgoing now none m.hdr)) ≡ hdr_size
    → s.outcomes ≡ sent hdr_size ∷ os
    → msg_send now m none s
      ≡ ok (
        (pos 0, record m { hdr = outgoing now none m.hdr }),
        record s { outcomes = os; wire = s.wire ++ hdr_bytes (outgoing now none m.hdr) },
      )
unfolding msg_send send_payload send_payload_hdr
msg_send-once now m os s empty size e =
    bind_run (send_all (hdr_bytes (outgoing now none m.hdr))) _ s
      (send_all-once (hdr_bytes (outgoing now none m.hdr)) 47 os s size e)
    ∙ rw empty

module _ (now : ℕ × ℕ) (h : MessageHdr) (rcvd : ℕ × ℕ) (head p : List ℕ) where
  abbrev pub letter : Message
  letter = record { hdr = h; rcvd_at = rcvd; payload = some p; payload_len = length p }

  send_payload-once :
      (k : ℕ) (os : List SendOutcome) (s : Socket)
      → length p ≡ suc k
      → s.outcomes ≡ sent (suc k) ∷ os
      → send_payload (record letter { hdr = outgoing now (some head) h }) s
        ≡ ok (pos 0, record s { outcomes = os; wire = s.wire ++ p })
  unfolding send_payload
  send_payload-once k os s size e =
      rw (same (length p)) (ap (λ x. send_all x s) (take-length p) ∙ send_all-once p k os s size e)
    where
      same : (n : ℕ) → ltb n n ≡ false
      same n = ground arith

      take-length : (xs : List ℕ) → take (length xs) xs ≡ xs
      take-length [] = refl
      take-length (x ∷ xs) = ap (◌∷◌ x) (take-length xs)

  -- A message with a payload header and a payload.
  pub msg_send-parts :
      (j k : ℕ) (os : List SendOutcome) (s : Socket)
      → length (hdr_bytes (outgoing now (some head) h)) ≡ hdr_size
      → length head ≡ suc j
      → length p ≡ suc k
      → s.outcomes ≡ sent hdr_size ∷ sent (suc j) ∷ sent (suc k) ∷ os
      → msg_send now letter (some head) s
        ≡ ok (
          (pos 0, record letter { hdr = outgoing now (some head) h }),
          record s {
            outcomes = os;
            wire = s.wire ++ (hdr_bytes (outgoing now (some head) h) ++ (head ++ p));
          },
        )
  unfolding msg_send send_payload_hdr
  msg_send-parts j k os s size head_size p_size e =
      let out = hdr_bytes (outgoing now (some head) h) in
      let s1 : Socket = record s {
        outcomes = sent (suc j) ∷ sent (suc k) ∷ os;
        wire = s.wire ++ out;
      } in
      let s2 : Socket = record s { outcomes = sent (suc k) ∷ os; wire = (s.wire ++ out) ++ head } in
      bind_run (send_all out) _ s (send_all-once out 47 (sent (suc j) ∷ sent (suc k) ∷ os) s size e)
      ∙ bind_run (send_all head) _ s1 (send_all-once head j (sent (suc k) ∷ os) s1 head_size refl)
      ∙ bind_run (send_payload (record letter { hdr = outgoing now (some head) h })) _ s2
          (send_payload-once k os s2 p_size refl)
      ∙ ap
          (λ w. ok (
            (pos 0, record letter { hdr = outgoing now (some head) h }),
            record s { outcomes = os; wire = w },
          ))
          (regroup s.wire out head p)
    where
      regroup : (a b c d : List ℕ) → ((a ++ b) ++ c) ++ d ≡ a ++ (b ++ (c ++ d))
      regroup a b c d = simp append_assoc

take-length : (xs : List ℕ) → take (length xs) xs ≡ xs
take-length [] = refl
take-length (x ∷ xs) = ap (◌∷◌ x) (take-length xs)

ltb_self : (n : ℕ) → ltb n n ≡ false
ltb_self n = ground arith

module _ (now : ℕ × ℕ) (m : Message) (p : List ℕ) (filled : m.payload ≡ some p)
    (counted : m.payload_len ≡ length p) where
  payload_once :
      (k : ℕ) (os : List SendOutcome) (s : Socket)
      → length p ≡ suc k
      → s.outcomes ≡ sent (suc k) ∷ os
      → send_payload (record m { hdr = outgoing now none m.hdr }) s
        ≡ ok (pos 0, record s { outcomes = os; wire = s.wire ++ p })
  unfolding send_payload
  payload_once k os s size e =
      rw (send_payload, filled, counted, ltb_self (length p))
        (ap (λ x. send_all x s) (take-length p) ∙ send_all-once p k os s size e)

  -- A message with a payload and no payload header.
  pub msg_send-body :
      (k : ℕ) (os : List SendOutcome) (s : Socket)
      → length (hdr_bytes (outgoing now none m.hdr)) ≡ hdr_size
      → length p ≡ suc k
      → s.outcomes ≡ sent hdr_size ∷ sent (suc k) ∷ os
      → msg_send now m none s
        ≡ ok (
          (pos 0, record m { hdr = outgoing now none m.hdr }),
          record s { outcomes = os; wire = s.wire ++ (hdr_bytes (outgoing now none m.hdr) ++ p) },
        )
  unfolding msg_send send_payload_hdr
  msg_send-body k os s head_size size e =
      let out = hdr_bytes (outgoing now none m.hdr) in
      let s1 : Socket = record s { outcomes = sent (suc k) ∷ os; wire = s.wire ++ out } in
      bind_run (send_all out) _ s (send_all-once out 47 (sent (suc k) ∷ os) s head_size e)
      ∙ bind_run (send_payload (record m { hdr = outgoing now none m.hdr })) _ s1
          (payload_once k os s1 size refl)
      ∙ ap
          (λ w. ok (
            (pos 0, record m { hdr = outgoing now none m.hdr }),
            record s { outcomes = os; wire = w },
          ))
          (append_assoc s.wire out p)
