-- ===== src/Msg/Receive.antt =====
-- What the receiving functions of src/msg.c make of a stream that begins with a message.
use mini_dropbox.Prelude.{
  ℕ, zero, suc, ◌<◌, ◌≡◌, refl, ap, ◌∙◌, sym, true, false, some, List, [], ◌∷◌, ◌++◌, pos, negsuc,
  if◌then◌else◌, ltb, ltb→lt, arith, length, length-append, take, drop, ℤ, Bool-cases, inl, inr,
}
use mini_dropbox.Net.{Socket, Run, ok, pure, recv_all}
use mini_dropbox.Net.Bind.{bind_run, bind_ok}
use mini_dropbox.Net.Loops.{stream}
use mini_dropbox.Net.Receive.{recv_all-enough}
use mini_dropbox.Msg.{
  MessageHdr, Message, hdr_size, hdr_bytes, recv_hdr, msg_recv_header, msg_recv_payload,
  return_if_neg,
}
use mini_dropbox.Msg.Header.{IsHdr, length-hdr_bytes, hdr_of_bytes-hdr_bytes}

-- The stream begins with a header and a body of the length that it gives.
pub record Arrives (h : MessageHdr) (content rest : List ℕ) (s : Socket) : Type 0 where
  pub valid : IsHdr h
  pub counted : h.length ≡ length content
  pub bytes : stream s.incoming ≡ hdr_bytes h ++ (content ++ rest)

take-exact : (n : ℕ) (xs ys : List ℕ) → length xs ≡ n → take n (xs ++ ys) ≡ xs
take-exact zero [] ys e = refl
take-exact zero (x ∷ xs) ys e = absurd (omega arith)
take-exact (suc n) [] ys e = absurd (omega arith)
take-exact (suc n) (x ∷ xs) ys e = ap (◌∷◌ x) (take-exact n xs ys (omega arith))

drop-exact : (n : ℕ) (xs ys : List ℕ) → length xs ≡ n → drop n (xs ++ ys) ≡ ys
drop-exact zero [] ys e = refl
drop-exact zero (x ∷ xs) ys e = absurd (omega arith)
drop-exact (suc n) [] ys e = absurd (omega arith)
drop-exact (suc n) (x ∷ xs) ys e = drop-exact n xs ys (omega arith)

-- A receive of a block that the stream begins with.
recv_all-block :
    (block rest : List ℕ) (n : ℕ) (s : Socket)
    → 0 < n
    → length block ≡ n
    → stream s.incoming ≡ block ++ rest
    → (t : Socket) × (recv_all n s ≡ ok ((pos 0, block), t))
      × (stream t.incoming ≡ rest)
      × (t.wire ≡ s.wire)
      × (t.outcomes ≡ s.outcomes)
recv_all-block block rest n s h size e =
    let (t, run, on, w, o) =
      recv_all-enough n s h (omega (arith, size, ap length e, length-append block rest)) in
    (
      t,
      run ∙ ap (λ x. ok ((pos 0, x), t)) (ap (take n) e ∙ take-exact n block rest size),
      on ∙ ap (drop n) e ∙ drop-exact n block rest size,
      w,
      o,
    )

pub recv_hdr-block :
    (msg : Message) (h : MessageHdr) (rest : List ℕ) (s : Socket)
    → IsHdr h
    → stream s.incoming ≡ hdr_bytes h ++ rest
    → (t : Socket) × (recv_hdr msg s ≡ ok ((pos 0, record msg { hdr = h }), t))
      × (stream t.incoming ≡ rest)
      × (t.wire ≡ s.wire)
      × (t.outcomes ≡ s.outcomes)
unfolding recv_hdr
recv_hdr-block msg h rest s v e =
    let (t, run, on, w, o) =
      recv_all-block (hdr_bytes h) rest hdr_size s (omega arith) (length-hdr_bytes h v) e in
    (
      t,
      bind_run (recv_all hdr_size) _ s run
          ∙ (ap (λ x. ok ((pos 0, record msg { hdr = x }), t))
              (hdr_of_bytes-hdr_bytes h (drop (length (hdr_bytes h)) (hdr_bytes msg.hdr)) v)),
      on,
      w,
      o,
    )

-- A header that the stream begins with is received, with the time of its arrival.
pub msg_recv_header-Arrives :
    (now : ℕ × ℕ) (msg : Message) (h : MessageHdr) (content rest : List ℕ) (s : Socket)
    → Arrives h content rest s
    → (t : Socket) × (msg_recv_header now msg s
        ≡ ok ((pos 0, record msg { hdr = h; rcvd_at = now }), t))
      × (stream t.incoming ≡ content ++ rest)
      × (t.wire ≡ s.wire)
      × (t.outcomes ≡ s.outcomes)
unfolding msg_recv_header
msg_recv_header-Arrives now msg h content rest s a =
    let (t, run, on, w, o) = recv_hdr-block msg h (content ++ rest) s a.valid a.bytes in
    (t, bind_run (recv_hdr msg) _ s run, on, w, o)

module _ (msg : Message) (maxlen : ℕ) (s : Socket) where
  payload_big :
      ltb maxlen msg.hdr.length ≡ true → msg_recv_payload msg maxlen s ≡ ok ((negsuc 2, msg), s)
  unfolding msg_recv_payload
  payload_big h = rw h

  pub payload_empty :
      ltb maxlen msg.hdr.length ≡ false
      → ltb 0 msg.hdr.length ≡ false
      → msg_recv_payload msg maxlen s ≡ ok ((pos 0, msg), s)
  unfolding msg_recv_payload
  payload_empty h g = rw (h, g)

  payload_filled :
      {content : List ℕ} {t : Socket}
      → ltb maxlen msg.hdr.length ≡ false
      → ltb 0 msg.hdr.length ≡ true
      → recv_all msg.hdr.length s ≡ ok ((pos 0, content), t)
      → msg_recv_payload msg maxlen s ≡ ok ((pos 0, record msg { payload = some content }), t)
  unfolding msg_recv_payload
  payload_filled h g run = rw (h, g) (bind_run (recv_all msg.hdr.length) _ s run)

-- A payload of at most `maxlen` bytes is received whole; a longer one gives -3, and stays on the
-- stream. A length of 0 leaves the payload pointer as it was.
pub msg_recv_payload-body :
    (msg : Message) (maxlen : ℕ) (content rest : List ℕ) (s : Socket)
    → msg.hdr.length ≡ length content
    → stream s.incoming ≡ content ++ rest
    → (t : Socket) × (msg_recv_payload msg maxlen s
        ≡ ok (
          (if ltb maxlen (length content) then (negsuc 2, msg) else (
            pos 0,
            if ltb 0 (length content) then record msg { payload = some content } else msg,
          )),
          t,
        ))
      × (stream t.incoming ≡ (if ltb maxlen (length content) then content ++ rest else rest))
      × (t.wire ≡ s.wire)
      × (t.outcomes ≡ s.outcomes)
msg_recv_payload-body msg maxlen content rest s size e =
    elim (Bool-cases (ltb maxlen (length content))) [
      | inl big ↦ (s, payload_big msg maxlen s (rw size big) ∙ rw big, rw big e, refl, refl)
      | inr small ↦ elim (Bool-cases (ltb 0 (length content))) [
        | inl filled ↦
            let (t, run, on, w, o) =
              recv_all-block content rest msg.hdr.length s
                (rw size (ltb→lt 0 (length content) filled)) (sym size) e in
            (
              t,
              payload_filled msg maxlen s (rw size small) (rw size filled) run ∙ rw (small, filled),
              rw small on,
              w,
              o,
            )
        | inr empty ↦ (
          s,
          payload_empty msg maxlen s (rw size small) (rw size empty) ∙ rw (small, empty),
          rw small (e ∙ ap (λ c. c ++ rest) (none_left content empty)),
          refl,
          refl,
        )
      ]
    ]
  where
    none_left : (xs : List ℕ) → ltb 0 (length xs) ≡ false → xs ≡ []
    none_left [] h = refl
    none_left (x ∷ xs) h = absurd (ground arith)

-- Receiving a payload leaves the header as it is.
pub msg_recv_payload-hdr :
    (msg m : Message) (maxlen : ℕ) (s t : Socket) (r : ℤ)
    → msg_recv_payload msg maxlen s ≡ ok ((r, m), t)
    → m.hdr ≡ msg.hdr
unfolding msg_recv_payload
msg_recv_payload-hdr msg m maxlen s t r e = elim (Bool-cases (ltb maxlen msg.hdr.length)) [
  | inl big ↦ same_hdr _ msg m s t r (rw big at e)
  | inr fits ↦ elim (Bool-cases (ltb 0 msg.hdr.length)) [
    | inr empty ↦ same_hdr _ msg m s t r (rw (fits, empty) at e)
    | inl filled ↦
        let (q, u, e1, f) = bind_ok (recv_all msg.hdr.length) _ s (rw (fits, filled) at e) in
        either q.0 (record msg { payload = some q.1 }) u f
  ]
]
  where
    same_hdr :
        (c : ℤ) (x y : Message) (s t : Socket) (r : ℤ)
        → ◌≡◌ {A = Run ((ℤ × Message) × Socket)} (ok ((c, x), s)) (ok ((r, y), t))
        → y.hdr ≡ x.hdr
    same_hdr c x y s t r e = ap (λ (m : Message). m.hdr) (sym (same e))
      where
        same : ◌≡◌ {A = Run ((ℤ × Message) × Socket)} (ok ((c, x), s)) (ok ((r, y), t)) → x ≡ y
        same z = cc

    either :
        (c : ℤ) (x : Message) (u : Socket)
        → return_if_neg {A = ℤ × Message} c (c, x) (pure (pos 0, x)) u ≡ ok ((r, m), t)
        → m.hdr ≡ x.hdr
    either (pos n) x u f = same_hdr _ x m u t r f
    either (negsuc n) x u f = same_hdr _ x m u t r f
