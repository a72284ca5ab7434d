-- ===== src/Net/Loops.antt =====
-- What the loops of `send_all` and `recv_all` in src/msg.c do to the byte streams, whatever the
-- sizes of the pieces in which the kernel takes and delivers them.
use mini_dropbox.Prelude.{
  ℕ, zero, suc, ◌-◌, ◌<◌, ◌≤◌, ◌≡◌, ◌≢◌, ◌⊎◌, refl, ap, ◌∙◌, sym, List, [], ◌∷◌, ◌++◌, ℤ, pos,
  negsuc, leb, leb→le, length-drop, arith, length, length-append, take, drop, take-append-drop,
  append_assoc, append-nil, Bool-cases, inl, inr,
}
use mini_dropbox.Net.{
  SendOutcome, sent, send_interrupted, send_failed, RecvEvent, arrived, recv_interrupted,
  recv_failed, closed, Socket, Run, ok, send_loop, send_all, recv_loop, eintr,
}

-- A send that returned `r`: the wire got a prefix of the buffer, all of it if the code is 0, and
-- less if the code is -1 or -2, of which it is one otherwise. Nothing was received.
pub record Sent (buf : List ℕ) (s : Socket) (r : ℤ) (t : Socket) : Type 0 where
  pub prefix : List ℕ
  pub rest : List ℕ
  pub split : buf ≡ prefix ++ rest
  pub on_wire : t.wire ≡ s.wire ++ prefix
  pub code : (r ≡ pos 0) × (rest ≡ []) ⊎ ((r ≡ negsuc 0) ⊎ (r ≡ negsuc 1)) × (rest ≢ [])
  pub incoming : t.incoming ≡ s.incoming

-- Nothing more was sent.
stopped :
    (b : ℕ) (buf : List ℕ) (s t : Socket) (r : ℤ)
    → t.wire ≡ s.wire
    → t.incoming ≡ s.incoming
    → (r ≡ negsuc 0) ⊎ (r ≡ negsuc 1)
    → Sent (b ∷ buf) s r t
stopped b buf s t r w i c = record {
  prefix = [];
  rest = b ∷ buf;
  split = refl;
  on_wire = w ∙ sym (append-nil s.wire);
  code = inr (c, λ e. cc);
  incoming = i;
}

send_loop-Sent :
    (buf : List ℕ) (os : List SendOutcome) (s t : Socket) (r : ℤ)
    → send_loop buf os s ≡ ok (r, t)
    → Sent buf s r t
unfolding send_loop
send_loop-Sent [] os s t r e = record {
  prefix = [];
  rest = [];
  split = refl;
  on_wire = ground (arith, append-nil s.wire);
  code = inl (cc, refl);
  incoming = ground arith;
}
send_loop-Sent (b ∷ buf) [] s t r e = cc
send_loop-Sent (b ∷ buf) (send_interrupted ∷ os) s t r e =
    let ih = send_loop-Sent (b ∷ buf) os (record s { errno = eintr }) t r e in
    record {
      prefix = ih.prefix;
      rest = ih.rest;
      split = ih.split;
      on_wire = ih.on_wire;
      code = ih.code;
      incoming = ih.incoming;
    }
send_loop-Sent (b ∷ buf) (send_failed n ∷ os) s t r e =
    stopped b buf s t r (ground arith) (ground arith) (inl cc)
send_loop-Sent (b ∷ buf) (sent zero ∷ os) s t r e =
    stopped b buf s t r (ground arith) (ground arith) (inr cc)
send_loop-Sent (b ∷ buf) (sent (suc n) ∷ os) s t r e =
    let ih =
      send_loop-Sent (drop n buf) os (record s { wire = s.wire ++ (b ∷ take n buf) }) t r e in
    record {
      prefix = b ∷ (take n buf ++ ih.prefix);
      rest = ih.rest;
      split = ap (◌∷◌ b) (
          sym (take-append-drop n buf)
          ∙ ap (λ x. take n buf ++ x) ih.split
          ∙ sym (append_assoc (take n buf) ih.prefix ih.rest));
      on_wire = ih.on_wire ∙ append_assoc s.wire (b ∷ take n buf) ih.prefix;
      code = ih.code;
      incoming = ih.incoming;
    }

-- A `send_all` that returns has sent a prefix of the buffer, in however many pieces; the whole
-- buffer exactly when it returns 0.
pub send_all-Sent :
    (buf : List ℕ) (s t : Socket) (r : ℤ) → send_all buf s ≡ ok (r, t) → Sent buf s r t
unfolding send_all
send_all-Sent [] s t r e = cc
send_all-Sent (b ∷ buf) s t r e = send_loop-Sent (b ∷ buf) s.outcomes s t r e

-- The bytes that a script delivers before an error, the peer's end, or a wait.
unfoldable pub stream : List RecvEvent → List ℕ
stream [] = []
stream (recv_interrupted ∷ es) = stream es
stream (recv_failed e ∷ es) = []
stream (closed ∷ es) = []
stream (arrived [] ∷ es) = []
stream (arrived (b ∷ bs) ∷ es) = b ∷ (bs ++ stream es)

take-within : (n : ℕ) (xs ys : List ℕ) → n ≤ length xs → take n (xs ++ ys) ≡ take n xs
take-within zero xs ys h = refl
take-within (suc n) [] ys h = absurd (omega arith)
take-within (suc n) (x ∷ xs) ys h = ap (◌∷◌ x) (take-within n xs ys (omega arith))

drop-within : (n : ℕ) (xs ys : List ℕ) → n ≤ length xs → drop n (xs ++ ys) ≡ drop n xs ++ ys
drop-within zero xs ys h = refl
drop-within (suc n) [] ys h = absurd (omega arith)
drop-within (suc n) (x ∷ xs) ys h = drop-within n xs ys (omega arith)

take-past :
    (n : ℕ) (xs ys : List ℕ) → length xs ≤ n → take n (xs ++ ys) ≡ xs ++ take (n - length xs) ys
take-past n [] ys h = ap (λ k. take k ys) (omega arith)
take-past zero (x ∷ xs) ys h = absurd (omega arith)
take-past (suc n) (x ∷ xs) ys h =
    ap (◌∷◌ x) (take-past n xs ys (omega arith) ∙ ap (λ k. xs ++ take k ys) (omega arith))

drop-past : (n : ℕ) (xs ys : List ℕ) → length xs ≤ n → drop n (xs ++ ys) ≡ drop (n - length xs) ys
drop-past n [] ys h = ap (λ k. drop k ys) (omega arith)
drop-past zero (x ∷ xs) ys h = absurd (omega arith)
drop-past (suc n) (x ∷ xs) ys h =
    drop-past n xs ys (omega arith) ∙ ap (λ k. drop k ys) (omega arith)

-- A receive of `left` bytes that the stream has: the code is 0, the bytes are stored behind
-- those that were there, and the stream goes on behind them. Nothing was sent.
pub record Received (left : ℕ) (es : List RecvEvent) (got : List ℕ) (s : Socket)
    (x : Run ((ℤ × List ℕ) × Socket)) : Type 0 where
  pub final : Socket
  pub returns : x ≡ ok ((pos 0, got ++ take left (stream es)), final)
  pub goes_on : stream final.incoming ≡ drop left (stream es)
  pub wire : final.wire ≡ s.wire
  pub outcomes : final.outcomes ≡ s.outcomes

stream-arrived :
    (bs : List ℕ) (es : List RecvEvent) → 0 < length bs → stream (arrived bs ∷ es) ≡ bs ++ stream es
unfolding stream
stream-arrived [] es h = absurd (omega arith)
stream-arrived (b ∷ bs) es h = refl

pub recv_loop-Received :
    (left : ℕ) (es : List RecvEvent) (got : List ℕ) (s : Socket)
    → left ≤ length (stream es)
    → Received left es got s (recv_loop left es got s)
unfolding recv_loop stream
recv_loop-Received zero es got s h = record {
  final = record s { incoming = es };
  returns = rw (append-nil got);
  goes_on = refl;
  wire = refl;
  outcomes = refl;
}
recv_loop-Received (suc left) [] got s h = absurd (omega arith)
recv_loop-Received (suc left) (recv_interrupted ∷ es) got s h =
    let ih = recv_loop-Received (suc left) es got (record s { errno = eintr }) h in
    record {
      final = ih.final;
      returns = ih.returns;
      goes_on = ih.goes_on;
      wire = ih.wire;
      outcomes = ih.outcomes;
    }
recv_loop-Received (suc left) (recv_failed e ∷ es) got s h = absurd (omega arith)
recv_loop-Received (suc left) (closed ∷ es) got s h = absurd (omega arith)
recv_loop-Received (suc left) (arrived [] ∷ es) got s h = absurd (omega arith)
recv_loop-Received (suc left) (arrived (b ∷ bs) ∷ es) got s h =
    elim (Bool-cases (leb (length bs) left)) [
      | inl fits ↦
          let le : length bs ≤ left = leb→le _ _ fits in
          let ih =
            recv_loop-Received (left - length bs) es (got ++ (b ∷ bs)) s
              (omega (arith, length-append bs (stream es))) in
          rw fits (record {
            final = ih.final;
            returns =
                ih.returns
                ∙ ap (λ g. ok ((pos 0, g), ih.final))
                    (append_assoc got (b ∷ bs) (take (left - length bs) (stream es))
                      ∙ ap (λ x. got ++ (b ∷ x)) (sym (take-past left bs (stream es) le)));
            goes_on = ih.goes_on ∙ sym (drop-past left bs (stream es) le);
            wire = ih.wire;
            outcomes = ih.outcomes;
          })
      | inr over ↦
          let lt : left < length bs = ground arith in
          rw over (record {
            final = record s { incoming = arrived (drop left bs) ∷ es };
            returns =
                ap
                  (λ x.
                    ok (
                      (pos 0, got ++ (b ∷ x)),
                      record s { incoming = arrived (drop left bs) ∷ es },
                    ))
                  (sym (take-within left bs (stream es) (omega arith)));
            goes_on =
                stream-arrived (drop left bs) es (omega (arith, length-drop left bs))
                ∙ sym (drop-within left bs (stream es) (omega arith));
            wire = refl;
            outcomes = refl;
          })
    ]
