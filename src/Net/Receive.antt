-- ===== src/Net/Receive.antt =====
-- `recv_all` of src/msg.c as a whole: enough bytes, and too few.
use mini_dropbox.Prelude.{
  ℕ, zero, suc, ◌-◌, ◌<◌, ◌≤◌, ◌≡◌, ◌⊎◌, ◌∙◌, refl, sym, ap, false, List, [], ◌∷◌, ◌++◌, ℤ, pos,
  negsuc, leb, leb→le, arith, length, length-append, take, drop, append_assoc, append-nil,
  Bool-cases, inl, inr,
}
use mini_dropbox.Net.{
  RecvEvent, arrived, recv_interrupted, recv_failed, closed, Socket, Run, ok, blocked, aborted,
  recv_loop, recv_all, eintr,
}
use mini_dropbox.Net.Loops.{stream, recv_loop-Received}

-- If the stream has the bytes that are asked for, `recv_all` returns 0 with exactly those bytes,
-- in however many pieces they come, and the stream goes on behind them.
pub recv_all-enough :
    (len : ℕ) (s : Socket)
    → 0 < len
    → len ≤ length (stream s.incoming)
    → (t : Socket) × (recv_all len s ≡ ok ((pos 0, take len (stream s.incoming)), t))
      × (stream t.incoming ≡ drop len (stream s.incoming))
      × (t.wire ≡ s.wire)
      × (t.outcomes ≡ s.outcomes)
unfolding recv_all
recv_all-enough zero s h k = absurd (omega arith)
recv_all-enough (suc len) s h k =
    let r = recv_loop-Received (suc len) s.incoming [] s k in
    (r.final, r.returns, r.goes_on, r.wire, r.outcomes)

-- All bytes of a script, whatever is between them.
abbrev pub came : List RecvEvent → List ℕ
came [] = []
came (arrived bs ∷ es) = bs ++ came es
came (recv_interrupted ∷ es) = came es
came (recv_failed e ∷ es) = came es
came (closed ∷ es) = came es

-- What a run leaves of the script.
remains : Run ((ℤ × List ℕ) × Socket) → List RecvEvent
remains (ok (_, t)) = t.incoming
remains blocked = []
remains aborted = []

recv_loop-short :
    (left : ℕ) (es : List RecvEvent) (got : List ℕ) (s t : Socket) (r : ℤ) (g : List ℕ)
    → length (stream es) < left
    → recv_loop left es got s ≡ ok ((r, g), t)
    → ((r ≡ negsuc 0) ⊎ (r ≡ negsuc 1))
      × (g ≡ got ++ stream es)
      × (read : List RecvEvent) × (es ≡ read ++ t.incoming)
      × (came read ≡ stream es)
unfolding recv_loop stream remains
recv_loop-short zero es got s t r g h e = absurd (omega arith)
recv_loop-short (suc left) [] got s t r g h e = cc
recv_loop-short (suc left) (recv_interrupted ∷ es) got s t r g h e =
    let (code, same, read, split, bytes) =
      recv_loop-short (suc left) es got (record s { errno = eintr }) t r g h e in
    (code, same, recv_interrupted ∷ read, ap (◌∷◌ recv_interrupted) split, bytes)
recv_loop-short (suc left) (recv_failed n ∷ es) got s t r g h e = (
  inl cc,
  ground (arith, append-nil got),
  recv_failed n ∷ [],
  ap (λ x. recv_failed n ∷ remains x) e,
  refl,
)
recv_loop-short (suc left) (closed ∷ es) got s t r g h e =
    (inr cc, ground (arith, append-nil got), [], ap remains e, refl)
recv_loop-short (suc left) (arrived [] ∷ es) got s t r g h e = (
  inr cc,
  ground (arith, append-nil got),
  arrived [] ∷ [],
  ap (λ x. arrived [] ∷ remains x) e,
  refl,
)
recv_loop-short (suc left) (arrived (b ∷ bs) ∷ es) got s t r g h e =
    elim (Bool-cases (leb (length bs) left)) [
      | inr over ↦ absurd (omega (arith, length-append bs (stream es), past over))
      | inl fits ↦
          let (code, same, read, split, bytes) =
            recv_loop-short (left - length bs) es (got ++ (b ∷ bs)) s t r g
              (omega (arith, leb→le (length bs) left fits, length-append bs (stream es)))
              (rw fits at e) in
          (
            code,
            same ∙ append_assoc got (b ∷ bs) (stream es),
            arrived (b ∷ bs) ∷ read,
            ap (◌∷◌ (arrived (b ∷ bs))) split,
            ap (λ x. (b ∷ bs) ++ x) bytes,
          )
    ]
  where
    past : leb (length bs) left ≡ false → left < length bs
    past over = ground arith

-- If the stream ends, fails or pauses before the bytes that are asked for, a `recv_all` that
-- returns has the code -1 or -2, and the bytes that did come are in the buffer and off the socket:
-- what is left of the script stands behind events with just these bytes.
pub recv_all-short :
    (len : ℕ) (s t : Socket) (r : ℤ) (got : List ℕ)
    → length (stream s.incoming) < len
    → recv_all len s ≡ ok ((r, got), t)
    → ((r ≡ negsuc 0) ⊎ (r ≡ negsuc 1))
      × (got ≡ stream s.incoming)
      × (read : List RecvEvent) × (s.incoming ≡ read ++ t.incoming)
      × (came read ≡ got)
unfolding recv_all
recv_all-short zero s t r got h e = cc
recv_all-short (suc len) s t r got h e =
    let (code, same, read, split, bytes) = recv_loop-short (suc len) s.incoming [] s t r got h e in
    (code, same, read, split, bytes ∙ sym same)
