-- ===== src/Net.antt =====
-- `send_all` and `recv_all` of src/msg.c over a TCP socket. The kernel's side of the socket is a
-- script: what the next calls of `send` and `recv` report. A script that ends leaves the call
-- blocked; an assertion that fails aborts the program.
pub mod Loops
pub mod Receive
pub mod Bind
pub mod Whole
mod Tests
use mini_dropbox.Prelude.{
  ℕ, zero, suc, ◌-◌, Bool, List, [], ◌∷◌, ◌++◌, ℤ, pos, negsuc, if◌then◌else◌, leb, length, take,
  drop,
}

-- What one call of `send` reports: a count of bytes taken (at most what was asked), a signal
-- (EINTR), or an error with its errno.
pub data SendOutcome : Type 0 where
  sent : ℕ → SendOutcome
  send_interrupted : SendOutcome
  send_failed : ℕ → SendOutcome

-- What a call of `recv` can meet: bytes that have come (it takes at most what was asked, and
-- leaves the rest), a signal, an error with its errno, or the end of the peer's stream.
pub data RecvEvent : Type 0 where
  arrived : List ℕ → RecvEvent
  recv_interrupted : RecvEvent
  recv_failed : ℕ → RecvEvent
  closed : RecvEvent

pub record Socket : Type 0 where
  pub outcomes : List SendOutcome
  pub wire : List ℕ
  pub incoming : List RecvEvent
  pub errno : ℕ

pub data Run {ℓ} (A : Type ℓ) : Type ℓ where
  ok : A → Run A
  blocked : Run A
  aborted : Run A

-- A computation that uses the socket.
abbrev pub Io {ℓ} : Type ℓ → Type ℓ
Io A = Socket → Run (A × Socket)

abbrev pub pure {ℓ} : {A : Type ℓ} → A → Io A
pure a s = ok (a, s)

infixl 5 ◌>>=◌
abbrev pub ◌>>=◌ {ℓ κ} : {A : Type ℓ} {B : Type κ} → Io A → (A → Io B) → Io B
◌>>=◌ m f s = elim (m s) [ ok (a, t) ↦ f a t | blocked ↦ blocked | aborted ↦ aborted ]

-- EINTR of Linux
abbrev pub eintr : ℕ
eintr = 4

-- while (bytes_left > 0), at the bytes that are left
pub send_loop : List ℕ → List SendOutcome → Socket → Run (ℤ × Socket)
send_loop [] os s = ok (pos 0, record s { outcomes = os })
send_loop (b ∷ buf) [] s = blocked
send_loop (b ∷ buf) (send_interrupted ∷ os) s = send_loop (b ∷ buf) os (record s { errno = eintr })
send_loop (b ∷ buf) (send_failed e ∷ os) s = ok (negsuc 0, record s { outcomes = os; errno = e })
send_loop (b ∷ buf) (sent zero ∷ os) s = ok (negsuc 1, record s { outcomes = os })
send_loop (b ∷ buf) (sent (suc n) ∷ os) s =
    send_loop (drop n buf) os (record s { wire = s.wire ++ (b ∷ take n buf) })

-- assert(buf != NULL && len > 0)
unfoldable pub send_all : List ℕ → Io ℤ
unfolding send_loop
send_all [] s = aborted
send_all (b ∷ buf) s = send_loop (b ∷ buf) s.outcomes s

-- while (bytes_left > 0): the count that is left, and the bytes stored so far
pub recv_loop : ℕ → List RecvEvent → List ℕ → Socket → Run ((ℤ × List ℕ) × Socket)
recv_loop zero es got s = ok ((pos 0, got), record s { incoming = es })
recv_loop (suc left) [] got s = blocked
recv_loop (suc left) (recv_interrupted ∷ es) got s =
    recv_loop (suc left) es got (record s { errno = eintr })
recv_loop (suc left) (recv_failed e ∷ es) got s =
    ok ((negsuc 0, got), record s { incoming = es; errno = e })
recv_loop (suc left) (closed ∷ es) got s = ok ((negsuc 1, got), record s { incoming = closed ∷ es })
recv_loop (suc left) (arrived [] ∷ es) got s = ok ((negsuc 1, got), record s { incoming = es })
recv_loop (suc left) (arrived (b ∷ bs) ∷ es) got s =
    let whole = recv_loop (left - length bs) es (got ++ (b ∷ bs)) s in
    let part : Run ((ℤ × List ℕ) × Socket) =
      ok
        ((pos 0, got ++ (b ∷ take left bs)), record s { incoming = arrived (drop left bs) ∷ es }) in
    if leb (length bs) left then whole else part

-- The return code, and the bytes that were stored at `buf`.
unfoldable pub recv_all : ℕ → Io (ℤ × List ℕ)
unfolding recv_loop
recv_all zero s = aborted
recv_all (suc len) s = recv_loop (suc len) s.incoming [] s
