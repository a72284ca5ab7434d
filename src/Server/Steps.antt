-- ===== src/Server/Steps.antt =====
-- How a step of a handler goes on behind one that returned.
use mini_dropbox.Prelude.{◌≡◌, ap}
use mini_dropbox.Net.{Socket, Run, ok, blocked, aborted, Io}
use mini_dropbox.Server.{World, Act, ◌>>=◌, on_socket}

-- A bind whose first step returns goes on with what it returned.
pub act_run :
    {W A B : Type 0} (m : Act W A) (f : A → Act W B) (s : World W) {a : A} {t : World W}
    → m s ≡ ok (a, t)
    → (m >>= f) s ≡ f a t
act_run {W} {A} {B} m f s e =
    ap
      (λ (x : Run (A × World W)). elim x as (λ _. Run (B × World W)) [
        | ok (a, t) ↦ f a t
        | blocked ↦ blocked
        | aborted ↦ aborted
      ])
      e

-- A step over the socket that returns leaves the rest of the world alone.
pub on_socket_run :
    {W A : Type 0} (m : Io A) (s : World W) {a : A} {t : Socket}
    → m s.socket ≡ ok (a, t)
    → on_socket m s ≡ ok (a, record s { socket = t })
on_socket_run {W} {A} m s e =
    ap
      (λ (x : Run (A × Socket)). elim x as (λ _. Run (A × World W)) [
        | ok (a, t) ↦ ok (a, record s { socket = t })
        | blocked ↦ blocked
        | aborted ↦ aborted
      ])
      e
