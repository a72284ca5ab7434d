-- ===== src/Client/Steps.antt =====
-- How a command of src/client.c goes on behind a step that returned.
use mini_dropbox.Prelude.{◌≡◌, ap}
use mini_dropbox.Net.{Socket, Run, ok, blocked, aborted, Io}
use mini_dropbox.Client.{Client, Act, ◌>>=◌, on_socket}

pub step_run :
    {W A B : Type 0} (m : Act W A) (f : A → Act W B) (s : Client W) {a : A} {t : Client W}
    → m s ≡ ok (a, t)
    → (m >>= f) s ≡ f a t
step_run {W} {A} {B} m f s e =
    ap
      (λ (x : Run (A × Client W)). elim x as (λ _. Run (B × Client W)) [
        | ok (a, t) ↦ f a t
        | blocked ↦ blocked
        | aborted ↦ aborted
      ])
      e

-- A step over the socket that returns leaves the files and the output alone.
pub socket_run :
    {W A : Type 0} (m : Io A) (s : Client W) {a : A} {t : Socket}
    → m s.socket ≡ ok (a, t)
    → on_socket m s ≡ ok (a, record s { socket = t })
socket_run {W} {A} m s e =
    ap
      (λ (x : Run (A × Socket)). elim x as (λ _. Run (A × Client W)) [
        | ok (a, t) ↦ ok (a, record s { socket = t })
        | blocked ↦ blocked
        | aborted ↦ aborted
      ])
      e
