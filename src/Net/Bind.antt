-- ===== src/Net/Bind.antt =====
-- How a computation over the socket goes on behind a step that returned.
use mini_dropbox.Prelude.{◌≡◌, refl, ap}
use mini_dropbox.Net.{Socket, Run, ok, blocked, aborted, Io, ◌>>=◌}

-- A bind whose first step returns goes on with what it returned.
pub bind_run {ℓ κ} :
    {A : Type ℓ} {B : Type κ} (m : Io A) (f : A → Io B) (s : Socket) {a : A} {t : Socket}
    → m s ≡ ok (a, t)
    → (m >>= f) s ≡ f a t
bind_run {B = B} m f s e =
    ap
      (λ x. elim x as (λ _. Run (B × Socket)) [
        | ok (a, t) ↦ f a t
        | blocked ↦ blocked
        | aborted ↦ aborted
      ])
      e

-- The first step of a run that returned.
pub bind_ok {ℓ κ} :
    {A : Type ℓ} {B : Type κ} (m : Io A) (f : A → Io B) (s : Socket) {r : B × Socket}
    → (m >>= f) s ≡ ok r
    → (a : A) × (u : Socket) × (m s ≡ ok (a, u)) × (f a u ≡ ok r)
bind_ok {A} {B} m f s {r} e = go (m s) refl e
  where
    go :
        (x : Run (A × Socket))
        → m s ≡ x
        → (elim x [ ok (a, t) ↦ f a t | blocked ↦ blocked | aborted ↦ aborted ]) ≡ ok r
        → (a : A) × (u : Socket) × (m s ≡ ok (a, u)) × (f a u ≡ ok r)
    go (ok (a, u)) p q = (a, u, p, q)
    go blocked p q = cc
    go aborted p q = cc
