-- ===== src/Server/Keeping.antt =====
-- Steps that keep a property of the file system, and how they are put together.
use mini_dropbox.Prelude.{ℕ, ◌≡◌, refl, Bool, true, false, Option, none, some, List, if◌then◌else◌}
use mini_dropbox.Net.{Socket, Run, ok, blocked, aborted, Io}
use mini_dropbox.Msg.{Message, msg_send}
use mini_dropbox.Server.{
  World, Act, done, undefined, ◌>>=◌, on_socket, on_files, look, on_value, send, send_error,
}

module _ {W : Type 0} (P : W → Type 0) where
  abbrev pub Keeps : {A : Type 0} → Act W A → Type 0
  Keeps {A} m = (s t : World W) (a : A) → P s.files → m s ≡ ok (a, t) → P t.files

  -- A result that carries the same file system.
  same_files :
      {A : Type 0} (s t : World W) (a b : A)
      → P s.files
      → ◌≡◌ {A = Run (A × World W)} (ok (b, s)) (ok (a, t))
      → P t.files
  same_files {A} s t a b p e = coe 0 1 (i. P (same e i).files) p
    where
      same : ◌≡◌ {A = Run (A × World W)} (ok (b, s)) (ok (a, t)) → s ≡ t
      same x = cc

  pub done-Keeps : {A : Type 0} (a : A) → Keeps (done a)
  done-Keeps a s t b p e = same_files s t b a p e

  pub undefined-Keeps : {A : Type 0} → Keeps {A = A} undefined
  undefined-Keeps s t a p e = cc

  pub bind-Keeps :
      {A B : Type 0} (m : Act W A) (f : A → Act W B)
      → Keeps m
      → ((a : A) (s t : World W) → m s ≡ ok (a, t) → Keeps (f a))
      → Keeps (m >>= f)
  bind-Keeps {A} {B} m f k l s t b p e = go (m s) refl e
    where
      go :
          (x : Run (A × World W))
          → m s ≡ x
          → (elim x as (λ _. Run (B × World W)) [
            | ok (a, u) ↦ f a u
            | blocked ↦ blocked
            | aborted ↦ aborted
          ])
            ≡ ok (b, t)
          → P t.files
      go (ok (a, u)) q r = l a s u q u t b (k s u a p q) r
      go blocked q r = cc
      go aborted q r = cc

  pub on_socket-Keeps : {A : Type 0} (m : Io A) → Keeps (on_socket m)
  on_socket-Keeps {A} m s t a p e = go (m s.socket) e
    where
      go :
          (x : Run (A × Socket))
          → (elim x as (λ _. Run (A × World W)) [
            | ok (b, u) ↦ ok (b, record s { socket = u })
            | blocked ↦ blocked
            | aborted ↦ aborted
          ])
            ≡ ok (a, t)
          → P t.files
      go (ok (b, u)) r = same_files (record s { socket = u }) t a b p r
      go blocked r = cc
      go aborted r = cc

  pub look-Keeps : {A : Type 0} (m : W → Option A) → Keeps (look m)
  look-Keeps {A} m s t a p e = go (m s.files) e
    where
      go :
          (x : Option A)
          → (elim x as (λ _. Run (A × World W)) [ none ↦ aborted | some b ↦ ok (b, s) ]) ≡ ok (a, t)
          → P t.files
      go none r = cc
      go (some b) r = same_files s t a b p r

  pub on_value-Keeps : {A : Type 0} (x : Option A) → Keeps (on_value x)
  on_value-Keeps none s t a p e = cc
  on_value-Keeps (some b) s t a p e = same_files s t a b p e

  -- A step on the file system keeps what its result keeps.
  pub on_files-Keeps :
      {A : Type 0} (m : W → Option (A × W))
      → ((w v : W) (a : A) → P w → m w ≡ some (a, v) → P v)
      → Keeps (on_files m)
  on_files-Keeps {A} m k s t a p e = go (m s.files) refl e
    where
      go :
          (x : Option (A × W))
          → m s.files ≡ x
          → (elim x as (λ _. Run (A × World W)) [
            | none ↦ aborted
            | some (b, w) ↦ ok (b, record s { files = w })
          ])
            ≡ ok (a, t)
          → P t.files
      go none q r = cc
      go (some (b, w)) q r = same_files (record s { files = w }) t a b (k s.files w b p q) r

  pub if-Keeps :
      {A : Type 0} (c : Bool) (m n : Act W A) → Keeps m → Keeps n → Keeps (if c then m else n)
  if-Keeps true m n k l = k
  if-Keeps false m n k l = l

  pub send-Keeps : (now : ℕ × ℕ) (msg : Message) → Keeps (send now msg)
  unfolding send
  send-Keeps now msg =
      bind-Keeps (on_socket (msg_send now msg none)) (λ r. done r.0)
        (on_socket-Keeps (msg_send now msg none)) (λ r s t e. done-Keeps r.0)

  pub send_error-Keeps : (now : ℕ × ℕ) (text : List ℕ) → Keeps (send_error now text)
  unfolding send_error
  send_error-Keeps now text = send-Keeps now _
