-- ===== src/Requests/Replies.antt =====
-- The root of a user, and the replies of the handlers, which leave the file system alone.
use mini_dropbox.Prelude.{
  ℕ, codes, ◌-◌, ◌<◌, ◌≡◌, refl, ap, ◌∙◌, Bool, true, false, Option, none, some, List, ◌∷◌, ◌++◌,
  if◌then◌else◌, arith, starts_with, length, length-take, take, bind_some,
}
use mini_dropbox.UserMap.{Uuid}
use mini_dropbox.Net.{Socket, Run, ok, blocked, aborted, Io}
use mini_dropbox.Msg.{Message}
use mini_dropbox.FilePath.{slash, normalize_path}
use mini_dropbox.UserPath.{path_max, storage_dir, get_user_root, get_user_path}
use mini_dropbox.Server.{World, done, ◌>>=◌, on_socket, on_value, send, send_error}
use mini_dropbox.Server.Keeping.{Keeps, done-Keeps, bind-Keeps, send-Keeps, send_error-Keeps}
use mini_dropbox.Requests.{Env, reject}

pub on_socket-result :
    {W A : Type 0} (m : Io A) (s t : World W) (a : A)
    → on_socket m s ≡ ok (a, t)
    → (u : Socket) × (m s.socket ≡ ok (a, u))
on_socket-result {W} {A} m s t a e = go (m s.socket) refl e
  where
    go :
        (x : Run (A × Socket))
        → m s.socket ≡ x
        → (elim x as (λ _. Run (A × World W)) [
          | ok (b, u) ↦ ok (b, record s { socket = u })
          | blocked ↦ blocked
          | aborted ↦ aborted
        ])
          ≡ ok (a, t)
        → (u : Socket) × (m s.socket ≡ ok (a, u))
    go (ok (b, u)) q r = (u, q ∙ ap (λ z. ok (z, u)) (same r))
      where
        same : ◌≡◌ {A = Run (A × World W)} (ok (b, record s { socket = u })) (ok (a, t)) → b ≡ a
        same y = cc
    go blocked q r = cc
    go aborted q r = cc

pub on_value-result :
    {W A : Type 0} (x : Option A) (s t : World W) (a : A) → on_value x s ≡ ok (a, t) → x ≡ some a
on_value-result none s t a e = cc
on_value-result {W} {A} (some b) s t a e = ap some (same e)
  where
    same : ◌≡◌ {A = Run (A × World W)} (ok (b, s)) (ok (a, t)) → b ≡ a
    same y = cc

through :
    (b : Bool) (text q : List ℕ)
    → ◌≡◌ {A = Option (Option (List ℕ))} (some (if b then some text else none)) (some (some q))
    → (b ≡ true) × (text ≡ q)
through true text q e = (refl, cc)
through false text q e = cc

-- A path that is let through begins with the user's root.
pub get_user_path-starts_with :
    (unparse : Uuid → List ℕ) (path q : List ℕ) (token : Uuid)
    → get_user_path unparse true path token ≡ some (some q)
    → starts_with (get_user_root unparse token) q ≡ true
unfolding get_user_path
get_user_path-starts_with unparse path q token e =
    let (normalized, n, f) = bind_some (normalize_path true (some _)) _ e in checked normalized f
  where
    root : List ℕ
    root = get_user_root unparse token

    checked :
        (x : Option (List ℕ))
        → some (elim x as (λ _. Option (List ℕ)) [
          | none ↦ none
          | some text ↦ if starts_with root text then some text else none
        ])
          ≡ some (some q)
        → starts_with root q ≡ true
    checked none f = cc
    checked (some text) f =
        let (h, same) = through (starts_with root text) text q f in
        coe 0 1 (i. starts_with root (same i) ≡ true) h

pub root-fits :
    (unparse : Uuid → List ℕ) (token : Uuid) → length (get_user_root unparse token) < path_max
unfolding get_user_root
root-fits unparse token =
    omega (arith, length-take (path_max - 1) (storage_dir ++ slash ∷ unparse token))

pub root-slash :
    (unparse : Uuid → List ℕ) (token : Uuid)
    → get_user_root unparse token ≡ slash ∷ take 4094 (codes "var/minibox" ++ slash ∷ unparse token)
unfolding get_user_root
root-slash unparse token = refl

module _ {W : Type 0} (env : Env W) (P : W → Type 0) where
  pub reject-Keeps : (text : List ℕ) → Keeps P (reject env text)
  reject-Keeps text =
      bind-Keeps P (send_error env.now text) (λ r. done tt) (send_error-Keeps P env.now text)
        (λ r s t e. done-Keeps P tt)

  -- A handler that sends a message and returns.
  pub reply-Keeps : (msg : Message) → Keeps P (send env.now msg >>= λ r. done tt)
  reply-Keeps msg =
      bind-Keeps P (send env.now msg) (λ r. done tt) (send-Keeps P env.now msg)
        (λ r s t e. done-Keeps P tt)
