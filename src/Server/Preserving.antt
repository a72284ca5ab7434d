-- ===== src/Server/Preserving.antt =====
-- Steps of the server that keep an invariant of its table of users, and how they are put together.
use mini_dropbox.Prelude.{
  ℕ, ◌≡◌, refl, Bool, true, false, Option, none, some, List, [], ◌∷◌, ◌++◌, ℤ, if◌then◌else◌,
  length, ◌⊎◌, inl, inr,
}
use mini_dropbox.UserMap.{Uuid, Chain, UserMap, umap_init, umap_get, umap_put}
use mini_dropbox.User.{User, user_init}
use mini_dropbox.Net.{Socket, Run, ok, blocked, aborted, Io}
use mini_dropbox.Msg.{Message, msg_send}
use mini_dropbox.UserPath.{storage_dir}
use mini_dropbox.Files.{Os, FileKind, is_dots}
use mini_dropbox.Server.{
  World, Act, done, ◌>>=◌, on_socket, on_files, look, on_value, send, send_error, send_upload_res,
  send_download_res, uman_get_user, uman_register_user, parsed, register_entries, uman_init,
}

module _ {W : Type 0} (I : UserMap ℕ → List User → Type 0) where
  abbrev pub Holds : World W → Type 0
  Holds s = I s.user_map s.heap

  -- What a step leaves, if it returns.
  abbrev pub Good : {A : Type 0} → Run (A × World W) → Type 0
  Good (ok (a, t)) = Holds t
  Good blocked = Unit
  Good aborted = Unit

  abbrev pub Preserves : {A : Type 0} → Act W A → Type 0
  Preserves m = (s : World W) → Holds s → Good (m s)

  pub bind-Preserves :
      {A B : Type 0} (m : Act W A) (f : A → Act W B)
      → Preserves m
      → ((a : A) → Preserves (f a))
      → Preserves (m >>= f)
  bind-Preserves {A} {B} m f k l s h = go (m s) (k s h)
    where
      go :
          (x : Run (A × World W))
          → Good x
          → Good (elim x as (λ _. Run (B × World W)) [
            | ok (a, t) ↦ f a t
            | blocked ↦ blocked
            | aborted ↦ aborted
          ])
      go (ok (a, t)) g = l a t g
      go blocked g = tt
      go aborted g = tt

  pub on_socket-Preserves : {A : Type 0} (m : Io A) → Preserves (on_socket m)
  on_socket-Preserves {A} m s h = go (m s.socket)
    where
      go :
          (x : Run (A × Socket))
          → Good (elim x as (λ _. Run (A × World W)) [
            | ok (a, t) ↦ ok (a, record s { socket = t })
            | blocked ↦ blocked
            | aborted ↦ aborted
          ])
      go (ok (a, t)) = h
      go blocked = tt
      go aborted = tt

  pub on_files-Preserves : {A : Type 0} (m : W → Option (A × W)) → Preserves (on_files m)
  on_files-Preserves {A} m s h = go (m s.files)
    where
      go :
          (x : Option (A × W))
          → Good (elim x as (λ _. Run (A × World W)) [
            | none ↦ aborted
            | some (a, w) ↦ ok (a, record s { files = w })
          ])
      go none = tt
      go (some (a, w)) = h

  pub look-Preserves : {A : Type 0} (m : W → Option A) → Preserves (look m)
  look-Preserves {A} m s h = go (m s.files)
    where
      go :
          (x : Option A)
          → Good (elim x as (λ _. Run (A × World W)) [ none ↦ aborted | some a ↦ ok (a, s) ])
      go none = tt
      go (some a) = h

  pub on_value-Preserves : {A : Type 0} (x : Option A) → Preserves (on_value x)
  on_value-Preserves none s h = tt
  on_value-Preserves (some a) s h = h

  pub if-Preserves :
      {A : Type 0} (c : Bool) (m n : Act W A)
      → Preserves m
      → Preserves n
      → Preserves (if c then m else n)
  if-Preserves true m n k l = k
  if-Preserves false m n k l = l

  pub send-Preserves : (now : ℕ × ℕ) (msg : Message) → Preserves (send now msg)
  unfolding send
  send-Preserves now msg =
      bind-Preserves (on_socket (msg_send now msg none)) (λ r. done r.0)
        (on_socket-Preserves (msg_send now msg none)) (λ r s h. h)

  pub send_error-Preserves : (now : ℕ × ℕ) (text : List ℕ) → Preserves (send_error now text)
  unfolding send_error
  send_error-Preserves now text = send-Preserves now _

  pub send_upload_res-Preserves :
      (now : ℕ × ℕ) (payload : List ℕ) (len : ℕ) → Preserves (send_upload_res now payload len)
  unfolding send_upload_res
  send_upload_res-Preserves now payload len = send-Preserves now _

  pub send_download_res-Preserves :
      (now : ℕ × ℕ) (payload : List ℕ) (len : ℕ) → Preserves (send_download_res now payload len)
  unfolding send_download_res
  send_download_res-Preserves now payload len = send-Preserves now _

  pub uman_get_user-Preserves :
      (compare : Uuid → Uuid → ℤ) (generated : Uuid) (chain : Chain ℕ) (token : Uuid)
      → Preserves (uman_get_user compare generated chain token)
  unfolding uman_get_user
  uman_get_user-Preserves compare generated chain token s h = go (umap_get compare s.user_map token)
    where
      go :
          (x : Option (ℤ × Option ℕ))
          → Good (elim x as (λ _. Run (Option ℕ × World W)) [
            | none ↦ aborted
            | some (code, user) ↦ ok (user, s)
          ])
      go none = tt
      go (some (code, user)) = h

  module _ (compare : Uuid → Uuid → ℤ) (generated : Uuid) (chain : Chain ℕ)
      (registers : (map map' : UserMap ℕ) (heap : List User) (token : Uuid) (code : ℤ)
        → I map heap
        → umap_put compare chain map token (length heap) ≡ some (code, map')
        → I map' (heap ++ user_init generated (some token) ∷ [])) where
    pub uman_register_user-Preserves :
        (token : Uuid) → Preserves (uman_register_user compare generated chain token)
    unfolding uman_register_user
    uman_register_user-Preserves token s h =
        go (umap_put compare chain s.user_map token (length s.heap))
          (λ code map e. registers s.user_map map s.heap token code h e)
      where
        go :
            (x : Option (ℤ × UserMap ℕ))
            → ((code : ℤ) (map : UserMap ℕ)
                → x ≡ some (code, map)
                → I map (s.heap ++ user_init generated (some token) ∷ []))
            → Good (elim x as (λ _. Run (Unit {0} × World W)) [
              | none ↦ aborted
              | some (code, map) ↦ ok (
                tt,
                record s { user_map = map; heap = s.heap ++ user_init generated (some token) ∷ [] },
              )
            ])
        go none f = tt
        go (some (code, map)) f = f code map refl

    module _ (os : Os W) (parse : List ℕ → Option Uuid) (stale : Uuid) where
      register_entries-Preserves :
          (entries : List (List ℕ × FileKind))
          → Preserves (register_entries compare generated chain os parse stale entries)
      unfolding register_entries
      register_entries-Preserves [] = λ s h. h
      register_entries-Preserves ((name, kind) ∷ entries) =
          if-Preserves (is_dots name)
            (register_entries compare generated chain os parse stale entries) _
            (register_entries-Preserves entries)
            (bind-Preserves
              (uman_register_user compare generated chain
                (parsed compare generated chain os parse stale (parse name)))
              _ (uman_register_user-Preserves _) (λ r. register_entries-Preserves entries))

      -- Whatever stood in the table before, `uman_init` starts from an empty one.
      pub uman_init-Good :
          (s : World W)
          → I (umap_init ℕ 256) s.heap
          → Good (uman_init compare generated chain os parse stale s)
      unfolding uman_init
      uman_init-Good s h = go (os.opendir storage_dir s.files)
        where
          fresh : World W
          fresh = record s { user_map = umap_init ℕ 256 }

          go :
              (x : ℕ ⊎ List (List ℕ × FileKind))
              → Good (elim x as (λ _. Run (Unit {0} × World W)) [
                | inl errno ↦ ok (tt, fresh)
                | inr entries ↦
                    register_entries compare generated chain os parse stale entries fresh
              ])
          go (inl errno) = h
          go (inr entries) = register_entries-Preserves entries fresh h
