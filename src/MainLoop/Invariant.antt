-- ===== src/MainLoop/Invariant.antt =====
-- The table of users of src/server.c under any events of the loop.
use mini_dropbox.Prelude.{
  ℕ, zero, suc, ◌<◌, ◌≡◌, refl, ap, ◌∙◌, sym, Bool, true, false, Option, none, some, List, [], ◌∷◌,
  ◌++◌, ℤ, pos, negsuc, is_neg, ◌||◌, if◌then◌else◌, ◌==◌, arith, length, length-append, length-set,
  set,
}
use mini_dropbox.UserMap.{Uuid, UserMap, umap_put}
use mini_dropbox.UserMap.Invariant.{IsValid}
use mini_dropbox.UserMap.Range.{InRange, umap_init-InRange, umap_put-InRange, umap_get-InRange}
use mini_dropbox.Session.{FileInfo}
use mini_dropbox.User.{User, user_init}
use mini_dropbox.Net.{Socket, Run, ok, blocked, aborted}
use mini_dropbox.Msg.{Message, msg_recv_header}
use mini_dropbox.Files.{eexist}
use mini_dropbox.Server.{World, Act, done, ◌>>=◌, on_socket, uman_init, uman_get_user}
use mini_dropbox.UserPath.{storage_dir}
use mini_dropbox.Server.Preserving.{
  Holds, Good, Preserves, bind-Preserves, on_socket-Preserves, uman_init-Good,
}
use mini_dropbox.Requests.{Env}
use mini_dropbox.Upload.{Disk}
use mini_dropbox.Dispatch.{on_client_disconnected, on_client_message_received}
use mini_dropbox.Dispatch.Preserving.{on_client_message_received-Preserves}
use mini_dropbox.MainLoop.{
  eagain, Event, connected, connection_lost, interrupted, hangup, readable, Service, find_client,
  more, Listening, create_server_socket, start_listening, start, after_message, after_header,
  on_readable, served, serve_client, on_event, event_loop,
}

-- Every address in the table leads to a user.
abbrev pub IsSound : UserMap ℕ → List User → Type 0
IsSound map heap = InRange (length heap) map

module _ {W F : Type 0} (env : Env W) (disk : Disk W F) (fuel : ℕ) (unset : FileInfo)
    (is_null : Uuid → Bool) (zeroed : env.junk_chain ≡ []) where
  updates :
      (map : UserMap ℕ) (heap : List User) (p : ℕ) (user : User)
      → IsSound map heap
      → IsSound map (set heap p user)
  updates map heap p user h = coe 0 1 (i. InRange (sym (length-set heap p user) i) map) h

  registers :
      (map map' : UserMap ℕ) (heap : List User) (token : Uuid) (code : ℤ)
      → IsSound map heap
      → umap_put env.compare env.junk_chain map token (length heap) ≡ some (code, map')
      → IsSound map' (heap ++ user_init env.generated (some token) ∷ [])
  registers map map' heap token code h e = coe 0 1 (i. InRange (sym longer i) map') (
      umap_put-InRange env.compare (length heap) map h token code map'
        (ap (λ c. umap_put env.compare c map token (length heap)) (sym zeroed) ∙ e))
    where
      longer : length (heap ++ user_init env.generated (some token) ∷ []) ≡ suc (length heap)
      longer = length-append heap (user_init env.generated (some token) ∷ []) ∙ omega arith

  after_message-Preserves :
      (ret : ℤ) → Preserves IsSound (after_message env disk fuel unset is_null ret)
  unfolding after_message
  after_message-Preserves (negsuc zero) = λ s h. h
  after_message-Preserves (negsuc (suc n)) = λ s h. h
  after_message-Preserves (pos n) = λ s h. h

  message-Preserves :
      (msg : Message)
      → Preserves IsSound (λ s.
        (on_client_message_received env disk fuel unset is_null msg >>= λ ret.
        after_message env disk fuel unset is_null ret)
          s)
  message-Preserves msg =
      bind-Preserves IsSound (on_client_message_received env disk fuel unset is_null msg)
        (after_message env disk fuel unset is_null)
        (on_client_message_received-Preserves env disk fuel unset is_null IsSound updates registers
          msg)
        after_message-Preserves

  after_header-Preserves :
      (code : ℤ) (msg : Message)
      → Preserves IsSound (after_header env disk fuel unset is_null code msg)
  unfolding after_header
  after_header-Preserves (negsuc zero) msg s h = waits (s.socket.errno == eagain)
    where
      waits : (b : Bool) → Good {W = W} IsSound (if b then done tt s else on_client_disconnected s)
      waits true = h
      waits false = h
  after_header-Preserves (negsuc (suc zero)) msg s h = h
  after_header-Preserves (negsuc (suc (suc n))) msg s h = message-Preserves msg s h
  after_header-Preserves (pos n) msg s h = message-Preserves msg s h

  on_readable-Preserves : Preserves IsSound (on_readable env disk fuel unset is_null)
  unfolding on_readable
  on_readable-Preserves =
      bind-Preserves IsSound (on_socket (msg_recv_header env.now env.junk_message)) _
        (on_socket-Preserves IsSound _) (λ r. after_header-Preserves r.0 r.1)

  abbrev pub Sound : Run (Service W) → Type 0
  Sound (ok v) = Holds IsSound v.shared
  Sound blocked = Unit
  Sound aborted = Unit

  on_event-Sound :
      (e : Event) (v : Service W)
      → Holds IsSound v.shared
      → Sound (on_event env disk fuel unset is_null e v)
  unfolding on_event serve_client served
  on_event-Sound (connected fd socket) v h = h
  on_event-Sound connection_lost v h = h
  on_event-Sound interrupted v h = h
  on_event-Sound (hangup fd) v h = h
  on_event-Sound (readable fd incoming outcomes) v h = client (find_client fd v.clients)
    where
      returned :
          (x : Run (Unit {0} × World W))
          → Good IsSound x
          → Sound (elim x as (λ _. Run (Service W)) [
            | ok (r, t) ↦ ok (served env disk fuel unset is_null fd v t)
            | blocked ↦ blocked
            | aborted ↦ aborted
          ])
      returned (ok (r, t)) g = g
      returned blocked g = tt
      returned aborted g = tt

      client :
          (x : Option Socket)
          → Sound (elim x as (λ _. Run (Service W)) [
            | none ↦ ok v
            | some s ↦ serve_client env disk fuel unset is_null fd v (more incoming outcomes s)
          ])
      client none = h
      client (some s) = returned _ (
          on_readable-Preserves
            (record (v.shared) { socket = more incoming outcomes s; is_open = true }) h)

  event_loop-Sound :
      (events : List Event) (v : Service W)
      → Holds IsSound v.shared
      → Sound (event_loop env disk fuel unset is_null events v)
  unfolding event_loop
  event_loop-Sound [] v h = h
  event_loop-Sound (e ∷ events) v h =
      go (λ u g. event_loop-Sound events u g) (on_event env disk fuel unset is_null e v)
        (on_event-Sound e v h)
    where
      go :
          ((u : Service W)
            → Holds IsSound u.shared
            → Sound (event_loop env disk fuel unset is_null events u))
          → (x : Run (Service W)) → Sound x
          → Sound (elim x as (λ _. Run (Service W)) [
            | ok u ↦ event_loop env disk fuel unset is_null events u
            | blocked ↦ blocked
            | aborted ↦ aborted
          ])
      go rest (ok u) g = rest u g
      go rest blocked g = tt
      go rest aborted g = tt

  module _ (parse : List ℕ → Option Uuid) (stale : Uuid) (calls : Listening) (listened : ℤ) where
    abbrev pub Started : Run (Bool × World W) → Type 0
    Started (ok (true, t)) = Holds IsSound t
    Started (ok (false, t)) = Unit
    Started blocked = Unit
    Started aborted = Unit

    listening-Started :
        (s : World W)
        → Started (start_listening env disk fuel unset is_null parse stale calls listened s)
    unfolding start_listening
    listening-Started s =
        go (uman_init env.compare env.generated env.junk_chain env.os parse stale s) (
          uman_init-Good IsSound env.compare env.generated env.junk_chain registers env.os parse
            stale s (umap_init-InRange (length s.heap) 256 (omega arith)))
      where
        by_code :
            (b : Bool) (t : World W) → Holds IsSound t → Started (ok (if b then false else true, t))
        by_code true t h = tt
        by_code false t h = h

        go :
            (x : Run (Unit {0} × World W))
            → Good IsSound x
            → Started (elim x as (λ _. Run (Bool × World W)) [
              | ok (r, t) ↦ ok (
                if is_neg (create_server_socket calls) || is_neg listened then false else true,
                t,
              )
              | blocked ↦ blocked
              | aborted ↦ aborted
            ])
        go (ok (r, t)) g = by_code _ t g
        go blocked g = tt
        go aborted g = tt

    start-Started :
        (s : World W) → Started (start env disk fuel unset is_null parse stale calls listened s)
    unfolding start
    start-Started s = go (env.os.mkdir storage_dir s.files)
      where
        go :
            (x : Option ℕ × W)
            → Started (
                (elim x.0 as (λ _. Act W Bool) [
                  | none ↦ start_listening env disk fuel unset is_null parse stale calls listened
                  | some errno ↦
                      if errno == eexist
                      then start_listening env disk fuel unset is_null parse stale calls listened
                      else done false
                ])
                  (record s { files = x.1 }))
        go (none, w) = listening-Started (record s { files = w })
        go (some errno, w) = known (errno == eexist)
          where
            known :
                (b : Bool)
                → Started (
                    (if b
                        then start_listening env disk fuel unset is_null parse stale calls listened
                        else done false)
                      (record s { files = w }))
            known true = listening-Started (record s { files = w })
            known false = tt

    -- After any events since the start, where `next` of a new entry is NULL, the table of users is
    -- valid, and looking a token up is defined and gives NULL or the address of a user.
    pub event_loop-IsSound :
        (events : List Event) (s t : World W) (u : Service W)
        → start env disk fuel unset is_null parse stale calls listened s ≡ ok (true, t)
        → event_loop env disk fuel unset is_null events (record { shared = t; clients = [] }) ≡ ok u
        → IsValid u.shared.user_map
          × ((token : Uuid)
              → (r : Option ℕ) × (uman_get_user env.compare env.generated env.junk_chain token
                    u.shared
                  ≡ ok (r, u.shared))
                × ((p : ℕ) → r ≡ some p → p < length u.shared.heap))
    unfolding uman_get_user
    event_loop-IsSound events s t u e f = (sound.valid, found)
      where
        started : Holds IsSound t
        started = coe 0 1 (i. Started (e i)) (start-Started s)

        sound : Holds IsSound u.shared
        sound =
            coe 0 1 (i. Sound (f i))
              (event_loop-Sound events (record { shared = t; clients = [] }) started)

        found :
            (token : Uuid)
            → (r : Option ℕ) × (uman_get_user env.compare env.generated env.junk_chain token
                  u.shared
                ≡ ok (r, u.shared))
              × ((p : ℕ) → r ≡ some p → p < length u.shared.heap)
        found token =
            let (code, value, get, below) =
              umap_get-InRange env.compare (length u.shared.heap) u.shared.user_map sound token in
            (value, rw (uman_get_user, get) refl, below)
