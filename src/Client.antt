-- ===== src/Client.antt =====
-- What the commands of src/client.c work on, and the token of the client: `load_token`, with
-- `xdg_get_dir` of src/util.c. The lines that a command prints of what the server sent are kept; all
-- other prints are left out.
pub mod Steps
pub mod Token
pub mod Tests
use mini_dropbox.Prelude.{
  ℕ, zero, suc, codes, ◌+◌, ◌-◌, ◌%◌, ◌^◌, Bool, true, false, Option, none, some, List, [], ◌∷◌,
  ◌++◌, ℤ, pos, negsuc, if◌then◌else◌, ◌==◌, ltb, length, take, drop, inl, inr, ◌⊎◌,
}
use mini_dropbox.UserMap.{Uuid, u64_mod}
use mini_dropbox.Session.{FileInfo}
use mini_dropbox.Net.{Socket, Run, ok, blocked, aborted, Io}
use mini_dropbox.Msg.{Message, msg_send, overwrite}
use mini_dropbox.UserPath.{path_max, snprintf}
use mini_dropbox.Files.{Os, eexist}
use mini_dropbox.Server.{string}
use mini_dropbox.Requests.{c_string}

-- A line of output: a text that the server sent (NULL is `none`), or an entry of a listing.
pub data Line : Type 0 where
  reply_text : Option (List ℕ) → Line
  entry : ℕ → List ℕ → Line

-- The socket to the server (its errno is that of the process), the file system and the output.
pub record Client (W : Type 0) : Type 0 where
  pub socket : Socket
  pub files : W
  pub output : List Line

-- What the client calls that is not under src/, and what it finds in memory that it has not set.
pub record Host (W : Type 0) : Type 0 where
  pub os : Os W
  -- open(path, O_CREAT | O_WRONLY | O_EXCL, 0755): an errno, or the files with the new one
  pub create_excl : List ℕ → W → ℕ ⊎ W
  -- write(fd, bytes, length) on the file that was just made
  pub write : List ℕ → List ℕ → W → W
  pub getenv : List ℕ → Option (List ℕ)
  -- uuid_generate, uuid_unparse, uuid_parse (-1 is `none`)
  pub fresh : Uuid
  pub unparse : Uuid → List ℕ
  pub parse : List ℕ → Option Uuid
  pub digest : List ℕ → List ℕ
  pub now : ℕ × ℕ
  pub junk_text : List ℕ
  pub junk_message : Message
  pub junk_payload : ℕ → List ℕ
  pub junk_info : FileInfo
  pub junk_array : List ℕ

abbrev pub Act : Type 0 → Type 0 → Type 0
Act W A = Client W → Run (A × Client W)

abbrev pub done : {W A : Type 0} → A → Act W A
done a s = ok (a, s)

abbrev pub undefined : {W A : Type 0} → Act W A
undefined s = aborted

infixl 5 ◌>>=◌
abbrev pub ◌>>=◌ : {W A B : Type 0} → Act W A → (A → Act W B) → Act W B
◌>>=◌ m f s = elim (m s) [ ok (a, t) ↦ f a t | blocked ↦ blocked | aborted ↦ aborted ]

-- A step that uses the socket only.
abbrev pub on_socket : {W A : Type 0} → Io A → Act W A
on_socket m s = elim (m s.socket) [
  | ok (a, t) ↦ ok (a, record s { socket = t })
  | blocked ↦ blocked
  | aborted ↦ aborted
]

-- A step that only looks at the file system.
abbrev pub look : {W A : Type 0} → (W → Option A) → Act W A
look m s = elim (m s.files) [ none ↦ aborted | some a ↦ ok (a, s) ]

-- A value that may be undefined, or an assertion that may fail.
abbrev pub on_value : {W A : Type 0} → Option A → Act W A
on_value none s = aborted
on_value (some a) s = ok (a, s)

-- errno = e
abbrev pub set_errno : {W : Type 0} → ℕ → Client W → Client W
set_errno e s = record s { socket = record (s.socket) { errno = e } }

abbrev pub print : {W : Type 0} → Line → Act W (Unit {0})
print line s = ok (tt, record s { output = s.output ++ line ∷ [] })

-- printf("… %s\n", msg.payload): a text without an end is undefined.
unfoldable pub print_payload : {W : Type 0} → Option (List ℕ) → Act W (Unit {0})
print_payload none = print (reply_text none)
print_payload (some p) = on_value (c_string (some p)) >>= λ text. print (reply_text (some text))

abbrev pub is_minus_one : ℤ → Bool
is_minus_one (pos n) = false
is_minus_one (negsuc n) = n == 0

abbrev pub with_token : Uuid → Message → Message
with_token token msg = record msg { hdr = record (msg.hdr) { token = token } }

pub data XdgDir : Type 0 where
  xdg_config_home xdg_state_home : XdgDir

unfoldable pub xdg_dir_to_str : XdgDir → List ℕ
xdg_dir_to_str xdg_config_home = codes "XDG_CONFIG_HOME"
xdg_dir_to_str xdg_state_home = codes "XDG_STATE_HOME"

-- A variable that is set and not empty.
abbrev pub filled : Option (List ℕ) → Option (List ℕ)
filled none = none
filled (some []) = none
filled (some (c ∷ text)) = some (c ∷ text)

-- What `snprintf` returns, and what it leaves in `out_path`; -1 is `none`.
unfoldable pub xdg_get_dir : (List ℕ → Option (List ℕ)) → XdgDir → ℕ → Option (ℕ × List ℕ)
unfolding xdg_dir_to_str
xdg_get_dir getenv dir max_len = elim (filled (getenv (xdg_dir_to_str dir))) [
  | some xdg ↦ some (length xdg, snprintf max_len xdg)
  | none ↦ elim (filled (getenv (codes "HOME"))) [
    | some home ↦
        some (length home + length (codes "/.config"), snprintf max_len (home ++ codes "/.config"))
    | none ↦ none
  ]
]

abbrev pub token_name : List ℕ
token_name = codes "/minidropbox.token"

-- strncat(tokfile_path, "/minidropbox.token", chars_left), where the difference is unsigned; a text
-- that does not fit the array is undefined.
unfoldable pub token_path : ℕ × List ℕ → Option (List ℕ)
token_path (len, dir) =
    let chars_left = (path_max + (u64_mod - len)) % u64_mod in
    let path = dir ++ take chars_left token_name in
    if ltb (length path) path_max then some path else none

module _ {W : Type 0} (host : Host W) where
  -- What `token_str` holds behind the read of 37 bytes.
  abbrev pub token_text : Option (List ℕ) → List ℕ
  token_text none = host.junk_text
  token_text (some got) = overwrite (take 37 got) host.junk_text

  -- A text that `uuid_parse` refuses leaves the token as it was.
  abbrev pub parsed : Uuid → Option Uuid → Uuid
  parsed old none = old
  parsed old (some token) = token

  unfoldable pub read_token : List ℕ → Uuid → Act W (ℤ × Uuid)
  read_token path old s = elim (host.os.open_rdonly path s.files) [
    | inl e ↦ ok ((negsuc 0, old), set_errno e s)
    | inr read ↦
        (on_value (c_string (some (token_text (read 0)))) >>= λ text.
        done (pos 0, parsed old (host.parse text)))
          s
  ]

  unfoldable pub write_token : List ℕ → Act W (ℤ × Uuid)
  write_token path s = ok (
    (pos 0, host.fresh),
    record s { files = host.write path (string (host.unparse host.fresh)) s.files },
  )

  -- errno is tested whether `open` failed or not.
  unfoldable pub open_token : List ℕ → Uuid → Act W (ℤ × Uuid)
  unfolding read_token write_token
  open_token path old s = elim (host.create_excl path s.files) [
    | inl e ↦
        if e == eexist
        then read_token path old (set_errno e s)
        else ok ((negsuc 0, old), set_errno e s)
    | inr made ↦
        if s.socket.errno == eexist
        then read_token path old (record s { files = made })
        else write_token path (record s { files = made })
  ]

  -- The code, and what `token` holds, which is `old` before.
  unfoldable pub load_token : Uuid → Act W (ℤ × Uuid)
  unfolding open_token
  load_token old = elim (xdg_get_dir host.getenv xdg_state_home path_max) [
    | none ↦ done (pos 1, old)
    | some dir ↦ on_value (token_path dir) >>= λ path. open_token path old
  ]

  -- msg_send(&msg, sockfd, NULL, 0): the code, and the message with its stamp
  unfoldable pub send : Message → Act W (ℤ × Message)
  send msg = on_socket (msg_send host.now msg none)

  -- load_token(msg.hdr.token); only the code -1 ends the command.
  abbrev pub loaded : Message → (Message → Act W ℤ) → Act W ℤ
  loaded msg next = load_token msg.hdr.token >>= λ r.
      if is_minus_one r.0 then done (pos 1) else next (with_token r.1 msg)
