-- ===== src/Client/Token.antt =====
-- The token of the client, from one run of src/client.c to the next.
use mini_dropbox.Prelude.{
  ℕ, ◌≡◌, refl, ap, ◌∙◌, false, true, none, some, List, [], ◌++◌, ◌==◌, pos, length, length-append,
  append_assoc, take, drop, inl, inr, arith, zero, suc, ◌∷◌,
}
use mini_dropbox.UserMap.{Uuid}
use mini_dropbox.Net.{ok}
use mini_dropbox.UserPath.{path_max}
use mini_dropbox.Files.{Reader, eexist}
use mini_dropbox.Server.{string}
use mini_dropbox.Requests.{c_string}
use mini_dropbox.Requests.Texts.{NoNul, c_string_lem}
use mini_dropbox.Client.{
  Client, Host, set_errno, xdg_state_home, xdg_get_dir, token_path, token_text, parsed, read_token,
  write_token, open_token, load_token,
}

-- The file system at the path of the token file: it is not there, can be made, and is then found
-- with what was written to it.
pub record TokenFile {W : Type 0} (host : Host W) (path : List ℕ) (w : W) : Type 0 where
  pub made : W
  pub creates : host.create_excl path w ≡ inr made
  pub exists :
      host.create_excl path (host.write path (string (host.unparse host.fresh)) made) ≡ inl eexist
  pub reader : Reader
  pub opens :
      host.os.open_rdonly path (host.write path (string (host.unparse host.fresh)) made)
      ≡ inr reader
  pub content : reader 0 ≡ some (string (host.unparse host.fresh))

-- `uuid_unparse` gives 36 characters that `uuid_parse` reads back.
pub record Parses {W : Type 0} (host : Host W) : Type 0 where
  pub width : length (host.unparse host.fresh) ≡ 36
  pub text : NoNul (host.unparse host.fresh)
  pub back : host.parse (host.unparse host.fresh) ≡ some host.fresh

module _ {W : Type 0} (host : Host W) (dir : ℕ × List ℕ) (path : List ℕ)
    (home : xdg_get_dir host.getenv xdg_state_home path_max ≡ some dir)
    (fits : token_path dir ≡ some path) where
  -- With a directory for the token, loading it is opening the file there.
  pub load_token_lem :
      (old : Uuid) (s : Client W) → load_token host old s ≡ open_token host path old s
  unfolding load_token
  load_token_lem old s = rw (load_token, home, fits) refl

  pub read_token_lem :
      (old : Uuid) (s : Client W) {read : Reader} {text : List ℕ}
      → host.os.open_rdonly path s.files ≡ inr read
      → c_string (some (token_text host (read 0))) ≡ some text
      → read_token host path old s ≡ ok ((pos 0, parsed host old (host.parse text)), s)
  unfolding read_token
  read_token_lem old s e f = rw (read_token, e, f) refl

  created :
      (old : Uuid) (s : Client W) {made : W}
      → host.create_excl path s.files ≡ inr made
      → (s.socket.errno == eexist) ≡ false
      → open_token host path old s ≡ write_token host path (record s { files = made })
  unfolding open_token
  created old s e f = rw (open_token, e, f) refl

  found :
      (old : Uuid) (s : Client W)
      → host.create_excl path s.files ≡ inl eexist
      → open_token host path old s ≡ read_token host path old (set_errno eexist s)
  unfolding open_token
  found old s e = rw (open_token, e) refl

  whole :
      (old : Uuid) (text : List ℕ)
      → length text ≡ 36
      → token_text host (some (string text)) ≡ text ++ 0 ∷ drop 37 host.junk_text
  whole old text size =
      rw (take-string 36 text size, size-string)
        (append_assoc text (0 ∷ []) (drop 37 host.junk_text))
    where
      take-string :
          (n : ℕ) (xs : List ℕ) → length xs ≡ n → take (suc n) (xs ++ 0 ∷ []) ≡ xs ++ 0 ∷ []
      take-string zero [] e = refl
      take-string zero (x ∷ xs) e = absurd (omega arith)
      take-string (suc n) [] e = absurd (omega arith)
      take-string (suc n) (x ∷ xs) e = ap (◌∷◌ x) (take-string n xs (omega arith))

      size-string : length (text ++ 0 ∷ []) ≡ 37
      size-string = length-append text (0 ∷ []) ∙ omega (arith, size)

  -- An errno that is EEXIST from an earlier call makes the first run take its new, empty file for one
  -- that was there. It parses the text buffer, which nothing has been read into: if that memory
  -- happens to hold a NUL and `uuid_parse` refuses the text before it, the run keeps what stood for
  -- the token and reports success, and the file stays empty.
  pub load_token-stale :
      (old : Uuid) (s : Client W) {made : W} {read : Reader} {text : List ℕ}
      → host.create_excl path s.files ≡ inr made
      → (s.socket.errno == eexist) ≡ true
      → host.os.open_rdonly path made ≡ inr read
      → read 0 ≡ some []
      → c_string (some host.junk_text) ≡ some text
      → host.parse text ≡ none
      → load_token host old s ≡ ok ((pos 0, old), record s { files = made })
  unfolding open_token
  load_token-stale old s {made} made_it stale opened empty junk bad =
      load_token_lem old s
      ∙ rw (open_token, made_it, stale) refl
      ∙ read_token_lem old (record s { files = made }) opened
          (ap (λ got. c_string (some (token_text host got))) empty ∙ junk)
      ∙ ap (λ p. ok ((pos 0, parsed host old p), record s { files = made })) bad

  -- The first run, whose errno is not a stale EEXIST, makes a new token and writes it; every later
  -- run, whatever its errno and its token were before, reads that token and leaves the files alone.
  pub load_token-load_token :
      (w : W)
      → TokenFile host path w
      → Parses host
      → (old : Uuid) (s : Client W) → s.files ≡ w
      → (s.socket.errno == eexist) ≡ false
      → (t : Client W) × (load_token host old s ≡ ok ((pos 0, host.fresh), t))
        × ((q : Uuid) (u : Client W)
            → u.files ≡ t.files
            → load_token host q u ≡ ok ((pos 0, host.fresh), set_errno eexist u))
  unfolding write_token
  load_token-load_token w file parses old s same fine = (
    record s { files = host.write path (string (host.unparse host.fresh)) file.made },
    load_token_lem old s ∙ created old s (ap (host.create_excl path) same ∙ file.creates) fine,
    λ q u kept.
        load_token_lem q u
        ∙ found q u (ap (host.create_excl path) kept ∙ file.exists)
        ∙ again q (set_errno eexist u) kept,
  )
    where
      text : List ℕ
      text = host.unparse host.fresh

      again :
          (q : Uuid) (u : Client W)
          → u.files ≡ host.write path (string text) file.made
          → read_token host path q u ≡ ok ((pos 0, host.fresh), u)
      again q u kept =
          read_token_lem q u (ap (host.os.open_rdonly path) kept ∙ file.opens) (
            ap (λ got. c_string (some (token_text host got))) file.content
            ∙ ap (λ bytes. c_string (some bytes)) (whole q text parses.width)
            ∙ c_string_lem (drop 37 host.junk_text) text parses.text)
          ∙ ap (λ p. ok ((pos 0, parsed host q p), u)) parses.back
