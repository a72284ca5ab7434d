-- ===== src/Download/Listing.antt =====
-- The listing that `handle_list` of src/server.c sends for a directory.
use mini_dropbox.Prelude.{
  ℕ, ◌<◌, ◌≡◌, refl, ap, ◌∙◌, true, false, some, List, [], ◌∷◌, ◌++◌, pos, length, replicate,
  length-replicate, append_assoc,
}
use mini_dropbox.Session.{FileInfo}
use mini_dropbox.Msg.{MessageHdr, msgtype_none, msgtype_fileinfo, hdr_bytes}
use mini_dropbox.FilePath.{slash}
use mini_dropbox.UserPath.{path_max, snprintf}
use mini_dropbox.Files.{FileKind, regular, directory, other_kind, is_dots, fileinfo_from_filename}
use mini_dropbox.Requests.{Env, fileinfo_size, zero_info, strcpy, fileinfo_bytes}
use mini_dropbox.Streams.{fileinfo_of_bytes}
use mini_dropbox.Streams.Layout.{
  IsInfo, length-strcpy, length-fileinfo_bytes, fileinfo_of_bytes-fileinfo_bytes,
}

-- The file behind an entry.
abbrev pub entry_path : List ℕ → List ℕ → List ℕ
entry_path path name = snprintf path_max (path ++ slash ∷ name)

-- A payload with what the client is to see of an entry.
abbrev pub payload : FileInfo → List ℕ → List ℕ × FileInfo
payload info array = (fileinfo_bytes info (strcpy info.filename array), info)

abbrev pub named : FileInfo → List ℕ → FileInfo
named info name = record info { filename = name }

module _ {W : Type 0} (env : Env W) (fuel : ℕ) (path : List ℕ) (w : W) where
  -- What a directory's entries are listed as: all but "." and "..", in their order, each under its
  -- name, a regular file with its size, its number of chunks and its checksum, and all else with
  -- zeros.
  pub data Listing : List (List ℕ × FileKind) → List (List ℕ × FileInfo) → Type 0 where
    nothing : Listing [] []
    dots :
        (name : List ℕ) (kind : FileKind) {entries : List (List ℕ × FileKind)}
        {listed : List (List ℕ × FileInfo)}
        → is_dots name ≡ true
        → Listing entries listed
        → Listing ((name, kind) ∷ entries) listed
    file :
        (name : List ℕ) (n : ℕ) (info : FileInfo) {entries : List (List ℕ × FileKind)}
        {listed : List (List ℕ × FileInfo)}
        → is_dots name ≡ false
        → fileinfo_from_filename env.digest env.os fuel (entry_path path name) zero_info w
          ≡ some (pos n, info)
        → length (entry_path path name) < path_max
        → IsInfo (named info name)
        → Listing entries listed
        → Listing ((name, regular) ∷ entries) (
            payload (named info name) (strcpy (entry_path path name) (replicate path_max 0))
            ∷ listed)
    folder :
        (name : List ℕ) {entries : List (List ℕ × FileKind)} {listed : List (List ℕ × FileInfo)}
        → is_dots name ≡ false
        → IsInfo (named zero_info name)
        → Listing entries listed
        → Listing
            ((name, directory) ∷ entries)
            (payload (named zero_info name) (replicate path_max 0) ∷ listed)
    special :
        (name : List ℕ) {entries : List (List ℕ × FileKind)} {listed : List (List ℕ × FileInfo)}
        → is_dots name ≡ false
        → IsInfo (named zero_info name)
        → Listing entries listed
        → Listing
            ((name, other_kind) ∷ entries)
            (payload (named zero_info name) (replicate path_max 0) ∷ listed)

-- The payloads have the size of the struct, and are read as what they stand for.
abbrev pub Readable : List (List ℕ × FileInfo) → Type 0
Readable [] = Unit
Readable ((bytes, info) ∷ listed) =
    (length bytes ≡ fileinfo_size) × (fileinfo_of_bytes (some bytes) ≡ some info) × Readable listed

array_size :
    (text array : List ℕ)
    → length text < length array
    → length array ≡ path_max
    → length (strcpy text array) ≡ path_max
array_size text array fits size = length-strcpy text array fits ∙ size

zeros : length {A = ℕ} (replicate path_max 0) ≡ path_max
zeros = length-replicate {A = ℕ} path_max 0

module _ {W : Type 0} (env : Env W) (fuel : ℕ) (path : List ℕ) (w : W) where
  readable :
      (info : FileInfo) (array : List ℕ) (listed : List (List ℕ × FileInfo))
      → IsInfo info
      → length array ≡ path_max
      → Readable listed
      → Readable (payload info array ∷ listed)
  readable info array listed v size rest = (
    length-fileinfo_bytes info array v size,
    fileinfo_of_bytes-fileinfo_bytes info array v size,
    rest,
  )

  -- A client reads a listing as what it stands for.
  pub Listing-Readable :
      {entries : List (List ℕ × FileKind)} {listed : List (List ℕ × FileInfo)}
      → Listing env fuel path w entries listed
      → Readable listed
  Listing-Readable nothing = tt
  Listing-Readable (dots name kind e l) = Listing-Readable l
  Listing-Readable (file name n info e f fits v l) =
      readable (named info name) _ _ v
        (array_size (entry_path path name) (replicate path_max 0) (rw zeros fits) zeros)
        (Listing-Readable l)
  Listing-Readable (folder name e v l) =
      readable (named zero_info name) (replicate path_max 0) _ v zeros (Listing-Readable l)
  Listing-Readable (special name e v l) =
      readable (named zero_info name) (replicate path_max 0) _ v zeros (Listing-Readable l)

-- The headers of a listing's messages, in answer to a request with the header `h`.
abbrev pub entry_hdr : ℕ × ℕ → MessageHdr → MessageHdr
entry_hdr now h = record h { length = fileinfo_size; type = msgtype_fileinfo; sent_at = now }

abbrev pub end_hdr : ℕ × ℕ → MessageHdr → MessageHdr
end_hdr now h = record h { length = 0; type = msgtype_none; sent_at = now }

-- The bytes of the messages, with what follows.
abbrev pub listing_bytes : ℕ × ℕ → MessageHdr → List (List ℕ × FileInfo) → List ℕ → List ℕ
listing_bytes now h [] rest = rest
listing_bytes now h ((bytes, info) ∷ listed) rest =
    (hdr_bytes (entry_hdr now h) ++ bytes) ++ listing_bytes now h listed rest

pub listing_bytes-append :
    (now : ℕ × ℕ) (h : MessageHdr) (listed : List (List ℕ × FileInfo)) (rest : List ℕ)
    → listing_bytes now h listed [] ++ rest ≡ listing_bytes now h listed rest
listing_bytes-append now h [] rest = refl
listing_bytes-append now h ((bytes, info) ∷ listed) rest =
    append_assoc (hdr_bytes (entry_hdr now h) ++ bytes) (listing_bytes now h listed []) rest
    ∙ ap (λ x. (hdr_bytes (entry_hdr now h) ++ bytes) ++ x) (listing_bytes-append now h listed rest)
