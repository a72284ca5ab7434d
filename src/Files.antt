-- ===== src/Files.antt =====
-- The parts of src/file.c and src/util.c that work on the file system: information on a file, its
-- checksum, and the removal of trees. The system calls are parameters.
-- `none` is undefined behaviour, or a recursion that has used its fuel up.
pub mod Removal
pub mod Chunking
pub mod Termination
mod Tests
use mini_dropbox.Prelude.{
  ℕ, zero, suc, codes, ◌+◌, ◌-◌, ◌*◌, ◌/◌, ◌%◌, ◌^◌, Bool, true, false, ◌||◌, Option, none, some,
  List, [], ◌∷◌, ◌++◌, ℤ, pos, negsuc, ◌>>=◌, if◌then◌else◌, ◌==◌, ltb, bytes_eq, length, ◌⊎◌, inl,
  inr,
}
use mini_dropbox.Session.{FileInfo}
use mini_dropbox.FilePath.{slash, dot}
use mini_dropbox.UserPath.{path_max, snprintf}
use mini_dropbox.Transfer.{chunk_size}

-- st_mode & S_IFMT
pub data FileKind : Type 0 where
  regular directory other_kind : FileKind

-- An open descriptor for reading: what `read` gives at a position, `none` if it fails.
abbrev pub Reader : Type 0
Reader = ℕ → Option (List ℕ)

-- The system calls on a file system `W`. An error is its errno; a call that changes the file system
-- gives `none` for success. `opendir` gives all that `readdir` will give.
pub record Os (W : Type 0) : Type 0 where
  pub lstat : List ℕ → W → ℕ ⊎ (FileKind × ℕ)
  pub open_rdonly : List ℕ → W → ℕ ⊎ Reader
  pub opendir : List ℕ → W → ℕ ⊎ List (List ℕ × FileKind)
  pub mkdir : List ℕ → W → Option ℕ × W
  pub unlink : List ℕ → W → Option ℕ × W
  pub rmdir : List ℕ → W → Option ℕ × W

-- How often a number is halved before it has 24 bits.
float_exp : ℕ → ℕ → ℕ
float_exp zero n = 0
float_exp (suc fuel) n =
    let more = suc (float_exp fuel (n / 2)) in if ltb n (2 ^ 24) then 0 else more

-- to the nearest, ties to even
round_even : ℕ → ℕ → ℕ → ℕ
round_even q r half = if ltb r half then q else if ltb half r then q + 1 else q + q % 2

to_float_at : ℕ → ℕ → ℕ
unfolding round_even
to_float_at zero n = n
to_float_at (suc e) n = round_even (n / 2 ^ suc e) (n % 2 ^ suc e) (2 ^ e) * 2 ^ suc e

-- (float)n, of 64 bits
unfoldable pub to_float : ℕ → ℕ
unfolding float_exp to_float_at
to_float n = to_float_at (float_exp 64 n) n

-- ceil((float)size / CHUNK_SIZE)
unfoldable pub count_chunks : ℕ → ℕ
count_chunks size = (to_float size + (chunk_size - 1)) / chunk_size

module _ (digest : List ℕ → List ℕ) {W : Type 0} (os : Os W) where
  -- while ((bytes_read = read(…)) > 0): an error of `read` is a huge unsigned length.
  pub digest_loop : ℕ → Reader → ℕ → List ℕ → Option (List ℕ)
  digest_loop zero read at acc = none
  digest_loop (suc fuel) read at acc = elim (read at) [
    | none ↦ none
    | some [] ↦ some acc
    | some (b ∷ bs) ↦ digest_loop fuel read (at + length (b ∷ bs)) (acc ++ (b ∷ bs))
  ]

  -- The code, and the checksum if one was stored.
  unfoldable pub file_checksum : ℕ → List ℕ → W → Option (ℤ × Option (List ℕ))
  unfolding digest_loop
  file_checksum fuel filename w = elim (os.open_rdonly filename w) [
    | inl e ↦ some (negsuc 0, none)
    | inr read ↦ digest_loop fuel read 0 [] >>= λ content. some (pos 0, some (digest content))
  ]

  -- The fields that are set before the checksum is computed.
  with_name_and_size : FileInfo → List ℕ → ℕ → FileInfo
  with_name_and_size out filename size = record out {
    filename = filename;
    size = size;
    chunk_count = count_chunks size;
  }

  -- The code, and `out`. A name that does not fit its array is undefined behaviour.
  unfoldable pub fileinfo_from_filename : ℕ → List ℕ → FileInfo → W → Option (ℤ × FileInfo)
  unfolding with_name_and_size
  fileinfo_from_filename fuel filename out w = elim (os.lstat filename w) [
    | inl e ↦ some (negsuc 0, out)
    | inr (directory, size) ↦ some (negsuc 1, out)
    | inr (other_kind, size) ↦ some (negsuc 1, out)
    | inr (regular, size) ↦
        if ltb (length filename) path_max
        then (file_checksum fuel filename w >>= λ r. elim r.1 [
          | none ↦ some (negsuc 2, with_name_and_size out filename size)
          | some c ↦ some (pos 0, record (with_name_and_size out filename size) { checksum = c })
        ])
        else none
  ]

-- ENOENT of Linux
abbrev pub enoent : ℕ
enoent = 2

-- EEXIST of Linux
abbrev pub eexist : ℕ
eexist = 17

-- strcmp with "." and ".."
abbrev pub is_dots : List ℕ → Bool
is_dots name = bytes_eq name (dot ∷ []) || bytes_eq name (dot ∷ dot ∷ [])

module _ {W : Type 0} (os : Os W) where
  unfoldable pub file_exists : List ℕ → W → ℤ
  file_exists filename w = elim (os.open_rdonly filename w) [
    | inl e ↦ if e == enoent then pos 0 else negsuc 0
    | inr read ↦ pos 1
  ]

  -- while ((entry = readdir(dir)) != NULL), with `rm` for `rm_r`
  pub rm_entries :
      (List ℕ → W → Option (Option ℕ × W)) → List ℕ → List (List ℕ × FileKind) → W → Option W
  rm_entries rm path [] w = some w
  rm_entries rm path ((name, kind) ∷ entries) w =
      if is_dots name
      then rm_entries rm path entries w
      else (rm (snprintf path_max (path ++ slash ∷ name)) w >>= λ r. rm_entries rm path entries r.1)

  -- On fuel for the depth of the tree. The result is `none` for 0, and the errno for -1.
  unfoldable pub rm_r : ℕ → List ℕ → W → Option (Option ℕ × W)
  unfolding rm_entries
  rm_r zero path w = none
  rm_r (suc fuel) path w = elim (os.lstat path w) [
    | inl e ↦ some (some e, w)
    | inr (regular, size) ↦ some (os.unlink path w)
    | inr (other_kind, size) ↦ some (os.unlink path w)
    | inr (directory, size) ↦ elim (os.opendir path w) [
      | inl e ↦ some (some e, w)
      | inr entries ↦ rm_entries (rm_r fuel) path entries w >>= λ v. some (os.rmdir path v)
    ]
  ]
