-- ===== src/Streams/Layout.antt =====
-- The bytes of the struct FileInfo of src/file.h, which the client and the server send each other.
use mini_dropbox.Prelude.{
  ℕ, zero, suc, ◌+◌, ◌<◌, ◌≡◌, refl, ap, ◌∙◌, ◌≤◌, sym, some, List, [], ◌∷◌, ◌++◌, false, ltb,
  arith, length, length-append, take, drop, append-nil,
}
use mini_dropbox.Session.{FileInfo}
use mini_dropbox.Msg.{to_bytes, from_bytes}
use mini_dropbox.Msg.Header.{
  span, from_bytes-to_bytes, length-to_bytes, take-append_exact, drop-append_exact, drop-drop,
}
use mini_dropbox.UserPath.{path_max}
use mini_dropbox.Requests.{fileinfo_size, strcpy, fileinfo_bytes, c_string}
use mini_dropbox.Requests.Texts.{NoNul, c_string_lem}
use mini_dropbox.Streams.{fileinfo_of_bytes}

-- What fits the fields of the struct.
pub record IsInfo (info : FileInfo) : Type 0 where
  pub size_fits : info.size < span 8
  pub count_fits : info.chunk_count < span 8
  pub checksum_size : length info.checksum ≡ 32
  pub name_clean : NoNul info.filename
  pub name_fits : length info.filename < path_max

length-drop : (n : ℕ) (xs : List ℕ) → n ≤ length xs → n + length (drop n xs) ≡ length xs
length-drop zero xs h = omega arith
length-drop (suc n) [] h = absurd (omega arith)
length-drop (suc n) (x ∷ xs) h = omega (arith, length-drop n xs (omega arith))

take_whole : (n : ℕ) (xs : List ℕ) → length xs ≡ n → take n xs ≡ xs
take_whole n xs e = ap (take n) (sym (append-nil xs)) ∙ take-append_exact n xs [] e

length-parts :
    (a b c d : List ℕ)
    → length (a ++ (b ++ (c ++ d))) ≡ length a + (length b + (length c + length d))
length-parts a b c d = simp length-append refl

-- strcpy into an array leaves the array's size as it is.
pub length-strcpy :
    (text array : List ℕ) → length text < length array → length (strcpy text array) ≡ length array
length-strcpy text array fits =
    simp length-append (omega (arith, length-drop (length text + 1) array (omega arith)))

module _ (info : FileInfo) (array : List ℕ) (v : IsInfo info)
    (width : length array ≡ path_max) where
  abbrev layout : List ℕ
  layout =
      to_bytes 8 info.size
      ++ (to_bytes 8 info.chunk_count ++ (info.checksum ++ strcpy info.filename array))

  name_size : length (strcpy info.filename array) ≡ path_max
  name_size = length-strcpy info.filename array (rw width v.name_fits) ∙ width

  pub length-fileinfo_bytes :
      length (fileinfo_bytes info (strcpy info.filename array)) ≡ fileinfo_size
  unfolding fileinfo_bytes
  length-fileinfo_bytes =
      length-parts (to_bytes 8 info.size) (to_bytes 8 info.chunk_count) info.checksum
        (strcpy info.filename array)
      ∙ sizes (length-to_bytes 8 info.size) (length-to_bytes 8 info.chunk_count)
    where
      sizes :
          {a b : ℕ}
          → a ≡ 8
          → b ≡ 8
          → a + (b + (length info.checksum + length (strcpy info.filename array))) ≡ fileinfo_size
      sizes e f = omega (arith, e, f, v.checksum_size, name_size)

  at_8 :
      drop 8 layout ≡ to_bytes 8 info.chunk_count ++ (info.checksum ++ strcpy info.filename array)
  at_8 = drop-append_exact 8 (to_bytes 8 info.size) _ (length-to_bytes 8 info.size)

  at_16 : drop 16 layout ≡ info.checksum ++ strcpy info.filename array
  at_16 =
      drop-drop 8 8 layout
      ∙ ap (drop 8) at_8
      ∙ drop-append_exact 8 (to_bytes 8 info.chunk_count) _ (length-to_bytes 8 info.chunk_count)

  at_48 : drop 48 layout ≡ strcpy info.filename array
  at_48 =
      drop-drop 16 32 layout
      ∙ ap (drop 32) at_16
      ∙ drop-append_exact 32 info.checksum _ v.checksum_size

  number : (n : ℕ) (after : List ℕ) → n < span 8 → from_bytes (take 8 (to_bytes 8 n ++ after)) ≡ n
  number n after fits =
      ap from_bytes (take-append_exact 8 (to_bytes 8 n) after (length-to_bytes 8 n))
      ∙ from_bytes-to_bytes 8 n fits

  -- The struct is read back from its bytes, whatever the array had before its name was copied there.
  pub fileinfo_of_bytes-fileinfo_bytes :
      fileinfo_of_bytes (some (fileinfo_bytes info (strcpy info.filename array))) ≡ some info
  unfolding fileinfo_bytes fileinfo_of_bytes
  fileinfo_of_bytes-fileinfo_bytes = rw (whole, name) (rw (size_eq, count_eq, checksum_eq) refl)
    where
      whole : ltb (length layout) fileinfo_size ≡ false
      whole = rw length-fileinfo_bytes refl

      name : c_string (some (take path_max (drop 48 layout))) ≡ some info.filename
      name =
          ap (λ x. c_string (some (take path_max x))) at_48
          ∙ ap (λ x. c_string (some x)) (take_whole path_max (strcpy info.filename array) name_size)
          ∙ c_string_lem (drop (length info.filename + 1) array) info.filename v.name_clean

      size_eq : from_bytes (take 8 layout) ≡ info.size
      size_eq = number info.size _ v.size_fits

      count_eq : from_bytes (take 8 (drop 8 layout)) ≡ info.chunk_count
      count_eq = ap (λ x. from_bytes (take 8 x)) at_8 ∙ number info.chunk_count _ v.count_fits

      checksum_eq : take 32 (drop 16 layout) ≡ info.checksum
      checksum_eq = ap (take 32) at_16 ∙ take-append_exact 32 info.checksum _ v.checksum_size
