-- ===== src/Msg/Header.antt =====
-- The bytes of a message header of src/msg.h, and back.
use mini_dropbox.Prelude.{
  ℕ, zero, suc, ◌+◌, ◌*◌, ◌/◌, ◌<◌, ◌≡◌, refl, ap, ◌∙◌, sym, List, [], ◌∷◌, ◌++◌, arith, length,
  length-append, take, drop, append_assoc,
}
use mini_dropbox.Msg.{
  MessageType, msgtype_none, other, MessageHdr, type_code, type_of_code, to_bytes, from_bytes,
  hdr_bytes, hdr_of_bytes, hdr_size,
}

-- 256 ^ width
abbrev pub span : ℕ → ℕ
span zero = 1
span (suc width) = 256 * span width

pub from_bytes-to_bytes : (width n : ℕ) → n < span width → from_bytes (to_bytes width n) ≡ n
unfolding from_bytes to_bytes
from_bytes-to_bytes zero n h = omega arith
from_bytes-to_bytes (suc width) n h =
    omega (arith, from_bytes-to_bytes width (n / 256) (omega arith))

pub length-to_bytes : (width n : ℕ) → length (to_bytes width n) ≡ width
unfolding to_bytes
length-to_bytes zero n = refl
length-to_bytes (suc width) n = ap suc (length-to_bytes width (n / 256))

-- The header of a message as the compiler keeps it.
pub record IsHdr (h : MessageHdr) : Type 0 where
  pub length_fits : h.length < span 8
  pub type_fits : type_code h.type < span 4
  pub type_known : type_of_code (type_code h.type) ≡ h.type
  pub token_size : length h.token ≡ 16
  pub padding_size : length h.padding ≡ 4
  pub seconds_fit : h.sent_at.0 < span 8
  pub nanos_fit : h.sent_at.1 < span 8

type_of_code-type_code :
    (t : MessageType) → ((n : ℕ) → t ≡ other n → 20 < n) → type_of_code (type_code t) ≡ t
unfolding type_of_code type_code
type_of_code-type_code (other n) h = let k = h n refl in ground arith
type_of_code-type_code msgtype_none h = refl
type_of_code-type_code _ h = refl

pub take-append_exact : (n : ℕ) (xs ys : List ℕ) → length xs ≡ n → take n (xs ++ ys) ≡ xs
take-append_exact zero [] ys e = refl
take-append_exact zero (x ∷ xs) ys e = absurd (omega arith)
take-append_exact (suc n) [] ys e = absurd (omega arith)
take-append_exact (suc n) (x ∷ xs) ys e = ap (◌∷◌ x) (take-append_exact n xs ys (omega arith))

pub drop-append_exact : (n : ℕ) (xs ys : List ℕ) → length xs ≡ n → drop n (xs ++ ys) ≡ ys
drop-append_exact zero [] ys e = refl
drop-append_exact zero (x ∷ xs) ys e = absurd (omega arith)
drop-append_exact (suc n) [] ys e = absurd (omega arith)
drop-append_exact (suc n) (x ∷ xs) ys e = drop-append_exact n xs ys (omega arith)

drop-nil : (k : ℕ) → drop {A = ℕ} k [] ≡ []
drop-nil zero = refl
drop-nil (suc k) = refl

suc-add : (m n : ℕ) → suc m + n ≡ suc (m + n)
suc-add m n = omega arith

pub drop-drop : (m n : ℕ) (xs : List ℕ) → drop (m + n) xs ≡ drop n (drop m xs)
drop-drop zero n xs = ap (λ k. drop k xs) (zero_add n)
  where
    zero_add : (n : ℕ) → zero + n ≡ n
    zero_add n = omega arith
drop-drop (suc m) n [] = drop-nil (suc m + n) ∙ sym (drop-nil n)
drop-drop (suc m) n (x ∷ xs) = ap (λ k. drop k (x ∷ xs)) (suc-add m n) ∙ drop-drop m n xs

-- The fields one behind the other, and what follows them.
layout : MessageHdr → List ℕ → List ℕ
layout h rest =
    to_bytes 8 h.length
    ++ (to_bytes 4 (type_code h.type)
        ++ (h.token ++ (h.padding ++ (to_bytes 8 h.sent_at.0 ++ (to_bytes 8 h.sent_at.1 ++ rest)))))

layout_eq : (h : MessageHdr) (rest : List ℕ) → hdr_bytes h ++ rest ≡ layout h rest
unfolding layout hdr_bytes
layout_eq h rest = simp append_assoc

pub length-hdr_bytes : (h : MessageHdr) → IsHdr h → length (hdr_bytes h) ≡ hdr_size
unfolding hdr_bytes
length-hdr_bytes h v = simp length-append (omega (arith, v.token_size, v.padding_size))

module _ (h : MessageHdr) (rest : List ℕ) (v : IsHdr h) where
  at_8 :
      drop 8 (layout h rest)
      ≡ to_bytes 4 (type_code h.type)
        ++ (h.token ++ (h.padding ++ (to_bytes 8 h.sent_at.0 ++ (to_bytes 8 h.sent_at.1 ++ rest))))
  unfolding layout
  at_8 = drop-append_exact 8 (to_bytes 8 h.length) _ (length-to_bytes 8 h.length)

  at_12 :
      drop 12 (layout h rest)
      ≡ h.token ++ (h.padding ++ (to_bytes 8 h.sent_at.0 ++ (to_bytes 8 h.sent_at.1 ++ rest)))
  at_12 =
      drop-drop 8 4 (layout h rest)
      ∙ ap (drop 4) at_8
      ∙ drop-append_exact 4 (to_bytes 4 (type_code h.type)) _ (length-to_bytes 4 (type_code h.type))

  at_28 :
      drop 28 (layout h rest)
      ≡ h.padding ++ (to_bytes 8 h.sent_at.0 ++ (to_bytes 8 h.sent_at.1 ++ rest))
  at_28 =
      drop-drop 12 16 (layout h rest)
      ∙ ap (drop 16) at_12
      ∙ drop-append_exact 16 h.token _ v.token_size

  at_32 : drop 32 (layout h rest) ≡ to_bytes 8 h.sent_at.0 ++ (to_bytes 8 h.sent_at.1 ++ rest)
  at_32 =
      drop-drop 28 4 (layout h rest)
      ∙ ap (drop 4) at_28
      ∙ drop-append_exact 4 h.padding _ v.padding_size

  at_40 : drop 40 (layout h rest) ≡ to_bytes 8 h.sent_at.1 ++ rest
  at_40 =
      drop-drop 32 8 (layout h rest)
      ∙ ap (drop 8) at_32
      ∙ drop-append_exact 8 (to_bytes 8 h.sent_at.0) _ (length-to_bytes 8 h.sent_at.0)

  number :
      (width n : ℕ) (after : List ℕ)
      → n < span width
      → from_bytes (take width (to_bytes width n ++ after)) ≡ n
  number width n after fits =
      ap from_bytes (take-append_exact width (to_bytes width n) after (length-to_bytes width n))
      ∙ from_bytes-to_bytes width n fits

  -- A header that fits its fields is read back from its bytes, whatever follows them.
  pub hdr_of_bytes-hdr_bytes : hdr_of_bytes (hdr_bytes h ++ rest) ≡ h
  unfolding hdr_of_bytes
  hdr_of_bytes-hdr_bytes = ap hdr_of_bytes (layout_eq h rest) ∙ fields
    where
      length_eq : from_bytes (take 8 (layout h rest)) ≡ h.length
      length_eq = unfold layout in number 8 h.length _ v.length_fits

      type_eq : type_of_code (from_bytes (take 4 (drop 8 (layout h rest)))) ≡ h.type
      type_eq =
          ap (λ x. type_of_code (from_bytes (take 4 x))) at_8
          ∙ ap type_of_code (number 4 (type_code h.type) _ v.type_fits)
          ∙ v.type_known

      token_eq : take 16 (drop 12 (layout h rest)) ≡ h.token
      token_eq = ap (take 16) at_12 ∙ take-append_exact 16 h.token _ v.token_size

      padding_eq : take 4 (drop 28 (layout h rest)) ≡ h.padding
      padding_eq = ap (take 4) at_28 ∙ take-append_exact 4 h.padding _ v.padding_size

      seconds_eq : from_bytes (take 8 (drop 32 (layout h rest))) ≡ h.sent_at.0
      seconds_eq = ap (λ x. from_bytes (take 8 x)) at_32 ∙ number 8 h.sent_at.0 _ v.seconds_fit

      nanos_eq : from_bytes (take 8 (drop 40 (layout h rest))) ≡ h.sent_at.1
      nanos_eq = ap (λ x. from_bytes (take 8 x)) at_40 ∙ number 8 h.sent_at.1 _ v.nanos_fit

      fields : hdr_of_bytes (layout h rest) ≡ h
      fields = λ i. record {
        length = length_eq i;
        type = type_eq i;
        token = token_eq i;
        padding = padding_eq i;
        sent_at = (seconds_eq i, nanos_eq i);
      }
