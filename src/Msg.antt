-- ===== src/Msg.antt =====
-- src/msg.c and src/msg.h: the message header, and sending and receiving of messages.
-- `malloc` is taken to give memory; `now` is what `clock_gettime` reads. A header travels as the
-- bytes of the struct (x86-64: little endian, four bytes of padding behind the token).
pub mod Header
pub mod Send
pub mod Receive
pub mod RoundTrip
pub mod Whole
pub mod Names
mod Tests
use mini_dropbox.Prelude.{
  ℕ, zero, suc, ◌+◌, ◌*◌, ◌/◌, ◌%◌, ◌^◌, ◌≡◌, Bool, true, false, Option, none, some, List, [], ◌∷◌,
  ◌++◌, ℤ, pos, negsuc, is_neg, if◌then◌else◌, ◌==◌, ltb, length, take, drop, replicate,
}
use mini_dropbox.UserMap.{Uuid, u64_mod}
use mini_dropbox.Net.{Socket, Run, ok, blocked, aborted, Io, pure, ◌>>=◌, send_all, recv_all}

pub data MessageType : Type 0 where
  msgtype_none msgtype_error msgtype_auth_req msgtype_auth_ok msgtype_auth_fail : MessageType
  msgtype_upload_req msgtype_upload_res msgtype_upload_fin : MessageType
  msgtype_download_req msgtype_download_res msgtype_download_fin : MessageType
  msgtype_list_req msgtype_list_res msgtype_remove_req msgtype_remove_res : MessageType
  msgtype_mkdir_req msgtype_mkdir_res msgtype_fileinfo : MessageType
  msgtype_send_chunk msgtype_chunk_ok msgtype_chunk_again : MessageType
  -- a number that no enumerator has
  other : ℕ → MessageType

pub record MessageHdr : Type 0 where
  pub length : ℕ
  pub type : MessageType
  pub token : Uuid
  pub padding : List ℕ
  pub sent_at : ℕ × ℕ

-- `payload` is what the pointer leads to; NULL is `none`.
pub record Message : Type 0 where
  pub hdr : MessageHdr
  pub rcvd_at : ℕ × ℕ
  pub payload : Option (List ℕ)
  pub payload_len : ℕ

-- sizeof(MessageHdr)
abbrev pub hdr_size : ℕ
hdr_size = 48

-- The token and the padding keep what they held.
unfoldable pub msg_init : Message → MessageType → Option (List ℕ) → ℕ → Message
msg_init self type payload length = record self {
  hdr = record (self.hdr) { length = length; type = type; sent_at = (0, 0) };
  rcvd_at = (0, 0);
  payload = payload;
  payload_len = length;
}

-- `{ 0 }`
abbrev pub zero_hdr : MessageHdr
zero_hdr = record {
  length = 0;
  type = msgtype_none;
  token = replicate 16 0;
  padding = replicate 4 0;
  sent_at = (0, 0);
}

unfoldable pub msg_clear : Message
msg_clear = record { hdr = zero_hdr; rcvd_at = (0, 0); payload = none; payload_len = 0 }

unfoldable pub type_code : MessageType → ℕ
type_code msgtype_none = 0
type_code msgtype_error = 1
type_code msgtype_auth_req = 2
type_code msgtype_auth_ok = 3
type_code msgtype_auth_fail = 4
type_code msgtype_upload_req = 5
type_code msgtype_upload_res = 6
type_code msgtype_upload_fin = 7
type_code msgtype_download_req = 8
type_code msgtype_download_res = 9
type_code msgtype_download_fin = 10
type_code msgtype_list_req = 11
type_code msgtype_list_res = 12
type_code msgtype_remove_req = 13
type_code msgtype_remove_res = 14
type_code msgtype_mkdir_req = 15
type_code msgtype_mkdir_res = 16
type_code msgtype_fileinfo = 17
type_code msgtype_send_chunk = 18
type_code msgtype_chunk_ok = 19
type_code msgtype_chunk_again = 20
type_code (other n) = n

abbrev pub enumerators : List MessageType
enumerators =
    msgtype_none ∷ msgtype_error ∷ msgtype_auth_req ∷ msgtype_auth_ok ∷ msgtype_auth_fail
    ∷ msgtype_upload_req ∷ msgtype_upload_res ∷ msgtype_upload_fin ∷ msgtype_download_req
    ∷ msgtype_download_res ∷ msgtype_download_fin ∷ msgtype_list_req ∷ msgtype_list_res
    ∷ msgtype_remove_req ∷ msgtype_remove_res ∷ msgtype_mkdir_req ∷ msgtype_mkdir_res
    ∷ msgtype_fileinfo ∷ msgtype_send_chunk ∷ msgtype_chunk_ok ∷ msgtype_chunk_again ∷ []

-- The enumerator of a number, of those that the numbers from `k` on have.
pick : ℕ → List MessageType → ℕ → MessageType
pick n [] k = other n
pick n (t ∷ ts) k = if n == k then t else pick n ts (suc k)

unfoldable pub type_of_code : ℕ → MessageType
unfolding pick
type_of_code n = pick n enumerators 0

-- The bytes of a number, the lowest first.
unfoldable pub to_bytes : ℕ → ℕ → List ℕ
to_bytes zero n = []
to_bytes (suc width) n = n % 256 ∷ to_bytes width (n / 256)

unfoldable pub from_bytes : List ℕ → ℕ
from_bytes [] = 0
from_bytes (b ∷ bs) = b + 256 * from_bytes bs

-- (void*)&msg->hdr
unfoldable pub hdr_bytes : MessageHdr → List ℕ
unfolding to_bytes type_code
hdr_bytes h =
    to_bytes 8 h.length
    ++ (to_bytes 4 (type_code h.type)
        ++ (h.token ++ (h.padding ++ (to_bytes 8 h.sent_at.0 ++ to_bytes 8 h.sent_at.1))))

unfoldable pub hdr_of_bytes : List ℕ → MessageHdr
unfolding from_bytes type_of_code
hdr_of_bytes bs = record {
  length = from_bytes (take 8 bs);
  type = type_of_code (from_bytes (take 4 (drop 8 bs)));
  token = take 16 (drop 12 bs);
  padding = take 4 (drop 28 bs);
  sent_at = (from_bytes (take 8 (drop 32 bs)), from_bytes (take 8 (drop 40 bs)));
}

-- A receive of `got` at the start of a struct whose bytes were `old`.
abbrev pub overwrite : List ℕ → List ℕ → List ℕ
overwrite got old = got ++ drop (length got) old

-- The payload of `payload_len` bytes, which have to be there.
send_payload : Message → Io ℤ
send_payload self = elim self.payload [
  | none ↦ pure (pos 0)
  | some p ↦
      if ltb (length p) self.payload_len then (λ s. aborted) else send_all (take self.payload_len p)
]

send_payload_hdr : Option (List ℕ) → Io ℤ
send_payload_hdr none = pure (pos 0)
send_payload_hdr (some bytes) = send_all bytes

-- if (payload_hdr) self->hdr.length += payload_hdr_len
abbrev pub with_payload_hdr : Option (List ℕ) → MessageHdr → MessageHdr
with_payload_hdr none h = h
with_payload_hdr (some bytes) h = record h { length = (h.length + length bytes) % u64_mod }

-- The header that goes out: stamped, and counting the payload header.
abbrev pub outgoing : ℕ × ℕ → Option (List ℕ) → MessageHdr → MessageHdr
outgoing now payload_hdr h = with_payload_hdr payload_hdr (record h { sent_at = now })

-- if (ret < 0) return …;
abbrev pub return_if_neg {ℓ} : {A : Type ℓ} → ℤ → A → Io A → Io A
return_if_neg ret value rest = if is_neg ret then pure value else rest

-- The code, and the message whose header was stamped.
unfoldable pub msg_send : ℕ × ℕ → Message → Option (List ℕ) → Io (ℤ × Message)
unfolding send_payload send_payload_hdr
msg_send now self payload_hdr = do
  let stamped : Message = record self { hdr = outgoing now payload_hdr self.hdr }
  ret ← send_all (hdr_bytes stamped.hdr)
  return_if_neg ret (ret, stamped)
      do
        ret2 ← send_payload_hdr payload_hdr
        return_if_neg ret2 (ret2, stamped)
            do
              ret3 ← send_payload stamped
              return_if_neg ret3 (ret3, stamped) (pure (pos 0, stamped))

-- recv_all(sockfd, (void*)&msg->hdr, sizeof(MessageHdr))
unfoldable pub recv_hdr : Message → Io (ℤ × Message)
recv_hdr msg = do
  r ← recv_all hdr_size
  pure (r.0, record msg { hdr = hdr_of_bytes (overwrite r.1 (hdr_bytes msg.hdr)) })

unfoldable pub msg_recv_header : ℕ × ℕ → Message → Io (ℤ × Message)
msg_recv_header now msg = do
  r ← recv_hdr msg
  return_if_neg r.0 r (pure (pos 0, record (r.1) { rcvd_at = now }))

unfoldable pub msg_recv_payload : Message → ℕ → Io (ℤ × Message)
msg_recv_payload msg maxlen =
    if ltb maxlen msg.hdr.length
    then pure (negsuc 2, msg)
    else if ltb 0 msg.hdr.length
    then (do
      r ← recv_all msg.hdr.length
      let stored : Message = record msg { payload = some r.1 }
      return_if_neg r.0 (r.0, stored) (pure (pos 0, stored)))
    else pure (pos 0, msg)

unfoldable pub msg_recv : ℕ × ℕ → Message → ℕ → Io (ℤ × Message)
unfolding msg_recv_payload
msg_recv now msg maxlen = do
  r ← recv_hdr msg
  return_if_neg r.0 r do
    q ← msg_recv_payload r.1 maxlen
    return_if_neg q.0 q (pure (pos 0, record (q.1) { rcvd_at = now }))
