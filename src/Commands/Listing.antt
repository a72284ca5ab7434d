-- ===== src/Commands/Listing.antt =====
-- `cmd_list` of src/client.c: the request that it sends, and what it prints of a listing.
use mini_dropbox.Prelude.{
  ℕ, zero, suc, ◌<◌, ◌≡◌, refl, sym, ap, ◌∙◌, false, none, some, List, [], ◌∷◌, ◌++◌, ℤ, pos, map,
  arith, length, append-nil, append_assoc,
}
use mini_dropbox.UserMap.{Uuid}
use mini_dropbox.Session.{FileInfo}
use mini_dropbox.Net.{SendOutcome, sent, ok}
use mini_dropbox.Net.Loops.{stream}
use mini_dropbox.Msg.{
  MessageHdr, Message, msgtype_list_req, hdr_size, hdr_bytes, msg_init, msg_recv, outgoing,
}
use mini_dropbox.Msg.Header.{IsHdr}
use mini_dropbox.Msg.RoundTrip.{msg_recv-Arrives}
use mini_dropbox.Server.{string}
use mini_dropbox.Requests.{fileinfo_size}
use mini_dropbox.Streams.{fileinfo_of_bytes}
use mini_dropbox.Download.Listing.{Readable, entry_hdr, end_hdr, listing_bytes}
use mini_dropbox.Client.{
  Client, Host, Line, entry, on_socket, on_value, is_minus_one, with_token, load_token,
}
use mini_dropbox.Client.Steps.{step_run, socket_run}
use mini_dropbox.Commands.Asking.{sent_msg, asked, asked_run}
use mini_dropbox.Commands.{path_request, list_message, list_loop, list_path, cmd_list}

-- The line for an entry.
abbrev pub shown : List ℕ × FileInfo → Line
shown p = entry p.1.size p.1.filename

module _ {W : Type 0} (host : Host W) (now : ℕ × ℕ) (h : MessageHdr) (later : List ℕ)
    (entry_valid : IsHdr (entry_hdr now h)) (end_valid : IsHdr (end_hdr now h)) where
  -- A listing is printed entry by entry, with fuel for each of its messages.
  list_loop_run :
      (listed : List (List ℕ × FileInfo)) (fuel : ℕ) (m : Message) (c : Client W)
      → Readable listed
      → length listed < fuel
      → stream c.socket.incoming ≡ listing_bytes now h listed (hdr_bytes (end_hdr now h) ++ later)
      → (d : Client W) × (list_loop host fuel m c ≡ ok (pos 0, d))
        × (d.output ≡ c.output ++ map shown listed)
        × (d.socket.wire ≡ c.socket.wire)
  unfolding list_loop list_message
  list_loop_run listed zero m c r enough e = absurd (omega arith)
  list_loop_run [] (suc fuel) m c r enough e =
      let m0 : Message = record m { payload = none } in
      let (t, run, on, w, o) =
        msg_recv-Arrives host.now m0 fileinfo_size (end_hdr now h) [] later c.socket
          (record { valid = end_valid; counted = refl; bytes = e }) in
      (
        record c { socket = t },
        step_run (on_socket (msg_recv host.now m0 fileinfo_size)) _ c
            (socket_run (msg_recv host.now m0 fileinfo_size) c run),
        sym (append-nil c.output),
        w,
      )
  list_loop_run ((bytes, info) ∷ listed) (suc fuel) m c (size, reads, r) enough e =
      let m0 : Message = record m { payload = none } in
      let next = listing_bytes now h listed (hdr_bytes (end_hdr now h) ++ later) in
      let (t, run, on, w, o) =
        msg_recv-Arrives host.now m0 fileinfo_size (entry_hdr now h) bytes next c.socket (record {
          valid = entry_valid;
          counted = sym size;
          bytes = e ∙ append_assoc (hdr_bytes (entry_hdr now h)) bytes next;
        }) in
      let got : Message = record m0 {
        hdr = entry_hdr now h;
        rcvd_at = host.now;
        payload = some bytes;
      } in
      let received : msg_recv host.now m0 fileinfo_size c.socket ≡ ok ((pos 0, got), t) =
        run ∙ rw size refl in
      let c1 : Client W = record c { socket = t } in
      let c2 : Client W = record c1 { output = c.output ++ shown (bytes, info) ∷ [] } in
      let (d, run2, out, wire) =
        list_loop_run listed fuel got c2 r (omega arith) (on ∙ rw size refl) in
      (
        d,
        step_run (on_socket (msg_recv host.now m0 fileinfo_size)) _ c
              (socket_run (msg_recv host.now m0 fileinfo_size) c received)
            ∙ step_run (on_value (fileinfo_of_bytes (some bytes))) _ c1
                (ap (λ x. on_value x c1) reads)
            ∙ run2,
        out ∙ append_assoc c.output (shown (bytes, info) ∷ []) (map shown listed),
        wire ∙ w,
      )

module _ {W : Type 0} (host : Host W) (path : List ℕ) (token : Uuid) (width : length token ≡ 16)
    (padded : length host.junk_message.hdr.padding ≡ 4) where
  -- The message that the command sends.
  abbrev pub list_request : Message
  list_request = path_request (with_token token host.junk_message) msgtype_list_req path

  abbrev pub list_req_hdr : MessageHdr
  list_req_hdr = outgoing host.now none list_request.hdr

  -- A listing that arrives whole is success, and its entries are printed in their order.
  pub cmd_list-listed :
      (s s1 : Client W) (code : ℤ) (os : List SendOutcome) (now : ℕ × ℕ) (h : MessageHdr)
      (later : List ℕ) (listed : List (List ℕ × FileInfo)) (fuel : ℕ)
      → load_token host host.junk_message.hdr.token s ≡ ok ((code, token), s1)
      → is_minus_one code ≡ false
      → s1.socket.outcomes ≡ sent hdr_size ∷ sent (suc (length path)) ∷ os
      → IsHdr (entry_hdr now h)
      → IsHdr (end_hdr now h)
      → Readable listed
      → length listed < fuel
      → stream s1.socket.incoming ≡ listing_bytes now h listed (hdr_bytes (end_hdr now h) ++ later)
      → (d : Client W) × (cmd_list host fuel (path ∷ []) s ≡ ok (pos 0, d))
        × (d.output ≡ s1.output ++ map shown listed)
        × (d.socket.wire ≡ s1.socket.wire ++ (hdr_bytes list_req_hdr ++ string path))
  unfolding cmd_list list_path msg_init
  cmd_list-listed s s1 code os now h later listed fuel tokened good taken v1 v2 r enough e =
      let (d, run, printed, wire) =
        list_loop_run host now h later v1 v2 listed fuel
          (sent_msg host host.junk_message msgtype_list_req path token)
          (asked host host.junk_message msgtype_list_req path token s1 os) r enough e in
      (
        d,
        asked_run host host.junk_message msgtype_list_req path token width padded s s1 code os
              tokened good taken (λ sent. list_loop host fuel sent.1)
            ∙ run,
        printed,
        wire,
      )
