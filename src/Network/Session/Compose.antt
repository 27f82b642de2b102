-- ===== src/Network/Session/Compose.antt =====
-- The bytes that `Send(ProtocolId, const void*, size_t)` of CGameSession puts into a packet buffer.
use mmorpg_server.Base.{
  slice-add, drop-length_append, length-slice, slice-copy_to, ap₂, slice_ext, ◌++◌, [], ℕ, arith,
  List, length, ◌+◌, ◌≤◌, copy_to, slice, ◌≡◌, ◌∷◌, ◌++◌, drop, refl, ◌-◌, sym, drop-length_append,
  length-slice, ◌∙◌, ap, slice-add, ◌<◌, ◌^◌, u16, length-append, length-drop, take,
  take-length_append, append-nil,
}
use mmorpg_server.Common.Types.{PacketHeader, packet_header_size, max_packet_size}
use mmorpg_server.Common.PacketPool.{PacketBuffer}
use mmorpg_server.Common.Protocol.{header_to_bytes, read_header}
use mmorpg_server.Common.Protocol.RoundTrip.{read_header-header_to_bytes, length-header}
use mmorpg_server.Network.Session.{compose}
use mmorpg_server.Network.Receive.Frames.{IsMessage}

copy_to_above : (f : ℕ → ℕ) (i j : ℕ) (xs : List ℕ) → i + length xs ≤ j → copy_to f i xs j ≡ f j
copy_to_above f i j [] h = refl
copy_to_above f i j (x ∷ xs) h = ground (arith, copy_to_above f (i + 1) j xs (omega arith))

slice-zero_add : (g : ℕ → ℕ) (m n : ℕ) → slice g 0 (m + n) ≡ slice g 0 m ++ slice g m n
slice-zero_add g m n = slice-add g 0 m n ∙ ap (λ i. slice g 0 m ++ slice g i n) (omega arith)

-- Bytes written over the front of others
overwrite :
    (f : ℕ → ℕ) (xs ys : List ℕ)
    → length xs ≤ length ys
    → slice (copy_to (copy_to f 0 ys) 0 xs) 0 (length ys) ≡ xs ++ drop (length xs) ys
overwrite f xs ys h =
    let n = length ys - length xs in
    let g = copy_to f 0 ys in
    let whole : length ys ≡ length xs + n = omega arith in
    let back : slice g (length xs) n ≡ drop (length xs) ys =
      sym (
        drop-length_append (length xs) (slice g 0 (length xs)) (slice g (length xs) n)
          (sym (length-slice g 0 (length xs))))
      ∙ ap (drop (length xs)) (
          sym (slice-zero_add g (length xs) n)
          ∙ ap (slice g 0) (sym whole)
          ∙ slice-copy_to f 0 ys) in
    ap (slice (copy_to g 0 xs) 0) whole
    ∙ slice-zero_add (copy_to g 0 xs) (length xs) n
    ∙ ap₂ ◌++◌ (slice-copy_to g 0 xs) (
        slice_ext (copy_to g 0 xs) g (length xs) (length xs) n
          (λ k lt. copy_to_above g 0 (length xs + k) xs (omega arith))
        ∙ back)

-- The `Size` bytes of the buffer in which a message of at least a header and at most
-- MAX_PACKET_SIZE bytes is sent, its protocol id within 16 bits, are a header with the
-- message's length and protocol id, then the message's bytes from the fifth on; so the framing
-- of a receiver takes them for one packet.
pub compose-IsMessage :
    (b : PacketBuffer) (protocol_id : ℕ) (bytes : List ℕ) (session_id : ℕ)
    → protocol_id < 2 ^ 16
    → packet_header_size ≤ length bytes
    → length bytes ≤ max_packet_size
    → let sent = compose b protocol_id bytes session_id in
      let wire = slice sent.data_ 0 sent.size in
      (wire
        ≡ header_to_bytes (record { size = length bytes; protocol_id = protocol_id })
          ++ drop packet_header_size bytes)
      × IsMessage wire
unfolding compose
compose-IsMessage b protocol_id bytes session_id small low high =
    let h : PacketHeader = record { size = length bytes; protocol_id = protocol_id } in
    let size : u16 (length bytes) ≡ length bytes = omega arith in
    let rest = drop packet_header_size bytes in
    let wire =
      overwrite b.data_ (header_to_bytes h) bytes (omega (arith, length-header h))
      ∙ ap (λ n. header_to_bytes h ++ drop n bytes) (length-header h) in
    let total : length (header_to_bytes h ++ rest) ≡ length bytes =
      length-append (header_to_bytes h) rest
      ∙ omega (arith, length-header h, length-drop packet_header_size bytes) in
    let front : take packet_header_size (header_to_bytes h ++ rest) ≡ header_to_bytes h =
      take-length_append packet_header_size (header_to_bytes h) rest (sym (length-header h)) in
    let header : read_header (header_to_bytes h) ≡ h =
      ap read_header (sym (append-nil (header_to_bytes h)))
      ∙ read_header-header_to_bytes h []
          (record { size_u16 = omega arith; protocol_u16 = small }) in
    rw (compose, size, wire)
      (
        refl,
        record {
          sized = ap (λ t. (read_header t).size) front ∙ ap (λ t. t.size) header ∙ sym total;
          headed = omega (arith, total);
          bounded = omega (arith, total);
        },
      )
