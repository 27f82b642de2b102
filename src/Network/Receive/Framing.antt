-- ===== src/Network/Receive/Framing.antt =====
-- The loop of `HandlePacket`: how it cuts the byte stream into packets.
use mmorpg_server.Base.{
  [], ℕ, arith, ◌≤◌, List, ◌≡◌, take, slice, ◌-◌, ◌+◌, ap, ◌∙◌, slice-add, sym, take-length_append,
  length-slice, ◌∷◌, length, Bool-cases, if◌then◌else◌, ltb, suc, inl, inr, refl, zero, drop, true,
  le→leb, ==_refl, ◌<◌, ◌*◌, false, length-drop, flatten, ◌++◌,
}
use mmorpg_server.Common.Types.{packet_header_size, max_packet_size, PacketHeader}
use mmorpg_server.Common.RecvBuffer.{RecvBuffer, data_size, on_read}
use mmorpg_server.Common.RecvBuffer.Laws.{
  IsValid, contents, data_size_lem, length-contents, on_read_lem,
}
use mmorpg_server.Common.Protocol.{read_header}
use mmorpg_server.Network.World.{World, Env}
use mmorpg_server.Network.Session.{on_packet_received}
use mmorpg_server.Network.Socket.{close}
use mmorpg_server.Network.Receive.Frames.{
  split_frames-flatten, frame_of, split_frames, Frame-cases, frame_of_lem, Messages, cut_frame,
}
use mmorpg_server.Network.Receive.{
  readable, deliver, stop, invalid, next_frame, consume, handle_packet,
}

slice-take : (f : ℕ → ℕ) (i m n : ℕ) → n ≤ m → slice f i n ≡ take n (slice f i m)
slice-take f i m n h =
    let e : m ≡ n + (m - n) = omega arith in
    let whole = ap (slice f i) e ∙ slice-add f i n (m - n) in
    sym (ap (take n) whole ∙ take-length_append n (slice f i n) _ (sym (length-slice f i n)))

-- The first `n` bytes of the contents
readable_lem :
    (b : RecvBuffer) (n : ℕ) → IsValid b → n ≤ data_size b → readable b n ≡ take n (contents b)
unfolding readable
readable_lem b n v h =
    slice-take b.data_ b.read_pos (b.write_pos - b.read_pos) n (omega (arith, data_size_lem v))

-- A delivery leaves the sockets alone.
pub deliver_sockets :
    (e : Env) (w : World) (s : ℕ) (header : PacketHeader) (bytes : List ℕ)
    → (deliver e w s header bytes).sockets ≡ w.sockets
unfolding deliver on_packet_received
deliver_sockets e w s header bytes = ground arith

pub next_frame-frame_of : (b : RecvBuffer) → IsValid b → next_frame b ≡ frame_of (contents b)
unfolding next_frame frame_of
next_frame-frame_of b v =
    let size = length-contents v in
    elim (Bool-cases (ltb (data_size b) packet_header_size)) [
      | inl short ↦ simp (size, short) refl
      | inr long ↦
          let header = readable_lem b packet_header_size v (ground (arith, long)) in
          simp (size, header) refl
    ]

-- The packets delivered one after the other, each taken off the receive buffer.
unfoldable pub deliver_all : Env → World → ℕ → List (List ℕ) → World
deliver_all e w s [] = w
deliver_all e w s (bytes ∷ rest) =
    deliver_all e
      (consume (deliver e w s (read_header (take packet_header_size bytes)) bytes) s (length bytes))
      s rest

-- What a delivery and the `OnRead` after it make of the receive buffer
deliver-consume :
    (e : Env) (w : World) (s : ℕ) (header : PacketHeader) (bytes : List ℕ) (n : ℕ)
    → IsValid (w.sockets s).recv_buffer
    → n ≤ length (contents (w.sockets s).recv_buffer)
    → let b' = ((consume (deliver e w s header bytes) s n).sockets s).recv_buffer in
      (contents b' ≡ drop n (contents (w.sockets s).recv_buffer)) × IsValid b'
unfolding consume
deliver-consume e w s header bytes n v h =
    let (done, left, v') = on_read_lem n v in
    let read : (on_read (w.sockets s).recv_buffer n).0 ≡ true = done ∙ le→leb _ _ h in
    rw (ap (λ sockets. sockets s) (deliver_sockets e w s header bytes)) (
      simp (==_refl s) (
        left
            ∙ ap
                (λ all.
                  if all
                  then drop n (contents (w.sockets s).recv_buffer)
                  else contents (w.sockets s).recv_buffer)
                read,
        v',
      ))

-- `HandlePacket` with any number of rounds, on a valid receive buffer, delivers the packets
-- that the independent description of the stream cuts from the front of the bytes received, in
-- order, each once, leaves what follows them, and the buffer valid; if an invalid header
-- follows, it then closes the socket.
pub handle_packet-split_frames :
    (rounds : ℕ) (e : Env) (w : World) (s : ℕ)
    → IsValid (w.sockets s).recv_buffer
    → let split = split_frames rounds (contents (w.sockets s).recv_buffer) in
      let w' = deliver_all e w s split.frames in
      (handle_packet rounds e w s ≡ (if split.is_broken then close e w' s else w'))
      × (contents (w'.sockets s).recv_buffer ≡ split.leftover)
      × IsValid (w'.sockets s).recv_buffer
unfolding handle_packet split_frames deliver_all
handle_packet-split_frames zero e w s v = (refl, refl, v)
handle_packet-split_frames (suc rounds) e w s v =
    let b = (w.sockets s).recv_buffer in
    let same = next_frame-frame_of b v in
    elim (Frame-cases (frame_of (contents b))) [
      | inl ends ↦ rw (handle_packet, split_frames, same, ends) (refl, refl, v)
      | inr (inl broken) ↦ rw (handle_packet, split_frames, same, broken) (refl, refl, v)
      | inr (inr (h, full)) ↦
          let bytes = take h.size (contents b) in
          let (_, _, _, fits) = frame_of_lem (contents b) h full in
          let (size, header) = cut_frame (contents b) h full in
          let read = readable_lem b h.size v (omega (arith, fits, length-contents v)) in
          let w' = consume (deliver e w s h bytes) s h.size in
          let (left, v') = deliver-consume e w s h bytes h.size v fits in
          let (handled, rest, valid) = handle_packet-split_frames rounds e w' s v' in
          rw (handle_packet, split_frames, same, full, read, deliver_all, header, size, ← left)
            (handled, rest, valid)
    ]

-- With a round for each four bytes and one more, the loop ends because no complete packet is left:
-- what is left is shorter than MAX_PACKET_SIZE, or the header at its front is invalid.
pub split_frames-leftover :
    (n : ℕ) (bytes : List ℕ)
    → length bytes < packet_header_size * n
    → let split = split_frames n bytes in
      (frame_of split.leftover ≡ (if split.is_broken then invalid else stop))
      × (split.is_broken ≡ false → length split.leftover < max_packet_size)
unfolding split_frames frame_of
split_frames-leftover zero bytes h = absurd (omega arith)
split_frames-leftover (suc n) bytes h = elim (Frame-cases (frame_of bytes)) [
  | inl ends ↦ rw (split_frames, ends) (ends, λ e. ground (arith, ends))
  | inr (inl broken) ↦ rw (split_frames, broken) (broken, λ e. cc e)
  | inr (inr (header, full)) ↦
      let (_, low, _, fits) = frame_of_lem bytes header full in
      rw (split_frames, full)
        (split_frames-leftover n (drop header.size bytes)
          (omega (arith, length-drop header.size bytes)))
]

-- When the bytes in a valid receive buffer are whole messages and then the beginning of
-- another, `HandlePacket` with more rounds than there are messages delivers exactly these
-- messages, in order, and keeps the beginning for the next read.
pub handle_packet-flatten :
    (messages : List (List ℕ)) (rest : List ℕ) (rounds : ℕ) (e : Env) (w : World) (s : ℕ)
    → IsValid (w.sockets s).recv_buffer
    → contents (w.sockets s).recv_buffer ≡ flatten messages ++ rest
    → Messages messages
    → frame_of rest ≡ stop
    → length messages < rounds
    → (handle_packet rounds e w s ≡ deliver_all e w s messages)
      × (contents ((handle_packet rounds e w s).sockets s).recv_buffer ≡ rest)
handle_packet-flatten messages rest rounds e w s v bytes whole partial enough =
    let (handled, left, _) = handle_packet-split_frames rounds e w s v in
    let cut =
      ap (split_frames rounds) bytes
      ∙ split_frames-flatten messages rest rounds whole partial enough in
    let same =
      handled
      ∙ ap
          (λ split.
            let w' = deliver_all e w s split.frames in if split.is_broken then close e w' s else w')
          cut in
    (
      same,
      ap (λ t. contents (t.sockets s).recv_buffer)
            (same ∙ ap (λ split. deliver_all e w s split.frames) (sym cut))
          ∙ left
          ∙ ap (λ split. split.leftover) cut,
    )
